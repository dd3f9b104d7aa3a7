-- ===== src/Trace/Ka10/Leader/Bounds.antt =====
-- The words with the short leader are words, which the decoder of short leaders accepts.
use arpanet_redux.Prelude.{
  ℕ, zero, suc, ◌-◌, ◌*◌, ◌/◌, ◌%◌, ◌≤◌, ◌<◌, ◌≡◌, sym, ap, subst, ◌∙◌, not, ◌||◌, ltb, leb, leb→le,
  ◌==◌, if◌then◌else◌, some, List, [], ◌∷◌, map, bit_and, length, ok, >>=-eq-ok, ok-injective,
  require-eq-ok, All, All-drop, arith,
}
use arpanet_redux.Prelude.Bits.{bit_and-15, bit_and-shift, bit_and-4095}
use arpanet_redux.Host.Packet.{unpack_words}
use arpanet_redux.Journey.{DecodedMessage}
use arpanet_redux.Journey.ShortLeader.{
  word_of, decode_nosc_short_leader, decode_nosc_short_leader-total,
}
use arpanet_redux.Report.Checksum.{nat}
use arpanet_redux.Trace.Ka10.{Ka10ImpInputMessage, no_format_flag, bad_host, no_leader}
use arpanet_redux.Trace.Ka10.Leader.{
  new_format_flag, new_for_imp, flag, short_type, short_subtype, short_leader, short_host,
  check_leader, data_words, nosc_words, ka10_message_as_nosc_words,
}

abbrev IsWord : ℕ → Type 0
IsWord w = w < 65536

unpack_words-IsWord :
    (n : ℕ) (bytes : List ℕ) → All (λ b. b < 256) bytes → All IsWord (unpack_words n bytes)
unfolding unpack_words
unpack_words-IsWord zero bytes h = tt
unpack_words-IsWord (suc n) [] h = tt
unpack_words-IsWord (suc n) (b ∷ []) h = tt
unpack_words-IsWord (suc n) (b ∷ c ∷ bytes) (hb, (hc, h)) =
    (omega arith, unpack_words-IsWord n bytes h)

data_words-eq-ok :
    (bits data_bits : ℕ) (rest after : List ℕ)
    → data_words bits data_bits rest ≡ ok after
    → All IsWord rest
    → All IsWord after
unfolding data_words
data_words-eq-ok bits data_bits rest after h words =
    let k = (bits - 96 - data_bits) / 16 in
    subst (All IsWord) (ground arith) (All-drop IsWord k rest words)

flag-le : (value mask bit : ℕ) → flag value mask bit ≤ bit
flag-le value mask bit = ground arith

for_imp-le : (host : ℕ) → (if leb new_for_imp host then 4 else 0) ≤ 4
for_imp-le host = ground arith

short_type-le : (t s : ℕ) → t ≤ 15 → short_type t s ≤ 15
short_type-le t s h = ground arith

short_subtype-le : (t s : ℕ) → short_subtype t s ≤ s
short_subtype-le t s = ground arith

-- `& 0xFFF0` clears the low four bits.
pub bit_and-65520 : (w : ℕ) → bit_and w 65520 ≡ w / 16 % 4096 * 16
bit_and-65520 w = omega (arith, bit_and-shift 4 w 4095, bit_and-4095 (w / 16))

check_leader-le : (w1 w2 w3 : ℕ) → check_leader w1 w2 w3 ≡ ok tt → (w3 ≤ 63) × (bit_and w1 255 ≤ 15)
unfolding check_leader
check_leader-le w1 w2 w3 c = ground arith

short_leader-IsWord :
    (w1 w2 w3 w4 : ℕ)
    → check_leader w1 w2 w3 ≡ ok tt
    → short_host (bit_and w2 255) ≤ 3
    → IsWord (short_leader w1 w2 w3 w4).0 × IsWord (short_leader w1 w2 w3 w4).1
short_leader-IsWord w1 w2 w3 w4 c k =
    let (a, b) = check_leader-le w1 w2 w3 c in
    let flags = bit_and (w1 / 256) 15 in
    (
      omega (
        arith,
        flag-le flags 8 2,
        flag-le flags 4 1,
        flag-le (bit_and (w2 / 256) 255) 128 8,
        for_imp-le (bit_and w2 255),
        short_type-le (bit_and w1 255) (bit_and w4 15) b,
      ),
      omega (
        arith,
        bit_and-65520 w4,
        bit_and-15 w4,
        short_subtype-le (bit_and w1 255) (bit_and w4 15),
      ),
    )

-- The words behind the two of the leader.
abbrev Split : List ℕ → Type 0
Split ws =
    (first : ℕ) × ((second : ℕ) × ((after : List ℕ) × (ws ≡ first ∷ second ∷ after)
        × IsWord first
        × IsWord second
        × All IsWord after))

nosc_words-Split :
    (bits : ℕ) (long ws : List ℕ) → All IsWord long → nosc_words bits long ≡ ok ws → Split ws
unfolding nosc_words
nosc_words-Split bits [] ws l h = cc
nosc_words-Split bits (a ∷ []) ws l h = cc
nosc_words-Split bits (a ∷ b ∷ []) ws l h = cc
nosc_words-Split bits (a ∷ b ∷ c ∷ []) ws l h = cc
nosc_words-Split bits (a ∷ b ∷ c ∷ d ∷ []) ws l h = cc
nosc_words-Split bits (a ∷ b ∷ c ∷ d ∷ e ∷ []) ws l h = cc
nosc_words-Split bits (w0 ∷ w1 ∷ w2 ∷ w3 ∷ w4 ∷ w5 ∷ rest) ws (_, (_, (_, (_, (_, (_, l)))))) h =
    let (_, h1) = require-eq-ok (w0 == new_format_flag) no_format_flag _ h in
    let (_, c, h2) = >>=-eq-ok (check_leader w1 w2 w3) _ h1 in
    let (after, d, h3) = >>=-eq-ok (data_words bits w5 rest) _ h2 in
    let (k, h4) = require-eq-ok (leb (short_host (bit_and w2 255)) 3) bad_host _ h3 in
    let (f, g) = short_leader-IsWord w1 w2 w3 w4 c (leb→le _ _ k) in
    (
      (short_leader w1 w2 w3 w4).0,
      (
        (short_leader w1 w2 w3 w4).1,
        (after, sym (ok-injective h4), f, g, data_words-eq-ok bits w5 rest after d l),
      ),
    )

-- A message of octets that is turned into words with the short leader gives two words of leader at
-- least, all of 16 bits, and the decoder of short leaders accepts them, with the four fields that
-- hold the two words.
pub ka10_message_as_nosc_words-decoded :
    (m : Ka10ImpInputMessage) (ws : List ℕ)
    → All (λ b. b < 256) m.content
    → ka10_message_as_nosc_words m ≡ ok ws
    → (first : ℕ) × ((second : ℕ) × ((after : List ℕ) × (ws ≡ first ∷ second ∷ after)
          × All (λ w. w < 65536) ws
          × ((d : DecodedMessage) × (decode_nosc_short_leader (map nat ws) ≡ ok d)
              × (word_of d.message_type d.host ≡ some first)
              × (word_of d.link d.subtype ≡ some second))))
unfolding ka10_message_as_nosc_words
ka10_message_as_nosc_words-decoded m ws octets h =
    let (_, h1) =
      require-eq-ok (not (ltb m.bit_count 96 || not (m.bit_count % 16 == 0))) no_leader _ h in
    let long = unpack_words (length m.content / 2) m.content in
    let (first, (second, (after, e, f, g, l))) =
      nosc_words-Split m.bit_count long ws (unpack_words-IsWord _ m.content octets) h1 in
    let (d, made, p, q, _) = decode_nosc_short_leader-total first second after f g l in
    (
      first,
      (
        second,
        (
          after,
          e,
          subst (All IsWord) (sym e) (f, (g, l)),
          (d, ap (λ vs. decode_nosc_short_leader (map nat vs)) e ∙ made, p, q),
        ),
      ),
    )
