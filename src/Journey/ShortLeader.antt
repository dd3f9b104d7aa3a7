-- ===== src/Journey/ShortLeader.antt =====
-- `decode_nosc_short_leader` of ncc/message_journey.py: the leader fields in two to five words.
use arpanet_redux.Prelude.{
  ℕ, ◌+◌, ◌*◌, ◌/◌, ◌%◌, ◌^◌, ◌≤◌, ◌<◌, ◌≡◌, refl, ap, ◌∙◌, true, false, Option, none, some, List,
  [], ◌∷◌, leb, ◌==◌, if◌then◌else◌, bit_and, Result, ok, err, ◌>>=◌, ◌>>◌, require, map, length,
  All, le→leb, arith, Bool-cases, inl, inr,
}
use arpanet_redux.Prelude.Bits.{bit_and-255}
use arpanet_redux.Report.Checksum.{Value, nat, negative}
use arpanet_redux.Journey.{
  MessageClass, DecodedMessage, JourneyValidationError, not_word, too_short,
}
use arpanet_redux.Journey.Checks.{decoded_message}

abbrev pub unsigned_word : Value → Result JourneyValidationError ℕ
unsigned_word (nat n) = if leb n 0xFFFF then ok n else err not_word
unsigned_word (negative n) = err not_word
unsigned_word Value.other = err not_word

unfoldable pub unsigned_words : List Value → Result JourneyValidationError (List ℕ)
unsigned_words [] = ok []
unsigned_words (v ∷ vs) = do w ← unsigned_word v; rest ← unsigned_words vs; ok (w ∷ rest)

-- `(word >> 8) & 0xFF` and `word & 0xFF`
abbrev pub high : ℕ → ℕ
high w = bit_and (w / 2 ^ 8) 0xFF

abbrev pub low : ℕ → ℕ
low w = bit_and w 0xFF

abbrev pub message_class : ℕ → MessageClass
message_class t =
    if t == 0
    then MessageClass.regular
    else if t == 1
    then MessageClass.error_with_leader
    else if t == 4
    then MessageClass.nop
    else if t == 5
    then MessageClass.rfnm
    else MessageClass.imp_control

-- `fields` before `fields.update`
abbrev pub leader_only : ℕ → ℕ → DecodedMessage
leader_only first second = record {
  message_class = message_class (high first);
  leader_format = "nosc-short-1822-ncp";
  message_type = some (high first);
  host = some (low first);
  link = some (high second);
  subtype = some (low second);
  m1 = none;
  byte_size = none;
  byte_count = none;
  m2 = none;
  ncp_opcode = none;
}

abbrev pub opcode : ℕ → ℕ → Option ℕ
opcode link w = if link == 0 then some (low w) else none

-- `fields` behind `fields.update`, which takes a regular message of at least five words.
abbrev pub with_header : ℕ → ℕ → ℕ → ℕ → ℕ → DecodedMessage
with_header first second third fourth fifth = record (leader_only first second) {
  m1 = some (high third);
  byte_size = some (low third);
  byte_count = some fourth;
  m2 = some (high fifth);
  ncp_opcode = opcode (high second) fifth;
}

abbrev pub fields : ℕ → ℕ → List ℕ → DecodedMessage
fields first second (third ∷ fourth ∷ fifth ∷ rest) =
    if high first == 0
    then with_header first second third fourth fifth
    else leader_only first second
fields first second [] = leader_only first second
fields first second (a ∷ []) = leader_only first second
fields first second (a ∷ b ∷ []) = leader_only first second

abbrev pub checked : DecodedMessage → Result JourneyValidationError DecodedMessage
checked d = decoded_message d >> ok d

abbrev pub decode_words : List ℕ → Result JourneyValidationError DecodedMessage
decode_words [] = err too_short
decode_words (first ∷ []) = err too_short
decode_words (first ∷ second ∷ rest) = checked (fields first second rest)

unfoldable pub decode_nosc_short_leader : List Value → Result JourneyValidationError DecodedMessage
unfolding unsigned_words
decode_nosc_short_leader words = do
  require (leb 2 (length words)) too_short
  ws ← unsigned_words words
  decode_words ws

-- Words are read as what they are.
unsigned_words-nat : (ws : List ℕ) → All (λ w. w < 65536) ws → unsigned_words (map nat ws) ≡ ok ws
unfolding unsigned_words
unsigned_words-nat [] h = refl
unsigned_words-nat (w ∷ ws) (h, hs) = ground (arith, unsigned_words-nat ws hs)

leader_only-passes : (first second : ℕ) → decoded_message (leader_only first second) ≡ ok tt
unfolding decoded_message
leader_only-passes first second = ground (
  arith,
  bit_and-255 (first / 256),
  bit_and-255 first,
  bit_and-255 (second / 256),
  bit_and-255 second,
)

with_header-passes :
    (first second third fourth fifth : ℕ)
    → fourth < 65536
    → decoded_message (with_header first second third fourth fifth) ≡ ok tt
unfolding decoded_message
with_header-passes first second third fourth fifth h = ground (
  arith,
  bit_and-255 (first / 256),
  bit_and-255 first,
  bit_and-255 (second / 256),
  bit_and-255 second,
  bit_and-255 (third / 256),
  bit_and-255 third,
  bit_and-255 (fifth / 256),
  bit_and-255 fifth,
)

-- The word that two fields make up.
abbrev pub word_of : Option ℕ → Option ℕ → Option ℕ
word_of (some a) (some b) = some (a * 256 + b)
word_of none b = none
word_of (some a) none = none

abbrev pub NoHeader : DecodedMessage → Type 0
NoHeader d =
    (d.m1 ≡ none)
    × (d.byte_size ≡ none)
    × (d.byte_count ≡ none)
    × (d.m2 ≡ none)
    × (d.ncp_opcode ≡ none)

-- The header fields of a regular message, from the three words behind the leader.
abbrev pub Header : ℕ → ℕ → ℕ → ℕ → DecodedMessage → Type 0
Header second third fourth fifth d =
    (word_of d.m1 d.byte_size ≡ some third)
    × (d.byte_count ≡ some fourth)
    × (d.m2 ≡ some (fifth / 256))
    × (second < 256 → d.ncp_opcode ≡ some (fifth % 256))
    × (256 ≤ second → d.ncp_opcode ≡ none)

abbrev pub HeaderOf : ℕ → ℕ → List ℕ → DecodedMessage → Type 0
HeaderOf first second (third ∷ fourth ∷ fifth ∷ rest) d =
    (first < 256 → Header second third fourth fifth d) × (256 ≤ first → NoHeader d)
HeaderOf first second [] d = NoHeader d
HeaderOf first second (a ∷ []) d = NoHeader d
HeaderOf first second (a ∷ b ∷ []) d = NoHeader d

fields-passes :
    (first second : ℕ) (rest : List ℕ)
    → All (λ w. w < 65536) rest
    → decoded_message (fields first second rest) ≡ ok tt
fields-passes first second [] h = leader_only-passes first second
fields-passes first second (a ∷ []) h = leader_only-passes first second
fields-passes first second (a ∷ b ∷ []) h = leader_only-passes first second
fields-passes first second (third ∷ fourth ∷ fifth ∷ rest) (_, (b, _)) =
    ground
      (arith, leader_only-passes first second, with_header-passes first second third fourth fifth b)

halves : (w : ℕ) → w < 65536 → high w * 256 + low w ≡ w
halves w h = omega (arith, bit_and-255 (w / 256), bit_and-255 w)

leader-words :
    (first second : ℕ)
    → first < 65536
    → second < 65536
    → (word_of (some (high first)) (some (low first)) ≡ some first)
      × (word_of (some (high second)) (some (low second)) ≡ some second)
leader-words first second a b = (ap some (halves first a), ap some (halves second b))

fields-words :
    (first second : ℕ) (rest : List ℕ)
    → first < 65536
    → second < 65536
    → (word_of (fields first second rest).message_type (fields first second rest).host ≡ some first)
      × (word_of (fields first second rest).link (fields first second rest).subtype ≡ some second)
fields-words first second [] a b = leader-words first second a b
fields-words first second (x ∷ []) a b = leader-words first second a b
fields-words first second (x ∷ y ∷ []) a b = leader-words first second a b
fields-words first second (x ∷ y ∷ z ∷ rest) a b = elim (Bool-cases (high first == 0)) [
  | inl e ↦ rw e (leader-words first second a b)
  | inr e ↦ rw e (leader-words first second a b)
]

fields-HeaderOf :
    (first second : ℕ) (rest : List ℕ)
    → first < 65536
    → second < 65536
    → All (λ w. w < 65536) rest
    → HeaderOf first second rest (fields first second rest)
fields-HeaderOf first second [] a b h = (refl, refl, refl, refl, refl)
fields-HeaderOf first second (x ∷ []) a b h = (refl, refl, refl, refl, refl)
fields-HeaderOf first second (x ∷ y ∷ []) a b h = (refl, refl, refl, refl, refl)
fields-HeaderOf first second (third ∷ fourth ∷ fifth ∷ rest) a b (c, (d, (e, h))) = (
  λ s.
      let t : (high first == 0) ≡ true = ground (arith, bit_and-255 (first / 256)) in
      rw t (
        ap some (halves third c),
        refl,
        ap some (omega (arith, bit_and-255 (fifth / 256))),
        λ l. ground (arith, bit_and-255 (second / 256), bit_and-255 fifth),
        λ l. ground (arith, bit_and-255 (second / 256)),
      ),
  λ s.
      let t : (high first == 0) ≡ false = ground (arith, bit_and-255 (first / 256)) in
      rw t (refl, refl, refl, refl, refl),
)

-- Two 16-bit words or more are always decoded. The two leader words are exactly in the four leader
-- fields. A regular message of five words or more has the next three words in the header fields,
-- but for the low byte of the fifth off link 0; any other message has no header.
pub decode_nosc_short_leader-total :
    (first second : ℕ) (rest : List ℕ)
    → first < 65536
    → second < 65536
    → All (λ w. w < 65536) rest
    → (d : DecodedMessage) × (decode_nosc_short_leader (map nat (first ∷ second ∷ rest)) ≡ ok d)
      × (word_of d.message_type d.host ≡ some first)
      × (word_of d.link d.subtype ≡ some second)
      × HeaderOf first second rest d
unfolding decode_nosc_short_leader
decode_nosc_short_leader-total first second rest a b h =
    let ws = first ∷ second ∷ rest in
    let long : leb 2 (length (map nat ws)) ≡ true = le→leb 2 (length (map nat ws)) (omega arith) in
    let (p, q) = fields-words first second rest a b in
    (
      fields first second rest,
      ap (λ t. require t too_short >> (unsigned_words (map nat ws) >>= decode_words)) long
          ∙ ap (λ r. r >>= decode_words) (unsigned_words-nat ws (a, (b, h)))
          ∙ ap (λ r. r >> ok (fields first second rest)) (fields-passes first second rest h),
      p,
      q,
      fields-HeaderOf first second rest a b h,
    )
