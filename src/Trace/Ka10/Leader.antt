-- ===== src/Trace/Ka10/Leader.antt =====
-- `ka10_message_as_nosc_words` of ncc/ka10_imp_journey.py: the words of a message with the long leader
-- as words with the short one.
pub mod Canonical
pub mod Bounds
use arpanet_redux.Prelude.{
  ℕ, zero, suc, ◌+◌, ◌-◌, ◌*◌, ◌/◌, ◌%◌, ◌^◌, ◌≤◌, ◌<◌, ◌≡◌, ◌≢◌, refl, sym, ap, subst, ◌∙◌, Bool,
  true, false, not, ◌&&◌, ◌||◌, List, [], ◌∷◌, ◌++◌, map, bit_and, ltb, leb, ◌==◌, if◌then◌else◌,
  length, take, drop, Result, ok, err, ◌>>=◌, ◌>>◌, require, require-eq-ok, All, arith,
}
use arpanet_redux.Prelude.Bits.{bit_and-15, bit_and-255}
use arpanet_redux.Host.Packet.{unpack_words}
use arpanet_redux.Trace.Ka10.{
  Ka10ImpTraceError, no_leader, no_format_flag, bad_flags, bad_address, bad_length, bad_padding,
  nonzero_padding, bad_host, Ka10ImpInputMessage,
}

abbrev pub new_format_flag : ℕ
new_format_flag = 0x0F00

abbrev pub new_for_imp : ℕ
new_for_imp = 252

-- `any(words)` is false.
abbrev pub all_zero : List ℕ → Bool
all_zero [] = true
all_zero (w ∷ ws) = w == 0 && all_zero ws

-- `flag if value & mask else 0`
abbrev pub flag : ℕ → ℕ → ℕ → ℕ
flag value mask bit = if bit_and value mask == 0 then 0 else bit

abbrev pub short_type : ℕ → ℕ → ℕ
short_type message_type subtype = if message_type == 0 && subtype == 3 then 3 else message_type

abbrev pub short_subtype : ℕ → ℕ → ℕ
short_subtype message_type subtype =
    if message_type == 0 && subtype == 3 then 0 else if message_type == 4 then 0 else subtype

abbrev pub short_host : ℕ → ℕ
short_host host = if leb new_for_imp host then host - new_for_imp else host

-- The two words of the short leader, from the words 1 to 4 of the long one. The parts of a word have no
-- bit in common, so `|` is a sum.
abbrev pub short_leader : ℕ → ℕ → ℕ → ℕ → ℕ × ℕ
short_leader w1 w2 w3 w4 =
    let flags = bit_and (w1 / 256) 15 in
    let message_type = bit_and w1 255 in
    let host_type = bit_and (w2 / 256) 255 in
    let host = bit_and w2 255 in
    let subtype = bit_and w4 15 in
    let old_flags =
      flag flags 8 2
      + flag flags 4 1
      + (if leb new_for_imp host then 4 else 0)
      + flag host_type 128 8 in
    (
      old_flags * 4096 + short_type message_type subtype * 256 + short_host host * 64 + w3,
      (bit_and w4 0xFFF0 / 16) * 16 + short_subtype message_type subtype,
    )

-- The checks on the words 1 to 3; of the four flags those but trace and octal are 3.
unfoldable pub check_leader : ℕ → ℕ → ℕ → Result Ka10ImpTraceError (Unit {0})
check_leader w1 w2 w3 = do
  require (bit_and w1 0xF000 == 0 && bit_and (bit_and (w1 / 256) 15) 3 == 0) bad_flags
  require
      (not
        (not (bit_and (bit_and (w2 / 256) 255) 127 == 7) || (ltb 63 w3 || ltb 15 (bit_and w1 255))))
      bad_address

-- The checks on the length, and the words of data behind the leader.
unfoldable pub data_words : ℕ → ℕ → List ℕ → Result Ka10ImpTraceError (List ℕ)
data_words bits data_bits rest = do
  require (not (not (data_bits % 16 == 0) || ltb (bits - 96) data_bits)) bad_length
  let padding_bits = bits - 96 - data_bits
  require (padding_bits % 16 == 0) bad_padding
  require (all_zero (take (padding_bits / 16) rest)) nonzero_padding
  require (length (drop (padding_bits / 16) rest) * 16 == data_bits) bad_length
  ok (drop (padding_bits / 16) rest)

-- From the long words; a message of 96 bits or more has six.
unfoldable pub nosc_words : ℕ → List ℕ → Result Ka10ImpTraceError (List ℕ)
unfolding check_leader data_words
nosc_words bits (w0 ∷ w1 ∷ w2 ∷ w3 ∷ w4 ∷ w5 ∷ rest) = do
  require (w0 == new_format_flag) no_format_flag
  check_leader w1 w2 w3
  after ← data_words bits w5 rest
  require (leb (short_host (bit_and w2 255)) 3) bad_host
  ok ((short_leader w1 w2 w3 w4).0 ∷ (short_leader w1 w2 w3 w4).1 ∷ after)
nosc_words bits _ = err no_leader

unfoldable pub ka10_message_as_nosc_words : Ka10ImpInputMessage → Result Ka10ImpTraceError (List ℕ)
unfolding nosc_words
ka10_message_as_nosc_words m = do
  require (not (ltb m.bit_count 96 || not (m.bit_count % 16 == 0))) no_leader
  nosc_words m.bit_count (unpack_words (length m.content / 2) m.content)
