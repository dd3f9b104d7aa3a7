-- ===== src/Report/Checksum.antt =====
-- ncc/report_checksum.py: the 16-bit checksum of the 1973 IMP reports.
-- A word that arrives from outside is a Python value: an integer of either sign, or no integer.
pub mod Laws
pub mod Validity
use arpanet_redux.Prelude.{
  ℕ, zero, suc, ◌+◌, ◌-◌, ◌%◌, Bool, List, [], ◌∷◌, leb, ◌==◌, if◌then◌else◌, Result, ok, err,
  ◌>>=◌,
}

pub data Value : Type 0 where
  nat : ℕ → Value
  -- the integer -(n + 1)
  negative : ℕ → Value
  other : Value

-- What the report decoders raise; an offset, a length or a code goes with it as in the message.
pub data ReportError : Type 0 where
  not_integer outside_range wrong_length wrong_code : ℕ → ReportError
  wrong_checksum : ReportError

abbrev pub word_mask : ℕ
word_mask = 0xFFFF

unfoldable pub validate_word : ℕ → Value → Result ReportError ℕ
validate_word offset (nat n) = if leb n word_mask then ok n else err (outside_range offset)
validate_word offset (negative n) = err (outside_range offset)
validate_word offset other = err (not_integer offset)

-- The loop over `enumerate(words)` with which the decoders check every word: the words, or what
-- the first value that is no word raises.
unfoldable pub words_of : ℕ → List Value → Result ReportError (List ℕ)
words_of offset [] = ok []
words_of offset (v ∷ vs) = do
  word ← validate_word offset v
  rest ← words_of (suc offset) vs
  ok (word ∷ rest)

-- The loop that both functions run; `total & WORD_MASK` is the remainder by 2 ^ 16.
unfoldable pub checksum_loop : ℕ → ℕ → List Value → Result ReportError ℕ
checksum_loop offset total [] = ok total
checksum_loop offset total (v ∷ vs) = do
  word ← validate_word offset v
  checksum_loop (suc offset) ((total + word) % 65536) vs

-- `(-total) & WORD_MASK` of a total below 2 ^ 16
unfoldable pub report_checksum : List Value → Result ReportError ℕ
unfolding checksum_loop
report_checksum payload = do total ← checksum_loop 0 0 payload; ok ((65536 - total) % 65536)

unfoldable pub has_valid_report_checksum : List Value → Result ReportError Bool
unfolding checksum_loop
has_valid_report_checksum words = do total ← checksum_loop 0 0 words; ok (total == 0)
