-- ===== src/Trace/Imp11a.antt =====
-- ncc/imp11a_journey.py: `parse_imp11a_trace` over its matched lines.
pub mod Format
pub mod Sound
pub mod Accepts
use arpanet_redux.Prelude.{
  ℕ, ◌+◌, ◌*◌, ◌/◌, ◌%◌, Bool, true, false, not, ◌&&◌, ◌||◌, Option, none, some, List, [], ◌∷◌,
  ◌++◌, ltb, leb, ◌==◌, length, Result, ok, err, ◌>>=◌, ◌>>◌, require,
}

pub data Imp11aTraceError : Type 0 where
  interrupted bad_sequence not_contiguous tick_back : Imp11aTraceError
  no_message other_message word_order bad_address not_word not_swapped : Imp11aTraceError
  wrong_count malformed_record incomplete_trace : Imp11aTraceError

-- The groups of `_DMA`.
pub record Store : Type 0 where
  pub tick : ℕ
  pub sequence : ℕ
  pub word_index : ℕ
  pub dma_address : ℕ
  pub wire_value : ℕ
  pub guest_value : ℕ

-- A line: one that the marker does not stand in, a match of `_MESSAGE`, `_DMA` or `_COMPLETE` with its
-- groups (tick first), or one that has the marker and no match.
pub data Line : Type 0 where
  unmarked malformed : Line
  message : (tick sequence : ℕ) → Line
  dma : Store → Line
  complete : (tick sequence words : ℕ) → Line

pub record Imp11aInputWord : Type 0 where
  pub word_index : ℕ
  pub dma_address : ℕ
  pub wire_value : ℕ
  pub guest_value : ℕ
  pub store_tick : ℕ

pub record Imp11aInputMessage : Type 0 where
  pub source_local_sequence : ℕ
  pub start_tick : ℕ
  pub complete_tick : ℕ
  pub words : List Imp11aInputWord

pub record PendingMessage : Type 0 where
  pub sequence : ℕ
  pub start_tick : ℕ
  pub words : List Imp11aInputWord

-- `((wire_value << 8) & 0xFFFF) | (wire_value >> 8)` of a word: the two parts have no bit in common.
abbrev pub pdp11_memory_word : ℕ → ℕ
pdp11_memory_word wire = (wire * 256) % 65536 + wire / 256

-- `previous is None or current >= previous`
abbrev pub is_monotonic : Option ℕ → ℕ → Bool
is_monotonic none t = true
is_monotonic (some previous) t = not (ltb t previous)

abbrev pub is_next : Option ℕ → ℕ → Bool
is_next none n = true
is_next (some previous) n = n == previous + 1

-- The branch of a matched DMA store: the word that it stores.
unfoldable pub stored_word :
    Store → PendingMessage → Option ℕ → Result Imp11aTraceError Imp11aInputWord
stored_word d p previous = do
  require (d.sequence == p.sequence) other_message
  require (d.word_index == length p.words) word_order
  require (not (ltb 0o777776 d.dma_address || not (d.dma_address % 2 == 0))) bad_address
  require (not (ltb 0o177777 d.wire_value || ltb 0o177777 d.guest_value)) not_word
  require (d.guest_value == pdp11_memory_word d.wire_value) not_swapped
  require (is_monotonic previous d.tick) tick_back
  ok (record {
    word_index = d.word_index;
    dma_address = d.dma_address;
    wire_value = d.wire_value;
    guest_value = d.guest_value;
    store_tick = d.tick;
  })

unfoldable pub check_message : ℕ → ℕ → Option ℕ → Option ℕ → Result Imp11aTraceError (Unit {0})
check_message tick sequence previous_sequence previous_tick = do
  require (not (sequence == 0)) bad_sequence
  require (is_next previous_sequence sequence) not_contiguous
  require (is_monotonic previous_tick tick) tick_back

unfoldable pub check_complete :
    ℕ → ℕ → ℕ → PendingMessage → Option ℕ → Result Imp11aTraceError (Unit {0})
check_complete tick sequence words p previous = do
  require (sequence == p.sequence) other_message
  require (not (words == 0 || not (words == length p.words))) wrong_count
  require (is_monotonic previous tick) tick_back

-- The loop, over the lines that are left, with `pending`, `previous_sequence` and `previous_tick`. It
-- returns the messages that it appends from there on.
unfoldable pub parse_lines :
    List Line
    → Option PendingMessage
    → Option ℕ
    → Option ℕ
    → Result Imp11aTraceError (List Imp11aInputMessage)
parse_lines [] none n t = ok []
parse_lines [] (some p) n t = err incomplete_trace
parse_lines (unmarked ∷ rest) pending n t = parse_lines rest pending n t
parse_lines (malformed ∷ rest) pending n t = err malformed_record
parse_lines (message tick sequence ∷ rest) (some p) n t = err interrupted
parse_lines (message tick sequence ∷ rest) none n t = do
  check_message tick sequence n t
  parse_lines rest (some (record { sequence = sequence; start_tick = tick; words = [] }))
      (some sequence) (some tick)
parse_lines (dma d ∷ rest) none n t = err no_message
parse_lines (dma d ∷ rest) (some p) n t = do
  w ← stored_word d p t
  parse_lines rest (some (record p { words = p.words ++ (w ∷ []) })) n (some d.tick)
parse_lines (complete tick sequence words ∷ rest) none n t = err no_message
parse_lines (complete tick sequence words ∷ rest) (some p) n t = do
  check_complete tick sequence words p t
  messages ← parse_lines rest none n (some tick)
  ok (
      record {
        source_local_sequence = sequence;
        start_tick = p.start_tick;
        complete_tick = tick;
        words = p.words;
      }
      ∷ messages)

unfoldable pub parse_imp11a_trace : List Line → Result Imp11aTraceError (List Imp11aInputMessage)
unfolding parse_lines
parse_imp11a_trace lines = parse_lines lines none none none
