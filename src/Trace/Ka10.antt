-- ===== src/Trace/Ka10.antt =====
-- ncc/ka10_imp_journey.py: `parse_ka10_imp_trace` over its matched lines.
pub mod Format
pub mod Sound
pub mod Accepts
pub mod Leader
use arpanet_redux.Prelude.{
  ℕ, zero, suc, ◌+◌, ◌-◌, ◌*◌, ◌/◌, ◌%◌, ◌^◌, Bool, true, false, not, ◌&&◌, ◌||◌, Option, none,
  some, List, [], ◌∷◌, ◌++◌, ltb, leb, ◌==◌, if◌then◌else◌, length, Result, ok, err, ◌>>=◌, ◌>>◌,
  require,
}
use arpanet_redux.Trace.Imp11a.{is_monotonic, is_next}

pub data Ka10ImpTraceError : Type 0 where
  interrupted bad_size not_contiguous tick_back : Ka10ImpTraceError
  no_message other_message word_order start_order bad_width bad_valid : Ka10ImpTraceError
  no_assembly other_assembly not_covered overflow : Ka10ImpTraceError
  no_leader no_format_flag bad_flags bad_address bad_length bad_padding nonzero_padding bad_host :
      Ka10ImpTraceError
  malformed_record incomplete_trace : Ka10ImpTraceError

-- The groups of `_ASSEMBLY`; `last` is its digit 0 or 1 as `bool(last)`.
pub record Assembly : Type 0 where
  pub tick : ℕ
  pub sequence : ℕ
  pub word_index : ℕ
  pub message_bits : ℕ
  pub start_bit : ℕ
  pub width : ℕ
  pub valid_bits : ℕ
  pub last : Bool
  pub value : ℕ

-- The groups of `_CONSUME`.
pub record Consumption : Type 0 where
  pub tick : ℕ
  pub sequence : ℕ
  pub word_index : ℕ
  pub width : ℕ
  pub valid_bits : ℕ
  pub last : Bool
  pub value : ℕ
  pub program_counter : ℕ

-- A line with the marker: a match of `_MESSAGE`, `_ASSEMBLY` or `_CONSUME`, or of none of them.
pub data Line : Type 0 where
  malformed : Line
  message : (tick sequence bits : ℕ) → Line
  assembly : Assembly → Line
  consume : Consumption → Line

pub record Ka10ImpInputWord : Type 0 where
  pub word_index : ℕ
  pub start_bit : ℕ
  pub width : ℕ
  pub valid_bits : ℕ
  pub last : Bool
  pub value : ℕ
  pub assembly_tick : ℕ
  pub consume_tick : ℕ
  pub program_counter : ℕ

pub record Ka10ImpInputMessage : Type 0 where
  pub source_local_sequence : ℕ
  pub receive_tick : ℕ
  pub bit_count : ℕ
  pub words : List Ka10ImpInputWord
  pub content : List ℕ

-- `_PendingMessage` but for its assembly, which stands beside it in the loop.
pub record PendingMessage : Type 0 where
  pub sequence : ℕ
  pub receive_tick : ℕ
  pub bit_count : ℕ
  pub words : List Ka10ImpInputWord

-- `_MARKER not in line`: such a line is `none`, and is passed over.
abbrev pub marked : List (Option Line) → List Line
marked [] = []
marked (none ∷ rest) = marked rest
marked (some l ∷ rest) = l ∷ marked rest

-- `sum(word.width for word in pending.words)`
abbrev pub width_of : List Ka10ImpInputWord → ℕ
width_of [] = 0
width_of (w ∷ ws) = w.width + width_of ws

abbrev pub smaller : ℕ → ℕ → ℕ
smaller a b = if leb a b then a else b

abbrev pub same_bool : Bool → Bool → Bool
same_bool true b = b
same_bool false b = not b

unfoldable pub check_message : ℕ → ℕ → ℕ → Option ℕ → Option ℕ → Result Ka10ImpTraceError (Unit {0})
check_message tick sequence bits previous_sequence previous_tick = do
  require (not (bits == 0 || not (bits % 8 == 0))) bad_size
  require (is_next previous_sequence sequence) not_contiguous
  require (is_monotonic previous_tick tick) tick_back

unfoldable pub check_assembly :
    Assembly → PendingMessage → Option ℕ → Result Ka10ImpTraceError (Unit {0})
check_assembly a p previous = do
  require (not (not (a.sequence == p.sequence) || not (a.message_bits == p.bit_count)))
      other_message
  require (a.word_index == length p.words) word_order
  require (a.start_bit == width_of p.words) start_order
  require (not (not (a.width == 32 || a.width == 36) || (a.width == 32 && not (a.value % 16 == 0))))
      bad_width
  require
      (a.valid_bits == smaller a.width (p.bit_count - a.start_bit)
        && same_bool a.last (leb p.bit_count (a.start_bit + a.width)))
      bad_valid
  require (is_monotonic previous a.tick) tick_back

unfoldable pub check_consume :
    Consumption → Assembly → PendingMessage → Option ℕ → Result Ka10ImpTraceError (Unit {0})
check_consume c a p previous = do
  require
      (c.sequence == p.sequence
        && (c.word_index == a.word_index
            && (c.width == a.width
                && (c.valid_bits == a.valid_bits
                    && (same_bool c.last a.last && c.value == a.value)))))
      other_assembly
  require (is_monotonic previous c.tick) tick_back

abbrev pub input_word : Consumption → Assembly → Ka10ImpInputWord
input_word c a = record {
  word_index = c.word_index;
  start_bit = a.start_bit;
  width = c.width;
  valid_bits = c.valid_bits;
  last = c.last;
  value = c.value;
  assembly_tick = a.tick;
  consume_tick = c.tick;
  program_counter = c.program_counter;
}

-- The loop of `_reconstruct`: the number of bits and their value. A value has 36 bits, so the part
-- that is kept has `valid_bits` of them and `|` is a sum; a part of no bits adds nothing.
unfoldable pub join_words : List Ka10ImpInputWord → ℕ → ℕ → ℕ × ℕ
join_words [] bits value = (bits, value)
join_words (w ∷ ws) bits value = join_words ws (bits + w.valid_bits) (
    if w.valid_bits == 0
    then value
    else value * 2 ^ w.valid_bits + w.value / 2 ^ (36 - w.valid_bits))

-- The octets of a number, the most significant first.
unfoldable pub octets_of : ℕ → ℕ → List ℕ
octets_of zero value = []
octets_of (suc n) value = octets_of n (value / 256) ++ (value % 256) ∷ []

-- `value.to_bytes(count, "big")`
unfoldable pub to_bytes : ℕ → ℕ → Result Ka10ImpTraceError (List ℕ)
unfolding octets_of
to_bytes count value = do require (ltb value (2 ^ (8 * count))) overflow; ok (octets_of count value)

unfoldable pub reconstruct : PendingMessage → Result Ka10ImpTraceError (List ℕ)
unfolding join_words to_bytes
reconstruct p = do
  let joined = join_words p.words 0 0
  require (joined.0 == p.bit_count) not_covered
  to_bytes (joined.0 / 8) joined.1

abbrev pub add_word : PendingMessage → Ka10ImpInputWord → PendingMessage
add_word p w = record p { words = p.words ++ (w ∷ []) }

-- `pending`: no message, a message, or a message with an assembly.
pub data Phase : Type 0 where
  idle : Phase
  reading : PendingMessage → Phase
  assembled : PendingMessage → Assembly → Phase

abbrev pub input_message : PendingMessage → List ℕ → Ka10ImpInputMessage
input_message p content = record {
  source_local_sequence = p.sequence;
  receive_tick = p.receive_tick;
  bit_count = p.bit_count;
  words = p.words;
  content = content;
}

abbrev pub new_message : ℕ → ℕ → ℕ → PendingMessage
new_message tick sequence bits = record {
  sequence = sequence;
  receive_tick = tick;
  bit_count = bits;
  words = [];
}

-- The loop, over the lines that are left, with `previous_sequence` and `previous_tick`. It returns the
-- messages that it appends from there on.
unfoldable pub parse_lines :
    List Line → Phase → Option ℕ → Option ℕ → Result Ka10ImpTraceError (List Ka10ImpInputMessage)
parse_lines [] idle n t = ok []
parse_lines [] (reading p) n t = err incomplete_trace
parse_lines [] (assembled p a) n t = err incomplete_trace
parse_lines (malformed ∷ rest) phase n t = err malformed_record
parse_lines (message tick sequence bits ∷ rest) (reading p) n t = err interrupted
parse_lines (message tick sequence bits ∷ rest) (assembled p a) n t = err interrupted
parse_lines (message tick sequence bits ∷ rest) idle n t = do
  check_message tick sequence bits n t
  parse_lines rest (reading (new_message tick sequence bits)) (some sequence) (some tick)
parse_lines (assembly a ∷ rest) idle n t = err no_message
parse_lines (assembly a ∷ rest) (assembled p b) n t = err no_message
parse_lines (assembly a ∷ rest) (reading p) n t = do
  check_assembly a p t
  parse_lines rest (assembled p a) n (some a.tick)
parse_lines (consume c ∷ rest) idle n t = err no_assembly
parse_lines (consume c ∷ rest) (reading p) n t = err no_assembly
parse_lines (consume c ∷ rest) (assembled p a) n t = do
  check_consume c a p t
  let q = add_word p (input_word c a)
  elim c.last [
    | true ↦ do
      content ← reconstruct q
      messages ← parse_lines rest idle n (some c.tick)
      ok (input_message q content ∷ messages)
    | false ↦ parse_lines rest (reading q) n (some c.tick)
  ]

unfoldable pub parse_ka10_imp_trace :
    List (Option Line) → Result Ka10ImpTraceError (List Ka10ImpInputMessage)
unfolding parse_lines
parse_ka10_imp_trace lines = parse_lines (marked lines) idle none none
