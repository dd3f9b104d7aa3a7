-- ===== src/Report/Trouble.antt =====
-- ncc/trouble_report.py: the 1973 trouble report, Type 301 and its patched Type 303.
pub mod Lines
pub mod Format
use arpanet_redux.Prelude.{
  ℕ, zero, suc, ◌+◌, ◌/◌, ◌^◌, bit_and, Bool, not, ◌||◌, Option, none, some, List, [], ◌∷◌, ltb,
  ◌==◌, if◌then◌else◌, Result, ok, err, ◌>>=◌, ◌>>◌, require, length, take, drop, get_or,
}
use arpanet_redux.Report.Checksum.{
  Value, ReportError, wrong_length, wrong_code, wrong_checksum, words_of, has_valid_report_checksum,
}

abbrev pub trouble_report_type : ℕ
trouble_report_type = 0o301

abbrev pub patched_trouble_report_type : ℕ
patched_trouble_report_type = 0o303

abbrev pub is_trouble_report_type : ℕ → Bool
is_trouble_report_type code = code == trouble_report_type || code == patched_trouble_report_type

abbrev pub semantic_word_count : ℕ
semantic_word_count = 31

abbrev pub padded_word_count : ℕ
padded_word_count = 32

abbrev pub line_count : ℕ
line_count = 5

abbrev pub line_down : ℕ
line_down = 0o100000

abbrev pub line_looped : ℕ
line_looped = 0o040000

abbrev pub line_neighbor_mask : ℕ
line_neighbor_mask = 0o077

abbrev pub line_missed_mask : ℕ
line_missed_mask = 0o377

pub data LineState : Type 0 where
  up down looped unknown : LineState

pub record LineReport : Type 0 where
  pub interface : ℕ
  pub routing_messages_sent : ℕ
  pub neighbor_imp : Option ℕ
  pub state : LineState
  pub routing_messages_missed : ℕ
  pub raw_status_word : ℕ

pub record TroubleReport : Type 0 where
  pub message_type : ℕ
  pub anomaly_word : ℕ
  pub restart_reload_word : ℕ
  pub halt_pc : ℕ
  pub halt_a : ℕ
  pub halt_x : ℕ
  pub free_buffers : ℕ
  pub store_and_forward_buffers : ℕ
  pub reassembly_buffers : ℕ
  pub allocate_buffers : ℕ
  pub imp_version : ℕ
  pub host_configuration : ℕ
  pub tip_version : ℕ
  pub host_interface_tested : ℕ
  pub test_messages_sent : ℕ
  pub test_messages_received : ℕ
  pub lines : List LineReport
  pub line_speeds_word : ℕ
  pub trap_pc : ℕ
  pub trap_a : ℕ
  pub trap_x : ℕ
  pub checksum_word : ℕ
  pub padding_words : List ℕ

-- `_HOST_UP_MASKS`
abbrev pub host_up_masks : List ℕ
host_up_masks = 0o100000 ∷ 0o040000 ∷ 0o020000 ∷ 0o010000 ∷ []

-- `none` stands for the ValueError of a host interface outside 0..3.
unfoldable pub host_up : TroubleReport → ℕ → Option Bool
host_up report host =
    if ltb host (length host_up_masks)
    then some (not (bit_and report.anomaly_word (get_or host_up_masks host 0) == 0))
    else none

-- `neighbor_number or None`
abbrev pub nonzero : ℕ → Option ℕ
nonzero n = if n == 0 then none else some n

abbrev pub has_value : Option ℕ → Bool
has_value none = Bool.false
has_value (some n) = Bool.true

-- The chain of `if` and `elif` over the status word.
unfoldable pub line_state : ℕ → Option ℕ → LineState
line_state status neighbor_imp =
    if not (bit_and status line_down == 0)
    then down
    else if not (bit_and status line_looped == 0)
    then looped
    else if has_value neighbor_imp
    then up
    else unknown

unfoldable pub decode_line : ℕ → ℕ → ℕ → LineReport
unfolding line_state
decode_line interface sent status =
    let neighbor_imp = nonzero (bit_and (status / 2 ^ 8) line_neighbor_mask) in
    record {
      interface = interface;
      routing_messages_sent = sent;
      neighbor_imp = neighbor_imp;
      state = line_state status neighbor_imp;
      routing_messages_missed = bit_and status line_missed_mask;
      raw_status_word = status;
    }

-- The loop over the interfaces, two words to a line; the first argument is the rounds left.
unfoldable pub decode_lines : ℕ → ℕ → ℕ → List ℕ → List LineReport
decode_lines zero interface cursor words = []
decode_lines (suc rounds) interface cursor words =
    decode_line interface (get_or words cursor 0) (get_or words (cursor + 1) 0)
    ∷ decode_lines rounds (interface + 1) (cursor + 2) words

-- The report built from words that have passed every check.
unfoldable pub trouble_report : List ℕ → TroubleReport
unfolding decode_lines
trouble_report words = record {
  message_type = get_or words 0 0;
  anomaly_word = get_or words 1 0;
  restart_reload_word = get_or words 2 0;
  halt_pc = get_or words 3 0;
  halt_a = get_or words 4 0;
  halt_x = get_or words 5 0;
  free_buffers = get_or words 6 0;
  store_and_forward_buffers = get_or words 7 0;
  reassembly_buffers = get_or words 8 0;
  allocate_buffers = get_or words 9 0;
  imp_version = get_or words 10 0;
  host_configuration = get_or words 11 0;
  tip_version = get_or words 12 0;
  host_interface_tested = get_or words 13 0;
  test_messages_sent = get_or words 14 0;
  test_messages_received = get_or words 15 0;
  lines = decode_lines line_count 1 16 words;
  line_speeds_word = get_or words 26 0;
  trap_pc = get_or words 27 0;
  trap_a = get_or words 28 0;
  trap_x = get_or words 29 0;
  checksum_word = get_or words 30 0;
  padding_words = drop 31 words;
}

unfoldable pub decode_trouble_report : List Value → Result ReportError TroubleReport
unfolding trouble_report
decode_trouble_report raw_words = do
  require (length raw_words == semantic_word_count || length raw_words == padded_word_count)
      (wrong_length (length raw_words))
  words ← words_of 0 raw_words
  require (is_trouble_report_type (get_or words 0 0)) (wrong_code (get_or words 0 0))
  valid ← has_valid_report_checksum (take semantic_word_count raw_words)
  require valid wrong_checksum
  ok (trouble_report words)
