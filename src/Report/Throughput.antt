-- ===== src/Report/Throughput.antt =====
-- ncc/throughput_report.py: the Type 302 report of cumulative counters.
pub mod Format
use arpanet_redux.Prelude.{
  ℕ, zero, suc, ◌+◌, ◌*◌, ◌||◌, List, [], ◌∷◌, ◌==◌, Result, ok, err, ◌>>=◌, ◌>>◌, require, length,
  take, drop, get_or,
}
use arpanet_redux.Report.Checksum.{
  Value, ReportError, wrong_length, wrong_code, wrong_checksum, words_of, has_valid_report_checksum,
}

abbrev pub throughput_report_type : ℕ
throughput_report_type = 0o302

abbrev pub line_count : ℕ
line_count = 5

abbrev pub host_count : ℕ
host_count = 4

abbrev pub host_counter_count : ℕ
host_counter_count = 10

abbrev pub semantic_word_count : ℕ
semantic_word_count = 1 + line_count * 2 + host_count * host_counter_count + 1

abbrev pub padded_word_count : ℕ
padded_word_count = semantic_word_count + 1

pub record LineThroughput : Type 0 where
  pub interface : ℕ
  pub packets : ℕ
  pub words : ℕ

pub record HostThroughput : Type 0 where
  pub host : ℕ
  pub messages_from_host_to_network : ℕ
  pub messages_from_network_to_host : ℕ
  pub packets_from_host_to_network : ℕ
  pub packets_from_network_to_host : ℕ
  pub messages_from_host_to_local_host : ℕ
  pub messages_from_local_host_to_host : ℕ
  pub packets_from_host_to_local_host : ℕ
  pub packets_from_local_host_to_host : ℕ
  pub words_from_host_to_imp : ℕ
  pub words_from_imp_to_host : ℕ

pub record ThroughputReport : Type 0 where
  pub message_type : ℕ
  pub lines : List LineThroughput
  pub hosts : List HostThroughput
  pub checksum_word : ℕ
  pub padding_words : List ℕ

-- The first loop: the cursor moves two words a line. The first argument is the rounds left.
unfoldable pub decode_lines : ℕ → ℕ → ℕ → List ℕ → List LineThroughput
decode_lines zero interface cursor words = []
decode_lines (suc rounds) interface cursor words =
    record {
      interface = interface;
      packets = get_or words cursor 0;
      words = get_or words (cursor + 1) 0;
    }
    ∷ decode_lines rounds (interface + 1) (cursor + 2) words

-- The second loop: the cursor moves ten words a host.
unfoldable pub decode_hosts : ℕ → ℕ → ℕ → List ℕ → List HostThroughput
decode_hosts zero host cursor words = []
decode_hosts (suc rounds) host cursor words =
    record {
      host = host;
      messages_from_host_to_network = get_or words cursor 0;
      messages_from_network_to_host = get_or words (cursor + 1) 0;
      packets_from_host_to_network = get_or words (cursor + 2) 0;
      packets_from_network_to_host = get_or words (cursor + 3) 0;
      messages_from_host_to_local_host = get_or words (cursor + 4) 0;
      messages_from_local_host_to_host = get_or words (cursor + 5) 0;
      packets_from_host_to_local_host = get_or words (cursor + 6) 0;
      packets_from_local_host_to_host = get_or words (cursor + 7) 0;
      words_from_host_to_imp = get_or words (cursor + 8) 0;
      words_from_imp_to_host = get_or words (cursor + 9) 0;
    }
    ∷ decode_hosts rounds (host + 1) (cursor + host_counter_count) words

-- The report built from words that have passed every check; the cursor ends at 51.
unfoldable pub throughput_report : List ℕ → ThroughputReport
unfolding decode_lines decode_hosts
throughput_report words =
    let hosts_at = 1 + line_count * 2 in
    let cursor = hosts_at + host_count * host_counter_count in
    record {
      message_type = get_or words 0 0;
      lines = decode_lines line_count 1 1 words;
      hosts = decode_hosts host_count 0 hosts_at words;
      checksum_word = get_or words cursor 0;
      padding_words = drop (cursor + 1) words;
    }

unfoldable pub decode_throughput_report : List Value → Result ReportError ThroughputReport
unfolding throughput_report
decode_throughput_report raw_words = do
  require (length raw_words == semantic_word_count || length raw_words == padded_word_count)
      (wrong_length (length raw_words))
  words ← words_of 0 raw_words
  require (get_or words 0 0 == throughput_report_type) (wrong_code (get_or words 0 0))
  valid ← has_valid_report_checksum (take semantic_word_count raw_words)
  require valid wrong_checksum
  ok (throughput_report words)
