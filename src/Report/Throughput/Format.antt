-- ===== src/Report/Throughput/Format.antt =====
-- The Type 302 report as the sender builds it, and what the decoder accepts and keeps of it.
use arpanet_redux.Prelude.{
  ℕ, ◌%◌, ◌≤◌, ◌≡◌, ◌⊎◌, ◌↔◌, refl, sym, ap, ◌∙◌, List, [], ◌∷◌, ◌++◌, map, ◌||◌, ◌==◌, ok, ◌>>◌,
  >>=-eq-ok, require, length, length-map, take, take-map, drop, get_or, All, All-take,
  require-eq-ok, require_three-eq-ok, ok-injective, arith,
}
use arpanet_redux.Report.Checksum.{Value, nat, wrong_length, wrong_code, wrong_checksum, words_of}
use arpanet_redux.Report.Checksum.Laws.{IsWord, sum, words_of-eq-ok, words_of-map, has_valid-words}
use arpanet_redux.Report.Fields.{reads, reads-all}
use arpanet_redux.Report.Throughput.{
  LineThroughput, HostThroughput, ThroughputReport, throughput_report, throughput_report_type,
  decode_throughput_report,
}

abbrev pub line_words : List LineThroughput → List ℕ
line_words [] = []
line_words (line ∷ lines) = line.packets ∷ line.words ∷ line_words lines

-- The ten counters of a host interface, in the order of the report.
abbrev pub host_words : List HostThroughput → List ℕ
host_words [] = []
host_words (h ∷ hosts) =
    h.messages_from_host_to_network
    ∷ h.messages_from_network_to_host
    ∷ h.packets_from_host_to_network
    ∷ h.packets_from_network_to_host
    ∷ h.messages_from_host_to_local_host
    ∷ h.messages_from_local_host_to_host
    ∷ h.packets_from_host_to_local_host
    ∷ h.packets_from_local_host_to_host
    ∷ h.words_from_host_to_imp
    ∷ h.words_from_imp_to_host
    ∷ host_words hosts

abbrev pub report_words : ThroughputReport → List ℕ
report_words r =
    r.message_type
    ∷ (line_words r.lines ++ (host_words r.hosts ++ (r.checksum_word ∷ r.padding_words)))

-- What the decoder asks of the words: their number, the code and the checksum.
pub record IsThroughputReport (words : List ℕ) : Type 0 where
  pub sized : (length words ≡ 52) ⊎ (length words ≡ 53)
  pub in_range : All IsWord words
  pub code : get_or words 0 0 ≡ 0o302
  pub sums : sum (take 52 words) % 65536 ≡ 0

report_words-read :
    (words : List ℕ) → report_words (throughput_report words) ≡ reads 52 0 words ++ drop 52 words
unfolding throughput_report
report_words-read words = refl

-- Reading a report takes every word into it, and its own words give them back.
pub report_words-throughput_report :
    (words : List ℕ) → 52 ≤ length words → report_words (throughput_report words) ≡ words
report_words-throughput_report words h = report_words-read words ∙ reads-all 52 words h

decode-words :
    (ws : List ℕ)
    → All IsWord ws
    → decode_throughput_report (map nat ws) ≡ (
        require (length ws == 52 || length ws == 53) (wrong_length (length ws))
        >> (require (get_or ws 0 0 == throughput_report_type) (wrong_code (get_or ws 0 0))
            >> (require (sum (take 52 ws) % 65536 == 0) wrong_checksum
                >> ok (throughput_report ws))))
unfolding decode_throughput_report
decode-words ws h = rw (
  length-map,
  words_of-map 0 ws h,
  take-map,
  has_valid-words (take 52 ws) (All-take IsWord 52 ws h),
)

decode-valid_words :
    (raw : List Value) (r : ThroughputReport)
    → decode_throughput_report raw ≡ ok r
    → (ws : List ℕ) × (raw ≡ map nat ws) × All IsWord ws
unfolding decode_throughput_report
decode-valid_words raw r h =
    let (_, h') = require-eq-ok _ _ _ h in
    let (ws, e, _) = >>=-eq-ok (words_of 0 raw) _ h' in
    let (p, hs) = words_of-eq-ok 0 raw ws e in (ws, p, hs)

decode→IsThroughputReport :
    (ws : List ℕ) (r : ThroughputReport)
    → All IsWord ws
    → decode_throughput_report (map nat ws) ≡ ok r
    → IsThroughputReport ws × (r ≡ throughput_report ws)
decode→IsThroughputReport ws r h e =
    let (sized, code, sums, result) =
      require_three-eq-ok (length ws == 52 || length ws == 53)
        (get_or ws 0 0 == throughput_report_type) (sum (take 52 ws) % 65536 == 0) _ _ _
        (ok (throughput_report ws)) (sym (decode-words ws h) ∙ e) in
    (
      record { sized = ground arith; in_range = h; code = ground arith; sums = ground arith },
      sym (ok-injective result),
    )

IsThroughputReport→decode :
    (ws : List ℕ)
    → IsThroughputReport ws
    → decode_throughput_report (map nat ws) ≡ ok (throughput_report ws)
IsThroughputReport→decode ws v =
    decode-words ws v.in_range ∙ ground (arith, v.sized, v.code, v.sums)

-- The decoder returns a report exactly on the words of a Type 302 report, and then that report.
pub decode_throughput_report-accepts :
    (raw : List Value) (r : ThroughputReport)
    → (decode_throughput_report raw ≡ ok r)
      ↔ ((ws : List ℕ) × (raw ≡ map nat ws) × IsThroughputReport ws × (r ≡ throughput_report ws))
decode_throughput_report-accepts raw r = (
  λ h.
      let (ws, p, hs) = decode-valid_words raw r h in
      let (v, q) = decode→IsThroughputReport ws r hs (ap decode_throughput_report (sym p) ∙ h) in
      (ws, p, v, q),
  λ d. ap decode_throughput_report d.1 ∙ IsThroughputReport→decode d.0 d.2 ∙ ap ok (sym d.3),
)

-- Nothing is lost: the words of a decoded report are the words that came in, pad word included.
pub decode_throughput_report-lossless :
    (raw : List Value) (r : ThroughputReport)
    → decode_throughput_report raw ≡ ok r
    → map nat (report_words r) ≡ raw
decode_throughput_report-lossless raw r h =
    let (ws, p, v, q) = (decode_throughput_report-accepts raw r).0 h in
    ap (λ (x : ThroughputReport). map nat (report_words x)) q
    ∙ ap (map nat) (report_words-throughput_report ws (ground (arith, v.sized)))
    ∙ sym p
