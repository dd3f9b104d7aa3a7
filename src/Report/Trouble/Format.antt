-- ===== src/Report/Trouble/Format.antt =====
-- The trouble report as the sender builds it, and what the decoder accepts and keeps of it.
use arpanet_redux.Prelude.{
  ℕ, ◌%◌, ◌≤◌, ◌≡◌, ◌⊎◌, ◌↔◌, refl, sym, ap, ◌∙◌, List, [], ◌∷◌, ◌++◌, map, ◌||◌, ◌==◌, ok, ◌>>◌,
  >>=-eq-ok, require, length, length-map, take, take-map, drop, get_or, All, All-take,
  require-eq-ok, require_three-eq-ok, ok-injective, arith,
}
use arpanet_redux.Report.Checksum.{Value, nat, wrong_length, wrong_code, wrong_checksum, words_of}
use arpanet_redux.Report.Checksum.Laws.{IsWord, sum, words_of-eq-ok, words_of-map, has_valid-words}
use arpanet_redux.Report.Fields.{reads, reads-all}
use arpanet_redux.Report.Trouble.{
  TroubleReport, LineReport, decode_line, trouble_report, is_trouble_report_type,
  decode_trouble_report,
}

-- Each line is sent as its count of routing messages and its status word.
abbrev pub line_words : List LineReport → List ℕ
line_words [] = []
line_words (line ∷ lines) = line.routing_messages_sent ∷ line.raw_status_word ∷ line_words lines

-- The words of a report in the order in which they are sent.
abbrev pub report_words : TroubleReport → List ℕ
report_words r =
    r.message_type
    ∷ r.anomaly_word
    ∷ r.restart_reload_word
    ∷ r.halt_pc
    ∷ r.halt_a
    ∷ r.halt_x
    ∷ r.free_buffers
    ∷ r.store_and_forward_buffers
    ∷ r.reassembly_buffers
    ∷ r.allocate_buffers
    ∷ r.imp_version
    ∷ r.host_configuration
    ∷ r.tip_version
    ∷ r.host_interface_tested
    ∷ r.test_messages_sent
    ∷ r.test_messages_received
    ∷ (line_words r.lines
        ++ (r.line_speeds_word ∷ r.trap_pc ∷ r.trap_a ∷ r.trap_x ∷ r.checksum_word
            ∷ r.padding_words))

-- What the decoder asks of the words: their number, the code and the checksum.
pub record IsTroubleReport (words : List ℕ) : Type 0 where
  pub sized : (length words ≡ 31) ⊎ (length words ≡ 32)
  pub in_range : All IsWord words
  pub code : (get_or words 0 0 ≡ 0o301) ⊎ (get_or words 0 0 ≡ 0o303)
  pub sums : sum (take 31 words) % 65536 ≡ 0

report_words-read :
    (words : List ℕ) → report_words (trouble_report words) ≡ reads 31 0 words ++ drop 31 words
unfolding trouble_report decode_line
report_words-read words = refl

-- Reading a report takes every word into it, and its own words give them back.
pub report_words-trouble_report :
    (words : List ℕ) → 31 ≤ length words → report_words (trouble_report words) ≡ words
report_words-trouble_report words h = report_words-read words ∙ reads-all 31 words h

-- The decoder on values that are all words: the checks, in the order in which they are made.
decode-words :
    (ws : List ℕ)
    → All IsWord ws
    → decode_trouble_report (map nat ws) ≡ (
        require (length ws == 31 || length ws == 32) (wrong_length (length ws))
        >> (require (is_trouble_report_type (get_or ws 0 0)) (wrong_code (get_or ws 0 0))
            >> (require (sum (take 31 ws) % 65536 == 0) wrong_checksum >> ok (trouble_report ws))))
unfolding decode_trouble_report
decode-words ws h = rw (
  length-map,
  words_of-map 0 ws h,
  take-map,
  has_valid-words (take 31 ws) (All-take IsWord 31 ws h),
)

decode-valid_words :
    (raw : List Value) (r : TroubleReport)
    → decode_trouble_report raw ≡ ok r
    → (ws : List ℕ) × (raw ≡ map nat ws) × All IsWord ws
unfolding decode_trouble_report
decode-valid_words raw r h =
    let (_, h') = require-eq-ok _ _ _ h in
    let (ws, e, _) = >>=-eq-ok (words_of 0 raw) _ h' in
    let (p, hs) = words_of-eq-ok 0 raw ws e in (ws, p, hs)

decode→IsTroubleReport :
    (ws : List ℕ) (r : TroubleReport)
    → All IsWord ws
    → decode_trouble_report (map nat ws) ≡ ok r
    → IsTroubleReport ws × (r ≡ trouble_report ws)
decode→IsTroubleReport ws r h e =
    let (sized, code, sums, result) =
      require_three-eq-ok (length ws == 31 || length ws == 32)
        (is_trouble_report_type (get_or ws 0 0)) (sum (take 31 ws) % 65536 == 0) _ _ _
        (ok (trouble_report ws)) (sym (decode-words ws h) ∙ e) in
    (
      record { sized = ground arith; in_range = h; code = ground arith; sums = ground arith },
      sym (ok-injective result),
    )

IsTroubleReport→decode :
    (ws : List ℕ) → IsTroubleReport ws → decode_trouble_report (map nat ws) ≡ ok (trouble_report ws)
IsTroubleReport→decode ws v = decode-words ws v.in_range ∙ ground (arith, v.sized, v.code, v.sums)

-- The decoder returns a report exactly on the words of a trouble report, and then that report.
pub decode_trouble_report-accepts :
    (raw : List Value) (r : TroubleReport)
    → (decode_trouble_report raw ≡ ok r)
      ↔ ((ws : List ℕ) × (raw ≡ map nat ws) × IsTroubleReport ws × (r ≡ trouble_report ws))
decode_trouble_report-accepts raw r = (
  λ h.
      let (ws, p, hs) = decode-valid_words raw r h in
      let (v, q) = decode→IsTroubleReport ws r hs (ap decode_trouble_report (sym p) ∙ h) in
      (ws, p, v, q),
  λ d. ap decode_trouble_report d.1 ∙ IsTroubleReport→decode d.0 d.2 ∙ ap ok (sym d.3),
)

-- Nothing is lost: the words of a decoded report are the words that came in, pad word included.
pub decode_trouble_report-lossless :
    (raw : List Value) (r : TroubleReport)
    → decode_trouble_report raw ≡ ok r
    → map nat (report_words r) ≡ raw
decode_trouble_report-lossless raw r h =
    let (ws, p, v, q) = (decode_trouble_report-accepts raw r).0 h in
    ap (λ (x : TroubleReport). map nat (report_words x)) q
    ∙ ap (map nat) (report_words-trouble_report ws (ground (arith, v.sized)))
    ∙ sym p
