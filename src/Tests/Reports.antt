-- ===== src/Tests/Reports.antt =====
-- The reports and their checksum at concrete words.
use arpanet_redux.Prelude.{◌≡◌, inl, refl, true, false, [], ◌∷◌, map, ok, arith}
use arpanet_redux.Report.Checksum.{
  nat, validate_word, words_of, report_checksum, has_valid_report_checksum,
}
use arpanet_redux.Report.Checksum.Validity.{report_checksum-has_valid, has_valid-damage}
use arpanet_redux.Report.Trouble.{trouble_report, decode_trouble_report}
use arpanet_redux.Report.Trouble.Format.{
  IsTroubleReport, report_words, decode_trouble_report-accepts, decode_trouble_report-lossless,
}
use arpanet_redux.Report.Throughput.{throughput_report, decode_throughput_report}
use arpanet_redux.Report.Throughput.Format
use arpanet_redux.Report.Throughput.Format.{
  IsThroughputReport, decode_throughput_report-accepts, decode_throughput_report-lossless,
}
use arpanet_redux.Tests.Samples.{trouble_words, throughput_words}

-- The checksum of two words, computed.
report_checksum_run : report_checksum (nat 0o301 ∷ nat 65535 ∷ []) ≡ ok 65344
unfolding report_checksum validate_word
report_checksum_run = refl

sample_is_valid : has_valid_report_checksum (nat 0o301 ∷ nat 65535 ∷ nat 65344 ∷ []) ≡ ok true
sample_is_valid =
    (report_checksum-has_valid (nat 0o301 ∷ nat 65535 ∷ []) 65344).0 report_checksum_run

has_valid-damage_example :
    has_valid_report_checksum (map nat (0o301 ∷ 65534 ∷ 65344 ∷ [])) ≡ ok false
has_valid-damage_example =
    has_valid-damage (0o301 ∷ []) (65344 ∷ []) 65535 65534 sample_is_valid (omega arith)
      (omega arith)

trouble_words-IsTroubleReport : IsTroubleReport trouble_words
trouble_words-IsTroubleReport = record {
  sized = inl refl;
  in_range = omega arith;
  code = inl refl;
  sums = refl;
}

decode_trouble_report-accepts_example :
    decode_trouble_report (map nat trouble_words) ≡ ok (trouble_report trouble_words)
decode_trouble_report-accepts_example =
    (decode_trouble_report-accepts (map nat trouble_words) (trouble_report trouble_words)).1
      (trouble_words, refl, trouble_words-IsTroubleReport, refl)

decode_trouble_report-lossless_example :
    map nat (report_words (trouble_report trouble_words)) ≡ map nat trouble_words
unfolding decode_trouble_report validate_word words_of has_valid_report_checksum
decode_trouble_report-lossless_example =
    decode_trouble_report-lossless (map nat trouble_words) (trouble_report trouble_words) refl

throughput_words-IsThroughputReport : IsThroughputReport throughput_words
throughput_words-IsThroughputReport = record {
  sized = inl refl;
  in_range = omega arith;
  code = refl;
  sums = refl;
}

decode_throughput_report-accepts_example :
    decode_throughput_report (map nat throughput_words) ≡ ok (throughput_report throughput_words)
decode_throughput_report-accepts_example =
    (decode_throughput_report-accepts (map nat throughput_words)
        (throughput_report throughput_words)).1
      (throughput_words, refl, throughput_words-IsThroughputReport, refl)

decode_throughput_report-lossless_example :
    map nat (Format.report_words (throughput_report throughput_words)) ≡ map nat throughput_words
unfolding decode_throughput_report validate_word words_of has_valid_report_checksum
decode_throughput_report-lossless_example =
    decode_throughput_report-lossless (map nat throughput_words)
      (throughput_report throughput_words) refl
