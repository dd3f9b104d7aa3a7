-- ===== src/Leader.antt =====
-- ncc/imp_to_host.py: the old-style leader in front of a report, and the decoding of a whole message.
pub mod RoundTrip
pub mod Messages
use arpanet_redux.Prelude.{
  ℕ, zero, suc, ◌+◌, ◌/◌, ◌^◌, bit_and, Bool, true, false, not, List, [], ◌∷◌, map, String, leb,
  ◌==◌, if◌then◌else◌, Result, ok, err, ◌>>=◌, ◌>>◌, require, length, take, drop, get_or,
}
use arpanet_redux.Report.Checksum.{Value, nat, negative, ReportError}
use arpanet_redux.Report.Trouble.{TroubleReport, decode_trouble_report}
use arpanet_redux.Report.Throughput.{ThroughputReport, decode_throughput_report}
use arpanet_redux.Host.Ingress.{IngressMessage}
use arpanet_redux.Events.{NccEvent, EventError, trouble_report_events, throughput_report_events}

pub data ImpToHostMessageError : Type 0 where
  leader_length leader_not_integer leader_out_of_range : ℕ → ImpToHostMessageError
  leader_missing not_from_imp not_regular no_source : ImpToHostMessageError
  invalid_body : ReportError → ImpToHostMessageError
  -- a ValueError of events.py, which is passed on
  event_error : EventError → ImpToHostMessageError

abbrev pub old_style_leader_word_count : ℕ
old_style_leader_word_count = 2

pub record OldStyleImpToHostLeader : Type 0 where
  pub priority : Bool
  pub from_imp : Bool
  pub trace : Bool
  pub octal : Bool
  pub message_type : ℕ
  pub source_host_field : ℕ
  pub source_imp : ℕ
  pub message_id : ℕ
  pub subtype : ℕ

unfoldable pub source_host : OldStyleImpToHostLeader → ℕ
source_host leader =
    if leader.from_imp then 252 + leader.source_host_field else leader.source_host_field

pub record ImpToHostMessage : Type 0 where
  pub first_sequence : ℕ
  pub final_sequence : ℕ
  pub leader : OldStyleImpToHostLeader
  pub body_words : List ℕ

pub record ImpToHostTroubleReport : Type 0 where
  pub message : ImpToHostMessage
  pub report : TroubleReport

pub record ImpToHostThroughputReport : Type 0 where
  pub message : ImpToHostMessage
  pub report : ThroughputReport

-- The checks of one leader word.
abbrev pub leader_word : ℕ → Value → Result ImpToHostMessageError ℕ
leader_word index (nat n) = if leb n 0xFFFF then ok n else err (leader_out_of_range index)
leader_word index (negative n) = err (leader_out_of_range index)
leader_word index Value.other = err (leader_not_integer index)

unfoldable pub leader_words : List Value → Result ImpToHostMessageError (ℕ × ℕ)
leader_words (a ∷ b ∷ []) = do first ← leader_word 0 a; second ← leader_word 1 b; ok (first, second)
leader_words values = err (leader_length (length values))

-- `bool(word & mask)`
abbrev pub masked : ℕ → ℕ → Bool
masked word mask = not (bit_and word mask == 0)

unfoldable pub decode_old_style_imp_to_host_leader :
    List Value → Result ImpToHostMessageError OldStyleImpToHostLeader
unfolding leader_words
decode_old_style_imp_to_host_leader words = do
  (first, second) ← leader_words words
  ok (record {
    priority = masked first 0x8000;
    from_imp = masked first 0x4000;
    trace = masked first 0x2000;
    octal = masked first 0x1000;
    message_type = bit_and first 0x0F00 / 2 ^ 8;
    source_host_field = bit_and first 0x00C0 / 2 ^ 6;
    source_imp = bit_and first 0x003F;
    message_id = bit_and second 0xFFF0 / 2 ^ 4;
    subtype = bit_and second 0x000F;
  })

unfoldable pub decode_imp_to_host_message :
    IngressMessage → Result ImpToHostMessageError ImpToHostMessage
decode_imp_to_host_message message = do
  require (leb old_style_leader_word_count (length message.words)) leader_missing
  leader ← decode_old_style_imp_to_host_leader (map nat (take 2 message.words))
  ok (record {
    first_sequence = message.first_sequence;
    final_sequence = message.final_sequence;
    leader = leader;
    body_words = drop old_style_leader_word_count message.words;
  })

unfoldable pub require_reporting_imp : ImpToHostMessage → Result ImpToHostMessageError (Unit {0})
require_reporting_imp decoded = do
  require decoded.leader.from_imp not_from_imp
  require (decoded.leader.message_type == 0) not_regular
  require (not (decoded.leader.source_imp == 0)) no_source

-- `except (TypeError, ValueError) as error: raise ImpToHostMessageError(...)`
abbrev pub wrap_body {ℓ} : {A : Type ℓ} → Result ReportError A → Result ImpToHostMessageError A
wrap_body (ok a) = ok a
wrap_body (err e) = err (invalid_body e)

unfoldable pub decode_trouble_report_imp_to_host_message :
    IngressMessage → Result ImpToHostMessageError ImpToHostTroubleReport
unfolding require_reporting_imp
decode_trouble_report_imp_to_host_message message = do
  decoded ← decode_imp_to_host_message message
  require_reporting_imp decoded
  report ← wrap_body (decode_trouble_report (map nat decoded.body_words))
  ok (record { message = decoded; report = report })

unfoldable pub decode_throughput_report_imp_to_host_message :
    IngressMessage → Result ImpToHostMessageError ImpToHostThroughputReport
unfolding require_reporting_imp
decode_throughput_report_imp_to_host_message message = do
  decoded ← decode_imp_to_host_message message
  require_reporting_imp decoded
  report ← wrap_body (decode_throughput_report (map nat decoded.body_words))
  ok (record { message = decoded; report = report })

abbrev pub pass_on {ℓ} : {A : Type ℓ} → Result EventError A → Result ImpToHostMessageError A
pass_on (ok a) = ok a
pass_on (err e) = err (event_error e)

unfoldable pub trouble_report_events_from_imp_to_host_message :
    IngressMessage → String → ℕ → Result ImpToHostMessageError (List NccEvent)
trouble_report_events_from_imp_to_host_message message observed_at sequence_start = do
  decoded ← decode_trouble_report_imp_to_host_message message
  pass_on (
      trouble_report_events decoded.report decoded.message.leader.source_imp observed_at
        sequence_start)

unfoldable pub throughput_report_events_from_imp_to_host_message :
    IngressMessage → String → ℕ → Result ImpToHostMessageError (List NccEvent)
throughput_report_events_from_imp_to_host_message message observed_at sequence_start = do
  decoded ← decode_throughput_report_imp_to_host_message message
  pass_on (
      throughput_report_events decoded.report decoded.message.leader.source_imp observed_at
        sequence_start)
