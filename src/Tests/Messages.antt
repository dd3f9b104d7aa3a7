-- ===== src/Tests/Messages.antt =====
-- Leaders, messages, events and the record at concrete inputs.
use arpanet_redux.Prelude.{◌≡◌, inl, refl, List, [], ◌∷◌, String, ok, err, arith}
use arpanet_redux.Report.Checksum.{nat, validate_word, words_of, has_valid_report_checksum}
use arpanet_redux.Report.Trouble.{trouble_report, decode_trouble_report, host_up, decode_line}
use arpanet_redux.Report.Throughput.{throughput_report, decode_throughput_report}
use arpanet_redux.Host.Ingress.{IngressMessage}
use arpanet_redux.Events.{NccEvent, trouble_report_events, throughput_report_events}
use arpanet_redux.Events.Laws.{IsEvents, trouble_report_events-IsEvents}
use arpanet_redux.Leader.{
  ImpToHostTroubleReport, ImpToHostThroughputReport, decode_old_style_imp_to_host_leader,
  decode_imp_to_host_message, decode_trouble_report_imp_to_host_message,
  decode_throughput_report_imp_to_host_message, trouble_report_events_from_imp_to_host_message,
  throughput_report_events_from_imp_to_host_message,
}
use arpanet_redux.Leader.RoundTrip.{decode_old_style_imp_to_host_leader-accepts}
use arpanet_redux.Leader.Messages.Trouble.{decode_trouble_report_imp_to_host_message-accepts}
use arpanet_redux.Leader.Messages.Throughput.{decode_throughput_report_imp_to_host_message-accepts}
use arpanet_redux.Receiver.{report_events, message_events}
use arpanet_redux.Receiver.Record.{IsRecord, report_events-IsRecord}
use arpanet_redux.Tests.Samples.{
  trouble_words, throughput_words, leader_six, trouble_message, throughput_message,
}

decode_old_style_imp_to_host_leader-accepts_example :
    decode_old_style_imp_to_host_leader (nat 0x4006 ∷ nat 0x0010 ∷ []) ≡ ok leader_six
decode_old_style_imp_to_host_leader-accepts_example =
    (decode_old_style_imp_to_host_leader-accepts (nat 0x4006 ∷ nat 0x0010 ∷ []) leader_six).1
      (omega arith, refl)

abbrev trouble_decoded : ImpToHostTroubleReport
trouble_decoded = record {
  message = record {
    first_sequence = 4;
    final_sequence = 5;
    leader = leader_six;
    body_words = trouble_words;
  };
  report = trouble_report trouble_words;
}

decode_trouble_report_imp_to_host_message-accepts_example :
    decode_trouble_report_imp_to_host_message trouble_message ≡ ok trouble_decoded
decode_trouble_report_imp_to_host_message-accepts_example =
    (decode_trouble_report_imp_to_host_message-accepts trouble_message trouble_decoded).1 (record {
      splits = record { leader_fits = omega arith; words = refl; first = refl; last = refl };
      reporting = record { sent_by_imp = refl; regular = refl; sourced = omega arith };
      body = record { sized = inl refl; in_range = omega arith; code = inl refl; sums = refl };
      report = refl;
    })

abbrev throughput_decoded : ImpToHostThroughputReport
throughput_decoded = record {
  message = record {
    first_sequence = 6;
    final_sequence = 6;
    leader = leader_six;
    body_words = throughput_words;
  };
  report = throughput_report throughput_words;
}

decode_throughput_report_imp_to_host_message-accepts_example :
    decode_throughput_report_imp_to_host_message throughput_message ≡ ok throughput_decoded
decode_throughput_report_imp_to_host_message-accepts_example =
    (decode_throughput_report_imp_to_host_message-accepts throughput_message throughput_decoded).1
      (record {
        splits = record { leader_fits = omega arith; words = refl; first = refl; last = refl };
        reporting = record { sent_by_imp = refl; regular = refl; sourced = omega arith };
        body = record { sized = inl refl; in_range = omega arith; code = refl; sums = refl };
        report = refl;
      })

trouble_report_events-IsEvents_example :
    (es : List NccEvent) × (trouble_report_events
        (trouble_report trouble_words)
        6
        "1973-01-01T00:00:00Z"
        1
      ≡ ok es)
    × IsEvents (trouble_report trouble_words) 6 "1973-01-01T00:00:00Z" 1 es
trouble_report_events-IsEvents_example =
    trouble_report_events-IsEvents (trouble_report trouble_words) 6 "1973-01-01T00:00:00Z" 1
      (omega arith)

abbrev pub received_messages : List (IngressMessage × String)
received_messages =
    (trouble_message, "1973-01-01T00:00:00Z") ∷ (throughput_message, "1973-01-01T00:00:52Z") ∷ []

abbrev pub recorded : List NccEvent
recorded = elim (report_events received_messages 1) [ ok es ↦ es | err e ↦ [] ]

pub messages_recorded : report_events received_messages 1 ≡ ok recorded
unfolding report_events message_events trouble_report_events_from_imp_to_host_message
    throughput_report_events_from_imp_to_host_message decode_trouble_report_imp_to_host_message
    decode_throughput_report_imp_to_host_message decode_imp_to_host_message
    decode_old_style_imp_to_host_leader decode_trouble_report decode_throughput_report
    trouble_report_events throughput_report_events has_valid_report_checksum words_of validate_word
    host_up decode_line
messages_recorded = refl

report_events-IsRecord_example : IsRecord 1 recorded
report_events-IsRecord_example =
    report_events-IsRecord received_messages 1 recorded messages_recorded
