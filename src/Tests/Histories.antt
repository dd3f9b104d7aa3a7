-- ===== src/Tests/Histories.antt =====
-- The events of the messages of the other tests, recorded and replayed.
use arpanet_redux.Prelude.{
  ℕ, ◌≡◌, false, refl, ◌==◌, if◌then◌else◌, none, List, [], ◌∷◌, ◌++◌, String, ok, length, All,
  arith,
}
use arpanet_redux.Events.{Subject, trouble_report_events, throughput_report_events}
use arpanet_redux.History.{
  HistoricalReplayFrame, new_recorder, append, replay_historical_event_stream,
}
use arpanet_redux.History.Replay.{latest, replay_historical_event_stream-latest}
use arpanet_redux.History.Reports.{InTime, IsKnown, append-report_events}
use arpanet_redux.Leader.{
  decode_old_style_imp_to_host_leader, decode_imp_to_host_message,
  decode_trouble_report_imp_to_host_message, decode_throughput_report_imp_to_host_message,
  trouble_report_events_from_imp_to_host_message, throughput_report_events_from_imp_to_host_message,
}
use arpanet_redux.Receiver.{report_events, message_events}
use arpanet_redux.Report.Checksum.{validate_word, words_of, has_valid_report_checksum}
use arpanet_redux.Report.Throughput.{decode_throughput_report}
use arpanet_redux.Report.Trouble.{decode_trouble_report, host_up, decode_line}
use arpanet_redux.Tests.Messages.{received_messages, recorded, messages_recorded}
use arpanet_redux.Tests.Reduction.{sample_instant, down_event}

abbrev sample_imp_id : ℕ → String
sample_imp_id n = if n == 6 then "imp:6" else "imp"

abbrev sample_components : List String
sample_components = "host:a" ∷ "imp:6" ∷ []

recorded-IsKnown : All (IsKnown sample_instant sample_imp_id 80 sample_components) recorded
unfolding report_events message_events trouble_report_events_from_imp_to_host_message
    throughput_report_events_from_imp_to_host_message decode_trouble_report_imp_to_host_message
    decode_throughput_report_imp_to_host_message decode_imp_to_host_message
    decode_old_style_imp_to_host_leader decode_trouble_report decode_throughput_report
    trouble_report_events throughput_report_events has_valid_report_checksum words_of validate_word
    host_up decode_line
recorded-IsKnown =
    (refl, (refl, (refl, (refl, (refl, (refl, (refl, (refl, (refl, (refl, (refl, tt)))))))))))

recorded-InTime : InTime sample_instant sample_imp_id 80 sample_components none recorded
unfolding report_events message_events trouble_report_events_from_imp_to_host_message
    throughput_report_events_from_imp_to_host_message decode_trouble_report_imp_to_host_message
    decode_throughput_report_imp_to_host_message decode_imp_to_host_message
    decode_old_style_imp_to_host_leader decode_trouble_report decode_throughput_report
    trouble_report_events throughput_report_events has_valid_report_checksum words_of validate_word
    host_up decode_line
recorded-InTime = (
  90,
  refl,
  omega arith,
  tt,
  (
    90,
    refl,
    omega arith,
    omega arith,
    (
      90,
      refl,
      omega arith,
      omega arith,
      (
        90,
        refl,
        omega arith,
        omega arith,
        (
          90,
          refl,
          omega arith,
          omega arith,
          (
            90,
            refl,
            omega arith,
            omega arith,
            (
              90,
              refl,
              omega arith,
              omega arith,
              (
                90,
                refl,
                omega arith,
                omega arith,
                (
                  90,
                  refl,
                  omega arith,
                  omega arith,
                  (90, refl, omega arith, omega arith, (90, refl, omega arith, omega arith, tt)),
                ),
              ),
            ),
          ),
        ),
      ),
    ),
  ),
)

append-report_events_example :
    append sample_instant sample_imp_id 2 80 sample_components new_recorder recorded
    ≡ ok (record { records = recorded; closed = false })
append-report_events_example =
    append-report_events sample_instant sample_imp_id 80 sample_components received_messages
      recorded messages_recorded recorded-IsKnown recorded-InTime

replay_historical_event_stream-latest_example :
    (before : List HistoricalReplayFrame) × ((after : List HistoricalReplayFrame)
      × ((frame : HistoricalReplayFrame) × (replay_historical_event_stream
              (down_event 7 3 ∷ down_event 8 2 ∷ [])
            ≡ before ++ (frame ∷ after))
          × (length before ≡ 1)
          × (frame.event ≡ down_event 8 2)
          × ((k : Subject)
              → frame.known_states k ≡ latest (down_event 7 3 ∷ down_event 8 2 ∷ []) k)))
replay_historical_event_stream-latest_example =
    replay_historical_event_stream-latest (down_event 7 3 ∷ []) [] (down_event 8 2)
