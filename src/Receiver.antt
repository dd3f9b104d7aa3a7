-- ===== src/Receiver.antt =====
-- The passive receiver of scripts/ncc-host-interface-proof.py: the loop that turns the complete
-- messages of a run into the events that are recorded. Its socket loop is not modelled.
pub mod Record
pub mod Each
use arpanet_redux.Prelude.{
  ℕ, ◌+◌, List, [], ◌∷◌, ◌++◌, String, ◌==◌, if◌then◌else◌, Result, ok, err, ◌>>=◌, length,
}
use arpanet_redux.Report.Trouble.{is_trouble_report_type}
use arpanet_redux.Report.Throughput.{throughput_report_type}
use arpanet_redux.Host.Ingress.{IngressMessage}
use arpanet_redux.Events.{NccEvent}
use arpanet_redux.Leader.{
  ImpToHostMessageError, ImpToHostMessage, decode_imp_to_host_message,
  trouble_report_events_from_imp_to_host_message, throughput_report_events_from_imp_to_host_message,
}

-- The branch by the first word of the body; `[]` stands for `continue`.
unfoldable pub body_events :
    List ℕ → IngressMessage → String → ℕ → Result ImpToHostMessageError (List NccEvent)
body_events [] message observed_at next = ok []
body_events (code ∷ body) message observed_at next =
    if is_trouble_report_type code
    then trouble_report_events_from_imp_to_host_message message observed_at next
    else if code == throughput_report_type
    then throughput_report_events_from_imp_to_host_message message observed_at next
    else ok []

-- A message with no leader that can be decoded is passed over.
abbrev pub parsed_events :
    Result ImpToHostMessageError ImpToHostMessage
    → IngressMessage
    → String
    → ℕ
    → Result ImpToHostMessageError (List NccEvent)
parsed_events (err e) message observed_at next = ok []
parsed_events (ok parsed) message observed_at next =
    body_events parsed.body_words message observed_at next

unfoldable pub message_events :
    IngressMessage → String → ℕ → Result ImpToHostMessageError (List NccEvent)
unfolding body_events
message_events message observed_at next =
    parsed_events (decode_imp_to_host_message message) message observed_at next

-- The loop over the messages with their times; `next` is `next_event_sequence`, and an error ends
-- the run.
unfoldable pub report_events :
    List (IngressMessage × String) → ℕ → Result ImpToHostMessageError (List NccEvent)
report_events [] next = ok []
report_events ((message, observed_at) ∷ messages) next = do
  events ← message_events message observed_at next
  rest ← report_events messages (next + length events)
  ok (events ++ rest)
