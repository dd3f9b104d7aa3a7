-- ===== src/Events.antt =====
-- ncc/events.py: the observations that a report gives. The fixed texts of an event (its type, its
-- state, its kind of source, the forms of its subject) are constructors, and `other` holds any text
-- that is none of them; `details` has a constructor for each set of keys that the code writes.
pub mod Laws
use arpanet_redux.Prelude.{
  ℕ, zero, suc, ◌+◌, Bool, true, false, not, Option, none, some, List, [], ◌∷◌, ◌++◌, String, ◌==◌,
  if◌then◌else◌, Result, ok, err, ◌>>=◌, ◌>>◌, require, length,
}
use arpanet_redux.Report.Trouble
use arpanet_redux.Report.Trouble.{LineState, LineReport, TroubleReport, host_up}
use arpanet_redux.Report.Throughput.{LineThroughput, HostThroughput, ThroughputReport}

pub data SourceKind : Type 0 where
  imp_trouble_report imp_throughput_report : SourceKind
  other : String → SourceKind

pub record EventSource : Type 0 where
  pub kind : SourceKind
  pub imp : ℕ

pub data EventType : Type 0 where
  imp_report host_interface_state line_endpoint_state throughput_report : EventType
  other : String → EventType

-- "imp:{imp}", "imp:{imp}:host:{host}", "imp:{imp}:line:{line}"
pub data Subject : Type 0 where
  imp : ℕ → Subject
  host line : ℕ → ℕ → Subject
  other : String → Subject

pub data EventState : Type 0 where
  received up down looped unknown : EventState
  other : String → EventState

pub record BufferDetails : Type 0 where
  pub message_type : ℕ
  pub imp_version : ℕ
  pub free_buffers : ℕ
  pub store_and_forward_buffers : ℕ
  pub reassembly_buffers : ℕ
  pub allocate_buffers : ℕ

pub record LineDetails : Type 0 where
  pub neighbor_imp : Option ℕ
  pub routing_messages_sent : ℕ
  pub routing_messages_missed : ℕ

pub data Details : Type 0 where
  empty : Details
  buffers : BufferDetails → Details
  endpoint : LineDetails → Details
  -- message_type, line_throughput, host_throughput, checksum_word, padding_words
  counters : ℕ → List LineThroughput → List HostThroughput → ℕ → List ℕ → Details

pub record NccEvent : Type 0 where
  pub sequence : ℕ
  pub observed_at : String
  pub event_type : EventType
  pub subject : Subject
  pub state : EventState
  pub source : EventSource
  pub details : Details
  pub version : ℕ

pub data EventError : Type 0 where
  no_source_imp bad_host : EventError

-- `line.state.value`
abbrev pub state_value : LineState → EventState
state_value LineState.up = up
state_value LineState.down = down
state_value LineState.looped = looped
state_value LineState.unknown = unknown

abbrev pub host_state : ℕ → Option Bool → Result EventError EventState
host_state h none = err bad_host
host_state h (some b) = ok (if b then up else down)

-- The loop over the host interfaces; `count` is `len(events)`, and the first argument the rounds left.
unfoldable pub host_events :
    ℕ → ℕ → ℕ → TroubleReport → EventSource → String → ℕ → Result EventError (List NccEvent)
host_events zero h count report source observed_at start = ok []
host_events (suc rounds) h count report source observed_at start = do
  state ← host_state h (host_up report h)
  rest ← host_events rounds (h + 1) (count + 1) report source observed_at start
  ok (
      record {
        sequence = start + count;
        observed_at = observed_at;
        event_type = host_interface_state;
        subject = host source.imp h;
        state = state;
        source = source;
        details = empty;
        version = 1;
      }
      ∷ rest)

-- The loop over the lines of the report.
unfoldable pub line_events : List LineReport → ℕ → EventSource → String → ℕ → List NccEvent
line_events [] count source observed_at start = []
line_events (l ∷ lines) count source observed_at start =
    record {
      sequence = start + count;
      observed_at = observed_at;
      event_type = line_endpoint_state;
      subject = line source.imp l.interface;
      state = state_value l.state;
      source = source;
      details = endpoint (record {
        neighbor_imp = l.neighbor_imp;
        routing_messages_sent = l.routing_messages_sent;
        routing_messages_missed = l.routing_messages_missed;
      });
      version = 1;
    }
    ∷ line_events lines (count + 1) source observed_at start

-- The first event of a trouble report.
abbrev pub report_event : TroubleReport → EventSource → String → ℕ → NccEvent
report_event report source observed_at start = record {
  sequence = start;
  observed_at = observed_at;
  event_type = imp_report;
  subject = imp source.imp;
  state = received;
  source = source;
  details = buffers (record {
    message_type = report.message_type;
    imp_version = report.imp_version;
    free_buffers = report.free_buffers;
    store_and_forward_buffers = report.store_and_forward_buffers;
    reassembly_buffers = report.reassembly_buffers;
    allocate_buffers = report.allocate_buffers;
  });
  version = 1;
}

-- The numbers are natural, so of the two guards the one on the source IMP remains.
unfoldable pub trouble_report_events :
    TroubleReport → ℕ → String → ℕ → Result EventError (List NccEvent)
unfolding host_events line_events
trouble_report_events report source_imp observed_at sequence_start = do
  require (not (source_imp == 0)) no_source_imp
  let source : EventSource = record { kind = imp_trouble_report; imp = source_imp }
  hosts ← host_events 4 0 1 report source observed_at sequence_start
  ok (
      report_event report source observed_at sequence_start
      ∷ (hosts ++ line_events report.lines (1 + length hosts) source observed_at sequence_start))

unfoldable pub throughput_report_events :
    ThroughputReport → ℕ → String → ℕ → Result EventError (List NccEvent)
throughput_report_events report source_imp observed_at sequence_start = do
  require (not (source_imp == 0)) no_source_imp
  ok (
      record {
        sequence = sequence_start;
        observed_at = observed_at;
        event_type = throughput_report;
        subject = imp source_imp;
        state = received;
        source = record { kind = imp_throughput_report; imp = source_imp };
        details =
            counters report.message_type report.lines report.hosts report.checksum_word
              report.padding_words;
        version = 1;
      }
      ∷ [])
