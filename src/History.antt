-- ===== src/History.antt =====
-- ncc/historical_events.py: the recorder of direct events and the replay, behind the header, which fixes
-- the schema version, the start of the run and the components. The records that the recorder keeps
-- are events; JSON, the file and the reader are left out. How a timestamp is read and how the text
-- `imp:{n}` looks are parameters.
pub mod Reports
pub mod Replay
use arpanet_redux.Prelude.{
  ℕ, ◌+◌, Bool, true, false, not, ◌&&◌, ◌||◌, Option, none, some, List, [], ◌∷◌, ◌++◌, String, ltb,
  leb, ◌==◌, if◌then◌else◌, Result, ok, err, ◌>>=◌, ◌>>◌, require, same_text, is_empty_text,
}
use arpanet_redux.Events
use arpanet_redux.Events.{
  SourceKind, EventType, Subject, EventState, EventSource, Details, NccEvent, imp_trouble_report,
  imp_throughput_report,
}
use arpanet_redux.Identifier.{contains_text}

pub data HistoricalEventStreamError : Type 0 where
  closed_stream bad_version bad_sequence bad_timestamp empty_text bad_source :
      HistoricalEventStreamError
  wrong_sequence before_start earlier unknown_imp wrong_kind bad_subject bad_state old_schema
        unsupported :
      HistoricalEventStreamError

abbrev pub instant : Option ℕ → Result HistoricalEventStreamError ℕ
instant none = err bad_timestamp
instant (some t) = ok t

-- `_text` of a field: of these only a text that is no constructor may be empty.
abbrev pub is_type_text : EventType → Bool
is_type_text (EventType.other s) = not (is_empty_text s)
is_type_text _ = true

abbrev pub is_subject_text : Subject → Bool
is_subject_text (Subject.other s) = not (is_empty_text s)
is_subject_text _ = true

abbrev pub is_state_text : EventState → Bool
is_state_text (EventState.other s) = not (is_empty_text s)
is_state_text _ = true

abbrev pub is_kind_text : SourceKind → Bool
is_kind_text (SourceKind.other s) = not (is_empty_text s)
is_kind_text _ = true

abbrev pub is_trouble : SourceKind → Bool
is_trouble imp_trouble_report = true
is_trouble _ = false

abbrev pub is_throughput : SourceKind → Bool
is_throughput imp_throughput_report = true
is_throughput _ = false

-- The subject `imp:{n}` with the state `received`.
abbrev pub is_report : ℕ → Subject → EventState → Bool
is_report n (Subject.imp m) EventState.received = m == n
is_report n _ _ = false

-- A match of `_HOST_SUBJECT` that names the source, and one of `_LINE_SUBJECT`.
abbrev pub is_host_subject : ℕ → Subject → Bool
is_host_subject n (Subject.host m h) = m == n && leb h 3
is_host_subject n _ = false

abbrev pub is_line_subject : ℕ → Subject → Bool
is_line_subject n (Subject.line m l) = m == n && (leb 1 l && leb l 5)
is_line_subject n _ = false

abbrev pub is_host_state : EventState → Bool
is_host_state EventState.up = true
is_host_state EventState.down = true
is_host_state _ = false

abbrev pub is_line_state : EventState → Bool
is_line_state EventState.up = true
is_line_state EventState.down = true
is_line_state EventState.looped = true
is_line_state EventState.unknown = true
is_line_state _ = false

-- The recorder, with the events that it has written behind the header.
pub record HistoricalEventRecorder : Type 0 where
  pub records : List NccEvent
  pub closed : Bool

abbrev pub new_recorder : HistoricalEventRecorder
new_recorder = record { records = []; closed = false }

abbrev pub close : HistoricalEventRecorder → HistoricalEventRecorder
close s = record s { closed = true }

abbrev pub Check : Type 0
Check = Result HistoricalEventStreamError (Unit {0})

-- The branches of `_validate_event_shape` behind the check of the source.
unfoldable pub check_type : EventType → NccEvent → ℕ → Check
check_type EventType.imp_report e schema_version = do
  require (is_trouble e.source.kind) wrong_kind
  require (is_report e.source.imp e.subject e.state) bad_subject
check_type EventType.host_interface_state e schema_version = do
  require (is_trouble e.source.kind) wrong_kind
  require (is_host_subject e.source.imp e.subject) bad_subject
  require (is_host_state e.state) bad_state
check_type EventType.line_endpoint_state e schema_version = do
  require (is_trouble e.source.kind) wrong_kind
  require (is_line_subject e.source.imp e.subject) bad_subject
  require (is_line_state e.state) bad_state
check_type EventType.throughput_report e schema_version = do
  require (leb 2 schema_version) old_schema
  require (is_throughput e.source.kind) wrong_kind
  require (is_report e.source.imp e.subject e.state) bad_subject
check_type (EventType.other t) e schema_version = err unsupported

abbrev pub is_earlier : Option ℕ → ℕ → Bool
is_earlier none t = false
is_earlier (some previous) t = ltb t previous

module _ (timestamp : String → Option ℕ) (imp_id : ℕ → String) (schema_version started_at : ℕ)
    (component_ids : List String) where
  -- `_check_event_record`, of which the checks are left.
  unfoldable pub check_event_record : NccEvent → Check
  check_event_record e = do
    require (e.version == 1) bad_version
    require (not (e.sequence == 0)) bad_sequence
    _ ← instant (timestamp e.observed_at)
    require (is_type_text e.event_type) empty_text
    require (is_subject_text e.subject) empty_text
    require (is_state_text e.state) empty_text
    require (is_kind_text e.source.kind) empty_text
    require (not (e.source.imp == 0)) bad_source

  unfoldable pub validate_event_shape : NccEvent → Check
  unfolding check_type
  validate_event_shape e = do
    require (contains_text (imp_id e.source.imp) component_ids) unknown_imp
    check_type e.event_type e schema_version

  -- The loop, from the number `index` on, after an event at `previous_at`.
  unfoldable pub validate_event_records : List NccEvent → ℕ → Option ℕ → Check
  unfolding check_event_record validate_event_shape
  validate_event_records [] index previous_at = ok tt
  validate_event_records (e ∷ events) index previous_at = do
    check_event_record e
    require (e.sequence == index) wrong_sequence
    t ← instant (timestamp e.observed_at)
    require (not (ltb t started_at)) before_start
    require (not (is_earlier previous_at t)) earlier
    validate_event_shape e
    validate_event_records events (index + 1) (some t)

  abbrev pub append_batch :
      HistoricalEventRecorder
      → List NccEvent
      → Result HistoricalEventStreamError HistoricalEventRecorder
  append_batch s [] = ok s
  append_batch s (e ∷ events) = do
    validate_event_records (s.records ++ (e ∷ events)) 1 none
    ok (record s { records = s.records ++ (e ∷ events) })

  unfoldable pub append :
      HistoricalEventRecorder
      → List NccEvent
      → Result HistoricalEventStreamError HistoricalEventRecorder
  append s events = do require (not s.closed) closed_stream; append_batch s events

-- `known_states[event.subject] = event.state` in the dictionary.
abbrev pub same_subject : Subject → Subject → Bool
same_subject (Subject.imp n) (Subject.imp m) = n == m
same_subject (Subject.host n h) (Subject.host m k) = n == m && h == k
same_subject (Subject.line n h) (Subject.line m k) = n == m && h == k
same_subject (Subject.other s) (Subject.other t) = same_text s t
same_subject _ _ = false

abbrev pub set_state :
    (Subject → Option EventState) → Subject → EventState → Subject → Option EventState
set_state known s state k = if same_subject s k then some state else known k

-- An event with the states known after it.
pub record HistoricalReplayFrame : Type 0 where
  pub event : NccEvent
  pub known_states : Subject → Option EventState

unfoldable pub replay_from :
    List NccEvent → (Subject → Option EventState) → List HistoricalReplayFrame
replay_from [] known = []
replay_from (e ∷ events) known =
    let now = set_state known e.subject e.state in
    record { event = e; known_states = now } ∷ replay_from events now

unfoldable pub replay_historical_event_stream : List NccEvent → List HistoricalReplayFrame
unfolding replay_from
replay_historical_event_stream events = replay_from events (λ _. none)
