-- ===== src/History/Reports.antt =====
-- The events of received reports are events that the recorder takes.
use arpanet_redux.Prelude.{
  ℕ, ◌+◌, ◌≤◌, ◌<◌, ◌≡◌, refl, sym, subst, ◌∙◌, Bool, true, false, not, Option, none, some, List,
  [], ◌∷◌, String, ◌==◌, ==-refl, ==_iff, if◌then◌else◌, ◌-◌, ltb, le→leb, ok, >>=-eq-ok,
  ok-injective, All, arith,
}
use arpanet_redux.Events.{
  NccEvent, throughput_report_events, line_events, report_event, up, down, state_value,
}
use arpanet_redux.Events.Laws.{
  Numbered, host_event, trouble_source, event_list, trouble_report_events-list,
}
use arpanet_redux.History.{
  new_recorder, is_line_state, is_host_state, is_earlier, is_type_text, is_subject_text,
  is_state_text, is_kind_text, check_type, validate_event_records, append,
}
use arpanet_redux.Host.Ingress.{IngressMessage}
use arpanet_redux.Identifier.{contains_text}
use arpanet_redux.Leader.{
  decode_trouble_report_imp_to_host_message, decode_throughput_report_imp_to_host_message,
  trouble_report_events_from_imp_to_host_message, throughput_report_events_from_imp_to_host_message,
}
use arpanet_redux.Leader.Messages.Trouble.{decode_trouble_report_imp_to_host_message-accepts}
use arpanet_redux.Leader.Messages.Throughput.{decode_throughput_report_imp_to_host_message-accepts}
use arpanet_redux.Receiver.{report_events}
use arpanet_redux.Receiver.Record.{pass_on-eq-ok, report_events-IsRecord}
use arpanet_redux.Report.Throughput.{ThroughputReport}
use arpanet_redux.Report.Trouble.{LineState, LineReport, TroubleReport, trouble_report, decode_line}
use arpanet_redux.Report.Trouble.Lines.{bit_set}
use arpanet_redux.Receiver.Each.{report_events-All}
use arpanet_redux.Reconcile.Order.{NotBefore}

-- What the recorder asks of an event by itself, at schema version 2.
abbrev pub IsShaped : NccEvent → Type 0
IsShaped e =
    (e.version ≡ 1)
    × (0 < e.source.imp)
    × (is_type_text e.event_type ≡ true)
    × (is_subject_text e.subject ≡ true)
    × (is_state_text e.state ≡ true)
    × (is_kind_text e.source.kind ≡ true)
    × (check_type e.event_type e 2 ≡ ok tt)

state_value-texts :
    (s : LineState)
    → (is_state_text (state_value s) ≡ true) × (is_line_state (state_value s) ≡ true)
state_value-texts LineState.up = (refl, refl)
state_value-texts LineState.down = (refl, refl)
state_value-texts LineState.looped = (refl, refl)
state_value-texts LineState.unknown = (refl, refl)

-- Lines with the numbers 1 to 5.
abbrev IsPort : LineReport → Type 0
IsPort l = (1 ≤ l.interface) × (l.interface ≤ 5)

line_events-IsShaped :
    (ls : List LineReport) (count n : ℕ) (at : String) (start : ℕ)
    → 0 < n
    → All IsPort ls
    → All IsShaped (line_events ls count (trouble_source n) at start)
unfolding line_events check_type
line_events-IsShaped [] count n at start h ports = tt
line_events-IsShaped (l ∷ ls) count n at start h ((low, high), ports) =
    let (a, b) = state_value-texts l.state in
    (
      (
        refl,
        h,
        refl,
        refl,
        a,
        refl,
        rw (==-refl n, le→leb 1 l.interface low, le→leb l.interface 5 high, b),
      ),
      line_events-IsShaped ls (count + 1) n at start h ports,
    )

trouble_report-ports : (ws : List ℕ) → All IsPort (trouble_report ws).lines
unfolding trouble_report decode_line
trouble_report-ports ws = omega arith

host_state-texts :
    (b : Bool)
    → (is_state_text (if b then up else down) ≡ true)
      × (is_host_state (if b then up else down) ≡ true)
host_state-texts true = (refl, refl)
host_state-texts false = (refl, refl)

host_event-IsShaped :
    (r : TroubleReport) (n h k : ℕ) (at : String)
    → 0 < n
    → h ≤ 3
    → IsShaped (host_event r (trouble_source n) at k h)
unfolding check_type
host_event-IsShaped r n h k at p q =
    let (a, b) = host_state-texts (bit_set (15 - h) r.anomaly_word) in
    (refl, p, refl, refl, a, refl, rw (==-refl n, le→leb h 3 q, b))

report_event-IsShaped :
    (r : TroubleReport) (n : ℕ) (at : String) (start : ℕ)
    → 0 < n
    → IsShaped (report_event r (trouble_source n) at start)
unfolding check_type
report_event-IsShaped r n at start h = (refl, h, refl, refl, refl, refl, rw (==-refl n))

event_list-IsShaped :
    (r : TroubleReport) (n : ℕ) (at : String) (start : ℕ)
    → 0 < n
    → All IsPort r.lines
    → All IsShaped (event_list r n at start)
event_list-IsShaped r n at start h ports = (
  report_event-IsShaped r n at start h,
  (
    host_event-IsShaped r n 0 (start + 1) at h (omega arith),
    (
      host_event-IsShaped r n 1 (start + 2) at h (omega arith),
      (
        host_event-IsShaped r n 2 (start + 3) at h (omega arith),
        (
          host_event-IsShaped r n 3 (start + 4) at h (omega arith),
          line_events-IsShaped r.lines 5 n at start h ports,
        ),
      ),
    ),
  ),
)

trouble-IsShaped :
    (m : IngressMessage) (at : String) (next : ℕ) (es : List NccEvent)
    → trouble_report_events_from_imp_to_host_message m at next ≡ ok es
    → All IsShaped es
unfolding trouble_report_events_from_imp_to_host_message
trouble-IsShaped m at next es h =
    let (r, e, h') = >>=-eq-ok (decode_trouble_report_imp_to_host_message m) _ h in
    let c = (decode_trouble_report_imp_to_host_message-accepts m r).0 e in
    let n = r.message.leader.source_imp in
    let made = trouble_report_events-list r.report n at next (omega (arith, c.reporting.sourced)) in
    let ports =
      subst (λ x. All IsPort x.lines) (sym c.report) (trouble_report-ports r.message.body_words) in
    subst (All IsShaped) (ok-injective (sym made ∙ pass_on-eq-ok _ es h'))
      (event_list-IsShaped r.report n at next c.reporting.sourced ports)

throughput_events-IsShaped :
    (r : ThroughputReport) (n : ℕ) (at : String) (next : ℕ) (es : List NccEvent)
    → 0 < n
    → throughput_report_events r n at next ≡ ok es
    → All IsShaped es
unfolding throughput_report_events check_type
throughput_events-IsShaped r n at next es h e =
    let t : not (n == 0) ≡ true = ground arith in
    subst (All IsShaped) (ok-injective (rw t at e))
      ((refl, h, refl, refl, refl, refl, rw (==-refl n)), tt)

throughput-IsShaped :
    (m : IngressMessage) (at : String) (next : ℕ) (es : List NccEvent)
    → throughput_report_events_from_imp_to_host_message m at next ≡ ok es
    → All IsShaped es
unfolding throughput_report_events_from_imp_to_host_message
throughput-IsShaped m at next es h =
    let (r, e, h') = >>=-eq-ok (decode_throughput_report_imp_to_host_message m) _ h in
    let c = (decode_throughput_report_imp_to_host_message-accepts m r).0 e in
    throughput_events-IsShaped r.report r.message.leader.source_imp at next es c.reporting.sourced
      (pass_on-eq-ok _ es h')

module _ (timestamp : String → Option ℕ) (imp_id : ℕ → String) (started_at : ℕ)
    (component_ids : List String) where
  -- Instants that can be read, from the start of the run on, that do not decrease.
  abbrev pub InTime : Option ℕ → List NccEvent → Type 0
  InTime t [] = Unit
  InTime t (e ∷ events) =
      (at : ℕ) × (timestamp e.observed_at ≡ some at)
      × (started_at ≤ at)
      × NotBefore t at
      × InTime (some at) events

  abbrev pub IsKnown : NccEvent → Type 0
  IsKnown e = contains_text (imp_id e.source.imp) component_ids ≡ true

  not_earlier : (t : Option ℕ) (at : ℕ) → NotBefore t at → is_earlier t at ≡ false
  not_earlier none at h = refl
  not_earlier (some s) at h = ground arith

  validate_event_records_lem :
      (es : List NccEvent) (n : ℕ) (t : Option ℕ)
      → All IsShaped es
      → All IsKnown es
      → Numbered n es
      → InTime t es
      → 0 < n
      → validate_event_records timestamp imp_id 2 started_at component_ids es n t ≡ ok tt
  unfolding validate_event_records
  validate_event_records_lem [] n t s k m i p = refl
  validate_event_records_lem (e ∷ es) n t ((v, sourced, a, b, c, d, shape), s) (known, k)
        (number, m) (at, read, begun, later, i) p =
      let w : (e.version == 1) ≡ true = (==_iff _ _).1 v in
      let x : (e.sequence == n) ≡ true = (==_iff _ _).1 number in
      let y : (e.sequence == 0) ≡ false = ground arith in
      let z : (e.source.imp == 0) ≡ false = ground arith in
      let q : ltb at started_at ≡ false = ground arith in
      rw (w, y, read, a, b, c, d, z, x, q, not_earlier t at later, known, shape)
        (validate_event_records_lem es (n + 1) (some at) s k m i (omega arith))

  append_lem :
      (es : List NccEvent)
      → validate_event_records timestamp imp_id 2 started_at component_ids es 1 none ≡ ok tt
      → append timestamp imp_id 2 started_at component_ids new_recorder es
        ≡ ok (record { records = es; closed = false })
  unfolding append
  append_lem [] v = refl
  append_lem (e ∷ es) v = rw v

  -- The events of a run of the receiver, numbered from 1, are taken by a new recorder of schema
  -- version 2, and are then its records: if every IMP that they name is a component, and their times
  -- can be read, are not before the start, and do not decrease.
  pub append-report_events :
      (ms : List (IngressMessage × String)) (es : List NccEvent)
      → report_events ms 1 ≡ ok es
      → All IsKnown es
      → InTime none es
      → append timestamp imp_id 2 started_at component_ids new_recorder es
        ≡ ok (record { records = es; closed = false })
  append-report_events ms es h known times = append_lem es (
      validate_event_records_lem es 1 none
        (report_events-All IsShaped trouble-IsShaped throughput-IsShaped ms 1 es h) known
        (report_events-IsRecord ms 1 es h).0 times (omega arith))
