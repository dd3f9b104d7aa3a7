-- ===== src/Events/Laws.antt =====
-- The events of a report: how many there are, how they are numbered and what they name.
use arpanet_redux.Prelude.{
  ℕ, suc, ◌+◌, ◌≡◌, ◌≢◌, refl, ap, ◌-◌, subst, true, not, List, [], ◌∷◌, ◌++◌, map, String, ◌==◌,
  if◌then◌else◌, ok, length, All, arith,
}
use arpanet_redux.Report.Trouble.{LineReport, TroubleReport}
use arpanet_redux.Report.Trouble.Lines.{bit_set, host_up-bit}
use arpanet_redux.Events.{
  EventType, Subject, Details, EventSource, NccEvent, EventState, imp_report, imp, received,
  buffers, line_endpoint_state, up, down, state_value, host_interface_state, host, line,
  imp_trouble_report, host_events, line_events, report_event, trouble_report_events, empty,
  endpoint,
}

-- The numbers of the events are `n`, `n + 1` and so on.
abbrev pub Numbered : ℕ → List NccEvent → Type 0
Numbered n [] = Unit
Numbered n (e ∷ es) = (e.sequence ≡ n) × Numbered (n + 1) es

pub Numbered-append :
    (n : ℕ) (xs ys : List NccEvent)
    → Numbered n xs
    → Numbered (n + length xs) ys
    → Numbered n (xs ++ ys)
Numbered-append n [] ys hx hy = subst (λ k. Numbered k ys) (omega arith) hy
Numbered-append n (x ∷ xs) ys hx hy =
    (hx.0, Numbered-append (n + 1) xs ys hx.1 (subst (λ k. Numbered k ys) (omega arith) hy))

-- The event of a host interface and that of a line, with everything in them.
abbrev pub host_event : TroubleReport → EventSource → String → ℕ → ℕ → NccEvent
host_event report source observed_at n h = record {
  sequence = n;
  observed_at = observed_at;
  event_type = host_interface_state;
  subject = host source.imp h;
  state = (if bit_set (15 - h) report.anomaly_word then up else down);
  source = source;
  details = empty;
  version = 1;
}

abbrev pub host_list : TroubleReport → EventSource → String → ℕ → List NccEvent
host_list report source observed_at start =
    host_event report source observed_at (start + 1) 0
    ∷ host_event report source observed_at (start + 2) 1
    ∷ host_event report source observed_at (start + 3) 2
    ∷ host_event report source observed_at (start + 4) 3
    ∷ []

host_events-list :
    (report : TroubleReport) (source : EventSource) (observed_at : String) (start : ℕ)
    → host_events 4 0 1 report source observed_at start
      ≡ ok (host_list report source observed_at start)
unfolding host_events
host_events-list report source observed_at start =
    rw (host_up-bit report 0, host_up-bit report 1, host_up-bit report 2, host_up-bit report 3)

line_events-Numbered :
    (ls : List LineReport) (count : ℕ) (source : EventSource) (observed_at : String) (start : ℕ)
    → Numbered (start + count) (line_events ls count source observed_at start)
unfolding line_events
line_events-Numbered [] count source observed_at start = tt
line_events-Numbered (l ∷ ls) count source observed_at start = (
  refl,
  subst (λ k. Numbered k (line_events ls (count + 1) source observed_at start)) (omega arith)
      (line_events-Numbered ls (count + 1) source observed_at start),
)

line_events-length :
    (ls : List LineReport) (count : ℕ) (source : EventSource) (observed_at : String) (start : ℕ)
    → length (line_events ls count source observed_at start) ≡ length ls
unfolding line_events
line_events-length [] count source observed_at start = refl
line_events-length (l ∷ ls) count source observed_at start =
    ap suc (line_events-length ls (count + 1) source observed_at start)

-- An event of one report: from its source, at its time.
abbrev pub IsFrom : EventSource → String → NccEvent → Type 0
IsFrom source observed_at e = (e.source ≡ source) × (e.observed_at ≡ observed_at) × (e.version ≡ 1)

line_events-IsFrom :
    (ls : List LineReport) (count : ℕ) (source : EventSource) (observed_at : String) (start : ℕ)
    → All (IsFrom source observed_at) (line_events ls count source observed_at start)
unfolding line_events
line_events-IsFrom [] count source observed_at start = tt
line_events-IsFrom (l ∷ ls) count source observed_at start =
    ((refl, refl, refl), line_events-IsFrom ls (count + 1) source observed_at start)

-- What an event says: its type, what it is about, the state and the details.
abbrev pub Saying : Type 0
Saying = EventType × Subject × EventState × Details

abbrev pub event_view : NccEvent → Saying
event_view e = (e.event_type, e.subject, e.state, e.details)

-- That IMP `source_imp` was heard, with the buffers that the report has.
abbrev pub report_view : ℕ → TroubleReport → Saying
report_view source_imp report = (
  imp_report,
  imp source_imp,
  received,
  buffers (record {
    message_type = report.message_type;
    imp_version = report.imp_version;
    free_buffers = report.free_buffers;
    store_and_forward_buffers = report.store_and_forward_buffers;
    reassembly_buffers = report.reassembly_buffers;
    allocate_buffers = report.allocate_buffers;
  }),
)

-- Host interface `h` is up exactly when bit 15 - h of the anomaly word is set.
abbrev pub host_view : ℕ → TroubleReport → ℕ → Saying
host_view source_imp report h = (
  host_interface_state,
  host source_imp h,
  if bit_set (15 - h) report.anomaly_word then up else down,
  empty,
)

-- The interface, state, neighbor and counts of a line.
abbrev pub line_view : ℕ → LineReport → Saying
line_view source_imp l = (
  line_endpoint_state,
  line source_imp l.interface,
  state_value l.state,
  endpoint (record {
    neighbor_imp = l.neighbor_imp;
    routing_messages_sent = l.routing_messages_sent;
    routing_messages_missed = l.routing_messages_missed;
  }),
)

line_events-view :
    (ls : List LineReport) (count : ℕ) (source : EventSource) (observed_at : String) (start : ℕ)
    → map event_view (line_events ls count source observed_at start) ≡ map (line_view source.imp) ls
unfolding line_events
line_events-view [] count source observed_at start = refl
line_events-view (l ∷ ls) count source observed_at start =
    ap (λ vs. line_view source.imp l ∷ vs)
      (line_events-view ls (count + 1) source observed_at start)

abbrev pub trouble_source : ℕ → EventSource
trouble_source source_imp = record { kind = imp_trouble_report; imp = source_imp }

-- The events of a trouble report: one for the report, four for the hosts, one for each line.
abbrev pub event_list : TroubleReport → ℕ → String → ℕ → List NccEvent
event_list report source_imp observed_at start =
    report_event report (trouble_source source_imp) observed_at start
    ∷ (host_list report (trouble_source source_imp) observed_at start
        ++ line_events report.lines 5 (trouble_source source_imp) observed_at start)

pub trouble_report_events-list :
    (report : TroubleReport) (source_imp : ℕ) (observed_at : String) (start : ℕ)
    → source_imp ≢ 0
    → trouble_report_events report source_imp observed_at start
      ≡ ok (event_list report source_imp observed_at start)
unfolding trouble_report_events
trouble_report_events-list report source_imp observed_at start h =
    let e : not (source_imp == 0) ≡ true = ground arith in
    rw (e, host_events-list report (trouble_source source_imp) observed_at start)

-- The events of a report from IMP `source_imp`, seen at `observed_at` and numbered from `start`.
pub record IsEvents (report : TroubleReport) (source_imp : ℕ) (observed_at : String) (start : ℕ)
    (es : List NccEvent) : Type 0 where
  pub numbered : Numbered start es
  pub counted : length es ≡ 5 + length report.lines
  pub from_one : All (IsFrom (trouble_source source_imp) observed_at) es
  pub said :
      map event_view es
      ≡ report_view source_imp report
        ∷ (map (host_view source_imp report) (0 ∷ 1 ∷ 2 ∷ 3 ∷ [])
            ++ map (line_view source_imp) report.lines)

event_list-IsEvents :
    (report : TroubleReport) (source_imp : ℕ) (observed_at : String) (start : ℕ)
    → IsEvents report source_imp observed_at start (event_list report source_imp observed_at start)
event_list-IsEvents report source_imp observed_at start = record {
  numbered = (
    omega arith,
    (
      omega arith,
      (
        omega arith,
        (
          omega arith,
          (
            omega arith,
            subst
                (λ k.
                  Numbered k
                    (line_events report.lines 5 (trouble_source source_imp) observed_at start))
                (omega arith)
                (line_events-Numbered report.lines 5 (trouble_source source_imp) observed_at start),
          ),
        ),
      ),
    ),
  );
  counted =
      omega
        (arith, line_events-length report.lines 5 (trouble_source source_imp) observed_at start);
  from_one = (
    (refl, refl, refl),
    (
      (refl, refl, refl),
      (
        (refl, refl, refl),
        (
          (refl, refl, refl),
          (
            (refl, refl, refl),
            line_events-IsFrom report.lines 5 (trouble_source source_imp) observed_at start,
          ),
        ),
      ),
    ),
  );
  said =
      ap
        (λ vs.
          report_view source_imp report
          ∷ (map (host_view source_imp report) (0 ∷ 1 ∷ 2 ∷ 3 ∷ []) ++ vs))
        (line_events-view report.lines 5 (trouble_source source_imp) observed_at start);
}

-- From a source IMP other than 0 the events of a trouble report are always made, all of the same
-- source, time and version, numbered from the given start without a gap. They say exactly, in this
-- order: that the IMP was heard, with its buffers; the state of each of the four host interfaces by
-- its bit of the anomaly word; and the interface, state, neighbor and counts of each line.
pub trouble_report_events-IsEvents :
    (report : TroubleReport) (source_imp : ℕ) (observed_at : String) (start : ℕ)
    → source_imp ≢ 0
    → (es : List NccEvent) × (trouble_report_events report source_imp observed_at start ≡ ok es)
      × IsEvents report source_imp observed_at start es
trouble_report_events-IsEvents report source_imp observed_at start h = (
  event_list report source_imp observed_at start,
  trouble_report_events-list report source_imp observed_at start h,
  event_list-IsEvents report source_imp observed_at start,
)
