-- ===== src/Reconcile/Observe/Reports.antt =====
-- The events that are made of a trouble report pass the checks in the loop of the reducer.
use arpanet_redux.Reconcile.Order.{instant}
use arpanet_redux.Prelude.{
  ℕ, ◌+◌, ◌≡◌, ◌≢◌, ◌⊎◌, inl, inr, refl, sym, ap, ◌∙◌, Bool, true, false, Option, none, some, List,
  [], ◌∷◌, String, ok, ◌>>=◌, Option-cases, Bool-cases, arith, ◌==◌, if◌then◌else◌, ==-refl,
  ok-injective,
}
use arpanet_redux.Events.{
  NccEvent, EventSource, Subject, line_events, report_event, state_value, trouble_report_events,
  Details, imp_trouble_report, line_endpoint_state,
}
use arpanet_redux.Events.Laws.{trouble_source, trouble_report_events-list}
use arpanet_redux.Report.Trouble.{TroubleReport, LineReport}
use arpanet_redux.Report.Trouble
use arpanet_redux.Reconcile.{DirectState, Endpoint, NominalLine, peer, same_endpoint}
use arpanet_redux.Reconcile.Observe.{
  Observed, direct_state, matches_expected_peer, reported_peer, is_subject, end_at, find_end,
  validate_endpoint_event, observe_end, observe_report, observe, first_some, set_end, set_report,
}
use arpanet_redux.Reconcile.Topology.{imps, contains}

abbrev pick : Bool → Bool → NominalLine → Option (NominalLine × Endpoint)
pick second first l =
    if second then some (l, l.second) else if first then some (l, l.first) else none

-- Which branch of the lookup at one line gave its answer.
picked :
    (second first : Bool) (l k : NominalLine) (end : Endpoint)
    → pick second first l ≡ some (k, end)
    → ((second ≡ true) × (end ≡ l.second) × (k ≡ l)) ⊎ ((first ≡ true) × (end ≡ l.first) × (k ≡ l))
picked true first l k end h = inl (refl, cc, cc)
picked false true l k end h = inr (refl, cc, cc)
picked false false l k end h = cc

end_at-end :
    (l k : NominalLine) (end : Endpoint) (s : Subject)
    → end_at l s ≡ some (k, end)
    → (is_subject end s ≡ true) × ((end ≡ k.first) ⊎ (end ≡ k.second))
end_at-end l k end s h = elim (picked (is_subject l.second s) (is_subject l.first s) l k end h) [
  | inl (e, p, q) ↦ (ap (λ x. is_subject x s) p ∙ e, inr (p ∙ ap (λ x. x.second) (sym q)))
  | inr (e, p, q) ↦ (ap (λ x. is_subject x s) p ∙ e, inl (p ∙ ap (λ x. x.first) (sym q)))
]

first_some-eq-some {ℓ} :
    {A : Type ℓ} (o p : Option A) (a : A) → first_some o p ≡ some a → (o ≡ some a) ⊎ (p ≡ some a)
first_some-eq-some none p a h = inr h
first_some-eq-some (some b) p a h = inl h

-- The lookup of a subject finds an end of its line, which the subject names.
find_end-end :
    (lines : List NominalLine) (s : Subject) (k : NominalLine) (end : Endpoint)
    → find_end lines s ≡ some (k, end)
    → (is_subject end s ≡ true) × ((end ≡ k.first) ⊎ (end ≡ k.second))
unfolding find_end
find_end-end [] s k end h = cc
find_end-end (l ∷ lines) s k end h =
    elim (first_some-eq-some (find_end lines s) (end_at l s) (k, end) h) [
      | inl later ↦ find_end-end lines s k end later
      | inr here ↦ end_at-end l k end s here
    ]

peer-end :
    (l : NominalLine) (end : Endpoint)
    → (end ≡ l.first) ⊎ (end ≡ l.second)
    → (far : Endpoint) × (peer l end ≡ ok far)
peer-end l end h = elim (Bool-cases (same_endpoint end l.first)) [
  | inl e ↦ (l.second, ground arith)
  | inr e ↦ (l.first, ground arith)
]

matches-peer :
    (d : DirectState) (reported : Option ℕ) (l : NominalLine) (end far : Endpoint)
    → peer l end ≡ ok far
    → (b : Bool) × (matches_expected_peer d reported l end ≡ ok b)
unfolding matches_expected_peer
matches-peer DirectState.unknown reported l end far h = (_, refl)
matches-peer DirectState.looped reported l end far h = (_, refl)
matches-peer DirectState.down none l end far h = (_, refl)
matches-peer DirectState.down (some n) l end far h = (_, ap (λ r. r >>= λ f. ok (n == f.imp)) h)
matches-peer DirectState.up none l end far h = (_, ap (λ r. r >>= λ f. ok false) h)
matches-peer DirectState.up (some n) l end far h = (_, ap (λ r. r >>= λ f. ok (n == f.imp)) h)

valid :
    (e : NccEvent) (end : Endpoint) (d : DirectState) (i : ℕ)
    → (e.source.kind ≡ imp_trouble_report)
    → (e.subject ≡ Subject.line e.source.imp i)
    → (direct_state e.state ≡ some d)
    → is_subject end e.subject ≡ true
    → validate_endpoint_event e end ≡ ok d
unfolding validate_endpoint_event
valid e end d i k s st named =
    let named' : is_subject end (Subject.line e.source.imp i) ≡ true =
      ap (is_subject end) (sym s) ∙ named in
    ground arith

-- The event of one line.
abbrev line_event : LineReport → ℕ → EventSource → String → ℕ → NccEvent
line_event l count source observed_at start = record {
  sequence = start + count;
  observed_at = observed_at;
  event_type = line_endpoint_state;
  subject = Subject.line source.imp l.interface;
  state = state_value l.state;
  source = source;
  details = Details.endpoint (record {
    neighbor_imp = l.neighbor_imp;
    routing_messages_sent = l.routing_messages_sent;
    routing_messages_missed = l.routing_messages_missed;
  });
  version = 1;
}

module _ (timestamp : String → Option ℕ) (lines : List NominalLine) where
  -- An event of a line passes, whether the line is in the topology or not.
  observe_end-accepts :
      (e : NccEvent) (d : DirectState) (t i : ℕ) (seen : Observed)
      → (e.source.kind ≡ imp_trouble_report)
      → (e.subject ≡ Subject.line e.source.imp i)
      → (direct_state e.state ≡ some d)
      → (timestamp e.observed_at ≡ some t)
      → (next : Observed) × (observe_end timestamp lines e (find_end lines e.subject) seen
          ≡ ok next)
  unfolding observe_end
  observe_end-accepts e d t i seen k s st ts = elim (Option-cases (find_end lines e.subject)) [
    | inl missing ↦ (seen, ap (λ f. observe_end timestamp lines e f seen) missing)
    | inr ((l, end), found) ↦
        let (named, at) = find_end-end lines e.subject l end found in
        let (far, across) = peer-end l end at in
        let (b, m) = matches-peer d (reported_peer e.details) l end far across in
        let v = valid e end d i k s st named in
        (
          _,
          ap (λ f. observe_end timestamp lines e f seen) found
              ∙ ap
                  (λ r. r >>= λ x. instant (timestamp e.observed_at) >>= λ y.
                    matches_expected_peer x (reported_peer e.details) l end >>= λ z. ok (
                      set_end seen end
                        (record { event = e; observed_at = y; state = x; matches_topology = z })))
                  v
              ∙ ap
                  (λ r. instant r >>= λ y.
                    matches_expected_peer d (reported_peer e.details) l end >>= λ z. ok (
                      set_end seen end
                        (record { event = e; observed_at = y; state = d; matches_topology = z })))
                  ts
              ∙ ap
                  (λ r. r >>= λ z. ok (
                    set_end seen end
                      (record { event = e; observed_at = t; state = d; matches_topology = z })))
                  m,
        )
  ]

  line_state : (s : Trouble.LineState) → (d : DirectState) × (direct_state (state_value s) ≡ some d)
  line_state Trouble.LineState.up = (_, refl)
  line_state Trouble.LineState.down = (_, refl)
  line_state Trouble.LineState.looped = (_, refl)
  line_state Trouble.LineState.unknown = (_, refl)

  line_events-accepted :
      (ls : List LineReport) (count imp t start : ℕ) (observed_at : String) (seen : Observed)
      → timestamp observed_at ≡ some t
      → (next : Observed) × (observe timestamp lines
            (line_events ls count (trouble_source imp) observed_at start)
            seen
          ≡ ok next)
  unfolding observe line_events
  line_events-accepted [] count imp t start observed_at seen h = (seen, refl)
  line_events-accepted (l ∷ ls) count imp t start observed_at seen h =
      let (d, st) = line_state l.state in
      let rest = line_events ls (count + 1) (trouble_source imp) observed_at start in
      let e : NccEvent = line_event l count (trouble_source imp) observed_at start in
      let (next, one) = observe_end-accepts e d t l.interface seen refl refl st h in
      let (last, more) = line_events-accepted ls (count + 1) imp t start observed_at next h in
      (last, ap (λ r. r >>= λ n. observe timestamp lines rest n) one ∙ more)

  observe_report-accepts :
      (report : TroubleReport) (imp t start : ℕ) (observed_at : String) (seen : Observed)
      → timestamp observed_at ≡ some t
      → (next : Observed) × (observe_report timestamp lines
            (report_event report (trouble_source imp) observed_at start)
            seen
          ≡ ok next)
  unfolding observe_report
  observe_report-accepts report imp t start observed_at seen h =
      let e : NccEvent = report_event report (trouble_source imp) observed_at start in
      let noted : Observed = set_report seen imp (record { event = e; observed_at = t }) in
      elim (Bool-cases (contains imp (imps lines))) [
        | inl there ↦ (noted, rw (there, ==-refl imp, h))
        | inr away ↦ (seen, rw away)
      ]

  -- The loop of the reducer over the events, behind the checks on their order, never refuses those of a
  -- trouble report from a source IMP other than 0, whatever it has seen, if their time can be read.
  pub trouble_report_events-accepted :
      (report : TroubleReport) (imp t start : ℕ) (observed_at : String) (seen : Observed)
      (events : List NccEvent)
      → imp ≢ 0
      → timestamp observed_at ≡ some t
      → trouble_report_events report imp observed_at start ≡ ok events
      → (next : Observed) × (observe timestamp lines events seen ≡ ok next)
  unfolding observe
  trouble_report_events-accepted report imp t start observed_at seen events z h made =
      let (noted, one) = observe_report-accepts report imp t start observed_at seen h in
      let (last, more) = line_events-accepted report.lines 5 imp t start observed_at noted h in
      let rest = line_events report.lines 5 (trouble_source imp) observed_at start in
      let same =
        ok-injective (sym made ∙ trouble_report_events-list report imp observed_at start z) in
      (
        last,
        ap (λ es. observe timestamp lines es seen) same
            ∙ ap (λ r. r >>= λ n. observe timestamp lines rest n) one
            ∙ more,
      )
