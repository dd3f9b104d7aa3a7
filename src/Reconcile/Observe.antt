-- ===== src/Reconcile/Observe.antt =====
-- The loop over the events in `reconcile` of ncc/reconciliation.py, with the checks of an event. The
-- dictionaries `endpoint_observations` and `imp_observations` are functions.
pub mod Latest
pub mod Reports
use arpanet_redux.Prelude.{
  ℕ, Bool, true, false, not, ◌&&◌, ◌||◌, Option, none, some, List, [], ◌∷◌, String, ◌==◌,
  if◌then◌else◌, Result, ok, err, ◌>>=◌, ◌>>◌, require,
}
use arpanet_redux.Events
use arpanet_redux.Events.{NccEvent, Subject, Details, EventType, EventState, SourceKind}
use arpanet_redux.Reconcile.{
  DirectState, Endpoint, NominalLine, ReconciliationError, not_direct, wrong_source,
  unsupported_state, wrong_subject, not_report, same_endpoint, peer, EndpointObservation,
  ImpObservation,
}
use arpanet_redux.Reconcile.Order.{instant}
use arpanet_redux.Reconcile.Topology.{imps, contains}

abbrev pub is_trouble_source : SourceKind → Bool
is_trouble_source SourceKind.imp_trouble_report = true
is_trouble_source _ = false

-- `event.state not in _DIRECT_LINE_STATES`, with the state that it is.
abbrev pub direct_state : EventState → Option DirectState
direct_state EventState.up = some DirectState.up
direct_state EventState.down = some DirectState.down
direct_state EventState.looped = some DirectState.looped
direct_state EventState.unknown = some DirectState.unknown
direct_state _ = none

abbrev pub supported : ℕ → Option DirectState → Result ReconciliationError DirectState
supported n none = err (unsupported_state n)
supported n (some d) = ok d

-- `_validate_endpoint_event`, which gives the state that it has found supported.
unfoldable pub validate_endpoint_event :
    NccEvent → Endpoint → Result ReconciliationError DirectState
validate_endpoint_event e end = do
  require (is_trouble_source e.source.kind) (not_direct e.sequence)
  require (e.source.imp == end.imp) (wrong_source e.sequence)
  supported e.sequence (direct_state e.state)

-- `event.details.get("neighbor_imp")`
abbrev pub reported_peer : Details → Option ℕ
reported_peer (Details.endpoint d) = d.neighbor_imp
reported_peer _ = none

abbrev pub names_imp : Option ℕ → ℕ → Bool
names_imp none n = false
names_imp (some m) n = m == n

abbrev pub matches_far : Option ℕ → NominalLine → Endpoint → Result ReconciliationError Bool
matches_far reported l end = do far ← peer l end; ok (names_imp reported far.imp)

-- `_matches_expected_peer`, by the state of the event and the peer that it reports.
unfoldable pub matches_expected_peer :
    DirectState → Option ℕ → NominalLine → Endpoint → Result ReconciliationError Bool
matches_expected_peer DirectState.unknown reported l end = ok true
matches_expected_peer DirectState.looped reported l end = ok (names_imp reported end.imp)
matches_expected_peer DirectState.down none l end = ok true
matches_expected_peer DirectState.down (some n) l end = matches_far (some n) l end
matches_expected_peer DirectState.up reported l end = matches_far reported l end

abbrev pub is_subject : Endpoint → Subject → Bool
is_subject e (Subject.line imp interface) = e.imp == imp && e.interface == interface
is_subject e _ = false

abbrev pub end_at : NominalLine → Subject → Option (NominalLine × Endpoint)
end_at l s =
    if is_subject l.second s
    then some (l, l.second)
    else if is_subject l.first s
    then some (l, l.first)
    else none

abbrev pub first_some {ℓ} : {A : Type ℓ} → Option A → Option A → Option A
first_some none o = o
first_some (some a) o = some a

-- The dictionary `endpoints` at a subject; a later line replaces an earlier one.
unfoldable pub find_end : List NominalLine → Subject → Option (NominalLine × Endpoint)
find_end [] s = none
find_end (l ∷ lines) s = first_some (find_end lines s) (end_at l s)

-- What the loop has gathered.
pub record Observed : Type 0 where
  pub ends : Endpoint → Option EndpointObservation
  pub reports : ℕ → Option ImpObservation

abbrev pub nothing_observed : Observed
nothing_observed = record { ends = λ _. none; reports = λ _. none }

abbrev pub set_end : Observed → Endpoint → EndpointObservation → Observed
set_end seen end o = record seen { ends = λ k. if same_endpoint end k then some o else seen.ends k }

abbrev pub set_report : Observed → ℕ → ImpObservation → Observed
set_report seen imp o = record seen { reports = λ k. if imp == k then some o else seen.reports k }

abbrev pub is_own_subject : NccEvent → Subject → Bool
is_own_subject e (Subject.imp n) = n == e.source.imp
is_own_subject e _ = false

abbrev pub is_received : EventState → Bool
is_received EventState.received = true
is_received _ = false

module _ (timestamp : String → Option ℕ) (lines : List NominalLine) where
  -- The branch for an event of a line, from the lookup of its subject.
  unfoldable pub observe_end :
      NccEvent → Option (NominalLine × Endpoint) → Observed → Result ReconciliationError Observed
  unfolding validate_endpoint_event matches_expected_peer
  observe_end e none seen = ok seen
  observe_end e (some (l, end)) seen = do
    d ← validate_endpoint_event e end
    t ← instant (timestamp e.observed_at)
    m ← matches_expected_peer d (reported_peer e.details) l end
    ok (set_end seen end (record { event = e; observed_at = t; state = d; matches_topology = m }))

  -- The branch for the report of an IMP.
  unfoldable pub observe_report : NccEvent → Observed → Result ReconciliationError Observed
  observe_report e seen =
      if contains e.source.imp (imps lines)
      then (require (is_own_subject e e.subject) (wrong_subject e.sequence)
          >> (require (is_trouble_source e.source.kind && is_received e.state)
                (not_report e.sequence)
              >> (instant (timestamp e.observed_at) >>= λ t.
                  ok (set_report seen e.source.imp (record { event = e; observed_at = t })))))
      else ok seen

  abbrev pub observe_by : EventType → NccEvent → Observed → Result ReconciliationError Observed
  observe_by EventType.line_endpoint_state e seen = observe_end e (find_end lines e.subject) seen
  observe_by EventType.imp_report e seen = observe_report e seen
  observe_by _ e seen = ok seen

  -- The loop.
  unfoldable pub observe : List NccEvent → Observed → Result ReconciliationError Observed
  unfolding observe_end observe_report find_end
  observe [] seen = ok seen
  observe (e ∷ events) seen = do next ← observe_by e.event_type e seen; observe events next
