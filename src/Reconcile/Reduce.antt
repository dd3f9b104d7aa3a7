-- ===== src/Reconcile/Reduce.antt =====
-- `reconcile` and `observation_is_stale` of ncc/reconciliation.py. How a timestamp is read is a
-- parameter. An interval is a natural number, so that 0 is the one that is refused.
pub mod Views
pub mod Total
pub mod Reported
use arpanet_redux.Prelude.{
  ℕ, Bool, true, false, not, Option, none, some, List, [], ◌∷◌, String, ltb, ◌==◌, Result, ok, err,
  ◌>>=◌, ◌>>◌, require, if◌then◌else◌,
}
use arpanet_redux.Events.{NccEvent}
use arpanet_redux.Reconcile.{
  Endpoint, NominalLine, ReconciliationError, before_start, bad_interval, before_observation,
  lookup_failed, same_endpoint, minus_endpoint, plus_endpoint, EndpointObservation,
  ReconciledEndpoint, ReconciledLine, ReconciledImp, Reconciliation,
}
use arpanet_redux.Reconcile.Conditions.{expired, reconcile_endpoint, reconcile_line}
use arpanet_redux.Reconcile.Observe.{Observed, nothing_observed, first_some, observe}
use arpanet_redux.Reconcile.Order.{instant, validate_event_order}
use arpanet_redux.Reconcile.Reachability.{reconcile_imp}
use arpanet_redux.Reconcile.Topology.{imps}

module _ (observations : Endpoint → Option EndpointObservation) (current interval : ℕ) where
  -- `reconciled_endpoints`
  abbrev pub reconciled_endpoints : List NominalLine → List ReconciledEndpoint
  reconciled_endpoints [] = []
  reconciled_endpoints (l ∷ lines) =
      reconcile_endpoint l (minus_endpoint l) (observations (minus_endpoint l)) current interval
      ∷ reconcile_endpoint l (plus_endpoint l) (observations (plus_endpoint l)) current interval
      ∷ reconciled_endpoints lines

-- The dictionary `endpoints_by_identity`; a later entry replaces an earlier one.
abbrev pub by_identity : List ReconciledEndpoint → Endpoint → Option ReconciledEndpoint
by_identity [] e = none
by_identity (r ∷ rs) e =
    first_some (by_identity rs e) (if same_endpoint r.endpoint e then some r else none)

abbrev pub looked_up : Option ReconciledLine → Result ReconciliationError ReconciledLine
looked_up none = err lookup_failed
looked_up (some r) = ok r

unfoldable pub reconcile_lines :
    List NominalLine
    → (Endpoint → Option ReconciledEndpoint)
    → Result ReconciliationError (List ReconciledLine)
reconcile_lines [] endpoints = ok []
reconcile_lines (l ∷ lines) endpoints = do
  r ← looked_up (reconcile_line l endpoints)
  rest ← reconcile_lines lines endpoints
  ok (r ∷ rest)

unfoldable pub reconcile_imps :
    List ℕ
    → List NominalLine
    → Observed
    → ℕ
    → ℕ
    → ℕ
    → Result ReconciliationError (List ReconciledImp)
reconcile_imps [] lines seen started current interval = ok []
reconcile_imps (n ∷ ns) lines seen started current interval = do
  r ← reconcile_imp n lines seen.ends (seen.reports n) started current interval
  rest ← reconcile_imps ns lines seen started current interval
  ok (r ∷ rest)

-- What follows the loop over the events.
unfoldable pub views :
    List NominalLine → Observed → ℕ → ℕ → ℕ → Result ReconciliationError Reconciliation
unfolding reconcile_lines reconcile_imps
views lines seen started current interval = do
  let ends = reconciled_endpoints seen.ends current interval lines
  ls ← reconcile_lines lines (by_identity ends)
  is ← reconcile_imps (imps lines) lines seen started current interval
  ok (record { lines = ls; imps = is; endpoints = ends })

module _ (timestamp : String → Option ℕ) where
  unfoldable pub reconcile :
      List NominalLine
      → List NccEvent
      → String
      → String
      → ℕ
      → Result ReconciliationError Reconciliation
  reconcile lines events started_at observed_at interval = do
    started ← instant (timestamp started_at)
    current ← instant (timestamp observed_at)
    require (not (ltb current started)) before_start
    require (not (interval == 0)) bad_interval
    validate_event_order timestamp current events
    seen ← observe timestamp lines events nothing_observed
    views lines seen started current interval

  unfoldable pub observation_is_stale : String → String → ℕ → Result ReconciliationError Bool
  observation_is_stale observed_at as_of interval = do
    require (not (interval == 0)) bad_interval
    observed ← instant (timestamp observed_at)
    current ← instant (timestamp as_of)
    require (not (ltb current observed)) before_observation
    ok (expired observed current interval)
