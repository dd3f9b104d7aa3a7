-- ===== src/Reconcile/Reduce/Views.antt =====
-- The conditions of all lines and IMPs of a topology: every lookup of an end succeeds, and every line
-- and every IMP is given its state.
pub mod Lookup
use arpanet_redux.Prelude.{
  ℕ, ◌≡◌, ◌≢◌, ◌↔◌, refl, sym, ap, ◌∙◌, Option, none, some, List, [], ◌∷◌, Result, ok, ◌>>=◌, All,
  arith,
}
use mathlib.Core.Path.{ap₂}
use arpanet_redux.Reconcile.{
  LineState, ImpState, Endpoint, NominalLine, ReconciliationError, minus_endpoint, plus_endpoint,
  EndpointObservation, ReconciledEndpoint, ReconciledLine, ReconciledImp, Reconciliation,
}
use arpanet_redux.Reconcile.Conditions.{reconcile_endpoint, reconcile_line, line_of}
use arpanet_redux.Reconcile.Lines.{Condition, line_in, reconciled, reconcile_line-total}
use arpanet_redux.Reconcile.Observe.{Observed}
use arpanet_redux.Reconcile.Reachability.{reconcile_imp}
use arpanet_redux.Reconcile.Reachability.Partition.{Reachability, reconcile_imp-Reachability}
use arpanet_redux.Reconcile.Reduce.{
  reconciled_endpoints, by_identity, looked_up, reconcile_lines, reconcile_imps, views,
}
use arpanet_redux.Reconcile.Reduce.Views.Lookup.{IsFound, ends-IsFound}
use arpanet_redux.Reconcile.Topology.{imps}
use arpanet_redux.Reconcile.Topology.Laws.{NewFrom}

module _ (lines : List NominalLine) (seen : Observed) (started current interval : ℕ) where
  -- A reconciled line is in the state of its condition, supported by the events of its ends.
  abbrev pub IsReconciled : NominalLine → ReconciledLine → Type 0
  IsReconciled l r =
      (s : LineState) × (r ≡ line_in current interval l seen.ends s)
      × Condition current interval (seen.ends (minus_endpoint l)) (seen.ends (plus_endpoint l)) s

  abbrev pub AreReconciled : List NominalLine → List ReconciledLine → Type 0
  AreReconciled [] [] = Unit
  AreReconciled (l ∷ ls) (r ∷ rs) = IsReconciled l r × AreReconciled ls rs
  AreReconciled [] (r ∷ rs) = ⊥
  AreReconciled (l ∷ ls) [] = ⊥

  -- The state of an IMP is that of its condition.
  abbrev pub IsJudged : ℕ → ReconciledImp → Type 0
  IsJudged n r =
      (s : ImpState)
      → (r.state ≡ s) ↔ Reachability n lines seen.ends (seen.reports n) started current interval s

  abbrev pub AreJudged : List ℕ → List ReconciledImp → Type 0
  AreJudged [] [] = Unit
  AreJudged (n ∷ ns) (r ∷ rs) = IsJudged n r × AreJudged ns rs
  AreJudged [] (r ∷ rs) = ⊥
  AreJudged (n ∷ ns) [] = ⊥

  reconcile_line-found :
      (l : NominalLine) (find : Endpoint → Option ReconciledEndpoint)
      → IsFound seen.ends current interval find l
      → reconcile_line l find ≡ reconciled current interval l seen.ends
  unfolding reconcile_line
  reconcile_line-found l find (m, p) = ap₂ (line_of l) m p

  reconcile_lines-total :
      (ls : List NominalLine) (find : Endpoint → Option ReconciledEndpoint)
      → All (IsFound seen.ends current interval find) ls
      → (rs : List ReconciledLine) × (reconcile_lines ls find ≡ ok rs) × AreReconciled ls rs
  unfolding reconcile_lines
  reconcile_lines-total [] find h = ([], refl, tt)
  reconcile_lines-total (l ∷ ls) find (here, there) =
      let (s, e, c) = reconcile_line-total current interval l seen.ends in
      let (rs, e', v) = reconcile_lines-total ls find there in
      let r = line_in current interval l seen.ends s in
      (
        r ∷ rs,
        ap (λ o. looked_up o >>= λ a. reconcile_lines ls find >>= λ more. ok (a ∷ more))
              (reconcile_line-found l find here ∙ e)
            ∙ ap (λ o. o >>= λ more. ok (r ∷ more)) e',
        ((s, refl, c), v),
      )

  reconcile_imps-total :
      All (λ l. l.first.imp ≢ l.second.imp) lines
      → (ns : List ℕ)
      → (rs : List ReconciledImp) × (reconcile_imps ns lines seen started current interval ≡ ok rs)
        × AreJudged ns rs
  unfolding reconcile_imps
  reconcile_imps-total d [] = ([], refl, tt)
  reconcile_imps-total d (n ∷ ns) =
      let (r, e, v) =
        reconcile_imp-Reachability n lines seen.ends (seen.reports n) started current interval d in
      let (rs, e', vs) = reconcile_imps-total d ns in
      (
        r ∷ rs,
        ap
              (λ o. o >>= λ a.
                reconcile_imps ns lines seen started current interval >>= λ more. ok (a ∷ more))
              e
            ∙ ap (λ o. o >>= λ more. ok (r ∷ more)) e',
        (v, vs),
      )

  pub views-total :
      NewFrom lines [] []
      → All (λ l. l.first.imp ≢ l.second.imp) lines
      → (r : Reconciliation) × (views lines seen started current interval ≡ ok r)
        × AreReconciled lines r.lines
        × AreJudged (imps lines) r.imps
  unfolding views
  views-total new distinct =
      let ends = reconciled_endpoints seen.ends current interval lines in
      let (ls, el, vl) =
        reconcile_lines-total lines (by_identity ends)
          (ends-IsFound seen.ends current interval lines [] [] new distinct) in
      let (is, ei, vi) = reconcile_imps-total distinct (imps lines) in
      (
        record { lines = ls; imps = is; endpoints = ends },
        ap
              (λ o. o >>= λ a.
                reconcile_imps (imps lines) lines seen started current interval >>= λ b.
                ok (record { lines = a; imps = b; endpoints = ends }))
              el
            ∙ ap (λ o. o >>= λ b. ok (record { lines = ls; imps = b; endpoints = ends })) ei,
        vl,
        vi,
      )
