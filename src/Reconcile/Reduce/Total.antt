-- ===== src/Reconcile/Reduce/Total.antt =====
-- `reconcile` as a whole: on the lines of a topology it gives every line and every IMP its state, from
-- the observations that the loop over the events has gathered.
use arpanet_redux.Prelude.{
  ℕ, ◌≤◌, ◌≡◌, ◌≢◌, ◌∙◌, not, Option, none, some, List, String, ltb, ◌==◌, ok, All, arith, true,
}
use arpanet_redux.Events.{NccEvent}
use arpanet_redux.Reconcile.{NominalLine, Reconciliation}
use arpanet_redux.Reconcile.Observe.{Observed, nothing_observed, observe}
use arpanet_redux.Reconcile.Order.{Ordered, validate_event_order-Ordered}
use arpanet_redux.Reconcile.Reduce.{views, reconcile}
use arpanet_redux.Reconcile.Reduce.Views.{AreReconciled, AreJudged, views-total}
use arpanet_redux.Reconcile.Topology.{imps, nominal_topology}
use arpanet_redux.Reconcile.Topology.Laws.{nominal_topology-NewFrom}

module _ (timestamp : String → Option ℕ) (lines : List NominalLine) (events : List NccEvent)
    (started_at observed_at : String) (started current interval : ℕ) (seen : Observed) where
  after_checks :
      timestamp started_at ≡ some started
      → timestamp observed_at ≡ some current
      → started ≤ current
      → interval ≢ 0
      → Ordered timestamp current none none events
      → observe timestamp lines events nothing_observed ≡ ok seen
      → reconcile timestamp lines events started_at observed_at interval
        ≡ views lines seen started current interval
  unfolding reconcile
  after_checks s c le pos order gathered =
      let late : not (ltb current started) ≡ true = ground arith in
      let positive : not (interval == 0) ≡ true = ground arith in
      rw (
        s,
        c,
        late,
        positive,
        (validate_event_order-Ordered timestamp current events).1 order,
        gathered,
      )

  pub reconcile-total :
      nominal_topology lines ≡ ok lines
      → All (λ l. l.first.imp ≢ l.second.imp) lines
      → timestamp started_at ≡ some started
      → timestamp observed_at ≡ some current
      → started ≤ current
      → interval ≢ 0
      → Ordered timestamp current none none events
      → observe timestamp lines events nothing_observed ≡ ok seen
      → (r : Reconciliation) × (reconcile timestamp lines events started_at observed_at interval
          ≡ ok r)
        × AreReconciled lines seen started current interval lines r.lines
        × AreJudged lines seen started current interval (imps lines) r.imps
  reconcile-total nominal distinct s c le pos order gathered =
      let (_, new) = (nominal_topology-NewFrom lines).0 nominal in
      let (r, e, vl, vi) = views-total lines seen started current interval new distinct in
      (r, after_checks s c le pos order gathered ∙ e, vl, vi)
