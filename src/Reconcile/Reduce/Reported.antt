-- ===== src/Reconcile/Reduce/Reported.antt =====
-- `reconcile` of ncc/reconciliation.py on the events that `trouble_report_events` of ncc/events.py makes.
use arpanet_redux.Prelude.{
  ℕ, ◌+◌, ◌≤◌, ◌≡◌, ◌≢◌, refl, sym, ap, subst, ◌∙◌, fun_ext, Option, none, some, List, [], ◌∷◌,
  ◌++◌, String, ok, ◌>>=◌, >>=_assoc, All, arith,
}
use arpanet_redux.Events.{NccEvent, EventSource, trouble_report_events}
use arpanet_redux.Events.Laws.{Numbered, IsFrom}
use arpanet_redux.Report.Trouble.{TroubleReport}
use arpanet_redux.Reconcile.{NominalLine, Reconciliation}
use arpanet_redux.Reconcile.Observe.{Observed, nothing_observed, observe, observe_by}
use arpanet_redux.Reconcile.Observe.Reports.{trouble_report_events-accepted}
use arpanet_redux.Reconcile.Order.{Above, NotBefore, Ordered}
use arpanet_redux.Reconcile.Reduce.{reconcile}
use arpanet_redux.Reconcile.Reduce.Total.{reconcile-total}
use arpanet_redux.Reconcile.Topology.{nominal_topology}

module _ (timestamp : String → Option ℕ) where
  -- The events of trouble reports, report after report.
  pub data AreReported : List NccEvent → Type 0 where
    nothing : AreReported []
    reported :
        {events rest : List NccEvent} (report : TroubleReport) (imp t start : ℕ)
        (observed_at : String)
        → imp ≢ 0
        → timestamp observed_at ≡ some t
        → trouble_report_events report imp observed_at start ≡ ok events
        → AreReported rest
        → AreReported (events ++ rest)

  -- The events of one report are in order behind any earlier ones, when it is not in the future.
  pub Numbered-Ordered :
      (source : EventSource) (observed_at : String) (t current n : ℕ) (es : List NccEvent)
      (previous : Option ℕ) (previous_at : Option ℕ)
      → timestamp observed_at ≡ some t
      → t ≤ current
      → Numbered n es
      → All (IsFrom source observed_at) es
      → Above previous n
      → NotBefore previous_at t
      → Ordered timestamp current previous previous_at es
  Numbered-Ordered source observed_at t current n [] p q h le m k a b = tt
  Numbered-Ordered source observed_at t current n (e ∷ es) p q h le (m, ms) ((_, at, _), ks) a b = (
    t,
    ap timestamp at ∙ h,
    subst (Above p) (sym m) a,
    b,
    le,
    Numbered-Ordered source observed_at t current (n + 1) es (some e.sequence) (some t) h le ms ks
        (omega (arith, m)) (omega arith),
  )

  module _ (lines : List NominalLine) where
    observe-append :
        (xs ys : List NccEvent) (seen : Observed)
        → observe timestamp lines (xs ++ ys) seen
          ≡ (observe timestamp lines xs seen >>= observe timestamp lines ys)
    unfolding observe
    observe-append [] ys seen = refl
    observe-append (x ∷ xs) ys seen =
        let first = observe_by timestamp lines x.event_type x seen in
        ap (λ f. first >>= f) (fun_ext (λ next. observe-append xs ys next))
        ∙ sym (>>=_assoc first (observe timestamp lines xs) (observe timestamp lines ys))

    AreReported-observed :
        {events : List NccEvent} (seen : Observed)
        → AreReported events
        → (next : Observed) × (observe timestamp lines events seen ≡ ok next)
    AreReported-observed seen nothing = (seen, unfold observe in refl)
    AreReported-observed seen
          (reported {events} {rest} report imp t start observed_at positive read made others) =
        let (mid, one) =
          trouble_report_events-accepted timestamp lines report imp t start observed_at seen events
            positive read made in
        let (last, more) = AreReported-observed mid others in
        (
          last,
          observe-append events rest seen ∙ ap (λ r. r >>= observe timestamp lines rest) one ∙ more,
        )

    -- On a topology of lines that connect distinct IMPs, with timestamps that can be read, a start that
    -- is not in the future and an interval above 0: the reducer always has a result for the events of
    -- any trouble reports, each from an IMP other than 0 at a time that can be read, provided that the
    -- numbers of the events increase and their times do not decrease and are not in the future.
    pub reconcile-reported :
        (events : List NccEvent) (started_at observed_at : String) (started current interval : ℕ)
        → nominal_topology lines ≡ ok lines
        → All (λ l. l.first.imp ≢ l.second.imp) lines
        → timestamp started_at ≡ some started
        → timestamp observed_at ≡ some current
        → started ≤ current
        → interval ≢ 0
        → AreReported events
        → Ordered timestamp current none none events
        → (r : Reconciliation) × (reconcile timestamp lines events started_at observed_at interval
            ≡ ok r)
    reconcile-reported events started_at observed_at started current interval nominal distinct s c
          le pos reports order =
        let (seen, gathered) = AreReported-observed nothing_observed reports in
        let (r, e, _, _) =
          reconcile-total timestamp lines events started_at observed_at started current interval
            seen nominal distinct s c le pos order gathered in
        (r, e)
