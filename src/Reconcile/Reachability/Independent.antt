-- ===== src/Reconcile/Reachability/Independent.antt =====
-- When an IMP is partitioned, counted by the neighbors that its lines lead to.
use arpanet_redux.Prelude.{
  ℕ, ◌≤◌, ◌≡◌, ◌≢◌, ◌↔◌, ◌⊎◌, inl, inr, sym, ap, ◌∙◌, refl, Option, List, [], ◌∷◌, ok, Result,
  length, All, arith,
}
use arpanet_redux.Reconcile.{
  ImpState, Endpoint, NominalLine, ReconciliationError, incident_lines, EndpointObservation,
  ImpObservation, ReconciledImp,
}
use arpanet_redux.Reconcile.Reachability.{reconcile_imp}
use arpanet_redux.Reconcile.Reachability.Peers.{far_end, ShowsDown}
use arpanet_redux.Reconcile.Reachability.Partition.{
  Overdue, NeverReported, StateWhen, reconcile_imp-Reachability,
}

-- The neighbor that a line of IMP `n` leads to.
abbrev pub neighbor : ℕ → NominalLine → ℕ
neighbor n l = (far_end l n).imp

abbrev pub In : NominalLine → List NominalLine → Type 0
In p [] = ⊥
In p (l ∷ lines) = (p ≡ l) ⊎ In p lines

-- No two of the lines lead to the same neighbor.
abbrev pub Independent : ℕ → List NominalLine → Type 0
Independent n [] = Unit
Independent n (l ∷ lines) = All (λ k. neighbor n l ≢ neighbor n k) lines × Independent n lines

-- Two of the lines lead to different neighbors.
abbrev pub TwoNeighbors : ℕ → List NominalLine → Type 0
TwoNeighbors n lines = (p q : NominalLine) × In p lines × In q lines × (neighbor n p ≢ neighbor n q)

two_iff :
    (n : ℕ) (lines : List NominalLine)
    → Independent n lines
    → (2 ≤ length lines) ↔ TwoNeighbors n lines
two_iff n [] h = (λ two. absurd (omega (arith, two)), λ k. absurd (k.2))
two_iff n (l ∷ []) h = (
  λ two. absurd (omega (arith, two)),
  λ k.
      let (p, q, p_in, q_in, apart) = k in
      elim p_in [
        | inl e ↦ elim q_in [
          | inl f ↦ absurd (apart (ap (neighbor n) (e ∙ sym f)))
          | inr none_left ↦ absurd none_left
        ]
        | inr none_left ↦ absurd none_left
      ],
)
two_iff n (l ∷ k ∷ lines) ((apart, _), _) =
    (λ two. (l, k, inl refl, inr (inl refl), apart), λ _. omega arith)

StateWhen-iff :
    (Over Never Cut Cut' : Type 0) (s : ImpState)
    → Cut ↔ Cut'
    → StateWhen Over Never Cut s
    → StateWhen Over Never Cut' s
StateWhen-iff Over Never Cut Cut' ImpState.up c h = h
StateWhen-iff Over Never Cut Cut' ImpState.unknown c h = h
StateWhen-iff Over Never Cut Cut' ImpState.partitioned c h = (h.0, c.0 h.1)
StateWhen-iff Over Never Cut Cut' ImpState.stale c h = (h.0, λ k. h.1 (c.1 k))

module _ (n : ℕ) (lines : List NominalLine) (observations : Endpoint → Option EndpointObservation)
    (report : Option ImpObservation) (started current interval : ℕ) where
  -- When the IMP is in each of its states. It is cut off when its lines lead to two neighbors or more,
  -- and every neighbor shows its end down.
  abbrev pub ByNeighbors : ImpState → Type 0
  ByNeighbors = StateWhen (Overdue report started current interval) (NeverReported report) (
      TwoNeighbors n (incident_lines lines n)
      × All (ShowsDown n observations current interval) (incident_lines lines n))

  abbrev pub Judgement : Result ReconciliationError ReconciledImp → Type 0
  Judgement result =
      (r : ReconciledImp) × (result ≡ ok r) × ((s : ImpState) → (r.state ≡ s) ↔ ByNeighbors s)

  -- For lines that connect distinct IMPs, of which no two lead from the IMP to the same neighbor, the
  -- reducer always gives the IMP a state, and exactly the one of its condition: up by a report within
  -- the interval, unknown when none was made and none is due, partitioned when the report is overdue
  -- (none within the interval since the last one, or since the start), its lines lead to at least two
  -- neighbors and every neighbor has reported its end down, with a matching report within the
  -- interval, and stale otherwise.
  pub reconcile_imp-ByNeighbors :
      All (λ l. l.first.imp ≢ l.second.imp) lines
      → Independent n (incident_lines lines n)
      → Judgement (reconcile_imp n lines observations report started current interval)
  reconcile_imp-ByNeighbors d apart =
      let (r, e, by) =
        reconcile_imp-Reachability n lines observations report started current interval d in
      let (to, from) = two_iff n (incident_lines lines n) apart in
      (
        r,
        e,
        λ s. (
          λ p. StateWhen-iff _ _ _ _ s (λ c. (to (c.0), c.1), λ c. (from (c.0), c.1)) ((by s).0 p),
          λ h. (by s).1 (StateWhen-iff _ _ _ _ s (λ c. (from (c.0), c.1), λ c. (to (c.0), c.1)) h),
        ),
      )
