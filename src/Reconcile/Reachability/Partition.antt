-- ===== src/Reconcile/Reachability/Partition.antt =====
-- When an IMP is up, unknown, stale or partitioned.
use arpanet_redux.Prelude.{
  ℕ, ◌+◌, ◌≤◌, ◌<◌, ◌≡◌, ◌≢◌, ◌↔◌, ◌⊎◌, inl, inr, refl, sym, ap, ◌∙◌, true, Option, none, some,
  List, if◌then◌else◌, ◌==◌, ok, ◌>>=◌, Bool-cases, leb, ◌&&◌, not, subst, Result, length, All,
  arith,
}
use arpanet_redux.Reconcile.{
  ImpState, Endpoint, NominalLine, ReconciliationError, incident_lines, EndpointObservation,
  ImpObservation, ReconciledImp,
}
use arpanet_redux.Reconcile.Reachability.{peer_down, overdue, in_time, out_of_reach, reconcile_imp}
use arpanet_redux.Reconcile.Reachability.Peers.{ShowsDown, incident_lines-Connects, peer_down-All}

-- No report within the interval: since the last one, or else since the start.
abbrev pub Overdue : Option ImpObservation → ℕ → ℕ → ℕ → Type 0
Overdue none started current interval = started + interval < current
Overdue (some r) started current interval = r.observed_at + interval < current

abbrev pub NeverReported : Option ImpObservation → Type 0
NeverReported none = Unit
NeverReported (some r) = ⊥

overdue-Overdue :
    (report : Option ImpObservation) (started current interval : ℕ)
    → (overdue report started current interval ≡ true) ↔ Overdue report started current interval
overdue-Overdue none started current interval = ground arith
overdue-Overdue (some r) started current interval = ground arith

-- The states by three conditions: the report is overdue, none was ever made, the IMP is cut off.
abbrev pub StateWhen : Type 0 → Type 0 → Type 0 → ImpState → Type 0
StateWhen Over Never Cut ImpState.up = ¬ Over × ¬ Never
StateWhen Over Never Cut ImpState.unknown = ¬ Over × Never
StateWhen Over Never Cut ImpState.partitioned = Over × Cut
StateWhen Over Never Cut ImpState.stale = Over × ¬ Cut

StateWhen-only :
    (Over Never Cut : Type 0) (t s : ImpState)
    → StateWhen Over Never Cut t
    → StateWhen Over Never Cut s
    → t ≡ s
StateWhen-only Over Never Cut ImpState.up ImpState.up h k = refl
StateWhen-only Over Never Cut ImpState.up ImpState.unknown h k = absurd (h.1 k.1)
StateWhen-only Over Never Cut ImpState.up ImpState.partitioned h k = absurd (h.0 k.0)
StateWhen-only Over Never Cut ImpState.up ImpState.stale h k = absurd (h.0 k.0)
StateWhen-only Over Never Cut ImpState.unknown ImpState.up h k = absurd (k.1 h.1)
StateWhen-only Over Never Cut ImpState.unknown ImpState.unknown h k = refl
StateWhen-only Over Never Cut ImpState.unknown ImpState.partitioned h k = absurd (h.0 k.0)
StateWhen-only Over Never Cut ImpState.unknown ImpState.stale h k = absurd (h.0 k.0)
StateWhen-only Over Never Cut ImpState.partitioned ImpState.up h k = absurd (k.0 h.0)
StateWhen-only Over Never Cut ImpState.partitioned ImpState.unknown h k = absurd (k.0 h.0)
StateWhen-only Over Never Cut ImpState.partitioned ImpState.partitioned h k = refl
StateWhen-only Over Never Cut ImpState.partitioned ImpState.stale h k = absurd (k.1 h.1)
StateWhen-only Over Never Cut ImpState.stale ImpState.up h k = absurd (k.0 h.0)
StateWhen-only Over Never Cut ImpState.stale ImpState.unknown h k = absurd (k.0 h.0)
StateWhen-only Over Never Cut ImpState.stale ImpState.partitioned h k = absurd (h.1 k.1)
StateWhen-only Over Never Cut ImpState.stale ImpState.stale h k = refl

in_time-StateWhen :
    (Over Cut : Type 0) (n : ℕ) (report : Option ImpObservation)
    → ¬ Over
    → StateWhen Over (NeverReported report) Cut (in_time n report).state
in_time-StateWhen Over Cut n none h = (h, tt)
in_time-StateWhen Over Cut n (some r) h = (h, λ x. x)

out_of_reach-partitioned :
    (n : ℕ) (report : Option ImpObservation) (incident : List NominalLine)
    (downs : List EndpointObservation)
    → ((2 ≤ length incident)
        × (length downs ≡ length incident)
        × ((out_of_reach n report incident downs).state ≡ ImpState.partitioned))
      ⊎ (¬ ((2 ≤ length incident) × (length downs ≡ length incident))
          × ((out_of_reach n report incident downs).state ≡ ImpState.stale))
out_of_reach-partitioned n report incident downs =
    elim (Bool-cases (leb 2 (length downs) && (length downs == length incident))) [
      | inl e ↦ inl (ground arith, ground arith, ground arith)
      | inr e ↦ inr (λ h. ground arith, ground arith)
    ]

out_of_reach-StateWhen :
    (Over Never Down : Type 0) (n : ℕ) (report : Option ImpObservation)
    (incident : List NominalLine) (downs : List EndpointObservation)
    → Over
    → (length downs ≡ length incident) ↔ Down
    → StateWhen Over Never
        ((2 ≤ length incident) × Down)
        (out_of_reach n report incident downs).state
out_of_reach-StateWhen Over Never Down n report incident downs h all =
    let By = StateWhen Over Never ((2 ≤ length incident) × Down) in
    elim (out_of_reach-partitioned n report incident downs) [
      | inl (two, same, e) ↦ subst By (sym e) (h, (two, all.0 same))
      | inr (missed, e) ↦ subst By (sym e) (h, λ cut. missed (cut.0, all.1 cut.1))
    ]

module _ (n : ℕ) (lines : List NominalLine) (observations : Endpoint → Option EndpointObservation)
    (report : Option ImpObservation) (started current interval : ℕ) where
  -- When the IMP is in each of its states. It is cut off when at least two lines lead to it and the
  -- neighbor across every one of them shows its end down.
  abbrev pub Reachability : ImpState → Type 0
  Reachability = StateWhen (Overdue report started current interval) (NeverReported report) (
      (2 ≤ length (incident_lines lines n))
      × All (ShowsDown n observations current interval) (incident_lines lines n))

  abbrev pub Outcome : Result ReconciliationError ReconciledImp → Type 0
  Outcome result =
      (r : ReconciledImp) × (result ≡ ok r) × ((s : ImpState) → (r.state ≡ s) ↔ Reachability s)

  Reachability-Outcome :
      (result : Result ReconciliationError ReconciledImp) (r : ReconciledImp)
      → result ≡ ok r
      → Reachability r.state
      → Outcome result
  Reachability-Outcome result r e h =
      (r, e, λ s. (λ p. subst Reachability p h, λ k. StateWhen-only _ _ _ r.state s h k))

  -- For lines that connect distinct IMPs, the reducer always gives an IMP a state, and exactly the
  -- one of its condition: up by a report within the interval, unknown when none is due, partitioned
  -- when the report is overdue (none within the interval since the last one, or since the start),
  -- at least two lines lead to the IMP and every neighbor has reported its end down, with a
  -- matching report within the interval, and stale otherwise.
  pub reconcile_imp-Reachability :
      All (λ l. l.first.imp ≢ l.second.imp) lines
      → Outcome (reconcile_imp n lines observations report started current interval)
  unfolding reconcile_imp
  reconcile_imp-Reachability d =
      let incident = incident_lines lines n in
      let (to, from) = overdue-Overdue report started current interval in
      let (downs, e, most, all) =
        peer_down-All n observations current interval incident
          (incident_lines-Connects n lines d) in
      let asked = λ (found : Result ReconciliationError (List EndpointObservation)).
        found >>= λ ds. ok (out_of_reach n report incident ds) in
      elim (Bool-cases (overdue report started current interval)) [
        | inl late ↦
            Reachability-Outcome _ (out_of_reach n report incident downs)
              (ap
                  (λ b.
                    if not b
                    then ok (in_time n report)
                    else asked (peer_down incident n observations current interval))
                  late
                ∙ ap asked e)
              (out_of_reach-StateWhen _ _ _ n report incident downs (to late) all)
        | inr timely ↦
            Reachability-Outcome _ (in_time n report)
              (ap
                (λ b.
                  if not b
                  then ok (in_time n report)
                  else asked (peer_down incident n observations current interval))
                timely)
              (in_time-StateWhen _ _ n report (λ o. cc (from o, timely)))
      ]
