-- ===== src/Reconcile/Lines.antt =====
-- The state of a line from the observations of its two ends, as a table of conditions.
use arpanet_redux.Prelude.{
  ℕ, ◌+◌, ◌≤◌, ◌<◌, ◌≡◌, ◌↔◌, ◌⊎◌, ◌≢◌, inl, inr, Option-cases, refl, sym, ◌∙◌, true, false, Option,
  none, some, List, [], ◌∷◌, ◌++◌, arith,
}
use mathlib.Core.Path.{ap₂}
use arpanet_redux.Reconcile.{
  LineState, DirectState, Endpoint, NominalLine, minus_endpoint, plus_endpoint, EndpointObservation,
  ReconciledLine,
}
use arpanet_redux.Reconcile.Conditions.{
  sorted, paired_line_state, reconcile_endpoint, line_condition, reconcile_line, line_with,
}

-- An observation is late when more than an interval has passed since.
abbrev pub Late : Option EndpointObservation → ℕ → ℕ → Type 0
Late none current interval = ⊥
Late (some o) current interval = o.observed_at + interval < current

abbrev pub Missing : Option EndpointObservation → Type 0
Missing none = Unit
Missing (some o) = ⊥

-- A fresh observation.
abbrev pub Fresh : Option EndpointObservation → ℕ → ℕ → Type 0
Fresh none current interval = ⊥
Fresh (some o) current interval = current ≤ o.observed_at + interval

-- A fresh observation whose neighbor fits the topology, of the state `d`.
abbrev pub Shows : Option EndpointObservation → ℕ → ℕ → DirectState → Type 0
Shows none current interval d = ⊥
Shows (some o) current interval d =
    (current ≤ o.observed_at + interval) × (o.matches_topology ≡ true) × (o.state ≡ d)

abbrev pub Mismatched : Option EndpointObservation → Type 0
Mismatched none = ⊥
Mismatched (some o) = o.matches_topology ≡ false

abbrev pub Matched : Option EndpointObservation → ℕ → ℕ → Type 0
Matched none current interval = ⊥
Matched (some o) current interval =
    (current ≤ o.observed_at + interval) × (o.matches_topology ≡ true)

module _ (current interval : ℕ) where
  abbrev pub Shown : Option EndpointObservation → DirectState → Type 0
  Shown o d = Shows o current interval d

  -- When the line is in each of its states, `m` and `p` being the observations of its ends.
  abbrev pub Condition :
      Option EndpointObservation → Option EndpointObservation → LineState → Type 0
  Condition m p LineState.up = Shown m DirectState.up × Shown p DirectState.up
  Condition m p LineState.down = Shown m DirectState.down × Shown p DirectState.down
  Condition m p LineState.looped = Shown m DirectState.looped × Shown p DirectState.looped
  Condition m p LineState.minus_down = Shown m DirectState.down × Shown p DirectState.up
  Condition m p LineState.plus_down = Shown m DirectState.up × Shown p DirectState.down
  Condition m p LineState.minus_looped = Shown m DirectState.looped × Shown p DirectState.up
  Condition m p LineState.plus_looped = Shown m DirectState.up × Shown p DirectState.looped
  Condition m p LineState.stale = Late m current interval ⊎ Late p current interval
  Condition m p LineState.unknown =
      (Missing m × Missing p)
      ⊎ (Missing m × Fresh p current interval)
      ⊎ (Fresh m current interval × Missing p)
      ⊎ (Matched m current interval × Shown p DirectState.unknown)
      ⊎ (Shown m DirectState.unknown × Matched p current interval)
  Condition m p LineState.contradictory =
      (Fresh m current interval × Fresh p current interval × (Mismatched m ⊎ Mismatched p))
      ⊎ (Shown m DirectState.down × Shown p DirectState.looped)
      ⊎ (Shown m DirectState.looped × Shown p DirectState.down)

  module _ (l : NominalLine) (em ep : Endpoint) where
    abbrev pub condition_of :
        Option EndpointObservation → Option EndpointObservation → Option LineState
    condition_of m p =
        line_condition (reconcile_endpoint l em m current interval)
          (reconcile_endpoint l ep p current interval)

    pub condition→Condition :
        (m p : Option EndpointObservation) (s : LineState)
        → condition_of m p ≡ some s
        → Condition m p s
    unfolding line_condition reconcile_endpoint paired_line_state
    condition→Condition none none s h = ground arith
    condition→Condition none (some q) s h = ground arith
    condition→Condition (some o) none s h = ground arith
    condition→Condition (some o) (some q) s h = ground arith

    pub Condition→condition :
        (m p : Option EndpointObservation) (s : LineState)
        → Condition m p s
        → condition_of m p ≡ some s
    unfolding line_condition reconcile_endpoint paired_line_state
    Condition→condition none none s h = ground arith
    Condition→condition none (some q) s h = ground arith
    Condition→condition (some o) none s h = ground arith
    Condition→condition (some o) (some q) s h = ground arith

-- The event numbers of an observation, if there is one.
abbrev pub sequence_of : Option EndpointObservation → List ℕ
sequence_of none = []
sequence_of (some o) = o.event.sequence ∷ []

module _ (current interval : ℕ) (l : NominalLine)
    (observations : Endpoint → Option EndpointObservation) where
  abbrev pub reconciled : Option ReconciledLine
  reconciled =
      reconcile_line l (λ e. some (reconcile_endpoint l e (observations e) current interval))

  abbrev pub line_in : LineState → ReconciledLine
  line_in s = record {
    id = l.id;
    state = s;
    supporting_sequences = sorted (
        sequence_of (observations (minus_endpoint l))
        ++ sequence_of (observations (plus_endpoint l)));
  }

  support-sequence_of :
      (e : Endpoint) (o : Option EndpointObservation)
      → (reconcile_endpoint l e o current interval).supporting_sequences ≡ sequence_of o
  unfolding reconcile_endpoint
  support-sequence_of e none = refl
  support-sequence_of e (some o) = refl

  line_with-state :
      (support : List ℕ) (c : Option LineState) (s : LineState)
      → (line_with l support c
          ≡ some (record { id = l.id; state = s; supporting_sequences = support }))
        ↔ (c ≡ some s)
  line_with-state support none s = (λ h. cc, λ h. cc)
  line_with-state support (some t) s = (λ h. cc, λ h. cc)

  reconciled-line_with :
      reconciled
      ≡ line_with l (line_in LineState.up).supporting_sequences (
          condition_of current interval l
            (minus_endpoint l)
            (plus_endpoint l)
            (observations (minus_endpoint l))
            (observations (plus_endpoint l)))
  unfolding reconcile_line
  reconciled-line_with =
      ap₂
        (λ (a : List ℕ) (b : List ℕ). line_with l (sorted (a ++ b)) (
          condition_of current interval l (minus_endpoint l) (plus_endpoint l)
            (observations (minus_endpoint l)) (observations (plus_endpoint l))))
        (support-sequence_of (minus_endpoint l) (observations (minus_endpoint l)))
        (support-sequence_of (plus_endpoint l) (observations (plus_endpoint l)))

  -- A line is in the state `s` exactly under the condition of `s` on the observations of its two
  -- ends, and is supported by the events of these observations.
  pub reconcile_line-Condition :
      (s : LineState)
      → (reconciled ≡ some (line_in s))
        ↔ Condition current interval
            (observations (minus_endpoint l))
            (observations (plus_endpoint l))
            s
  reconcile_line-Condition s =
      let m = observations (minus_endpoint l) in
      let p = observations (plus_endpoint l) in
      let (to, from) =
        line_with-state (line_in s).supporting_sequences
          (condition_of current interval l (minus_endpoint l) (plus_endpoint l) m p) s in
      (
        λ h.
            condition→Condition current interval l (minus_endpoint l) (plus_endpoint l) m p s
              (to (sym reconciled-line_with ∙ h)),
        λ c.
            reconciled-line_with
            ∙ from (
                Condition→condition current interval l (minus_endpoint l) (plus_endpoint l) m p s
                  c),
      )

  condition_of-known :
      (m p : Option EndpointObservation)
      → condition_of current interval l (minus_endpoint l) (plus_endpoint l) m p ≢ none
  unfolding line_condition reconcile_endpoint paired_line_state
  condition_of-known none none h = ground arith
  condition_of-known none (some q) h = ground arith
  condition_of-known (some o) none h = ground arith
  condition_of-known (some o) (some q) h = ground arith

  condition_of-some :
      (m p : Option EndpointObservation)
      → (s : LineState) × (condition_of current interval l (minus_endpoint l) (plus_endpoint l) m p
          ≡ some s)
  condition_of-some m p =
      elim (Option-cases
        (condition_of current interval l (minus_endpoint l) (plus_endpoint l) m p)) [
          | inl e ↦ absurd (condition_of-known m p e)
          | inr known ↦ known
        ]

  -- Every line is given a state by its condition: the assertion in the code never fails.
  pub reconcile_line-total :
      (s : LineState) × (reconciled ≡ some (line_in s))
      × Condition current interval
          (observations (minus_endpoint l))
          (observations (plus_endpoint l))
          s
  reconcile_line-total =
      let m = observations (minus_endpoint l) in
      let p = observations (plus_endpoint l) in
      let (s, h) = condition_of-some m p in
      let c = condition→Condition current interval l (minus_endpoint l) (plus_endpoint l) m p s h in
      let (to, from) = reconcile_line-Condition s in (s, from c, c)
