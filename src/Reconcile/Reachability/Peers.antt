-- ===== src/Reconcile/Reachability/Peers.antt =====
-- The loop over the lines to an IMP, and the neighbors that show their line down.
use arpanet_redux.Prelude.{
  ℕ, ◌≤◌, ◌≡◌, ◌≢◌, ◌↔◌, ◌⊎◌, inl, inr, refl, sym, ap, ◌∙◌, true, Option, none, some, List, [], ◌∷◌,
  if◌then◌else◌, ◌==◌, ◌||◌, ok, ◌>>=◌, >>=_assoc, suc, Bool, Bool-cases, subst, length, All, arith,
}
use arpanet_redux.Reconcile.{
  DirectState, Endpoint, NominalLine, peer, local_endpoint, incident_lines, EndpointObservation,
}
use arpanet_redux.Reconcile.Lines.{Shows}
use arpanet_redux.Reconcile.Reachability.{counts_down, keep_if, peer_down}

-- The end of a line across from the IMP.
abbrev pub far_end : NominalLine → ℕ → Endpoint
far_end l n = if l.first.imp == n then l.second else l.first

far_end-peer :
    (n : ℕ) (l : NominalLine)
    → l.first.imp ≢ l.second.imp
    → (l.first.imp ≡ n) ⊎ (l.second.imp ≡ n)
    → (local_endpoint l n >>= λ e. peer l e) ≡ ok (far_end l n)
far_end-peer n l d h = ground arith

pub Connects : NominalLine → ℕ → Type 0
Connects l n = (l.first.imp ≢ l.second.imp) × ((l.first.imp ≡ n) ⊎ (l.second.imp ≡ n))

abbrev touches : NominalLine → ℕ → Bool
touches l n = n == l.first.imp || n == l.second.imp

touching : (n : ℕ) (l : NominalLine) → touches l n ≡ true → (l.first.imp ≡ n) ⊎ (l.second.imp ≡ n)
touching n l h = ground arith

pub incident_lines-Connects :
    (n : ℕ) (lines : List NominalLine)
    → All (λ l. l.first.imp ≢ l.second.imp) lines
    → All (λ l. Connects l n) (incident_lines lines n)
unfolding Connects
incident_lines-Connects n [] h = tt
incident_lines-Connects n (l ∷ lines) (d, ds) =
    let rest = incident_lines lines n in
    let rest_connects = incident_lines-Connects n lines ds in
    let AllConnect = λ (b : Bool). All (λ k. Connects k n) (if b then l ∷ rest else rest) in
    elim (Bool-cases (touches l n)) [
      | inl e ↦ subst AllConnect (sym e) ((d, touching n l e), rest_connects)
      | inr e ↦ subst AllConnect (sym e) rest_connects
    ]

module _ (n : ℕ) (observations : Endpoint → Option EndpointObservation) (current interval : ℕ) where
  -- The neighbor across the line shows the line down.
  abbrev pub ShowsDown : NominalLine → Type 0
  ShowsDown l = Shows (observations (far_end l n)) current interval DirectState.down

  counts→Shows :
      (o : Option EndpointObservation)
      → (counts_down o current interval ≡ true) ↔ Shows o current interval DirectState.down
  counts→Shows none = ground arith
  counts→Shows (some o) = ground arith

  peer_down-cons :
      (l : NominalLine) (lines : List NominalLine) (downs : List EndpointObservation)
      → Connects l n
      → peer_down lines n observations current interval ≡ ok downs
      → peer_down (l ∷ lines) n observations current interval
        ≡ ok (
            keep_if
              (counts_down (observations (far_end l n)) current interval)
              (observations (far_end l n))
              downs)
  unfolding peer_down Connects
  peer_down-cons l lines downs (d, c) e =
      let found = λ (far : Endpoint) (rest : List EndpointObservation).
        ok (keep_if (counts_down (observations far) current interval) (observations far) rest) in
      let ask = λ (far : Endpoint). peer_down lines n observations current interval >>= found far in
      sym (>>=_assoc (local_endpoint l n) (peer l) ask)
      ∙ ap (λ r. r >>= ask) (far_end-peer n l d c)
      ∙ ap (λ r. r >>= found (far_end l n)) e

  keep_if-length :
      (o : Option EndpointObservation) (downs : List EndpointObservation)
      → (Shows o current interval DirectState.down
          × (length (keep_if (counts_down o current interval) o downs) ≡ suc (length downs)))
        ⊎ ((Shows o current interval DirectState.down → ⊥)
            × (length (keep_if (counts_down o current interval) o downs) ≡ length downs))
  keep_if-length none downs = inr (λ h. h, refl)
  keep_if-length (some o) downs = elim (Bool-cases (counts_down (some o) current interval)) [
    | inl e ↦ inl (ground arith, ap (λ b. length (keep_if b (some o) downs)) e)
    | inr e ↦ inr (λ h. ground arith, ap (λ b. length (keep_if b (some o) downs)) e)
  ]

  -- The loop collects at most one observation for each line, and one for every line exactly when
  -- every neighbor shows its line down.
  pub peer_down-All :
      (lines : List NominalLine)
      → All (λ l. Connects l n) lines
      → (downs : List EndpointObservation) × (peer_down lines n observations current interval
          ≡ ok downs)
        × (length downs ≤ length lines)
        × ((length downs ≡ length lines) ↔ All ShowsDown lines)
  unfolding peer_down
  peer_down-All [] h = ([], refl, omega arith, (λ _. tt, λ _. refl))
  peer_down-All (l ∷ lines) (h, hs) =
      let (downs, e, most, all) = peer_down-All lines hs in
      let o = observations (far_end l n) in
      let e' = peer_down-cons l lines downs h e in
      elim (keep_if-length o downs) [
        | inl (shown, count) ↦ (
          keep_if (counts_down o current interval) o downs,
          e',
          omega (arith, count, most),
          (
            λ same. (shown, all.0 (omega (arith, count, same))),
            λ a. omega (arith, count, all.1 a.1),
          ),
        )
        | inr (hidden, count) ↦ (
          keep_if (counts_down o current interval) o downs,
          e',
          omega (arith, count, most),
          (λ same. absurd (omega (arith, count, same, most)), λ a. absurd (hidden a.0)),
        )
      ]
