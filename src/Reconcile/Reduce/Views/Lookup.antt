-- ===== src/Reconcile/Reduce/Views/Lookup.antt =====
-- The dictionary of reconciled ends has, for each line of a topology, the two ends of that line.
use arpanet_redux.Prelude.{
  ℕ, ◌≡◌, ◌≢◌, ◌⊎◌, inl, inr, refl, sym, ap, ◌∙◌, Option, none, some, List, [], ◌∷◌, String,
  if◌then◌else◌, All, arith,
}
use arpanet_redux.Reconcile.{
  Endpoint, NominalLine, same_endpoint, minus_endpoint, plus_endpoint, EndpointObservation,
  ReconciledEndpoint,
}
use arpanet_redux.Reconcile.Conditions.{reconcile_endpoint}
use arpanet_redux.Reconcile.Observe.{first_some}
use arpanet_redux.Reconcile.Reduce.{reconciled_endpoints, by_identity}
use arpanet_redux.Reconcile.Topology.Laws.{NewFrom, same_endpoint_iff}

abbrev Among : Endpoint → List Endpoint → Type 0
Among e [] = ⊥
Among e (f ∷ fs) = (e ≡ f) ⊎ Among e fs

apart : (x e : Endpoint) (fs : List Endpoint) → All (λ f. x ≢ f) fs → Among e fs → x ≢ e
apart x e [] a m q = elim m [ ]
apart x e (f ∷ fs) (n, a) (inl p) q = n (q ∙ p)
apart x e (f ∷ fs) (n, a) (inr m) q = apart x e fs a m q

ends-plus_minus :
    (l : NominalLine)
    → l.first.imp ≢ l.second.imp
    → ((minus_endpoint l ≡ l.first) × (plus_endpoint l ≡ l.second))
      ⊎ ((minus_endpoint l ≡ l.second) × (plus_endpoint l ≡ l.first))
ends-plus_minus l d = ground arith

ends-Among :
    (l : NominalLine) (seen : List Endpoint)
    → l.first.imp ≢ l.second.imp
    → Among (minus_endpoint l) (l.second ∷ l.first ∷ seen)
      × Among (plus_endpoint l) (l.second ∷ l.first ∷ seen)
      × (plus_endpoint l ≢ minus_endpoint l)
ends-Among l seen d = elim (ends-plus_minus l d) [
  | inl (m, p) ↦ (inr (inl m), inl p, λ q. d (ap (λ e. e.imp) (sym m ∙ sym q ∙ p)))
  | inr (m, p) ↦ (inl m, inr (inl p), λ q. d (ap (λ e. e.imp) (sym p ∙ q ∙ m)))
]

module _ (observations : Endpoint → Option EndpointObservation) (current interval : ℕ) where
  abbrev at_end : NominalLine → Endpoint → ReconciledEndpoint
  at_end l e = reconcile_endpoint l e (observations e) current interval

  -- Both ends of the line are found, with what was reconciled for this line.
  abbrev pub IsFound : (Endpoint → Option ReconciledEndpoint) → NominalLine → Type 0
  IsFound find l =
      (find (minus_endpoint l) ≡ some (at_end l (minus_endpoint l)))
      × (find (plus_endpoint l) ≡ some (at_end l (plus_endpoint l)))

  abbrev found_in : List NominalLine → Endpoint → Option ReconciledEndpoint
  found_in lines = by_identity (reconciled_endpoints observations current interval lines)

  at_end-endpoint :
      (l : NominalLine) (e : Endpoint) (o : Option EndpointObservation)
      → (reconcile_endpoint l e o current interval).endpoint ≡ e
  unfolding reconcile_endpoint
  at_end-endpoint l e none = refl
  at_end-endpoint l e (some o) = refl

  abbrev entry : NominalLine → Endpoint → Endpoint → Option ReconciledEndpoint
  entry l here e = if same_endpoint (at_end l here).endpoint e then some (at_end l here) else none

  entry-same : (l : NominalLine) (e : Endpoint) → entry l e e ≡ some (at_end l e)
  entry-same l e =
      ground
        (arith, at_end-endpoint l e (observations e), same_endpoint_iff (at_end l e).endpoint e)

  entry-other : (l : NominalLine) (here e : Endpoint) → here ≢ e → entry l here e ≡ none
  entry-other l here e n = ground (
    arith,
    at_end-endpoint l here (observations here),
    same_endpoint_iff (at_end l here).endpoint e,
  )

  -- An end that was there before is not an end of a later line.
  found_in-seen :
      (lines : List NominalLine) (ids : List String) (seen : List Endpoint) (e : Endpoint)
      → NewFrom lines ids seen
      → All (λ l. l.first.imp ≢ l.second.imp) lines
      → Among e seen
      → found_in lines e ≡ none
  found_in-seen [] ids seen e h d m = refl
  found_in-seen (l ∷ lines) ids seen e (_, a, b, h) (d, ds) m =
      let rest =
        found_in-seen lines (l.id ∷ ids) (l.second ∷ l.first ∷ seen) e h ds (inr (inr m)) in
      let first = apart l.first e seen a m in
      let second = apart l.second e (l.first ∷ seen) b (inr m) in
      let none_here = λ (x : Endpoint) (y : Endpoint) (nx : x ≢ e) (ny : y ≢ e).
        ap (λ o. first_some (first_some o (entry l y e)) (entry l x e)) rest
        ∙ ap (λ o. first_some o (entry l x e)) (entry-other l y e ny)
        ∙ entry-other l x e nx in
      elim (ends-plus_minus l d) [
        | inl (m', p') ↦
            none_here (minus_endpoint l) (plus_endpoint l) (λ q. first (sym m' ∙ q))
              (λ q. second (sym p' ∙ q))
        | inr (m', p') ↦
            none_here (minus_endpoint l) (plus_endpoint l) (λ q. second (sym m' ∙ q))
              (λ q. first (sym p' ∙ q))
      ]

  here-IsFound :
      (l : NominalLine) (lines : List NominalLine) (ids : List String) (seen : List Endpoint)
      → NewFrom (l ∷ lines) ids seen
      → All (λ k. k.first.imp ≢ k.second.imp) (l ∷ lines)
      → IsFound (found_in (l ∷ lines)) l
  here-IsFound l lines ids seen (_, a, b, h) (d, ds) =
      let (am, ap', differ) = ends-Among l seen d in
      let m = minus_endpoint l in
      let p = plus_endpoint l in
      let later = λ (e : Endpoint) (among : Among e (l.second ∷ l.first ∷ seen)).
        ap (λ o. first_some (first_some o (entry l p e)) (entry l m e))
          (found_in-seen lines (l.id ∷ ids) (l.second ∷ l.first ∷ seen) e h ds among) in
      (
        later m am
            ∙ ap (λ o. first_some o (entry l m m)) (entry-other l p m differ)
            ∙ entry-same l m,
        later p ap' ∙ ap (λ o. first_some o (entry l m p)) (entry-same l p),
      )

  IsFound-cons :
      (l k : NominalLine) (lines : List NominalLine)
      → IsFound (found_in lines) k
      → IsFound (found_in (l ∷ lines)) k
  IsFound-cons l k lines (m, p) =
      let later = λ (e : Endpoint) (o : Option ReconciledEndpoint).
        first_some (first_some o (entry l (plus_endpoint l) e)) (entry l (minus_endpoint l) e) in
      (ap (later (minus_endpoint k)) m, ap (later (plus_endpoint k)) p)

  IsFound-All_cons :
      (l : NominalLine) (ks lines : List NominalLine)
      → All (IsFound (found_in lines)) ks
      → All (IsFound (found_in (l ∷ lines))) ks
  IsFound-All_cons l [] lines h = tt
  IsFound-All_cons l (k ∷ ks) lines (h, hs) =
      (IsFound-cons l k lines h, IsFound-All_cons l ks lines hs)

  pub ends-IsFound :
      (lines : List NominalLine) (ids : List String) (seen : List Endpoint)
      → NewFrom lines ids seen
      → All (λ l. l.first.imp ≢ l.second.imp) lines
      → All (IsFound (found_in lines)) lines
  ends-IsFound [] ids seen h d = tt
  ends-IsFound (l ∷ lines) ids seen h d = (
    here-IsFound l lines ids seen h d,
    IsFound-All_cons l lines lines
        (ends-IsFound lines (l.id ∷ ids) (l.second ∷ l.first ∷ seen) h.3 d.1),
  )
