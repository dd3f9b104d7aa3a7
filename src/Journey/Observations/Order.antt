-- ===== src/Journey/Observations/Order.antt =====
-- What accepted observations are known to satisfy, any two of them.
use arpanet_redux.Journey.Route.{owned_by}
use arpanet_redux.Prelude.{
  ℕ, ◌≤◌, ◌<◌, ◌≡◌, ◌≢◌, refl, sym, ap, ◌∙◌, Bool, true, false, not, Option, none, some, List, [],
  ◌∷◌, String, ok, >>=-eq-ok, require_three-eq-ok, same_text, same_text_iff, All, arith,
  if◌then◌else◌, ◌⊎◌, inl, inr, Bool-cases, ltb→lt, All-zip,
}
use arpanet_redux.Identifier.{contains_text}
use arpanet_redux.Topology.{owner, is_some}
use arpanet_redux.Journey.{
  ObservationProvenance, ExpectedBoundary, ExpectedJourney, MessageJourneyObservation,
  same_provenance, same_optional_text, repeated_observation, other_journey, other_fingerprint,
  unknown_component, unknown_interface, not_owned, other_provenance, sequence_order, tick_order,
}
use arpanet_redux.Journey.Observations.{
  Seen, nothing_seen, find_boundary, expectation, keeps_provenance, advances, keeps_tick,
  note_observation, place_observation, validate_observation, validate_observations,
}

-- The earlier `x` and the later `y`: they differ in their ids, and if they are of one source, the
-- sequence number has grown and the provenance is the same.
abbrev pub Follows : MessageJourneyObservation → MessageJourneyObservation → Type 0
Follows x y =
    (x.id ≢ y.id)
    × (x.provenance.id ≡ y.provenance.id
        → (x.source_local_sequence < y.source_local_sequence) × (x.provenance ≡ y.provenance))

-- What the loop knows of an observation that it has passed.
abbrev Known : Seen → MessageJourneyObservation → Type 0
Known s x =
    (contains_text x.id s.identifiers ≡ true)
    × ((n : ℕ) × ((t : Option ℕ) × (s.previous x.provenance.id ≡ some (n, t))
          × (x.source_local_sequence ≤ n)))
    × (s.provenance x.provenance.id ≡ some x.provenance)

same_optional_text-eq : (a b : Option String) → same_optional_text a b ≡ true → a ≡ b
same_optional_text-eq none none h = refl
same_optional_text-eq none (some t) h = cc
same_optional_text-eq (some s) none h = cc
same_optional_text-eq (some s) (some t) h = ap some ((same_text_iff s t).0 h)

same_provenance-eq : (p q : ObservationProvenance) → same_provenance p q ≡ true → p ≡ q
same_provenance-eq p q h = ground (
  arith,
  same_text_iff p.id q.id,
  same_text_iff p.kind q.kind,
  same_optional_text-eq p.revision q.revision,
)

place-keeps :
    (o : MessageJourneyObservation) (b : Option ExpectedBoundary) (n s : Seen)
    → place_observation o b n ≡ ok s
    → (s.identifiers ≡ n.identifiers) × (s.previous ≡ n.previous) × (s.provenance ≡ n.provenance)
place-keeps o none n s h = ground arith
place-keeps o (some b) n s h = ground arith

module _ (expected : ExpectedJourney) (component_ids : List String)
    (owners : List (String × String)) where
  -- What an observation that the body of the loop accepts satisfies, and what is kept of it.
  record Accepted (o : MessageJourneyObservation) (s next : Seen) : Type 0 where
    pub fresh : not (contains_text o.id s.identifiers) ≡ true
    pub same : keeps_provenance (s.provenance o.provenance.id) o.provenance ≡ true
    pub later : advances (s.previous o.provenance.id) o.source_local_sequence ≡ true
    pub identifiers : next.identifiers ≡ (note_observation o s).identifiers
    pub previous : next.previous ≡ (note_observation o s).previous
    pub provenance : next.provenance ≡ (note_observation o s).provenance

  accepted :
      (o : MessageJourneyObservation) (s next : Seen)
      → validate_observation expected component_ids owners o s ≡ ok next
      → Accepted o s next
  unfolding validate_observation
  accepted o s next h =
      let own = (expectation expected o.leg).correlation_fingerprint in
      let (a, b, c, h1) =
        require_three-eq-ok (not (contains_text o.id s.identifiers))
          (same_text o.journey_id expected.id) (same_text o.correlation_fingerprint own)
          repeated_observation other_journey other_fingerprint _ h in
      let (_, _, _, h2) =
        require_three-eq-ok (contains_text o.component_id component_ids)
          (is_some (owner o.interface_id owners))
          (owned_by (owner o.interface_id owners) o.component_id) unknown_component
          unknown_interface not_owned _ h1 in
      let (p, q, _, h3) =
        require_three-eq-ok (keeps_provenance (s.provenance o.provenance.id) o.provenance)
          (advances (s.previous o.provenance.id) o.source_local_sequence)
          (keeps_tick (s.previous o.provenance.id) o.simulator_tick) other_provenance sequence_order
          tick_order _ h2 in
      let (i, j, k) =
        place-keeps o (find_boundary expected.boundaries o) (note_observation o s) next h3 in
      record { fresh = a; same = p; later = q; identifiers = i; previous = j; provenance = k }

  module _ (o : MessageJourneyObservation) (s next : Seen) (v : Accepted o s next) where
    abbrev latest : Bool → String → Option (ℕ × Option ℕ)
    latest b k = if b then some (o.source_local_sequence, o.simulator_tick) else s.previous k

    abbrev source_now : Bool → String → Option ObservationProvenance
    source_now b k = if b then some o.provenance else s.provenance k

    previous-at :
        (k : String) (b : Bool)
        → same_text o.provenance.id k ≡ b
        → (next.previous k ≡ latest b k) × (next.provenance k ≡ source_now b k)
    previous-at k b e = (
      ap (λ f. f k) v.previous ∙ ap (λ t. latest t k) e,
      ap (λ f. f k) v.provenance ∙ ap (λ t. source_now t k) e,
    )

    contains-next :
        (k : String)
        → (k ≡ o.id) ⊎ (contains_text k s.identifiers ≡ true)
        → contains_text k next.identifiers ≡ true
    contains-next k h = ap (contains_text k) v.identifiers ∙ ground (arith, same_text_iff k o.id)

    accepted-Known : Known next o
    accepted-Known =
        let (p, q) = previous-at o.provenance.id true ((same_text_iff _ _).1 refl) in
        (
          contains-next o.id (inl refl),
          (o.source_local_sequence, (o.simulator_tick, p, omega arith)),
          q,
        )

    module _ (x : MessageJourneyObservation) (known : Known s x) where
      accepted-Follows : Follows x o
      accepted-Follows =
          let (there, (n, (t, e, le)), p) = known in
          (
            λ q.
                let again : contains_text o.id s.identifiers ≡ true =
                  ap (λ k. contains_text k s.identifiers) (sym q) ∙ there in
                ground (arith, again, v.fresh),
            λ q.
                let before : advances (some (n, t)) o.source_local_sequence ≡ true =
                  sym (ap (λ f. advances f o.source_local_sequence) (ap s.previous (sym q) ∙ e))
                  ∙ v.later in
                let source : same_provenance x.provenance o.provenance ≡ true =
                  sym (ap (λ f. keeps_provenance f o.provenance) (ap s.provenance (sym q) ∙ p))
                  ∙ v.same in
                (
                  omega (arith, ltb→lt n o.source_local_sequence before, le),
                  same_provenance-eq x.provenance o.provenance source,
                ),
          )

      Known-next : Known next x
      Known-next =
          let (there, (n, (t, e, le)), p) = known in
          elim (Bool-cases (same_text o.provenance.id x.provenance.id)) [
            | inl one ↦
                let (pr, so) = previous-at x.provenance.id true one in
                let (grown, same) =
                  accepted-Follows.1
                    (sym ((same_text_iff o.provenance.id x.provenance.id).0 one)) in
                (
                  contains-next x.id (inr there),
                  (o.source_local_sequence, (o.simulator_tick, pr, omega (arith, grown))),
                  so ∙ ap some (sym same),
                )
            | inr other ↦
                let (pr, so) = previous-at x.provenance.id false other in
                (contains-next x.id (inr there), (n, (t, pr ∙ e, le)), so ∙ p)
          ]

  -- Every observation of the list follows each one before it.
  abbrev pub InOrder : List MessageJourneyObservation → Type 0
  InOrder [] = Unit
  InOrder (o ∷ os) = All (Follows o) os × InOrder os

  Known-All :
      (os done : List MessageJourneyObservation) (s : Seen)
      → validate_observations expected component_ids owners os s ≡ ok tt
      → All (Known s) done
      → All (λ x. All (Follows x) os) done × InOrder os
  unfolding validate_observations
  Known-All [] done s h k = (All-zip _ done (λ x _ _. tt) k k, tt)
  Known-All (o ∷ os) done s h k =
      let (next, one, rest) =
        >>=-eq-ok (validate_observation expected component_ids owners o s) _ h in
      let v = accepted o s next one in
      let now = All-zip (Known next) done (λ x a _. Known-next o s next v x a) k k in
      let ((here, there), later) =
        Known-All os (o ∷ done) next rest (accepted-Known o s next v, now) in
      let follows = λ (x : MessageJourneyObservation) (a : Known s x) (b : All (Follows x) os).
        let w : Follows x o × All (Follows x) os = (accepted-Follows o s next v x a, b) in w in
      (All-zip (λ x. All (Follows x) (o ∷ os)) done follows k there, (here, later))

  -- In observations that are accepted no id occurs twice, and of one source each later one has a
  -- higher sequence number and the same provenance.
  pub validate_observations-InOrder :
      (os : List MessageJourneyObservation)
      → validate_observations expected component_ids owners os nothing_seen ≡ ok tt
      → InOrder os
  validate_observations-InOrder os h = (Known-All os [] nothing_seen h tt).1
