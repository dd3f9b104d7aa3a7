-- ===== src/Journey/Diagnosis/Exchange.antt =====
-- That no order between observations of different boundaries is invented.
use arpanet_redux.Prelude.{
  ◌≡◌, ◌≢◌, refl, sym, ap, ◌∙◌, Bool, true, false, some, List, [], ◌∷◌, ◌++◌, inl, inr, ok,
  Bool-cases, if◌then◌else◌, subst,
}
use arpanet_redux.Journey.{
  BoundaryAssessmentState, BoundaryId, BoundaryAssessment, ExpectedBoundary, ExpectedJourney,
  MessageJourneyObservation, JourneyDiagnosis,
}
use arpanet_redux.Journey.Diagnosis.{
  belongs, candidates, assess, assessments, is_observed, first_unobserved, has_any, journey_state,
  first_id, diagnosis, diagnose_message_journey, state_by,
}
use arpanet_redux.Journey.Diagnosis.Prefix.{diagnose_message_journey-diagnosis}
use arpanet_redux.Journey.Observations.{find_boundary}
use arpanet_redux.Journey.Route.{SharedTopology}
use arpanet_redux.Journey.Diagnosis.Assessments.{belongs-some}

-- The observations are not of the same boundary.
abbrev pub Apart :
    List ExpectedBoundary → MessageJourneyObservation → MessageJourneyObservation → Type 0
Apart bs o p =
    (b c : ExpectedBoundary)
    → find_boundary bs o ≡ some b
    → find_boundary bs p ≡ some c
    → b.id ≢ c.id

candidates-swap :
    (bs : List ExpectedBoundary) (id : BoundaryId) (xs ys : List MessageJourneyObservation)
    (o p : MessageJourneyObservation)
    → Apart bs o p
    → candidates bs id (xs ++ (o ∷ p ∷ ys)) ≡ candidates bs id (xs ++ (p ∷ o ∷ ys))
unfolding candidates
candidates-swap bs id [] ys o p apart = elim (Bool-cases (belongs id (find_boundary bs o))) [
  | inl e ↦ elim (Bool-cases (belongs id (find_boundary bs p))) [
    | inl f ↦
        let (b, eb, ib) = belongs-some id (find_boundary bs o) e in
        let (c, ec, ic) = belongs-some id (find_boundary bs p) f in
        absurd (apart b c eb ec (ib ∙ sym ic))
    | inr f ↦ rw (e, f)
  ]
  | inr e ↦ rw e
]
candidates-swap bs id (x ∷ xs) ys o p apart =
    ap (λ cs. if belongs id (find_boundary bs x) then x ∷ cs else cs)
      (candidates-swap bs id xs ys o p apart)

-- The same verdicts on the same boundaries, from the same observations unless nothing is known of
-- the boundary.
abbrev pub Alike : List BoundaryAssessment → List BoundaryAssessment → Type 0
Alike [] [] = Unit
Alike (a ∷ rest) (b ∷ more) =
    (a.boundary ≡ b.boundary)
    × (a.state ≡ b.state)
    × (a.state ≢ BoundaryAssessmentState.missing
        → a.supporting_observation_ids ≡ b.supporting_observation_ids)
    × Alike rest more
Alike [] (b ∷ more) = ⊥
Alike (a ∷ rest) [] = ⊥

assess-alike :
    (expected : ExpectedJourney) (direct direct' : List MessageJourneyObservation)
    (b : ExpectedBoundary) (cs : List MessageJourneyObservation)
    → let a = assess expected direct b cs in
      let a' = assess expected direct' b cs in
      (a.boundary ≡ a'.boundary)
      × (a.state ≡ a'.state)
      × (a.state ≢ BoundaryAssessmentState.missing
          → a.supporting_observation_ids ≡ a'.supporting_observation_ids)
unfolding assess
assess-alike expected direct direct' b [] = (refl, refl, λ known. absurd (known refl))
assess-alike expected direct direct' b (o ∷ []) = (refl, refl, λ known. refl)
assess-alike expected direct direct' b (o ∷ p ∷ os) = (refl, refl, λ known. refl)

assessments-Alike :
    (expected : ExpectedJourney) (direct direct' : List MessageJourneyObservation)
    → ((id : BoundaryId)
        → candidates expected.boundaries id direct ≡ candidates expected.boundaries id direct')
    → (bs : List ExpectedBoundary)
    → Alike (assessments expected direct bs) (assessments expected direct' bs)
unfolding assessments
assessments-Alike expected direct direct' same [] = tt
assessments-Alike expected direct direct' same (b ∷ bs) =
    let cs = candidates expected.boundaries b.id direct' in
    let (here, state, support) =
      subst
        (λ ds.
          ((assess expected direct b ds).boundary ≡ (assess expected direct' b cs).boundary)
          × ((assess expected direct b ds).state ≡ (assess expected direct' b cs).state)
          × ((assess expected direct b ds).state ≢ BoundaryAssessmentState.missing
              → (assess expected direct b ds).supporting_observation_ids
                ≡ (assess expected direct' b cs).supporting_observation_ids))
        (sym (same b.id)) (assess-alike expected direct direct' b cs) in
    (here, state, support, assessments-Alike expected direct direct' same bs)

first-Alike :
    (ones others : List BoundaryAssessment)
    → Alike ones others
    → (d : Bool)
    → (journey_state (first_unobserved ones) d ≡ journey_state (first_unobserved others) d)
      × (first_id (first_unobserved ones) ≡ first_id (first_unobserved others))
unfolding first_unobserved
first-Alike [] [] h d = (refl, refl)
first-Alike [] (b ∷ more) h d = elim h [ ]
first-Alike (a ∷ rest) [] h d = elim h [ ]
first-Alike (a ∷ rest) (b ∷ more) (p, s, _, h) d = elim (Bool-cases (is_observed a.state)) [
  | inl e ↦
      let e' : is_observed b.state ≡ true = ap is_observed (sym s) ∙ e in
      rw (e, e') (first-Alike rest more h d)
  | inr e ↦
      let e' : is_observed b.state ≡ false = ap is_observed (sym s) ∙ e in
      rw (e, e') (ap (λ t. state_by t d) s, ap (λ x. some x.id) p)
]

has_any-swap :
    (xs ys : List MessageJourneyObservation) (o p : MessageJourneyObservation)
    → has_any (xs ++ (o ∷ p ∷ ys)) ≡ has_any (xs ++ (p ∷ o ∷ ys))
has_any-swap [] ys o p = refl
has_any-swap (x ∷ xs) ys o p = refl

diagnosis-Alike :
    (expected : ExpectedJourney) (xs ys : List MessageJourneyObservation)
    (o p : MessageJourneyObservation)
    → Apart expected.boundaries o p
    → let d = diagnosis expected (xs ++ (o ∷ p ∷ ys)) in
      let d' = diagnosis expected (xs ++ (p ∷ o ∷ ys)) in
      (d.state ≡ d'.state)
      × (d.first_boundary_id ≡ d'.first_boundary_id)
      × Alike d.boundaries d'.boundaries
unfolding diagnosis
diagnosis-Alike expected xs ys o p apart =
    let one = xs ++ (o ∷ p ∷ ys) in
    let two = xs ++ (p ∷ o ∷ ys) in
    let alike =
      assessments-Alike expected one two
        (λ id. candidates-swap expected.boundaries id xs ys o p apart) expected.boundaries in
    let all = assessments expected one expected.boundaries in
    let all' = assessments expected two expected.boundaries in
    let (state, first) = first-Alike all all' alike (has_any one) in
    (state ∙ ap (journey_state (first_unobserved all')) (has_any-swap xs ys o p), first, alike)

-- When a journey can be diagnosed with two neighboring observations of different boundaries in either
-- order, then the order does not matter: the journey has the same state and the same first boundary,
-- and every boundary has the same state and, unless it is missing, the same supporting observations.
pub diagnose_message_journey-swap :
    (t : SharedTopology) (expected : ExpectedJourney) (xs ys : List MessageJourneyObservation)
    (o p : MessageJourneyObservation) (d d' : JourneyDiagnosis)
    → Apart expected.boundaries o p
    → diagnose_message_journey t expected (xs ++ (o ∷ p ∷ ys)) ≡ ok d
    → diagnose_message_journey t expected (xs ++ (p ∷ o ∷ ys)) ≡ ok d'
    → (d.state ≡ d'.state)
      × (d.first_boundary_id ≡ d'.first_boundary_id)
      × Alike d.boundaries d'.boundaries
diagnose_message_journey-swap t expected xs ys o p d d' apart one two =
    let e = diagnose_message_journey-diagnosis t expected (xs ++ (o ∷ p ∷ ys)) d one in
    let e' = diagnose_message_journey-diagnosis t expected (xs ++ (p ∷ o ∷ ys)) d' two in
    let Same = λ (c c' : JourneyDiagnosis).
      (c.state ≡ c'.state)
      × (c.first_boundary_id ≡ c'.first_boundary_id)
      × Alike c.boundaries c'.boundaries in
    subst (λ c. Same c d') (sym e)
      (subst (Same (diagnosis expected (xs ++ (o ∷ p ∷ ys)))) (sym e')
        (diagnosis-Alike expected xs ys o p apart))
