-- ===== src/Journey/Diagnosis/Assessments.antt =====
-- When a boundary is assessed as observed.
use arpanet_redux.Prelude.{
  ◌≡◌, ◌↔◌, refl, sym, ap, ◌∙◌, true, false, Option, none, some, List, [], ◌∷◌, ◌++◌, inl, inr, All,
  Bool-cases, arith, subst,
}
use arpanet_redux.Journey.{
  BoundaryAssessmentState, BoundaryId, BoundaryAssessment, ExpectedBoundary, ExpectedJourney,
  MessageJourneyObservation, same_id,
}
use arpanet_redux.Journey.Diagnosis.{belongs, candidates, assess, assessments, diagnosis}
use arpanet_redux.Journey.Expectation.{Agrees, compare, compare_cases, correlation_fields}
use arpanet_redux.Journey.Observations.{expectation, find_boundary}

pub same_id_iff : (a b : BoundaryId) → (same_id a b ≡ true) ↔ (a ≡ b)
same_id_iff a b = ground arith

pub belongs-some :
    (id : BoundaryId) (f : Option ExpectedBoundary)
    → belongs id f ≡ true
    → (b : ExpectedBoundary) × (f ≡ some b) × (b.id ≡ id)
belongs-some id none h = cc
belongs-some id (some b) h = (b, refl, (same_id_iff b.id id).0 h)

-- The observation is of the boundary.
abbrev pub IsOf : List ExpectedBoundary → ExpectedBoundary → MessageJourneyObservation → Type 0
IsOf bs b o = (c : ExpectedBoundary) × (find_boundary bs o ≡ some c) × (c.id ≡ b.id)

belongs_iff :
    (bs : List ExpectedBoundary) (b : ExpectedBoundary) (o : MessageJourneyObservation)
    → (belongs b.id (find_boundary bs o) ≡ true) ↔ IsOf bs b o
belongs_iff bs b o = (
  belongs-some b.id (find_boundary bs o),
  λ h. let (c, e, same) = h in ap (belongs b.id) e ∙ (same_id_iff c.id b.id).1 same,
)

-- The observation is the only one of the boundary.
abbrev pub IsOnly :
    List ExpectedBoundary
    → ExpectedBoundary
    → List MessageJourneyObservation
    → MessageJourneyObservation
    → Type 0
IsOnly bs b direct o =
    (before after : List MessageJourneyObservation) × (direct ≡ before ++ (o ∷ after))
    × All (λ p. ¬ IsOf bs b p) before
    × IsOf bs b o
    × All (λ p. ¬ IsOf bs b p) after

module _ (bs : List ExpectedBoundary) (b : ExpectedBoundary) where
  not-IsOf :
      (o : MessageJourneyObservation) → belongs b.id (find_boundary bs o) ≡ false → ¬ IsOf bs b o
  not-IsOf o e h = cc (e, (belongs_iff bs b o).1 h)

  candidates-skip :
      (o : MessageJourneyObservation) (os : List MessageJourneyObservation)
      → ¬ IsOf bs b o
      → candidates bs b.id (o ∷ os) ≡ candidates bs b.id os
  candidates-skip o os h = elim (Bool-cases (belongs b.id (find_boundary bs o))) [
    | inl e ↦ absurd (h ((belongs_iff bs b o).0 e))
    | inr e ↦ unfold candidates in rw e
  ]

  candidates-take :
      (o : MessageJourneyObservation) (os : List MessageJourneyObservation)
      → IsOf bs b o
      → candidates bs b.id (o ∷ os) ≡ o ∷ candidates bs b.id os
  candidates-take o os h = let e = (belongs_iff bs b o).1 h in unfold candidates in rw e

  candidates-none :
      (os : List MessageJourneyObservation)
      → (candidates bs b.id os ≡ []) ↔ All (λ p. ¬ IsOf bs b p) os
  candidates-none [] = (λ _. tt, λ _. unfold candidates in refl)
  candidates-none (o ∷ os) =
      let (to, from) = candidates-none os in
      elim (Bool-cases (belongs b.id (find_boundary bs o))) [
        | inl e ↦
            let h = (belongs_iff bs b o).0 e in
            (λ k. cc (sym (candidates-take o os h) ∙ k), λ k. absurd (k.0 h))
        | inr e ↦
            let h = not-IsOf o e in
            (
              λ k. (h, to (sym (candidates-skip o os h) ∙ k)),
              λ k. candidates-skip o os h ∙ from (k.1),
            )
      ]

  IsOnly-candidates :
      (before after : List MessageJourneyObservation) (o : MessageJourneyObservation)
      → All (λ p. ¬ IsOf bs b p) before
      → IsOf bs b o
      → All (λ p. ¬ IsOf bs b p) after
      → candidates bs b.id (before ++ (o ∷ after)) ≡ o ∷ []
  IsOnly-candidates [] after o h here k =
      candidates-take o after here ∙ ap (λ cs. o ∷ cs) ((candidates-none after).1 k)
  IsOnly-candidates (p ∷ before) after o (h, hs) here k =
      candidates-skip p (before ++ (o ∷ after)) h ∙ IsOnly-candidates before after o hs here k

  candidates-IsOnly :
      (os : List MessageJourneyObservation) (o : MessageJourneyObservation)
      → candidates bs b.id os ≡ o ∷ []
      → IsOnly bs b os o
  candidates-IsOnly [] o h = absurd (unfold candidates in cc h)
  candidates-IsOnly (p ∷ os) o h = elim (Bool-cases (belongs b.id (find_boundary bs p))) [
    | inl e ↦
        let here = (belongs_iff bs b p).0 e in
        let taken : p ∷ candidates bs b.id os ≡ o ∷ [] = sym (candidates-take p os here) ∙ h in
        let same : p ≡ o = cc taken in
        let rest : candidates bs b.id os ≡ [] = cc taken in
        subst (IsOnly bs b (p ∷ os)) same ([], os, refl, tt, here, (candidates-none os).0 rest)
    | inr e ↦
        let away = not-IsOf p e in
        let (before, after, split, none_before, here, none_after) =
          candidates-IsOnly os o (sym (candidates-skip p os away) ∙ h) in
        (p ∷ before, after, ap (λ l. p ∷ l) split, (away, none_before), here, none_after)
  ]

assess-observed :
    (expected : ExpectedJourney) (direct cs : List MessageJourneyObservation) (b : ExpectedBoundary)
    → ((assess expected direct b cs).state ≡ BoundaryAssessmentState.observed) ↔ (
        (o : MessageJourneyObservation) × (cs ≡ o ∷ [])
        × (compare (expectation expected b.leg) o.decoded ≡ BoundaryAssessmentState.observed))
unfolding assess
assess-observed expected direct [] b = (λ h. cc, λ h. cc (h.1))
assess-observed expected direct (o ∷ p ∷ os) b = (λ h. cc, λ h. cc (h.1))
assess-observed expected direct (o ∷ []) b =
    let e = expectation expected b.leg in
    (
      λ h. (o, refl, h),
      λ h.
          let (q, one, c) = h in
          let same : q ≡ o = cc one in
          subst (λ x. compare e x.decoded ≡ BoundaryAssessmentState.observed) same c,
    )

-- The boundary has one observation, and its message has the class and the fields expected of the leg.
abbrev pub IsSeen : ExpectedJourney → List MessageJourneyObservation → ExpectedBoundary → Type 0
IsSeen expected direct b =
    (o : MessageJourneyObservation) × IsOnly expected.boundaries b direct o
    × (o.decoded.message_class ≡ (expectation expected b.leg).message_class)
    × Agrees (correlation_fields (expectation expected b.leg) o.decoded)

assess-IsSeen :
    (expected : ExpectedJourney) (direct : List MessageJourneyObservation) (b : ExpectedBoundary)
    → ((assess expected direct b (candidates expected.boundaries b.id direct)).state
        ≡ BoundaryAssessmentState.observed)
      ↔ IsSeen expected direct b
assess-IsSeen expected direct b =
    let bs = expected.boundaries in
    let e = expectation expected b.leg in
    let (to, from) = assess-observed expected direct (candidates bs b.id direct) b in
    (
      λ h.
          let (o, one, c) = to h in
          let (same_class, same_fields) = (compare_cases e o.decoded).0.0 c in
          (o, candidates-IsOnly bs b direct o one, same_class, same_fields),
      λ h.
          let (o, (before, after, split, k, here, l), same_class, same_fields) = h in
          let one =
            ap (candidates bs b.id) split ∙ IsOnly-candidates bs b before after o k here l in
          from (o, one, (compare_cases e o.decoded).0.1 (same_class, same_fields)),
    )

abbrev pub Judged :
    ExpectedJourney
    → List MessageJourneyObservation
    → List ExpectedBoundary
    → List BoundaryAssessment
    → Type 0
Judged expected direct [] [] = Unit
Judged expected direct (b ∷ bs) (a ∷ rest) =
    (a.boundary ≡ b)
    × ((a.state ≡ BoundaryAssessmentState.observed) ↔ IsSeen expected direct b)
    × Judged expected direct bs rest
Judged expected direct [] (a ∷ rest) = ⊥
Judged expected direct (b ∷ bs) [] = ⊥

assess-boundary :
    (expected : ExpectedJourney) (direct cs : List MessageJourneyObservation) (b : ExpectedBoundary)
    → (assess expected direct b cs).boundary ≡ b
unfolding assess
assess-boundary expected direct [] b = refl
assess-boundary expected direct (o ∷ []) b = refl
assess-boundary expected direct (o ∷ p ∷ os) b = refl

assessments-Judged :
    (expected : ExpectedJourney) (direct : List MessageJourneyObservation)
    (bs : List ExpectedBoundary)
    → Judged expected direct bs (assessments expected direct bs)
unfolding assessments
assessments-Judged expected direct [] = tt
assessments-Judged expected direct (b ∷ bs) = (
  assess-boundary expected direct (candidates expected.boundaries b.id direct) b,
  assess-IsSeen expected direct b,
  assessments-Judged expected direct bs,
)

-- A diagnosis assesses the boundaries that are expected, in their order. It calls a boundary observed
-- exactly when one observation, and no other, is of it, and the message of that one agrees with the
-- expectation of the leg: in its class and in every field that is expected.
pub diagnosis-Judged :
    (expected : ExpectedJourney) (direct : List MessageJourneyObservation)
    → Judged expected direct expected.boundaries (diagnosis expected direct).boundaries
unfolding diagnosis
diagnosis-Judged expected direct = assessments-Judged expected direct expected.boundaries
