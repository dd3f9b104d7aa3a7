-- ===== src/Journey/Diagnosis/Verdict.antt =====
-- The verdict on a journey from the assessments of its boundaries.
use arpanet_redux.Prelude.{
  ◌≡◌, ◌≢◌, ◌↔◌, refl, sym, ap, ◌∙◌, Bool, true, Option, none, some, List, [], ◌∷◌, ◌++◌, All,
  arith, subst,
}
use arpanet_redux.Journey.{
  JourneyState, BoundaryAssessmentState, BoundaryAssessment, ExpectedJourney,
  MessageJourneyObservation,
}
use arpanet_redux.Journey.Diagnosis.{
  is_observed, first_unobserved, has_any, state_by, journey_state, first_id, assessments, diagnosis,
}

abbrev pub IsObserved : BoundaryAssessment → Type 0
IsObserved a = a.state ≡ BoundaryAssessmentState.observed

-- The verdict for the state of the first boundary that was not observed.
abbrev pub StateOf :
    BoundaryAssessmentState → List MessageJourneyObservation → JourneyState → Type 0
StateOf BoundaryAssessmentState.observed direct s = ⊥
StateOf BoundaryAssessmentState.contradictory direct s = s ≡ JourneyState.contradictory_boundary
StateOf BoundaryAssessmentState.ambiguous direct s = s ≡ JourneyState.ambiguous
StateOf BoundaryAssessmentState.missing [] s = s ≡ JourneyState.unknown
StateOf BoundaryAssessmentState.missing (o ∷ os) s = s ≡ JourneyState.missing_boundary

is_observed_iff :
    (s : BoundaryAssessmentState) → (is_observed s ≡ true) ↔ (s ≡ BoundaryAssessmentState.observed)
is_observed_iff s = ground arith

All-IsObserved :
    (all : List BoundaryAssessment) → (first_unobserved all ≡ none) ↔ All IsObserved all
unfolding first_unobserved
All-IsObserved [] = (λ _. tt, λ _. refl)
All-IsObserved (a ∷ rest) = ground (arith, is_observed_iff a.state, All-IsObserved rest)

first_after :
    (before after : List BoundaryAssessment) (a : BoundaryAssessment)
    → All IsObserved before
    → a.state ≢ BoundaryAssessmentState.observed
    → first_unobserved (before ++ (a ∷ after)) ≡ some a
unfolding first_unobserved
first_after [] after a h n = ground (arith, is_observed_iff a.state)
first_after (b ∷ before) after a (h, hs) n =
    ground (arith, is_observed_iff b.state, first_after before after a hs n)

state_by-StateOf :
    (s : BoundaryAssessmentState) (direct : List MessageJourneyObservation)
    → s ≢ BoundaryAssessmentState.observed
    → StateOf s direct (state_by s (has_any direct))
state_by-StateOf BoundaryAssessmentState.observed direct n = n refl
state_by-StateOf BoundaryAssessmentState.contradictory direct n = refl
state_by-StateOf BoundaryAssessmentState.ambiguous direct n = refl
state_by-StateOf BoundaryAssessmentState.missing [] n = refl
state_by-StateOf BoundaryAssessmentState.missing (o ∷ os) n = refl

complete_only :
    (first : Option BoundaryAssessment) (direct : Bool)
    → journey_state first direct ≡ JourneyState.complete
    → first ≡ none
complete_only none direct h = refl
complete_only (some a) direct h = ground arith

named_none : (first : Option BoundaryAssessment) → first_id first ≡ none → first ≡ none
named_none none h = refl
named_none (some a) h = cc

-- A journey is complete exactly when every boundary was observed, and only then names no boundary.
-- Otherwise it names the first boundary that was not observed, and its state is that of this
-- boundary: contradictory, ambiguous, or missing, which is unknown when nothing was observed at all.
pub diagnosis-first :
    (expected : ExpectedJourney) (direct : List MessageJourneyObservation)
    → let d = diagnosis expected direct in
      ((d.state ≡ JourneyState.complete) ↔ All IsObserved d.boundaries)
      × ((d.first_boundary_id ≡ none) ↔ All IsObserved d.boundaries)
      × ((before after : List BoundaryAssessment) (a : BoundaryAssessment)
          → d.boundaries ≡ before ++ (a ∷ after)
          → All IsObserved before
          → a.state ≢ BoundaryAssessmentState.observed
          → (d.first_boundary_id ≡ some a.boundary.id) × StateOf a.state direct d.state)
unfolding diagnosis
diagnosis-first expected direct =
    let all = assessments expected direct expected.boundaries in
    let (to, from) = All-IsObserved all in
    (
      (
        λ h. to (complete_only (first_unobserved all) (has_any direct) h),
        λ h. ap (λ f. journey_state f (has_any direct)) (from h),
      ),
      (λ h. to (named_none (first_unobserved all) h), λ h. ap first_id (from h)),
      λ before after a split observed n.
          let first = ap first_unobserved split ∙ first_after before after a observed n in
          (
            ap first_id first,
            subst (StateOf a.state direct) (sym (ap (λ f. journey_state f (has_any direct)) first))
                (state_by-StateOf a.state direct n),
          ),
    )
