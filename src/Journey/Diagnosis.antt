-- ===== src/Journey/Diagnosis.antt =====
-- `diagnose_message_journey` and `build_expected_journey` of ncc/message_journey.py.
pub mod Verdict
pub mod Assessments
pub mod Exchange
pub mod Prefix
pub mod Built
use arpanet_redux.Prelude.{
  ℕ, Bool, true, false, not, ◌&&◌, Option, none, some, List, [], ◌∷◌, ◌++◌, map, String,
  if◌then◌else◌, Result, ok, err, ◌>>=◌, ◌>>◌, require, same_text,
}
use arpanet_redux.Topology.{TopologyIds}
use arpanet_redux.Journey.{
  JourneyLeg, JourneyState, BoundaryAssessmentState, JourneyValidationError, other_topology,
  other_boundaries, no_boundary, BoundaryId, ExpectedBoundary, ExpectedJourney, MessageExpectation,
  MessageJourneyObservation, BoundaryAssessment, JourneyDiagnosis, same_leg, same_id, same_boundary,
}
use arpanet_redux.Journey.Checks.{stable_identifier, expected_journey}
use arpanet_redux.Journey.Expectation.{compare}
use arpanet_redux.Journey.Observations.{
  expectation, find_boundary, nothing_seen, validate_observations,
}
use arpanet_redux.Journey.Route.{SharedTopology, route_boundaries, validated_topology}

unfoldable pub build_expected_journey :
    SharedTopology
    → String
    → String
    → MessageExpectation
    → MessageExpectation
    → Result JourneyValidationError ExpectedJourney
build_expected_journey t journey_id route_id request reply = do
  stable_identifier journey_id
  stable_identifier route_id
  bs ← route_boundaries t route_id
  let e : ExpectedJourney = record {
    id = journey_id;
    topology_id = t.id;
    route_id = route_id;
    request = request;
    reply = reply;
    boundaries = bs;
  }
  expected_journey e
  ok e

abbrev pub same_boundaries : List ExpectedBoundary → List ExpectedBoundary → Bool
same_boundaries [] [] = true
same_boundaries (a ∷ rest) (b ∷ bs) = same_boundary a b && same_boundaries rest bs
same_boundaries [] (b ∷ bs) = false
same_boundaries (a ∷ rest) [] = false

abbrev pub placed : Option ExpectedBoundary → Result JourneyValidationError (Unit {0})
placed none = err no_boundary
placed (some b) = ok tt

-- The loop that fills `candidates`, as far as it may raise.
unfoldable pub check_placed :
    List ExpectedBoundary
    → List MessageJourneyObservation
    → Result JourneyValidationError (Unit {0})
check_placed bs [] = ok tt
check_placed bs (o ∷ os) = do placed (find_boundary bs o); check_placed bs os

abbrev pub belongs : BoundaryId → Option ExpectedBoundary → Bool
belongs id none = false
belongs id (some b) = same_id b.id id

-- `candidates[boundary.id]`
unfoldable pub candidates :
    List ExpectedBoundary
    → BoundaryId
    → List MessageJourneyObservation
    → List MessageJourneyObservation
candidates bs id [] = []
candidates bs id (o ∷ os) =
    if belongs id (find_boundary bs o) then o ∷ candidates bs id os else candidates bs id os

abbrev pub ids_of : List MessageJourneyObservation → List String
ids_of [] = []
ids_of (o ∷ os) = o.id ∷ ids_of os

-- `leg_support[leg]`
unfoldable pub leg_support : JourneyLeg → List MessageJourneyObservation → List String
leg_support leg [] = []
leg_support leg (o ∷ os) =
    if same_leg o.leg leg then o.id ∷ leg_support leg os else leg_support leg os

-- The assessment of a boundary from its candidates.
unfoldable pub assess :
    ExpectedJourney
    → List MessageJourneyObservation
    → ExpectedBoundary
    → List MessageJourneyObservation
    → BoundaryAssessment
assess expected direct b [] = record {
  boundary = b;
  state = BoundaryAssessmentState.missing;
  supporting_observation_ids = leg_support b.leg direct;
}
assess expected direct b (o ∷ []) = record {
  boundary = b;
  state = compare (expectation expected b.leg) o.decoded;
  supporting_observation_ids = o.id ∷ [];
}
assess expected direct b (o ∷ p ∷ os) = record {
  boundary = b;
  state = BoundaryAssessmentState.ambiguous;
  supporting_observation_ids = ids_of (o ∷ p ∷ os);
}

-- The loop over the boundaries.
unfoldable pub assessments :
    ExpectedJourney
    → List MessageJourneyObservation
    → List ExpectedBoundary
    → List BoundaryAssessment
assessments expected direct [] = []
assessments expected direct (b ∷ bs) =
    assess expected direct b (candidates expected.boundaries b.id direct)
    ∷ assessments expected direct bs

abbrev pub is_observed : BoundaryAssessmentState → Bool
is_observed BoundaryAssessmentState.observed = true
is_observed _ = false

-- `next(... if assessment.state != OBSERVED, None)`
unfoldable pub first_unobserved : List BoundaryAssessment → Option BoundaryAssessment
first_unobserved [] = none
first_unobserved (a ∷ rest) = if is_observed a.state then first_unobserved rest else some a

abbrev pub has_any {ℓ} : {A : Type ℓ} → List A → Bool
has_any [] = false
has_any (a ∷ rest) = true

abbrev pub state_by : BoundaryAssessmentState → Bool → JourneyState
state_by BoundaryAssessmentState.contradictory direct = JourneyState.contradictory_boundary
state_by BoundaryAssessmentState.ambiguous direct = JourneyState.ambiguous
state_by _ direct = if direct then JourneyState.missing_boundary else JourneyState.unknown

-- The state of the journey from the first boundary that was not observed, and whether there is any
-- observation.
abbrev pub journey_state : Option BoundaryAssessment → Bool → JourneyState
journey_state none direct = JourneyState.complete
journey_state (some a) direct = state_by a.state direct

abbrev pub first_id : Option BoundaryAssessment → Option BoundaryId
first_id none = none
first_id (some a) = some a.boundary.id

unfoldable pub diagnosis : ExpectedJourney → List MessageJourneyObservation → JourneyDiagnosis
unfolding assessments first_unobserved
diagnosis expected direct =
    let all = assessments expected direct expected.boundaries in
    let first = first_unobserved all in
    record {
      journey_id = expected.id;
      state = journey_state first (has_any direct);
      first_boundary_id = first_id first;
      supporting_observation_ids = ids_of direct;
      boundaries = all;
    }

unfoldable pub diagnose_message_journey :
    SharedTopology
    → ExpectedJourney
    → List MessageJourneyObservation
    → Result JourneyValidationError JourneyDiagnosis
diagnose_message_journey t expected direct = do
  require (same_text t.id expected.topology_id) other_topology
  bs ← route_boundaries t expected.route_id
  require (same_boundaries bs expected.boundaries) other_boundaries
  ids ← validated_topology t
  validate_observations expected ids.component_ids ids.endpoint_owners direct nothing_seen
  check_placed expected.boundaries direct
  ok (diagnosis expected direct)
