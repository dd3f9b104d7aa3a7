-- ===== src/Journey/Diagnosis/Prefix.antt =====
-- A journey that can be diagnosed can be diagnosed from the observations up to any point.
use arpanet_redux.Prelude.{
  ◌≡◌, refl, sym, ap, ◌∙◌, append-nil, ok-injective, List, [], ◌∷◌, String, ◌++◌, ok, >>=-eq-ok,
  require-eq-ok, same_text,
}
use arpanet_redux.Journey.{
  ExpectedBoundary, ExpectedJourney, MessageJourneyObservation, JourneyDiagnosis, other_topology,
  other_boundaries,
}
use arpanet_redux.Journey.Diagnosis.{
  placed, check_placed, diagnosis, same_boundaries, diagnose_message_journey,
}
use arpanet_redux.Journey.Observations.{
  Seen, find_boundary, nothing_seen, validate_observation, validate_observations,
}
use arpanet_redux.Journey.Route.{SharedTopology, route_boundaries, validated_topology}

module _ (expected : ExpectedJourney) (components : List String)
    (owners : List (String × String)) where
  validate_observations-prefix :
      (os ps : List MessageJourneyObservation) (s : Seen)
      → validate_observations expected components owners (os ++ ps) s ≡ ok tt
      → validate_observations expected components owners os s ≡ ok tt
  unfolding validate_observations
  validate_observations-prefix [] ps s h = refl
  validate_observations-prefix (o ∷ os) ps s h =
      let (next, p, q) = >>=-eq-ok (validate_observation expected components owners o s) _ h in
      rw p (validate_observations-prefix os ps next q)

check_placed-prefix :
    (bs : List ExpectedBoundary) (os ps : List MessageJourneyObservation)
    → check_placed bs (os ++ ps) ≡ ok tt
    → check_placed bs os ≡ ok tt
unfolding check_placed
check_placed-prefix bs [] ps h = refl
check_placed-prefix bs (o ∷ os) ps h =
    let (_, p, q) = >>=-eq-ok (placed (find_boundary bs o)) _ h in
    rw p (check_placed-prefix bs os ps q)

pub diagnose_message_journey-prefix :
    (t : SharedTopology) (expected : ExpectedJourney) (os ps : List MessageJourneyObservation)
    (d : JourneyDiagnosis)
    → diagnose_message_journey t expected (os ++ ps) ≡ ok d
    → diagnose_message_journey t expected os ≡ ok (diagnosis expected os)
unfolding diagnose_message_journey
diagnose_message_journey-prefix t expected os ps d h =
    let (a, h1) = require-eq-ok (same_text t.id expected.topology_id) other_topology _ h in
    let (bs, b, h2) = >>=-eq-ok (route_boundaries t expected.route_id) _ h1 in
    let (c, h3) = require-eq-ok (same_boundaries bs expected.boundaries) other_boundaries _ h2 in
    let (ids, e, h4) = >>=-eq-ok (validated_topology t) _ h3 in
    let (_, f, h5) =
      >>=-eq-ok
        (validate_observations expected ids.component_ids ids.endpoint_owners (os ++ ps)
          nothing_seen)
        _ h4 in
    let (_, g, _) = >>=-eq-ok (check_placed expected.boundaries (os ++ ps)) _ h5 in
    let f' =
      validate_observations-prefix expected ids.component_ids ids.endpoint_owners os ps _ f in
    let g' = check_placed-prefix expected.boundaries os ps g in rw (a, b, c, e, f', g')

-- A diagnosis that is made is that of its observations.
pub diagnose_message_journey-diagnosis :
    (t : SharedTopology) (expected : ExpectedJourney) (os : List MessageJourneyObservation)
    (d : JourneyDiagnosis)
    → diagnose_message_journey t expected os ≡ ok d
    → d ≡ diagnosis expected os
diagnose_message_journey-diagnosis t expected os d h = ok-injective (
    sym h
    ∙ diagnose_message_journey-prefix t expected os [] d
        (ap (diagnose_message_journey t expected) (append-nil os) ∙ h))
