-- ===== src/Journey/Diagnosis/Built.antt =====
-- A journey that build_expected_journey makes can be diagnosed on its topology.
use arpanet_redux.Prelude.{
  ◌≡◌, refl, subst, true, List, [], ◌∷◌, String, ok, ok-injective, >>=-eq-ok, same_text_iff,
  ==-refl,
}
use arpanet_redux.Journey.{
  JourneyLeg, BoundaryDirection, BoundaryId, boundary, ExpectedBoundary, ExpectedJourney,
  MessageExpectation, same_leg, same_direction, same_id,
}
use arpanet_redux.Journey.Checks.{stable_identifier, expected_journey}
use arpanet_redux.Journey.Diagnosis.{
  build_expected_journey, same_boundaries, check_placed, diagnosis, diagnose_message_journey,
}
use arpanet_redux.Journey.Observations.{validate_observations}
use arpanet_redux.Journey.Route.{SharedTopology, route_boundaries, validated_topology}

same_leg_refl : (l : JourneyLeg) → same_leg l l ≡ true
same_leg_refl JourneyLeg.request = refl
same_leg_refl JourneyLeg.reply = refl

same_direction_refl : (d : BoundaryDirection) → same_direction d d ≡ true
same_direction_refl BoundaryDirection.ingress = refl
same_direction_refl BoundaryDirection.egress = refl

pub same_id_refl : (b : BoundaryId) → same_id b b ≡ true
same_id_refl (boundary l n) = rw (same_leg_refl l) (==-refl n)

same_boundaries_refl : (bs : List ExpectedBoundary) → same_boundaries bs bs ≡ true
same_boundaries_refl [] = refl
same_boundaries_refl (b ∷ bs) =
    rw
      (
        same_id_refl b.id,
        same_leg_refl b.leg,
        ==-refl b.position,
        (same_text_iff b.component_id b.component_id).1 refl,
        (same_text_iff b.interface_id b.interface_id).1 refl,
        same_direction_refl b.direction,
      )
      (same_boundaries_refl bs)

pub build_expected_journey-diagnosed :
    (t : SharedTopology) (journey_id route_id : String) (request reply : MessageExpectation)
    (expected : ExpectedJourney)
    → build_expected_journey t journey_id route_id request reply ≡ ok expected
    → diagnose_message_journey t expected [] ≡ ok (diagnosis expected [])
unfolding build_expected_journey diagnose_message_journey route_boundaries validate_observations
    check_placed
build_expected_journey-diagnosed t journey_id route_id request reply expected h =
    let (_, _, h1) = >>=-eq-ok (stable_identifier journey_id) _ h in
    let (_, _, h2) = >>=-eq-ok (stable_identifier route_id) _ h1 in
    let (bs, p, h3) = >>=-eq-ok (route_boundaries t route_id) _ h2 in
    let (ids, q, _) = >>=-eq-ok (validated_topology t) _ p in
    let (_, _, h4) = >>=-eq-ok (expected_journey _) _ h3 in
    subst (λ e. diagnose_message_journey t e [] ≡ ok (diagnosis e [])) (ok-injective h4)
      (rw ((same_text_iff t.id t.id).1 refl, p, same_boundaries_refl bs, q))
