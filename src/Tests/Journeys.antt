-- ===== src/Tests/Journeys.antt =====
-- A route of three components, a journey on it, and the theorems there.
use arpanet_redux.Prelude.{
  ℕ, ◌≡◌, ◌≢◌, ◌↔◌, ◌⊎◌, refl, Option, none, some, List, [], ◌∷◌, ◌++◌, map, String, ok, All, arith,
  ap,
}
use mathlib.Core.List.{reverse}
use arpanet_redux.Identifier.{is_identifier}
use arpanet_redux.Topology.{
  Component, EndpointEntry, NormalizedTopology, TopologyIds, validate_topology, validate_components,
  validate_links, validate_routes, check_overlap,
}
use arpanet_redux.Topology.Routes.{IsLinked, validate_topology-IsLinked}
use arpanet_redux.Report.Checksum.{nat}
use arpanet_redux.Journey
use arpanet_redux.Journey.{
  BoundaryDirection, JourneyLeg, MessageClass, BoundaryAssessmentState, JourneyState,
  DecodedMessage, MessageExpectation, ExpectedBoundary, ExpectedJourney, MessageJourneyObservation,
  BoundaryAssessment, BoundaryId,
}
use arpanet_redux.Journey.Diagnosis.{assess, candidates, diagnosis}
use arpanet_redux.Journey.Diagnosis.Assessments.{Judged, diagnosis-Judged}
use arpanet_redux.Journey.Diagnosis.Exchange.{Apart}
use arpanet_redux.Journey.Diagnosis.Verdict.{IsObserved, StateOf, diagnosis-first}
use arpanet_redux.Journey.Expectation.{
  compare, compare_fields, Agrees, Differs, correlation_fields, compare_cases,
}
use arpanet_redux.Journey.Observations.{nothing_seen, validate_observations, find_boundary}
use arpanet_redux.Journey.Observations.Order.{InOrder, validate_observations-InOrder}
use arpanet_redux.Journey.Route.{
  SharedTopology, route_boundaries, path_crossings, boundaries_for_crossings, find_route,
  validated_topology,
}
use arpanet_redux.Journey.Route.Mirror.{Counted, place, across, route_boundaries-mirrored}
use arpanet_redux.Journey.ShortLeader.{
  decode_nosc_short_leader, word_of, HeaderOf, decode_nosc_short_leader-total,
}

abbrev component : String → List EndpointEntry → Component
component id endpoints = record { id = id; kind = "node"; label = "Node"; endpoints = endpoints }

abbrev entry : String → EndpointEntry
entry id = record { id = id; label = "Endpoint" }

abbrev nominal : NormalizedTopology
nominal = record {
  components =
      component "host:a" (entry "a:0" ∷ [])
      ∷ component "imp:1" (entry "i:0" ∷ entry "i:1" ∷ [])
      ∷ component "host:b" (entry "b:0" ∷ [])
      ∷ [];
  links =
      record { id = "link:a"; endpoints = "a:0" ∷ "i:0" ∷ [] }
      ∷ record { id = "link:b"; endpoints = "b:0" ∷ "i:1" ∷ [] }
      ∷ [];
  routes = record { id = "route:ab"; components = "host:a" ∷ "imp:1" ∷ "host:b" ∷ [] } ∷ [];
}

abbrev pub shared : SharedTopology
shared = record {
  id = "three";
  topology = nominal;
  interfaces = ("i:0", "a:0") ∷ ("i:1", "b:0") ∷ [];
  modem_interfaces = [];
}

abbrev known_ids : TopologyIds
known_ids = record {
  component_ids = "host:b" ∷ "imp:1" ∷ "host:a" ∷ [];
  endpoint_owners =
      ("b:0", "host:b") ∷ ("i:1", "imp:1") ∷ ("i:0", "imp:1") ∷ ("a:0", "host:a") ∷ [];
  link_ids = "link:b" ∷ "link:a" ∷ [];
  route_ids = "route:ab" ∷ [];
}

pub topology_accepted : validate_topology nominal ≡ ok known_ids
unfolding validate_topology validate_components validate_links validate_routes check_overlap
    is_identifier
topology_accepted = refl

validate_topology-IsLinked_example :
    All (λ r. IsLinked nominal.links known_ids.endpoint_owners r.components) nominal.routes
validate_topology-IsLinked_example = validate_topology-IsLinked nominal known_ids topology_accepted

abbrev at : JourneyLeg → ℕ → String → String → BoundaryDirection → ExpectedBoundary
at leg n c i d = record {
  id = Journey.boundary leg n;
  leg = leg;
  position = n;
  component_id = c;
  interface_id = i;
  direction = d;
}

abbrev eight_boundaries : List ExpectedBoundary
eight_boundaries =
    at JourneyLeg.request 1 "host:a" "a:0" BoundaryDirection.egress
    ∷ at JourneyLeg.request 2 "imp:1" "i:0" BoundaryDirection.ingress
    ∷ at JourneyLeg.request 3 "imp:1" "i:1" BoundaryDirection.egress
    ∷ at JourneyLeg.request 4 "host:b" "b:0" BoundaryDirection.ingress
    ∷ at JourneyLeg.reply 1 "host:b" "b:0" BoundaryDirection.egress
    ∷ at JourneyLeg.reply 2 "imp:1" "i:1" BoundaryDirection.ingress
    ∷ at JourneyLeg.reply 3 "imp:1" "i:0" BoundaryDirection.egress
    ∷ at JourneyLeg.reply 4 "host:a" "a:0" BoundaryDirection.ingress
    ∷ []

pub boundaries_made : route_boundaries shared "route:ab" ≡ ok eight_boundaries
unfolding route_boundaries validated_topology validate_topology validate_components validate_links
    validate_routes check_overlap is_identifier find_route path_crossings boundaries_for_crossings
boundaries_made = refl

route_boundaries-mirrored_example :
    (out : List ExpectedBoundary) × ((back : List ExpectedBoundary) × (eight_boundaries
        ≡ out ++ back)
      × Counted JourneyLeg.request 0 out
      × Counted JourneyLeg.reply 0 back
      × (reverse (map place back) ≡ map across (map place out)))
route_boundaries-mirrored_example =
    route_boundaries-mirrored shared "route:ab" eight_boundaries boundaries_made

-- A regular message to host 6 on link 0.
abbrev decoded : DecodedMessage
decoded = record {
  message_class = MessageClass.regular;
  leader_format = "nosc-short-1822-ncp";
  message_type = some 0;
  host = some 6;
  link = some 0;
  subtype = some 0;
  m1 = none;
  byte_size = none;
  byte_count = none;
  m2 = none;
  ncp_opcode = none;
}

-- The fingerprints of the two legs.
abbrev pub request_print : String
request_print = "0123456789abcdef0123456789abcdef0123456789abcdef0123456789abcdef"

abbrev pub reply_print : String
reply_print = "fedcba9876543210fedcba9876543210fedcba9876543210fedcba9876543210"

abbrev pub wanted : String → Option ℕ → MessageExpectation
wanted print host = record {
  correlation_fingerprint = print;
  message_class = MessageClass.regular;
  message_type = some 0;
  host = host;
  link = none;
  subtype = none;
  m1 = none;
  byte_size = none;
  byte_count = none;
  m2 = none;
  ncp_opcode = none;
}

compare_cases_example :
    ((compare (wanted request_print (some 6)) decoded ≡ BoundaryAssessmentState.observed) ↔ (
      (decoded.message_class ≡ (wanted request_print (some 6)).message_class)
      × Agrees (correlation_fields (wanted request_print (some 6)) decoded)))
    × ((compare (wanted request_print (some 6)) decoded ≡ BoundaryAssessmentState.contradictory) ↔ (
        ((decoded.message_class ≢ (wanted request_print (some 6)).message_class)
          × (decoded.message_class ≢ MessageClass.unknown))
        ⊎ ((decoded.message_class ≡ (wanted request_print (some 6)).message_class)
            × Differs (correlation_fields (wanted request_print (some 6)) decoded))))
    × (compare (wanted request_print (some 6)) decoded ≢ BoundaryAssessmentState.missing)
compare_cases_example = compare_cases (wanted request_print (some 6)) decoded

decode_nosc_short_leader-total_example :
    (d : DecodedMessage) × (decode_nosc_short_leader (map nat (6 ∷ 0 ∷ 8 ∷ 10 ∷ 1 ∷ [])) ≡ ok d)
    × (word_of d.message_type d.host ≡ some 6)
    × (word_of d.link d.subtype ≡ some 0)
    × HeaderOf 6 0 (8 ∷ 10 ∷ 1 ∷ []) d
decode_nosc_short_leader-total_example =
    decode_nosc_short_leader-total 6 0 (8 ∷ 10 ∷ 1 ∷ []) (omega arith) (omega arith) (omega arith)

abbrev pub journey : ExpectedJourney
journey = record {
  id = "journey";
  topology_id = "three";
  route_id = "route:ab";
  request = wanted request_print (some 6);
  reply = wanted reply_print none;
  boundaries = eight_boundaries;
}

abbrev seen_at :
    String → String → ℕ → String → String → BoundaryDirection → MessageJourneyObservation
seen_at id source n c i d = record {
  id = id;
  journey_id = "journey";
  leg = JourneyLeg.request;
  component_id = c;
  interface_id = i;
  direction = d;
  source_local_sequence = n;
  decoded = decoded;
  correlation_fingerprint = request_print;
  provenance = record { id = source; kind = "trace"; revision = none };
  simulator_tick = none;
  transport_sequence = none;
  external_evidence = [];
}

abbrev pub leaves : MessageJourneyObservation
leaves = seen_at "o:1" "host" 1 "host:a" "a:0" BoundaryDirection.egress

abbrev pub arrives : MessageJourneyObservation
arrives = seen_at "o:2" "imp" 5 "imp:1" "i:0" BoundaryDirection.ingress

pub observations_accepted :
    validate_observations journey known_ids.component_ids known_ids.endpoint_owners
      (leaves ∷ arrives ∷ [])
      nothing_seen
    ≡ ok tt
unfolding validate_observations find_boundary
observations_accepted = refl

validate_observations-InOrder_example :
    InOrder journey known_ids.component_ids known_ids.endpoint_owners (leaves ∷ arrives ∷ [])
validate_observations-InOrder_example =
    validate_observations-InOrder journey known_ids.component_ids known_ids.endpoint_owners
      (leaves ∷ arrives ∷ []) observations_accepted

abbrev first_name : Option ExpectedBoundary → Option BoundaryId
first_name none = none
first_name (some b) = some b.id

pub apart : Apart eight_boundaries leaves arrives
unfolding find_boundary
apart b c p q same = cc (ap first_name p, ap first_name q, same)

diagnosis-first_example :
    let direct = leaves ∷ arrives ∷ [] in
    let d = diagnosis journey direct in
    ((d.state ≡ JourneyState.complete) ↔ All IsObserved d.boundaries)
    × ((d.first_boundary_id ≡ none) ↔ All IsObserved d.boundaries)
    × ((before after : List BoundaryAssessment) (a : BoundaryAssessment)
        → d.boundaries ≡ before ++ (a ∷ after)
        → All IsObserved before
        → a.state ≢ BoundaryAssessmentState.observed
        → (d.first_boundary_id ≡ some a.boundary.id) × StateOf a.state direct d.state)
diagnosis-first_example = diagnosis-first journey (leaves ∷ arrives ∷ [])

third_missing :
    let d = diagnosis journey (leaves ∷ arrives ∷ []) in
    (d.state ≡ JourneyState.missing_boundary)
    × (d.first_boundary_id ≡ some (Journey.boundary JourneyLeg.request 3))
unfolding diagnosis find_boundary candidates assess compare compare_fields
third_missing = (refl, refl)

diagnosis-Judged_example :
    Judged journey
      (leaves ∷ arrives ∷ [])
      eight_boundaries
      (diagnosis journey (leaves ∷ arrives ∷ [])).boundaries
diagnosis-Judged_example = diagnosis-Judged journey (leaves ∷ arrives ∷ [])
