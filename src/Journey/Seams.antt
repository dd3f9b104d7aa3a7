-- ===== src/Journey/Seams.antt =====
-- The typed seams of ncc/message_journey.py for traces that a caller has validated:
-- `observation_from_ka10_imp_trace` and `observation_from_pdp11_imp11a_trace`.
use arpanet_redux.Prelude.{ℕ, Option, none, List, String, Result, ok, ◌>>◌}
use arpanet_redux.Journey.{
  BoundaryDirection, JourneyLeg, JourneyValidationError, ExternalEvidenceReference,
  ObservationProvenance, DecodedMessage, MessageJourneyObservation,
}
use arpanet_redux.Journey.Checks.{observation_provenance, message_journey_observation}

-- The arguments that the two seams share.
pub record Trace : Type 0 where
  pub observation_id : String
  pub journey_id : String
  pub leg : JourneyLeg
  pub component_id : String
  pub interface_id : String
  pub direction : BoundaryDirection
  pub source_local_sequence : ℕ
  pub decoded : DecodedMessage
  pub fingerprint : String
  pub provenance_id : String
  pub simulator_tick : Option ℕ
  pub external_evidence : List ExternalEvidenceReference

abbrev pub source_of : String → Trace → ObservationProvenance
source_of kind t = record { id = t.provenance_id; kind = kind; revision = none }

abbrev pub observation_of : String → Trace → Option ℕ → MessageJourneyObservation
observation_of kind t transport = record {
  id = t.observation_id;
  journey_id = t.journey_id;
  leg = t.leg;
  component_id = t.component_id;
  interface_id = t.interface_id;
  direction = t.direction;
  source_local_sequence = t.source_local_sequence;
  decoded = t.decoded;
  correlation_fingerprint = t.fingerprint;
  provenance = source_of kind t;
  simulator_tick = t.simulator_tick;
  transport_sequence = transport;
  external_evidence = t.external_evidence;
}

-- `_observation_from_unparsed_external_trace`
unfoldable pub observation_from_unparsed_external_trace :
    String → Trace → Option ℕ → Result JourneyValidationError MessageJourneyObservation
observation_from_unparsed_external_trace kind t transport = do
  observation_provenance (source_of kind t)
  message_journey_observation (observation_of kind t transport)
  ok (observation_of kind t transport)

unfoldable pub observation_from_ka10_imp_trace :
    Trace → Result JourneyValidationError MessageJourneyObservation
unfolding observation_from_unparsed_external_trace
observation_from_ka10_imp_trace t = observation_from_unparsed_external_trace "ka10-imp-trace" t none

unfoldable pub observation_from_pdp11_imp11a_trace :
    Trace → Option ℕ → Result JourneyValidationError MessageJourneyObservation
unfolding observation_from_unparsed_external_trace
observation_from_pdp11_imp11a_trace t transport =
    observation_from_unparsed_external_trace "pdp11-imp11a-trace" t transport
