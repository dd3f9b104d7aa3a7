-- ===== src/Journey.antt =====
-- ncc/message_journey.py: the values of a message journey. A value that the code checks for its class
-- has that class here; `BoundaryId` is the form `boundary:{leg}:{position}` of a boundary's name, which
-- is all that the module makes. The decoded numbers are natural.
pub mod Checks
pub mod Expectation
pub mod ShortLeader
pub mod Route
pub mod Seams
pub mod Observations
pub mod Diagnosis
pub mod Stream
use arpanet_redux.Prelude.{ℕ, Bool, true, false, ◌&&◌, Option, List, String, ◌==◌, same_text}

pub data BoundaryDirection : Type 0 where
  ingress egress : BoundaryDirection

pub data JourneyLeg : Type 0 where
  request reply : JourneyLeg

pub data MessageClass : Type 0 where
  regular error_with_leader nop rfnm imp_control unknown : MessageClass

pub data BoundaryAssessmentState : Type 0 where
  observed missing contradictory ambiguous : BoundaryAssessmentState

pub data JourneyState : Type 0 where
  complete missing_boundary contradictory_boundary ambiguous unknown : JourneyState

pub data JourneyValidationError : Type 0 where
  not_identifier empty_text not_fingerprint exceeds not_word too_short : JourneyValidationError
  no_boundaries repeated_evidence repeated_observation : JourneyValidationError
  no_route repeated_component unknown_component not_linked not_bound bad_topology :
      JourneyValidationError
  other_topology other_boundaries other_journey other_fingerprint : JourneyValidationError
  unknown_interface not_owned other_provenance sequence_order tick_order route_order :
      JourneyValidationError
  no_boundary : JourneyValidationError

pub record ExternalEvidenceReference : Type 0 where
  pub id : String
  pub kind : String
  pub locator : String

pub record ObservationProvenance : Type 0 where
  pub id : String
  pub kind : String
  pub revision : Option String

pub record DecodedMessage : Type 0 where
  pub message_class : MessageClass
  pub leader_format : String
  pub message_type : Option ℕ
  pub host : Option ℕ
  pub link : Option ℕ
  pub subtype : Option ℕ
  pub m1 : Option ℕ
  pub byte_size : Option ℕ
  pub byte_count : Option ℕ
  pub m2 : Option ℕ
  pub ncp_opcode : Option ℕ

pub record MessageExpectation : Type 0 where
  pub correlation_fingerprint : String
  pub message_class : MessageClass
  pub message_type : Option ℕ
  pub host : Option ℕ
  pub link : Option ℕ
  pub subtype : Option ℕ
  pub m1 : Option ℕ
  pub byte_size : Option ℕ
  pub byte_count : Option ℕ
  pub m2 : Option ℕ
  pub ncp_opcode : Option ℕ

pub data BoundaryId : Type 0 where
  boundary : JourneyLeg → ℕ → BoundaryId

pub record ExpectedBoundary : Type 0 where
  pub id : BoundaryId
  pub leg : JourneyLeg
  pub position : ℕ
  pub component_id : String
  pub interface_id : String
  pub direction : BoundaryDirection

pub record ExpectedJourney : Type 0 where
  pub id : String
  pub topology_id : String
  pub route_id : String
  pub request : MessageExpectation
  pub reply : MessageExpectation
  pub boundaries : List ExpectedBoundary

pub record MessageJourneyObservation : Type 0 where
  pub id : String
  pub journey_id : String
  pub leg : JourneyLeg
  pub component_id : String
  pub interface_id : String
  pub direction : BoundaryDirection
  pub source_local_sequence : ℕ
  pub decoded : DecodedMessage
  pub correlation_fingerprint : String
  pub provenance : ObservationProvenance
  pub simulator_tick : Option ℕ
  pub transport_sequence : Option ℕ
  pub external_evidence : List ExternalEvidenceReference

pub record BoundaryAssessment : Type 0 where
  pub boundary : ExpectedBoundary
  pub state : BoundaryAssessmentState
  pub supporting_observation_ids : List String

pub record JourneyDiagnosis : Type 0 where
  pub journey_id : String
  pub state : JourneyState
  pub first_boundary_id : Option BoundaryId
  pub supporting_observation_ids : List String
  pub boundaries : List BoundaryAssessment

abbrev pub same_leg : JourneyLeg → JourneyLeg → Bool
same_leg JourneyLeg.request JourneyLeg.request = true
same_leg JourneyLeg.reply JourneyLeg.reply = true
same_leg _ _ = false

abbrev pub same_direction : BoundaryDirection → BoundaryDirection → Bool
same_direction BoundaryDirection.ingress BoundaryDirection.ingress = true
same_direction BoundaryDirection.egress BoundaryDirection.egress = true
same_direction _ _ = false

abbrev pub same_id : BoundaryId → BoundaryId → Bool
same_id (boundary l n) (boundary k m) = same_leg l k && n == m

abbrev pub same_optional_text : Option String → Option String → Bool
same_optional_text Option.none Option.none = true
same_optional_text (Option.some s) (Option.some t) = same_text s t
same_optional_text _ _ = false

abbrev pub same_provenance : ObservationProvenance → ObservationProvenance → Bool
same_provenance p q =
    same_text p.id q.id && (same_text p.kind q.kind && same_optional_text p.revision q.revision)

abbrev pub same_boundary : ExpectedBoundary → ExpectedBoundary → Bool
same_boundary a b =
    same_id a.id b.id
    && (same_leg a.leg b.leg
        && (a.position == b.position
            && (same_text a.component_id b.component_id
                && (same_text a.interface_id b.interface_id
                    && same_direction a.direction b.direction))))

-- The key of a boundary and of an observation: leg, component, interface and direction.
abbrev pub is_at : MessageJourneyObservation → ExpectedBoundary → Bool
is_at o b =
    same_leg o.leg b.leg
    && (same_text o.component_id b.component_id
        && (same_text o.interface_id b.interface_id && same_direction o.direction b.direction))
