-- ===== src/Journey/Stream.antt =====
-- ncc/message_journey_stream.py: the recorder of a message journey, behind the header, which fixes the
-- topology and the journey. A line of the file is kept as what it renders: an observation, or the
-- diagnosis in the parts that the file has. JSON, the header, the file and the reader are left out.
pub mod Recorded
use arpanet_redux.Prelude.{
  Bool, true, false, not, ◌&&◌, ◌||◌, Option, none, some, List, [], ◌∷◌, ◌++◌, map, String, Result,
  ok, err, ◌>>=◌, ◌>>◌, require, same_text,
}
use arpanet_redux.Journey.{
  JourneyState, BoundaryAssessmentState, JourneyValidationError, BoundaryId, ExpectedJourney,
  MessageJourneyObservation, ExternalEvidenceReference, BoundaryAssessment, JourneyDiagnosis,
  same_id,
}
use arpanet_redux.Journey.Checks.{
  external_evidence_reference, observation_provenance, decoded_message, message_journey_observation,
}
use arpanet_redux.Journey.Diagnosis.{diagnose_message_journey}
use arpanet_redux.Journey.Route.{SharedTopology}
use arpanet_redux.Topology.{is_some}

pub data MessageJourneyStreamError : Type 0 where
  not_open : MessageJourneyStreamError
  refused : JourneyValidationError → MessageJourneyStreamError

abbrev pub refuse {ℓ} :
    {A : Type ℓ} → Result JourneyValidationError A → Result MessageJourneyStreamError A
refuse (ok a) = ok a
refuse (err e) = err (refused e)

pub record AssessmentRecord : Type 0 where
  pub boundary_id : BoundaryId
  pub state : BoundaryAssessmentState
  pub supporting_observation_ids : List String

pub record DiagnosisRecord : Type 0 where
  pub journey_id : String
  pub state : JourneyState
  pub first_boundary_id : Option BoundaryId
  pub supporting_observation_ids : List String
  pub boundaries : List AssessmentRecord

abbrev pub assessment_record : BoundaryAssessment → AssessmentRecord
assessment_record a = record {
  boundary_id = a.boundary.id;
  state = a.state;
  supporting_observation_ids = a.supporting_observation_ids;
}

abbrev pub diagnosis_record : JourneyDiagnosis → DiagnosisRecord
diagnosis_record d = record {
  journey_id = d.journey_id;
  state = d.state;
  first_boundary_id = d.first_boundary_id;
  supporting_observation_ids = d.supporting_observation_ids;
  boundaries = map assessment_record d.boundaries;
}

-- One line behind the header.
pub data StreamRecord : Type 0 where
  observation : MessageJourneyObservation → StreamRecord
  diagnosis : DiagnosisRecord → StreamRecord

-- The recorder, with the lines that it has written behind the header.
pub record MessageJourneyStreamRecorder : Type 0 where
  pub observations : List MessageJourneyObservation
  pub terminal : Bool
  pub closed : Bool
  pub written : List StreamRecord

abbrev pub new_recorder : MessageJourneyStreamRecorder
new_recorder = record { observations = []; terminal = false; closed = false; written = [] }

abbrev pub close : MessageJourneyStreamRecorder → MessageJourneyStreamRecorder
close s = record s { closed = true }

module _ (topology : SharedTopology) (expected : ExpectedJourney) where
  abbrev pub publish_batch :
      MessageJourneyStreamRecorder
      → List MessageJourneyObservation
      → Result MessageJourneyStreamError MessageJourneyStreamRecorder
  publish_batch s [] = ok s
  publish_batch s (o ∷ os) = do
    _ ← refuse (diagnose_message_journey topology expected (s.observations ++ (o ∷ os)))
    ok (record s {
      observations = s.observations ++ (o ∷ os);
      written = s.written ++ map observation (o ∷ os);
    })

  unfoldable pub publish :
      MessageJourneyStreamRecorder
      → List MessageJourneyObservation
      → Result MessageJourneyStreamError MessageJourneyStreamRecorder
  publish s batch = do require (not (s.closed || s.terminal)) not_open; publish_batch s batch

  unfoldable pub complete :
      MessageJourneyStreamRecorder
      → Result MessageJourneyStreamError (MessageJourneyStreamRecorder × JourneyDiagnosis)
  complete s = do
    require (not (s.closed || s.terminal)) not_open
    d ← refuse (diagnose_message_journey topology expected s.observations)
    ok (
      record s { written = s.written ++ (diagnosis (diagnosis_record d) ∷ []); terminal = true },
      d,
    )
