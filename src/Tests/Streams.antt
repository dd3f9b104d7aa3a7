-- ===== src/Tests/Streams.antt =====
-- A recorder of the journey of the other tests, and the order of its observations.
use arpanet_redux.Prelude.{◌≡◌, true, false, some, none, [], ◌∷◌, ok}
use arpanet_redux.Journey.Checks.{expected_journey}
use arpanet_redux.Journey.Diagnosis.{
  build_expected_journey, diagnosis, check_placed, diagnose_message_journey,
}
use arpanet_redux.Journey.Diagnosis.Exchange.{Alike, diagnose_message_journey-swap}
use arpanet_redux.Journey.Observations.{find_boundary, validate_observations}
use arpanet_redux.Identifier.{is_identifier}
use arpanet_redux.Journey.Route.{validated_topology}
use arpanet_redux.Journey.Stream.{
  MessageJourneyStreamRecorder, new_recorder, StreamRecord, diagnosis_record, publish, complete,
}
use arpanet_redux.Journey.Stream.Recorded.{
  Reached, opened, published, completed, was_closed, Consistent, recorder-Consistent,
}
use arpanet_redux.Tests.Journeys.{
  shared, journey, wanted, leaves, arrives, boundaries_made, topology_accepted,
  observations_accepted, apart, request_print, reply_print,
}

-- The recorder after two observations.
abbrev open_recorder : MessageJourneyStreamRecorder
open_recorder = record {
  observations = leaves ∷ arrives ∷ [];
  terminal = false;
  closed = false;
  written = StreamRecord.observation leaves ∷ StreamRecord.observation arrives ∷ [];
}

-- The recorder after two observations, the diagnosis and `close`.
abbrev recorder : MessageJourneyStreamRecorder
recorder = record {
  observations = leaves ∷ arrives ∷ [];
  terminal = true;
  closed = true;
  written =
      StreamRecord.observation leaves
      ∷ StreamRecord.observation arrives
      ∷ StreamRecord.diagnosis (diagnosis_record (diagnosis journey (leaves ∷ arrives ∷ [])))
      ∷ [];
}

journey_built :
    build_expected_journey shared "journey" "route:ab"
      (wanted request_print (some 6))
      (wanted reply_print none)
    ≡ ok journey
unfolding build_expected_journey expected_journey is_identifier
journey_built = rw boundaries_made

journey_diagnosed :
    diagnose_message_journey shared journey (leaves ∷ arrives ∷ [])
    ≡ ok (diagnosis journey (leaves ∷ arrives ∷ []))
unfolding diagnose_message_journey validated_topology check_placed find_boundary
journey_diagnosed = rw (boundaries_made, topology_accepted, observations_accepted)

two_published : publish shared journey new_recorder (leaves ∷ arrives ∷ []) ≡ ok open_recorder
unfolding publish
two_published = rw journey_diagnosed

journey_completed :
    complete shared journey open_recorder
    ≡ ok (record recorder { closed = false }, diagnosis journey (leaves ∷ arrives ∷ []))
unfolding complete
journey_completed = rw journey_diagnosed

recorder-Reached : Reached shared journey recorder
recorder-Reached = was_closed {s = record recorder { closed = false }} (
    completed {s = open_recorder} (published (leaves ∷ arrives ∷ []) opened two_published)
      journey_completed)

recorder-Consistent_example : Consistent shared journey recorder
recorder-Consistent_example =
    recorder-Consistent shared journey recorder "journey" "route:ab" (wanted request_print (some 6))
      (wanted reply_print none) journey_built recorder-Reached

other_order :
    diagnose_message_journey shared journey (arrives ∷ leaves ∷ [])
    ≡ ok (diagnosis journey (arrives ∷ leaves ∷ []))
unfolding diagnose_message_journey validated_topology check_placed find_boundary
    validate_observations
other_order = rw (boundaries_made, topology_accepted)

diagnose_message_journey-swap_example :
    let d = diagnosis journey (leaves ∷ arrives ∷ []) in
    let d' = diagnosis journey (arrives ∷ leaves ∷ []) in
    (d.state ≡ d'.state)
    × (d.first_boundary_id ≡ d'.first_boundary_id)
    × Alike d.boundaries d'.boundaries
diagnose_message_journey-swap_example =
    diagnose_message_journey-swap shared journey [] [] leaves arrives
      (diagnosis journey (leaves ∷ arrives ∷ [])) (diagnosis journey (arrives ∷ leaves ∷ [])) apart
      journey_diagnosed other_order
