-- ===== src/Journey/Stream/Recorded.antt =====
-- What the recorder of a message journey has written after any calls.
use arpanet_redux.Prelude.{
  ◌≡◌, refl, subst, sym, ap, ◌∙◌, Bool, true, false, not, ◌||◌, List, [], ◌∷◌, ◌++◌, append-nil,
  map, String, Result, ok, err, >>=-eq-ok, ok-injective, require-eq-ok, arith,
}
use arpanet_redux.Journey.{
  JourneyValidationError, ExpectedJourney, MessageExpectation, MessageJourneyObservation,
  JourneyDiagnosis,
}
use arpanet_redux.Journey.Diagnosis.{build_expected_journey, diagnose_message_journey, diagnosis}
use arpanet_redux.Journey.Diagnosis.Built.{build_expected_journey-diagnosed}
use arpanet_redux.Journey.Diagnosis.Prefix.{diagnose_message_journey-prefix}
use arpanet_redux.Journey.Route.{SharedTopology}
use arpanet_redux.Journey.Stream.{
  not_open, refuse, diagnosis_record, StreamRecord, MessageJourneyStreamRecorder, new_recorder,
  close, publish_batch, publish, complete,
}

-- The lines of observations.
abbrev pub lines : List MessageJourneyObservation → List StreamRecord
lines os = map StreamRecord.observation os

lines-append : (xs ys : List MessageJourneyObservation) → lines (xs ++ ys) ≡ lines xs ++ lines ys
lines-append [] ys = refl
lines-append (x ∷ xs) ys = ap (λ ws. StreamRecord.observation x ∷ ws) (lines-append xs ys)

module _ (topology : SharedTopology) (expected : ExpectedJourney) where
  -- The journey can be diagnosed from these observations.
  abbrev pub IsDiagnosed : List MessageJourneyObservation → Type 0
  IsDiagnosed os = diagnose_message_journey topology expected os ≡ ok (diagnosis expected os)

  -- The recorders that come of a new one by calls that did not fail.
  pub data Reached : MessageJourneyStreamRecorder → Type 0 where
    opened : Reached new_recorder
    published :
        {s next : MessageJourneyStreamRecorder} (batch : List MessageJourneyObservation)
        → Reached s
        → publish topology expected s batch ≡ ok next
        → Reached next
    completed :
        {s next : MessageJourneyStreamRecorder} {d : JourneyDiagnosis}
        → Reached s
        → complete topology expected s ≡ ok (next, d)
        → Reached next
    was_closed : {s : MessageJourneyStreamRecorder} → Reached s → Reached (close s)

  -- The lines behind those of the observations.
  abbrev pub tail_of : Bool → List MessageJourneyObservation → List StreamRecord
  tail_of false os = []
  tail_of true os = StreamRecord.diagnosis (diagnosis_record (diagnosis expected os)) ∷ []

  -- The journey can be diagnosed from the observations, and the lines are those of the observations,
  -- in their order, and behind them the diagnosis of all of them exactly if the recorder is terminal.
  pub record Consistent (s : MessageJourneyStreamRecorder) : Type 0 where
    pub diagnosed : IsDiagnosed s.observations
    pub written : s.written ≡ lines s.observations ++ tail_of s.terminal s.observations

  refuse-eq-ok :
      (r : Result JourneyValidationError JourneyDiagnosis) (d : JourneyDiagnosis)
      → refuse r ≡ ok d
      → r ≡ ok d
  refuse-eq-ok (ok a) d h = cc
  refuse-eq-ok (err e) d h = cc

  IsDiagnosed-all :
      (os : List MessageJourneyObservation) (d : JourneyDiagnosis)
      → diagnose_message_journey topology expected os ≡ ok d
      → IsDiagnosed os
  IsDiagnosed-all os d h =
      diagnose_message_journey-prefix topology expected os [] d
        (ap (diagnose_message_journey topology expected) (append-nil os) ∙ h)

  refuse-Diagnosed :
      (os : List MessageJourneyObservation) (d : JourneyDiagnosis)
      → refuse (diagnose_message_journey topology expected os) ≡ ok d
      → IsDiagnosed os
  refuse-Diagnosed os d h =
      IsDiagnosed-all os d (refuse-eq-ok (diagnose_message_journey topology expected os) d h)

  -- A call on a recorder that is neither closed nor terminal.
  still_open : (c t : Bool) → not (c || t) ≡ true → t ≡ false
  still_open c t h = ground arith

  written-running :
      (t : Bool) (os : List MessageJourneyObservation)
      → t ≡ false
      → lines os ++ tail_of t os ≡ lines os
  written-running t os h = ap (λ b. lines os ++ tail_of b os) h ∙ append-nil (lines os)

  module _ (s : MessageJourneyStreamRecorder) (known : Consistent s) where
    publish-Consistent :
        (batch : List MessageJourneyObservation) (next : MessageJourneyStreamRecorder)
        → publish topology expected s batch ≡ ok next
        → Consistent next
    unfolding publish
    publish-Consistent [] next h =
        let (_, h1) =
          require-eq-ok (not (s.closed || s.terminal)) not_open
            (publish_batch topology expected s []) h in
        subst Consistent (ok-injective h1) known
    publish-Consistent (o ∷ os) next h =
        let all = s.observations ++ (o ∷ os) in
        let (a, h1) =
          require-eq-ok (not (s.closed || s.terminal)) not_open
            (publish_batch topology expected s (o ∷ os)) h in
        let (d, p, h2) = >>=-eq-ok (refuse (diagnose_message_journey topology expected all)) _ h1 in
        let running = still_open s.closed s.terminal a in
        let before = known.written ∙ written-running s.terminal s.observations running in
        subst Consistent (ok-injective h2) (record {
          diagnosed = refuse-Diagnosed all d p;
          written =
              ap (λ ws. ws ++ lines (o ∷ os)) before
              ∙ (sym (lines-append s.observations (o ∷ os))
                  ∙ sym (written-running s.terminal all running));
        })

    complete-Consistent :
        (next : MessageJourneyStreamRecorder) (d : JourneyDiagnosis)
        → complete topology expected s ≡ ok (next, d)
        → Consistent next
    unfolding complete
    complete-Consistent next d h =
        let (a, h1) = require-eq-ok (not (s.closed || s.terminal)) not_open _ h in
        let (found, p, h2) =
          >>=-eq-ok (refuse (diagnose_message_journey topology expected s.observations)) _ h1 in
        let running = still_open s.closed s.terminal a in
        let known_found : diagnosis expected s.observations ≡ found =
          ok-injective (sym known.diagnosed ∙ refuse-eq-ok _ found p) in
        subst Consistent (ap (λ r. r.0) (ok-injective h2)) (record {
          diagnosed = known.diagnosed;
          written =
              ap (λ ws. ws ++ (StreamRecord.diagnosis (diagnosis_record found) ∷ []))
                (known.written ∙ written-running s.terminal s.observations running)
              ∙ ap (λ x. lines s.observations ++ (StreamRecord.diagnosis (diagnosis_record x) ∷ []))
                  (sym known_found);
        })

  reached-Consistent :
      {s : MessageJourneyStreamRecorder} → IsDiagnosed [] → Reached s → Consistent s
  reached-Consistent start opened = record { diagnosed = start; written = refl }
  reached-Consistent start (published {s} {next} batch r h) =
      publish-Consistent s (reached-Consistent start r) batch next h
  reached-Consistent start (completed {s} {next} {d} r h) =
      complete-Consistent s (reached-Consistent start r) next d h
  reached-Consistent start (was_closed {s} r) =
      let known = reached-Consistent start r in
      record { diagnosed = known.diagnosed; written = known.written }

  -- Whatever calls a recorder of a journey that was built on its topology went through without a
  -- failure: the journey can be diagnosed from the observations published, and the lines written are
  -- those of the observations, in their order, and behind them one line with the diagnosis of all of
  -- them exactly if the recorder is terminal.
  pub recorder-Consistent :
      (s : MessageJourneyStreamRecorder) (journey_id route_id : String)
      (request reply : MessageExpectation)
      → build_expected_journey topology journey_id route_id request reply ≡ ok expected
      → Reached s
      → Consistent s
  recorder-Consistent s journey_id route_id request reply built r =
      reached-Consistent
        (build_expected_journey-diagnosed topology journey_id route_id request reply _ built) r
