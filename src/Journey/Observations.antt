-- ===== src/Journey/Observations.antt =====
-- `_validate_observations` of ncc/message_journey.py. The dictionaries by source, and by source and
-- leg, are functions.
pub mod Order
use arpanet_redux.Prelude.{
  ℕ, Bool, true, false, not, ◌&&◌, ◌||◌, Option, none, some, List, [], ◌∷◌, String, ltb, leb,
  if◌then◌else◌, Result, ok, err, ◌>>=◌, ◌>>◌, require, same_text,
}
use arpanet_redux.Identifier.{contains_text}
use arpanet_redux.Topology.{owner, is_some}
use arpanet_redux.Journey.{
  JourneyLeg, JourneyValidationError, repeated_observation, other_journey, other_fingerprint,
  unknown_component, unknown_interface, not_owned, other_provenance, sequence_order, tick_order,
  route_order, ObservationProvenance, ExpectedBoundary, ExpectedJourney, MessageExpectation,
  MessageJourneyObservation, same_leg, same_provenance, is_at,
}
use arpanet_redux.Journey.Route.{owned_by}

abbrev pub expectation : ExpectedJourney → JourneyLeg → MessageExpectation
expectation e JourneyLeg.request = e.request
expectation e JourneyLeg.reply = e.reply

abbrev pub later_boundary :
    Option ExpectedBoundary → Option ExpectedBoundary → Option ExpectedBoundary
later_boundary none b = b
later_boundary (some b) c = some b

-- The dictionaries `boundary_positions` and `expected_by_key` at the key of an observation; a later
-- boundary replaces an earlier one.
unfoldable pub find_boundary :
    List ExpectedBoundary → MessageJourneyObservation → Option ExpectedBoundary
find_boundary [] o = none
find_boundary (b ∷ bs) o = later_boundary (find_boundary bs o) (if is_at o b then some b else none)

-- What the loop keeps: `identifiers`, `previous_by_source`, `provenance_by_source` and
-- `previous_position`.
pub record Seen : Type 0 where
  pub identifiers : List String
  pub previous : String → Option (ℕ × Option ℕ)
  pub provenance : String → Option ObservationProvenance
  pub position : String → JourneyLeg → Option ℕ

abbrev pub nothing_seen : Seen
nothing_seen = record {
  identifiers = [];
  previous = λ _. none;
  provenance = λ _. none;
  position = λ _ _. none;
}

abbrev pub keeps_provenance : Option ObservationProvenance → ObservationProvenance → Bool
keeps_provenance none p = true
keeps_provenance (some q) p = same_provenance q p

abbrev pub advances : Option (ℕ × Option ℕ) → ℕ → Bool
advances none n = true
advances (some (m, t)) n = ltb m n

abbrev pub tick_back : Option ℕ → Option ℕ → Bool
tick_back (some t) (some u) = ltb t u
tick_back none u = false
tick_back (some t) none = false

abbrev pub keeps_tick : Option (ℕ × Option ℕ) → Option ℕ → Bool
keeps_tick none t = true
keeps_tick (some (m, u)) t = not (tick_back t u)

abbrev pub keeps_position : Option ℕ → ℕ → Bool
keeps_position none n = true
keeps_position (some m) n = leb m n

abbrev pub set_position : Seen → String → JourneyLeg → ℕ → Seen
set_position s source leg n = record s {
  position = λ k l. if same_text source k && same_leg leg l then some n else s.position k l;
}

-- The last part of the loop's body, by the boundary of the observation.
abbrev pub place_observation :
    MessageJourneyObservation → Option ExpectedBoundary → Seen → Result JourneyValidationError Seen
place_observation o none s = ok s
place_observation o (some b) s =
    require (keeps_position (s.position o.provenance.id o.leg) b.position) route_order
    >> ok (set_position s o.provenance.id o.leg b.position)

-- The entries of the observation in the first three dictionaries.
abbrev pub note_observation : MessageJourneyObservation → Seen → Seen
note_observation o s = record s {
  identifiers = o.id ∷ s.identifiers;
  previous = λ k.
      if same_text o.provenance.id k
      then some (o.source_local_sequence, o.simulator_tick)
      else s.previous k;
  provenance = λ k. if same_text o.provenance.id k then some o.provenance else s.provenance k;
}

module _ (expected : ExpectedJourney) (component_ids : List String)
    (owners : List (String × String)) where
  -- The body of the loop.
  unfoldable pub validate_observation :
      MessageJourneyObservation → Seen → Result JourneyValidationError Seen
  validate_observation o s = do
    require (not (contains_text o.id s.identifiers)) repeated_observation
    require (same_text o.journey_id expected.id) other_journey
    require
        (same_text o.correlation_fingerprint (expectation expected o.leg).correlation_fingerprint)
        other_fingerprint
    require (contains_text o.component_id component_ids) unknown_component
    require (is_some (owner o.interface_id owners)) unknown_interface
    require (owned_by (owner o.interface_id owners) o.component_id) not_owned
    require (keeps_provenance (s.provenance o.provenance.id) o.provenance) other_provenance
    require (advances (s.previous o.provenance.id) o.source_local_sequence) sequence_order
    require (keeps_tick (s.previous o.provenance.id) o.simulator_tick) tick_order
    place_observation o (find_boundary expected.boundaries o) (note_observation o s)

  unfoldable pub validate_observations :
      List MessageJourneyObservation → Seen → Result JourneyValidationError (Unit {0})
  unfolding validate_observation
  validate_observations [] s = ok tt
  validate_observations (o ∷ os) s = do
    next ← validate_observation o s
    validate_observations os next
