-- ===== src/Journey/Checks.antt =====
-- The checks that ncc/message_journey.py makes when it builds a value, with `_stable_identifier`,
-- `_nonempty_text`, `_fingerprint`, `_optional_unsigned` and `_unique_identifiers`.
pub mod Bounds
use arpanet_redux.Prelude.{
  ℕ, ◌≤◌, ◌≡◌, ◌↔◌, refl, Bool, true, false, not, ◌&&◌, ◌||◌, Option, none, some, List, [], ◌∷◌,
  String, leb, ◌==◌, length, Result, ok, err, ◌>>=◌, ◌>>◌, require, require-eq-ok, characters,
  is_empty_text, leb→le, le→leb, arith,
}
use arpanet_redux.Identifier.{is_identifier, contains_text}
use arpanet_redux.Journey.{
  JourneyValidationError, not_identifier, empty_text, not_fingerprint, exceeds, no_boundaries,
  repeated_evidence, ExternalEvidenceReference, ObservationProvenance, DecodedMessage,
  ExpectedJourney, MessageExpectation, MessageJourneyObservation,
}

abbrev pub Check : Type 0
Check = Result JourneyValidationError (Unit {0})

abbrev pub nonempty_text : String → Check
nonempty_text s = require (not (is_empty_text s)) empty_text

abbrev pub stable_identifier : String → Check
stable_identifier s = nonempty_text s >> require (is_identifier s) not_identifier

-- [0-9a-f]
abbrev pub is_hexadecimal : ℕ → Bool
is_hexadecimal c = (leb b'0' c && leb c b'9') || (leb b'a' c && leb c b'f')

abbrev pub all_hexadecimal : List ℕ → Bool
all_hexadecimal [] = true
all_hexadecimal (c ∷ cs) = is_hexadecimal c && all_hexadecimal cs

-- `_SHA256.fullmatch`
abbrev pub fingerprint : String → Check
fingerprint s =
    require (length (characters s) == 64 && all_hexadecimal (characters s)) not_fingerprint

abbrev pub optional_unsigned : Option ℕ → ℕ → Check
optional_unsigned none maximum = ok tt
optional_unsigned (some n) maximum = require (leb n maximum) exceeds

abbrev pub optional_text : Option String → Check
optional_text none = ok tt
optional_text (some s) = nonempty_text s

unfoldable pub external_evidence_reference : ExternalEvidenceReference → Check
external_evidence_reference r = do
  stable_identifier r.id
  nonempty_text r.kind
  nonempty_text r.locator

unfoldable pub observation_provenance : ObservationProvenance → Check
observation_provenance p = do stable_identifier p.id; nonempty_text p.kind; optional_text p.revision

-- The loop over `_OCTET_CORRELATION_FIELDS`.
abbrev pub octets : List (Option ℕ) → Check
octets [] = ok tt
octets (n ∷ ns) = optional_unsigned n 0xFF >> octets ns

unfoldable pub decoded_message : DecodedMessage → Check
decoded_message d = do
  nonempty_text d.leader_format
  octets
      (d.message_type ∷ d.host ∷ d.link ∷ d.subtype ∷ d.m1 ∷ d.byte_size ∷ d.m2 ∷ d.ncp_opcode ∷ [])
  optional_unsigned d.byte_count 0xFFFF

unfoldable pub message_expectation : MessageExpectation → Check
message_expectation d = do
  fingerprint d.correlation_fingerprint
  octets
      (d.message_type ∷ d.host ∷ d.link ∷ d.subtype ∷ d.m1 ∷ d.byte_size ∷ d.m2 ∷ d.ncp_opcode ∷ [])
  optional_unsigned d.byte_count 0xFFFF

abbrev pub is_empty_list {ℓ} : {A : Type ℓ} → List A → Bool
is_empty_list [] = true
is_empty_list (a ∷ rest) = false

unfoldable pub expected_journey : ExpectedJourney → Check
expected_journey j = do
  stable_identifier j.id
  stable_identifier j.topology_id
  stable_identifier j.route_id
  require (not (is_empty_list j.boundaries)) no_boundaries

-- The loop over the external evidence.
abbrev pub evidence_ids : List ExternalEvidenceReference → List String → Check
evidence_ids [] ids = ok tt
evidence_ids (r ∷ rs) ids =
    require (not (contains_text r.id ids)) repeated_evidence >> evidence_ids rs (r.id ∷ ids)

unfoldable pub message_journey_observation : MessageJourneyObservation → Check
message_journey_observation o = do
  stable_identifier o.id
  stable_identifier o.journey_id
  stable_identifier o.component_id
  stable_identifier o.interface_id
  optional_unsigned o.simulator_tick 0x7FFFFFFFFFFFFFFF
  optional_unsigned o.transport_sequence 0xFFFFFFFF
  fingerprint o.correlation_fingerprint
  evidence_ids o.external_evidence []
