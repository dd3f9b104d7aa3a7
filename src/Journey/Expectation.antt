-- ===== src/Journey/Expectation.antt =====
-- `MessageExpectation.compare` of ncc/message_journey.py, and exactly when it gives which answer.
use arpanet_redux.Prelude.{
  ℕ, ◌≡◌, ◌≢◌, ◌↔◌, ◌⊎◌, inl, inr, Bool, true, false, Option, none, some, List, [], ◌∷◌, ◌==◌,
  if◌then◌else◌, Bool-cases, arith,
}
use arpanet_redux.Journey.{
  MessageClass, BoundaryAssessmentState, DecodedMessage, MessageExpectation, regular,
  error_with_leader, nop, rfnm, imp_control, observed, contradictory,
}

abbrev pub same_class : MessageClass → MessageClass → Bool
same_class regular regular = true
same_class error_with_leader error_with_leader = true
same_class nop nop = true
same_class rfnm rfnm = true
same_class imp_control imp_control = true
same_class MessageClass.unknown MessageClass.unknown = true
same_class _ _ = false

abbrev pub is_unknown : MessageClass → Bool
is_unknown MessageClass.unknown = true
is_unknown _ = false

-- The values of `_CORRELATION_FIELDS`, expected and observed.
abbrev pub correlation_fields : MessageExpectation → DecodedMessage → List (Option ℕ × Option ℕ)
correlation_fields e d =
    (e.message_type, d.message_type)
    ∷ (e.host, d.host)
    ∷ (e.link, d.link)
    ∷ (e.subtype, d.subtype)
    ∷ (e.m1, d.m1)
    ∷ (e.byte_size, d.byte_size)
    ∷ (e.byte_count, d.byte_count)
    ∷ (e.m2, d.m2)
    ∷ (e.ncp_opcode, d.ncp_opcode)
    ∷ []

-- The loop over the fields, `incomplete` as it stands.
unfoldable pub compare_fields : List (Option ℕ × Option ℕ) → Bool → BoundaryAssessmentState
compare_fields [] incomplete = if incomplete then BoundaryAssessmentState.ambiguous else observed
compare_fields ((none, d) ∷ fields) incomplete = compare_fields fields incomplete
compare_fields ((some e, none) ∷ fields) incomplete = compare_fields fields true
compare_fields ((some e, some d) ∷ fields) incomplete =
    let rest = compare_fields fields incomplete in if d == e then rest else contradictory

-- The answer by the class of the message, the class expected, and the fields.
unfoldable pub compare_by :
    MessageClass → MessageClass → List (Option ℕ × Option ℕ) → BoundaryAssessmentState
compare_by found expected fields =
    if same_class found expected
    then compare_fields fields false
    else if is_unknown found
    then BoundaryAssessmentState.ambiguous
    else contradictory

unfoldable pub compare : MessageExpectation → DecodedMessage → BoundaryAssessmentState
unfolding compare_by
compare e d = compare_by d.message_class e.message_class (correlation_fields e d)

-- A field that is expected and was observed with another value.
abbrev pub Differs : List (Option ℕ × Option ℕ) → Type 0
Differs [] = ⊥
Differs ((none, d) ∷ fields) = Differs fields
Differs ((some e, none) ∷ fields) = Differs fields
Differs ((some e, some d) ∷ fields) = (d ≢ e) ⊎ Differs fields

-- Every field that is expected was observed, with the expected value.
abbrev pub Agrees : List (Option ℕ × Option ℕ) → Type 0
Agrees [] = Unit
Agrees ((none, d) ∷ fields) = Agrees fields
Agrees ((some e, none) ∷ fields) = ⊥
Agrees ((some e, some d) ∷ fields) = (d ≡ e) × Agrees fields

same_class_iff : (c d : MessageClass) → (same_class c d ≡ true) ↔ (c ≡ d)
same_class_iff c d = ground arith

is_unknown_iff : (c : MessageClass) → (is_unknown c ≡ true) ↔ (c ≡ MessageClass.unknown)
is_unknown_iff c = ground arith

fields-Agrees :
    (fields : List (Option ℕ × Option ℕ)) (incomplete : Bool)
    → (compare_fields fields incomplete ≡ observed) ↔ ((incomplete ≡ false) × Agrees fields)
unfolding compare_fields
fields-Agrees [] incomplete = ground arith
fields-Agrees ((none, d) ∷ fields) incomplete = fields-Agrees fields incomplete
fields-Agrees ((some e, none) ∷ fields) incomplete = ground (arith, fields-Agrees fields true)
fields-Agrees ((some e, some d) ∷ fields) incomplete =
    ground (arith, fields-Agrees fields incomplete)

fields-Differs :
    (fields : List (Option ℕ × Option ℕ)) (incomplete : Bool)
    → (compare_fields fields incomplete ≡ contradictory) ↔ Differs fields
unfolding compare_fields
fields-Differs [] incomplete = ground arith
fields-Differs ((none, d) ∷ fields) incomplete = fields-Differs fields incomplete
fields-Differs ((some e, none) ∷ fields) incomplete = fields-Differs fields true
fields-Differs ((some e, some d) ∷ fields) incomplete =
    ground (arith, fields-Differs fields incomplete)

fields-present :
    (fields : List (Option ℕ × Option ℕ)) (incomplete : Bool)
    → compare_fields fields incomplete ≢ BoundaryAssessmentState.missing
unfolding compare_fields
fields-present [] incomplete = ground arith
fields-present ((none, d) ∷ fields) incomplete = fields-present fields incomplete
fields-present ((some e, none) ∷ fields) incomplete = fields-present fields true
fields-present ((some e, some d) ∷ fields) incomplete =
    ground (arith, fields-present fields incomplete)

compare_by_cases :
    (found expected : MessageClass) (fields : List (Option ℕ × Option ℕ))
    → ((compare_by found expected fields ≡ observed) ↔ ((found ≡ expected) × Agrees fields))
      × ((compare_by found expected fields ≡ contradictory) ↔ (
          ((found ≢ expected) × (found ≢ MessageClass.unknown))
          ⊎ ((found ≡ expected) × Differs fields)))
      × (compare_by found expected fields ≢ BoundaryAssessmentState.missing)
unfolding compare_by
compare_by_cases found expected fields =
    let same = same_class_iff found expected in
    let known = is_unknown_iff found in
    let agrees = fields-Agrees fields false in
    let differs = fields-Differs fields false in
    let present = fields-present fields false in
    elim (Bool-cases (same_class found expected)) [
      | inl s ↦ (ground arith, ground arith, ground arith)
      | inr n ↦ (ground arith, ground arith, ground arith)
    ]

-- The three answers: observed exactly when the class and every expected field agree; contradictory
-- exactly when the class is another known one, or it is the same and some expected field was observed
-- with another value, whatever else is missing; and never missing.
pub compare_cases :
    (e : MessageExpectation) (d : DecodedMessage)
    → ((compare e d ≡ observed)
        ↔ ((d.message_class ≡ e.message_class) × Agrees (correlation_fields e d)))
      × ((compare e d ≡ contradictory) ↔ (
          ((d.message_class ≢ e.message_class) × (d.message_class ≢ MessageClass.unknown))
          ⊎ ((d.message_class ≡ e.message_class) × Differs (correlation_fields e d))))
      × (compare e d ≢ BoundaryAssessmentState.missing)
unfolding compare
compare_cases e d = compare_by_cases d.message_class e.message_class (correlation_fields e d)
