-- ===== src/Journey/Checks/Bounds.antt =====
-- The bounds on the decoded fields of a message.
use arpanet_redux.Prelude.{
  ℕ, ◌≤◌, ◌≡◌, ◌≢◌, ◌↔◌, refl, Option, none, some, List, [], ◌∷◌, String, ok, ◌>>◌, >>=-eq-ok,
  same_text_iff, All, arith, ap, ◌∙◌,
}
use arpanet_redux.Journey.{DecodedMessage}
use arpanet_redux.Journey.Checks.{optional_unsigned, octets, decoded_message, nonempty_text}

-- A number that is there is at most the maximum.
abbrev pub Within : ℕ → Option ℕ → Type 0
Within maximum none = Unit
Within maximum (some n) = n ≤ maximum

optional_unsigned_iff :
    (n : Option ℕ) (maximum : ℕ) → (optional_unsigned n maximum ≡ ok tt) ↔ Within maximum n
optional_unsigned_iff none maximum = (λ _. tt, λ _. refl)
optional_unsigned_iff (some n) maximum = ground arith

octets_iff : (ns : List (Option ℕ)) → (octets ns ≡ ok tt) ↔ All (Within 255) ns
octets_iff [] = (λ _. tt, λ _. refl)
octets_iff (n ∷ ns) = (
  λ h.
      let (_, a, rest) = >>=-eq-ok (optional_unsigned n 255) (λ _. octets ns) h in
      ((optional_unsigned_iff n 255).0 a, (octets_iff ns).0 rest),
  λ h. ap (λ r. r >> octets ns) ((optional_unsigned_iff n 255).1 h.0) ∙ (octets_iff ns).1 h.1,
)

nonempty_text_iff : (s : String) → (nonempty_text s ≡ ok tt) ↔ (s ≢ "")
nonempty_text_iff s = ground (arith, same_text_iff s "")

abbrev pub octet_fields : DecodedMessage → List (Option ℕ)
octet_fields d =
    d.message_type ∷ d.host ∷ d.link ∷ d.subtype ∷ d.m1 ∷ d.byte_size ∷ d.m2 ∷ d.ncp_opcode ∷ []

-- A decoded message is accepted exactly when it names its leader's format, each of its octet fields
-- that is there is at most 255, and the byte count, if there, at most 65535.
pub decoded_message-Within :
    (d : DecodedMessage)
    → (decoded_message d ≡ ok tt)
      ↔ ((d.leader_format ≢ "") × All (Within 255) (octet_fields d) × Within 65535 d.byte_count)
unfolding decoded_message
decoded_message-Within d = (
  λ h.
      let (_, a, h1) =
        >>=-eq-ok (nonempty_text d.leader_format)
          (λ _. octets (octet_fields d) >> optional_unsigned d.byte_count 65535) h in
      let (_, b, c) =
        >>=-eq-ok (octets (octet_fields d)) (λ _. optional_unsigned d.byte_count 65535) h1 in
      (
        (nonempty_text_iff d.leader_format).0 a,
        (octets_iff (octet_fields d)).0 b,
        (optional_unsigned_iff d.byte_count 65535).0 c,
      ),
  λ h.
      ap (λ r. r >> (octets (octet_fields d) >> optional_unsigned d.byte_count 65535))
        ((nonempty_text_iff d.leader_format).1 h.0)
      ∙ ap (λ r. r >> optional_unsigned d.byte_count 65535) ((octets_iff (octet_fields d)).1 h.1)
      ∙ (optional_unsigned_iff d.byte_count 65535).1 h.2,
)
