-- ===== src/Host/Ingress/Step.antt =====
-- One packet at the receiver: when it is refused, and what it does to the message in progress.
use arpanet_redux.Prelude.{
  ℕ, ◌+◌, ◌≤◌, ◌≡◌, ◌≢◌, ◌↔◌, inl, inr, ◌∙◌, Bool, false, not, ◌||◌, Option, none, some, [], ◌++◌,
  ltb, ◌==◌, if◌then◌else◌, ok, err, Option-cases, arith,
}
use arpanet_redux.Host.Packet.{HostInterfaceError, out_of_order, HostInterfacePacket, final}
use arpanet_redux.Host.Ingress.{IngressReceipt, PassiveHostIngress, is_empty, or_else, receive}

pub refusal_of :
    (p : HostInterfacePacket) (s s' : PassiveHostIngress) (e : HostInterfaceError)
    → receive p s ≡ (s', err e)
    → (l : ℕ) × (s.last_received_sequence ≡ some l)
      × (p.sequence ≢ 0)
      × (p.sequence ≤ l)
      × (e ≡ out_of_order p.sequence l)
      × (s' ≡ s)
unfolding receive
refusal_of p s s' e h = elim (Option-cases s.last_received_sequence) [
  | inl n ↦ ground arith
  | inr (l, n) ↦ (l, n, ground arith, ground arith, ground arith, ground arith)
]

refused_if :
    (p : HostInterfacePacket) (s : PassiveHostIngress) (l : ℕ)
    → s.last_received_sequence ≡ some l
    → p.sequence ≢ 0
    → p.sequence ≤ l
    → receive p s ≡ (s, err (out_of_order p.sequence l))
unfolding receive
refused_if p s l n z h = ground arith

-- A packet is refused exactly when it carries a number other than 0 that is not above the last
-- one, and then the receiver is as before.
pub receive-refuses :
    (p : HostInterfacePacket) (s : PassiveHostIngress) (s' : PassiveHostIngress)
    (e : HostInterfaceError)
    → (receive p s ≡ (s', err e)) ↔ (
        (l : ℕ) × (s.last_received_sequence ≡ some l)
        × (p.sequence ≢ 0)
        × (p.sequence ≤ l)
        × (e ≡ out_of_order p.sequence l)
        × (s' ≡ s))
receive-refuses p s s' e =
    (refusal_of p s s' e, λ d. refused_if p s d.0 d.1 d.2 d.3 ∙ cc (d.4, d.5))

abbrev pub resets : Option ℕ → ℕ → Bool
resets none n = false
resets (some l) n = n == 0 || ltb (l + 1) n

-- The receiver once it has passed the sequence check and dropped what a restart or a gap voids.
abbrev pub kept : HostInterfacePacket → PassiveHostIngress → PassiveHostIngress
kept p s =
    if resets s.last_received_sequence p.sequence
    then record s { first_message_sequence = none; message_words = [] }
    else s

abbrev pub settle : HostInterfacePacket → PassiveHostIngress → PassiveHostIngress × IngressReceipt
settle p k =
    let first = or_else k.first_message_sequence p.sequence in
    let all = k.message_words ++ p.words in
    if is_empty p.words
    then (
      record k { last_received_sequence = some p.sequence },
      record { packet = p; message = none },
    )
    else if not (final p)
    then (
      record k {
        last_received_sequence = some p.sequence;
        first_message_sequence = some first;
        message_words = all;
      },
      record { packet = p; message = none },
    )
    else (
      record k {
        last_received_sequence = some p.sequence;
        first_message_sequence = none;
        message_words = [];
      },
      record {
        packet = p;
        message =
            some (record { first_sequence = first; final_sequence = p.sequence; words = all });
      },
    )

pub receive→settle :
    (p : HostInterfacePacket) (s s' : PassiveHostIngress) (r : IngressReceipt)
    → receive p s ≡ (s', ok r)
    → settle p (kept p s) ≡ (s', r)
unfolding receive
receive→settle p s s' r h = ground arith

-- A packet that is accepted and resets nothing follows the last one.
pub receive-follows :
    (p : HostInterfacePacket) (s s' : PassiveHostIngress) (r : IngressReceipt) (l : ℕ)
    → receive p s ≡ (s', ok r)
    → s.last_received_sequence ≡ some l
    → resets s.last_received_sequence p.sequence ≡ false
    → p.sequence ≡ l + 1
unfolding receive
receive-follows p s s' r l h n z = ground arith
