-- ===== src/Host/Ingress/Progress.antt =====
-- The receiver delivers: the packets of one message, sent in order, give that message.
use arpanet_redux.Prelude.{
  ℕ, suc, ◌+◌, ◌-◌, ◌<◌, ◌≡◌, ◌⊎◌, inr, sym, ap, ◌∙◌, true, false, Option, none, some, List, [],
  ◌∷◌, ◌++◌, append-nil, append_assoc, if◌then◌else◌, Result, ok, err, length, arith,
}
use arpanet_redux.Host.Packet.{HostInterfaceError, HostInterfacePacket}
use arpanet_redux.Host.Ingress.{
  IngressMessage, IngressReceipt, PassiveHostIngress, is_empty, or_else, receive,
}
use arpanet_redux.Host.Ingress.Trace.{closes, append-empty}

abbrev pub emitted : Result HostInterfaceError IngressReceipt → List IngressMessage
emitted (err e) = []
emitted (ok r) = elim r.message [ none ↦ [] | some m ↦ m ∷ [] ]

-- The packets received one after another, and the messages that they complete.
unfoldable pub collect :
    List HostInterfacePacket → PassiveHostIngress → PassiveHostIngress × List IngressMessage
collect [] s = (s, [])
collect (p ∷ ps) s =
    let (s', r) = receive p s in let (s'', ms) = collect ps s' in (s'', emitted r ++ ms)

-- The packets of one message, numbered from `n` on: the last one closes it, and no other does.
abbrev pub IsFragments : ℕ → List HostInterfacePacket → Type 0
IsFragments n [] = ⊥
IsFragments n (p ∷ []) = (p.sequence ≡ n) × (closes p ≡ true)
IsFragments n (p ∷ q ∷ ps) = (p.sequence ≡ n) × (closes p ≡ false) × IsFragments (suc n) (q ∷ ps)

abbrev pub carried : List HostInterfacePacket → List ℕ
carried [] = []
carried (p ∷ ps) = p.words ++ carried ps

-- The number of the first packet with words.
abbrev pub opened : Option ℕ → List HostInterfacePacket → Option ℕ
opened f [] = f
opened f (p ∷ ps) = opened (if is_empty p.words then f else some (or_else f p.sequence)) ps

-- The next packet in order is `n`: nothing was received yet, or `n` follows the last number.
abbrev pub Expects : ℕ → PassiveHostIngress → Type 0
Expects n s =
    (s.last_received_sequence ≡ none)
    ⊎ ((l : ℕ) × (s.last_received_sequence ≡ some l) × (n ≡ l + 1))

abbrev message_of : HostInterfacePacket → PassiveHostIngress → IngressMessage
message_of p s = record {
  first_sequence = or_else s.first_message_sequence p.sequence;
  final_sequence = p.sequence;
  words = s.message_words ++ p.words;
}

abbrev idle_after : ℕ → PassiveHostIngress → PassiveHostIngress
idle_after n s = record s {
  last_received_sequence = some n;
  first_message_sequence = none;
  message_words = [];
}

abbrev extended : HostInterfacePacket → PassiveHostIngress → PassiveHostIngress
extended p s = record s {
  last_received_sequence = some p.sequence;
  first_message_sequence =
      (if is_empty p.words
        then s.first_message_sequence
        else some (or_else s.first_message_sequence p.sequence));
  message_words = s.message_words ++ p.words;
}

receive-closing :
    (n : ℕ) (p : HostInterfacePacket) (s : PassiveHostIngress)
    → Expects n s
    → p.sequence ≡ n
    → closes p ≡ true
    → receive p s
      ≡ (idle_after p.sequence s, ok (record { packet = p; message = some (message_of p s) }))
unfolding receive
receive-closing n p s x e c = ground arith

receive-open :
    (n : ℕ) (p : HostInterfacePacket) (s : PassiveHostIngress)
    → Expects n s
    → p.sequence ≡ n
    → closes p ≡ false
    → receive p s ≡ (extended p s, ok (record { packet = p; message = none }))
unfolding receive
receive-open n p s x e c = ground (arith, append-empty s.message_words p.words)

length-IsFragments : (n : ℕ) (ps : List HostInterfacePacket) → IsFragments n ps → 0 < length ps
length-IsFragments n [] f = absurd f
length-IsFragments n (p ∷ ps) f = omega arith

-- After its packets the message is there, and the receiver is ready for the next one.
pub record Delivers (n : ℕ) (ps : List HostInterfacePacket) (s : PassiveHostIngress)
    (m : IngressMessage) : Type 0 where
  pub state : (collect ps s).0 ≡ record s {
    last_received_sequence = some (n + length ps - 1);
    first_message_sequence = none;
    message_words = [];
  }
  pub emits : (collect ps s).1 ≡ m ∷ []
  pub words : m.words ≡ s.message_words ++ carried ps
  pub first : some m.first_sequence ≡ opened s.first_message_sequence ps
  pub last : m.final_sequence ≡ n + length ps - 1

collect-fragments :
    (n : ℕ) (ps : List HostInterfacePacket) (s : PassiveHostIngress)
    → IsFragments n ps
    → Expects n s
    → (m : IngressMessage) × Delivers n ps s m
unfolding collect
collect-fragments n [] s f x = absurd f
collect-fragments n (p ∷ []) s f x =
    let e = receive-closing n p s x f.0 f.1 in
    let c : is_empty p.words ≡ false = ground (arith, f.1) in
    (
      message_of p s,
      record {
        state = rw e (ground (arith, f.0));
        emits = rw e;
        words = ap (λ (ws : List ℕ). s.message_words ++ ws) (sym (append-nil p.words));
        first = rw c;
        last = ground (arith, f.0);
      },
    )
collect-fragments n (p ∷ q ∷ ps) s f x =
    let e = receive-open n p s x f.0 f.1 in
    let (m, d) =
      collect-fragments (suc n) (q ∷ ps) (extended p s) f.2 (inr (n, ap some f.0, omega arith)) in
    (
      m,
      record {
        state = rw e (d.state ∙ ap (λ (k : ℕ). idle_after k s) (omega arith));
        emits = rw e d.emits;
        words = d.words ∙ append_assoc s.message_words p.words (carried (q ∷ ps));
        first = d.first;
        last = omega (arith, d.last);
      },
    )

-- A receiver between two messages that is sent all packets of a message, in order and with none
-- lost, emits one message with all their words and the numbers of the first packet with words and
-- of the last packet, and is between two messages again.
pub collect-Delivers :
    (n : ℕ) (ps : List HostInterfacePacket) (s : PassiveHostIngress)
    → IsFragments n ps
    → Expects n s
    → s.first_message_sequence ≡ none
    → s.message_words ≡ []
    → (m : IngressMessage) × ((collect ps s).1 ≡ m ∷ [])
      × (m.words ≡ carried ps)
      × (some m.first_sequence ≡ opened none ps)
      × (m.final_sequence ≡ n + length ps - 1)
      × ((collect ps s).0.first_message_sequence ≡ none)
      × ((collect ps s).0.message_words ≡ [])
      × Expects (n + length ps) (collect ps s).0
collect-Delivers n ps s f x first words =
    let (m, d) = collect-fragments n ps s f x in
    (
      m,
      d.emits,
      d.words ∙ ap (λ (ws : List ℕ). ws ++ carried ps) words,
      d.first ∙ ap (λ (o : Option ℕ). opened o ps) first,
      d.last,
      ap (λ (t : PassiveHostIngress). t.first_message_sequence) d.state,
      ap (λ (t : PassiveHostIngress). t.message_words) d.state,
      inr (
        n + length ps - 1,
        ap (λ (t : PassiveHostIngress). t.last_received_sequence) d.state,
        omega (arith, length-IsFragments n ps f),
      ),
    )
