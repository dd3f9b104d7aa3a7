-- ===== src/Host/Ingress/Trace.antt =====
-- What the receiver has seen, as a history, and what a message that it emits is made of.
use arpanet_redux.Prelude.{
  ℕ, ◌+◌, ◌≡◌, inl, inr, refl, ap, ◌∙◌, Bool, true, false, not, ◌&&◌, Option, none, some, List, [],
  ◌∷◌, ◌++◌, if◌then◌else◌, ok, err, All, Option-cases, Bool-cases, append-nil, arith,
}
use arpanet_redux.Host.Packet.{HostInterfaceError, HostInterfacePacket, final}
use arpanet_redux.Host.Ingress.{
  IngressMessage, IngressReceipt, PassiveHostIngress, passive_host_ingress, ready_sent, is_empty,
  or_else, receive,
}
use arpanet_redux.Host.Ingress.Step.{
  refusal_of, resets, kept, settle, receive→settle, receive-follows,
}

-- `Accepted packets s`: `s` is reached from a new receiver that accepted these packets, newest
-- first; ready packets may be sent at any time, and a packet that is refused may come in between.
pub data Accepted : List HostInterfacePacket → PassiveHostIngress → Type 0 where
  new : Accepted [] passive_host_ingress
  sent :
      {ps : List HostInterfacePacket} {s : PassiveHostIngress}
      → Accepted ps s
      → Accepted ps (ready_sent s)
  refused :
      {ps : List HostInterfacePacket} {s s' : PassiveHostIngress} (p : HostInterfacePacket)
      {e : HostInterfaceError}
      → Accepted ps s
      → receive p s ≡ (s', err e)
      → Accepted ps s'
  took :
      {ps : List HostInterfacePacket} {s s' : PassiveHostIngress} (p : HostInterfacePacket)
      {r : IngressReceipt}
      → Accepted ps s
      → receive p s ≡ (s', ok r)
      → Accepted (p ∷ ps) s'

-- The words of packets, the oldest packet's first.
abbrev pub joined : List HostInterfacePacket → List ℕ
joined [] = []
joined (p ∷ run) = joined run ++ p.words

-- The sequence number of the oldest packet that carries words.
abbrev pub first_of : List HostInterfacePacket → Option ℕ
first_of [] = none
first_of (p ∷ run) =
    if is_empty p.words then first_of run else some (or_else (first_of run) p.sequence)

-- Each packet's number is one more than the one before it.
abbrev pub IsChained : List HostInterfacePacket → Type 0
IsChained [] = Unit
IsChained (p ∷ []) = Unit
IsChained (p ∷ q ∷ run) = (p.sequence ≡ q.sequence + 1) × IsChained (q ∷ run)

-- A packet that carries words and ends a message.
abbrev pub closes : HostInterfacePacket → Bool
closes p = not (is_empty p.words) && final p

abbrev pub IsOpen : List HostInterfacePacket → Type 0
IsOpen = All (λ p. closes p ≡ false)

abbrev LastIs : List HostInterfacePacket → Option ℕ → Type 0
LastIs [] last = Unit
LastIs (p ∷ run) last = last ≡ some p.sequence

-- `run` holds the packets of the message in progress.
record Tracks (run : List HostInterfacePacket) (s : PassiveHostIngress) : Type 0 where
  words : s.message_words ≡ joined run
  first : s.first_message_sequence ≡ first_of run
  chained : IsChained run
  open_ : IsOpen run
  last : LastIs run s.last_received_sequence

-- What of the run is left before a packet joins it.
abbrev before :
    HostInterfacePacket → PassiveHostIngress → List HostInterfacePacket → List HostInterfacePacket
before p s run = if resets s.last_received_sequence p.sequence then [] else run

kept-Tracks :
    (run : List HostInterfacePacket) (p : HostInterfacePacket) (s : PassiveHostIngress)
    → Tracks run s
    → Tracks (before p s run) (kept p s)
kept-Tracks run p s t = elim (Bool-cases (resets s.last_received_sequence p.sequence)) [
  | inl z ↦ rw z (record { words = refl; first = refl; chained = tt; open_ = tt; last = tt })
  | inr z ↦ rw z t
]

before-IsChained :
    (run : List HostInterfacePacket) (p : HostInterfacePacket) (s s' : PassiveHostIngress)
    (r : IngressReceipt)
    → Tracks run s
    → receive p s ≡ (s', ok r)
    → IsChained (p ∷ before p s run)
before-IsChained [] p s s' r t h = elim (Bool-cases (resets s.last_received_sequence p.sequence)) [
  | inl z ↦ rw z tt
  | inr z ↦ rw z tt
]
before-IsChained (q ∷ run) p s s' r t h =
    elim (Bool-cases (resets s.last_received_sequence p.sequence)) [
      | inl z ↦ rw z tt
      | inr z ↦ rw z (receive-follows p s s' r q.sequence h t.last z, t.chained)
    ]

pub append-empty : (xs ys : List ℕ) → is_empty ys ≡ true → xs ++ ys ≡ xs
append-empty xs [] h = append-nil xs
append-empty xs (y ∷ ys) h = cc

settle-Tracks :
    (run : List HostInterfacePacket) (p : HostInterfacePacket) (k k' : PassiveHostIngress)
    (r : IngressReceipt)
    → Tracks run k
    → IsChained (p ∷ run)
    → settle p k ≡ (k', r)
    → r.message ≡ none
    → Tracks (p ∷ run) k'
settle-Tracks run p k k' r t c h n = record {
  words = ground (arith, t.words, append-empty (joined run) p.words);
  first = ground (arith, t.first);
  chained = c;
  open_ = (ground arith, t.open_);
  last = ground arith;
}

-- A message, and the packets that it was put together from, newest first.
pub record Assembled (p : HostInterfacePacket) (run : List HostInterfacePacket) (m : IngressMessage)
    : Type 0 where
  pub words : m.words ≡ joined (p ∷ run)
  pub first : first_of (p ∷ run) ≡ some m.first_sequence
  pub final_one : m.final_sequence ≡ p.sequence
  pub closed : closes p ≡ true
  pub open_ : IsOpen run
  pub chained : IsChained (p ∷ run)

settle-Assembled :
    (run : List HostInterfacePacket) (p : HostInterfacePacket) (k k' : PassiveHostIngress)
    (r : IngressReceipt) (m : IngressMessage)
    → Tracks run k
    → IsChained (p ∷ run)
    → settle p k ≡ (k', r)
    → r.message ≡ some m
    → Assembled p run m × Tracks [] k'
settle-Assembled run p k k' r m t c h n = (
  record {
    words = ground (arith, t.words);
    first = ground (arith, t.first);
    final_one = ground arith;
    closed = ground arith;
    open_ = t.open_;
    chained = c;
  },
  record { words = ground arith; first = ground arith; chained = tt; open_ = tt; last = tt },
)

refused-Tracks :
    (run : List HostInterfacePacket) (p : HostInterfacePacket) (s s' : PassiveHostIngress)
    (e : HostInterfaceError)
    → Tracks run s
    → receive p s ≡ (s', err e)
    → Tracks run s'
refused-Tracks run p s s' e t h = let d = refusal_of p s s' e h in rw d.5 t

sent-Tracks :
    (run : List HostInterfacePacket) (s : PassiveHostIngress)
    → Tracks run s
    → Tracks run (ready_sent s)
unfolding ready_sent
sent-Tracks run s t = record {
  words = t.words;
  first = t.first;
  chained = t.chained;
  open_ = t.open_;
  last = t.last;
}

-- A part of the history, newest first, that the receiver still holds.
abbrev InProgress : List HostInterfacePacket → PassiveHostIngress → Type 0
InProgress ps s =
    (run : List HostInterfacePacket) × (older : List HostInterfacePacket) × (ps ≡ run ++ older)
    × Tracks run s

before-older :
    (p : HostInterfacePacket) (s : PassiveHostIngress) (run older : List HostInterfacePacket)
    → (rest : List HostInterfacePacket) × (run ++ older ≡ before p s run ++ rest)
before-older p s run older = elim (Bool-cases (resets s.last_received_sequence p.sequence)) [
  | inl z ↦ (run ++ older, rw z)
  | inr z ↦ (older, rw z)
]

took-InProgress :
    (ps : List HostInterfacePacket) (p : HostInterfacePacket) (s s' : PassiveHostIngress)
    (r : IngressReceipt)
    → InProgress ps s
    → receive p s ≡ (s', ok r)
    → InProgress (p ∷ ps) s'
took-InProgress ps p s s' r (run, older, e, t) h =
    let (rest, e') = before-older p s run older in
    let c = before-IsChained run p s s' r t h in
    let k = kept-Tracks run p s t in
    let q = receive→settle p s s' r h in
    elim (Option-cases r.message) [
      | inl n ↦ (
        p ∷ before p s run,
        rest,
        ap (λ xs. p ∷ xs) (e ∙ e'),
        settle-Tracks (before p s run) p (kept p s) s' r k c q n,
      )
      | inr (m, n) ↦
          ([], p ∷ ps, refl, (settle-Assembled (before p s run) p (kept p s) s' r m k c q n).1)
    ]

Accepted-InProgress :
    (ps : List HostInterfacePacket) (s : PassiveHostIngress) → Accepted ps s → InProgress ps s
Accepted-InProgress ps s new =
    ([], [], refl, record { words = refl; first = refl; chained = tt; open_ = tt; last = tt })
Accepted-InProgress ps s' (sent {s = s} a) =
    let (run, older, e, t) = Accepted-InProgress ps s a in (run, older, e, sent-Tracks run s t)
Accepted-InProgress ps s' (refused {s = s} p {e = x} a h) =
    let (run, older, e, t) = Accepted-InProgress ps s a in
    (run, older, e, refused-Tracks run p s s' x t h)
Accepted-InProgress qs s' (took {ps = ps} {s = s} p {r = r} a h) =
    took-InProgress ps p s s' r (Accepted-InProgress ps s a) h

-- Every message that the receiver emits, whatever it accepted, refused and sent before, is made of
-- the words of an unbroken run of accepted packets: numbered one by one, ended by the packet at
-- hand, none of the others with words marked final; its first number is the oldest one with words.
pub receive-Assembled :
    (ps : List HostInterfacePacket) (p : HostInterfacePacket) (s s' : PassiveHostIngress)
    (r : IngressReceipt) (m : IngressMessage)
    → Accepted ps s
    → receive p s ≡ (s', ok r)
    → r.message ≡ some m
    → (run : List HostInterfacePacket) × (older : List HostInterfacePacket) × (ps ≡ run ++ older)
      × Assembled p run m
receive-Assembled ps p s s' r m a h n =
    let (run, older, e, t) = Accepted-InProgress ps s a in
    let (rest, e') = before-older p s run older in
    let (b, _) =
      settle-Assembled (before p s run) p (kept p s) s' r m (kept-Tracks run p s t)
        (before-IsChained run p s s' r t h) (receive→settle p s s' r h) n in
    (before p s run, rest, e ∙ e', b)
