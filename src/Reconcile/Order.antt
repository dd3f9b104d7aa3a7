-- ===== src/Reconcile/Order.antt =====
-- `_validate_event_order` of ncc/reconciliation.py. How a timestamp is read is a parameter: `some`
-- instant, or `none` for a text that is refused.
use arpanet_redux.Prelude.{
  ℕ, ◌≤◌, ◌<◌, ◌≡◌, ◌↔◌, refl, Bool, true, false, not, Option, none, some, List, [], ◌∷◌, String,
  ltb, leb, Result, ok, err, ◌>>=◌, ◌>>◌, require, require_three-eq-ok, leb→le, le→leb, ap, ◌∙◌,
  arith,
}
use arpanet_redux.Events.{NccEvent}
use arpanet_redux.Reconcile.{
  ReconciliationError, bad_timestamp, sequence_order, timestamp_order, future_event,
}

-- `event.sequence <= previous_sequence`, from a number below all others at first.
abbrev pub repeats : Option ℕ → ℕ → Bool
repeats none n = false
repeats (some previous) n = leb n previous

-- `previous_time is not None and timestamp < previous_time`
abbrev pub turns_back : Option ℕ → ℕ → Bool
turns_back none t = false
turns_back (some previous) t = ltb t previous

abbrev pub instant : Option ℕ → Result ReconciliationError ℕ
instant none = err bad_timestamp
instant (some t) = ok t

-- Above the number before, and not before the instant before.
abbrev pub Above : Option ℕ → ℕ → Type 0
Above none n = Unit
Above (some previous) n = previous < n

abbrev pub NotBefore : Option ℕ → ℕ → Type 0
NotBefore none t = Unit
NotBefore (some previous) t = previous ≤ t

module _ (timestamp : String → Option ℕ) (current : ℕ) where
  -- The loop, over the events that are left.
  unfoldable pub validate_from :
      List NccEvent → Option ℕ → Option ℕ → Result ReconciliationError (Unit {0})
  validate_from [] previous_sequence previous_time = ok tt
  validate_from (e ∷ events) previous_sequence previous_time = do
    t ← instant (timestamp e.observed_at)
    require (not (repeats previous_sequence e.sequence)) sequence_order
    require (not (turns_back previous_time t)) timestamp_order
    require (leb t current) future_event
    validate_from events (some e.sequence) (some t)

  unfoldable pub validate_event_order : List NccEvent → Result ReconciliationError (Unit {0})
  unfolding validate_from
  validate_event_order events = validate_from events none none

  -- Events with strictly increasing numbers and instants that do not decrease, up to the current one.
  abbrev pub Ordered : Option ℕ → Option ℕ → List NccEvent → Type 0
  Ordered n t [] = Unit
  Ordered n t (e ∷ events) =
      (at : ℕ) × (timestamp e.observed_at ≡ some at)
      × Above n e.sequence
      × NotBefore t at
      × (at ≤ current)
      × Ordered (some e.sequence) (some at) events

  abbrev checked :
      Option ℕ
      → Option ℕ
      → ℕ
      → (ℕ → Result ReconciliationError (Unit {0}))
      → ℕ
      → Result ReconciliationError (Unit {0})
  checked p q n rest t =
      require (not (repeats p n)) sequence_order
      >> (require (not (turns_back q t)) timestamp_order
          >> (require (leb t current) future_event >> rest t))

  passes-Above : (p : Option ℕ) (n : ℕ) → (not (repeats p n) ≡ true) ↔ Above p n
  passes-Above none n = (λ _. tt, λ _. refl)
  passes-Above (some m) n = ground arith

  passes-NotBefore : (q : Option ℕ) (t : ℕ) → (not (turns_back q t) ≡ true) ↔ NotBefore q t
  passes-NotBefore none t = (λ _. tt, λ _. refl)
  passes-NotBefore (some m) t = ground arith

  checked-passes :
      (p q : Option ℕ) (n : ℕ) (rest : ℕ → Result ReconciliationError (Unit {0})) (t : ℕ)
      → Above p n
      → NotBefore q t
      → t ≤ current
      → checked p q n rest t ≡ rest t
  checked-passes p q n rest t a b c =
      rw ((passes-Above p n).1 a, (passes-NotBefore q t).1 b, le→leb t current c)

  instant-ok :
      (o : Option ℕ) (f : ℕ → Result ReconciliationError (Unit {0}))
      → (instant o >>= f) ≡ ok tt
      → (t : ℕ) × (o ≡ some t) × (f t ≡ ok tt)
  instant-ok none f h = cc
  instant-ok (some t) f h = (t, refl, h)

  validate→Ordered :
      (events : List NccEvent) (p q : Option ℕ)
      → validate_from events p q ≡ ok tt
      → Ordered p q events
  unfolding validate_from
  validate→Ordered [] p q h = tt
  validate→Ordered (e ∷ events) p q h =
      let rest = λ (t : ℕ). validate_from events (some e.sequence) (some t) in
      let (t, read, h') = instant-ok (timestamp e.observed_at) (checked p q e.sequence rest) h in
      let (a, b, c, k) =
        require_three-eq-ok (not (repeats p e.sequence)) (not (turns_back q t)) (leb t current)
          sequence_order timestamp_order future_event (rest t) h' in
      (
        t,
        read,
        (passes-Above p e.sequence).0 a,
        (passes-NotBefore q t).0 b,
        leb→le t current c,
        validate→Ordered events (some e.sequence) (some t) k,
      )

  Ordered→validate :
      (events : List NccEvent) (p q : Option ℕ)
      → Ordered p q events
      → validate_from events p q ≡ ok tt
  unfolding validate_from
  Ordered→validate [] p q h = refl
  Ordered→validate (e ∷ events) p q (t, read, a, b, c, h) =
      let rest = λ (u : ℕ). validate_from events (some e.sequence) (some u) in
      ap (λ o. instant o >>= checked p q e.sequence rest) read
      ∙ checked-passes p q e.sequence rest t a b c
      ∙ Ordered→validate events (some e.sequence) (some t) h

  -- The events pass exactly when every timestamp can be read, the numbers increase strictly, the
  -- instants do not decrease and none is after the current one.
  pub validate_event_order-Ordered :
      (events : List NccEvent) → (validate_event_order events ≡ ok tt) ↔ Ordered none none events
  unfolding validate_event_order
  validate_event_order-Ordered events =
      (validate→Ordered events none none, Ordered→validate events none none)
