-- ===== src/History/Replay.antt =====
-- What the replay knows after an event.
use arpanet_redux.Prelude.{
  suc, ◌≡◌, refl, sym, ap, ◌∙◌, Bool, true, false, Option, none, some, List, [], ◌∷◌, ◌++◌, length,
  if◌then◌else◌,
}
use arpanet_redux.Events.{NccEvent, Subject, EventState}
use arpanet_redux.History.{
  HistoricalReplayFrame, same_subject, set_state, replay_from, replay_historical_event_stream,
}
use arpanet_redux.Reconcile.Observe.{first_some}

-- The state of a subject in the last event about it.
abbrev pub latest : List NccEvent → Subject → Option EventState
latest [] k = none
latest (e ∷ es) k =
    first_some (latest es k) (if same_subject e.subject k then some e.state else none)

first_some-none : (o : Option EventState) → first_some o none ≡ o
first_some-none none = refl
first_some-none (some a) = refl

first_some_assoc :
    (a b c : Option EventState) → first_some (first_some a b) c ≡ first_some a (first_some b c)
first_some_assoc none b c = refl
first_some_assoc (some a) b c = refl

if-first_some :
    (b : Bool) (state : EventState) (known : Option EventState)
    → (if b then some state else known) ≡ first_some (if b then some state else none) known
if-first_some true state known = refl
if-first_some false state known = refl

-- The frame of an event, among those of the events before and after it.
replay_from-frame :
    (xs ys : List NccEvent) (e : NccEvent) (known : Subject → Option EventState)
    → (before : List HistoricalReplayFrame) × ((after : List HistoricalReplayFrame)
        × ((frame : HistoricalReplayFrame) × (replay_from (xs ++ (e ∷ ys)) known
              ≡ before ++ (frame ∷ after))
            × (length before ≡ length xs)
            × (frame.event ≡ e)
            × ((k : Subject)
                → frame.known_states k ≡ first_some (latest (xs ++ (e ∷ [])) k) (known k))))
unfolding replay_from
replay_from-frame [] ys e known =
    let now = set_state known e.subject e.state in
    (
      [],
      (
        replay_from ys now,
        (
          record { event = e; known_states = now },
          refl,
          refl,
          refl,
          λ k. if-first_some (same_subject e.subject k) e.state (known k),
        ),
      ),
    )
replay_from-frame (x ∷ xs) ys e known =
    let now = set_state known x.subject x.state in
    let (before, (after, (frame, a, b, c, d))) = replay_from-frame xs ys e now in
    (
      record { event = x; known_states = now } ∷ before,
      (
        after,
        (
          frame,
          ap (λ fs. record { event = x; known_states = now } ∷ fs) a,
          ap suc b,
          c,
          λ k.
              d k
              ∙ ap (λ o. first_some (latest (xs ++ (e ∷ [])) k) o)
                  (if-first_some (same_subject x.subject k) x.state (known k))
              ∙ sym (
                  first_some_assoc (latest (xs ++ (e ∷ [])) k)
                    (if same_subject x.subject k then some x.state else none) (known k)),
        ),
      ),
    )

-- The replay has one frame for each event, in their order, and the frame of an event knows, for every
-- subject, the state in the last event about it up to there, and of other subjects nothing.
pub replay_historical_event_stream-latest :
    (xs ys : List NccEvent) (e : NccEvent)
    → (before : List HistoricalReplayFrame) × ((after : List HistoricalReplayFrame)
        × ((frame : HistoricalReplayFrame) × (replay_historical_event_stream (xs ++ (e ∷ ys))
              ≡ before ++ (frame ∷ after))
            × (length before ≡ length xs)
            × (frame.event ≡ e)
            × ((k : Subject) → frame.known_states k ≡ latest (xs ++ (e ∷ [])) k)))
unfolding replay_historical_event_stream
replay_historical_event_stream-latest xs ys e =
    let (before, (after, (frame, a, b, c, d))) = replay_from-frame xs ys e (λ _. none) in
    (before, (after, (frame, a, b, c, λ k. d k ∙ first_some-none (latest (xs ++ (e ∷ [])) k))))
