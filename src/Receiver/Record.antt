-- ===== src/Receiver/Record.antt =====
-- The record that a run of the receiver makes.
use arpanet_redux.Prelude.{
  ℕ, ◌+◌, ◌<◌, ◌≡◌, inl, inr, refl, sym, ◌∙◌, subst, true, List, [], ◌∷◌, String, ◌==◌, Bool-cases,
  Result-cases, not, Result, ok, err, >>=-eq-ok, ok-injective, length, All, All-append, arith,
}
use arpanet_redux.Report.Trouble.{is_trouble_report_type}
use arpanet_redux.Report.Throughput.{throughput_report_type, ThroughputReport}
use arpanet_redux.Host.Ingress.{IngressMessage}
use arpanet_redux.Events.{NccEvent, EventError, throughput_report_events}
use arpanet_redux.Events.Laws.{
  Numbered, Numbered-append, IsFrom, trouble_source, trouble_report_events-IsEvents,
}
use arpanet_redux.Leader.{
  decode_imp_to_host_message, pass_on, decode_trouble_report_imp_to_host_message,
  decode_throughput_report_imp_to_host_message, trouble_report_events_from_imp_to_host_message,
  throughput_report_events_from_imp_to_host_message,
}
use arpanet_redux.Leader.Messages.Trouble.{decode_trouble_report_imp_to_host_message-accepts}
use arpanet_redux.Leader.Messages.Throughput.{decode_throughput_report_imp_to_host_message-accepts}
use arpanet_redux.Receiver.{body_events, message_events, report_events}

-- An event that names its source: an IMP number that the leader can carry, and not 0.
abbrev pub IsSourced : NccEvent → Type 0
IsSourced e = (0 < e.source.imp) × (e.source.imp < 64)

abbrev pub IsRecord : ℕ → List NccEvent → Type 0
IsRecord next es = Numbered next es × All IsSourced es

pub pass_on-eq-ok :
    (r : Result EventError (List NccEvent)) (es : List NccEvent) → pass_on r ≡ ok es → r ≡ ok es
pass_on-eq-ok (ok x) es h = cc
pass_on-eq-ok (err x) es h = cc

All-IsSourced :
    (n : ℕ) (at : String) (es : List NccEvent)
    → 0 < n
    → n < 64
    → All (IsFrom (trouble_source n) at) es
    → All IsSourced es
All-IsSourced n at [] h k a = tt
All-IsSourced n at (e ∷ es) h k (a, rest) =
    ((ground arith, ground arith), All-IsSourced n at es h k rest)

trouble-IsRecord :
    (m : IngressMessage) (at : String) (next : ℕ) (es : List NccEvent)
    → trouble_report_events_from_imp_to_host_message m at next ≡ ok es
    → IsRecord next es
unfolding trouble_report_events_from_imp_to_host_message
trouble-IsRecord m at next es h =
    let (r, e, h') = >>=-eq-ok (decode_trouble_report_imp_to_host_message m) _ h in
    let c = (decode_trouble_report_imp_to_host_message-accepts m r).0 e in
    let n = r.message.leader.source_imp in
    let (xs, made, v) =
      trouble_report_events-IsEvents r.report n at next (omega (arith, c.reporting)) in
    let q : xs ≡ es = ok-injective (sym made ∙ pass_on-eq-ok _ es h') in
    subst (IsRecord next) q (
      v.numbered,
      All-IsSourced n at xs c.reporting.sourced c.splits.leader_fits.imp_fits v.from_one,
    )

throughput_events-IsRecord :
    (r : ThroughputReport) (n : ℕ) (at : String) (next : ℕ) (es : List NccEvent)
    → 0 < n
    → n < 64
    → throughput_report_events r n at next ≡ ok es
    → IsRecord next es
unfolding throughput_report_events
throughput_events-IsRecord r n at next es h k e =
    let t : not (n == 0) ≡ true = ground arith in
    subst (IsRecord next) (ok-injective (rw t at e)) ((refl, tt), ((h, k), tt))

throughput-IsRecord :
    (m : IngressMessage) (at : String) (next : ℕ) (es : List NccEvent)
    → throughput_report_events_from_imp_to_host_message m at next ≡ ok es
    → IsRecord next es
unfolding throughput_report_events_from_imp_to_host_message
throughput-IsRecord m at next es h =
    let (r, e, h') = >>=-eq-ok (decode_throughput_report_imp_to_host_message m) _ h in
    let c = (decode_throughput_report_imp_to_host_message-accepts m r).0 e in
    throughput_events-IsRecord r.report r.message.leader.source_imp at next es c.reporting.sourced
      c.splits.leader_fits.imp_fits (pass_on-eq-ok _ es h')

body-IsRecord :
    (ws : List ℕ) (m : IngressMessage) (at : String) (next : ℕ) (es : List NccEvent)
    → body_events ws m at next ≡ ok es
    → IsRecord next es
unfolding body_events
body-IsRecord [] m at next es h = subst (IsRecord next) (ok-injective h) (tt, tt)
body-IsRecord (code ∷ ws) m at next es h = elim (Bool-cases (is_trouble_report_type code)) [
  | inl t ↦ trouble-IsRecord m at next es (rw t at h)
  | inr f ↦ elim (Bool-cases (code == throughput_report_type)) [
    | inl t ↦ throughput-IsRecord m at next es (rw (f, t) at h)
    | inr g ↦ subst (IsRecord next) (ok-injective (rw (f, g) at h)) (tt, tt)
  ]
]

message-IsRecord :
    (m : IngressMessage) (at : String) (next : ℕ) (es : List NccEvent)
    → message_events m at next ≡ ok es
    → IsRecord next es
unfolding message_events
message-IsRecord m at next es h = elim (Result-cases (decode_imp_to_host_message m)) [
  | inl (d, q) ↦ body-IsRecord d.body_words m at next es (rw q at h)
  | inr (x, q) ↦ subst (IsRecord next) (ok-injective (rw q at h)) (tt, tt)
]

-- Whatever messages a run received: the events that it records are numbered one by one from the
-- first number on, across reports of both kinds and messages passed over, and each has a source
-- IMP from 1 to 63.
pub report_events-IsRecord :
    (ms : List (IngressMessage × String)) (next : ℕ) (es : List NccEvent)
    → report_events ms next ≡ ok es
    → IsRecord next es
unfolding report_events
report_events-IsRecord [] next es h = subst (IsRecord next) (ok-injective h) (tt, tt)
report_events-IsRecord ((m, at) ∷ ms) next es h =
    let (xs, e, h') = >>=-eq-ok (message_events m at next) _ h in
    let (ys, e', h'') = >>=-eq-ok (report_events ms (next + length xs)) _ h' in
    let (n, s) = message-IsRecord m at next xs e in
    let (n', s') = report_events-IsRecord ms (next + length xs) ys e' in
    subst (IsRecord next) (ok-injective h'')
      (Numbered-append next xs ys n n', All-append IsSourced xs ys (s, s'))
