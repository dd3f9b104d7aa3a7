-- ===== src/Receiver/Each.antt =====
-- A predicate of every event that a run records, from the events of the two kinds of reports.
use arpanet_redux.Prelude.{
  ℕ, ◌+◌, ◌≡◌, subst, List, [], ◌∷◌, String, ◌==◌, Bool-cases, Result-cases, inl, inr, ok,
  >>=-eq-ok, ok-injective, length, All, All-append,
}
use arpanet_redux.Report.Trouble.{is_trouble_report_type}
use arpanet_redux.Report.Throughput.{throughput_report_type}
use arpanet_redux.Host.Ingress.{IngressMessage}
use arpanet_redux.Events.{NccEvent}
use arpanet_redux.Leader.{
  decode_imp_to_host_message, trouble_report_events_from_imp_to_host_message,
  throughput_report_events_from_imp_to_host_message,
}
use arpanet_redux.Receiver.{body_events, message_events, report_events}

module _ (Holds : NccEvent → Type 0)
    (trouble : (m : IngressMessage) (at : String) (next : ℕ) (es : List NccEvent)
      → trouble_report_events_from_imp_to_host_message m at next ≡ ok es
      → All Holds es)
    (throughput : (m : IngressMessage) (at : String) (next : ℕ) (es : List NccEvent)
      → throughput_report_events_from_imp_to_host_message m at next ≡ ok es
      → All Holds es) where
  body_events-All :
      (ws : List ℕ) (m : IngressMessage) (at : String) (next : ℕ) (es : List NccEvent)
      → body_events ws m at next ≡ ok es
      → All Holds es
  unfolding body_events
  body_events-All [] m at next es h = subst (All Holds) (ok-injective h) tt
  body_events-All (code ∷ ws) m at next es h = elim (Bool-cases (is_trouble_report_type code)) [
    | inl t ↦ trouble m at next es (rw t at h)
    | inr f ↦ elim (Bool-cases (code == throughput_report_type)) [
      | inl t ↦ throughput m at next es (rw (f, t) at h)
      | inr g ↦ subst (All Holds) (ok-injective (rw (f, g) at h)) tt
    ]
  ]

  message_events-All :
      (m : IngressMessage) (at : String) (next : ℕ) (es : List NccEvent)
      → message_events m at next ≡ ok es
      → All Holds es
  unfolding message_events
  message_events-All m at next es h = elim (Result-cases (decode_imp_to_host_message m)) [
    | inl (d, q) ↦ body_events-All d.body_words m at next es (rw q at h)
    | inr (x, q) ↦ subst (All Holds) (ok-injective (rw q at h)) tt
  ]

  pub report_events-All :
      (ms : List (IngressMessage × String)) (next : ℕ) (es : List NccEvent)
      → report_events ms next ≡ ok es
      → All Holds es
  unfolding report_events
  report_events-All [] next es h = subst (All Holds) (ok-injective h) tt
  report_events-All ((m, at) ∷ ms) next es h =
      let (xs, e, h') = >>=-eq-ok (message_events m at next) _ h in
      let (ys, e', h'') = >>=-eq-ok (report_events ms (next + length xs)) _ h' in
      subst (All Holds) (ok-injective h'') (
        All-append Holds xs ys
          (message_events-All m at next xs e, report_events-All ms (next + length xs) ys e'))
