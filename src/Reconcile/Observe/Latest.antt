-- ===== src/Reconcile/Observe/Latest.antt =====
-- Of an end of a line, the loop keeps the observation of the last event about it.
use arpanet_redux.Prelude.{
  ℕ, ◌≡◌, ◌≢◌, refl, sym, ap, ◌∙◌, Option, none, some, List, [], ◌∷◌, ◌++◌, String, ok, ◌>>=◌,
  >>=-eq-ok, All, inl, inr, arith, ok-injective, Option-cases,
}
use arpanet_redux.Events.{NccEvent, EventType}
use arpanet_redux.Reconcile.{DirectState, Endpoint, NominalLine, EndpointObservation}
use arpanet_redux.Reconcile.Observe.{
  Observed, direct_state, matches_expected_peer, reported_peer, find_end, set_end, observe_end,
  observe_report, observe_by, observe, validate_endpoint_event,
}
use arpanet_redux.Reconcile.Order.{instant}
use arpanet_redux.Reconcile.Topology.Laws.{same_endpoint_iff}

-- The event is about the end of a line of the topology.
abbrev pub IsAbout : List NominalLine → NccEvent → Endpoint → Type 0
IsAbout lines e end =
    (e.event_type ≡ EventType.line_endpoint_state)
    × ((l : NominalLine) × (find_end lines e.subject ≡ some (l, end)))

module _ (timestamp : String → Option ℕ) (lines : List NominalLine) where
  -- An observation made of the event, at the end.
  pub record Observes (e : NccEvent) (end : Endpoint) (o : EndpointObservation) : Type 0 where
    pub event : o.event ≡ e
    pub instant : timestamp e.observed_at ≡ some o.observed_at
    pub direct : direct_state e.state ≡ some o.state
    pub source : e.source.imp ≡ end.imp

  supported-eq-ok :
      (e : NccEvent) (end : Endpoint) (d : DirectState)
      → validate_endpoint_event e end ≡ ok d
      → (direct_state e.state ≡ some d) × (e.source.imp ≡ end.imp)
  unfolding validate_endpoint_event
  supported-eq-ok e end d h = ground arith

  instant-eq-ok : (o : Option ℕ) (t : ℕ) → instant o ≡ ok t → o ≡ some t
  instant-eq-ok none t h = cc
  instant-eq-ok (some u) t h = cc

  observe_end-Observes :
      (e : NccEvent) (l : NominalLine) (end : Endpoint) (seen next : Observed)
      → observe_end timestamp lines e (some (l, end)) seen ≡ ok next
      → (o : EndpointObservation) × (next ≡ set_end seen end o) × Observes e end o
  unfolding observe_end
  observe_end-Observes e l end seen next h =
      let (d, valid, h1) = >>=-eq-ok (validate_endpoint_event e end) _ h in
      let (t, read, h2) = >>=-eq-ok (instant (timestamp e.observed_at)) _ h1 in
      let (m, matched, h3) =
        >>=-eq-ok (matches_expected_peer d (reported_peer e.details) l end) _ h2 in
      let (direct, source) = supported-eq-ok e end d valid in
      (
        record { event = e; observed_at = t; state = d; matches_topology = m },
        sym (ok-injective h3),
        record {
          event = refl;
          instant = instant-eq-ok (timestamp e.observed_at) t read;
          direct = direct;
          source = source;
        },
      )

  observe_report-ends :
      (e : NccEvent) (seen next : Observed)
      → observe_report timestamp lines e seen ≡ ok next
      → next.ends ≡ seen.ends
  unfolding observe_report
  observe_report-ends e seen next h = ground arith

  observe_end-none :
      (e : NccEvent) (seen next : Observed)
      → observe_end timestamp lines e none seen ≡ ok next
      → next ≡ seen
  unfolding observe_end
  observe_end-none e seen next h = cc

  set_end-other :
      (seen : Observed) (end k : Endpoint) (o : EndpointObservation)
      → end ≢ k
      → (set_end seen end o).ends k ≡ seen.ends k
  set_end-other seen end k o apart = ground (arith, same_endpoint_iff end k)

  set_end-same :
      (seen : Observed) (k : Endpoint) (o : EndpointObservation)
      → (set_end seen k o).ends k ≡ some o
  set_end-same seen k o = ground (arith, same_endpoint_iff k k)

  -- An event that is about another end, or about none, leaves the observation of the end alone.
  next-other :
      (e : NccEvent) (k : Endpoint) (y : EventType) (seen next : Observed)
      → ((y ≡ EventType.line_endpoint_state)
          → (l : NominalLine) → find_end lines e.subject ≢ some (l, k))
      → observe_by timestamp lines y e seen ≡ ok next
      → next.ends k ≡ seen.ends k
  next-other e k EventType.imp_report seen next apart h =
      ap (λ f. f k) (observe_report-ends e seen next h)
  next-other e k EventType.line_endpoint_state seen next apart h =
      let by =
        λ (found : Option (NominalLine × Endpoint)). observe_end timestamp lines e found seen in
      elim (Option-cases (find_end lines e.subject)) [
        | inl missing ↦ ap (λ s. s.ends k) (observe_end-none e seen next (sym (ap by missing) ∙ h))
        | inr ((l, end), found) ↦
            let (o, q, _) = observe_end-Observes e l end seen next (sym (ap by found) ∙ h) in
            ap (λ s. s.ends k) q
            ∙ set_end-other seen end k o (λ same. apart refl l (found ∙ ap (λ x. some (l, x)) same))
      ]
  next-other e k EventType.host_interface_state seen next apart h = cc
  next-other e k EventType.throughput_report seen next apart h = cc
  next-other e k (EventType.other name) seen next apart h = cc

  next-about :
      (e : NccEvent) (k : Endpoint) (seen next : Observed)
      → IsAbout lines e k
      → observe_by timestamp lines e.event_type e seen ≡ ok next
      → (o : EndpointObservation) × (next.ends k ≡ some o) × Observes e k o
  next-about e k seen next (p, (l, found)) h =
      let by = λ (y : EventType). observe_by timestamp lines y e seen in
      let at = λ (f : Option (NominalLine × Endpoint)). observe_end timestamp lines e f seen in
      let (o, q, v) =
        observe_end-Observes e l k seen next (sym (ap at found) ∙ sym (ap by p) ∙ h) in
      (o, ap (λ s. s.ends k) q ∙ set_end-same seen k o, v)

  others :
      (events : List NccEvent) (k : Endpoint) (seen final : Observed)
      → All (λ e. ¬ IsAbout lines e k) events
      → observe timestamp lines events seen ≡ ok final
      → final.ends k ≡ seen.ends k
  unfolding observe
  others [] k seen final a h = ap (λ s. s.ends k) (sym (ok-injective h))
  others (e ∷ events) k seen final (apart, a) h =
      let (next, one, rest) = >>=-eq-ok (observe_by timestamp lines e.event_type e seen) _ h in
      others events k next final a rest
      ∙ next-other e k e.event_type seen next (λ p l found. apart (p, (l, found))) one

  observe-append :
      (xs ys : List NccEvent) (seen final : Observed)
      → observe timestamp lines (xs ++ ys) seen ≡ ok final
      → (next : Observed) × (observe timestamp lines xs seen ≡ ok next)
        × (observe timestamp lines ys next ≡ ok final)
  unfolding observe
  observe-append [] ys seen final h = (seen, refl, h)
  observe-append (e ∷ xs) ys seen final h =
      let (next, one, rest) = >>=-eq-ok (observe_by timestamp lines e.event_type e seen) _ h in
      let (middle, first, last) = observe-append xs ys next final rest in
      (middle, ap (λ r. r >>= observe timestamp lines xs) one ∙ first, last)

  -- When the loop has gone through the events, the observation of an end is that of the last event
  -- about it: from its time, its state and the IMP of the end.
  pub observe-latest :
      (before after : List NccEvent) (e : NccEvent) (k : Endpoint) (seen final : Observed)
      → observe timestamp lines (before ++ (e ∷ after)) seen ≡ ok final
      → IsAbout lines e k
      → All (λ f. ¬ IsAbout lines f k) after
      → (o : EndpointObservation) × (final.ends k ≡ some o) × Observes e k o
  unfolding observe
  observe-latest before after e k seen final h about apart =
      let (middle, _, last) = observe-append before (e ∷ after) seen final h in
      let (next, one, rest) = >>=-eq-ok (observe_by timestamp lines e.event_type e middle) _ last in
      let (o, q, v) = next-about e k middle next about one in
      (o, others after k next final apart rest ∙ q, v)
