-- ===== src/Tests/Reducer.antt =====
-- The reducer as a whole, on the topology of two lines and two events.
use arpanet_redux.Prelude.{
  ℕ, ◌≡◌, refl, sym, ap, subst, ◌∙◌, true, none, some, List, [], ◌∷◌, ◌++◌, append-nil, ok,
  ok-injective, arith,
}
use arpanet_redux.Events
use arpanet_redux.Events.{NccEvent, trouble_report_events}
use arpanet_redux.Events.Laws.{trouble_source, trouble_report_events-IsEvents}
use arpanet_redux.Report.Trouble.{trouble_report, host_up}
use arpanet_redux.Reconcile.{DirectState, EndpointObservation, Reconciliation}
use arpanet_redux.Reconcile.Observe.{Observed, nothing_observed, set_end, observe, find_end}
use arpanet_redux.Reconcile.Observe.Latest.{Observes, IsAbout, observe-latest}
use arpanet_redux.Reconcile.Order.{Ordered}
use arpanet_redux.Reconcile.Reduce.{reconcile}
use arpanet_redux.Reconcile.Reduce.Reported.{
  AreReported, nothing, reported, Numbered-Ordered, reconcile-reported,
}
use arpanet_redux.Reconcile.Topology.{nominal_topology, nominal_line, imps}
use arpanet_redux.Tests.Reduction.{line_one, line_two, nominal_lines, ends_apart, sample_instant}
use arpanet_redux.Tests.Samples.{trouble_words}

abbrev far_down : ℕ → ℕ → ℕ → NccEvent
far_down n i interface = record {
  sequence = n;
  observed_at = "1973-01-01T00:00:00Z";
  event_type = Events.line_endpoint_state;
  subject = Events.line i interface;
  state = Events.down;
  source = record { kind = Events.imp_trouble_report; imp = i };
  details = Events.empty;
  version = 1;
}

abbrev two_events : List NccEvent
two_events = far_down 7 3 2 ∷ far_down 8 2 1 ∷ []

abbrev far_seen : ℕ → ℕ → ℕ → EndpointObservation
far_seen n i interface = record {
  event = far_down n i interface;
  observed_at = 90;
  state = DirectState.down;
  matches_topology = true;
}

abbrev gathered : Observed
gathered =
    set_end (set_end nothing_observed line_two.first (far_seen 7 3 2)) line_one.second
      (far_seen 8 2 1)

events_gathered : observe sample_instant nominal_lines two_events nothing_observed ≡ ok gathered
unfolding observe
events_gathered = refl

topology_accepted : nominal_topology nominal_lines ≡ ok nominal_lines
unfolding nominal_topology
topology_accepted = refl

line_accepted : nominal_line "a" line_one.first line_one.second ≡ ok line_one
unfolding nominal_line
line_accepted = refl

imps_in_order : imps nominal_lines ≡ 1 ∷ 2 ∷ 3 ∷ []
unfolding imps
imps_in_order = refl

IsAbout-second : IsAbout nominal_lines (far_down 8 2 1) line_one.second
unfolding find_end
IsAbout-second = (refl, (line_one, refl))

observe-latest_example :
    (o : EndpointObservation) × (gathered.ends line_one.second ≡ some o)
    × Observes sample_instant nominal_lines (far_down 8 2 1) line_one.second o
observe-latest_example =
    observe-latest sample_instant nominal_lines (far_down 7 3 2 ∷ []) [] (far_down 8 2 1)
      line_one.second nothing_observed gathered events_gathered IsAbout-second tt

sample_made :
    (es : List NccEvent) × (trouble_report_events
        (trouble_report trouble_words)
        6
        "1973-01-01T00:00:00Z"
        1
      ≡ ok es)
unfolding trouble_report_events trouble_report host_up
sample_made = (_, refl)

sample-AreReported : AreReported sample_instant (sample_made.0 ++ [])
sample-AreReported =
    reported (trouble_report trouble_words) 6 90 1 "1973-01-01T00:00:00Z" (λ h. omega (arith, h))
      refl sample_made.1 nothing

sample-Ordered : Ordered sample_instant 90 none none (sample_made.0 ++ [])
sample-Ordered =
    let (es, made, is) =
      trouble_report_events-IsEvents (trouble_report trouble_words) 6 "1973-01-01T00:00:00Z" 1
        (λ h. omega (arith, h)) in
    let same : es ++ [] ≡ sample_made.0 ++ [] =
      ap (λ l. l ++ []) (ok-injective (sym made ∙ sample_made.1)) in
    subst (Ordered sample_instant 90 none none) same (
      subst (Ordered sample_instant 90 none none) (sym (append-nil es)) (
        Numbered-Ordered sample_instant (trouble_source 6) "1973-01-01T00:00:00Z" 90 90 1 es none
          none refl (omega arith) is.numbered is.from_one tt tt))

reconcile-reported_example :
    (r : Reconciliation) × (reconcile sample_instant nominal_lines
        (sample_made.0 ++ [])
        "1973-01-01T00:00:00Z"
        "1973-01-01T00:00:00Z"
        60
      ≡ ok r)
reconcile-reported_example =
    reconcile-reported sample_instant nominal_lines (sample_made.0 ++ []) "1973-01-01T00:00:00Z"
      "1973-01-01T00:00:00Z" 90 90 60 topology_accepted ends_apart refl refl (omega arith)
      (λ h. omega (arith, h)) sample-AreReported sample-Ordered
