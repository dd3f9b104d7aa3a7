-- ===== src/Tests/Reduction.antt =====
-- The reducer on IMP 1, which is joined to IMPs 2 and 3, both of which report their end down.
use arpanet_redux.Prelude.{
  ℕ, ◌≡◌, ◌≢◌, refl, true, ◌↔◌, Option, none, some, List, [], ◌∷◌, if◌then◌else◌, ok, ◌==◌, All,
  String, arith,
}
use arpanet_redux.Events
use arpanet_redux.Events.{NccEvent}
use arpanet_redux.Reconcile.{
  LineState, ImpState, DirectState, Endpoint, NominalLine, minus_endpoint, plus_endpoint,
  EndpointObservation, ReconciledEndpoint, incident_lines,
}
use arpanet_redux.Reconcile.Conditions.{line_condition, reconcile_endpoint, reconcile_line}
use arpanet_redux.Reconcile.Reachability.{reconcile_imp}
use arpanet_redux.Reconcile.Lines.{
  Condition, line_in, reconciled, reconcile_line-Condition, reconcile_line-total,
}
use arpanet_redux.Reconcile.Order.{Ordered, validate_event_order, validate_event_order-Ordered}
use arpanet_redux.Reconcile.Mirror.{mirrored, line_condition-mirror}
use arpanet_redux.Reconcile.Reachability.Independent.{
  Independent, Judgement, reconcile_imp-ByNeighbors,
}

abbrev pub line_one : NominalLine
line_one = record {
  id = "a";
  first = record { imp = 1; interface = 1 };
  second = record { imp = 2; interface = 1 };
}

abbrev pub line_two : NominalLine
line_two = record {
  id = "b";
  first = record { imp = 3; interface = 2 };
  second = record { imp = 1; interface = 2 };
}

abbrev pub down_event : ℕ → ℕ → NccEvent
down_event n i = record {
  sequence = n;
  observed_at = "1973-01-01T00:00:00Z";
  event_type = Events.line_endpoint_state;
  subject = Events.line i 1;
  state = Events.down;
  source = record { kind = Events.imp_trouble_report; imp = i };
  details = Events.empty;
  version = 1;
}

abbrev down_seen : ℕ → ℕ → EndpointObservation
down_seen n i = record {
  event = down_event n i;
  observed_at = 90;
  state = DirectState.down;
  matches_topology = true;
}

-- IMPs 2 and 3 have reported; IMP 1 has not.
abbrev seen : Endpoint → Option EndpointObservation
seen e =
    if e.imp == 2 then some (down_seen 8 2) else if e.imp == 3 then some (down_seen 7 3) else none

abbrev pub nominal_lines : List NominalLine
nominal_lines = line_one ∷ line_two ∷ []

one_partitioned :
    reconcile_imp 1 nominal_lines seen none 0 100 60
    ≡ ok (record { imp = 1; state = ImpState.partitioned; supporting_sequences = 7 ∷ 8 ∷ [] })
unfolding reconcile_imp
one_partitioned = refl

pub ends_apart : All (λ l. l.first.imp ≢ l.second.imp) nominal_lines
ends_apart = (omega arith, (omega arith, tt))

neighbors_differ : Independent 1 (incident_lines nominal_lines 1)
neighbors_differ = ((omega arith, tt), (tt, tt))

reconcile_imp-ByNeighbors_example :
    Judgement 1 nominal_lines seen none 0 100 60 (reconcile_imp 1 nominal_lines seen none 0 100 60)
reconcile_imp-ByNeighbors_example =
    reconcile_imp-ByNeighbors 1 nominal_lines seen none 0 100 60 ends_apart neighbors_differ

-- The line to IMP 2 has one end that was never reported.
half_line : reconciled 100 60 line_one seen ≡ some (line_in 100 60 line_one seen LineState.unknown)
unfolding reconcile_line reconcile_endpoint line_condition
half_line = refl

reconcile_line-Condition_example :
    (reconciled 100 60 line_one seen ≡ some (line_in 100 60 line_one seen LineState.unknown))
    ↔ Condition 100 60
        (seen (minus_endpoint line_one))
        (seen (plus_endpoint line_one))
        LineState.unknown
reconcile_line-Condition_example = reconcile_line-Condition 100 60 line_one seen LineState.unknown

reconcile_line-total_example :
    (s : LineState) × (reconciled 100 60 line_one seen ≡ some (line_in 100 60 line_one seen s))
    × Condition 100 60 (seen (minus_endpoint line_one)) (seen (plus_endpoint line_one)) s
reconcile_line-total_example = reconcile_line-total 100 60 line_one seen

abbrev end_in : DirectState → ReconciledEndpoint
end_in d =
    reconcile_endpoint line_one (record { imp = 1; interface = 1 })
      (some (record (down_seen 7 1) { state = d })) 100 60

line_condition-mirror_example :
    line_condition (end_in DirectState.up) (end_in DirectState.down)
    ≡ mirrored (line_condition (end_in DirectState.down) (end_in DirectState.up))
line_condition-mirror_example =
    line_condition-mirror (end_in DirectState.down) (end_in DirectState.up)

-- The one timestamp of the sample events, read as an instant.
abbrev pub sample_instant : String → Option ℕ
sample_instant text = some 90

abbrev both_events : List NccEvent
both_events = down_event 7 3 ∷ down_event 8 2 ∷ []

validate_event_order-Ordered_example :
    (validate_event_order sample_instant 100 both_events ≡ ok tt)
    ↔ Ordered sample_instant 100 none none both_events
validate_event_order-Ordered_example = validate_event_order-Ordered sample_instant 100 both_events

events_in_order : validate_event_order sample_instant 100 both_events ≡ ok tt
unfolding validate_event_order
events_in_order = refl
