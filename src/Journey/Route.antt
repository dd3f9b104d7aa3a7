-- ===== src/Journey/Route.antt =====
-- `_route_boundaries` and `_boundaries_for_crossings` of ncc/message_journey.py: the interfaces that a
-- message crosses on a route and back. Of the shared topology it has the parts that are read here. The
-- identifiers of a topology that was accepted pass the checks of a boundary, which are left out.
pub mod Mirror
use arpanet_redux.Prelude.{
  ℕ, ◌+◌, Bool, true, false, not, ◌&&◌, ◌||◌, Option, none, some, List, [], ◌∷◌, ◌++◌, map, String,
  if◌then◌else◌, Result, ok, err, ◌>>=◌, ◌>>◌, require, same_text,
}
use mathlib.Core.List.{reverse}
use arpanet_redux.Identifier.{contains_text}
use arpanet_redux.Journey.{
  BoundaryDirection, ingress, egress, JourneyLeg, JourneyValidationError, no_route,
  repeated_component, unknown_component, not_linked, not_bound, bad_topology, boundary,
  ExpectedBoundary,
}
use arpanet_redux.Topology.{
  Link, Route, NormalizedTopology, TopologyError, TopologyIds, owner, same_pair, contains_pair,
  validate_topology,
}

-- The endpoints of the host bindings (IMP and host) and of the modem bindings (first and second).
pub record SharedTopology : Type 0 where
  pub id : String
  pub topology : NormalizedTopology
  pub interfaces : List (String × String)
  pub modem_interfaces : List (String × String)

abbrev pub journey_topology :
    Result TopologyError TopologyIds → Result JourneyValidationError TopologyIds
journey_topology (ok ids) = ok ids
journey_topology (err e) = err bad_topology

-- `_validated_topology`
unfoldable pub validated_topology : SharedTopology → Result JourneyValidationError TopologyIds
validated_topology t = journey_topology (validate_topology t.topology)

-- `next(item for item in routes if item["id"] == route_id)`
unfoldable pub find_route : List Route → String → Result JourneyValidationError (List String)
find_route [] id = err no_route
find_route (r ∷ rs) id = if same_text r.id id then ok r.components else find_route rs id

-- `len(set(component_path)) != len(component_path)`
abbrev pub repeats_component : List String → Bool
repeats_component [] = false
repeats_component (c ∷ cs) = contains_text c cs || repeats_component cs

abbrev pub all_known : List String → List String → Bool
all_known [] ids = true
all_known (c ∷ cs) ids = contains_text c ids && all_known cs ids

pub record Crossing : Type 0 where
  pub first_component : String
  pub first_endpoint : String
  pub second_component : String
  pub second_endpoint : String

-- One entry of `links_by_components`, if the link joins the two components.
abbrev pub if_owned :
    Option String → Option String → String × String → String × String → List (String × String)
if_owned (some c) (some d) pair ends = if same_pair (c, d) pair then ends ∷ [] else []
if_owned none d pair ends = []
if_owned (some c) none pair ends = []

abbrev pub ends_between :
    List (String × String) → List String → String × String → List (String × String)
ends_between owners (x ∷ y ∷ []) pair = if_owned (owner x owners) (owner y owners) pair (x, y)
ends_between owners [] pair = []
ends_between owners (x ∷ []) pair = []
ends_between owners (x ∷ y ∷ z ∷ rest) pair = []

-- `links_by_components.get(...)` at the two components.
unfoldable pub links_between :
    List (String × String) → List Link → String × String → List (String × String)
links_between owners [] pair = []
links_between owners (l ∷ ls) pair =
    ends_between owners l.endpoints pair ++ links_between owners ls pair

abbrev pub owned_by : Option String → String → Bool
owned_by none c = false
owned_by (some d) c = same_text d c

-- The two endpoints with that of the first component in front.
abbrev pub orient : List (String × String) → String → String × String → String × String
orient owners first (x, y) = if not (owned_by (owner x owners) first) then (y, x) else (x, y)

abbrev pub only_link : List (String × String) → Result JourneyValidationError (String × String)
only_link [] = err not_linked
only_link (ends ∷ []) = ok ends
only_link (a ∷ b ∷ rest) = err not_linked

unfoldable pub crossing :
    List (String × String)
    → List Link
    → List (String × String)
    → String
    → String
    → Result JourneyValidationError Crossing
unfolding links_between
crossing owners links bound first second = do
  ends ← only_link (links_between owners links (first, second))
  let placed = orient owners first ends
  require (contains_pair placed bound) not_bound
  ok (record {
    first_component = first;
    first_endpoint = placed.0;
    second_component = second;
    second_endpoint = placed.1;
  })

-- The loop over neighbors on the path.
unfoldable pub path_crossings :
    List (String × String)
    → List Link
    → List (String × String)
    → List String
    → Result JourneyValidationError (List Crossing)
unfolding crossing
path_crossings owners links bound [] = ok []
path_crossings owners links bound (a ∷ []) = ok []
path_crossings owners links bound (a ∷ b ∷ rest) = do
  c ← crossing owners links bound a b
  cs ← path_crossings owners links bound (b ∷ rest)
  ok (c ∷ cs)

abbrev pub boundary_at : JourneyLeg → ℕ → String → String → BoundaryDirection → ExpectedBoundary
boundary_at leg n component interface direction = record {
  id = boundary leg n;
  leg = leg;
  position = n;
  component_id = component;
  interface_id = interface;
  direction = direction;
}

-- `_boundaries_for_crossings`, `n` being `len(boundaries)`.
unfoldable pub boundaries_for_crossings : JourneyLeg → ℕ → List Crossing → List ExpectedBoundary
boundaries_for_crossings leg n [] = []
boundaries_for_crossings leg n (c ∷ cs) =
    boundary_at leg (n + 1) c.first_component c.first_endpoint egress
    ∷ boundary_at leg (n + 2) c.second_component c.second_endpoint ingress
    ∷ boundaries_for_crossings leg (n + 2) cs

abbrev pub turn : Crossing → Crossing
turn c = record {
  first_component = c.second_component;
  first_endpoint = c.second_endpoint;
  second_component = c.first_component;
  second_endpoint = c.first_endpoint;
}

unfoldable pub route_boundaries :
    SharedTopology → String → Result JourneyValidationError (List ExpectedBoundary)
route_boundaries t route_id = do
  ids ← validated_topology t
  require (contains_text route_id ids.route_ids) no_route
  path ← find_route t.topology.routes route_id
  require (not (repeats_component path)) repeated_component
  require (all_known path ids.component_ids) unknown_component
  crossings ←
      path_crossings ids.endpoint_owners t.topology.links (t.interfaces ++ t.modem_interfaces) path
  ok (
      boundaries_for_crossings JourneyLeg.request 0 crossings
      ++ boundaries_for_crossings JourneyLeg.reply 0 (map turn (reverse crossings)))
