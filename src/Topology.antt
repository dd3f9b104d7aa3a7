-- ===== src/Topology.antt =====
-- `_validate_topology` of ncc/run_summary.py, which `validate_normalized_topology` calls: the checks of
-- a nominal topology of components with their endpoints, links and routes. That the document has these
-- parts, with texts where texts belong, is in the types; the places on the map are left out.
pub mod Routes
use arpanet_redux.Prelude.{
  ℕ, Bool, true, false, not, ◌&&◌, ◌||◌, Option, none, some, List, [], ◌∷◌, ◌++◌, String, leb,
  if◌then◌else◌, length, Result, ok, err, ◌>>=◌, ◌>>◌, require, same_text, is_empty_text,
}
use arpanet_redux.Identifier.{is_identifier, contains_text}

pub record EndpointEntry : Type 0 where
  pub id : String
  pub label : String

pub record Component : Type 0 where
  pub id : String
  pub kind : String
  pub label : String
  pub endpoints : List EndpointEntry

pub record Link : Type 0 where
  pub id : String
  pub endpoints : List String

pub record Route : Type 0 where
  pub id : String
  pub components : List String

pub record NormalizedTopology : Type 0 where
  pub components : List Component
  pub links : List Link
  pub routes : List Route

pub data TopologyError : Type 0 where
  no_components not_two_ends same_ends short_route empty_text : TopologyError
  bad_identifier duplicate no_endpoints unknown_endpoint unknown_component : String → TopologyError
  no_link : String → String → TopologyError
  overlap : TopologyError

-- What the validation returns: the sets of identifiers, and the owner of each endpoint.
pub record TopologyIds : Type 0 where
  pub component_ids : List String
  pub endpoint_owners : List (String × String)
  pub link_ids : List String
  pub route_ids : List String

-- `endpoint_owners.get`
abbrev pub owner : String → List (String × String) → Option String
owner s [] = none
owner s ((t, c) ∷ owners) = if same_text s t then some c else owner s owners

abbrev pub is_some {ℓ} : {A : Type ℓ} → Option A → Bool
is_some none = false
is_some (some a) = true

abbrev pub is_nil {ℓ} : {A : Type ℓ} → List A → Bool
is_nil [] = true
is_nil (a ∷ rest) = false

abbrev pub identifier : String → Result TopologyError (Unit {0})
identifier s = require (is_identifier s) (bad_identifier s)

abbrev pub text : String → Result TopologyError (Unit {0})
text s = require (not (is_empty_text s)) empty_text

unfoldable pub add_endpoints :
    String
    → List EndpointEntry
    → List (String × String)
    → Result TopologyError (List (String × String))
add_endpoints component [] owners = ok owners
add_endpoints component (e ∷ es) owners = do
  identifier e.id
  require (not (is_some (owner e.id owners))) (duplicate e.id)
  text e.label
  add_endpoints component es ((e.id, component) ∷ owners)

unfoldable pub validate_components :
    List Component
    → List String
    → List (String × String)
    → Result TopologyError (List String × List (String × String))
unfolding add_endpoints
validate_components [] ids owners = ok (ids, owners)
validate_components (c ∷ cs) ids owners = do
  identifier c.id
  require (not (contains_text c.id ids)) (duplicate c.id)
  text c.kind
  text c.label
  require (not (is_nil c.endpoints)) (no_endpoints c.id)
  owners' ← add_endpoints c.id c.endpoints owners
  validate_components cs (c.id ∷ ids) owners'

abbrev pub owner_of : String → Option String → Result TopologyError String
owner_of s none = err (unknown_endpoint s)
owner_of s (some c) = ok c

-- The owners of the two ends of a link.
unfoldable pub link_owners :
    List String → List (String × String) → Result TopologyError (String × String)
link_owners [] owners = err not_two_ends
link_owners (a ∷ []) owners = err not_two_ends
link_owners (a ∷ b ∷ []) owners = do
  identifier a
  identifier b
  require (not (same_text a b)) same_ends
  first ← owner_of a (owner a owners)
  second ← owner_of b (owner b owners)
  ok (first, second)
link_owners (a ∷ b ∷ c ∷ rest) owners = err not_two_ends

unfoldable pub validate_links :
    List Link
    → List (String × String)
    → List String
    → List (String × String)
    → Result TopologyError (List String × List (String × String))
unfolding link_owners
validate_links [] owners ids pairs = ok (ids, pairs)
validate_links (l ∷ ls) owners ids pairs = do
  identifier l.id
  require (not (contains_text l.id ids)) (duplicate l.id)
  pair ← link_owners l.endpoints owners
  validate_links ls owners (l.id ∷ ids) (pair ∷ pairs)

-- Two unordered pairs of texts are the same set.
abbrev pub same_pair : String × String → String × String → Bool
same_pair (a, b) (c, d) = (same_text a c && same_text b d) || (same_text a d && same_text b c)

-- `frozenset((first, second)) in component_pairs`
abbrev pub contains_pair : String × String → List (String × String) → Bool
contains_pair p [] = false
contains_pair p (q ∷ qs) = same_pair p q || contains_pair p qs

unfoldable pub check_identifiers : List String → Result TopologyError (Unit {0})
check_identifiers [] = ok tt
check_identifiers (s ∷ ss) = do identifier s; check_identifiers ss

unfoldable pub check_known : List String → List String → Result TopologyError (Unit {0})
check_known [] ids = ok tt
check_known (s ∷ ss) ids = do
  require (contains_text s ids) (unknown_component s)
  check_known ss ids

-- The loop over neighbors on the path.
unfoldable pub check_linked : List String → List (String × String) → Result TopologyError (Unit {0})
check_linked [] pairs = ok tt
check_linked (a ∷ []) pairs = ok tt
check_linked (a ∷ b ∷ rest) pairs = do
  require (contains_pair (a, b) pairs) (no_link a b)
  check_linked (b ∷ rest) pairs

unfoldable pub validate_routes :
    List Route
    → List String
    → List (String × String)
    → List String
    → Result TopologyError (List String)
unfolding check_identifiers check_known check_linked
validate_routes [] component_ids pairs ids = ok ids
validate_routes (r ∷ rs) component_ids pairs ids = do
  identifier r.id
  require (not (contains_text r.id ids)) (duplicate r.id)
  require (leb 2 (length r.components)) short_route
  check_identifiers r.components
  check_known r.components component_ids
  check_linked r.components pairs
  validate_routes rs component_ids pairs (r.id ∷ ids)

abbrev pub meets : List String → List String → Bool
meets [] seen = false
meets (s ∷ ss) seen = contains_text s seen || meets ss seen

abbrev pub keys : List (String × String) → List String
keys [] = []
keys ((k, v) ∷ rest) = k ∷ keys rest

-- The loop over the four kinds of identifiers.
unfoldable pub check_overlap : List (List String) → List String → Result TopologyError (Unit {0})
check_overlap [] seen = ok tt
check_overlap (ids ∷ kinds) seen = do
  require (not (meets ids seen)) overlap
  check_overlap kinds (ids ++ seen)

unfoldable pub validate_topology : NormalizedTopology → Result TopologyError TopologyIds
validate_topology t = do
  require (not (is_nil t.components)) no_components
  known ← validate_components t.components [] []
  linked ← validate_links t.links known.1 [] []
  route_ids ← validate_routes t.routes known.0 linked.1 []
  check_overlap (known.0 ∷ keys known.1 ∷ linked.0 ∷ route_ids ∷ []) []
  ok (record {
    component_ids = known.0;
    endpoint_owners = known.1;
    link_ids = linked.0;
    route_ids = route_ids;
  })
