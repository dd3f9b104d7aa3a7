-- ===== src/Journey/Route/Mirror.antt =====
-- The way back crosses the interfaces of the way out in reverse order and opposite direction.
use arpanet_redux.Identifier.{contains_text}
use arpanet_redux.Prelude.{
  ℕ, ◌+◌, ◌≡◌, refl, sym, ap, ◌∙◌, not, List, [], ◌∷◌, ◌++◌, map, String, ok, >>=-eq-ok,
  require-eq-ok, ok-injective, arith, subst,
}
use mathlib.Core.List.{reverse, reverse-append, map-append}
use arpanet_redux.Journey.{
  BoundaryDirection, ingress, egress, JourneyLeg, ExpectedBoundary, no_route, repeated_component,
  unknown_component,
}
use arpanet_redux.Journey.Route.{
  SharedTopology, Crossing, turn, boundaries_for_crossings, route_boundaries, validated_topology,
  find_route, path_crossings, repeats_component, all_known,
}

-- Where a boundary is, without its number.
abbrev pub place : ExpectedBoundary → String × String × BoundaryDirection
place b = (b.component_id, b.interface_id, b.direction)

abbrev pub opposite : BoundaryDirection → BoundaryDirection
opposite ingress = egress
opposite egress = ingress

abbrev pub across : String × String × BoundaryDirection → String × String × BoundaryDirection
across (c, i, d) = (c, i, opposite d)

abbrev places : List Crossing → List (String × String × BoundaryDirection)
places [] = []
places (c ∷ cs) =
    (c.first_component, c.first_endpoint, egress)
    ∷ (c.second_component, c.second_endpoint, ingress)
    ∷ places cs

boundaries-places :
    (leg : JourneyLeg) (n : ℕ) (cs : List Crossing)
    → map place (boundaries_for_crossings leg n cs) ≡ places cs
unfolding boundaries_for_crossings
boundaries-places leg n [] = refl
boundaries-places leg n (c ∷ cs) = cc (boundaries-places leg (n + 2) cs)

places-append : (xs ys : List Crossing) → places (xs ++ ys) ≡ places xs ++ places ys
places-append [] ys = refl
places-append (c ∷ xs) ys = cc (places-append xs ys)

reverse-places :
    (cs : List Crossing) → reverse (places (map turn (reverse cs))) ≡ map across (places cs)
reverse-places [] = refl
reverse-places (c ∷ cs) =
    ap (λ rs. reverse (places (map turn rs))) (reverse-append (c ∷ []) cs)
    ∙ ap (λ rs. reverse (places rs)) (map-append turn (reverse cs) (c ∷ []))
    ∙ ap reverse (places-append (map turn (reverse cs)) (turn c ∷ []))
    ∙ reverse-append (places (map turn (reverse cs))) (places (turn c ∷ []))
    ∙ ap (λ ps. reverse (places (turn c ∷ [])) ++ ps) (reverse-places cs)

-- The boundaries are numbered from `n + 1` on, on one leg.
abbrev pub Counted : JourneyLeg → ℕ → List ExpectedBoundary → Type 0
Counted leg n [] = Unit
Counted leg n (b ∷ bs) = (b.leg ≡ leg) × (b.position ≡ n + 1) × Counted leg (n + 1) bs

boundaries-Counted :
    (leg : JourneyLeg) (n : ℕ) (cs : List Crossing)
    → Counted leg n (boundaries_for_crossings leg n cs)
unfolding boundaries_for_crossings
boundaries-Counted leg n [] = tt
boundaries-Counted leg n (c ∷ cs) = (
  refl,
  refl,
  (
    refl,
    omega arith,
    subst (λ k. Counted leg k (boundaries_for_crossings leg (n + 2) cs)) (omega arith)
        (boundaries-Counted leg (n + 2) cs),
  ),
)

-- The boundaries of a route that is accepted are those of the way out and those of the way back,
-- each leg numbered from 1. Read backwards, the way back has the components and interfaces of the
-- way out, in the opposite direction.
pub route_boundaries-mirrored :
    (t : SharedTopology) (route_id : String) (bs : List ExpectedBoundary)
    → route_boundaries t route_id ≡ ok bs
    → (out : List ExpectedBoundary) × ((back : List ExpectedBoundary) × (bs ≡ out ++ back)
        × Counted JourneyLeg.request 0 out
        × Counted JourneyLeg.reply 0 back
        × (reverse (map place back) ≡ map across (map place out)))
unfolding route_boundaries
route_boundaries-mirrored t route_id bs h =
    let (ids, _, h1) = >>=-eq-ok (validated_topology t) _ h in
    let (_, h2) = require-eq-ok (contains_text route_id ids.route_ids) no_route _ h1 in
    let (path, _, h3) = >>=-eq-ok (find_route t.topology.routes route_id) _ h2 in
    let (_, h4) = require-eq-ok (not (repeats_component path)) repeated_component _ h3 in
    let (_, h5) = require-eq-ok (all_known path ids.component_ids) unknown_component _ h4 in
    let (cs, _, h6) =
      >>=-eq-ok
        (path_crossings ids.endpoint_owners t.topology.links (t.interfaces ++ t.modem_interfaces)
          path)
        _ h5 in
    let back = map turn (reverse cs) in
    (
      boundaries_for_crossings JourneyLeg.request 0 cs,
      (
        boundaries_for_crossings JourneyLeg.reply 0 back,
        sym (ok-injective h6),
        boundaries-Counted JourneyLeg.request 0 cs,
        boundaries-Counted JourneyLeg.reply 0 back,
        ap reverse (boundaries-places JourneyLeg.reply 0 back)
            ∙ reverse-places cs
            ∙ ap (map across) (sym (boundaries-places JourneyLeg.request 0 cs)),
      ),
    )
