-- ===== src/Topology/Routes.antt =====
-- In an accepted topology every step of a route goes along a link.
use arpanet_redux.Prelude.{
  ◌≡◌, ◌⊎◌, inl, inr, refl, sym, ap, ◌∙◌, true, not, Option, none, some, List, [], ◌∷◌, String,
  length, leb, ok, >>=-eq-ok, require-eq-ok, ok-injective, same_text_iff, All, Bool-cases, arith,
  false, ◌||◌, subst,
}
use arpanet_redux.Identifier.{contains_text}
use arpanet_redux.Topology.{
  Link, Route, NormalizedTopology, TopologyIds, owner, owner_of, identifier, same_pair,
  contains_pair, link_owners, validate_components, validate_links, check_known, check_identifiers,
  check_linked, validate_routes, check_overlap, validate_topology, duplicate, no_link, short_route,
  is_nil, no_components, keys,
}

-- The link has two ends, owned by the two components, in one order or the other.
abbrev pub Joins : List (String × String) → String → String → Link → Type 0
Joins owners a b l =
    (x : String) × ((y : String) × (l.endpoints ≡ x ∷ y ∷ [])
      × (((owner x owners ≡ some a) × (owner y owners ≡ some b))
          ⊎ ((owner x owners ≡ some b) × (owner y owners ≡ some a))))

abbrev pub Exists {ℓ} : {A : Type ℓ} → (A → Type 0) → List A → Type 0
Exists P [] = ⊥
Exists P (a ∷ rest) = P a ⊎ Exists P rest

-- Every two neighbors on the path are joined by a link.
abbrev pub IsLinked : List Link → List (String × String) → List String → Type 0
IsLinked links owners [] = Unit
IsLinked links owners (a ∷ []) = Unit
IsLinked links owners (a ∷ b ∷ rest) =
    Exists (Joins owners a b) links × IsLinked links owners (b ∷ rest)

owner_of-eq-ok : (s c : String) (o : Option String) → owner_of s o ≡ ok c → o ≡ some c
owner_of-eq-ok s c none h = cc
owner_of-eq-ok s c (some d) h = cc

link_owners-Ends :
    (ends : List String) (owners : List (String × String)) (c d : String)
    → link_owners ends owners ≡ ok (c, d)
    → (x : String) × ((y : String) × (ends ≡ x ∷ y ∷ [])
        × (owner x owners ≡ some c)
        × (owner y owners ≡ some d))
unfolding link_owners
link_owners-Ends [] owners c d h = cc
link_owners-Ends (a ∷ []) owners c d h = cc
link_owners-Ends (a ∷ b ∷ e ∷ rest) owners c d h = cc
link_owners-Ends (a ∷ b ∷ []) owners c d h =
    let (_, _, h1) = >>=-eq-ok (identifier a) _ h in
    let (_, _, h2) = >>=-eq-ok (identifier b) _ h1 in
    let (_, h3) = require-eq-ok _ _ _ h2 in
    let (c', ec, h4) = >>=-eq-ok (owner_of a (owner a owners)) _ h3 in
    let (d', ed, h5) = >>=-eq-ok (owner_of b (owner b owners)) _ h4 in
    let same = ok-injective h5 in
    (
      a,
      (
        b,
        refl,
        owner_of-eq-ok a c' _ ec ∙ ap (λ p. some (p.0)) same,
        owner_of-eq-ok b d' _ ed ∙ ap (λ p. some (p.1)) same,
      ),
    )

same_pair-eq :
    (a b c d : String) → same_pair (a, b) (c, d) ≡ true → ((c ≡ a) × (d ≡ b)) ⊎ ((c ≡ b) × (d ≡ a))
same_pair-eq a b c d h =
    ground (arith, same_text_iff a c, same_text_iff b d, same_text_iff a d, same_text_iff b c)

join :
    (l : Link) (owners : List (String × String)) (a b x y : String) (p : String × String)
    → (l.endpoints ≡ x ∷ y ∷ [])
    → (owner x owners ≡ some (p.0))
    → (owner y owners ≡ some (p.1))
    → ((p.0 ≡ a) × (p.1 ≡ b)) ⊎ ((p.0 ≡ b) × (p.1 ≡ a))
    → Joins owners a b l
join l owners a b x y p ends ox oy (inl (c, d)) =
    (x, (y, ends, inl (ox ∙ ap some c, oy ∙ ap some d)))
join l owners a b x y p ends ox oy (inr (c, d)) =
    (x, (y, ends, inr (ox ∙ ap some c, oy ∙ ap some d)))

joined_now {ℓ} : {A : Type ℓ} → (false ≡ true) ⊎ A → A
joined_now (inl h) = cc
joined_now (inr a) = a

validate_links-Joins :
    (ls : List Link) (owners : List (String × String)) (ids : List String)
    (pairs : List (String × String)) (ids' : List String) (pairs' : List (String × String))
    → validate_links ls owners ids pairs ≡ ok (ids', pairs')
    → (a b : String) → contains_pair (a, b) pairs' ≡ true
    → (contains_pair (a, b) pairs ≡ true) ⊎ Exists (Joins owners a b) ls
unfolding validate_links
validate_links-Joins [] owners ids pairs ids' pairs' h a b m =
    inl (ap (λ p. contains_pair (a, b) p.1) (ok-injective h) ∙ m)
validate_links-Joins (l ∷ ls) owners ids pairs ids' pairs' h a b m =
    let (_, _, h1) = >>=-eq-ok (identifier l.id) _ h in
    let (_, h2) = require-eq-ok (not (contains_text l.id ids)) (duplicate l.id) _ h1 in
    let (p, e, h3) = >>=-eq-ok (link_owners l.endpoints owners) _ h2 in
    let (x, (y, ends, ox, oy)) = link_owners-Ends l.endpoints owners p.0 p.1 e in
    let joins = λ (s : ((p.0 ≡ a) × (p.1 ≡ b)) ⊎ ((p.0 ≡ b) × (p.1 ≡ a))).
      join l owners a b x y p ends ox oy s in
    elim (validate_links-Joins ls owners (l.id ∷ ids) (p ∷ pairs) ids' pairs' h3 a b m) [
      | inr later ↦ inr (inr later)
      | inl here ↦ elim (Bool-cases (same_pair (a, b) p)) [
        | inl s ↦ inr (inl (joins (same_pair-eq a b p.0 p.1 s)))
        | inr n ↦ inl (sym (ap (λ t. t || contains_pair (a, b) pairs) n) ∙ here)
      ]
    ]

check_linked-IsLinked :
    (links : List Link) (owners pairs : List (String × String))
    → ((a b : String) → contains_pair (a, b) pairs ≡ true → Exists (Joins owners a b) links)
    → (path : List String) → check_linked path pairs ≡ ok tt
    → IsLinked links owners path
unfolding check_linked
check_linked-IsLinked links owners pairs joins [] h = tt
check_linked-IsLinked links owners pairs joins (a ∷ []) h = tt
check_linked-IsLinked links owners pairs joins (a ∷ b ∷ rest) h =
    let (there, h1) = require-eq-ok (contains_pair (a, b) pairs) (no_link a b) _ h in
    (joins a b there, check_linked-IsLinked links owners pairs joins (b ∷ rest) h1)

validate_routes-IsLinked :
    (links : List Link) (owners pairs : List (String × String))
    → ((a b : String) → contains_pair (a, b) pairs ≡ true → Exists (Joins owners a b) links)
    → (rs : List Route) (component_ids ids ids' : List String)
    → validate_routes rs component_ids pairs ids ≡ ok ids'
    → All (λ r. IsLinked links owners r.components) rs
unfolding validate_routes
validate_routes-IsLinked links owners pairs joins [] component_ids ids ids' h = tt
validate_routes-IsLinked links owners pairs joins (r ∷ rs) component_ids ids ids' h =
    let (_, _, h1) = >>=-eq-ok (identifier r.id) _ h in
    let (_, h2) = require-eq-ok (not (contains_text r.id ids)) (duplicate r.id) _ h1 in
    let (_, h3) = require-eq-ok (leb 2 (length r.components)) short_route _ h2 in
    let (_, _, h4) = >>=-eq-ok (check_identifiers r.components) _ h3 in
    let (_, _, h5) = >>=-eq-ok (check_known r.components component_ids) _ h4 in
    let (_, linked, h6) = >>=-eq-ok (check_linked r.components pairs) _ h5 in
    (
      check_linked-IsLinked links owners pairs joins r.components linked,
      validate_routes-IsLinked links owners pairs joins rs component_ids (r.id ∷ ids) ids' h6,
    )

-- In a topology that is accepted, any two neighbors on a route are joined by a link, whose two ends
-- are owned by these two components.
pub validate_topology-IsLinked :
    (t : NormalizedTopology) (ids : TopologyIds)
    → validate_topology t ≡ ok ids
    → All (λ r. IsLinked t.links ids.endpoint_owners r.components) t.routes
unfolding validate_topology
validate_topology-IsLinked t ids h =
    let (_, h1) = require-eq-ok (not (is_nil t.components)) no_components _ h in
    let (known, _, h2) = >>=-eq-ok (validate_components t.components [] []) _ h1 in
    let (linked, el, h3) = >>=-eq-ok (validate_links t.links known.1 [] []) _ h2 in
    let (routes, er, h4) = >>=-eq-ok (validate_routes t.routes known.0 linked.1 []) _ h3 in
    let (_, _, h5) =
      >>=-eq-ok (check_overlap (known.0 ∷ keys known.1 ∷ linked.0 ∷ routes ∷ []) []) _ h4 in
    let same : known.1 ≡ ids.endpoint_owners = ap (λ r. r.endpoint_owners) (ok-injective h5) in
    let joins = λ (a : String) (b : String) (m : contains_pair (a, b) linked.1 ≡ true).
      joined_now (validate_links-Joins t.links known.1 [] [] linked.0 linked.1 el a b m) in
    subst (λ o. All (λ r. IsLinked t.links o r.components) t.routes) same
      (validate_routes-IsLinked t.links known.1 linked.1 joins t.routes known.0 [] routes er)
