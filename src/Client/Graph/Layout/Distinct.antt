-- ===== src/Client/Graph/Layout/Distinct.antt =====
-- topologyGraphModel.js: where the nodes of the graph are placed, no two at one point.
use io_t_midterm_availabilit.Base.{
  ℕ, zero, suc, ◌+◌, pos, negsuc, String, ◌≡◌, ◌≢◌, refl, sym, ap, ◌∙◌, subst, ◌⊎◌, inl, inr, false,
  Option, none, some, List, [], ◌∷◌, arith, Dict, put, lookup, put-lookup, eq_iff, sort_by, filter,
}
use io_t_midterm_availabilit.Client.Parsers.{Node}
use io_t_midterm_availabilit.Client.Visibility.{text_of}
use io_t_midterm_availabilit.Client.Endpoint.{Locale}
use io_t_midterm_availabilit.Client.Presentation.{is_shown_core, is_shown_edge}
use io_t_midterm_availabilit.Client.Graph.Layout.{
  Position, at, core_place, edge_place, place_nodes, place_cores, placed_edge,
  compare_core_endpoints, compare_edges, build_topology_node_positions,
}
use io_t_midterm_availabilit.Client.Graph.Layout.Places.{
  is_ring, IsApart, edge_place_injective, core_place_injective, core_place-IsApart,
  edge_place-IsApart,
}

abbrev node_at : ℕ → List Node → Option Node
node_at i [] = none
node_at zero (n ∷ ns) = some n
node_at (suc i) (n ∷ ns) = node_at i ns

some-injective : {m n : Node} → some m ≡ some n → m ≡ n
some-injective e = ground arith

module _ (locale : Locale) where
  abbrev id_text : Node → String
  id_text n = text_of locale.number_text n.id

  -- The text is the id of the node at a place, which has the position.
  abbrev IsAt : (ℕ → Node → Position) → List Node → String → Position → Type 0
  IsAt place ns k p =
      (i : ℕ) × (n : Node) × (node_at i ns ≡ some n) × (id_text n ≡ k) × (p ≡ place i n)

  place_nodes-IsAt :
      (place : ℕ → Node → Position) (i : ℕ) (ns : List Node) (d : Dict Position) (k : String)
      (p : Position)
      → lookup k (place_nodes locale place i ns d) ≡ some p
      → (lookup k d ≡ some p) ⊎ IsAt (λ j n. place (i + j) n) ns k p
  unfolding place_nodes
  place_nodes-IsAt place i [] d k p e = inl e
  place_nodes-IsAt place i (n ∷ ns) d k p e =
      elim (place_nodes-IsAt place (suc i) ns (put (id_text n) (place i n) d) k p e) [
        | inl f ↦ elim (put-lookup k (id_text n) (place i n) p d f) [
          | inl q ↦ inr (0, n, refl, q.0, sym q.1 ∙ ap (λ x. place x n) (omega arith))
          | inr g ↦ inl g
        ]
        | inr (j, m, at_j, same, where_it) ↦
            inr (suc j, m, at_j, same, where_it ∙ ap (λ x. place x m) (omega arith))
      ]

  -- Places that differ at different indices separate the ids.
  IsAt-injective :
      (place : ℕ → Node → Position) (ns : List Node) (j k : String) (p : Position)
      → ((a b : ℕ) (m n : Node) → place a m ≡ place b n → a ≡ b)
      → IsAt place ns j p
      → IsAt place ns k p
      → j ≡ k
  IsAt-injective place ns j k p inj (a, m, at_a, same_a, e) (b, n, at_b, same_b, f) =
      let indices : a ≡ b = inj a b m n (sym e ∙ f) in
      let found : some m ≡ some n = sym at_a ∙ ap (λ x. node_at x ns) indices ∙ at_b in
      sym same_a ∙ ap id_text (some-injective found) ∙ same_b

  -- Cores alone: one, two, or more.
  place_cores-injective :
      (ns : List Node) (j k : String) (p : Position)
      → lookup j (place_cores locale ns) ≡ some p
      → lookup k (place_cores locale ns) ≡ some p
      → j ≡ k
  unfolding lookup
  place_cores-injective [] j k p e f = ground arith
  place_cores-injective (a ∷ []) j k p e f =
      ground (arith, eq_iff (id_text a) j, eq_iff (id_text a) k)
  place_cores-injective (a ∷ b ∷ []) j k p e f = ground (
    arith,
    eq_iff (id_text a) j,
    eq_iff (id_text a) k,
    eq_iff (id_text b) j,
    eq_iff (id_text b) k,
  )
  place_cores-injective (a ∷ b ∷ c ∷ ns) j k p e f =
      IsAt-injective (λ i n. core_place i) (a ∷ b ∷ c ∷ ns) j k p
        (λ x y m n. core_place_injective x y) (many j e) (many k f)
    where
      many :
          (i : String)
          → lookup i (place_cores locale (a ∷ b ∷ c ∷ ns)) ≡ some p
          → IsAt (λ i n. core_place i) (a ∷ b ∷ c ∷ ns) i p
      many i h = elim (place_nodes-IsAt (λ i n. core_place i) 0 (a ∷ b ∷ c ∷ ns) [] i p h) [
        | inl q ↦ ground arith
        | inr (m, n, x, y, z) ↦ (m, n, x, y, z ∙ ap core_place (omega arith))
      ]

  place_cores-IsApart :
      (ns : List Node) (k : String) (p : Position)
      → lookup k (place_cores locale ns) ≡ some p
      → IsApart p
  unfolding lookup core_place
  place_cores-IsApart [] k p e = ground arith
  place_cores-IsApart (a ∷ []) k p e =
      elim (put-lookup k (id_text a) (at (pos 0) (negsuc 149)) p [] e) [
        | inl q ↦ subst IsApart q.1 (inl refl)
        | inr q ↦ ground arith
      ]
  place_cores-IsApart (a ∷ b ∷ []) k p e =
      elim (put-lookup k (id_text b) (at (pos 80) (negsuc 149)) p
        (put (id_text a) (at (negsuc 79) (negsuc 149)) []) e) [
          | inl q ↦ subst IsApart q.1 (inl refl)
          | inr f ↦ elim (put-lookup k (id_text a) (at (negsuc 79) (negsuc 149)) p [] f) [
            | inl q ↦ subst IsApart q.1 (inl refl)
            | inr q ↦ ground arith
          ]
        ]
  place_cores-IsApart (a ∷ b ∷ c ∷ ns) k p e =
      elim (place_nodes-IsAt (λ i n. core_place i) 0 (a ∷ b ∷ c ∷ ns) [] k p e) [
        | inl q ↦ ground arith
        | inr (m, n, x, y, z) ↦ subst IsApart (sym z) (core_place-IsApart (0 + m))
      ]

  place_cores-at :
      (ns : List Node) (k : String) (p : Position)
      → lookup k (place_cores locale ns) ≡ some p
      → is_ring p ≡ false
  unfolding lookup core_place
  place_cores-at [] k p e = ground arith
  place_cores-at (a ∷ []) k p e = ground arith
  place_cores-at (a ∷ b ∷ []) k p e = ground arith
  place_cores-at (a ∷ b ∷ c ∷ ns) k p e =
      elim (place_nodes-IsAt (λ i n. core_place i) 0 (a ∷ b ∷ c ∷ ns) [] k p e) [
        | inl q ↦ ground arith
        | inr (m, n, x, y, z) ↦ ap is_ring z
      ]

place-IsApart :
    (locale : Locale) (nodes : List Node) (k : String) (p : Position)
    → lookup k (build_topology_node_positions locale nodes) ≡ some p
    → IsApart p
unfolding build_topology_node_positions
place-IsApart locale nodes k p e =
    let edges = sort_by (compare_edges locale) (filter is_shown_edge nodes) in
    let core_nodes = sort_by (compare_core_endpoints locale) (filter is_shown_core nodes) in
    elim (place_nodes-IsAt locale (placed_edge locale) 0 edges (place_cores locale core_nodes) k p
      e) [
        | inl q ↦ place_cores-IsApart locale core_nodes k p q
        | inr (m, n, x, y, z) ↦ subst IsApart (sym z) (edge_place-IsApart (0 + m) _ _)
      ]

same_place :
    (locale : Locale) (nodes : List Node) (j k : String) (p : Position)
    → lookup j (build_topology_node_positions locale nodes) ≡ some p
    → lookup k (build_topology_node_positions locale nodes) ≡ some p
    → j ≡ k
unfolding build_topology_node_positions edge_place
same_place locale nodes j k p e f =
    let edges = sort_by (compare_edges locale) (filter is_shown_edge nodes) in
    let core_nodes = sort_by (compare_core_endpoints locale) (filter is_shown_core nodes) in
    let cores = place_cores locale core_nodes in
    let cores_at : (i : String) → lookup i cores ≡ some p → is_ring p ≡ false =
      λ i h. place_cores-at locale core_nodes i p h in
    elim (place_nodes-IsAt locale (placed_edge locale) 0 edges cores j p e) [
      | inl q ↦ elim (place_nodes-IsAt locale (placed_edge locale) 0 edges cores k p f) [
        | inl r ↦ place_cores-injective locale core_nodes j k p q r
        | inr r ↦ elim (apart k edges (cores_at j q) r) [ ]
      ]
      | inr q ↦ elim (place_nodes-IsAt locale (placed_edge locale) 0 edges cores k p f) [
        | inl r ↦ elim (apart j edges (cores_at k r) q) [ ]
        | inr r ↦
            IsAt-injective locale (λ i n. placed_edge locale (0 + i) n) edges j k p
              (λ a b m n h. omega (arith, edge_place_injective (0 + a) (0 + b) _ _ _ _ h)) q r
      ]
    ]
  where
    apart :
        (i : String) (ns : List Node)
        → is_ring p ≡ false
        → IsAt locale (λ i n. placed_edge locale (0 + i) n) ns i p
        → ⊥
    apart i ns in_core (m, n, x, y, z) = ground (arith, ap is_ring z)

-- A layout puts cores and edges where they belong, and different ids at different points.
abbrev pub IsLayout : Dict Position → Type 0
IsLayout places =
    ((k : String) (p : Position) → lookup k places ≡ some p → IsApart p)
    × ((j k : String) (p q : Position)
        → j ≢ k
        → lookup j places ≡ some p
        → lookup k places ≡ some q
        → p ≢ q)

-- Where the nodes are drawn: cores in the two rows at y = -150 and y = -118, edges below the anchor
-- at y = -110, between 22 and 157 degrees and at least 207 away from it; and no two nodes at one
-- point, for cores and for edges of any number, whatever their hashes.
pub build_topology_node_positions-IsLayout :
    (locale : Locale) (nodes : List Node) → IsLayout (build_topology_node_positions locale nodes)
build_topology_node_positions-IsLayout locale nodes = (
  place-IsApart locale nodes,
  λ j k p q other e f same. other (
      same_place locale nodes j k p e
        (subst (λ x. lookup k (build_topology_node_positions locale nodes) ≡ some x) (sym same) f)),
)
