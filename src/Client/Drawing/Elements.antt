-- ===== src/Client/Drawing/Elements.antt =====
-- TopologyGraph.jsx: what is drawn is a graph.
use io_t_midterm_availabilit.Base.{
  ℤ, String, ◌≡◌, ◌≢◌, sym, ◌∙◌, subst, inl, inr, true, Option, some, List, [], ◌∷◌, arith, map,
  filter, any, and-eq-true, Bool-cases, In, here, there, In-map, map-In, In-filter, Pairs, Dict,
  eq_iff, ◌=ₛ◌,
}
use io_t_midterm_availabilit.Js.Value.{Value}
use io_t_midterm_availabilit.Client.Parsers.{Table}
use io_t_midterm_availabilit.Client.Endpoint.{Locale}
use io_t_midterm_availabilit.Client.Presentation.{Presentation}
use io_t_midterm_availabilit.Client.Graph.Joined.{
  Doubles, GraphLink, has_id, graph_link, add_links, node_ids, build_topology_graph_links,
}
use io_t_midterm_availabilit.Client.Graph.Joined.Simple.{add_links-Pairs}
use io_t_midterm_availabilit.Client.Graph.Joined.Entries.{OtherKey}
use io_t_midterm_availabilit.Client.Graph.Joined.Gathered.{add_links-ends_key}
use io_t_midterm_availabilit.Client.Drawing.{
  NodeElement, EdgeElement, edge_element, raw_id, visible_nodes, node_element, node_elements,
  has_ends, edge_elements,
}

-- A node with the id is drawn.
abbrev pub IsDrawn : List NodeElement → String → Type 0
IsDrawn nodes id = (n : NodeElement) × In n nodes × (n.id ≡ id)

-- Every edge joins two nodes that are drawn, and no two edges have one id, as the graph library asks.
abbrev pub IsGraph : List NodeElement → List EdgeElement → Type 0
IsGraph nodes edges =
    ((e : EdgeElement) → In e edges → IsDrawn nodes e.source × IsDrawn nodes e.target)
    × Pairs (λ (a : EdgeElement) b. a.id ≢ b.id) edges

has_id-In : (ids : List String) (id : String) → has_id ids id ≡ true → In id ids
unfolding any
has_id-In [] id h = cc
has_id-In (x ∷ ids) id h = elim (Bool-cases (x =ₛ id)) [
  | inl e ↦ let same : id ≡ x = ground (arith, eq_iff x id) in rw same here
  | inr e ↦ there (has_id-In ids id (ground arith))
]

module _ {A : Type 0} {B : Type 0} where
  -- What a map keeps apart, and what is left when some go.
  Pairs-map :
      (f : A → B) (R : A → A → Type 0) (S : B → B → Type 0) (xs : List A)
      → ((a b : A) → In a xs → In b xs → R a b → S (f a) (f b))
      → Pairs R xs
      → Pairs S (map f xs)
  Pairs-map f R S [] h p = tt
  Pairs-map f R S (x ∷ xs) h p = (
    λ y i.
        let (z, j, same) = In-map f xs i in
        subst (S (f x)) (sym same) (h x z here (there j) (p.0 z j)),
    Pairs-map f R S xs (λ a b i j. h a b (there i) (there j)) p.1,
  )

Pairs-filter :
    {A : Type 0} (p : A → _) (R : A → A → Type 0) (xs : List A) → Pairs R xs → Pairs R (filter p xs)
unfolding filter
Pairs-filter p R [] h = tt
Pairs-filter p R (x ∷ xs) h = elim (Bool-cases (p x)) [
  | inl e ↦ rw e (λ y i. h.0 y (In-filter p xs i).0, Pairs-filter p R xs h.1)
  | inr e ↦ rw e (Pairs-filter p R xs h.1)
]

module _ (locale : Locale) where
  IsDrawn-node_elements :
      (date_parse : Value → Option ℤ) (t : Table) (displays : Dict Presentation) (now : ℤ)
      (id : String)
      → has_id (map (raw_id locale) (visible_nodes t)) id ≡ true
      → IsDrawn (node_elements locale date_parse t displays now) id
  unfolding node_elements
  IsDrawn-node_elements date_parse t displays now id h =
      let (n, i, same) =
        In-map (raw_id locale) (visible_nodes t)
          (has_id-In (map (raw_id locale) (visible_nodes t)) id h) in
      (
        node_element locale date_parse t displays now n,
        map-In (node_element locale date_parse t displays now) (visible_nodes t) i,
        sym same,
      )

  links-Pairs :
      (doubles : Doubles) (t : Table)
      → Pairs
          (λ (a : GraphLink) b. (edge_element a).id ≢ (edge_element b).id)
          (build_topology_graph_links locale doubles (some t) (visible_nodes t))
  unfolding build_topology_graph_links
  links-Pairs doubles t =
      let ids = node_ids locale t (visible_nodes t) in
      let es = add_links locale t ids t.links [] in
      let key = add_links-ends_key locale t ids t.links [] (λ d k. elim k [ ]) in
      Pairs-map (graph_link locale doubles t) OtherKey
        (λ (a : GraphLink) b. (edge_element a).id ≢ (edge_element b).id) es
        (λ a b i j other same. other (key a i ∙ same ∙ sym (key b j)))
        (add_links-Pairs locale t ids t.links [] tt)

-- What is handed to the graph library is a graph, for every table: each edge joins two nodes that
-- are handed over too, and no two edges have the same id.
pub edge_elements-IsGraph :
    (locale : Locale) (doubles : Doubles) (date_parse : Value → Option ℤ) (t : Table)
    (displays : Dict Presentation) (now : ℤ)
    → IsGraph (node_elements locale date_parse t displays now) (edge_elements locale doubles t)
unfolding edge_elements
edge_elements-IsGraph locale doubles date_parse t displays now =
    let links = build_topology_graph_links locale doubles (some t) (visible_nodes t) in
    (
      λ e i.
          let (l, j, same) =
            In-map edge_element (filter (has_ends locale (visible_nodes t)) links) i in
          let (k, ends) = In-filter (has_ends locale (visible_nodes t)) links j in
          let (p, q) = and-eq-true _ _ ends in
          (
            subst
                (λ (x : EdgeElement).
                  IsDrawn (node_elements locale date_parse t displays now) x.source)
                (sym same) (IsDrawn-node_elements locale date_parse t displays now l.from_id p),
            subst
                (λ (x : EdgeElement).
                  IsDrawn (node_elements locale date_parse t displays now) x.target)
                (sym same) (IsDrawn-node_elements locale date_parse t displays now l.to_id q),
          ),
      Pairs-map edge_element (λ (a : GraphLink) b. (edge_element a).id ≢ (edge_element b).id)
          (λ a b. a.id ≢ b.id) _ (λ a b i j h. h)
          (Pairs-filter (has_ends locale (visible_nodes t)) _ links (links-Pairs locale doubles t)),
    )
