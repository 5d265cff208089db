-- ===== src/Client/Graph/Joined/Complete.antt =====
-- topologyGraphModel.js: no link between two drawn nodes is left out of the graph.
use io_t_midterm_availabilit.Base.{
  String, ◌≡◌, refl, sym, ◌∙◌, subst, inl, inr, true, Option, some, List, [], ◌∷◌, ◌++◌, arith,
  ◌=ₛ◌, eq_iff, Bool-cases, either_branch, In, here, there, In-cons, map-In,
}
use io_t_midterm_availabilit.Js.Number.{Number}
use io_t_midterm_availabilit.Js.Text.{◌<>◌}
use io_t_midterm_availabilit.Client.Parsers.{Node, Link, Table}
use io_t_midterm_availabilit.Client.Endpoint.{Locale}
use io_t_midterm_availabilit.Client.Graph.{normalize_node_id}
use io_t_midterm_availabilit.Client.Graph.Joined.{
  Doubles, Entry, GraphLink, values_of, add_entry, is_finite_positive_rtt, normalize_link_direction,
  node_ids, add_link, add_links, graph_link, build_topology_graph_links,
}
use io_t_midterm_availabilit.Client.Graph.Joined.Ends.{
  IsNormal, IsDrawnLink, ends-is_drawn, normalize_link_direction-IsNormal,
}
use io_t_midterm_availabilit.Client.Graph.Joined.Gathered.{
  key_of, is_counted, ends_key, add_links-ends_key,
}

-- An entry with the key is there.
abbrev HasKey : String → List Entry → Type 0
HasKey k es = (e : Entry) × In e es × (e.key ≡ k)

add_entry-HasKey :
    (key from to : String) (rtt : Option Number) (es : List Entry)
    → HasKey key (add_entry key from to rtt es)
unfolding add_entry
add_entry-HasKey key from to rtt [] = (_, here, refl)
add_entry-HasKey key from to rtt (e ∷ es) = elim (Bool-cases (e.key =ₛ key)) [
  | inl q ↦ rw q (
    record e { rtt_values = e.rtt_values ++ values_of rtt },
    here,
    ground (arith, eq_iff e.key key),
  )
  | inr q ↦ let (d, i, same) = add_entry-HasKey key from to rtt es in rw q (d, there i, same)
]

HasKey-add_entry :
    (k key from to : String) (rtt : Option Number) (es : List Entry)
    → HasKey k es
    → HasKey k (add_entry key from to rtt es)
unfolding add_entry
HasKey-add_entry k key from to rtt [] h = elim h.1 [ ]
HasKey-add_entry k key from to rtt (e ∷ es) h = elim (Bool-cases (e.key =ₛ key)) [
  | inl q ↦ elim (In-cons h.1) [
    | inl same ↦ rw q (
      record e { rtt_values = e.rtt_values ++ values_of rtt },
      here,
      subst (λ x. x.key ≡ k) same h.2,
    )
    | inr j ↦ rw q (h.0, there j, h.2)
  ]
  | inr q ↦ elim (In-cons h.1) [
    | inl same ↦ rw q (e, here, subst (λ x. x.key ≡ k) same h.2)
    | inr j ↦
        let (d, i, same) = HasKey-add_entry k key from to rtt es (h.0, j, h.2) in
        rw q (d, there i, same)
  ]
]

module _ (locale : Locale) (t : Table) (ids : List String) where
  HasKey-add_link :
      (k : String) (l : Link) (es : List Entry)
      → HasKey k es
      → HasKey k (add_link locale t ids l es)
  unfolding add_link
  HasKey-add_link k l es h =
      either_branch (HasKey k) (is_counted locale t ids l) _ es (HasKey-add_entry k _ _ _ _ es h) h

  HasKey-add_links :
      (k : String) (ls : List Link) (es : List Entry)
      → HasKey k es
      → HasKey k (add_links locale t ids ls es)
  unfolding add_links
  HasKey-add_links k [] es h = h
  HasKey-add_links k (l ∷ ls) es h =
      HasKey-add_links k ls (add_link locale t ids l es) (HasKey-add_link k l es h)

  add_link-HasKey :
      (l : Link) (es : List Entry)
      → is_counted locale t ids l ≡ true
      → HasKey (key_of locale t ids l) (add_link locale t ids l es)
  unfolding add_link
  add_link-HasKey l es c =
      let ends =
        normalize_link_direction locale (normalize_node_id locale.number_text l.from_id)
          (normalize_node_id locale.number_text l.to_id) t in
      rw c (
        add_entry-HasKey (ends.0 <> "->" <> ends.1) ends.0 ends.1 (is_finite_positive_rtt l.rtt_ms)
          es)

  add_links-HasKey :
      (ls : List Link) (es : List Entry) (l : Link)
      → In l ls
      → is_counted locale t ids l ≡ true
      → HasKey (key_of locale t ids l) (add_links locale t ids ls es)
  unfolding add_links
  add_links-HasKey [] es l i c = elim i [ ]
  add_links-HasKey (m ∷ ls) es l i c = elim (In-cons i) [
    | inl same ↦ HasKey-add_links (key_of locale t ids l) ls (add_link locale t ids m es) (
        subst (λ x. HasKey (key_of locale t ids l) (add_link locale t ids x es)) same
          (add_link-HasKey l es c))
    | inr j ↦ add_links-HasKey ls (add_link locale t ids m es) l j c
  ]

-- Every link of the table between two different drawn nodes is in the graph: there is a link whose
-- ends give the same text as this link's ends in the normal direction, which has the core first, or
-- of two nodes of one kind the one whose id does not collate after the other's. Drawn are the
-- visible nodes with an id, or all with an id where none is visible.
pub build_topology_graph_links_complete :
    (locale : Locale) (doubles : Doubles) (t : Table) (visible : List Node) (l : Link)
    (a b : String)
    → In l t.links
    → IsDrawnLink locale t visible l a b
    → (g : GraphLink) × (x : String) × (y : String) × In g
        (build_topology_graph_links locale doubles (some t) visible)
      × IsNormal locale t a b x y
      × (g.from_id <> "->" <> g.to_id ≡ x <> "->" <> y)
unfolding build_topology_graph_links
build_topology_graph_links_complete locale doubles t visible l a b i (p, q, da, db, ne) =
    let ids = node_ids locale t visible in
    let es = add_links locale t ids t.links [] in
    let ends = normalize_link_direction locale a b t in
    let counted : is_counted locale t ids l ≡ true =
      rw (p, q) (ends-is_drawn locale t visible a b da db ne) in
    let named : key_of locale t ids l ≡ ends.0 <> "->" <> ends.1 = rw (p, q) refl in
    let (e, j, same) = add_links-HasKey locale t ids t.links [] l i counted in
    let key : e.key ≡ ends_key e =
      add_links-ends_key locale t ids t.links [] (λ d k. elim k [ ]) e j in
    (
      graph_link locale doubles t e,
      ends.0,
      ends.1,
      map-In (graph_link locale doubles t) es j,
      normalize_link_direction-IsNormal locale t a b,
      sym key ∙ (same ∙ named),
    )
