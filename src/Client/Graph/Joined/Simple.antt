-- ===== src/Client/Graph/Joined/Simple.antt =====
-- topologyGraphModel.js: the graph has at most one link between two nodes, and its ends are drawn.
use mathlib.Core.Path.{ap₂}
use io_t_midterm_availabilit.Base.{
  String, ◌≡◌, ◌≢◌, refl, sym, ◌∙◌, subst, ◌⊎◌, ◌↔◌, inl, inr, true, false, not, ◌&&◌, some, List,
  [], ◌∷◌, map, arith, eq_iff, Bool-cases, and-eq-true, either_branch, In, here, there, In-map,
  Pairs, Comparison, before, equal, after, is_after, flip, AtMost,
}
use io_t_midterm_availabilit.Js.Text.{◌<>◌}
use io_t_midterm_availabilit.Client.Parsers.{Node, Link, Table}
use io_t_midterm_availabilit.Client.Endpoint.{Locale}
use io_t_midterm_availabilit.Client.Endpoint.Order.{IsCollation}
use io_t_midterm_availabilit.Client.Graph.{normalize_node_id}
use io_t_midterm_availabilit.Client.Graph.Joined.{
  Doubles, Entry, GraphLink, has_id, is_finite_positive_rtt, is_core, normalize_link_direction,
  node_ids, is_drawn, add_link, add_links, graph_link, build_topology_graph_links,
}
use io_t_midterm_availabilit.Client.Graph.Roles.{IsCoreId, core_first_iff, alike_iff}
use io_t_midterm_availabilit.Client.Graph.Joined.Ends.{IsDrawnId, Leads, has_id-IsDrawnId}
use io_t_midterm_availabilit.Client.Graph.Joined.Entries.{
  OtherKey, add_entry-Every, add_entry-Pairs,
}

both_ways : (c : Comparison) → AtMost c → AtMost (flip c) → c ≡ equal
both_ways before p q = cc
both_ways equal p q = refl
both_ways after p q = cc

module _ (locale : Locale) where
  -- The core comes first, and of two nodes of one kind the one with the smaller text.
  abbrev IsDirected : Table → String → String → Type 0
  IsDirected t from to =
      ((is_core locale t from ≡ true) × (is_core locale t to ≡ false))
      ⊎ ((is_core locale t from ≡ is_core locale t to) × AtMost (locale.locale_compare from to))

  abbrev IsLink : Table → List String → String → String → Type 0
  IsLink t ids from to =
      (has_id ids from ≡ true) × (has_id ids to ≡ true) × (from ≢ to) × IsDirected t from to

  abbrev IsEntry : Table → List String → Entry → Type 0
  IsEntry t ids e = (e.key ≡ e.from_id <> "->" <> e.to_id) × IsLink t ids e.from_id e.to_id

  abbrev pub SameEnds : GraphLink → GraphLink → Type 0
  SameEnds a b = (a.from_id ≡ b.from_id) × (a.to_id ≡ b.to_id)

  abbrev pub Reversed : GraphLink → GraphLink → Type 0
  Reversed a b = (a.from_id ≡ b.to_id) × (a.to_id ≡ b.from_id)

  -- Two nodes of one kind whose ids collate as equal.
  abbrev pub AreTied : Table → String → String → Type 0
  AreTied t a b =
      (IsCoreId locale.number_text t a ↔ IsCoreId locale.number_text t b)
      × (locale.locale_compare a b ≡ equal)

  -- Not the same ends; and those of the other, reversed, only for ids that collate as equal.
  abbrev pub AreApart : Table → GraphLink → GraphLink → Type 0
  AreApart t a b = (¬ SameEnds a b) × (Reversed a b → AreTied t a.from_id a.to_id)

  module _ (collation : IsCollation locale) (t : Table) (ids : List String) where
    normalize_link_direction-IsLink :
        (from to : String)
        → has_id ids from ≡ true
        → has_id ids to ≡ true
        → from ≢ to
        → let ends = normalize_link_direction locale from to t in IsLink t ids ends.0 ends.1
    unfolding normalize_link_direction
    normalize_link_direction-IsLink from to p q ne =
        elim (Bool-cases (is_core locale t from && not (is_core locale t to))) [
          | inl e ↦
              let (x, y) = and-eq-true (is_core locale t from) (not (is_core locale t to)) e in
              rw e (p, q, ne, inl (x, ground arith))
          | inr e ↦ elim (Bool-cases (is_core locale t to && not (is_core locale t from))) [
            | inl f ↦
                let (x, y) = and-eq-true (is_core locale t to) (not (is_core locale t from)) f in
                rw e (rw f (q, p, (λ h. ne (sym h)), inl (x, ground arith)))
            | inr f ↦ elim (Bool-cases (is_after (locale.locale_compare from to))) [
              | inl g ↦ rw e (
                  rw f (
                    rw g (
                      q,
                      p,
                      (λ h. ne (sym h)),
                      inr (ground arith, ground (arith, collation.flips from to tt tt)),
                    )))
              | inr g ↦ rw e (rw f (rw g (p, q, ne, inr (ground arith, g))))
            ]
          ]
        ]

    add_link-Every :
        (l : Link) (es : List Entry)
        → ((e : Entry) → In e es → IsEntry t ids e)
        → (e : Entry) → In e (add_link locale t ids l es)
        → IsEntry t ids e
    unfolding add_link
    add_link-Every l es h =
        let from = normalize_node_id locale.number_text l.from_id in
        let to = normalize_node_id locale.number_text l.to_id in
        elim (Bool-cases (is_drawn ids from to)) [
          | inl e ↦
              let ends = normalize_link_direction locale from to t in
              rw e (
                add_entry-Every (ends.0 <> "->" <> ends.1) ends.0 ends.1
                  (is_finite_positive_rtt l.rtt_ms) (IsEntry t ids) es h
                  (
                    refl,
                    normalize_link_direction-IsLink from to (ground arith) (ground arith)
                        (ground (arith, eq_iff from to)),
                  )
                  (λ d p. p))
          | inr e ↦ rw e h
        ]

  module _ (collation : IsCollation locale) (t : Table) (ids : List String) where
    -- Two ends that are directed both ways are tied.
    reversed_ends :
        (from to : String) → IsDirected t from to → IsDirected t to from → AreTied t from to
    reversed_ends from to (inl p) (inl q) = ground arith
    reversed_ends from to (inl p) (inr q) = ground arith
    reversed_ends from to (inr p) (inl q) = ground arith
    reversed_ends from to (inr p) (inr q) = (
      (alike_iff locale.number_text t from to).0 p.0,
      both_ways (locale.locale_compare from to) p.1
          (subst AtMost (collation.flips from to tt tt) q.1),
    )

    separate :
        (a b : Entry) (doubles : Doubles)
        → IsEntry t ids a
        → IsEntry t ids b
        → OtherKey a b
        → AreApart t (graph_link locale doubles t a) (graph_link locale doubles t b)
    separate a b doubles ha hb other = (
      λ same. other (ha.0 ∙ ap₂ (λ x y. x <> "->" <> y) same.0 same.1 ∙ sym hb.0),
      λ same. reversed_ends a.from_id a.to_id ha.1.3 (
          subst (λ x. IsDirected t x a.from_id) (sym same.1)
            (subst (λ x. IsDirected t b.from_id x) (sym same.0) hb.1.3)),
    )

    Pairs-graph_link :
        (doubles : Doubles) (es : List Entry)
        → ((e : Entry) → In e es → IsEntry t ids e)
        → Pairs OtherKey es
        → Pairs (AreApart t) (map (graph_link locale doubles t) es)
    Pairs-graph_link doubles [] h p = tt
    Pairs-graph_link doubles (e ∷ es) h p = (
      λ y i.
          let (d, j, same) = In-map (graph_link locale doubles t) es i in
          subst (λ x. AreApart t (graph_link locale doubles t e) x) (sym same)
            (separate e d doubles (h e here) (h d (there j)) (p.0 d j)),
      Pairs-graph_link doubles es (λ x i. h x (there i)) p.1,
    )

  add_links-Every :
      (collation : IsCollation locale) (t : Table) (ids : List String) (ls : List Link)
      (es : List Entry)
      → ((e : Entry) → In e es → IsEntry t ids e)
      → (e : Entry) → In e (add_links locale t ids ls es)
      → IsEntry t ids e
  unfolding add_links
  add_links-Every collation t ids [] es h = h
  add_links-Every collation t ids (l ∷ ls) es h =
      add_links-Every collation t ids ls (add_link locale t ids l es)
        (add_link-Every collation t ids l es h)

  add_link-Pairs :
      (t : Table) (ids : List String) (l : Link) (es : List Entry)
      → Pairs OtherKey es
      → Pairs OtherKey (add_link locale t ids l es)
  unfolding add_link
  add_link-Pairs t ids l es h =
      let from = normalize_node_id locale.number_text l.from_id in
      let to = normalize_node_id locale.number_text l.to_id in
      let ends = normalize_link_direction locale from to t in
      either_branch (Pairs OtherKey) (is_drawn ids from to) _ es
        (add_entry-Pairs (ends.0 <> "->" <> ends.1) ends.0 ends.1 (is_finite_positive_rtt l.rtt_ms)
          es h)
        h

  pub add_links-Pairs :
      (t : Table) (ids : List String) (ls : List Link) (es : List Entry)
      → Pairs OtherKey es
      → Pairs OtherKey (add_links locale t ids ls es)
  unfolding add_links
  add_links-Pairs t ids [] es h = h
  add_links-Pairs t ids (l ∷ ls) es h =
      add_links-Pairs t ids ls (add_link locale t ids l es) (add_link-Pairs t ids l es h)

  -- A link joins two different nodes that are drawn, the core first, and of two nodes of one kind
  -- the one that does not collate after the other.
  abbrev pub IsDrawnFrom : Table → List Node → String → String → Type 0
  IsDrawnFrom t visible from to =
      IsDrawnId locale t visible from
      × IsDrawnId locale t visible to
      × (from ≢ to)
      × Leads locale t from to

  IsLink-IsDrawnFrom :
      (t : Table) (visible : List Node) (from to : String)
      → IsLink t (node_ids locale t visible) from to
      → IsDrawnFrom t visible from to
  IsLink-IsDrawnFrom t visible from to (p, q, ne, directed) = (
    has_id-IsDrawnId locale t visible from p,
    has_id-IsDrawnId locale t visible to q,
    ne,
    leads directed,
  )
    where
      leads : IsDirected t from to → Leads locale t from to
      leads (inl h) = inl ((core_first_iff locale.number_text t from to).0 h)
      leads (inr (h, n)) =
          inr ((alike_iff locale.number_text t from to).0 h, (λ e. ground (arith, rw e at n)))

  -- Every link is such a link, and any two links are apart.
  abbrev pub IsSimple : Table → List Node → List GraphLink → Type 0
  IsSimple t visible ls =
      ((l : GraphLink) → In l ls → IsDrawnFrom t visible l.from_id l.to_id) × Pairs (AreApart t) ls

-- The graph's links, for a `localeCompare` that is a consistent comparator: each joins two
-- different nodes among the visible ones (among all nodes where none is visible), the core first
-- and otherwise the id first that does not collate after the other; a core is an id whose last node
-- in the table has the role CORE. No two links have the same ends in the same direction. Two links
-- have the same ends in opposite directions only where these are both cores or both edges and their
-- ids collate as equal.
pub build_topology_graph_links-IsSimple :
    (locale : Locale) (doubles : Doubles)
    → IsCollation locale
    → (t : Table) (visible : List Node)
    → IsSimple locale t visible (build_topology_graph_links locale doubles (some t) visible)
unfolding build_topology_graph_links
build_topology_graph_links-IsSimple locale doubles collation t visible =
    let ids = node_ids locale t visible in
    let es = add_links locale t ids t.links [] in
    let every = add_links-Every locale collation t ids t.links [] (λ e i. elim i [ ]) in
    (
      λ l i.
          let (e, j, same) = In-map (graph_link locale doubles t) es i in
          subst (λ (x : GraphLink). IsDrawnFrom locale t visible x.from_id x.to_id) (sym same)
            (IsLink-IsDrawnFrom locale t visible e.from_id e.to_id (every e j).1),
      Pairs-graph_link locale collation t ids doubles es every
          (add_links-Pairs locale t ids t.links [] tt),
    )
