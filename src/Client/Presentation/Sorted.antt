-- ===== src/Client/Presentation/Sorted.antt =====
-- nodePresentation.js: the edges are numbered in the order of their endpoints.
use io_t_midterm_availabilit.Base.{
  ℕ, suc, ◌<◌, ◌≡◌, sym, ap, ◌∙◌, subst, inl, inr, Option, List, [], ◌∷◌, arith, filter, In, there,
  In-cons, Pairs, Pairs-sort_by, In-sort_by, sort_by-In, ordered_sort_by, before, AtMost, IsOrder,
  Dict, put,
}
use io_t_midterm_availabilit.Js.Value.{Value}
use io_t_midterm_availabilit.Client.Parsers.{Node, Table}
use io_t_midterm_availabilit.Client.Endpoint.{Locale, compare_node_endpoints}
use io_t_midterm_availabilit.Client.Presentation.{
  Presentation, is_shown_edge, shown_text, nodes_of, add_edges, sorted_edges,
  build_node_presentation_map,
}
use io_t_midterm_availabilit.Client.Endpoint.Order.{
  HasPort, IsCollation, compare_node_endpoints-IsOrder,
}
use io_t_midterm_availabilit.Client.Presentation.Numbers.{
  IsNumber, Differs, edge, head-IsNumber, add_edges-IsNumber,
}

module _ (locale : Locale) (aliases : Dict Value) where
  -- Two edges whose endpoints compare one way have numbers that compare the same way.
  abbrev pub Precedes : Dict Presentation → Node → Node → Type 0
  Precedes d a b =
      (i : ℕ) × (j : ℕ) × (i < j)
      × IsNumber d (shown_text locale a.id) i
      × IsNumber d (shown_text locale b.id) j

  front_Precedes :
      (i : ℕ) (n : Node) (ns : List Node) (d : Dict Presentation) (b : Node)
      → In b ns
      → ((y : Node) → In y ns → Differs locale n y)
      → Precedes (add_edges locale aliases i (n ∷ ns) d) n b
  unfolding add_edges
  front_Precedes i n ns d b ib unique =
      let (j, lt, number) =
        add_edges-IsNumber locale aliases (suc i) ns
          (put (shown_text locale n.id) (edge locale aliases n i) d) b ib in
      (suc i, j, lt, head-IsNumber locale aliases i n ns d (λ q. unique q.0 q.1 (sym q.2)), number)

  module _ (o : IsOrder (HasPort locale) (compare_node_endpoints locale)) where
    not_behind :
        (a b : Node)
        → HasPort locale a
        → HasPort locale b
        → compare_node_endpoints locale a b ≡ before
        → AtMost (compare_node_endpoints locale b a)
        → ⊥
    not_behind a b pa pb e h = ground (arith, o.flips a b pa pb)

    not_first : (a : Node) → HasPort locale a → compare_node_endpoints locale a a ≡ before → ⊥
    not_first a pa e = ground (arith, o.flips a a pa pa)

    add_edges-Precedes :
        (i : ℕ) (ns : List Node) (d : Dict Presentation) (a b : Node)
        → ((n : Node) → In n ns → HasPort locale n)
        → Pairs (λ x y. AtMost (compare_node_endpoints locale x y)) ns
        → Pairs (Differs locale) ns
        → In a ns
        → In b ns
        → compare_node_endpoints locale a b ≡ before
        → Precedes (add_edges locale aliases i ns d) a b
    unfolding add_edges
    add_edges-Precedes i [] d a b hp sorted unique ia ib e = elim ia [ ]
    add_edges-Precedes i (n ∷ ns) d a b hp sorted unique ia ib e = elim (In-cons ia) [
      | inl a_first ↦ elim (In-cons ib) [
        | inl b_first ↦
            elim (not_first a (hp a ia)
              (ap (compare_node_endpoints locale a) (a_first ∙ sym b_first) ∙ e)) [ ]
        | inr ib' ↦
            subst (λ x. Precedes (add_edges locale aliases i (n ∷ ns) d) x b) (sym a_first)
              (front_Precedes i n ns d b ib' unique.0)
      ]
      | inr ia' ↦ elim (In-cons ib) [
        | inl b_first ↦
            elim (not_behind a b (hp a ia) (hp b ib) e (
              subst (λ x. AtMost (compare_node_endpoints locale x a)) (sym b_first)
                (sorted.0 a ia'))) [ ]
        | inr ib' ↦
            add_edges-Precedes (suc i) ns (put (shown_text locale n.id) (edge locale aliases n i) d)
              a b (λ m h. hp m (there h)) sorted.1 unique.1 ia' ib' e
      ]
    ]

-- The edges are numbered in the order of their endpoints: where the ports of all edges are numbers
-- and no two edges have the same id, and `localeCompare` is an order, an edge whose endpoint
-- compares as the smaller one has the smaller number, and both have one.
pub build_node_presentation_map-Precedes :
    (locale : Locale) (t : Option Table) (aliases : Dict Value)
    → IsCollation locale
    → ((n : Node) → In n (filter is_shown_edge (nodes_of locale t)) → HasPort locale n)
    → Pairs (Differs locale) (filter is_shown_edge (nodes_of locale t))
    → (a b : Node) → In a (filter is_shown_edge (nodes_of locale t))
    → In b (filter is_shown_edge (nodes_of locale t))
    → compare_node_endpoints locale a b ≡ before
    → Precedes locale aliases (build_node_presentation_map locale t aliases) a b
unfolding build_node_presentation_map
build_node_presentation_map-Precedes locale t aliases collation ports unique a b ia ib e =
    let order = compare_node_endpoints-IsOrder locale collation in
    let cmp = compare_node_endpoints locale in
    let edges = filter is_shown_edge (nodes_of locale t) in
    add_edges-Precedes locale aliases order 0 (sorted_edges locale t) _ a b
      (λ n h. ports n (In-sort_by cmp edges h))
      (ordered_sort_by cmp (HasPort locale) order edges ports)
      (Pairs-sort_by cmp (Differs locale) (λ x y ne q. ne (sym q)) edges unique)
      (sort_by-In cmp edges ia) (sort_by-In cmp edges ib) e
