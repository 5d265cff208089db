-- ===== src/Client/Graph/Joined/Times.antt =====
-- topologyGraphModel.js: the round-trip time of a link of the graph, from the table's links.
use mathlib.Core.List.{foldl}
use io_t_midterm_availabilit.Base.{
  String, ◌≡◌, refl, sym, ap, ◌∙◌, subst, inl, inr, Bool, true, Option, some, List, [], ◌∷◌, ◌&&◌,
  arith, ◌=ₛ◌, eq_iff, Bool-cases, In, In-map, ◌≢◌, ◌⊎◌, none, length, ℤ, pos, ◌<ℤ◌, and-eq-true,
}
use io_t_midterm_availabilit.Js.Number.{Number, fin, infinity, neg_infinity, num_ltb, whole}
use io_t_midterm_availabilit.Js.Value.{Value, num}
use io_t_midterm_availabilit.Js.Text.{◌<>◌}
use io_t_midterm_availabilit.Client.Parsers.{Node, Link, Table}
use io_t_midterm_availabilit.Client.Endpoint.{Locale}
use io_t_midterm_availabilit.Client.Graph.{normalize_node_id}
use io_t_midterm_availabilit.Client.Graph.Joined.{
  Doubles, GraphLink, sum_from, average, is_finite_positive_rtt, normalize_link_direction, node_ids,
  add_links, graph_link, build_topology_graph_links,
}
use io_t_midterm_availabilit.Client.Graph.Joined.Ends.{
  JoinsAs, is_drawn-ends, ends-is_drawn, normalize_link_direction-IsNormal,
  IsNormal-normalize_link_direction,
}
use io_t_midterm_availabilit.Client.Graph.Joined.Simple.{add_links-Pairs}
use io_t_midterm_availabilit.Client.Graph.Joined.Gathered.{
  ends_key, values_at-In, values_at-add_links, key_of, is_counted, times_of, add_links-ends_key,
}

-- A finite positive time.
abbrev pub IsTime : Value → ℤ → Type 0
IsTime v z = (v ≡ num (fin z)) × (pos 0 <ℤ z)

rtt_cases :
    (v : Value)
    → ((z : ℤ) × IsTime v z × (is_finite_positive_rtt v ≡ some (fin z)))
      ⊎ (((z : ℤ) → ¬ IsTime v z) × (is_finite_positive_rtt v ≡ none))
unfolding is_finite_positive_rtt num_ltb
rtt_cases (num (fin z)) = elim (Bool-cases (num_ltb (fin (pos 0)) (fin z))) [
  | inl e ↦ inl (z, (refl, ground (arith, e)), rw e refl)
  | inr e ↦
      inr (λ y w. let same : z ≡ y = ground (arith, w.0) in ground (arith, e, same, w.1), rw e refl)
]
rtt_cases (num infinity) = inr ((λ z w. cc), refl)
rtt_cases (num neg_infinity) = inr ((λ z w. cc), refl)
rtt_cases _ = inr ((λ z w. cc), refl)

-- The mean of the numbers; none of no numbers.
abbrev pub IsMean : Doubles → List Number → Option Number → Type 0
IsMean doubles ns r =
    ((ns ≡ []) × (r ≡ none))
    ⊎ ((ns ≢ []) × (r ≡ some (doubles.divided_by (foldl doubles.plus (whole 0) ns) (length ns))))

sum_from-foldl :
    (doubles : Doubles) (acc : Number) (ns : List Number)
    → sum_from doubles acc ns ≡ foldl doubles.plus acc ns
unfolding sum_from
sum_from-foldl doubles acc [] = refl
sum_from-foldl doubles acc (n ∷ ns) = sum_from-foldl doubles (doubles.plus acc n) ns

average-IsMean : (doubles : Doubles) (ns : List Number) → IsMean doubles ns (average doubles ns)
unfolding average
average-IsMean doubles [] = inl (refl, refl)
average-IsMean doubles (n ∷ ns) = inr (
  λ e. cc,
  ap (λ x. some (doubles.divided_by x (length (n ∷ ns))))
      (sum_from-foldl doubles (whole 0) (n ∷ ns)),
)

module _ (locale : Locale) (t : Table) (visible : List Node) where
  -- The finite positive times of the links that join as the text `k`, in the order of the table.
  abbrev pub TimesOf : String → List Link → List Number → Type 0
  TimesOf k [] ns = ns ≡ []
  TimesOf k (l ∷ ls) ns =
      ((z : ℤ) × (rest : List Number) × JoinsAs locale t visible l k
        × IsTime l.rtt_ms z
        × (ns ≡ fin z ∷ rest)
        × TimesOf k ls rest)
      ⊎ ((JoinsAs locale t visible l k → (z : ℤ) → ¬ IsTime l.rtt_ms z) × TimesOf k ls ns)

  abbrev joins : Link → String → Bool
  joins l k =
      is_counted locale t (node_ids locale t visible) l
      && key_of locale t (node_ids locale t visible) l =ₛ k

  joins-JoinsAs : (l : Link) (k : String) → joins l k ≡ true → JoinsAs locale t visible l k
  joins-JoinsAs l k h =
      let ids = node_ids locale t visible in
      let a = normalize_node_id locale.number_text l.from_id in
      let b = normalize_node_id locale.number_text l.to_id in
      let ends = normalize_link_direction locale a b t in
      let (counted, same) =
        and-eq-true (is_counted locale t ids l) (key_of locale t ids l =ₛ k) h in
      let (p, q, ne) = is_drawn-ends locale t visible a b counted in
      (
        a,
        b,
        ends.0,
        ends.1,
        (refl, refl, p, q, ne),
        normalize_link_direction-IsNormal locale t a b,
        (eq_iff (key_of locale t ids l) k).0 same,
      )

  JoinsAs-joins : (l : Link) (k : String) → JoinsAs locale t visible l k → joins l k ≡ true
  JoinsAs-joins l k (a, b, x, y, (p, q, da, db, ne), normal, e) =
      let (u, v) = IsNormal-normalize_link_direction locale t a b x y normal in
      rw (p, q, u, v, ends-is_drawn locale t visible a b da db ne) ((eq_iff (x <> "->" <> y) k).1 e)

  times_of-TimesOf :
      (k : String) (ls : List Link)
      → TimesOf k ls (times_of locale t (node_ids locale t visible) k ls)
  times_of-TimesOf k [] = refl
  times_of-TimesOf k (l ∷ ls) = elim (Bool-cases (joins l k)) [
    | inr e ↦ rw e (inr ((λ j z w. ground (arith, e, JoinsAs-joins l k j)), times_of-TimesOf k ls))
    | inl e ↦ elim (rtt_cases l.rtt_ms) [
      | inl (z, w, f) ↦
          rw (e, f)
            (inl (
              z,
              times_of locale t (node_ids locale t visible) k ls,
              joins-JoinsAs l k e,
              w,
              refl,
              times_of-TimesOf k ls,
            ))
      | inr (untimed, f) ↦ rw (e, f) (inr ((λ j. untimed), times_of-TimesOf k ls))
    ]
  ]

-- The round-trip time of a link of the graph is the sum of some numbers divided by their count, and
-- none where there are none. The numbers are the finite positive times of those links of the table
-- that join two different drawn nodes and whose ends, in the normal direction, give the same text
-- as the link's; they are added in the table's order. The normal direction has the core first, or
-- of two nodes of one kind the one whose id does not collate after the other's.
pub build_topology_graph_links-TimesOf :
    (locale : Locale) (doubles : Doubles) (t : Table) (visible : List Node) (g : GraphLink)
    → In g (build_topology_graph_links locale doubles (some t) visible)
    → (ns : List Number) × TimesOf locale t visible (g.from_id <> "->" <> g.to_id) t.links ns
      × IsMean doubles ns g.rtt_ms
unfolding build_topology_graph_links
build_topology_graph_links-TimesOf locale doubles t visible g i =
    let ids = node_ids locale t visible in
    let es = add_links locale t ids t.links [] in
    let (e, j, same) = In-map (graph_link locale doubles t) es i in
    let key : e.key ≡ ends_key e =
      add_links-ends_key locale t ids t.links [] (λ d k. elim k [ ]) e j in
    let values : e.rtt_values ≡ times_of locale t ids (ends_key e) t.links =
      sym (values_at-In es (add_links-Pairs locale t ids t.links [] tt) e j)
      ∙ values_at-add_links locale t ids e.key t.links []
      ∙ ap (λ k. times_of locale t ids k t.links) key in
    subst
      (λ (x : GraphLink).
        (ns : List Number) × TimesOf locale t visible (x.from_id <> "->" <> x.to_id) t.links ns
        × IsMean doubles ns x.rtt_ms)
      (sym same)
      (
        times_of locale t ids (ends_key e) t.links,
        times_of-TimesOf locale t visible (ends_key e) t.links,
        subst (λ ns. IsMean doubles ns (average doubles e.rtt_values)) values
            (average-IsMean doubles e.rtt_values),
      )
