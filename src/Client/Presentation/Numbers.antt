-- ===== src/Client/Presentation/Numbers.antt =====
-- nodePresentation.js: the numbers that buildNodePresentationMap gives to the edges.
use io_t_midterm_availabilit.Base.{
  ℕ, zero, suc, ◌+◌, ◌<◌, String, ◌≡◌, refl, sym, ap, ◌∙◌, subst, ◌≢◌, ◌⊎◌, inl, inr, Option, none,
  some, List, [], ◌∷◌, arith, filter, In, here, there, In-cons, Dict, put, lookup, lookup-put,
  lookup-put_other, put-lookup, ◌=ₛ◌, eq_iff, Bool-cases, either_branch,
}
use io_t_midterm_availabilit.Js.Value.{Value, is_text}
use io_t_midterm_availabilit.Client.Parsers.{Node, Table}
use io_t_midterm_availabilit.Client.Endpoint.{Locale}
use io_t_midterm_availabilit.Client.Presentation.{
  Presentation, edge_presentation, core_named, is_shown_core, shown_text, resolve_node_alias,
  nodes_of, endpoint_text, add_cores, add_edges, sorted_edges, build_node_presentation_map,
}

-- The node stands in the map as the edge with the number.
abbrev pub IsNumber : Dict Presentation → String → ℕ → Type 0
IsNumber d k j = (p : Presentation) × (lookup k d ≡ some p) × (p.edge_number ≡ some j)

put-IsNumber :
    (k i : String) (p : Presentation) (d : Dict Presentation) (j : ℕ)
    → IsNumber (put i p d) k j
    → ((i ≡ k) × (p.edge_number ≡ some j)) ⊎ IsNumber d k j
put-IsNumber k i p d j (q, e, f) = elim (put-lookup k i p q d e) [
  | inl r ↦ inl (r.0, ap (λ x. x.edge_number) r.1 ∙ f)
  | inr r ↦ inr (q, r, f)
]

module _ (locale : Locale) where
  -- The id of the edge at a place, from 0.
  abbrev pub id_at : ℕ → List Node → Option String
  id_at i [] = none
  id_at zero (n ∷ ns) = some (shown_text locale n.id)
  id_at (suc i) (n ∷ ns) = id_at i ns

  abbrev pub Differs : Node → Node → Type 0
  Differs a b = shown_text locale a.id ≢ shown_text locale b.id

  abbrev pub Among : String → List Node → Type 0
  Among k ns = (m : Node) × In m ns × (shown_text locale m.id ≡ k)

  among : (k : String) (ns : List Node) → Among k ns ⊎ (¬ Among k ns)
  among k [] = inr (λ h. elim h.1 [ ])
  among k (n ∷ ns) = elim (Bool-cases (shown_text locale n.id =ₛ k)) [
    | inl e ↦ inl (n, here, ground (arith, eq_iff (shown_text locale n.id) k))
    | inr e ↦
        let ne : shown_text locale n.id ≢ k = ground (arith, eq_iff (shown_text locale n.id) k) in
        elim (among k ns) [
          | inl h ↦ inl (h.0, there h.1, h.2)
          | inr no_one ↦ inr (λ h. elim (In-cons h.1) [
            | inl same ↦ ne (subst (λ x. shown_text locale x.id ≡ k) same h.2)
            | inr j ↦ no_one (h.0, j, h.2)
          ])
        ]
  ]

  module _ (aliases : Dict Value) where
    add_edges_other :
        (k : String) (i : ℕ) (ns : List Node) (d : Dict Presentation)
        → ¬ Among k ns
        → lookup k (add_edges locale aliases i ns d) ≡ lookup k d
    unfolding add_edges
    add_edges_other k i [] d h = refl
    add_edges_other k i (n ∷ ns) d h =
        add_edges_other k (suc i) ns _ (λ q. h (q.0, there q.1, q.2))
        ∙ lookup-put_other k (shown_text locale n.id) _ d (λ e. h (n, here, e))

    abbrev pub edge : Node → ℕ → Presentation
    edge n i =
        edge_presentation (suc i) (resolve_node_alias locale n aliases) (endpoint_text locale n)

    -- An edge whose id none behind it has keeps its number.
    pub head-IsNumber :
        (i : ℕ) (n : Node) (ns : List Node) (d : Dict Presentation)
        → ¬ Among (shown_text locale n.id) ns
        → IsNumber (add_edges locale aliases i (n ∷ ns) d) (shown_text locale n.id) (suc i)
    unfolding add_edges
    head-IsNumber i n ns d h = (
      edge n i,
      add_edges_other (shown_text locale n.id) (suc i) ns _ h
          ∙ lookup-put (shown_text locale n.id) (edge n i) d,
      refl,
    )

    -- Every edge has a number behind those given so far.
    pub add_edges-IsNumber :
        (i : ℕ) (ns : List Node) (d : Dict Presentation) (n : Node)
        → In n ns
        → (j : ℕ) × (i < j) × IsNumber (add_edges locale aliases i ns d) (shown_text locale n.id) j
    unfolding add_edges
    add_edges-IsNumber i [] d n h = elim h [ ]
    add_edges-IsNumber i (m ∷ ns) d n h = elim (among (shown_text locale n.id) ns) [
      | inl q ↦
          let rest =
            add_edges locale aliases (suc i) ns (put (shown_text locale m.id) (edge m i) d) in
          let (j, lt, number) =
            add_edges-IsNumber (suc i) ns (put (shown_text locale m.id) (edge m i) d) q.0 q.1 in
          (j, ground arith, subst (λ k. IsNumber rest k j) q.2 number)
      | inr q ↦ elim (In-cons h) [
        | inl same ↦
            subst
              (λ x.
                (j : ℕ) × (i < j)
                × IsNumber (add_edges locale aliases i (m ∷ ns) d) (shown_text locale x.id) j)
              (sym same)
              (
                suc i,
                ground arith,
                head-IsNumber i m ns d (subst (λ x. ¬ Among (shown_text locale x.id) ns) same q),
              )
        | inr k ↦ elim (q (n, k, refl)) [ ]
      ]
    ]

    -- A number that the edges have not given was there before; the others follow the places.
    IsNumber-id_at :
        (i : ℕ) (ns : List Node) (d : Dict Presentation) (k : String) (j : ℕ)
        → IsNumber (add_edges locale aliases i ns d) k j
        → IsNumber d k j ⊎ ((m : ℕ) × (j ≡ suc (i + m)) × (id_at m ns ≡ some k))
    unfolding add_edges
    IsNumber-id_at i [] d k j h = inl h
    IsNumber-id_at i (n ∷ ns) d k j h =
        elim (IsNumber-id_at (suc i) ns (put (shown_text locale n.id) (edge n i) d) k j h) [
          | inr q ↦ inr (suc q.0, ground (arith, q.1), q.2)
          | inl q ↦ elim (put-IsNumber k (shown_text locale n.id) (edge n i) d j q) [
            | inl r ↦ inr (0, ground (arith, r.1), ap some r.0)
            | inr r ↦ inl r
          ]
        ]

empty_lem : (k : String) (j : ℕ) → ¬ IsNumber [] k j
unfolding lookup
empty_lem k j (p, e, f) = ground arith

some_lem : {j : ℕ} → none ≢ some j
some_lem e = ground arith

core_named_lem :
    (locale : Locale) (t : Option Table) (n : Node) → (core_named locale t n).edge_number ≡ none
core_named_lem locale none n = refl
core_named_lem locale (some t) n =
    either_branch (λ (p : Presentation). p.edge_number ≡ none) (is_text n.id t.active_core_id) _ _
      refl
      (either_branch (λ (p : Presentation). p.edge_number ≡ none) (is_text n.id t.backup_core_id) _
        _ refl refl)

-- Cores have no number.
add_cores-IsNumber :
    (locale : Locale) (t : Option Table) (ns : List Node) (d : Dict Presentation) (k : String)
    (j : ℕ)
    → IsNumber (add_cores locale t ns d) k j
    → IsNumber d k j
unfolding add_cores
add_cores-IsNumber locale t [] d k j h = h
add_cores-IsNumber locale t (n ∷ ns) d k j h =
    elim (put-IsNumber k (shown_text locale n.id) (core_named locale t n) d j (
      add_cores-IsNumber locale t ns (put (shown_text locale n.id) (core_named locale t n) d) k j
        h)) [ inl r ↦ elim (some_lem (sym (core_named_lem locale t n) ∙ r.1)) [ ] | inr r ↦ r ]

-- A number in the map is the place, counted from 1, at which the node's id stands among the edges
-- sorted by their endpoints, so that two ids have two numbers and no number exceeds their count.
build_node_presentation_map-id_at :
    (locale : Locale) (t : Option Table) (aliases : Dict Value) (k : String) (j : ℕ)
    → IsNumber (build_node_presentation_map locale t aliases) k j
    → (i : ℕ) × (j ≡ suc i) × (id_at locale i (sorted_edges locale t) ≡ some k)
unfolding build_node_presentation_map
build_node_presentation_map-id_at locale t aliases k j h =
    elim (IsNumber-id_at locale aliases 0 (sorted_edges locale t) _ k j h) [
      | inl q ↦
          elim (empty_lem k j
            (add_cores-IsNumber locale t (filter is_shown_core (nodes_of locale t)) [] k j q)) [ ]
      | inr q ↦ (q.0, omega (arith, q.1), q.2)
    ]
