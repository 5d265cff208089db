-- ===== src/Client/Graph/Joined/Ends.antt =====
-- topologyGraphModel.js: which links of the table are drawn, and in which direction.
use io_t_midterm_availabilit.Base.{
  String, ◌≡◌, ◌≢◌, refl, sym, ◌∙◌, ◌⊎◌, ◌↔◌, inl, inr, Bool, true, false, List, [], ◌∷◌, arith,
  ◌=ₛ◌, eq_iff, Bool-cases, In, here, there, In-cons, any-In, In-any, Comparison, before, equal,
  after, is_after, subst,
}
use io_t_midterm_availabilit.Js.Text.{◌<>◌}
use io_t_midterm_availabilit.Client.Parsers.{Node, Link, Table}
use io_t_midterm_availabilit.Client.Endpoint.{Locale}
use io_t_midterm_availabilit.Client.Graph.{normalize_node_id}
use io_t_midterm_availabilit.Client.Graph.Roles.{IsCoreId, core_first_iff, alike_iff}
use io_t_midterm_availabilit.Client.Graph.Joined.{
  has_id, is_drawn, is_core, ids_of, node_ids, normalize_link_direction,
}

module _ (locale : Locale) (t : Table) where
  -- `a` comes first: the core, and of two nodes of one kind the one that does not collate after.
  abbrev pub Leads : String → String → Type 0
  Leads a b =
      (IsCoreId locale.number_text t a × ¬ IsCoreId locale.number_text t b)
      ⊎ ((IsCoreId locale.number_text t a ↔ IsCoreId locale.number_text t b)
          × (locale.locale_compare a b ≢ after))

  -- `x` and `y` are the two ends `a` and `b` in the normal direction.
  abbrev pub IsNormal : String → String → String → String → Type 0
  IsNormal a b x y = (Leads a b × (x ≡ a) × (y ≡ b)) ⊎ ((¬ Leads a b) × (x ≡ b) × (y ≡ a))

  -- The id of a node that is drawn: a visible one, or any node where none is visible.
  abbrev pub IsDrawnId : List Node → String → Type 0
  IsDrawnId visible a =
      (a ≢ "")
      × ((n : Node) × (In n visible ⊎ ((visible ≡ []) × In n t.nodes))
          × (normalize_node_id locale.number_text n.id ≡ a))

  -- The link goes from `a` to `b`, two different nodes that are drawn.
  abbrev pub IsDrawnLink : List Node → Link → String → String → Type 0
  IsDrawnLink visible l a b =
      (normalize_node_id locale.number_text l.from_id ≡ a)
      × (normalize_node_id locale.number_text l.to_id ≡ b)
      × IsDrawnId visible a
      × IsDrawnId visible b
      × (a ≢ b)

  is_after-eq : (c : Comparison) → is_after c ≡ true → c ≡ after
  is_after-eq after h = refl
  is_after-eq before h = cc
  is_after-eq equal h = cc

  not_after : (c : Comparison) → is_after c ≡ false → c ≢ after
  not_after c h e = ground (arith, rw e at h)

  -- The same in terms of the test for a core.
  abbrev LeadsByTest : String → String → Type 0
  LeadsByTest a b =
      ((is_core locale t a ≡ true) × (is_core locale t b ≡ false))
      ⊎ ((is_core locale t a ≡ is_core locale t b) × (locale.locale_compare a b ≢ after))

  abbrev IsTested : String → String → String → String → Type 0
  IsTested a b x y =
      (LeadsByTest a b × (x ≡ a) × (y ≡ b)) ⊎ ((¬ LeadsByTest a b) × (x ≡ b) × (y ≡ a))

  Leads-of : (a b : String) → LeadsByTest a b → Leads a b
  Leads-of a b (inl h) = inl ((core_first_iff locale.number_text t a b).0 h)
  Leads-of a b (inr (h, n)) = inr ((alike_iff locale.number_text t a b).0 h, n)

  LeadsByTest-of : (a b : String) → Leads a b → LeadsByTest a b
  LeadsByTest-of a b (inl h) = inl ((core_first_iff locale.number_text t a b).1 h)
  LeadsByTest-of a b (inr (h, n)) = inr ((alike_iff locale.number_text t a b).1 h, n)

  normalize_link_direction-cases :
      (a b : String)
      → let ends = normalize_link_direction locale a b t in IsTested a b ends.0 ends.1
  unfolding normalize_link_direction
  normalize_link_direction-cases a b = elim (Bool-cases (is_core locale t a)) [
    | inl p ↦ elim (Bool-cases (is_core locale t b)) [
      | inl q ↦ elim (Bool-cases (is_after (locale.locale_compare a b))) [
        | inl g ↦ rw (p, q, g) (inr (trailing true g, refl, refl))
        | inr g ↦
            rw (p, q, g) (inl (inr (refl, not_after (locale.locale_compare a b) g), refl, refl))
      ]
      | inr q ↦ rw (p, q) (inl (inl (refl, refl), refl, refl))
    ]
    | inr p ↦ elim (Bool-cases (is_core locale t b)) [
      | inl q ↦ rw (p, q) (inr ((λ l. elim l [ inl h ↦ cc | inr h ↦ cc ]), refl, refl))
      | inr q ↦ elim (Bool-cases (is_after (locale.locale_compare a b))) [
        | inl g ↦ rw (p, q, g) (inr (trailing false g, refl, refl))
        | inr g ↦
            rw (p, q, g) (inl (inr (refl, not_after (locale.locale_compare a b) g), refl, refl))
      ]
    ]
  ]
    where
      trailing :
          (k : Bool)
          → is_after (locale.locale_compare a b) ≡ true
          → ((k ≡ true) × (k ≡ false)) ⊎ ((k ≡ k) × (locale.locale_compare a b ≢ after))
          → ⊥
      trailing k g (inl (u, v)) = cc
      trailing k g (inr (u, v)) = v (is_after-eq (locale.locale_compare a b) g)

  pub normalize_link_direction-IsNormal :
      (a b : String)
      → let ends = normalize_link_direction locale a b t in IsNormal a b ends.0 ends.1
  normalize_link_direction-IsNormal a b = elim (normalize_link_direction-cases a b) [
    | inl (h, p, q) ↦ inl (Leads-of a b h, p, q)
    | inr (h, p, q) ↦ inr ((λ l. h (LeadsByTest-of a b l)), p, q)
  ]

  pub IsNormal-normalize_link_direction :
      (a b x y : String)
      → IsNormal a b x y
      → let ends = normalize_link_direction locale a b t in (ends.0 ≡ x) × (ends.1 ≡ y)
  IsNormal-normalize_link_direction a b x y h =
      go (normalize_link_direction locale a b t).0 (normalize_link_direction locale a b t).1
        (normalize_link_direction-IsNormal a b) h
    where
      go : (u v : String) → IsNormal a b u v → IsNormal a b x y → (u ≡ x) × (v ≡ y)
      go u v (inl (l, p, q)) (inl (m, r, s)) = (p ∙ sym r, q ∙ sym s)
      go u v (inr (l, p, q)) (inr (m, r, s)) = (p ∙ sym r, q ∙ sym s)
      go u v (inl (l, p, q)) (inr (m, r, s)) = absurd (m l)
      go u v (inr (l, p, q)) (inl (m, r, s)) = absurd (l m)

  In-ids_of :
      (ns : List Node) (a : String)
      → In a (ids_of locale ns)
      → (a ≢ "") × ((n : Node) × In n ns × (normalize_node_id locale.number_text n.id ≡ a))
  In-ids_of [] a i = elim i [ ]
  In-ids_of (n ∷ ns) a i = elim (Bool-cases (normalize_node_id locale.number_text n.id =ₛ "")) [
    | inl e ↦ let (ne, (m, j, q)) = In-ids_of ns a (subst (In a) (rw e) i) in (ne, (m, there j, q))
    | inr e ↦ elim (In-cons (subst (In a) (rw e) i)) [
      | inl same ↦ (
        λ z. ground (arith, e, same, z, eq_iff (normalize_node_id locale.number_text n.id) ""),
        (n, here, sym same),
      )
      | inr k ↦ let (ne, (m, j, q)) = In-ids_of ns a k in (ne, (m, there j, q))
    ]
  ]

  ids_of-In :
      (ns : List Node) (n : Node) (a : String)
      → In n ns
      → normalize_node_id locale.number_text n.id ≡ a
      → a ≢ ""
      → In a (ids_of locale ns)
  ids_of-In [] n a i e ne = elim i [ ]
  ids_of-In (m ∷ ns) n a i e ne =
      elim (Bool-cases (normalize_node_id locale.number_text m.id =ₛ "")) [
        | inl f ↦ elim (In-cons i) [
          | inl same ↦
              let q : normalize_node_id locale.number_text m.id ≡ a =
                subst (λ (x : Node). normalize_node_id locale.number_text x.id ≡ a) same e in
              absurd (ne (sym q ∙ (eq_iff (normalize_node_id locale.number_text m.id) "").0 f))
          | inr j ↦ rw f (ids_of-In ns n a j e ne)
        ]
        | inr f ↦ elim (In-cons i) [
          | inl same ↦
              let q : normalize_node_id locale.number_text m.id ≡ a =
                subst (λ (x : Node). normalize_node_id locale.number_text x.id ≡ a) same e in
              rw f (
                subst (λ x. In x (normalize_node_id locale.number_text m.id ∷ ids_of locale ns)) q
                  here)
          | inr j ↦ rw f (there (ids_of-In ns n a j e ne))
        ]
      ]

  In-node_ids :
      (visible : List Node) (a : String) → In a (node_ids locale t visible) → IsDrawnId visible a
  In-node_ids [] a i = let (ne, (n, j, q)) = In-ids_of t.nodes a i in (ne, (n, inr (refl, j), q))
  In-node_ids (v ∷ vs) a i = let (ne, (n, j, q)) = In-ids_of (v ∷ vs) a i in (ne, (n, inl j, q))

  node_ids-In :
      (visible : List Node) (a : String) → IsDrawnId visible a → In a (node_ids locale t visible)
  node_ids-In [] a (ne, (n, inl j, q)) = elim j [ ]
  node_ids-In [] a (ne, (n, inr (e, j), q)) = ids_of-In t.nodes n a j q ne
  node_ids-In (v ∷ vs) a (ne, (n, inl j, q)) = ids_of-In (v ∷ vs) n a j q ne
  node_ids-In (v ∷ vs) a (ne, (n, inr (e, j), q)) = cc

  pub has_id-IsDrawnId :
      (visible : List Node) (a : String)
      → has_id (node_ids locale t visible) a ≡ true
      → IsDrawnId visible a
  has_id-IsDrawnId visible a h =
      let (x, i, e) =
        any-In (λ x. x =ₛ a) (λ x. x ≡ a) (λ x. eq_iff x a) (node_ids locale t visible) h in
      In-node_ids visible a (subst (λ y. In y (node_ids locale t visible)) e i)

  IsDrawnId-has_id :
      (visible : List Node) (a : String)
      → IsDrawnId visible a
      → has_id (node_ids locale t visible) a ≡ true
  IsDrawnId-has_id visible a d =
      In-any (λ x. x =ₛ a) (λ x. x ≡ a) (λ x. eq_iff x a) (node_ids locale t visible) a
        (node_ids-In visible a d) refl

  -- The test of the loop is what it should be.
  pub is_drawn-ends :
      (visible : List Node) (a b : String)
      → is_drawn (node_ids locale t visible) a b ≡ true
      → IsDrawnId visible a × IsDrawnId visible b × (a ≢ b)
  is_drawn-ends visible a b h = (
    has_id-IsDrawnId visible a (ground (arith, h)),
    has_id-IsDrawnId visible b (ground (arith, h)),
    λ e. ground (arith, h, eq_iff a b, e),
  )

  pub ends-is_drawn :
      (visible : List Node) (a b : String)
      → IsDrawnId visible a
      → IsDrawnId visible b
      → a ≢ b
      → is_drawn (node_ids locale t visible) a b ≡ true
  ends-is_drawn visible a b p q ne = ground (
    arith,
    eq_iff a "",
    eq_iff b "",
    eq_iff a b,
    p.0,
    q.0,
    ne,
    IsDrawnId-has_id visible a p,
    IsDrawnId-has_id visible b q,
  )

  -- The link is drawn, and its ends in the normal direction are joined to this text.
  abbrev pub JoinsAs : List Node → Link → String → Type 0
  JoinsAs visible l k =
      (a : String) × (b : String) × (x : String) × (y : String) × IsDrawnLink visible l a b
      × IsNormal a b x y
      × (x <> "->" <> y ≡ k)
