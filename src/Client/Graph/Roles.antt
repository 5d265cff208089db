-- ===== src/Client/Graph/Roles.antt =====
-- topologyGraphModel.js: `buildRoleMap`, in which the last node with an id gives its role.
use io_t_midterm_availabilit.Base.{
  String, ◌≡◌, refl, sym, ap, ◌∙◌, ◌↔◌, ◌⊎◌, inl, inr, Bool, Bool-cases, true, false, ◌&&◌, List,
  [], ◌∷◌, ◌++◌, All, arith, ◌=ₛ◌, eq_iff, if◌then◌else◌,
}
use io_t_midterm_availabilit.Js.Number.{Number}
use io_t_midterm_availabilit.Js.Value.{Value, undefined, null, str, truthy, is_text, is_text_iff}
use io_t_midterm_availabilit.Client.Parsers.{Node, Table}
use io_t_midterm_availabilit.Client.Visibility.{text_of}
use io_t_midterm_availabilit.Client.Graph.{role_or_node, role_in, is_core_in}

module _ (number_text : Number → String) where
  -- The node has this text as its id.
  abbrev pub HasTextId : String → Node → Type 0
  HasTextId a n = (truthy n.id ≡ true) × (text_of number_text n.id ≡ a)

  -- The last node with the id is a core.
  pub record IsCoreId (t : Table) (a : String) : Type 0 where
    pub node : Node
    pub before : List Node
    pub after : List Node
    pub split : t.nodes ≡ before ++ node ∷ after
    pub named : HasTextId a node
    pub last : All (λ n. ¬ HasTextId a n) after
    pub role : node.role ≡ str "CORE"

  abbrev has_text : String → Node → Bool
  has_text a n = truthy n.id && text_of number_text n.id =ₛ a

  has_text_iff : (a : String) (n : Node) → (has_text a n ≡ true) ↔ HasTextId a n
  has_text_iff a n = ground (arith, eq_iff (text_of number_text n.id) a)

  is_core_role : (r : Value) → (is_text (role_or_node r) "CORE" ≡ true) ↔ (r ≡ str "CORE")
  is_core_role undefined = ground arith
  is_core_role null = ground arith
  is_core_role (str s) = is_text_iff (str s) "CORE"
  is_core_role r = is_text_iff r "CORE"

  role_in-none :
      (a : String) (ns : List Node) (found : Value)
      → All (λ n. ¬ HasTextId a n) ns
      → role_in number_text ns a found ≡ found
  unfolding role_in
  role_in-none a [] found h = refl
  role_in-none a (n ∷ ns) found h = elim (Bool-cases (has_text a n)) [
    | inl e ↦ absurd (h.0 ((has_text_iff a n).0 e))
    | inr e ↦ rw e (role_in-none a ns found h.1)
  ]

  role_in-last :
      (a : String) (before after : List Node) (n : Node) (found : Value)
      → HasTextId a n
      → All (λ x. ¬ HasTextId a x) after
      → role_in number_text (before ++ n ∷ after) a found ≡ role_or_node n.role
  unfolding role_in
  role_in-last a [] after n found named last =
      role_in-none a after (if has_text a n then role_or_node n.role else found) last
      ∙ rw ((has_text_iff a n).1 named) refl
  role_in-last a (x ∷ before) after n found named last = role_in-last a before after n _ named last

  -- Where the role comes from.
  role_in-cases :
      (a : String) (ns : List Node) (found : Value)
      → ((n : Node) × (before : List Node) × (after : List Node) × (ns ≡ before ++ n ∷ after)
          × HasTextId a n
          × All (λ x. ¬ HasTextId a x) after
          × (role_in number_text ns a found ≡ role_or_node n.role))
        ⊎ (All (λ x. ¬ HasTextId a x) ns × (role_in number_text ns a found ≡ found))
  unfolding role_in
  role_in-cases a [] found = inr (tt, refl)
  role_in-cases a (x ∷ ns) found =
      elim (role_in-cases a ns (if has_text a x then role_or_node x.role else found)) [
        | inl (n, before, after, e, named, last, r) ↦
            inl (n, x ∷ before, after, ap (λ ys. x ∷ ys) e, named, last, r)
        | inr (absent, r) ↦ elim (Bool-cases (has_text a x)) [
          | inl e ↦ inl (x, [], ns, refl, (has_text_iff a x).0 e, absent, r ∙ rw e refl)
          | inr e ↦ inr (((λ h. cc (sym e ∙ (has_text_iff a x).1 h)), absent), r ∙ rw e refl)
        ]
      ]

  is_core_in-IsCoreId : (t : Table) (a : String) → is_core_in number_text t a ≡ true → IsCoreId t a
  unfolding is_core_in
  is_core_in-IsCoreId t a h = elim (role_in-cases a t.nodes (str "NODE")) [
    | inl (n, before, after, e, named, last, r) ↦ record {
      node = n;
      before = before;
      after = after;
      split = e;
      named = named;
      last = last;
      role = (is_core_role n.role).0 (rw r at h);
    }
    | inr (absent, r) ↦ ground (arith, rw r at h)
  ]

  IsCoreId-is_core_in : (t : Table) (a : String) → IsCoreId t a → is_core_in number_text t a ≡ true
  unfolding is_core_in
  IsCoreId-is_core_in t a c =
      rw (c.split, role_in-last a c.before c.after c.node (str "NODE") c.named c.last)
        ((is_core_role c.node.role).1 c.role)

  pub is_core_in_iff : (t : Table) (a : String) → (is_core_in number_text t a ≡ true) ↔ IsCoreId t a
  is_core_in_iff t a = (is_core_in-IsCoreId t a, IsCoreId-is_core_in t a)

  is_core_in-false : (t : Table) (a : String) → ¬ IsCoreId t a → is_core_in number_text t a ≡ false
  is_core_in-false t a n = elim (Bool-cases (is_core_in number_text t a)) [
    | inl e ↦ absurd (n (is_core_in-IsCoreId t a e))
    | inr e ↦ e
  ]

  -- One is a core and the other is not.
  pub core_first_iff :
      (t : Table) (a b : String)
      → ((is_core_in number_text t a ≡ true) × (is_core_in number_text t b ≡ false))
        ↔ (IsCoreId t a × ¬ IsCoreId t b)
  core_first_iff t a b = (
    λ h. (is_core_in-IsCoreId t a h.0, (λ c. cc (sym h.1 ∙ IsCoreId-is_core_in t b c))),
    λ h. (IsCoreId-is_core_in t a h.0, is_core_in-false t b h.1),
  )

  -- Both are cores or neither is.
  pub alike_iff :
      (t : Table) (a b : String)
      → (is_core_in number_text t a ≡ is_core_in number_text t b) ↔ (IsCoreId t a ↔ IsCoreId t b)
  alike_iff t a b = (
    λ h. (
      λ c. is_core_in-IsCoreId t b (sym h ∙ IsCoreId-is_core_in t a c),
      λ c. is_core_in-IsCoreId t a (h ∙ IsCoreId-is_core_in t b c),
    ),
    λ h. elim (Bool-cases (is_core_in number_text t a)) [
      | inl e ↦ e ∙ sym (IsCoreId-is_core_in t b (h.0 (is_core_in-IsCoreId t a e)))
      | inr e ↦ e ∙ sym (is_core_in-false t b (λ c. cc (sym e ∙ IsCoreId-is_core_in t a (h.1 c))))
    ],
  )
