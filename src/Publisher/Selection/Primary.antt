-- ===== src/Publisher/Selection/Primary.antt =====
-- `resolvePrimaryEdgeId` as the hook uses it: the id of the primary, found by its address.
use io_t_midterm_availabilit.Base.{
  String, ◌≡◌, ◌≢◌, refl, ◌↔◌, ◌⊎◌, inl, inr, Bool-cases, true, false, some, Option-cases, List,
  find, FirstOf, find-FirstOf, FirstOf-find, arith, eq_iff,
}
use io_t_midterm_availabilit.Js.Value.{
  Value, undefined, null, str, truthy, is_nullish, strict_eq, is_text_iff,
}
use io_t_midterm_availabilit.Publisher.Ct.{Ct, Node}
use io_t_midterm_availabilit.Publisher.Selection.{is_primary, id_of, resolve_primary_edge_id}

-- The edge at the address of the primary.
abbrev pub IsEdgeAt : String → Node → Type 0
IsEdgeAt ip n = (n.role ≡ str "NODE") × (n.ip ≡ str ip)

-- The table's first edge at the primary's address, which has an id.
abbrev pub NamesPrimary : String → Ct → Node → Type 0
NamesPrimary ip next n =
    (ip ≢ "")
    × ((ns : List Node) × (next.nodes ≡ some ns) × FirstOf (IsEdgeAt ip) ns n)
    × (truthy n.id ≡ true)

-- The id of the primary: the table's, or the one known before.
abbrev pub IsPrimaryId : String → Value → Ct → Value → Type 0
IsPrimaryId ip known next id =
    ((n : Node) × NamesPrimary ip next n × (id ≡ n.id))
    ⊎ (((n : Node) → ¬ NamesPrimary ip next n) × (id ≡ known))

strict_eq_text_iff : (v : Value) (t : String) → (strict_eq v (str t) ≡ true) ↔ (v ≡ str t)
strict_eq_text_iff (str s) t = ground (arith, eq_iff s t)
strict_eq_text_iff undefined t = ground arith
strict_eq_text_iff _ t = ground arith

is_primary_iff : (ip : String) (n : Node) → (is_primary (str ip) null n ≡ true) ↔ IsEdgeAt ip n
is_primary_iff ip n = ground (arith, is_text_iff n.role "NODE", strict_eq_text_iff n.ip ip)

truthy-id_of : (n : Node) → truthy (id_of (some n)) ≡ truthy n.id
truthy-id_of n = elim (Bool-cases (is_nullish n.id)) [
  | inl e ↦ rw e (falsy n.id e)
  | inr e ↦ rw e refl
]
  where
    falsy : (v : Value) → is_nullish v ≡ true → false ≡ truthy v
    falsy undefined h = refl
    falsy null h = refl
    falsy _ h = cc

id_of-truthy : (n : Node) → truthy n.id ≡ true → id_of (some n) ≡ n.id
id_of-truthy n h = elim (Bool-cases (is_nullish n.id)) [
  | inl e ↦ rw e (same n.id e h)
  | inr e ↦ rw e refl
]
  where
    same : (v : Value) → is_nullish v ≡ true → truthy v ≡ true → null ≡ v
    same undefined e h = cc
    same null e h = refl
    same _ e h = cc

pub resolve_primary_edge_id-NamesPrimary :
    (ip : String) (next : Ct) (n : Node)
    → NamesPrimary ip next n
    → resolve_primary_edge_id (some next) (str ip) null ≡ n.id
unfolding resolve_primary_edge_id
resolve_primary_edge_id-NamesPrimary ip next n (text, (ns, e, first), known) =
    rw (e, FirstOf-find (is_primary (str ip) null) (IsEdgeAt ip) (is_primary_iff ip) ns n first)
      (id_of-truthy n known)

pub resolve_primary_edge_id-absent :
    (ip : String) (next : Ct)
    → ip ≢ ""
    → ((n : Node) → ¬ NamesPrimary ip next n)
    → truthy (resolve_primary_edge_id (some next) (str ip) null) ≡ false
unfolding resolve_primary_edge_id
resolve_primary_edge_id-absent ip next text absent = elim (Option-cases next.nodes) [
  | inl e ↦ rw e refl
  | inr (ns, e) ↦ elim (Option-cases (find (is_primary (str ip) null) ns)) [
    | inl f ↦ rw (e, f) refl
    | inr (n, f) ↦ elim (Bool-cases (truthy n.id)) [
      | inl known ↦
          let first =
            find-FirstOf (is_primary (str ip) null) (IsEdgeAt ip) (is_primary_iff ip) ns n f in
          absurd (absent n (text, (ns, e, first), known))
      | inr nameless ↦ rw (e, f, truthy-id_of n) nameless
    ]
  ]
]
