-- ===== src/Client/Page/Aliases.antt =====
-- App.jsx: what the dialog of the aliases leaves behind.
use mathlib.Core.Path.{ap₂}
use io_t_midterm_availabilit.Base.{
  String, ◌≡◌, ◌≢◌, refl, sym, ap, ◌∙◌, subst, inl, inr, true, false, not, Option, none, some, List,
  [], ◌∷◌, arith, ◌=ₛ◌, eq_iff, eq_refl, Bool-cases, either_branch, if◌then◌else◌, In, here, there,
  In-cons, Pairs, filter, Dict, lookup, lookup-put, lookup-put_other,
}
use io_t_midterm_availabilit.Js.Text.{trim}
use io_t_midterm_availabilit.Js.Trim.{trim_again}
use io_t_midterm_availabilit.Js.Value.{Value, str}
use io_t_midterm_availabilit.Client.Parsers.{Node}
use io_t_midterm_availabilit.Client.Endpoint.{Locale}
use io_t_midterm_availabilit.Client.Presentation.{
  get_node_alias_key, resolve_node_alias, shown_text, normalize_alias, value_or_undefined,
}
use io_t_midterm_availabilit.Client.Page.{
  Page, remove, draft_or, draft_at, save_named, save_alias, save_aliases, save_alias_modal,
}

lookup-remove :
    (k j : String) (d : Dict Value) → lookup k (remove j d) ≡ (if j =ₛ k then none else lookup k d)
unfolding lookup remove filter
lookup-remove k j [] = either_branch (λ x. none ≡ x) (j =ₛ k) none none refl refl
lookup-remove k j ((i, v) ∷ d) = elim (Bool-cases (i =ₛ j)) [
  | inl e ↦ rw e (lookup-remove k j d ∙ gone e)
  | inr e ↦ rw e (kept e (lookup-remove k j d))
]
  where
    gone :
        (i =ₛ j) ≡ true
        → (if j =ₛ k then none else lookup k d)
          ≡ (if j =ₛ k then none else (if i =ₛ k then some v else lookup k d))
    gone e = ground (arith, eq_iff i j, eq_iff j k, eq_iff i k)

    kept :
        (i =ₛ j) ≡ false
        → lookup k (remove j d) ≡ (if j =ₛ k then none else lookup k d)
        → (if i =ₛ k then some v else lookup k (remove j d))
          ≡ (if j =ₛ k then none else (if i =ₛ k then some v else lookup k d))
    kept e rest = ground (arith, rest, eq_iff i j, eq_iff j k, eq_iff i k)

lookup-save_named_key :
    (key id alias : String) (d : Dict Value)
    → lookup key (save_named key id alias d) ≡ (if alias =ₛ "" then none else some (str alias))
unfolding save_named
lookup-save_named_key key id alias d = elim (Bool-cases (alias =ₛ "")) [
  | inl e ↦ rw e (ground (arith, lookup-remove key key (remove id d), eq_refl key))
  | inr e ↦ rw e (lookup-put key (str alias) (remove id d))
]

lookup-save_named_id :
    (key id alias : String) (d : Dict Value)
    → (alias =ₛ "") ≡ true
    → lookup id (save_named key id alias d) ≡ none
unfolding save_named
lookup-save_named_id key id alias d e =
    rw e (ground (arith, lookup-remove id key (remove id d), lookup-remove id id d, eq_refl id))

lookup-save_named_other :
    (key id alias : String) (d : Dict Value) (k : String)
    → k ≢ key
    → k ≢ id
    → lookup k (save_named key id alias d) ≡ lookup k d
unfolding save_named
lookup-save_named_other key id alias d k other_key other_id = elim (Bool-cases (alias =ₛ "")) [
  | inl e ↦ rw e (
      ground
        (arith, lookup-remove k key (remove id d), lookup-remove k id d, eq_iff key k, eq_iff id k))
  | inr e ↦ rw e (
      lookup-put_other k key (str alias) (remove id d) (λ q. other_key (sym q))
      ∙ ground (arith, lookup-remove k id d, eq_iff id k))
]

-- The alias from the entries under the key and under the id.
abbrev alias_from : Option Value → Option Value → String
alias_from by_key by_id =
    let alias = normalize_alias (value_or_undefined by_key) in
    if not (alias =ₛ "") then alias else normalize_alias (value_or_undefined by_id)

alias_from-text :
    (draft : String) (by_id : Option Value)
    → ((trim draft =ₛ "") ≡ true → by_id ≡ none)
    → alias_from (if trim draft =ₛ "" then none else some (str (trim draft))) by_id ≡ trim draft
alias_from-text draft by_id gone = elim (Bool-cases (trim draft =ₛ "")) [
  | inl e ↦ rw e (rw (gone e) (ground (arith, eq_iff (trim draft) "")))
  | inr e ↦ rw e (rw (trim_again draft) (rw e refl))
]

module _ (locale : Locale) where
  -- Two nodes of which neither has the other's key or id.
  abbrev pub IsSeparate : Node → Node → Type 0
  IsSeparate a b =
      (get_node_alias_key locale a ≢ get_node_alias_key locale b)
      × (get_node_alias_key locale a ≢ shown_text locale b.id)
      × (shown_text locale a.id ≢ get_node_alias_key locale b)
      × (shown_text locale a.id ≢ shown_text locale b.id)

  resolve_node_alias-save_alias :
      (drafts : Dict String) (n : Node) (d : Dict Value)
      → resolve_node_alias locale n (save_alias locale drafts n d) ≡ draft_at locale drafts n
  unfolding save_alias resolve_node_alias
  resolve_node_alias-save_alias drafts n d =
      let key = get_node_alias_key locale n in
      let id = shown_text locale n.id in
      let draft = draft_or (lookup key drafts) "" in
      ap (λ x. alias_from x (lookup id (save_named key id (trim draft) d)))
        (lookup-save_named_key key id (trim draft) d)
      ∙ alias_from-text draft _ (lookup-save_named_id key id (trim draft) d)

  resolve_node_alias-save_alias_other :
      (drafts : Dict String) (n m : Node) (d : Dict Value)
      → IsSeparate n m
      → resolve_node_alias locale n (save_alias locale drafts m d) ≡ resolve_node_alias locale n d
  unfolding save_alias resolve_node_alias
  resolve_node_alias-save_alias_other drafts n m d (p, q, r, t) =
      let key = get_node_alias_key locale m in
      let id = shown_text locale m.id in
      ap₂ alias_from
        (lookup-save_named_other key id (draft_at locale drafts m) d (get_node_alias_key locale n) p
          q)
        (lookup-save_named_other key id (draft_at locale drafts m) d (shown_text locale n.id) r t)

  resolve_node_alias-save_aliases_other :
      (drafts : Dict String) (n : Node) (ms : List Node) (d : Dict Value)
      → ((m : Node) → In m ms → IsSeparate n m)
      → resolve_node_alias locale n (save_aliases locale drafts ms d)
        ≡ resolve_node_alias locale n d
  unfolding save_aliases
  resolve_node_alias-save_aliases_other drafts n [] d apart = refl
  resolve_node_alias-save_aliases_other drafts n (m ∷ ms) d apart =
      resolve_node_alias-save_aliases_other drafts n ms (save_alias locale drafts m d)
        (λ x i. apart x (there i))
      ∙ resolve_node_alias-save_alias_other drafts n m d (apart m here)

  resolve_node_alias-save_aliases :
      (drafts : Dict String) (ns : List Node) (d : Dict Value) (n : Node)
      → Pairs IsSeparate ns
      → In n ns
      → resolve_node_alias locale n (save_aliases locale drafts ns d) ≡ draft_at locale drafts n
  unfolding save_aliases
  resolve_node_alias-save_aliases drafts [] d n apart i = elim i [ ]
  resolve_node_alias-save_aliases drafts (m ∷ ms) d n apart i = elim (In-cons i) [
    | inl same ↦
        subst
          (λ x.
            resolve_node_alias locale x
              (save_aliases locale drafts ms (save_alias locale drafts m d))
            ≡ draft_at locale drafts x)
          (sym same)
          (resolve_node_alias-save_aliases_other drafts m ms (save_alias locale drafts m d) apart.0
            ∙ resolve_node_alias-save_alias drafts m d)
    | inr j ↦ resolve_node_alias-save_aliases drafts ms (save_alias locale drafts m d) n apart.1 j
  ]

-- After the dialog is saved, every edge has the alias that its draft says, trimmed, and none where
-- that is empty, also where an alias was stored under its id before; the dialog is closed. No two
-- edges may share an endpoint or an id, and none may have another's id as its endpoint.
pub save_alias_modal-resolve_node_alias :
    (locale : Locale) (edges : List Node) (p : Page) (n : Node)
    → Pairs (IsSeparate locale) edges
    → In n edges
    → (resolve_node_alias locale n (save_alias_modal locale edges p).node_aliases
        ≡ draft_at locale p.alias_drafts n)
      × ((save_alias_modal locale edges p).is_alias_modal_open ≡ false)
unfolding save_alias_modal
save_alias_modal-resolve_node_alias locale edges p n apart i =
    (resolve_node_alias-save_aliases locale p.alias_drafts edges p.node_aliases n apart i, refl)
