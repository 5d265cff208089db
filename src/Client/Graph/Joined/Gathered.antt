-- ===== src/Client/Graph/Joined/Gathered.antt =====
-- topologyGraphModel.js: the times that the loop over the links gathers under a key.
use mathlib.Core.List.{append-nil, append_assoc}
use io_t_midterm_availabilit.Base.{
  String, ◌≡◌, refl, sym, ap, ◌∙◌, inl, inr, Bool, true, false, Option, List, [], ◌∷◌, ◌++◌, ◌&&◌,
  arith, ◌=ₛ◌, eq_iff, eq_refl, Bool-cases, either_branch, if◌then◌else◌, In, In-cons, Pairs,
}
use io_t_midterm_availabilit.Js.Number.{Number}
use io_t_midterm_availabilit.Js.Text.{◌<>◌}
use io_t_midterm_availabilit.Client.Parsers.{Link, Table}
use io_t_midterm_availabilit.Client.Endpoint.{Locale}
use io_t_midterm_availabilit.Client.Graph.{normalize_node_id}
use io_t_midterm_availabilit.Client.Graph.Joined.{
  Entry, values_of, add_entry, is_finite_positive_rtt, normalize_link_direction, is_drawn, add_link,
  add_links,
}
use io_t_midterm_availabilit.Client.Graph.Joined.Entries.{OtherKey, add_entry-Every}

append_choice :
    (b : Bool) (xs ys : List Number) → (if b then xs else []) ++ ys ≡ (if b then xs ++ ys else ys)
append_choice true xs ys = refl
append_choice false xs ys = refl

abbrev pub ends_key : Entry → String
ends_key e = e.from_id <> "->" <> e.to_id

-- The values under a key; none where there is no entry.
abbrev pub values_at : String → List Entry → List Number
values_at k [] = []
values_at k (e ∷ es) = if e.key =ₛ k then e.rtt_values else values_at k es

values_at-add_entry :
    (k key from to : String) (rtt : Option Number) (es : List Entry)
    → values_at k (add_entry key from to rtt es)
      ≡ values_at k es ++ (if key =ₛ k then values_of rtt else [])
unfolding add_entry
values_at-add_entry k key from to rtt [] = ground arith
values_at-add_entry k key from to rtt (e ∷ es) = elim (Bool-cases (e.key =ₛ key)) [
  | inl q ↦ elim (Bool-cases (e.key =ₛ k)) [
    | inl r ↦
        let same : (key =ₛ k) ≡ true =
          ground (arith, eq_iff e.key key, eq_iff e.key k, eq_iff key k) in
        rw q (rw r (rw same refl))
    | inr r ↦
        let other : (key =ₛ k) ≡ false =
          ground (arith, eq_iff e.key key, eq_iff e.key k, eq_iff key k) in
        rw q (rw r (rw other (sym (append-nil (values_at k es)))))
  ]
  | inr q ↦ elim (Bool-cases (e.key =ₛ k)) [
    | inl r ↦
        let other : (key =ₛ k) ≡ false =
          ground (arith, eq_iff e.key key, eq_iff e.key k, eq_iff key k, eq_refl k) in
        rw q (rw r (rw other (sym (append-nil e.rtt_values))))
    | inr r ↦ rw q (rw r (values_at-add_entry k key from to rtt es))
  ]
]

pub values_at-In :
    (es : List Entry)
    → Pairs OtherKey es
    → (e : Entry) → In e es
    → values_at e.key es ≡ e.rtt_values
values_at-In [] p e i = elim i [ ]
values_at-In (d ∷ es) p e i = elim (In-cons i) [
  | inl same ↦ rw same (rw (eq_refl d.key) refl)
  | inr j ↦
      let other : (d.key =ₛ e.key) ≡ false = ground (arith, eq_iff d.key e.key, p.0 e j) in
      rw other (values_at-In es p.1 e j)
]

module _ (locale : Locale) (t : Table) (ids : List String) where
  -- The key of the two ends of a link in the normal direction.
  abbrev pub key_of : Link → String
  key_of l =
      let ends =
        normalize_link_direction locale (normalize_node_id locale.number_text l.from_id)
          (normalize_node_id locale.number_text l.to_id) t in
      ends.0 <> "->" <> ends.1

  abbrev pub is_counted : Link → Bool
  is_counted l =
      is_drawn ids (normalize_node_id locale.number_text l.from_id)
        (normalize_node_id locale.number_text l.to_id)

  -- The positive finite times of the drawn links with the key, in the order of the table.
  abbrev pub times_of : String → List Link → List Number
  times_of k [] = []
  times_of k (l ∷ ls) =
      if is_counted l && key_of l =ₛ k
      then values_of (is_finite_positive_rtt l.rtt_ms) ++ times_of k ls
      else times_of k ls

  values_at-add_link :
      (k : String) (l : Link) (es : List Entry)
      → values_at k (add_link locale t ids l es)
        ≡ values_at k es
          ++ (if is_counted l && key_of l =ₛ k
              then values_of (is_finite_positive_rtt l.rtt_ms)
              else [])
  unfolding add_link
  values_at-add_link k l es = elim (Bool-cases (is_counted l)) [
    | inl e ↦
        let ends =
          normalize_link_direction locale (normalize_node_id locale.number_text l.from_id)
            (normalize_node_id locale.number_text l.to_id) t in
        rw e (
          values_at-add_entry k (ends.0 <> "->" <> ends.1) ends.0 ends.1
            (is_finite_positive_rtt l.rtt_ms) es)
    | inr e ↦ rw e (sym (append-nil (values_at k es)))
  ]

  pub values_at-add_links :
      (k : String) (ls : List Link) (es : List Entry)
      → values_at k (add_links locale t ids ls es) ≡ values_at k es ++ times_of k ls
  unfolding add_links add_link
  values_at-add_links k [] es = sym (append-nil (values_at k es))
  values_at-add_links k (l ∷ ls) es =
      values_at-add_links k ls (add_link locale t ids l es)
      ∙ ap (λ x. x ++ times_of k ls) (values_at-add_link k l es)
      ∙ append_assoc (values_at k es) _ (times_of k ls)
      ∙ ap (λ x. values_at k es ++ x)
          (append_choice (is_counted l && key_of l =ₛ k)
            (values_of (is_finite_positive_rtt l.rtt_ms)) (times_of k ls))

  add_link-ends_key :
      (l : Link) (es : List Entry)
      → ((e : Entry) → In e es → e.key ≡ ends_key e)
      → (e : Entry) → In e (add_link locale t ids l es)
      → e.key ≡ ends_key e
  unfolding add_link
  add_link-ends_key l es h =
      let ends =
        normalize_link_direction locale (normalize_node_id locale.number_text l.from_id)
          (normalize_node_id locale.number_text l.to_id) t in
      either_branch (λ xs. (e : Entry) → In e xs → e.key ≡ ends_key e) (is_counted l) _ es
        (add_entry-Every (ends.0 <> "->" <> ends.1) ends.0 ends.1 (is_finite_positive_rtt l.rtt_ms)
          (λ e. e.key ≡ ends_key e) es h refl (λ e p. p))
        h

  pub add_links-ends_key :
      (ls : List Link) (es : List Entry)
      → ((e : Entry) → In e es → e.key ≡ ends_key e)
      → (e : Entry) → In e (add_links locale t ids ls es)
      → e.key ≡ ends_key e
  unfolding add_links
  add_links-ends_key [] es h = h
  add_links-ends_key (l ∷ ls) es h =
      add_links-ends_key ls (add_link locale t ids l es) (add_link-ends_key l es h)
