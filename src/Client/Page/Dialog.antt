-- ===== src/Client/Page/Dialog.antt =====
-- App.jsx: the dialog of the aliases, from its opening over the typing to the saving.
use io_t_midterm_availabilit.Base.{
  String, Bool, ◌≡◌, refl, sym, ap, ◌∙◌, subst, inl, inr, true, false, some, List, [], ◌∷◌, arith,
  ◌=ₛ◌, Bool-cases, either_branch, ◌&&◌, if◌then◌else◌, In, here, there, In-cons, Pairs, Dict,
  lookup, lookup-put, lookup-put_other,
}
use io_t_midterm_availabilit.Js.Text.{trim}
use io_t_midterm_availabilit.Js.Trim.{trim_again}
use io_t_midterm_availabilit.Js.Value.{Value, str, truthy}
use io_t_midterm_availabilit.Client.Parsers.{Node}
use io_t_midterm_availabilit.Client.Endpoint.{Locale}
use io_t_midterm_availabilit.Client.Presentation.{
  get_node_alias_key, resolve_node_alias, normalize_alias, alias_at, shown_text,
}
use io_t_midterm_availabilit.Client.Page.{
  Page, draft_or, drafts_of, kept_drafts, open_alias_modal, refresh_drafts, toggle_critical_filter,
  close_alias_modal, on_key_down, save_alias_modal,
}
use io_t_midterm_availabilit.Client.Page.Actions.{
  Action, click_event, open_aliases, edit_alias, save_aliases_clicked, press_key, edges_changed,
  sync_url, reset_filters, select_source, edit_draft, handle, handle_all,
}
use io_t_midterm_availabilit.Client.Page.Aliases.{IsSeparate, save_alias_modal-resolve_node_alias}

-- What is done while the dialog is open, until it is saved or opened again.
abbrev pub is_between : Action → Bool
is_between open_aliases = false
is_between save_aliases_clicked = false
is_between _ = true

abbrev pub IsBetween : List Action → Type 0
IsBetween [] = Unit
IsBetween (a ∷ actions) = (is_between a ≡ true) × IsBetween actions

trim-normalize_alias : (v : Value) → trim (normalize_alias v) ≡ normalize_alias v
unfolding trim
trim-normalize_alias (str s) = trim_again s
trim-normalize_alias _ = refl

module _ (locale : Locale) where
  abbrev typed_next : Node → Action → String → String
  typed_next n (edit_alias m value) text =
      if get_node_alias_key locale m =ₛ get_node_alias_key locale n then value else text
  typed_next n _ text = text

  -- What was last typed for the node, or the text that was there before.
  unfoldable pub typed : Node → List Action → String → String
  typed n [] text = text
  typed n (a ∷ actions) text = typed n actions (typed_next n a text)

  trim-resolve_node_alias :
      (n : Node) (aliases : Dict Value)
      → trim (resolve_node_alias locale n aliases) ≡ resolve_node_alias locale n aliases
  unfolding resolve_node_alias
  trim-resolve_node_alias n aliases =
      let key = get_node_alias_key locale n in
      elim (Bool-cases (normalize_alias (alias_at aliases key) =ₛ "")) [
        | inl e ↦ rw e (trim-normalize_alias (alias_at aliases (shown_text locale n.id)))
        | inr e ↦ rw e (trim-normalize_alias (alias_at aliases key))
      ]

  drafts_of-kept_drafts :
      (aliases : Dict Value) (ns : List Node) (d : Dict String)
      → drafts_of locale aliases ns d ≡ kept_drafts locale aliases [] ns d
  unfolding drafts_of kept_drafts lookup
  drafts_of-kept_drafts aliases [] d = refl
  drafts_of-kept_drafts aliases (n ∷ ns) d = drafts_of-kept_drafts aliases ns _

  lookup-kept_drafts_other :
      (aliases : Dict Value) (previous : Dict String) (n : Node) (ms : List Node) (d : Dict String)
      → ((m : Node) → In m ms → IsSeparate locale n m)
      → lookup (get_node_alias_key locale n) (kept_drafts locale aliases previous ms d)
        ≡ lookup (get_node_alias_key locale n) d
  unfolding kept_drafts
  lookup-kept_drafts_other aliases previous n [] d apart = refl
  lookup-kept_drafts_other aliases previous n (m ∷ ms) d apart =
      lookup-kept_drafts_other aliases previous n ms _ (λ x i. apart x (there i))
      ∙ lookup-put_other (get_node_alias_key locale n) (get_node_alias_key locale m) _ d
          (λ q. (apart m here).0 (sym q))

  lookup-kept_drafts :
      (aliases : Dict Value) (previous : Dict String) (ns : List Node) (d : Dict String) (n : Node)
      → Pairs (IsSeparate locale) ns
      → In n ns
      → lookup (get_node_alias_key locale n) (kept_drafts locale aliases previous ns d)
        ≡ some (
            draft_or
              (lookup (get_node_alias_key locale n) previous)
              (resolve_node_alias locale n aliases))
  unfolding kept_drafts
  lookup-kept_drafts aliases previous [] d n apart i = elim i [ ]
  lookup-kept_drafts aliases previous (m ∷ ms) d n apart i = elim (In-cons i) [
    | inl same ↦
        subst
          (λ x.
            lookup (get_node_alias_key locale x) (kept_drafts locale aliases previous (m ∷ ms) d)
            ≡ some (
                draft_or (lookup (get_node_alias_key locale x) previous)
                  (resolve_node_alias locale x aliases)))
          (sym same)
          (lookup-kept_drafts_other aliases previous m ms _ apart.0
            ∙ lookup-put (get_node_alias_key locale m) _ d)
    | inr j ↦ lookup-kept_drafts aliases previous ms _ n apart.1 j
  ]

  -- The dialog has the text as the node's draft.
  abbrev Shows : Node → String → Page → Type 0
  Shows n text p = lookup (get_node_alias_key locale n) p.alias_drafts ≡ some text

  open_alias_modal-Shows :
      (edges : List Node) (p : Page) (n : Node)
      → Pairs (IsSeparate locale) edges
      → In n edges
      → Shows n (resolve_node_alias locale n p.node_aliases) (open_alias_modal locale edges p)
  unfolding open_alias_modal lookup
  open_alias_modal-Shows edges p n apart i =
      ap (lookup (get_node_alias_key locale n)) (drafts_of-kept_drafts p.node_aliases edges [])
      ∙ lookup-kept_drafts p.node_aliases [] edges [] n apart i

  refresh_drafts-Shows :
      (edges : List Node) (p : Page) (n : Node) (text : String)
      → Pairs (IsSeparate locale) edges
      → In n edges
      → Shows n text p
      → Shows n text (refresh_drafts locale edges p)
  unfolding refresh_drafts
  refresh_drafts-Shows edges p n text apart i shown = elim (Bool-cases p.is_alias_modal_open) [
    | inl e ↦ rw e (
        lookup-kept_drafts p.node_aliases p.alias_drafts edges [] n apart i
        ∙ ap (λ x. some (draft_or x (resolve_node_alias locale n p.node_aliases))) shown)
    | inr e ↦ rw e shown
  ]

  edit_draft-Shows :
      (p : Page) (n m : Node) (value text : String)
      → Shows n text p
      → Shows n
          (if get_node_alias_key locale m =ₛ get_node_alias_key locale n then value else text)
          (edit_draft locale m value p)
  unfolding edit_draft lookup
  edit_draft-Shows p n m value text shown =
      elim (Bool-cases (get_node_alias_key locale m =ₛ get_node_alias_key locale n)) [
        | inl e ↦ rw e refl
        | inr e ↦ rw e shown
      ]

  handle-Shows :
      (edges : List Node) (a : Action) (p : Page) (n : Node) (text : String)
      → Pairs (IsSeparate locale) edges
      → In n edges
      → is_between a ≡ true
      → Shows n text p
      → Shows n (typed_next n a text) (handle locale edges a p)
  unfolding handle select_source reset_filters toggle_critical_filter close_alias_modal on_key_down
      sync_url
  handle-Shows edges open_aliases p n text apart i e shown = ground arith
  handle-Shows edges save_aliases_clicked p n text apart i e shown = ground arith
  handle-Shows edges (edit_alias m value) p n text apart i e shown =
      edit_draft-Shows p n m value text shown
  handle-Shows edges edges_changed p n text apart i e shown =
      refresh_drafts-Shows edges p n text apart i shown
  handle-Shows edges (click_event v) p n text apart i e shown =
      either_branch (λ x. Shows n text x) (truthy v) (record p { selected_node_id = some v }) p
        shown shown
  handle-Shows edges (press_key key) p n text apart i e shown =
      either_branch (λ x. Shows n text x) (p.is_alias_modal_open && key =ₛ "Escape")
        (record p { is_alias_modal_open = false }) p shown shown
  handle-Shows edges _ p n text apart i e shown = shown

  -- The text is shown after any number of actions that neither save nor open the dialog.
  handle_all-Shows :
      (edges : List Node) (actions : List Action) (p : Page) (n : Node) (text : String)
      → Pairs (IsSeparate locale) edges
      → In n edges
      → IsBetween actions
      → Shows n text p
      → Shows n (typed n actions text) (handle_all locale edges actions p)
  unfolding handle_all typed
  handle_all-Shows edges [] p n text apart i between shown = shown
  handle_all-Shows edges (a ∷ actions) p n text apart i (first, between) shown =
      handle_all-Shows edges actions (handle locale edges a p) n (typed_next n a text) apart i
        between (handle-Shows edges a p n text apart i first shown)

-- The dialog of the aliases is opened, anything else is done to the page, then it is saved. After
-- that every edge has as its alias what was last typed for it, trimmed, or its old alias where
-- nothing was typed; the dialog is closed. In between the dialog may follow the edges again, but
-- it is neither saved nor opened, and the edges stay the same. No two edges may share an endpoint
-- or an id, and none may have another's id as its endpoint.
pub save_alias_modal-handle_all :
    (locale : Locale) (edges : List Node) (p : Page) (actions : List Action) (n : Node)
    → Pairs (IsSeparate locale) edges
    → In n edges
    → IsBetween actions
    → let before_alias = resolve_node_alias locale n p.node_aliases in
      let saved =
        save_alias_modal locale edges
          (handle_all locale edges actions (open_alias_modal locale edges p)) in
      (resolve_node_alias locale n saved.node_aliases ≡ trim (typed locale n actions before_alias))
      × (trim before_alias ≡ before_alias)
      × (saved.is_alias_modal_open ≡ false)
save_alias_modal-handle_all locale edges p actions n apart i between =
    let opened = open_alias_modal locale edges p in
    let done = handle_all locale edges actions opened in
    let (aliased, closed) = save_alias_modal-resolve_node_alias locale edges done n apart i in
    (
      aliased
          ∙ ap (λ x. trim (draft_or x ""))
              (handle_all-Shows locale edges actions opened n
                (resolve_node_alias locale n p.node_aliases) apart i between
                (open_alias_modal-Shows locale edges p n apart i)),
      trim-resolve_node_alias locale n p.node_aliases,
      closed,
    )
