-- ===== src/Client/Page.antt =====
-- client/src/App.jsx: the state of the page, the order of the broker list, the filters of the
-- events, and the dialog in which edges are given aliases.
mod Tests
pub mod Actions
pub mod Aliases
pub mod Dialog
pub mod Incidents
use io_t_midterm_availabilit.Base.{
  ℕ, zero, suc, String, Bool, true, false, not, ◌&&◌, ◌||◌, Option, none, some, List, [], ◌∷◌, ◌++◌,
  map, filter, any, length, ◌=ₛ◌, ltb, if◌then◌else◌, Comparison, before, equal, after, sort_by,
  Dict, put, lookup,
}
use io_t_midterm_availabilit.Js.Text.{trim, decimal}
use io_t_midterm_availabilit.Js.Value.{
  Value, str, obj, arr, Members, end, member, Elements, nil, cons, get, truthy, strict_eq, is_text,
}
use io_t_midterm_availabilit.Js.ValueMap.{ValueMap, get_value}
use io_t_midterm_availabilit.Client.Parsers.{Node, Table, MqttMessage}
use io_t_midterm_availabilit.Client.Endpoint.{Locale}
use io_t_midterm_availabilit.Client.Presentation.{
  Presentation, get_node_alias_key, resolve_node_alias, shown_text, nodes_of,
}
use io_t_midterm_availabilit.Client.EventView.{EventPresentation}

-- `delete d[k]`
unfoldable pub remove {ℓ} : {A : Type ℓ} → String → Dict A → Dict A
remove k d = filter (λ (p : String × _). not (p.0 =ₛ k)) d

-- A parsed object as an object of aliases; the last of two members with one name stays.
abbrev members_dict : Members → Dict Value → Dict Value
members_dict end d = d
members_dict (member k v ms) d = members_dict ms (put k v d)

-- An array has its indices as names.
abbrev elements_dict : ℕ → Elements → Dict Value → Dict Value
elements_dict i nil d = d
elements_dict i (cons v vs) d = elements_dict (suc i) vs (put (decimal i) v d)

abbrev aliases_in : Option Value → Dict Value
aliases_in (some (obj ms)) = members_dict ms []
aliases_in (some (arr vs)) = elements_dict 0 vs []
aliases_in _ = []

abbrev stored_text : Option String → String
stored_text none = ""
stored_text (some raw) = raw

-- What the storage has under the key; `json_parse` is none where `JSON.parse` throws.
unfoldable pub load_node_aliases : (String → Option Value) → Option String → Dict Value
load_node_aliases json_parse raw =
    if stored_text raw =ₛ "" then [] else aliases_in (json_parse (stored_text raw))

-- The comparator of `sortNodes`.
unfoldable pub compare_brokers : Node → Node → Comparison
compare_brokers a b =
    if not (strict_eq a.role b.role)
    then (if is_text a.role "CORE" then before else after)
    else if not (strict_eq a.status b.status)
    then (if is_text a.status "ONLINE" then before else after)
    else equal

unfoldable pub sort_nodes : List Node → List Node
unfolding compare_brokers sort_by
sort_nodes nodes = sort_by compare_brokers nodes

-- `nodeDisplayMap.get(node.id)?.edgeNumber`, less where both are there; a node without a number
-- comes behind all that have one, which the source has as `Number.MAX_SAFE_INTEGER`.
abbrev compare_edge_numbers : Option ℕ → Option ℕ → Comparison
compare_edge_numbers (some i) (some j) =
    if ltb i j then before else if ltb j i then after else equal
compare_edge_numbers (some i) none = before
compare_edge_numbers none (some j) = after
compare_edge_numbers none none = equal

abbrev number_in : Option Presentation → Option ℕ
number_in none = none
number_in (some p) = p.edge_number

abbrev edge_number_of : Dict Presentation → Value → Option ℕ
edge_number_of displays (str s) = number_in (lookup s displays)
edge_number_of displays _ = none

unfoldable pub edge_nodes : Option Table → Dict Presentation → List Node
unfolding sort_by filter lookup
edge_nodes t displays =
    sort_by
      (λ (a : Node) b.
        compare_edge_numbers (edge_number_of displays a.id) (edge_number_of displays b.id))
      (filter (λ (n : Node). not (is_text n.role "CORE")) (nodes t))
  where
    nodes : Option Table → List Node
    nodes none = []
    nodes (some table) = table.nodes

-- The values of a `Set`, in the order in which they came, without those that are falsy.
unfoldable pub unique : List Value → List Value → List Value
unique seen [] = []
unique seen (v ∷ vs) =
    let rest = unique (v ∷ seen) vs in
    let others = unique seen vs in
    if not (truthy v) || any (strict_eq v) seen then others else v ∷ rest

unfoldable pub options_of : List Value → List Value
unfolding unique any
options_of vs = str "ALL" ∷ unique [] vs

unfoldable pub event_types : List MqttMessage → List Value
unfolding options_of
event_types es = options_of (map (λ (e : MqttMessage). e.type) es)

unfoldable pub buildings : List MqttMessage → List Value
unfolding options_of
buildings es = options_of (map (λ (e : MqttMessage). get e.payload "building_id") es)

unfoldable pub source_nodes : ValueMap EventPresentation → List Value
unfolding options_of
source_nodes views = options_of (map (λ (p : Value × EventPresentation). p.1.source_id) views)

pub record Filters : Type 0 where
  pub type : String
  pub building : String
  pub source_id : String
  pub high_only : Bool

abbrev source_in : Option EventPresentation → String → Bool
source_in none id = false
source_in (some view) id = is_text view.source_id id

-- The test that an event passes to be listed.
unfoldable pub passes : Filters → ValueMap EventPresentation → MqttMessage → Bool
unfolding get_value
passes f views e =
    if not (f.type =ₛ "ALL") && not (is_text e.type f.type)
    then false
    else if not (f.building =ₛ "ALL") && not (is_text (get e.payload "building_id") f.building)
    then false
    else if not (f.source_id =ₛ "ALL") && not (source_in (get_value views e.msg_id) f.source_id)
    then false
    else not (f.high_only && not (is_text e.priority "HIGH"))

unfoldable pub filtered_events :
    Filters → ValueMap EventPresentation → List MqttMessage → List MqttMessage
unfolding passes filter
filtered_events f views es = filter (passes f views) es

unfoldable pub count_status : String → Option Table → ℕ
unfolding filter
count_status status none = 0
count_status status (some t) = length (filter (λ (n : Node). is_text n.status status) t.nodes)

unfoldable pub critical_count : List MqttMessage → ℕ
unfolding filter
critical_count es = length (filter (λ (e : MqttMessage). is_text e.priority "HIGH") es)

pub record Page : Type 0 where
  pub url_input : String
  pub node_aliases : Dict Value
  pub is_alias_modal_open : Bool
  pub alias_drafts : Dict String
  pub selected_node_id : Option Value
  pub filters : Filters

abbrev initial_page : String → Dict Value → Page
initial_page broker_url stored = record {
  url_input = broker_url;
  node_aliases = stored;
  is_alias_modal_open = false;
  alias_drafts = [];
  selected_node_id = none;
  filters = record { type = "ALL"; building = "ALL"; source_id = "ALL"; high_only = false };
}

unfoldable pub toggle_critical_filter : Page → Page
toggle_critical_filter p = record p {
  filters = record (p.filters) { high_only = not (p.filters).high_only };
}

unfoldable pub close_alias_modal : Page → Page
close_alias_modal p = record p { is_alias_modal_open = false }

unfoldable pub on_key_down : String → Page → Page
unfolding close_alias_modal
on_key_down key p = if p.is_alias_modal_open && key =ₛ "Escape" then close_alias_modal p else p

abbrev pub draft_or : Option String → String → String
draft_or none d = d
draft_or (some s) d = s

-- The alias of a node is set under its key, or deleted; the one under its id is deleted.
unfoldable pub save_named : String → String → String → Dict Value → Dict Value
unfolding remove
save_named key id alias aliases =
    let cleared = remove id aliases in
    if alias =ₛ "" then remove key cleared else put key (str alias) cleared

module _ (locale : Locale) where
  -- `{ ...autoNodeAliases, ...nodeAliases }`
  abbrev pub effective_node_aliases : Dict Value → Dict Value → Dict Value
  effective_node_aliases auto own = own ++ auto

  unfoldable pub drafts_of : Dict Value → List Node → Dict String → Dict String
  drafts_of aliases [] drafts = drafts
  drafts_of aliases (n ∷ ns) drafts =
      drafts_of aliases ns
        (put (get_node_alias_key locale n) (resolve_node_alias locale n aliases) drafts)

  unfoldable pub open_alias_modal : List Node → Page → Page
  unfolding drafts_of
  open_alias_modal edges p = record p {
    alias_drafts = drafts_of p.node_aliases edges [];
    is_alias_modal_open = true;
  }

  unfoldable pub kept_drafts : Dict Value → Dict String → List Node → Dict String → Dict String
  unfolding lookup
  kept_drafts aliases previous [] drafts = drafts
  kept_drafts aliases previous (n ∷ ns) drafts = kept_drafts aliases previous ns (
      put (get_node_alias_key locale n)
        (draft_or (lookup (get_node_alias_key locale n) previous)
          (resolve_node_alias locale n aliases))
        drafts)

  -- The effect that runs when the edges or the aliases change while the dialog is open.
  unfoldable pub refresh_drafts : List Node → Page → Page
  unfolding kept_drafts
  refresh_drafts edges p =
      if p.is_alias_modal_open
      then record p { alias_drafts = kept_drafts p.node_aliases p.alias_drafts edges [] }
      else p

  -- The trimmed draft of a node.
  abbrev pub draft_at : Dict String → Node → String
  draft_at drafts n = trim (draft_or (lookup (get_node_alias_key locale n) drafts) "")

  -- The body of `forEach` in `saveAliasModal`.
  unfoldable pub save_alias : Dict String → Node → Dict Value → Dict Value
  unfolding save_named trim lookup
  save_alias drafts n aliases =
      save_named (get_node_alias_key locale n) (shown_text locale n.id) (draft_at drafts n) aliases

  unfoldable pub save_aliases : Dict String → List Node → Dict Value → Dict Value
  unfolding save_alias
  save_aliases drafts [] aliases = aliases
  save_aliases drafts (n ∷ ns) aliases = save_aliases drafts ns (save_alias drafts n aliases)

  unfoldable pub save_alias_modal : List Node → Page → Page
  unfolding save_aliases
  save_alias_modal edges p = record p {
    node_aliases = save_aliases p.alias_drafts edges p.node_aliases;
    is_alias_modal_open = false;
  }
