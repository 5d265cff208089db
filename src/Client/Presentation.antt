-- ===== src/Client/Presentation.antt =====
-- client/src/mqtt/nodePresentation.js: the names under which nodes are shown.
mod Tests
pub mod Aliases
pub mod Numbers
pub mod Sorted
use io_t_midterm_availabilit.Base.{
  ℕ, zero, suc, ◌%◌, ◌*◌, ◌^◌, ◌==◌, String, Bool, true, false, not, ◌&&◌, ◌||◌, Option, none, some,
  List, [], ◌∷◌, map, filter, ◌=ₛ◌, if◌then◌else◌, pos, pos_part, neg_part, Comparison, before,
  equal, after, ◌then_by◌, sort_by, Dict, put, lookup,
}
use io_t_midterm_availabilit.Js.Number.{
  Number, fin, infinity, neg_infinity, num_ltb, num_eqb, whole,
}
use io_t_midterm_availabilit.Js.Text.{◌<>◌, trim, split_char, decimal}
use io_t_midterm_availabilit.Js.Value.{
  Value, undefined, null, num, str, arr, obj, get, truthy, is_nullish, is_text,
}
use io_t_midterm_availabilit.Client.Parsers.{Node, Table, MqttMessage}
use io_t_midterm_availabilit.Client.Visibility.{text_of}
use io_t_midterm_availabilit.Client.Graph.{normalize_node_id}
use io_t_midterm_availabilit.Client.Endpoint.{Locale, compare_node_endpoints}

abbrev pub normalize_alias : Value → String
normalize_alias (str s) = trim s
normalize_alias _ = ""

unfoldable pub format_edge_location_alias : Value → Value → String
format_edge_location_alias building_id camera_id =
    let building = normalize_alias building_id in
    let camera = normalize_alias camera_id in
    if not (building =ₛ "") then building else if not (camera =ₛ "") then camera else ""

abbrev string_or_empty : Value → String
string_or_empty (str s) = s
string_or_empty _ = ""

unfoldable pub resolve_event_node_id : MqttMessage → String
resolve_event_node_id e =
    let original_node = normalize_alias (get e.route "original_node") in
    if not (original_node =ₛ "") then original_node else string_or_empty (get e.source "id")

abbrev pub value_or_undefined : Option Value → Value
value_or_undefined none = undefined
value_or_undefined (some v) = v

-- `aliases[key]`
abbrev pub alias_at : Dict Value → String → Value
alias_at d k = value_or_undefined (lookup k d)

unfoldable pub add_alias : String → String → Dict Value → Dict Value
add_alias key alias d = if truthy (alias_at d key) then d else put key (str alias) d

pub record Presentation : Type 0 where
  pub edge_number : Option ℕ
  pub edge_label : Option String
  pub alias : Option String
  pub endpoint : String
  pub graph_label : String
  pub list_label : String
  pub filter_label : String

abbrev pub core_presentation : String → String → String → Presentation
core_presentation title graph endpoint = record {
  edge_number = none;
  edge_label = none;
  alias = none;
  endpoint = endpoint;
  graph_label = graph;
  list_label = title;
  filter_label = title;
}

abbrev pub edge_presentation : ℕ → String → String → Presentation
edge_presentation n alias endpoint =
    let label = "EDGE " <> decimal n in
    record {
      edge_number = some n;
      edge_label = some label;
      alias = some alias;
      endpoint = endpoint;
      graph_label = if alias =ₛ "" then label else label <> "\n" <> alias;
      list_label = if alias =ₛ "" then label else label <> " · " <> alias;
      filter_label = if alias =ₛ "" then label else label <> " · " <> alias;
    }

abbrev pub is_shown_core : Node → Bool
is_shown_core n = truthy n.id && is_text n.role "CORE"

abbrev pub is_shown_edge : Node → Bool
is_shown_edge n = truthy n.id && not (is_text n.role "CORE")

module _ (locale : Locale) where
  abbrev pub shown_text : Value → String
  shown_text v = text_of locale.number_text v

  unfoldable pub get_node_alias_key : Node → String
  get_node_alias_key n =
      if truthy n.ip
      then shown_text n.ip <> ":" <> normalize_node_id locale.number_text n.port
      else normalize_node_id locale.number_text n.id

  unfoldable pub resolve_node_alias : Node → Dict Value → String
  resolve_node_alias n aliases =
      let by_key = normalize_alias (alias_at aliases (get_node_alias_key n)) in
      if not (by_key =ₛ "") then by_key else normalize_alias (alias_at aliases (shown_text n.id))

  -- `nodeById.get(id)`: the last node with the text as its id.
  unfoldable pub last_with_id : List Node → String → Option Node → Option Node
  last_with_id [] id found = found
  last_with_id (n ∷ ns) id found =
      last_with_id ns id (if shown_text n.id =ₛ id then some n else found)

  abbrev pub add_endpoint_alias : Option Node → String → Dict Value → Dict Value
  add_endpoint_alias none alias d = d
  add_endpoint_alias (some n) alias d =
      let key = get_node_alias_key n in if key =ₛ "" then d else add_alias key alias d

  abbrev pub location_alias : MqttMessage → String
  location_alias e =
      format_edge_location_alias (get e.payload "building_id") (get e.payload "camera_id")

  -- The body of the loop over the events, with the node's id and the alias.
  unfoldable pub add_named_alias : List Node → String → String → Dict Value → Dict Value
  unfolding add_alias
  add_named_alias nodes node_id alias d =
      if node_id =ₛ ""
      then d
      else if alias =ₛ ""
      then d
      else add_alias node_id alias (add_endpoint_alias (last_with_id nodes node_id none) alias d)

  unfoldable pub add_event_aliases : List Node → MqttMessage → Dict Value → Dict Value
  unfolding add_named_alias
  add_event_aliases nodes e d = add_named_alias nodes (resolve_event_node_id e) (location_alias e) d

  unfoldable pub add_aliases : List Node → List MqttMessage → Dict Value → Dict Value
  add_aliases nodes [] d = d
  add_aliases nodes (e ∷ es) d = add_aliases nodes es (add_event_aliases nodes e d)

  abbrev pub nodes_of : Option Table → List Node
  nodes_of none = []
  nodes_of (some t) = t.nodes

  unfoldable pub build_auto_node_aliases : Option Table → List MqttMessage → Dict Value
  build_auto_node_aliases t es = add_aliases (nodes_of t) es []

  abbrev pub endpoint_text : Node → String
  endpoint_text n =
      if truthy n.ip
      then shown_text n.ip <> (if truthy n.port then ":" <> shown_text n.port else "")
      else ""

  abbrev pub core_named : Option Table → Node → Presentation
  core_named none n = core_presentation "CORE" "CORE" (endpoint_text n)
  core_named (some t) n =
      if is_text n.id t.active_core_id
      then core_presentation "ACTIVE CORE" "ACTIVE\nCORE" (endpoint_text n)
      else if is_text n.id t.backup_core_id
      then core_presentation "BACKUP CORE" "BACKUP\nCORE" (endpoint_text n)
      else core_presentation "CORE" "CORE" (endpoint_text n)

  unfoldable pub add_cores : Option Table → List Node → Dict Presentation → Dict Presentation
  add_cores t [] d = d
  add_cores t (n ∷ ns) d = add_cores t ns (put (shown_text n.id) (core_named t n) d)

  unfoldable pub add_edges : Dict Value → ℕ → List Node → Dict Presentation → Dict Presentation
  add_edges aliases i [] d = d
  add_edges aliases i (n ∷ ns) d = add_edges aliases (suc i) ns (
      put (shown_text n.id)
        (edge_presentation (suc i) (resolve_node_alias n aliases) (endpoint_text n)) d)

  abbrev pub sorted_edges : Option Table → List Node
  sorted_edges t = sort_by (compare_node_endpoints locale) (filter is_shown_edge (nodes_of t))

  unfoldable pub build_node_presentation_map : Option Table → Dict Value → Dict Presentation
  unfolding add_cores add_edges compare_node_endpoints sort_by filter
  build_node_presentation_map t aliases =
      add_edges aliases 0 (sorted_edges t) (add_cores t (filter is_shown_core (nodes_of t)) [])
