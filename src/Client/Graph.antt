-- ===== src/Client/Graph.antt =====
-- client/src/components/topologyGraphModel.js: the classes of the nodes and links of the graph.
mod Tests
pub mod Roles
pub mod Layout
pub mod Joined
pub mod Links
use io_t_midterm_availabilit.Base.{
  ℕ, ℤ, String, Bool, true, false, not, ◌&&◌, ◌||◌, Option, none, some, List, [], ◌∷◌, ◌=ₛ◌,
  if◌then◌else◌,
}
use io_t_midterm_availabilit.Js.Number.{Number}
use io_t_midterm_availabilit.Js.Value.{Value, str, truthy, is_nullish, is_text}
use io_t_midterm_availabilit.Client.Parsers.{Node, Link, Table}
use io_t_midterm_availabilit.Client.Visibility.{text_of}
use io_t_midterm_availabilit.Client.Transitions.{
  is_recently_recovered_node, recent_node_transition_window_ms,
}

pub data NodeClass : Type 0 where
  edge offline_edge recovered_edge active_core backup_core core : NodeClass

pub data LinkClass : Type 0 where
  default_link core_peer_link peer_link active_link backup_link : LinkClass

abbrev core_class : Table → Node → NodeClass
core_class t n =
    if is_text n.id t.active_core_id
    then active_core
    else if not (t.backup_core_id =ₛ "") && is_text n.id t.backup_core_id
    then backup_core
    else core

unfoldable pub classify_topology_node : Option Table → Node → NodeClass
classify_topology_node none n = edge
classify_topology_node (some t) n =
    if not (truthy n.id)
    then edge
    else if is_text n.role "CORE"
    then core_class t n
    else if is_text n.status "OFFLINE"
    then offline_edge
    else edge

unfoldable pub classify_topology_node_at : (Value → Option ℤ) → Option Table → Node → ℤ → NodeClass
classify_topology_node_at date_parse none n now = edge
classify_topology_node_at date_parse (some t) n now =
    if not (truthy n.id)
    then edge
    else if is_text n.role "CORE"
    then classify_topology_node (some t) n
    else if is_text n.status "OFFLINE"
    then offline_edge
    else if is_recently_recovered_node date_parse n now recent_node_transition_window_ms
    then recovered_edge
    else edge

-- `node.role ?? 'NODE'`
abbrev pub role_or_node : Value → Value
role_or_node r = if is_nullish r then str "NODE" else r

module _ (number_text : Number → String) where
  unfoldable pub normalize_node_id : Value → String
  normalize_node_id v = if is_nullish v then "" else text_of number_text v

  -- `buildRoleMap(nodes).get(id) ?? 'NODE'`: the last node with an id wins.
  unfoldable pub role_in : List Node → String → Value → Value
  role_in [] id found = found
  role_in (n ∷ ns) id found =
      role_in ns id
        (if truthy n.id && text_of number_text n.id =ₛ id then role_or_node n.role else found)

  unfoldable pub is_core_in : Table → String → Bool
  is_core_in t id = is_text (role_in t.nodes id (str "NODE")) "CORE"

  abbrev pub connects_core_to_node : Table → String → String → String → Bool
  connects_core_to_node t from to core_id =
      not (core_id =ₛ "")
      && ((from =ₛ core_id && not (is_core_in t to)) || (to =ₛ core_id && not (is_core_in t from)))

  unfoldable pub classify_ends : Table → String → String → LinkClass
  classify_ends t from to =
      if is_core_in t from && is_core_in t to
      then core_peer_link
      else if not (is_core_in t from) && not (is_core_in t to)
      then peer_link
      else if connects_core_to_node t from to t.active_core_id
      then active_link
      else if connects_core_to_node t from to t.backup_core_id
      then backup_link
      else default_link

  unfoldable pub classify_topology_link : Option Table → Option Link → LinkClass
  unfolding normalize_node_id
  classify_topology_link none l = default_link
  classify_topology_link (some t) none = default_link
  classify_topology_link (some t) (some l) =
      classify_ends t (normalize_node_id l.from_id) (normalize_node_id l.to_id)
