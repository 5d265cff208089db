-- ===== src/Client/Drawing.antt =====
-- client/src/components/TopologyGraph.jsx: what is handed to the graph library, and the timer that
-- redraws the graph when a node's mark as recovered runs out.
pub mod Elements
pub mod Redraw
use io_t_midterm_availabilit.Base.{
  ℕ, ℤ, pos, pos_part, neg_part, ◌+◌, ◌-◌, int_ltb, String, Bool, true, false, not, ◌&&◌, ◌||◌,
  Option, none, some, List, [], ◌∷◌, ◌++◌, map, filter, any, ◌=ₛ◌, if◌then◌else◌, Dict, lookup,
}
use io_t_midterm_availabilit.Js.Number.{Number}
use io_t_midterm_availabilit.Js.Text.{◌<>◌}
use io_t_midterm_availabilit.Js.Value.{Value, str, is_nullish, is_text}
use io_t_midterm_availabilit.Client.Parsers.{Node, Table}
use io_t_midterm_availabilit.Client.Transitions.{
  get_recent_recovery_deadline, recent_node_transition_window_ms,
}
use io_t_midterm_availabilit.Client.Endpoint.{Locale}
use io_t_midterm_availabilit.Client.Presentation.{Presentation}
use io_t_midterm_availabilit.Client.Graph.{
  NodeClass, LinkClass, normalize_node_id, classify_topology_node_at, role_or_node,
}
use io_t_midterm_availabilit.Client.Graph.Layout.{
  Position, at, build_topology_node_label, build_topology_node_positions,
}
use io_t_midterm_availabilit.Client.Graph.Joined.{
  Doubles, GraphLink, has_id, build_topology_graph_links,
}

pub record NodeElement : Type 0 where
  pub id : String
  pub label : String
  pub role : Value
  pub status : Value
  pub kind : NodeClass
  pub position : Position

pub record EdgeElement : Type 0 where
  pub id : String
  pub source : String
  pub target : String
  pub rtt : String
  pub kind : LinkClass

-- A core that is offline is not drawn.
abbrev pub is_visible : Node → Bool
is_visible n = not (is_text n.role "CORE" && is_text n.status "OFFLINE")

abbrev pub visible_nodes : Table → List Node
visible_nodes t = filter is_visible t.nodes

abbrev pub raw_id : Locale → Node → String
raw_id locale n = normalize_node_id locale.number_text n.id

abbrev label_or : Option Presentation → String → String
label_or none d = d
label_or (some p) d = p.graph_label

abbrev position_or_origin : Option Position → Position
position_or_origin none = at (pos 0) (pos 0)
position_or_origin (some p) = p

-- `n.status ?? 'ONLINE'`
abbrev status_or_online : Value → Value
status_or_online s = if is_nullish s then str "ONLINE" else s

abbrev pub edge_element : GraphLink → EdgeElement
edge_element l = record {
  id = l.from_id <> "->" <> l.to_id;
  source = l.from_id;
  target = l.to_id;
  rtt = l.rtt_label;
  kind = l.edge_kind;
}

module _ (locale : Locale) where
  abbrev pub node_element : (Value → Option ℤ) → Table → Dict Presentation → ℤ → Node → NodeElement
  node_element date_parse t displays now n = record {
    id = raw_id locale n;
    label =
        label_or (lookup (raw_id locale n) displays) (build_topology_node_label locale (some t) n);
    role = role_or_node n.role;
    status = status_or_online n.status;
    kind = classify_topology_node_at date_parse (some t) n now;
    position =
        position_or_origin
          (lookup (raw_id locale n) (build_topology_node_positions locale (visible_nodes t)));
  }

  unfoldable pub node_elements :
      (Value → Option ℤ) → Table → Dict Presentation → ℤ → List NodeElement
  unfolding build_topology_node_label build_topology_node_positions lookup filter
  node_elements date_parse t displays now =
      map (node_element date_parse t displays now) (visible_nodes t)

  -- Both ends are in `nodeIdSet`.
  abbrev pub has_ends : List Node → GraphLink → Bool
  has_ends nodes l =
      has_id (map (raw_id locale) nodes) l.from_id && has_id (map (raw_id locale) nodes) l.to_id

  unfoldable pub edge_elements : Doubles → Table → List EdgeElement
  unfolding build_topology_graph_links any filter
  edge_elements doubles t = map edge_element (
      filter (has_ends (visible_nodes t))
        (build_topology_graph_links locale doubles (some t) (visible_nodes t)))

-- The deadlines of the nodes that are marked, those after `now`, and the first of them.
module _ (date_parse : Value → Option ℤ) where
  abbrev with_deadline : Option ℤ → List ℤ → List ℤ
  with_deadline none ds = ds
  with_deadline (some d) ds = d ∷ ds

  unfoldable pub deadlines : List Node → List ℤ
  unfolding get_recent_recovery_deadline
  deadlines [] = []
  deadlines (n ∷ ns) =
      with_deadline (get_recent_recovery_deadline date_parse n recent_node_transition_window_ms)
        (deadlines ns)

  unfoldable pub recovery_deadlines : List Node → ℤ → List ℤ
  unfolding deadlines filter
  recovery_deadlines nodes now = filter (int_ltb now) (deadlines nodes)

unfoldable pub least : ℤ → List ℤ → ℤ
least d [] = d
least d (e ∷ es) = least (if int_ltb e d then e else d) es

-- `Math.max(0, next - now) + 60`
abbrev pub wait : ℤ → ℤ → ℕ
wait next_deadline now =
    ((pos_part next_deadline + neg_part now) - (pos_part now + neg_part next_deadline)) + 60

abbrev pub wait_for : List ℤ → ℤ → Option ℕ
wait_for [] now = none
wait_for (d ∷ ds) now = some (wait (least d ds) now)

-- How long the timer of the effect waits, if it is set: the clock is read at the test, and again
-- for the delay.
unfoldable pub redraw_delay : (Value → Option ℤ) → List Node → ℤ → ℤ → Option ℕ
unfolding recovery_deadlines least
redraw_delay date_parse nodes now later = wait_for (recovery_deadlines date_parse nodes now) later
