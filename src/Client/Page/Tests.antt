-- ===== src/Client/Page/Tests.antt =====
-- A concrete page, and what is drawn for a concrete table.
use io_t_midterm_availabilit.Base.{
  ◌≡◌, refl, String, true, false, ◌<◌, ℤ, Option, none, some, List, [], ◌∷◌, here, In-cons, inl,
  inr, pos, arith, eq_iff, length, lookup, Pairs, filter, any, map,
}
use io_t_midterm_availabilit.Js.Number.{fin, whole}
use io_t_midterm_availabilit.Js.Text.{is_space, trim, trim_start, trim_end, decimal, parse_int}
use io_t_midterm_availabilit.Js.Scan.{slice_to}
use io_t_midterm_availabilit.Js.Value.{Value, null, num, str}
use io_t_midterm_availabilit.Client.Parsers.{Node, Table}
use io_t_midterm_availabilit.Client.Transitions.{get_recent_recovery_deadline, parse_timestamp_ms}
use io_t_midterm_availabilit.Client.Visibility.{text_of}
use io_t_midterm_availabilit.Client.Collation.{code_order}
use io_t_midterm_availabilit.Client.Endpoint.{Locale}
use io_t_midterm_availabilit.Client.Graph.{normalize_node_id, role_in, is_core_in, classify_ends}
use io_t_midterm_availabilit.Client.Graph.Joined.{
  Doubles, is_finite_positive_rtt, add_entry, average, format_topology_link_rtt,
  normalize_link_direction, add_link, add_links, build_topology_graph_links,
}
use io_t_midterm_availabilit.Client.Presentation.{get_node_alias_key, resolve_node_alias}
use io_t_midterm_availabilit.Client.Drawing.{
  EdgeElement, node_elements, edge_elements, deadlines, recovery_deadlines, least, redraw_delay,
}
use io_t_midterm_availabilit.Client.Drawing.Elements.{IsGraph, edge_elements-IsGraph}
use io_t_midterm_availabilit.Client.Drawing.Redraw.{recovery_deadlines_lt}
use io_t_midterm_availabilit.Client.EventText.{format_delay_label}
use io_t_midterm_availabilit.Client.Hook.State.{buffered_events, late}
use io_t_midterm_availabilit.Client.Page.{
  Page, remove, compare_brokers, sort_nodes, save_named, save_alias, save_aliases, save_alias_modal,
  drafts_of, kept_drafts, open_alias_modal, refresh_drafts,
}
use io_t_midterm_availabilit.Client.Page.Actions.{
  Action, type_url, click_event, choose_type, toggle_high_only, click_reset, edit_alias,
  edges_changed, find_node, selected_node, submitted_url, reset_filters, is_filtered, select_source,
  edit_draft, handle, handle_tap, handle_all,
}
use io_t_midterm_availabilit.Client.Page.Aliases.{IsSeparate}
use io_t_midterm_availabilit.Client.Page.Dialog.{typed, save_alias_modal-handle_all}
use io_t_midterm_availabilit.Client.Page.Incidents.{
  format_node_reference, replace_underscore, format_incident_text,
}

abbrev locale : Locale
locale = record {
  number_text = λ n. "1883";
  string_number = λ s. some (whole (parse_int s));
  locale_compare = code_order;
  numeric_compare = code_order;
}

paged : Unit {0}
unfolding code_order role_in is_core_in classify_ends any is_finite_positive_rtt add_entry average
    format_topology_link_rtt normalize_link_direction add_link add_links build_topology_graph_links
    edge_elements is_space trim trim_start trim_end decimal slice_to text_of normalize_node_id
    get_node_alias_key resolve_node_alias lookup filter remove compare_brokers sort_nodes save_named
    save_alias save_aliases save_alias_modal drafts_of kept_drafts open_alias_modal refresh_drafts
    find_node selected_node submitted_url reset_filters is_filtered select_source edit_draft handle
    handle_all typed format_delay_label format_node_reference replace_underscore
    format_incident_text parse_timestamp_ms get_recent_recovery_deadline deadlines
    recovery_deadlines least redraw_delay
paged = tt

abbrev edge : String → String → Node
edge id ip = record {
  id = str id;
  role = str "NODE";
  ip = str ip;
  port = num (fin (pos 1));
  status = str "ONLINE";
  previous_status = str "OFFLINE";
  status_changed_at = str "then";
  hop_to_core = null;
}

abbrev edges : List Node
edges = edge "a" "10.0.0.1" ∷ edge "b" "10.0.0.2" ∷ []

abbrev table : Table
table = record {
  version = fin (pos 1);
  last_update = null;
  active_core_id = "";
  backup_core_id = "";
  nodes = edges;
  links = record { from_id = str "a"; to_id = str "b"; rtt_ms = null } ∷ [];
}

-- One draft is set, and the other is blank; an alias was stored under the second edge's id.
abbrev page : Page
page = record {
  url_input = "";
  node_aliases = ("b", str "Old") ∷ [];
  is_alias_modal_open = true;
  alias_drafts = ("10.0.0.1:1883", " Hall ") ∷ ("10.0.0.2:1883", "  ") ∷ [];
  selected_node_id = none;
  filters = record { type = "ALL"; building = "ALL"; source_id = "ALL"; high_only = false };
}

saved : (save_alias_modal locale edges page).node_aliases ≡ ("10.0.0.1:1883", str "Hall") ∷ []
unfolding paged
saved = refl

edges_apart : Pairs (IsSeparate locale) edges
unfolding paged
edges_apart = (
  λ y i. elim (In-cons i) [
    | inl same ↦ rw same (
      λ e. ground (arith, eq_iff "10.0.0.1:1883" "10.0.0.2:1883", e),
      λ e. ground (arith, eq_iff "10.0.0.1:1883" "b", e),
      λ e. ground (arith, eq_iff "a" "10.0.0.2:1883", e),
      λ e. ground (arith, eq_iff "a" "b", e),
    )
    | inr j ↦ elim j [ ]
  ],
  (λ y i. elim i [ ], tt),
)

-- The first edge is given a name in two goes, with a new table in between; the second is left.
abbrev actions : List Action
actions =
    edit_alias (edge "a" "10.0.0.1") "Ha"
    ∷ edges_changed
    ∷ choose_type "MOTION"
    ∷ edit_alias (edge "a" "10.0.0.1") "Hall "
    ∷ []

abbrev saved_page : Page
saved_page =
    save_alias_modal locale edges
      (handle_all locale edges actions (open_alias_modal locale edges page))

-- The name that was stored under the id of the second edge is now stored under its endpoint.
moved : saved_page.node_aliases ≡ ("10.0.0.2:1883", str "Old") ∷ ("10.0.0.1:1883", str "Hall") ∷ []
unfolding paged
moved = refl

save_alias_modal-handle_all_example :
    (resolve_node_alias locale (edge "a" "10.0.0.1") saved_page.node_aliases ≡ "Hall")
    × (trim (resolve_node_alias locale (edge "a" "10.0.0.1") page.node_aliases)
        ≡ resolve_node_alias locale (edge "a" "10.0.0.1") page.node_aliases)
    × (saved_page.is_alias_modal_open ≡ false)
unfolding paged
save_alias_modal-handle_all_example =
    save_alias_modal-handle_all locale edges page actions (edge "a" "10.0.0.1") edges_apart here
      (refl, (refl, (refl, (refl, tt))))

-- A selection, and what resetting does.
selects :
    (selected_node (some table) (handle locale edges (handle_tap (some "b")) page)
      ≡ some (edge "b" "10.0.0.2"))
    × (selected_node (some table) (handle locale edges (handle_tap none) page) ≡ none)
    × (selected_node (some table) (handle locale edges (click_event (str "")) page) ≡ none)
unfolding paged
selects = (refl, refl, refl)

resets :
    is_filtered (handle_all locale edges (toggle_high_only ∷ click_reset ∷ []) page).filters ≡ false
unfolding paged
resets = refl

submits : submitted_url (handle locale edges (type_url " ws://core ") page) ≡ "ws://core"
unfolding paged
submits = refl

-- An event that came late, and a node without a name.
incident_text :
    format_incident_text
      (λ n. "")
      (λ s. s)
      (record {
        key = "k";
        type = buffered_events;
        role = "NODE";
        node_id = str "0123456789";
        detail = late (str "DOOR_FORCED") 61000;
        ts = 0;
      })
      []
    ≡ some "01234567… replayed queued DOOR FORCED (1m 1s late)"
unfolding paged
incident_text = refl

abbrev doubles : Doubles
doubles = record { plus = λ a b. a; divided_by = λ a n. a; to_fixed = λ a n. ""; round = λ a. a }

abbrev date_parse : Value → Option ℤ
date_parse v = some (pos 0)

-- The link is drawn.
drawn : map (λ (e : EdgeElement). e.id) (edge_elements locale doubles table) ≡ "a->b" ∷ []
unfolding paged
drawn = refl

edge_elements-IsGraph_example :
    IsGraph (node_elements locale date_parse table [] (pos 0)) (edge_elements locale doubles table)
edge_elements-IsGraph_example = edge_elements-IsGraph locale doubles date_parse table [] (pos 0)

-- Both marks run out 15 seconds after the change.
recovery_deadlines_lt_example :
    length (recovery_deadlines date_parse edges (pos 15060))
    < length (recovery_deadlines date_parse edges (pos 10000))
unfolding paged
recovery_deadlines_lt_example =
    recovery_deadlines_lt date_parse edges (pos 10000) (pos 10001) (pos 15060) 5059 refl refl refl
