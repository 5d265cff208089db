-- ===== src/Client/Page/Actions.antt =====
-- client/src/App.jsx: what the inputs, the buttons and the cards of the page do to its state.
use io_t_midterm_availabilit.Base.{
  String, Bool, false, not, ◌||◌, Option, none, some, List, [], ◌∷◌, ◌=ₛ◌, if◌then◌else◌, put,
}
use io_t_midterm_availabilit.Js.Text.{trim}
use io_t_midterm_availabilit.Js.Value.{Value, null, str, truthy, strict_eq}
use io_t_midterm_availabilit.Client.Parsers.{Node, Table}
use io_t_midterm_availabilit.Client.Endpoint.{Locale}
use io_t_midterm_availabilit.Client.Presentation.{get_node_alias_key}
use io_t_midterm_availabilit.Client.Page.{
  Page, Filters, toggle_critical_filter, close_alias_modal, on_key_down, open_alias_modal,
  refresh_drafts, save_alias_modal,
}

-- `find(n => n.id === selectedNodeId) ?? null`
unfoldable pub find_node : Value → List Node → Option Node
find_node id [] = none
find_node id (n ∷ ns) = if strict_eq n.id id then some n else find_node id ns

-- No selection is `null`, which is equal to an identifier that is `null`.
abbrev selected_value : Option Value → Value
selected_value none = null
selected_value (some v) = v

unfoldable pub selected_node : Option Table → Page → Option Node
unfolding find_node
selected_node none p = none
selected_node (some t) p = find_node (selected_value p.selected_node_id) t.nodes

-- The effect that runs when the hook connects to another address.
unfoldable pub sync_url : String → Page → Page
sync_url broker_url p = record p { url_input = broker_url }

-- What the form hands to `setBrokerUrl`.
unfoldable pub submitted_url : Page → String
unfolding trim
submitted_url p = trim p.url_input

unfoldable pub reset_filters : Page → Page
reset_filters p = record p {
  filters = record { type = "ALL"; building = "ALL"; source_id = "ALL"; high_only = false };
}

-- Whether the button that resets the filters is there.
unfoldable pub is_filtered : Filters → Bool
is_filtered f =
    not (f.type =ₛ "ALL") || not (f.building =ₛ "ALL") || not (f.source_id =ₛ "ALL") || f.high_only

-- A click on an event selects its source, where it has one.
unfoldable pub select_source : Value → Page → Page
select_source source_id p =
    if truthy source_id then record p { selected_node_id = some source_id } else p

-- What is done to the page. The last two are effects: the hook connects to another address, and
-- the dialog follows the edges.
pub data Action : Type 0 where
  type_url : String → Action
  select_node : Value → Action
  close_details : Action
  click_event : Value → Action
  choose_type : String → Action
  choose_building : String → Action
  choose_source : String → Action
  toggle_high_only : Action
  click_reset : Action
  click_critical : Action
  open_aliases : Action
  edit_alias : Node → String → Action
  close_aliases : Action
  save_aliases_clicked : Action
  press_key : String → Action
  url_changed : String → Action
  edges_changed : Action

-- A tap on the graph: at a node with this id, or, without one, at the background.
abbrev pub handle_tap : Option String → Action
handle_tap (some id) = select_node (str id)
handle_tap none = close_details

module _ (locale : Locale) where
  unfoldable pub edit_draft : Node → String → Page → Page
  edit_draft n value p = record p {
    alias_drafts = put (get_node_alias_key locale n) value p.alias_drafts;
  }

  -- The handler of an action, at the edges that are shown.
  unfoldable pub handle : List Node → Action → Page → Page
  unfolding edit_draft select_source reset_filters toggle_critical_filter close_alias_modal
      on_key_down open_alias_modal save_alias_modal sync_url refresh_drafts
  handle edges (type_url value) p = record p { url_input = value }
  handle edges (select_node id) p = record p { selected_node_id = some id }
  handle edges close_details p = record p { selected_node_id = none }
  handle edges (click_event source_id) p = select_source source_id p
  handle edges (choose_type value) p = record p { filters = record (p.filters) { type = value } }
  handle edges (choose_building value) p = record p {
    filters = record (p.filters) { building = value };
  }
  handle edges (choose_source value) p = record p {
    filters = record (p.filters) { source_id = value };
  }
  handle edges toggle_high_only p = record p {
    filters = record (p.filters) { high_only = not (p.filters).high_only };
  }
  handle edges click_reset p = reset_filters p
  handle edges click_critical p = toggle_critical_filter p
  handle edges open_aliases p = open_alias_modal locale edges p
  handle edges (edit_alias n value) p = edit_draft n value p
  handle edges close_aliases p = close_alias_modal p
  handle edges save_aliases_clicked p = save_alias_modal locale edges p
  handle edges (press_key key) p = on_key_down key p
  handle edges (url_changed broker_url) p = sync_url broker_url p
  handle edges edges_changed p = refresh_drafts locale edges p

  unfoldable pub handle_all : List Node → List Action → Page → Page
  unfolding handle
  handle_all edges [] p = p
  handle_all edges (a ∷ actions) p = handle_all edges actions (handle edges a p)
