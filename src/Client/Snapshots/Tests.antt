-- ===== src/Client/Snapshots/Tests.antt =====
-- Concrete events, their presentations and snapshots.
use io_t_midterm_availabilit.Base.{
  ◌≡◌, refl, true, String, none, some, [], ◌∷◌, here, pos, arith, eq_iff, lookup,
}
use io_t_midterm_availabilit.Js.Number.{fin, whole}
use io_t_midterm_availabilit.Js.Text.{is_space, trim, trim_start, trim_end, decimal}
use io_t_midterm_availabilit.Js.Scan.{slice_to, slice_from, starts_with}
use io_t_midterm_availabilit.Js.Value.{Value, null, num, str, obj, end, member, get, member_of}
use io_t_midterm_availabilit.Js.ValueMap.{set_value, get_value}
use io_t_midterm_availabilit.Client.Parsers.{Node, MqttMessage}
use io_t_midterm_availabilit.Client.Visibility.{text_of}
use io_t_midterm_availabilit.Client.EventText.{
  Dates, normalize_description, begins_with, match_clock, format_event_time, format_delay_label,
  format_clock_time, parse_nested_publisher_message,
}
use io_t_midterm_availabilit.Client.EventView.{
  NodeMap, EventPresentation, node_by_id, find_node_by_ip, display_source_node, display_source_id,
  short_id, build_edge_label, format_event_source_option, presentation_of, get_event_presentation,
}
use io_t_midterm_availabilit.Client.EventView.Source.{get_event_presentation-relayed}
use io_t_midterm_availabilit.Client.Snapshots.{
  Render, add_snapshot, add_snapshots, build_event_presentation_snapshots, render_all,
}
use io_t_midterm_availabilit.Client.Snapshots.Kept.{render_all-kept}

abbrev number_text : io_t_midterm_availabilit.Js.Number.Number → String
number_text n = "1883"

-- No description is JSON here, and every date is the same.
abbrev dates : Dates
dates = record {
  json_parse = λ s. none;
  new_date = λ v. some (pos 7);
  clock_text = λ t. "09:00:00";
}

viewed : Unit {0}
unfolding is_space trim trim_start trim_end decimal slice_to slice_from starts_with member_of get
    set_value get_value text_of normalize_description begins_with match_clock format_event_time
    format_delay_label format_clock_time parse_nested_publisher_message node_by_id find_node_by_ip
    display_source_node display_source_id short_id build_edge_label format_event_source_option
    presentation_of get_event_presentation add_snapshot add_snapshots
    build_event_presentation_snapshots render_all lookup
viewed = tt

clock_times :
    (format_event_time (str "2026-04-25T09:12:33.120Z") ≡ "09:12:33")
    × (format_event_time (str "2026-04-25 09:12:33") ≡ "09:12:33")
    × (format_event_time (str "soon") ≡ "—")
    × (format_event_time null ≡ "—")
unfolding viewed
clock_times = (refl, refl, refl, refl)

delay_labels :
    (format_delay_label (some 90500) ≡ "1m 31s late")
    × (format_delay_label (some 59500) ≡ "1m late")
    × (format_delay_label (some 1499) ≡ "1s late")
unfolding viewed
delay_labels = (refl, refl, refl)

abbrev node : String → Node
node id = record {
  id = str id;
  role = str "NODE";
  ip = str "192.168.0.9";
  port = num (fin (pos 1));
  status = str "ONLINE";
  previous_status = str "ONLINE";
  status_changed_at = null;
  hop_to_core = null;
}

-- An event of `original` that `sender` passed on.
abbrev event : Value → Value → MqttMessage
event original sender = record {
  msg_id = str "m1";
  type = str "MOTION";
  timestamp = str "now";
  priority = null;
  source = obj (member "id" sender end);
  target = null;
  route = obj (member "original_node" original end);
  delivery = null;
  payload = obj (member "description" (str "manual") end);
}

abbrev view_of : MqttMessage → EventPresentation
view_of e =
    get_event_presentation number_text dates e (node_by_id (node "edge-a" ∷ node "edge-b" ∷ []) [])
      []

relayed_view :
    ((view_of (event (str "edge-a") (str "edge-b"))).intended_edge_label ≡ some "EDGE 192.168.0.9")
    × ((view_of (event (str "edge-a") (str "edge-b"))).description_label ≡ "Manual trigger")
    × ((view_of (event null (str "edge-b"))).source_id ≡ str "edge-b")
unfolding viewed
relayed_view = (refl, refl, refl)

get_event_presentation-relayed_example :
    let view = view_of (event (str "edge-a") (str "edge-b")) in
    (view.source_id ≡ str "edge-a")
    × (view.actual_source_id ≡ str "edge-b")
    × (view.via_failover ≡ true)
unfolding viewed
get_event_presentation-relayed_example =
    get_event_presentation-relayed number_text dates (event (str "edge-a") (str "edge-b"))
      (node "edge-a" ∷ node "edge-b" ∷ []) [] (node "edge-a") "edge-a" "edge-b" here refl
      (λ e. ground (arith, eq_iff "edge-a" "", e)) refl refl
      (λ e. ground (arith, eq_iff "edge-b" "", e))
      (λ e. ground (arith, eq_iff "edge-a" "edge-b", e))

abbrev render : NodeMap → Render
render nodes = record {
  events = event (str "edge-a") (str "edge-b") ∷ [];
  nodes = nodes;
  displays = [];
}

-- The nodes become known after the event was first shown.
render_all-kept_example :
    get_value
      (render_all number_text dates
        (render (node_by_id (node "edge-a" ∷ []) []) ∷ [])
        (build_event_presentation_snapshots number_text dates (render []) []))
      (str "m1")
    ≡ some (get_event_presentation number_text dates (event (str "edge-a") (str "edge-b")) [] [])
unfolding viewed
render_all-kept_example =
    render_all-kept number_text dates (render (node_by_id (node "edge-a" ∷ []) []) ∷ [])
      (build_event_presentation_snapshots number_text dates (render []) []) "m1"
      (get_event_presentation number_text dates (event (str "edge-a") (str "edge-b")) [] [])
      (λ e. ground (arith, eq_iff "m1" "", e))
      ((event (str "edge-a") (str "edge-b"), here, refl), tt) refl
