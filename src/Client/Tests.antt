-- ===== src/Client/Tests.antt =====
-- Concrete tables and sessions of the monitoring client.
use io_t_midterm_availabilit.Base.{
  ◌≡◌, refl, String, true, none, some, List, [], ◌∷◌, In, here, there, filter, pos, eq_iff,
  if◌then◌else◌, ◌=ₛ◌,
}
use io_t_midterm_availabilit.Js.Number.{Number, fin}
use io_t_midterm_availabilit.Js.Value.{Value, is_text_iff, null, num, str, obj, end, member, get}
use io_t_midterm_availabilit.Js.Text.{is_space, ◌<>◌}
use io_t_midterm_availabilit.Client.Parsers.{
  Node, Link, Table, map_entries, parse_connection_table, parse_mqtt_message, is_uuid, tested_text,
  fits,
}
use io_t_midterm_availabilit.Client.Parsers.RoundTrip.{
  table_value, parse_connection_table-table_value,
}
use io_t_midterm_availabilit.Client.Visibility.{
  is_online, hides, reconcile_hidden_node_ids, is_current_core_node, is_candidate, add_node,
  has_node, endpoint_key, by_endpoint, presentation_nodes, build_presentation_topology, text_of,
}
use io_t_midterm_availabilit.Client.Visibility.Shown.{
  IsPresentation, build_presentation_topology-IsPresentation,
}
use io_t_midterm_availabilit.Client.Visibility.Hidden.{
  build_presentation_topology-reconcile_hidden_node_ids,
}
use io_t_midterm_availabilit.Client.Failover.{
  resolve_backup_reconnect_target, find_backup_core_node, find_node_by_id, build_broker_url,
  select_promoted_active_node, format_broker_host, parse_broker_endpoint, same_broker_host,
}
use io_t_midterm_availabilit.Client.Failover.Endpoints.{
  IsHost, IsPort, parse_broker_endpoint-format_broker_host, same_broker_host_lem, NameOneHost,
}
use io_t_midterm_availabilit.Client.Hook.State.{Env, State, initial}
use io_t_midterm_availabilit.Client.Hook.Step.{
  topic_of, on_message, Event, message, connects, expires, step, run,
}
use io_t_midterm_availabilit.Client.Hook.Updates.{
  is_seen_message, push_incident, push_alert, refresh_visible_topology, reconnect_to_broker_host,
  follow_promotion, apply_presentation_topology,
}
use io_t_midterm_availabilit.Client.Hook.Messages.{
  on_core_will, accept_will, leave_failed_core, parsed_message, accept_table, on_topology,
  note_core_down,
}
use io_t_midterm_availabilit.Client.Hook.Redelivery.{IsIdentified, step_again}
use io_t_midterm_availabilit.Client.Hook.Failover.{Target, goes_to, on_core_will-Target}
use io_t_midterm_availabilit.Js.Text.{trim}
use io_t_midterm_availabilit.Js.Scan.{starts_with, ends_with, includes}
use io_t_midterm_availabilit.Base.{any, find, Option, false}
use io_t_midterm_availabilit.Base.{ℤ, ◌↔◌}
use io_t_midterm_availabilit.Client.Transitions.{
  parse_timestamp_ms, get_recent_recovery_deadline, is_recently_recovered_node,
}
use io_t_midterm_availabilit.Client.Graph.{
  edge, recovered_edge, classify_topology_node_at, classify_topology_link,
}
use io_t_midterm_availabilit.Client.Graph.Links.{
  reversed, classify_topology_link-reversed, IsRecovered, classify_topology_node_at_iff,
}
use io_t_midterm_availabilit.Client.Hook.LastWill.{note_core_down-topology}
use io_t_midterm_availabilit.Js.Scan.{behind}
use io_t_midterm_availabilit.Client.Hook.View.{IsView, run-IsView}
use io_t_midterm_availabilit.Client.Hook.Feed.{IsFeed, run-IsFeed}
use io_t_midterm_availabilit.Client.Hook.Versions.{IsNotOlder, step-IsNotOlder}

abbrev number_text : Number → String
number_text n = "1883"

abbrev node : String → String → String → String → Node
node id role ip status = record {
  id = str id;
  role = str role;
  ip = str ip;
  port = num (fin (pos 1883));
  status = str status;
  previous_status = str status;
  status_changed_at = null;
  hop_to_core = num (fin (pos 1));
}

abbrev link : String → String → Link
link from to = record { from_id = str from; to_id = str to; rtt_ms = num (fin (pos 1)) }

abbrev table : List Node → List Link → Table
table nodes links = record {
  version = fin (pos 10);
  last_update = null;
  active_core_id = "active";
  backup_core_id = "";
  nodes = nodes;
  links = links;
}

-- To run the client on closed tables.
shown : Unit {0}
unfolding filter hides reconcile_hidden_node_ids is_current_core_node is_candidate add_node has_node
    endpoint_key by_endpoint presentation_nodes build_presentation_topology text_of
shown = tt

abbrev replaced : Table
replaced =
    table
      (node "active" "CORE" "192.168.0.7" "ONLINE"
        ∷ node "a" "NODE" "192.168.0.18" "OFFLINE"
        ∷ node "b" "NODE" "192.168.0.18" "ONLINE"
        ∷ [])
      (link "active" "a" ∷ link "active" "b" ∷ [])

-- An online edge replaces an offline one with its address.
online_first :
    build_presentation_topology number_text replaced []
    ≡ table
        (node "active" "CORE" "192.168.0.7" "ONLINE" ∷ node "b" "NODE" "192.168.0.18" "ONLINE" ∷ [])
        (link "active" "b" ∷ [])
unfolding shown
online_first = refl

-- Another core and a hidden edge are not shown.
hidden_edge :
    build_presentation_topology number_text
      (table
        (node "active" "CORE" "192.168.0.7" "ONLINE"
          ∷ node "old" "CORE" "192.168.0.16" "ONLINE"
          ∷ node "a" "NODE" "192.168.0.18" "OFFLINE"
          ∷ [])
        (link "active" "a" ∷ []))
      ("a" ∷ [])
    ≡ table (node "active" "CORE" "192.168.0.7" "ONLINE" ∷ []) []
unfolding shown
hidden_edge = refl

build_presentation_topology-IsPresentation_example :
    IsPresentation number_text replaced [] (build_presentation_topology number_text replaced [])
build_presentation_topology-IsPresentation_example =
    build_presentation_topology-IsPresentation number_text replaced []

build_presentation_topology-reconcile_hidden_node_ids_example :
    (m : Node) × In m
      (build_presentation_topology number_text replaced
        (reconcile_hidden_node_ids replaced.nodes ("b" ∷ []))).nodes
    × (endpoint_key number_text m
        ≡ endpoint_key number_text (node "b" "NODE" "192.168.0.18" "ONLINE"))
    × (is_online m ≡ true)
build_presentation_topology-reconcile_hidden_node_ids_example =
    build_presentation_topology-reconcile_hidden_node_ids number_text replaced ("b" ∷ [])
      (node "b" "NODE" "192.168.0.18" "ONLINE") (there (there here)) refl refl
      (λ e. cc ((is_text_iff (str "NODE") "CORE").1 e))

abbrev wire : Value
wire = table_value replaced

accepted : (t : Table) × (parse_connection_table (some wire) ≡ some t)
unfolding parse_connection_table map_entries get
accepted = (replaced, refl)

parse_connection_table-table_value_example :
    parse_connection_table (some (table_value replaced)) ≡ some replaced
unfolding parse_connection_table map_entries get
parse_connection_table-table_value_example = parse_connection_table-table_value wire replaced refl

ipv6 : IsHost "fe80::1"
unfolding is_space
ipv6 = record {
  not_empty = λ e. cc ((eq_iff "fe80::1" "").1 e);
  no_space = (refl, (refl, (refl, (refl, (refl, (refl, (refl, tt)))))));
  no_bracket = (refl, (refl, (refl, (refl, (refl, (refl, (refl, tt)))))));
}

port : IsPort "1883"
unfolding is_space
port = ((refl, (refl, (refl, (refl, tt)))), (refl, (refl, (refl, (refl, tt)))))

parse_broker_endpoint-format_broker_host_example :
    parse_broker_endpoint (str (format_broker_host (str "fe80::1") <> ":" <> "1883"))
    ≡ some (record { host = "fe80::1"; port = "1883" })
parse_broker_endpoint-format_broker_host_example =
    parse_broker_endpoint-format_broker_host "fe80::1" "1883" ipv6 port

abbrev same_text : String → String
same_text s = s

same_broker_host_lem_example :
    ((same_broker_host same_text (str "localhost") (str "127.0.0.1") ≡ true)
      ↔ NameOneHost same_text (str "localhost") (str "127.0.0.1"))
    × (same_broker_host same_text (str "localhost") (str "127.0.0.1")
        ≡ same_broker_host same_text (str "127.0.0.1") (str "localhost"))
    × (same_broker_host same_text (str "localhost") (str "127.0.0.1") ≡ true
        → same_broker_host same_text (str "127.0.0.1") (str "localhost") ≡ true
        → same_broker_host same_text (str "localhost") (str "localhost") ≡ true)
same_broker_host_lem_example =
    same_broker_host_lem same_text (str "localhost") (str "127.0.0.1") (str "localhost")

abbrev event : Value
event = obj (
    member "msg_id" (str "aaaaaaaa-1111-2222-3333-444444444444") (member "type" (str "MOTION") end))

abbrev env : Env
env = record {
  number_text = number_text;
  new_url = λ raw.
      some (record { href = raw; protocol = "ws:"; hostname = "192.168.0.7"; port = "9001" });
  to_lower_case = same_text;
  json_parse =
      λ raw. if raw =ₛ "table" then some wire else if raw =ₛ "event" then some event else none;
  date_parse = λ v. none;
}

abbrev session : List Event
session =
    connects
    ∷ message "campus/monitor/topology" "table" 1000 1000
    ∷ message "campus/alert/node_down/a" "table" 2000 2001
    ∷ message "campus/will/core/active" "gone" 3000 3001
    ∷ expires 2001
    ∷ []

abbrev home : String
home = "ws://192.168.0.7:9001"

run-IsView_example : IsView env (run env (initial home) session)
run-IsView_example = run-IsView env home session

run-IsFeed_example : IsFeed (run env (initial home) session)
run-IsFeed_example = run-IsFeed env home session

step-IsNotOlder_example :
    IsNotOlder none
      (step env (initial home) (message "campus/monitor/topology" "table" 1000 1000)).raw_topology
step-IsNotOlder_example =
    step-IsNotOlder env (initial home) (message "campus/monitor/topology" "table" 1000 1000) refl

-- A session up to the first table, run.
session_run : Unit {0}
unfolding filter run step topic_of behind on_message on_topology accept_table follow_promotion
    select_promoted_active_node apply_presentation_topology parse_connection_table map_entries get
session_run = tt

abbrev with_table : State
with_table = run env (initial home) (message "campus/monitor/topology" "table" 1000 1000 ∷ [])

table_kept : with_table.raw_topology ≡ some replaced
unfolding session_run
table_kept = refl

note_core_down-topology_example :
    (note_core_down env "active" 3000 with_table).topology ≡ with_table.topology
note_core_down-topology_example =
    note_core_down-topology env home (message "campus/monitor/topology" "table" 1000 1000 ∷ [])
      replaced "active" 3000 (node "active" "CORE" "192.168.0.7" "ONLINE") table_kept here refl refl

identified : IsIdentified (topic_of "campus/data/MOTION") (parsed_message env "event")
unfolding topic_of behind parse_mqtt_message is_uuid tested_text fits get
identified = refl

abbrev delivered : State
delivered = step env with_table (message "campus/data/MOTION" "event" 4000 4000)

step_again_example : step env delivered (message "campus/data/MOTION" "event" 9000 9000) ≡ delivered
step_again_example =
    step_again env with_table "campus/data/MOTION" "event" 4000 4000 9000 9000 identified

-- A state with a backup core, and the last will of the active one.
abbrev with_spare : Table
with_spare =
    record (table
      (node "active" "CORE" "192.168.0.7" "ONLINE"
        ∷ node "spare" "CORE" "192.168.0.20" "ONLINE"
        ∷ [])
      []) { backup_core_id = "spare" }

abbrev paired : State
paired = record (initial home) { raw_topology = some with_spare }

unseen : is_seen_message (parsed_message env "gone") paired ≡ false
unfolding parse_mqtt_message
unseen = refl

-- The client goes to the backup core.
to_spare :
    (on_core_will env "campus/will/core/active" "gone" "active" 3000 3001 paired).broker_url
    ≡ "ws://192.168.0.20:9001"
unfolding on_core_will accept_will note_core_down push_incident refresh_visible_topology push_alert
    leave_failed_core resolve_backup_reconnect_target find_backup_core_node find_node_by_id find
    reconnect_to_broker_host build_broker_url format_broker_host trim is_space starts_with ends_with
    includes parse_mqtt_message any
to_spare = refl

on_core_will-Target_example :
    (a : Option Value) × Target with_spare (parsed_message env "gone") a
    × ((on_core_will env "campus/will/core/active" "gone" "active" 3000 3001 paired).broker_url
        ≡ goes_to env home home a)
on_core_will-Target_example =
    on_core_will-Target env with_spare "campus/will/core/active" "gone" "active" 3000 3001 paired
      refl refl unseen

classify_topology_link-reversed_example :
    classify_topology_link number_text (some with_spare) (some (reversed (link "active" "spare")))
    ≡ classify_topology_link number_text (some with_spare) (some (link "active" "spare"))
classify_topology_link-reversed_example =
    classify_topology_link-reversed number_text (some with_spare) (link "active" "spare")

-- A date at 10 seconds, for every text.
abbrev at_ten : Value → Option ℤ
at_ten v = some (pos 10000)

abbrev back_online : Node
back_online = record (node "a" "NODE" "192.168.0.18" "ONLINE") {
  previous_status = str "OFFLINE";
  status_changed_at = str "2026-04-17T05:00:10Z";
}

still_marked :
    classify_topology_node_at at_ten (some replaced) back_online (pos 25000) ≡ recovered_edge
unfolding classify_topology_node_at is_recently_recovered_node get_recent_recovery_deadline
    parse_timestamp_ms
still_marked = refl

no_longer : classify_topology_node_at at_ten (some replaced) back_online (pos 25001) ≡ edge
unfolding classify_topology_node_at is_recently_recovered_node get_recent_recovery_deadline
    parse_timestamp_ms
no_longer = refl

classify_topology_node_at_iff_example :
    (classify_topology_node_at at_ten (some replaced) back_online (pos 25000) ≡ recovered_edge)
    ↔ IsRecovered at_ten back_online (pos 25000)
classify_topology_node_at_iff_example =
    classify_topology_node_at_iff at_ten replaced back_online (pos 25000)
