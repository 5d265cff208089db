-- ===== src/Publisher/Tests.antt =====
-- Concrete tables and sessions of the publisher.
use io_t_midterm_availabilit.Base.{
  ℕ, ◌≡◌, ◌↔◌, refl, String, true, false, none, some, List, [], ◌∷◌, arith, find, any, pos, length,
  ◌≤◌, eq_iff, Option, ◌=ₛ◌, if◌then◌else◌,
}
use io_t_midterm_availabilit.Js.Number.{fin, whole, num_ltb, num_eqb}
use io_t_midterm_availabilit.Js.Value.{null, num, str}
use io_t_midterm_availabilit.Publisher.Ct.{Ct, Node, Link}
use io_t_midterm_availabilit.Publisher.Message.{Message}
use io_t_midterm_availabilit.Js.Url.{Url}
use io_t_midterm_availabilit.Js.Text.{split_runs, trim, is_space}
use io_t_midterm_availabilit.Publisher.Brokers.{
  parse_broker_candidates, normalized, normalize_broker_url, add_unseen,
}
use io_t_midterm_availabilit.Publisher.Brokers.Candidates.{
  IsCandidateList, parse_broker_candidates-IsCandidateList,
}
use io_t_midterm_availabilit.Publisher.Selection.{
  Broker, get_rtt, is_broker_node, build_candidate, is_better, is_better_candidate,
  is_excluded_node, consider, pick_from, pick_best_candidate, is_named_core, preferred_core,
  find_preferred_core_broker, select_among, select_fallback_broker, should_return_to_primary,
  is_well_formed, should_accept_ct_update, resolve_primary_edge_id,
}
use io_t_midterm_availabilit.Publisher.Selection.Choice.{
  Choice, CoreChoice, select_fallback_broker_lem, find_preferred_core_broker_lem,
}
use io_t_midterm_availabilit.Publisher.Selection.Usable.{
  IsUsable, NothingUsable, select_fallback_broker-IsUsable, select_fallback_broker-eq-none_iff,
}
use io_t_midterm_availabilit.Publisher.Hook.State.{State, Entry, initial, Pending, unset, max_queue}
use io_t_midterm_availabilit.Publisher.Hook.Queue.{queue_publish}
use io_t_midterm_availabilit.Publisher.Hook.Connection.{
  handle_connection_loss, connect, connect_to_broker, destroy_client, disconnect,
}
use io_t_midterm_availabilit.Publisher.Hook.Return.{IsHandled, handle_ct_message-IsHandled}
use io_t_midterm_availabilit.Publisher.Hook.Connection.{
  handle_ct_message, decide_after_ct, resolve_primary, remember_preferred_core, build_broker_url,
}
use io_t_midterm_availabilit.Js.Text.{decimal}
use io_t_midterm_availabilit.Js.Scan.{slice_to, slice_from}
use io_t_midterm_availabilit.Client.Parsers.{is_uuid}
use io_t_midterm_availabilit.Publisher.Uuid.{
  generate_uuid, hex_char, hex_text, mark_bytes, dashed, group,
}
use io_t_midterm_availabilit.Publisher.Uuid.Layout.{generate_uuid-is_uuid}
use io_t_midterm_availabilit.Publisher.Hook.Step.{step, user_connects, user_disconnects}
use io_t_midterm_availabilit.Publisher.Hook.Liveness.{IsAlive, Attached}
use io_t_midterm_availabilit.Publisher.Hook.Steps.{
  Reach, start, next, Reach-IsAlive, Reach-parked, Reach-Attached,
}
use io_t_midterm_availabilit.Publisher.Hook.Tidy.{IsTidy}
use io_t_midterm_availabilit.Publisher.Hook.TidySteps.{Reach-IsTidy}
use io_t_midterm_availabilit.Publisher.Hook.Offline.{
  Queued, HasDistinctEntries, queue_publish-Queued, queue_publish-bounded,
  handle_connection_loss-queue,
}

-- To run the selection on closed tables.
selection : Unit {0}
unfolding find any get_rtt is_broker_node build_candidate is_better is_better_candidate
    is_excluded_node consider pick_from pick_best_candidate is_named_core preferred_core
    find_preferred_core_broker select_among select_fallback_broker should_return_to_primary
    is_well_formed should_accept_ct_update resolve_primary_edge_id num_ltb num_eqb whole
selection = tt

abbrev node : String → String → String → String → Node
node id role ip status = record {
  id = str id;
  role = str role;
  ip = str ip;
  port = num (fin (pos 1883));
  status = str status;
  hop_to_core = num (fin (pos 1));
}

abbrev edges_and_cores : List Node
edges_and_cores =
    node "a" "NODE" "10.0.0.1" "ONLINE"
    ∷ node "b" "NODE" "10.0.0.2" "ONLINE"
    ∷ node "c" "NODE" "10.0.0.3" "ONLINE"
    ∷ node "x" "CORE" "10.0.1.1" "ONLINE"
    ∷ node "y" "CORE" "10.0.1.2" "ONLINE"
    ∷ []

abbrev rtt : String → String → ℕ → Link
rtt from to ms = record { from_id = str from; to_id = str to; rtt_ms = num (fin (pos ms)) }

abbrev table : List Node → Ct
table nodes = record {
  version = num (fin (pos 7));
  active_core_id = str "x";
  backup_core_id = str "y";
  nodes = some nodes;
  links = some (rtt "a" "b" 30 ∷ rtt "c" "a" 20 ∷ []);
}

abbrev broker : String → String → Broker
broker id ip = record { id = str id; ip = str ip; port = num (fin (pos 1883)) }

-- The link to `c` is read in either direction, and `c` is nearer than `b`.
nearest :
    select_fallback_broker (some (table edges_and_cores)) (str "a") "10.0.0.1"
    ≡ some (broker "c" "10.0.0.3")
unfolding selection
nearest = refl

abbrev cores_only : List Node
cores_only =
    node "a" "NODE" "10.0.0.1" "ONLINE"
    ∷ node "x" "CORE" "10.0.1.1" "OFFLINE"
    ∷ node "y" "CORE" "10.0.1.2" "ONLINE"
    ∷ []

backup_core :
    select_fallback_broker (some (table cores_only)) (str "a") "10.0.0.1"
    ≡ some (broker "y" "10.0.1.2")
unfolding selection
backup_core = refl

-- With the id unknown the primary is recognised by its address.
by_address :
    select_fallback_broker (some (table (node "a" "NODE" "10.0.0.1" "ONLINE" ∷ []))) null "10.0.0.1"
    ≡ none
unfolding selection
by_address = refl

newer :
    should_accept_ct_update
      (some (table []))
      (some (record (table []) { version = num (fin (pos 8)) }))
    ≡ true
unfolding selection
newer = refl

not_newer : should_accept_ct_update (some (table [])) (some (table [])) ≡ false
unfolding selection
not_newer = refl

select_fallback_broker_lem_example :
    Choice
      (table cores_only)
      cores_only
      (str "a")
      "10.0.0.1"
      (select_fallback_broker (some (table cores_only)) (str "a") "10.0.0.1")
select_fallback_broker_lem_example =
    select_fallback_broker_lem (table cores_only) cores_only (str "a") "10.0.0.1" refl

find_preferred_core_broker_lem_example :
    CoreChoice
      (table cores_only)
      cores_only
      null
      (find_preferred_core_broker (some (table cores_only)) null)
find_preferred_core_broker_lem_example =
    find_preferred_core_broker_lem (table cores_only) cores_only null refl

select_fallback_broker-IsUsable_example : IsUsable edges_and_cores (broker "c" "10.0.0.3")
select_fallback_broker-IsUsable_example =
    select_fallback_broker-IsUsable (table edges_and_cores) edges_and_cores (str "a") "10.0.0.1"
      (broker "c" "10.0.0.3") refl nearest

select_fallback_broker-eq-none_iff_example :
    (select_fallback_broker (some (table [])) null "" ≡ none) ↔ NothingUsable (table []) [] null ""
select_fallback_broker-eq-none_iff_example =
    select_fallback_broker-eq-none_iff (table []) [] null "" refl

-- A session: connect, and disconnect again.
abbrev url : Url
url = record {
  href = "ws://10.0.0.1:9001/";
  protocol = "ws:";
  hostname = "10.0.0.1";
  port = "9001";
}

connected_once : Reach (step initial (user_connects (url ∷ [])))
connected_once =
    next start (user_connects (url ∷ [])) ((λ e. ground (arith, eq_iff url.href "")), tt)

left : Reach (step (step initial (user_connects (url ∷ []))) user_disconnects)
left = next connected_once user_disconnects tt

Reach-IsAlive_example : IsAlive (step initial (user_connects (url ∷ [])))
Reach-IsAlive_example = Reach-IsAlive connected_once

Reach-parked_example :
    let s = step (step initial (user_connects (url ∷ []))) user_disconnects in
    (s.client ≡ none) × (s.timer ≡ none)
unfolding step connect connect_to_broker destroy_client disconnect
Reach-parked_example = Reach-parked left refl

Reach-Attached_example :
    Attached
      (step initial (user_connects (url ∷ [])))
      (step initial (user_connects (url ∷ []))).client
Reach-Attached_example = Reach-Attached connected_once

Reach-IsTidy_example : IsTidy (step initial (user_connects (url ∷ [])))
Reach-IsTidy_example = Reach-IsTidy connected_once

abbrev message : String → Message
message id = record {
  msg_id = id;
  type = "MOTION";
  timestamp = "2026-04-18T12:00:00Z";
  created_at = "2026-04-18T12:00:00Z";
  priority = some "MEDIUM";
  source_role = "NODE";
  source_id = "p";
  target_role = "CORE";
  target_id = "";
  original_node = str "p";
  prev_hop = "";
  next_hop = "";
  hop_count = 0;
  ttl = 8;
  qos = 1;
  dup = false;
  retain = false;
  building_id = "main";
  camera_id = "cam";
  description = "";
  via_failover = false;
  intended_edge_ip = none;
  was_queued = false;
}

abbrev entry : String → Entry
entry id = record {
  topic = "campus/data/motion/main/cam";
  payload = message id;
  sent_at = 5;
  log = record {
    msg = message id;
    topic = "campus/data/motion/main/cam";
    broker_url = "";
    sent_at = 5;
    status = unset;
  };
}

abbrev open_publish : String → Pending
open_publish id = record {
  entry = entry id;
  queued = false;
  settled = false;
  was_connecting = false;
}

abbrev busy : State
busy = record initial {
  queue = entry "1" ∷ [];
  queue_size = 1;
  pending = open_publish "2" ∷ open_publish "3" ∷ [];
}

handle_connection_loss-queue_example :
    ((handle_connection_loss 0 busy).queue ≡ entry "1" ∷ entry "2" ∷ entry "3" ∷ [])
    × ((handle_connection_loss 0 busy).pending ≡ [])
handle_connection_loss-queue_example =
    handle_connection_loss-queue 0 busy refl ((refl, refl, refl), ((refl, refl, refl), tt))
      (omega arith)
      (
        ((λ e. ground (arith, eq_iff "2" "1")), ((λ e. ground (arith, eq_iff "3" "1")), tt)),
        (((λ e. ground (arith, eq_iff "3" "2")), tt), (tt, tt)),
      )

queue_publish-Queued_example : Queued (entry "1") busy.queue (queue_publish (entry "1") busy).queue
queue_publish-Queued_example = queue_publish-Queued (entry "1") busy

queue_publish-bounded_example :
    (length (queue_publish (entry "4") busy).queue ≤ max_queue)
    × HasDistinctEntries (queue_publish (entry "4") busy).queue
queue_publish-bounded_example = queue_publish-bounded (entry "4") busy (omega arith) (tt, tt)

-- `new URL` on the texts of the test.
abbrev new_url : String → Option Url
new_url raw =
    if raw =ₛ "ws://10.0.0.1:9001"
    then some url
    else if raw =ₛ "http://10.0.0.2"
    then some (record { href = raw; protocol = "http:"; hostname = "10.0.0.2"; port = "" })
    else none

candidates :
    parse_broker_candidates new_url " ws://10.0.0.1:9001, ws://10.0.0.1:9001  http://10.0.0.2"
    ≡ url ∷ []
unfolding parse_broker_candidates split_runs normalized normalize_broker_url add_unseen any trim
    is_space
candidates = refl

parse_broker_candidates-IsCandidateList_example :
    IsCandidateList new_url " ws://10.0.0.1:9001, ws://10.0.0.1:9001  http://10.0.0.2"
      (parse_broker_candidates new_url " ws://10.0.0.1:9001, ws://10.0.0.1:9001  http://10.0.0.2")
parse_broker_candidates-IsCandidateList_example =
    parse_broker_candidates-IsCandidateList new_url
      " ws://10.0.0.1:9001, ws://10.0.0.1:9001  http://10.0.0.2"

-- On a fallback broker, a table with the primary online.
abbrev away : State
away = record initial {
  primary_url = "ws://10.0.0.1:9001/";
  primary_ip = "10.0.0.1";
  active_url = "ws://10.0.0.2:9001";
  on_fallback = true;
}

goes_home :
    (handle_ct_message (some (table edges_and_cores)) away).active_url ≡ "ws://10.0.0.1:9001/"
unfolding handle_ct_message decide_after_ct resolve_primary remember_preferred_core
    connect_to_broker destroy_client selection build_broker_url decimal
goes_home = refl

handle_ct_message-IsHandled_example :
    IsHandled (table edges_and_cores) away (handle_ct_message (some (table edges_and_cores)) away)
handle_ct_message-IsHandled_example = handle_ct_message-IsHandled (table edges_and_cores) away

made :
    generate_uuid none
      (0 ∷ 1 ∷ 2 ∷ 3 ∷ 4 ∷ 5 ∷ 255 ∷ 7 ∷ 255 ∷ 9 ∷ 10 ∷ 11 ∷ 12 ∷ 13 ∷ 14 ∷ 15 ∷ [])
    ≡ "00010203-0405-4f07-bf09-0a0b0c0d0e0f"
unfolding generate_uuid hex_char hex_text mark_bytes dashed group slice_to slice_from
made = refl

generate_uuid-is_uuid_example :
    is_uuid (
      str (
        generate_uuid none
          (0 ∷ 1 ∷ 2 ∷ 3 ∷ 4 ∷ 5 ∷ 255 ∷ 7 ∷ 255 ∷ 9 ∷ 10 ∷ 11 ∷ 12 ∷ 13 ∷ 14 ∷ 15 ∷ [])))
    ≡ true
generate_uuid-is_uuid_example = generate_uuid-is_uuid 0 1 2 3 4 5 255 7 255 9 10 11 12 13 14 15
