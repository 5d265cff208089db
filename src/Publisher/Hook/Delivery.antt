-- ===== src/Publisher/Hook/Delivery.antt =====
-- usePublisher.js: publishing an event, its acknowledgement, and flushing the queue.
use io_t_midterm_availabilit.Base.{
  ℕ, ◌+◌, ◌*◌, ◌/◌, ◌-◌, String, Bool, true, false, not, ◌&&◌, ◌||◌, Option, none, some, List, [],
  ◌∷◌, find, filter, map, ltb, leb, ◌==◌, ◌=ₛ◌, if◌then◌else◌,
}
use io_t_midterm_availabilit.Js.Value.{truthy}
use io_t_midterm_availabilit.Js.Text.{◌<>◌}
use io_t_midterm_availabilit.Publisher.Message.{Message, Args, build_message, build_topic}
use io_t_midterm_availabilit.Publisher.Hook.State.{
  State, connecting, connected, LogEntry, unset, queued, sent, Entry, entry_id, Pending, pending_id,
  Client, Status, Attempt, publishes, subscribes, keepalive_seconds, duplicate_publish_window_ms,
}
use io_t_midterm_availabilit.Publisher.Hook.State
use io_t_midterm_availabilit.Publisher.Hook.Queue.{
  upsert_event, has_id, queue_publish, put_back, has_pending_id,
}
use io_t_midterm_availabilit.Publisher.Hook.Connection.{handle_connection_loss}

abbrev separator : String
separator = "\u{1}"

unfoldable pub build_publish_attempt_key : Args → String
build_publish_attempt_key a =
    a.type <> separator <> a.building_id <> separator <> a.camera_id <> separator <> a.description

-- `now - at < windowMs`, also where the clock was set back.
unfoldable pub should_suppress_duplicate_publish : Option Attempt → String → ℕ → Bool
should_suppress_duplicate_publish none key now = false
should_suppress_duplicate_publish (some previous) key now =
    not (key =ₛ "") && previous.key =ₛ key && ltb now (previous.at + duplicate_publish_window_ms)

-- Half up of one and a half keep-alive periods, and a quarter of a second.
abbrev pub stale_threshold_ms : ℕ
stale_threshold_ms = (keepalive_seconds * 1000 * 3 + 1) / 2 + 250

unfoldable pub is_broker_activity_stale : ℕ → ℕ → Bool
is_broker_activity_stale last now = not (last == 0) && ltb (last + stale_threshold_ms) now

unfoldable pub mark_broker_activity : ℕ → State → State
mark_broker_activity now s = record s { last_activity = now }

unfoldable pub is_delivering_via_fallback : State → Bool
is_delivering_via_fallback s =
    s.on_fallback
    || (not (s.active_url =ₛ "")
        && not (s.primary_url =ₛ "")
        && not (s.active_url =ₛ s.primary_url))

unfoldable pub apply_origin_route : State → Message → Message
apply_origin_route s msg =
    if truthy s.primary_edge_id then record msg { original_node = s.primary_edge_id } else msg

unfoldable pub mark_fallback : State → Message → Message
mark_fallback s msg =
    if is_delivering_via_fallback s
    then record msg { via_failover = true; intended_edge_ip = some s.primary_ip }
    else msg

-- The payload of a queued entry when it is sent.
unfoldable pub flush_payload : State → Message → Message
flush_payload s msg = mark_fallback s (record (apply_origin_route s msg) { was_queued = true })

-- One entry of `flushQueue`: it is handed to the library and waits for its callback.
unfoldable pub flush_one : ℕ → Entry → State → State
flush_one serial item s = record s {
  flushing = item ∷ s.flushing;
  calls = publishes serial item.topic (flush_payload s item.payload) ∷ s.calls;
}

unfoldable pub flush_all : ℕ → List Entry → State → State
flush_all serial [] s = s
flush_all serial (item ∷ items) s = flush_all serial items (flush_one serial item s)

unfoldable pub flush_to : Option Client → State → State
flush_to none s = s
flush_to (some c) s =
    if c.is_connected
    then flush_all c.serial s.queue (record s { queue = []; queue_size = 0 })
    else s

unfoldable pub flush_queue : State → State
flush_queue s = flush_to s.client s

abbrev pub is_other_entry : String → Entry → Bool
is_other_entry id e = not (has_id id e)

-- The callback of a flushed publish. On an error the entry goes to the front of the queue.
abbrev pub flush_done : Bool → ℕ → Entry → State → State
flush_done true now item s =
    upsert_event
      (record (item.log) { status = queued; broker_url = s.active_url; sent_at = item.sent_at })
      (record s {
        queue = item ∷ s.queue;
        queue_size = io_t_midterm_availabilit.Base.length (item ∷ s.queue);
      })
flush_done false now item s =
    upsert_event
      (record (item.log) {
        status = elim item.log.status [ queued ↦ State.flushed | _ ↦ sent ];
        broker_url = s.active_url;
        sent_at = now;
      })
      (mark_broker_activity now s)

unfoldable pub flush_found : Bool → ℕ → String → Option Entry → State → State
flush_found failed now id none s = s
flush_found failed now id (some item) s =
    flush_done failed now item (record s { flushing = filter (is_other_entry id) s.flushing })

unfoldable pub flush_result : String → Bool → ℕ → State → State
flush_result id failed now s = flush_found failed now id (find (has_id id) s.flushing) s

abbrev pub is_connecting : Status → Bool
is_connecting connecting = true
is_connecting _ = false

-- `if (!manualDisconnectRef.current && status !== 'connecting') handleConnectionLoss(0)`
abbrev pub lose_unless : Bool → State → State
lose_unless was_connecting s =
    if not s.manual_disconnect && not was_connecting then handle_connection_loss 0 s else s

unfoldable pub new_entry : State → String → Message → ℕ → Entry
new_entry s topic msg now = record {
  topic = topic;
  payload = msg;
  sent_at = now;
  log = record {
    msg = msg;
    topic = topic;
    broker_url = s.active_url;
    sent_at = now;
    status = unset;
  };
}

-- No live connection, or a stale one: to the queue, and reconnect.
unfoldable pub publish_offline : Entry → State → State
publish_offline entry s =
    lose_unless (is_connecting s.status)
      (upsert_event (record (entry.log) { status = queued }) (queue_publish entry s))

abbrev pub is_other_pending : String → Pending → Bool
is_other_pending id p = not (has_pending_id id p)

-- To the library, with an entry in the map of pending publishes.
unfoldable pub publish_online : Client → Entry → State → State
publish_online c entry s = record s {
  pending =
      io_t_midterm_availabilit.Base.◌++◌ (filter (is_other_pending (entry_id entry)) s.pending) (
        record {
          entry = entry;
          queued = false;
          settled = false;
          was_connecting = is_connecting s.status;
        }
        ∷ []);
  calls = publishes c.serial entry.topic entry.payload ∷ s.calls;
}

unfoldable pub publish_entry : Option Client → Entry → ℕ → State → State × Bool
publish_entry none entry now s = (publish_offline entry s, false)
publish_entry (some c) entry now s =
    if not c.is_connected || is_broker_activity_stale s.last_activity now
    then (publish_offline entry s, false)
    else (publish_online c entry s, true)

unfoldable pub publish_built : Args → ℕ → Option Message → Option String → State → State × Bool
publish_built a now none topic s = (s, false)
publish_built a now (some msg) none s = (s, false)
publish_built a now (some msg) (some topic) s =
    publish_entry s.client (new_entry s topic (mark_fallback s (apply_origin_route s msg)) now) now
      s

unfoldable pub publish : Args → ℕ → State → State × Bool
publish a now s =
    if should_suppress_duplicate_publish s.last_attempt (build_publish_attempt_key a) now
    then (s, false)
    else publish_built a now (build_message a) (build_topic a.type a.building_id a.camera_id)
        (record s { last_attempt = some (record { key = build_publish_attempt_key a; at = now }) })

abbrev pub without_pending : String → State → State
without_pending id s = record s { pending = filter (is_other_pending id) s.pending }

unfoldable pub timed_out : String → Option Pending → State → State
timed_out id none s = s
timed_out id (some p) s =
    if p.settled then s else lose_unless p.was_connecting (without_pending id (put_back p.entry s))

-- The acknowledgement timer of a publish.
unfoldable pub publish_timeout : String → State → State
publish_timeout id s = timed_out id (find (has_pending_id id) s.pending) s

unfoldable pub acknowledged : String → Bool → ℕ → Option Pending → State → State
acknowledged id failed now none s = s
acknowledged id true now (some p) s =
    lose_unless p.was_connecting (put_back p.entry (without_pending id s))
acknowledged id false now (some p) s =
    let s' = mark_broker_activity now (without_pending id s) in
    upsert_event (record (p.entry.log) { status = sent; broker_url = s'.active_url; sent_at = now })
      s'

-- The callback of a publish; the flag says whether it got an error.
unfoldable pub publish_result : String → Bool → ℕ → State → State
publish_result id failed now s = acknowledged id failed now (find (has_pending_id id) s.pending) s
