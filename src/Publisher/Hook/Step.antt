-- ===== src/Publisher/Hook/Step.antt =====
-- usePublisher.js: everything that can happen to the hook, as one step. The user's calls, the
-- events of an MQTT client, which carry the client's serial number, and the timers.
use io_t_midterm_availabilit.Base.{
  ℕ, String, Bool, true, false, not, ◌&&◌, Option, none, some, List, [], ◌∷◌, ◌==◌, if◌then◌else◌,
}
use io_t_midterm_availabilit.Publisher.Ct.{Ct}
use io_t_midterm_availabilit.Publisher.Message.{Args}
use io_t_midterm_availabilit.Js.Url.{Url}
use io_t_midterm_availabilit.Publisher.Hook.State.{
  State, connected, disconnected, Client, Timer, failover, primary_retry, subscribes,
  reconnect_delay_ms,
}
use io_t_midterm_availabilit.Publisher.Hook.Connection.{
  connect, disconnect, unmount, connect_to_broker, attempt_failover, handle_connection_loss,
  handle_ct_message,
}
use io_t_midterm_availabilit.Publisher.Hook.Delivery.{
  publish, publish_timeout, publish_result, flush_queue, flush_result, mark_broker_activity,
  is_broker_activity_stale,
}

-- `link_down` is the library's own bookkeeping behind `client.connected`; it comes before `close`.
-- `ct` is what `JSON.parse` made of a message on the table's topic; `other` is any other topic.
pub data ClientEvent : Type 0 where
  connects_at : (now : ℕ) → ClientEvent
  link_down offline errored closed : ClientEvent
  ct : (now : ℕ) → Option Ct → ClientEvent
  other packet : (now : ℕ) → ClientEvent

pub data Event : Type 0 where
  user_connects : List Url → Event
  user_disconnects unmounts : Event
  user_publishes : Args → (now : ℕ) → Event
  from_client : (serial : ℕ) → ClientEvent → Event
  reconnect_timer : Event
  health_timer : (now : ℕ) → Event
  publish_timer : (id : String) → Event
  published : (id : String) (failed : Bool) (now : ℕ) → Event
  flushed_one : (id : String) (failed : Bool) (now : ℕ) → Event

abbrev set_connected : Bool → Client → Client
set_connected b c = record c { is_connected = b }

-- The listeners of the current client.
unfoldable pub client_step : Client → ClientEvent → State → State
client_step c (connects_at now) s = flush_queue (record (mark_broker_activity now s) {
  status = connected;
  client = some (set_connected true c);
  calls = subscribes c.serial ∷ s.calls;
  health_check = true;
})
client_step c link_down s = record s { client = some (set_connected false c) }
client_step c offline s = handle_connection_loss 0 s
client_step c errored s = handle_connection_loss 0 s
client_step c closed s =
    if s.manual_disconnect
    then record s { status = disconnected }
    else handle_connection_loss reconnect_delay_ms s
client_step c (ct now table) s = handle_ct_message table (mark_broker_activity now s)
client_step c (other now) s = mark_broker_activity now s
client_step c (packet now) s = mark_broker_activity now s

-- `if (clientRef.current !== client) return;` heads every listener.
abbrev pub to_client : ℕ → ClientEvent → Option Client → State → State
to_client serial e none s = s
to_client serial e (some c) s = if c.serial == serial then client_step c e s else s

abbrev pub timer_fires : Option Timer → State → State
timer_fires none s = s
timer_fires (some (failover delay)) s = attempt_failover (record s { timer = none })
timer_fires (some primary_retry) s =
    if s.manual_disconnect
    then record s { timer = none }
    else connect_to_broker s.primary_url (record s { timer = none })

abbrev is_connected_client : Option Client → Bool
is_connected_client none = false
is_connected_client (some c) = c.is_connected

abbrev health_fires : ℕ → State → State
health_fires now s =
    if s.health_check
      && is_connected_client s.client
      && not s.manual_disconnect
      && is_broker_activity_stale s.last_activity now
    then handle_connection_loss 0 s
    else s

unfoldable pub step : State → Event → State
step s (user_connects urls) = connect urls s
step s user_disconnects = disconnect s
step s unmounts = unmount s
step s (user_publishes a now) = (publish a now s).0
step s (from_client serial e) = to_client serial e s.client s
step s reconnect_timer = timer_fires s.timer s
step s (health_timer now) = health_fires now s
step s (publish_timer id) = publish_timeout id s
step s (published id failed now) = publish_result id failed now s
step s (flushed_one id failed now) = flush_result id failed now s

unfoldable pub run : State → List Event → State
run s [] = s
run s (e ∷ es) = run (step s e) es
