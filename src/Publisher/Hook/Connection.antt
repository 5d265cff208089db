-- ===== src/Publisher/Hook/Connection.antt =====
-- usePublisher.js: connecting, losing the connection, failing over and connection table updates.
use io_t_midterm_availabilit.Base.{
  ℕ, ◌+◌, String, Bool, true, false, not, ◌&&◌, ◌||◌, Option, none, some, List, [], ◌∷◌, find, ◌==◌,
  ◌=ₛ◌, if◌then◌else◌,
}
use io_t_midterm_availabilit.Js.Value.{Value, null, str, truthy, is_text, strict_eq}
use io_t_midterm_availabilit.Js.Text.{◌<>◌, decimal, parse_int}
use io_t_midterm_availabilit.Publisher.Ct.{Ct, Node}
use io_t_midterm_availabilit.Publisher.Selection.{
  Broker, select_fallback_broker, find_preferred_core_broker, should_return_to_primary,
  should_accept_ct_update, resolve_primary_edge_id,
}
use io_t_midterm_availabilit.Js.Url.{Url}
use io_t_midterm_availabilit.Publisher.Hook.State.{
  State, disconnected, connecting, error, Client, failover, primary_retry, connects, ends,
}
use io_t_midterm_availabilit.Publisher.Hook.Queue.{clear_pending_queue, clear_pending_discard}

-- The URL's host is a text: `selectFallbackBroker` and `findPreferredCoreBroker` return no other.
abbrev pub host_text : Value → String
host_text (str s) = s
host_text _ = ""

unfoldable pub build_broker_url : State → String → String
build_broker_url s host =
    if host =ₛ "" then "" else s.ws_protocol <> "//" <> host <> ":" <> decimal s.ws_port

abbrev end_client : Option Client → State → State
end_client none s = s
end_client (some c) s = record s { calls = ends c.serial ∷ s.calls }

-- It clears both timers and drops the client.
unfoldable pub destroy_client : State → State
destroy_client s =
    end_client s.client (record s { timer = none; health_check = false; client = none })

abbrev new_client : String → State → State
new_client url s = record s {
  active_url = url;
  status = connecting;
  client = some (record { serial = s.next_serial; url = url; is_connected = false });
  next_serial = s.next_serial + 1;
  calls = connects s.next_serial url ∷ s.calls;
}

unfoldable pub connect_to_broker : String → State → State
unfolding destroy_client
connect_to_broker url s = if url =ₛ "" then s else new_client url (destroy_client s)

unfoldable pub schedule_reconnect : ℕ → State → State
schedule_reconnect delay s = record s { timer = some (failover delay) }

unfoldable pub schedule_primary_retry : State → State
schedule_primary_retry s = record s { timer = some primary_retry }

unfoldable pub handle_connection_loss : ℕ → State → State
unfolding destroy_client schedule_reconnect
handle_connection_loss delay s =
    if s.manual_disconnect
    then record s { status = disconnected }
    else schedule_reconnect delay
        (destroy_client (record (clear_pending_queue s) { active_url = ""; status = disconnected }))

-- Set the fallback mark and connect.
unfoldable pub fail_over_to : String → State → State
fail_over_to url s = connect_to_broker url (record s { on_fallback = not (url =ₛ s.primary_url) })

-- The URL of the broker that was selected, or the cached core where that is the primary again.
unfoldable pub fallback_url : State → Broker → String
fallback_url s b =
    let url = build_broker_url s (host_text b.ip) in
    if url =ₛ s.primary_url && not (s.cached_core_url =ₛ "") && not (s.cached_core_url =ₛ url)
    then s.cached_core_url
    else url

unfoldable pub to_selected : State → Option Broker → State
to_selected s none = schedule_primary_retry s
to_selected s (some b) =
    let url = fallback_url s b in
    if url =ₛ "" || url =ₛ s.active_url then schedule_primary_retry s else fail_over_to url s

-- `!ct || !Array.isArray(ct.nodes) || ct.nodes.length === 0`
abbrev pub has_nodes : Option Ct → Bool
has_nodes none = false
has_nodes (some ct) = elim ct.nodes [
  | none ↦ false
  | some ns ↦ elim ns [ [] ↦ false | _ ∷ _ ↦ true ]
]

unfoldable pub attempt_failover : State → State
attempt_failover s =
    if s.manual_disconnect
    then s
    else if not (has_nodes s.ct)
    then (if s.cached_core_url =ₛ ""
        then schedule_primary_retry s
        else fail_over_to s.cached_core_url s)
    else to_selected s (select_fallback_broker s.ct s.primary_edge_id s.primary_ip)

abbrev with_core_url : State → Option Broker → State
with_core_url s none = s
with_core_url s (some b) =
    if truthy b.ip then record s { cached_core_url = build_broker_url s (host_text b.ip) } else s

unfoldable pub remember_preferred_core : State → State
remember_preferred_core s = with_core_url s (find_preferred_core_broker s.ct s.primary_edge_id)

unfoldable pub resolve_primary : State → State
resolve_primary s =
    if s.primary_ip =ₛ ""
    then s
    else let id = resolve_primary_edge_id s.ct (str s.primary_ip) null in
      if truthy id then record s { primary_edge_id = id } else s

abbrev has_edge_id : Value → Node → Bool
has_edge_id id n = strict_eq n.id id

abbrev is_gone : Option Node → Bool
is_gone none = true
is_gone (some n) = is_text n.status "OFFLINE"

abbrev pub primary_gone : Option Ct → Value → Bool
primary_gone none id = true
primary_gone (some ct) id = elim ct.nodes [
  | none ↦ true
  | some nodes ↦ is_gone (find (has_edge_id id) nodes)
]

-- The decision behind an accepted table: back to the primary, away from it, or stay.
unfoldable pub decide_after_ct : State → State
decide_after_ct s =
    if s.on_fallback && truthy s.primary_edge_id && should_return_to_primary s.ct s.primary_edge_id
    then connect_to_broker s.primary_url (record s { on_fallback = false })
    else if not s.on_fallback && truthy s.primary_edge_id && primary_gone s.ct s.primary_edge_id
    then attempt_failover s
    else s

abbrev pub store_ct : Ct → State → State
store_ct next s = record s { ct = some next; ct_received = true }

-- The argument is what `JSON.parse` made of the message, `none` where it threw or the value is
-- falsy; neither is accepted.
unfoldable pub handle_ct_message : Option Ct → State → State
handle_ct_message none s = s
handle_ct_message (some next) s =
    if should_accept_ct_update s.ct (some next)
    then decide_after_ct (resolve_primary (remember_preferred_core (store_ct next s)))
    else s

abbrev port_or_default : ℕ → ℕ
port_or_default p = if p == 0 then 9001 else p

-- `connect`, given the URLs that `parseBrokerCandidates` returned, each as `new URL` reads it.
unfoldable pub connect : List Url → State → State
connect [] s = record (destroy_client (record s { manual_disconnect = false })) { status = error }
connect (primary ∷ _) s = connect_to_broker primary.href (record s {
  manual_disconnect = false;
  primary_url = primary.href;
  primary_ip = primary.hostname;
  ws_port = port_or_default (parse_int primary.port);
  ws_protocol = (if primary.protocol =ₛ "wss:" then "wss:" else "ws:");
  cached_core_url = "";
  on_fallback = false;
  primary_edge_id = null;
  ct = none;
  last_activity = 0;
  ct_received = false;
})

unfoldable pub disconnect : State → State
unfolding destroy_client
disconnect s =
    record (destroy_client (record s {
      manual_disconnect = true;
      last_attempt = none;
      primary_url = "";
      primary_ip = "";
      cached_core_url = "";
      on_fallback = false;
      ct = none;
      queue = [];
      queue_size = 0;
      pending = [];
      active_url = "";
      ct_received = false;
    })) { status = disconnected }

-- The clean-up of the hook's last effect.
unfoldable pub unmount : State → State
unfolding destroy_client clear_pending_discard
unmount s = destroy_client (clear_pending_discard (record s { manual_disconnect = true }))
