-- ===== src/Client/Hook/Messages.antt =====
-- useMqtt.js: the handlers of the messages, one for each kind of topic. `raw` is a message's text,
-- `now` and `later` are two readings of the clock.
use io_t_midterm_availabilit.Base.{
  ℕ, suc, ◌+◌, ◌-◌, ℤ, pos, negsuc, String, Bool, true, false, not, ◌&&◌, Option, none, some, List,
  [], ◌∷◌, find, take, leb, ◌=ₛ◌, if◌then◌else◌,
}
use io_t_midterm_availabilit.Js.Number.{num_leb}
use io_t_midterm_availabilit.Js.Value.{Value, str, get, truthy, is_nullish, is_text, strict_eq}
use io_t_midterm_availabilit.Js.Text.{decimal, ◌<>◌}
use io_t_midterm_availabilit.Js.Scan.{slice_to}
use io_t_midterm_availabilit.Client.Parsers.{
  Node, Table, MqttMessage, parse_connection_table, parse_mqtt_message,
}
use io_t_midterm_availabilit.Client.Visibility.{text_of}
use io_t_midterm_availabilit.Client.Failover.{resolve_backup_reconnect_target}
use io_t_midterm_availabilit.Client.Hook.State.{
  Env, State, Alert, of_node, of_core, Incident, IncidentType, plain, late, endpoint,
  buffered_events, edge_down, edge_up, failover_switch, core_down, active_core_down,
  backup_core_down, EventEntry, max_events, buffered_event_threshold_ms,
  buffered_incident_cooldown_ms,
}
use io_t_midterm_availabilit.Client.Hook.Updates.{
  push_incident, push_alert, see_message, is_seen_message, reconnect_to_broker_host,
  apply_presentation_topology, refresh_visible_topology, reconnect_to_described, follow_promotion,
  has_text, has_value,
}

abbrev pub or_empty : Value → Value
or_empty v = if is_nullish v then str "" else v

-- `x?.source?.id ?? ''` and `x?.payload?.description ?? ''`
abbrev pub source_id : MqttMessage → Value
source_id m = or_empty (get m.source "id")

abbrev pub description : Option MqttMessage → Value
description none = str ""
description (some m) = or_empty (get m.payload "description")

-- `Math.max(0, receivedAt - eventTimestampMs)`, 0 where the time stamp is no date.
abbrev pub delay_since : ℕ → Option ℤ → ℕ
delay_since received none = 0
delay_since received (some (pos t)) = received - t
delay_since received (some (negsuc t)) = received + suc t

abbrev pub last_seen : Value → List (Value × ℕ) → ℕ
last_seen k [] = 0
last_seen k ((j, at) ∷ rest) = if strict_eq j k then at else last_seen k rest

-- `sourceId || parsed.msg_id`
unfoldable pub cooldown_key : MqttMessage → Value
cooldown_key m = if truthy (source_id m) then source_id m else m.msg_id

-- A table is stale where the last one is not older.
abbrev pub is_stale : Table → Option Table → Bool
is_stale t none = false
is_stale t (some previous) = num_leb t.version previous.version

abbrev pub incident_type : Option Table → String → IncidentType
incident_type none id = core_down
incident_type (some t) id =
    if t.active_core_id =ₛ id
    then active_core_down
    else if t.backup_core_id =ₛ id
    then backup_core_down
    else core_down

abbrev pub is_active_core : Option Table → String → Bool
is_active_core none id = false
is_active_core (some t) id = t.active_core_id =ₛ id

abbrev pub is_offline_in : Option Node → Bool
is_offline_in none = true
is_offline_in (some n) = is_text n.status "OFFLINE"

abbrev pub node_in : Option Table → String → Option Node
node_in none id = none
node_in (some t) id = find (λ (n : Node). is_text n.id id) t.nodes

abbrev pub last_table_text : String → String → Option Table → String
last_table_text version other none = other
last_table_text version other (some t) = version

module _ (env : Env) where
  abbrev pub parsed_table : String → Option Table
  parsed_table raw = parse_connection_table (env.json_parse raw)

  abbrev pub parsed_message : String → Option MqttMessage
  parsed_message raw = parse_mqtt_message (env.json_parse raw)

  -- `ct?.version ?? other`
  abbrev pub version_or : String → Option Table → String
  version_or other none = other
  version_or other (some t) = env.number_text t.version

  -- M-04: a Connection Table.
  unfoldable pub accept_table : Option Table → State → State
  accept_table none s = s
  accept_table (some t) s =
      if not s.force_accept_next && is_stale t s.raw_topology
      then s
      else follow_promotion env s.raw_topology t
          (apply_presentation_topology env t (record s { force_accept_next = false }))

  unfoldable pub on_topology : String → State → State
  on_topology raw s = accept_table (parsed_table raw) s

  -- D-01, D-02: a camera event.
  unfoldable pub buffered_incident : MqttMessage → ℕ → ℕ → Incident
  buffered_incident m now delay = record {
    key = "buffered:" <> text_of env.number_text (cooldown_key m) <> ":" <> decimal now;
    type = buffered_events;
    role = "NODE";
    node_id = source_id m;
    detail = late m.type delay;
    ts = now;
  }

  unfoldable pub note_buffered : MqttMessage → ℕ → ℕ → State → State
  note_buffered m now delay s =
      if leb buffered_incident_cooldown_ms (now - last_seen (cooldown_key m) s.buffered_seen_at)
      then push_incident (buffered_incident m now delay)
          (record s { buffered_seen_at = (cooldown_key m, now) ∷ s.buffered_seen_at })
      else s

  unfoldable pub note_delay : MqttMessage → ℕ → ℕ → State → State
  note_delay m now delay s =
      if leb buffered_event_threshold_ms delay then note_buffered m now delay s else s

  abbrev pub event_entry : MqttMessage → String → ℕ → EventEntry
  event_entry m topic now =
      let delay = delay_since now (env.date_parse (or_empty m.timestamp)) in
      record {
        msg = m;
        topic = topic;
        received_at = now;
        delay_ms = delay;
        buffered = leb buffered_event_threshold_ms delay;
      }

  unfoldable pub push_event : EventEntry → State → State
  push_event e s = record s { events = take max_events (e ∷ s.events) }

  unfoldable pub accept_event : Option MqttMessage → String → ℕ → State → State
  accept_event none topic now s = s
  accept_event (some m) topic now s =
      if has_value m.msg_id s.seen_msg_ids
      then s
      else push_event (event_entry m topic now)
          (note_delay m now (event_entry m topic now).delay_ms (see_message (some m) s))

  unfoldable pub on_data : String → String → ℕ → State → State
  on_data topic raw now s = accept_event (parsed_message raw) topic now s

  -- A-01, A-02: a node that went down or came back.
  abbrev pub node_incident : IncidentType → String → String → Option Table → ℕ → Incident
  node_incident type word id ct now = record {
    key = word <> ":" <> id <> ":" <> version_or "na" ct;
    type = type;
    role = "NODE";
    node_id = str id;
    detail = plain;
    ts = now;
  }

  unfoldable pub note_node : Bool → String → Option Table → ℕ → State → State
  note_node down id ct now s =
      if not down
      then push_incident (node_incident edge_up "node_up" id ct now) s
      else if is_offline_in (node_in ct id)
      then push_incident (node_incident edge_down "node_down" id ct now) s
      else s

  unfoldable pub apply_newer : Option Table → State → State
  apply_newer none s = refresh_visible_topology env s
  apply_newer (some t) s =
      if is_stale t s.raw_topology
      then refresh_visible_topology env s
      else apply_presentation_topology env t s

  unfoldable pub alert_key : String → String → Option Table → String
  alert_key topic raw ct = topic <> ":" <> version_or (slice_to 32 raw) ct

  unfoldable pub accept_node_alert : String → String → String → Option Table → ℕ → State → State
  accept_node_alert topic raw id ct later s =
      if has_text (alert_key topic raw ct) s.seen_alert_keys
      then s
      else push_alert (record { topic = topic; body = of_node id ct; raw = raw; ts = later })
          (apply_newer ct
            (record s { seen_alert_keys = alert_key topic raw ct ∷ s.seen_alert_keys }))

  unfoldable pub on_node_alert : Bool → String → String → String → ℕ → ℕ → State → State
  on_node_alert down topic raw id now later s =
      accept_node_alert topic raw id (parsed_table raw) later
        (note_node down id (parsed_table raw) now s)

  -- A-03: another core is the active one.
  abbrev pub core_alert : String → String → Option MqttMessage → ℕ → Alert
  core_alert topic raw m now = record { topic = topic; body = of_core m; raw = raw; ts = now }

  abbrev pub switch_source : Option MqttMessage → Value
  switch_source none = str ""
  switch_source (some m) = source_id m

  abbrev pub switch_key : Option MqttMessage → ℕ → String
  switch_key none now = decimal now
  switch_key (some m) now =
      text_of env.number_text
        (if is_nullish (get m.source "id") then m.msg_id else get m.source "id")

  unfoldable pub note_switch : Option MqttMessage → ℕ → State → State
  note_switch m now s =
      push_incident
        (record {
          key = "core_switch:" <> switch_key m now;
          type = failover_switch;
          role = "CORE";
          node_id = switch_source m;
          detail = endpoint (description m);
          ts = now;
        })
        s

  unfoldable pub accept_switch : Option MqttMessage → String → String → ℕ → State → State
  accept_switch m topic raw now s =
      if is_seen_message m s
      then s
      else reconnect_to_described env (description m) "core_switch"
          (record (note_switch m now (push_alert (core_alert topic raw m now) (see_message m s))) {
            force_accept_next = true;
          })

  unfoldable pub on_core_switch : String → String → ℕ → State → State
  on_core_switch topic raw now s = accept_switch (parsed_message raw) topic raw now s

  -- W-01: the last will of a core.
  abbrev pub to_backup : Option Node → Option MqttMessage → State → State
  to_backup none m s = reconnect_to_described env (description m) "W-01" s
  to_backup (some n) m s = reconnect_to_broker_host env n.ip "W-01" s

  unfoldable pub leave_failed_core : Option Table → String → Option MqttMessage → State → State
  leave_failed_core previous failed m s =
      if is_active_core previous failed
      then to_backup (resolve_backup_reconnect_target previous none) m s
      else s

  unfoldable pub note_core_down : String → ℕ → State → State
  note_core_down failed now s =
      push_incident
        (record {
          key = "core_down:" <> failed;
          type = incident_type s.raw_topology failed;
          role = "CORE";
          node_id = str failed;
          detail = plain;
          ts = now;
        })
        (refresh_visible_topology env (record s { hidden_node_ids = failed ∷ s.hidden_node_ids }))

  unfoldable pub accept_will :
      Option Table → Option MqttMessage → String → String → String → ℕ → State → State
  accept_will previous m topic raw failed later s =
      if is_seen_message m s
      then s
      else leave_failed_core previous failed m
          (record (push_alert (core_alert topic raw m later) (see_message m s)) {
            force_accept_next = true;
          })

  unfoldable pub on_core_will : String → String → String → ℕ → ℕ → State → State
  on_core_will topic raw failed now later s =
      accept_will s.raw_topology (parsed_message raw) topic raw failed later
        (note_core_down failed now s)
