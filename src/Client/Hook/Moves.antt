-- ===== src/Client/Hook/Moves.antt =====
-- Every step of the hook is a sequence of a few moves. An invariant is proved for the moves.
use io_t_midterm_availabilit.Base.{
  ℕ, String, ◌≡◌, Bool, true, false, not, ◌&&◌, ◌||◌, Option, none, some, List, ◌∷◌, either_branch,
  Bool-cases, inl, inr, ◌=ₛ◌,
}
use io_t_midterm_availabilit.Js.Value.{Value, undefined, str, truthy}
use io_t_midterm_availabilit.Client.Parsers.{Table, Node, MqttMessage}
use io_t_midterm_availabilit.Client.Failover.{
  build_broker_url, parse_broker_endpoint, select_promoted_active_node,
  resolve_backup_reconnect_target, Endpoint,
}
use io_t_midterm_availabilit.Client.Hook.State.{
  Env, State, Status, connecting, connected, disconnected, error, Alert, Incident, ReconnectInfo,
}
use io_t_midterm_availabilit.Client.Hook.Updates.{
  push_incident, push_alert, alert_expires, see_message, is_seen_message, reconnect_to,
  reconnect_to_broker_host, apply_presentation_topology, refresh_visible_topology,
  reconnect_to_described, follow_promotion, to_endpoint, to_promoted, has_value, has_text,
}
use io_t_midterm_availabilit.Client.Hook.Messages.{
  is_stale, is_active_core, accept_table, on_topology, note_delay, push_event, event_entry,
  accept_event, on_data, note_node, is_offline_in, node_in, alert_key, apply_newer,
  accept_node_alert, on_node_alert, note_switch, accept_switch, on_core_switch, description,
  to_backup, leave_failed_core, note_core_down, accept_will, on_core_will,
}
use io_t_midterm_availabilit.Client.Hook.Step.{
  Event, message, connects, errors, closes, reconnects, expires, sets_broker_url, effect, Topic,
  topology, data_event, node_down, node_up, core_switch, other, core_will, topic_of, on_message,
  step,
}

-- The fields of the connection and the keys that are remembered.
abbrev pub with_link :
    String
    → String
    → Status
    → Option ReconnectInfo
    → Bool
    → List String
    → List (Value × ℕ)
    → State
    → State
with_link url client_url status info force keys buffered s = record s {
  broker_url = url;
  client_url = client_url;
  status = status;
  reconnect_info = info;
  force_accept_next = force;
  seen_alert_keys = keys;
  buffered_seen_at = buffered;
}

abbrev pub sees : Value → State → State
sees v s = record s { seen_msg_ids = v ∷ s.seen_msg_ids }

abbrev pub hides_more : String → State → State
hides_more h s = record s { hidden_node_ids = h ∷ s.hidden_node_ids }

abbrev sets_url : State → String → String → State
sets_url s u reason = record s {
  reconnect_info = some (record { url = u; reason = reason });
  broker_url = u;
}

module _ (env : Env) where
  pub data Move (s : State) : State → Type 0 where
    links :
        (url client_url : String) (status : Status) (info : Option ReconnectInfo) (force : Bool)
        (keys : List String) (buffered : List (Value × ℕ))
        → Move s (with_link url client_url status info force keys buffered s)
    notes : (i : Incident) → Move s (push_incident i s)
    alerts : (a : Alert) → Move s (push_alert a s)
    times_out : (ts : ℕ) → Move s (alert_expires ts s)
    sees_id : (v : Value) → Move s (sees v s)
    shows_event :
        (m : MqttMessage) (topic : String) (now : ℕ)
        → has_value m.msg_id s.seen_msg_ids ≡ false
        → Move s (
            push_event env
              (event_entry env m topic now)
              (note_delay env m now (event_entry env m topic now).delay_ms (sees m.msg_id s)))
    applies : (t : Table) → Move s (apply_presentation_topology env t s)
    refreshes : Move s (refresh_visible_topology env s)
    hides : (h : String) → Move s (refresh_visible_topology env (hides_more h s))

  pub data Moves (s : State) : State → Type 0 where
    stay : Moves s s
    more : {t u : State} → Moves s t → Move t u → Moves s u

  -- Each function, behind any moves.
  module _ {o : State} where
    move_url : (s : State) (u reason : String) → Moves o s → Moves o (sets_url s u reason)
    move_url s u reason m = more m (
        links u s.client_url s.status (some (record { url = u; reason = reason }))
          s.force_accept_next s.seen_alert_keys s.buffered_seen_at)

    move_force : (s : State) (b : Bool) → Moves o s → Moves o (record s { force_accept_next = b })
    move_force s b m = more m (
        links s.broker_url s.client_url s.status s.reconnect_info b s.seen_alert_keys
          s.buffered_seen_at)

    reconnect_to-Moves :
        (u : Option String) (reason : String) (s : State)
        → Moves o s
        → Moves o (reconnect_to env u reason s)
    reconnect_to-Moves none reason s m = m
    reconnect_to-Moves (some u) reason s m =
        either_branch (Moves o) (u =ₛ "" || u =ₛ s.client_url) s (sets_url s u reason) m
          (move_url s u reason m)

    reconnect-Moves :
        (host : Value) (reason : String) (s : State)
        → Moves o s
        → Moves o (reconnect_to_broker_host env host reason s)
    unfolding reconnect_to_broker_host
    reconnect-Moves host reason s m =
        reconnect_to-Moves
          (build_broker_url env.number_text env.new_url env.to_lower_case s.client_url host
            undefined)
          reason s m

    described-Moves :
        (d : Value) (reason : String) (s : State)
        → Moves o s
        → Moves o (reconnect_to_described env d reason s)
    unfolding reconnect_to_described
    described-Moves d reason s m = to (parse_broker_endpoint d)
      where
        to : (e : Option Endpoint) → Moves o (to_endpoint env e reason s)
        to none = m
        to (some e) =
            either_branch (Moves o) (e.host =ₛ "") s
              (reconnect_to_broker_host env (str e.host) reason s) m
              (reconnect-Moves (str e.host) reason s m)

    promotion-Moves :
        (previous : Option Table) (t : Table) (s : State)
        → Moves o s
        → Moves o (follow_promotion env previous t s)
    unfolding follow_promotion
    promotion-Moves previous t s m = to (
        select_promoted_active_node env.number_text env.new_url env.to_lower_case previous (some t)
          s.client_url)
      where
        to : (n : Option Node) → Moves o (to_promoted env n s)
        to none = m
        to (some n) =
            either_branch (Moves o) (truthy n.ip) (reconnect_to_broker_host env n.ip "M-04" s) s
              (reconnect-Moves n.ip "M-04" s m) m

    accept_table-Moves : (t : Option Table) (s : State) → Moves o s → Moves o (accept_table env t s)
    unfolding accept_table
    accept_table-Moves none s m = m
    accept_table-Moves (some t) s m =
        either_branch (Moves o) (not s.force_accept_next && is_stale t s.raw_topology) s
          (follow_promotion env s.raw_topology t
            (apply_presentation_topology env t (record s { force_accept_next = false })))
          m (promotion-Moves s.raw_topology t _ (more (move_force s false m) (applies t)))

    accept_event-Moves :
        (e : Option MqttMessage) (topic : String) (now : ℕ) (s : State)
        → Moves o s
        → Moves o (accept_event env e topic now s)
    unfolding accept_event
    accept_event-Moves none topic now s m = m
    accept_event-Moves (some e) topic now s m =
        elim (Bool-cases (has_value e.msg_id s.seen_msg_ids)) [
          | inl seen ↦ rw seen m
          | inr new ↦ rw new (more m (shows_event e topic now new))
        ]

    note_node-Moves :
        (down : Bool) (id : String) (ct : Option Table) (now : ℕ) (s : State)
        → Moves o s
        → Moves o (note_node env down id ct now s)
    unfolding note_node
    note_node-Moves false id ct now s m = more m (notes _)
    note_node-Moves true id ct now s m =
        either_branch (Moves o) (is_offline_in (node_in ct id)) _ s (more m (notes _)) m

    apply_newer-Moves : (ct : Option Table) (s : State) → Moves o s → Moves o (apply_newer env ct s)
    unfolding apply_newer
    apply_newer-Moves none s m = more m refreshes
    apply_newer-Moves (some t) s m =
        either_branch (Moves o) (is_stale t s.raw_topology) (refresh_visible_topology env s)
          (apply_presentation_topology env t s) (more m refreshes) (more m (applies t))

    node_alert-Moves :
        (topic raw id : String) (ct : Option Table) (later : ℕ) (s : State)
        → Moves o s
        → Moves o (accept_node_alert env topic raw id ct later s)
    unfolding accept_node_alert
    node_alert-Moves topic raw id ct later s m =
        let key = alert_key env topic raw ct in
        either_branch (Moves o) (has_text key s.seen_alert_keys) s _ m (
          more
            (apply_newer-Moves ct _ (
              more m (
                links s.broker_url s.client_url s.status s.reconnect_info s.force_accept_next
                  (key ∷ s.seen_alert_keys) s.buffered_seen_at)))
            (alerts _))

    see_message-Moves : (e : Option MqttMessage) (s : State) → Moves o s → Moves o (see_message e s)
    see_message-Moves none s m = m
    see_message-Moves (some e) s m = more m (sees_id e.msg_id)

    note_switch-Moves :
        (e : Option MqttMessage) (now : ℕ) (s : State)
        → Moves o s
        → Moves o (note_switch env e now s)
    unfolding note_switch
    note_switch-Moves e now s m = more m (notes _)

    switch-Moves :
        (e : Option MqttMessage) (topic raw : String) (now : ℕ) (s : State)
        → Moves o s
        → Moves o (accept_switch env e topic raw now s)
    unfolding accept_switch
    switch-Moves e topic raw now s m = either_branch (Moves o) (is_seen_message e s) s _ m (
        described-Moves (description e) "core_switch" _ (
          move_force _ true
            (note_switch-Moves e now _ (more (see_message-Moves e s m) (alerts _)))))

    leave-Moves :
        (previous : Option Table) (failed : String) (e : Option MqttMessage) (s : State)
        → Moves o s
        → Moves o (leave_failed_core env previous failed e s)
    unfolding leave_failed_core
    leave-Moves previous failed e s m =
        either_branch (Moves o) (is_active_core previous failed)
          (to_backup env (resolve_backup_reconnect_target previous none) e s) s
          (to (resolve_backup_reconnect_target previous none)) m
      where
        to : (n : Option Node) → Moves o (to_backup env n e s)
        to none = described-Moves (description e) "W-01" s m
        to (some n) = reconnect-Moves n.ip "W-01" s m

    core_down-Moves :
        (failed : String) (now : ℕ) (s : State)
        → Moves o s
        → Moves o (note_core_down env failed now s)
    unfolding note_core_down
    core_down-Moves failed now s m = more (more m (hides failed)) (notes _)

    will-Moves :
        (previous : Option Table) (e : Option MqttMessage) (topic raw failed : String) (later : ℕ)
        (s : State)
        → Moves o s
        → Moves o (accept_will env previous e topic raw failed later s)
    unfolding accept_will
    will-Moves previous e topic raw failed later s m =
        either_branch (Moves o) (is_seen_message e s) s _ m (
          leave-Moves previous failed e _
            (move_force _ true (more (see_message-Moves e s m) (alerts _))))

    on_message-Moves :
        (kind : Topic) (topic raw : String) (now later : ℕ) (s : State)
        → Moves o s
        → Moves o (on_message env kind topic raw now later s)
    unfolding on_message on_topology on_data on_node_alert on_core_switch on_core_will
    on_message-Moves topology topic raw now later s m = accept_table-Moves _ s m
    on_message-Moves data_event topic raw now later s m = accept_event-Moves _ topic now s m
    on_message-Moves node_down topic raw now later s m =
        node_alert-Moves topic raw _ _ later _ (note_node-Moves true _ _ now s m)
    on_message-Moves node_up topic raw now later s m =
        node_alert-Moves topic raw _ _ later _ (note_node-Moves false _ _ now s m)
    on_message-Moves core_switch topic raw now later s m = switch-Moves _ topic raw now s m
    on_message-Moves (core_will failed) topic raw now later s m =
        will-Moves s.raw_topology _ topic raw failed later _ (core_down-Moves failed now s m)
    on_message-Moves other topic raw now later s m = m

  move_status : (s : State) (x : Status) → Moves s (record s { status = x })
  move_status s x = more stay (
      links s.broker_url s.client_url x s.reconnect_info s.force_accept_next s.seen_alert_keys
        s.buffered_seen_at)

  -- A step of the hook is a sequence of moves.
  pub step-Moves : (s : State) (e : Event) → Moves s (step env s e)
  unfolding step
  step-Moves s (message topic raw now later) =
      on_message-Moves (topic_of topic) topic raw now later s stay
  step-Moves s connects = more stay (
      links s.broker_url s.client_url connected none s.force_accept_next s.seen_alert_keys
        s.buffered_seen_at)
  step-Moves s errors = move_status s error
  step-Moves s closes = move_status s disconnected
  step-Moves s reconnects = move_status s connecting
  step-Moves s (expires ts) = more stay (times_out ts)
  step-Moves s (sets_broker_url url) = more stay (
      links url s.client_url s.status s.reconnect_info s.force_accept_next s.seen_alert_keys
        s.buffered_seen_at)
  step-Moves s effect = more stay (
      links s.broker_url s.broker_url s.status s.reconnect_info s.force_accept_next
        s.seen_alert_keys s.buffered_seen_at)
