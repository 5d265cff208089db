-- ===== src/Client/Hook/Updates.antt =====
-- useMqtt.js: the functions that the handlers share, and the alerts' timers.
use io_t_midterm_availabilit.Base.{
  ℕ, String, Bool, false, not, ◌||◌, Option, none, some, List, [], ◌∷◌, any, take, filter, ◌==◌,
  ◌=ₛ◌, if◌then◌else◌,
}
use io_t_midterm_availabilit.Js.Value.{Value, undefined, str, truthy, strict_eq}
use io_t_midterm_availabilit.Client.Parsers.{Node, Table, MqttMessage}
use io_t_midterm_availabilit.Client.Visibility.{
  reconcile_hidden_node_ids, build_presentation_topology,
}
use io_t_midterm_availabilit.Client.Failover.{
  build_broker_url, parse_broker_endpoint, Endpoint, select_promoted_active_node,
}
use io_t_midterm_availabilit.Client.Hook.State.{
  Env, State, Alert, Incident, max_alerts, max_incidents,
}

abbrev pub has_text : String → List String → Bool
has_text k ks = any (λ j. j =ₛ k) ks

abbrev pub has_value : Value → List Value → Bool
has_value v vs = any (strict_eq v) vs

unfoldable pub push_incident : Incident → State → State
push_incident i s = if i.key =ₛ "" || has_text i.key s.seen_incident_keys then s else record s {
  seen_incident_keys = i.key ∷ s.seen_incident_keys;
  incidents = take max_incidents (i ∷ s.incidents);
}

-- `setAlerts` with the alert in front, and the timer that removes it.
unfoldable pub push_alert : Alert → State → State
push_alert a s = record s { alerts = take max_alerts (a ∷ s.alerts); expiries = a.ts ∷ s.expiries }

abbrev pub is_other_ts : ℕ → Alert → Bool
is_other_ts ts a = not (a.ts == ts)

unfoldable pub drop_first : ℕ → List ℕ → List ℕ
drop_first ts [] = []
drop_first ts (t ∷ ts') = if t == ts then ts' else t ∷ drop_first ts ts'

-- The callback of an alert's timer; nothing happens without that timer.
unfoldable pub alert_expires : ℕ → State → State
alert_expires ts s =
    if any (λ t. t == ts) s.expiries
    then record s { alerts = filter (is_other_ts ts) s.alerts; expiries = drop_first ts s.expiries }
    else s

-- `seenMsgIds.current.add` of an optional message
abbrev pub see_message : Option MqttMessage → State → State
see_message none s = s
see_message (some m) s = record s { seen_msg_ids = m.msg_id ∷ s.seen_msg_ids }

abbrev pub is_seen_message : Option MqttMessage → State → Bool
is_seen_message none s = false
is_seen_message (some m) s = has_value m.msg_id s.seen_msg_ids

module _ (env : Env) where
  abbrev pub reconnect_to : Option String → String → State → State
  reconnect_to none reason s = s
  reconnect_to (some url) reason s = if url =ₛ "" || url =ₛ s.client_url then s else record s {
    reconnect_info = some (record { url = url; reason = reason });
    broker_url = url;
  }

  unfoldable pub reconnect_to_broker_host : Value → String → State → State
  reconnect_to_broker_host host reason s =
      reconnect_to
        (build_broker_url env.number_text env.new_url env.to_lower_case s.client_url host undefined)
        reason s

  unfoldable pub apply_presentation_topology : Table → State → State
  apply_presentation_topology t s =
      let hidden = reconcile_hidden_node_ids t.nodes s.hidden_node_ids in
      record s {
        raw_topology = some t;
        hidden_node_ids = hidden;
        topology = some (build_presentation_topology env.number_text t hidden);
      }

  abbrev pub refresh : Option Table → State → State
  refresh none s = s
  refresh (some t) s =
      let hidden = reconcile_hidden_node_ids t.nodes s.hidden_node_ids in
      record s {
        hidden_node_ids = hidden;
        topology = some (build_presentation_topology env.number_text t hidden);
      }

  unfoldable pub refresh_visible_topology : State → State
  refresh_visible_topology s = refresh s.raw_topology s

  abbrev pub to_endpoint : Option Endpoint → String → State → State
  to_endpoint none reason s = s
  to_endpoint (some e) reason s =
      if e.host =ₛ "" then s else reconnect_to_broker_host (str e.host) reason s

  -- `parseBrokerEndpoint` of a message's description, and the reconnect to its host.
  unfoldable pub reconnect_to_described : Value → String → State → State
  reconnect_to_described description reason s =
      to_endpoint (parse_broker_endpoint description) reason s

  abbrev pub to_promoted : Option Node → State → State
  to_promoted none s = s
  to_promoted (some n) s = if truthy n.ip then reconnect_to_broker_host n.ip "M-04" s else s

  -- The reconnect to a core that was promoted from the table `previous` to the next one.
  unfoldable pub follow_promotion : Option Table → Table → State → State
  follow_promotion previous t s =
      to_promoted
        (select_promoted_active_node env.number_text env.new_url env.to_lower_case previous (some t)
          s.client_url)
        s
