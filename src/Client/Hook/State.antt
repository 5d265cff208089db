-- ===== src/Client/Hook/State.antt =====
-- useMqtt.js: the refs and the React state of the client's hook. A ref and the state variable that
-- is set along with it are one field (`topology`).
use io_t_midterm_availabilit.Base.{ℕ, ℤ, String, Bool, false, Option, none, List, []}
use io_t_midterm_availabilit.Js.Number.{Number}
use io_t_midterm_availabilit.Js.Value.{Value}
use io_t_midterm_availabilit.Js.Url.{Url}
use io_t_midterm_availabilit.Client.Parsers.{Table, MqttMessage}

-- What the hook uses of the language: the text of a number, `new URL`, `toLowerCase`,
-- `JSON.parse` (`none` where it throws), and `Date.parse` (`none` for NaN).
pub record Env : Type 0 where
  pub number_text : Number → String
  pub new_url : String → Option Url
  pub to_lower_case : String → String
  pub json_parse : String → Option Value
  pub date_parse : Value → Option ℤ

abbrev pub max_events : ℕ
max_events = 50

abbrev pub max_alerts : ℕ
max_alerts = 20

abbrev pub max_incidents : ℕ
max_incidents = 12

abbrev pub buffered_event_threshold_ms : ℕ
buffered_event_threshold_ms = 5000

abbrev pub buffered_incident_cooldown_ms : ℕ
buffered_incident_cooldown_ms = 8000

pub data Status : Type 0 where
  connecting connected disconnected error : Status

pub record EventEntry : Type 0 where
  pub msg : MqttMessage
  pub topic : String
  pub received_at : ℕ
  pub delay_ms : ℕ
  pub buffered : Bool

-- An alert carries the node and its table, or the message of a core.
pub data AlertBody : Type 0 where
  of_node : String → Option Table → AlertBody
  of_core : Option MqttMessage → AlertBody

pub record Alert : Type 0 where
  pub topic : String
  pub body : AlertBody
  pub raw : String
  pub ts : ℕ

pub data IncidentType : Type 0 where
  buffered_events edge_down edge_up failover_switch : IncidentType
  core_down active_core_down backup_core_down : IncidentType

-- The fields that only one kind of incident has.
pub data Detail : Type 0 where
  plain : Detail
  late : (event_type : Value) (delay_ms : ℕ) → Detail
  endpoint : Value → Detail

pub record Incident : Type 0 where
  pub key : String
  pub type : IncidentType
  pub role : String
  pub node_id : Value
  pub detail : Detail
  pub ts : ℕ

pub record ReconnectInfo : Type 0 where
  pub url : String
  pub reason : String

-- `client_url` is the `brokerUrl` that the effect's closures see: the one of the last effect.
-- `expiries` are the alerts' timers, each with the time stamp that its callback removes.
pub record State : Type 0 where
  pub broker_url : String
  pub client_url : String
  pub status : Status
  pub topology : Option Table
  pub events : List EventEntry
  pub alerts : List Alert
  pub incidents : List Incident
  pub reconnect_info : Option ReconnectInfo
  pub seen_msg_ids : List Value
  pub seen_alert_keys : List String
  pub seen_incident_keys : List String
  pub raw_topology : Option Table
  pub hidden_node_ids : List String
  pub force_accept_next : Bool
  pub buffered_seen_at : List (Value × ℕ)
  pub expiries : List ℕ

abbrev pub initial : String → State
initial url = record {
  broker_url = url;
  client_url = url;
  status = connecting;
  topology = none;
  events = [];
  alerts = [];
  incidents = [];
  reconnect_info = none;
  seen_msg_ids = [];
  seen_alert_keys = [];
  seen_incident_keys = [];
  raw_topology = none;
  hidden_node_ids = [];
  force_accept_next = false;
  buffered_seen_at = [];
  expiries = [];
}
