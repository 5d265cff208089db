-- ===== src/Publisher/Hook/State.antt =====
-- usePublisher.js: the refs and the React state of the hook. A ref and the state variable that is
-- always set along with it are one field (`activeBrokerUrl`, `onFallback`).
use io_t_midterm_availabilit.Base.{ℕ, String, Bool, false, Option, none, List, []}
use io_t_midterm_availabilit.Js.Value.{Value, null}
use io_t_midterm_availabilit.Publisher.Ct.{Ct}
use io_t_midterm_availabilit.Publisher.Message.{Message}

abbrev pub max_log : ℕ
max_log = 30

abbrev pub max_queue : ℕ
max_queue = 100

abbrev pub reconnect_delay_ms : ℕ
reconnect_delay_ms = 1500

abbrev pub keepalive_seconds : ℕ
keepalive_seconds = 5

abbrev pub duplicate_publish_window_ms : ℕ
duplicate_publish_window_ms = 150

pub data Status : Type 0 where
  disconnected connecting connected error : Status

-- `status` of a log entry; an entry that is only queued has none yet.
pub data LogStatus : Type 0 where
  unset queued sent flushed : LogStatus

pub record LogEntry : Type 0 where
  pub msg : Message
  pub topic : String
  pub broker_url : String
  pub sent_at : ℕ
  pub status : LogStatus

-- `payload` is the JSON text of a message; it is kept as the message.
pub record Entry : Type 0 where
  pub topic : String
  pub payload : Message
  pub sent_at : ℕ
  pub log : LogEntry

abbrev pub entry_id : Entry → String
entry_id e = e.log.msg.msg_id

-- A publish that waits for its acknowledgement. Its two callbacks see the `status` that the hook
-- had when `publish` ran.
pub record Pending : Type 0 where
  pub entry : Entry
  pub queued : Bool
  pub settled : Bool
  pub was_connecting : Bool

abbrev pub pending_id : Pending → String
pending_id p = entry_id p.entry

-- `mqtt.connect` returns a new client each time; `serial` tells them apart.
pub record Client : Type 0 where
  pub serial : ℕ
  pub url : String
  pub is_connected : Bool

-- What the timer in `reconnectTimerRef` will run.
pub data Timer : Type 0 where
  failover : (delay_ms : ℕ) → Timer
  primary_retry : Timer

-- Calls of the MQTT library, newest first.
pub data Call : Type 0 where
  connects : (serial : ℕ) (url : String) → Call
  ends : (serial : ℕ) → Call
  subscribes : (serial : ℕ) → Call
  publishes : (serial : ℕ) (topic : String) (payload : Message) → Call

pub record Attempt : Type 0 where
  pub key : String
  pub at : ℕ

pub record State : Type 0 where
  pub status : Status
  pub events : List LogEntry
  pub queue_size : ℕ
  pub ct_received : Bool
  pub client : Option Client
  pub next_serial : ℕ
  pub timer : Option Timer
  pub health_check : Bool
  pub manual_disconnect : Bool
  pub queue : List Entry
  -- entries that `flushQueue` handed to the library and whose callback has not run
  pub flushing : List Entry
  pub pending : List Pending
  pub last_attempt : Option Attempt
  pub active_url : String
  pub cached_core_url : String
  pub last_activity : ℕ
  pub ws_port : ℕ
  pub ws_protocol : String
  pub ct : Option Ct
  pub primary_edge_id : Value
  pub primary_url : String
  pub primary_ip : String
  pub on_fallback : Bool
  pub calls : List Call

abbrev pub initial : State
initial = record {
  status = disconnected;
  events = [];
  queue_size = 0;
  ct_received = false;
  client = none;
  next_serial = 0;
  timer = none;
  health_check = false;
  manual_disconnect = false;
  queue = [];
  flushing = [];
  pending = [];
  last_attempt = none;
  active_url = "";
  cached_core_url = "";
  last_activity = 0;
  ws_port = 9001;
  ws_protocol = "ws:";
  ct = none;
  primary_edge_id = null;
  primary_url = "";
  primary_ip = "";
  on_fallback = false;
  calls = [];
}
