-- ===== src/Client/Failover.antt =====
-- client/src/mqtt/failover.js: broker addresses, and which broker to go to when a core is lost or
-- replaced. `new URL`, `toLowerCase` and the text of a number are the language's and stand as
-- parameters; `none` stands for null.
pub mod Endpoints
use io_t_midterm_availabilit.Base.{
  ℕ, suc, ◌+◌, String, Bool, true, false, not, ◌&&◌, ◌||◌, Option, none, some, List, find, ◌=ₛ◌,
  if◌then◌else◌,
}
use io_t_midterm_availabilit.Js.Number.{Number}
use io_t_midterm_availabilit.Js.Value.{Value, str, truthy, is_text}
use io_t_midterm_availabilit.Js.Text.{trim, ◌<>◌}
use io_t_midterm_availabilit.Js.Scan.{
  index_of, last_index_of, slice_to, slice_from, starts_with, ends_with, includes,
}
use io_t_midterm_availabilit.Js.Url.{Url}
use io_t_midterm_availabilit.Client.Parsers.{Node, Table}
use io_t_midterm_availabilit.Client.Visibility.{text_of}

abbrev default_ws_port : String
default_ws_port = "9001"

abbrev default_local_broker_url : String
default_local_broker_url = "ws://localhost:9001"

abbrev is_local_alias : String → Bool
is_local_alias host = host =ₛ "localhost" || host =ₛ "127.0.0.1"

abbrev pub bracketed_if_needed : String → String
bracketed_if_needed host =
    if host =ₛ ""
    then ""
    else if starts_with b'[' host && ends_with b']' host
    then host
    else if includes b':' host
    then "[" <> host <> "]"
    else host

unfoldable pub format_broker_host : Value → String
format_broker_host (str raw) = bracketed_if_needed (trim raw)
format_broker_host _ = ""

-- `window.location`
pub record Location : Type 0 where
  pub hostname : Value
  pub protocol : Value

abbrev text_or_empty : Value → String
text_or_empty (str s) = trim s
text_or_empty _ = ""

abbrev page_host : Option Location → String
page_host none = ""
page_host (some l) = text_or_empty l.hostname

abbrev page_protocol : Option Location → String
page_protocol none = "ws:"
page_protocol (some l) = if is_text l.protocol "https:" then "wss:" else "ws:"

unfoldable pub resolve_initial_broker_url : Value → Option Location → String
resolve_initial_broker_url configured location =
    if not (text_or_empty configured =ₛ "")
    then text_or_empty configured
    else if page_host location =ₛ ""
    then default_local_broker_url
    else page_protocol location
      <> "//"
      <> format_broker_host (str (page_host location))
      <> ":"
      <> default_ws_port

pub record Endpoint : Type 0 where
  pub host : String
  pub port : String

abbrev pub bracketed_endpoint : String → Option ℕ → Option Endpoint
bracketed_endpoint t none = none
bracketed_endpoint t (some closing) =
    some (record { host = slice_from 1 (slice_to closing t); port = slice_from (closing + 2) t })

abbrev pub plain_endpoint : String → Option ℕ → Endpoint
plain_endpoint t none = record { host = t; port = "" }
plain_endpoint t (some colon) = record { host = slice_to colon t; port = slice_from (suc colon) t }

abbrev pub endpoint_in : String → Option Endpoint
endpoint_in t =
    if t =ₛ ""
    then none
    else if starts_with b'[' t
    then bracketed_endpoint t (index_of b']' t)
    else some (plain_endpoint t (last_index_of b':' t))

unfoldable pub parse_broker_endpoint : Value → Option Endpoint
parse_broker_endpoint (str raw) = endpoint_in (trim raw)
parse_broker_endpoint _ = none

-- The test on two normalized hosts.
abbrev pub same_host : String → String → Bool
same_host left right =
    not (left =ₛ "")
    && not (right =ₛ "")
    && (left =ₛ right || (is_local_alias left && is_local_alias right))

unfoldable pub same_broker_host : (String → String) → Value → Value → Bool
same_broker_host lower (str left) (str right) = same_host (lower (trim left)) (lower (trim right))
same_broker_host lower _ _ = false

pub record BrokerUrl : Type 0 where
  pub protocol : String
  pub host : String
  pub port : String

abbrev or_text : String → String → String
or_text s d = if s =ₛ "" then d else s

abbrev broker_url_of : Option Url → Option BrokerUrl
broker_url_of none = none
broker_url_of (some u) =
    some (record { protocol = or_text u.protocol "ws:"; host = u.hostname; port = u.port })

unfoldable pub find_node_by_id : List Node → String → Option Node
find_node_by_id nodes id = if id =ₛ "" then none else find (λ (n : Node). is_text n.id id) nodes

unfoldable pub find_backup_core_node : Option Table → Option Node
find_backup_core_node none = none
find_backup_core_node (some t) = find_node_by_id t.nodes t.backup_core_id

unfoldable pub find_active_core_node : Option Table → Option Node
find_active_core_node none = none
find_active_core_node (some t) = find_node_by_id t.nodes t.active_core_id

-- `node?.ip && node.status !== 'OFFLINE'`
abbrev pub can_serve : Node → Bool
can_serve n = truthy n.ip && not (is_text n.status "OFFLINE")

abbrev if_can_serve : Option Node → Option Node
if_can_serve none = none
if_can_serve (some n) = if can_serve n then some n else none

abbrev or_else : Option Node → Option Node → Option Node
or_else none b = b
or_else (some n) b = some n

unfoldable pub resolve_backup_reconnect_target : Option Table → Option Node → Option Node
resolve_backup_reconnect_target t fallback =
    or_else (if_can_serve (find_backup_core_node t)) (if_can_serve fallback)

module _ (number_text : Number → String) (new_url : String → Option Url)
    (lower : String → String) where
  unfoldable pub parse_broker_url : String → Option BrokerUrl
  parse_broker_url raw = broker_url_of (new_url raw)

  abbrev protocol_of : Option BrokerUrl → String
  protocol_of none = "ws:"
  protocol_of (some b) = or_text b.protocol "ws:"

  abbrev port_of : Option BrokerUrl → String
  port_of none = default_ws_port
  port_of (some b) = or_text b.port default_ws_port

  abbrev next_port_or : Value → String → String
  next_port_or v d = if truthy v then text_of number_text v else d

  unfoldable pub build_broker_url : String → Value → Value → Option String
  unfolding parse_broker_url
  build_broker_url current host port =
      if text_or_empty host =ₛ ""
      then none
      else some (
          protocol_of (parse_broker_url current)
          <> "//"
          <> format_broker_host host
          <> ":"
          <> next_port_or port (port_of (parse_broker_url current)))

  abbrev is_at : Option BrokerUrl → Node → Bool
  is_at none n = false
  is_at (some b) n = not (b.host =ₛ "") && same_broker_host lower (str b.host) n.ip

  abbrev promoted : String → Option Node → Option Node
  promoted current none = none
  promoted current (some n) =
      if not (can_serve n)
      then none
      else if is_at (parse_broker_url current) n
      then none
      else some n

  unfoldable pub select_promoted_active_node : Option Table → Option Table → String → Option Node
  unfolding find_active_core_node
  select_promoted_active_node none next current = none
  select_promoted_active_node (some p) none current = none
  select_promoted_active_node (some p) (some t) current =
      if p.active_core_id =ₛ t.active_core_id
      then none
      else promoted current (find_active_core_node (some t))
