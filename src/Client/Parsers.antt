-- ===== src/Client/Parsers.antt =====
-- client/src/mqtt/parsers.js: the Connection Table and the event messages that the client accepts.
-- Each parser takes what `JSON.parse` returned, `none` where it threw; its result is `none` where
-- the source returns null, also by way of a TypeError that it catches.
pub mod RoundTrip
use Prim.Native.Char.{code}
use io_t_midterm_availabilit.Base.{
  ℕ, String, Bool, true, false, not, ◌&&◌, ◌||◌, Option, none, some, List, [], ◌∷◌, leb, ◌==◌,
  if◌then◌else◌,
}
use io_t_midterm_availabilit.Js.Number.{Number}
use io_t_midterm_availabilit.Js.Value.{
  Value, undefined, null, num, str, arr, obj, Elements, nil, cons, get, is_nullish, is_string,
  truthy,
}

pub record Node : Type 0 where
  pub id : Value
  pub role : Value
  pub ip : Value
  pub port : Value
  pub status : Value
  pub previous_status : Value
  pub status_changed_at : Value
  pub hop_to_core : Value

pub record Link : Type 0 where
  pub from_id : Value
  pub to_id : Value
  pub rtt_ms : Value

pub record Table : Type 0 where
  pub version : Number
  pub last_update : Value
  pub active_core_id : String
  pub backup_core_id : String
  pub nodes : List Node
  pub links : List Link

abbrev string_or : Value → Value → Value
string_or v d = if is_string v then v else d

abbrev pub parsed_node : Value → Value → Node
parsed_node last_update n = record {
  id = get n "id";
  role = get n "role";
  ip = get n "ip";
  port = get n "port";
  status = get n "status";
  previous_status = string_or (get n "previous_status") (get n "status");
  status_changed_at = string_or (get n "status_changed_at") last_update;
  hop_to_core = get n "hop_to_core";
}

abbrev pub parsed_link : Value → Link
parsed_link l = record { from_id = get l "from_id"; to_id = get l "to_id"; rtt_ms = get l "rtt_ms" }

-- `map` with a function that reads properties: it throws at an entry that is null.
abbrev cons_unless_null {ℓ} : {A : Type ℓ} → Value → A → Option (List A) → Option (List A)
cons_unless_null v a none = none
cons_unless_null v a (some as') = if is_nullish v then none else some (a ∷ as')

unfoldable pub map_entries {ℓ} : {A : Type ℓ} → (Value → A) → Elements → Option (List A)
map_entries f nil = some []
map_entries f (cons v vs) = cons_unless_null v (f v) (map_entries f vs)

abbrev pub with_entries :
    Number → Value → String → String → Option (List Node) → Option (List Link) → Option Table
with_entries version last_update active backup (some nodes) (some links) = some (record {
  version = version;
  last_update = last_update;
  active_core_id = active;
  backup_core_id = backup;
  nodes = nodes;
  links = links;
})
with_entries version last_update active backup (some nodes) none = none
with_entries version last_update active backup none links = none

-- The type tests on the five required fields.
abbrev pub checked : Value → Value → Value → Value → Value → Value → Option Table
checked (num version) last_update (str active) (str backup) (arr nodes) (arr links) =
    with_entries version last_update active backup (map_entries (parsed_node last_update) nodes)
      (map_entries parsed_link links)
checked _ _ _ _ _ _ = none

unfoldable pub parse_connection_table : Option Value → Option Table
unfolding map_entries
parse_connection_table none = none
parse_connection_table (some j) =
    checked (get j "version") (get j "last_update") (get j "active_core_id")
      (get j "backup_core_id") (get j "nodes") (get j "links")

-- One part of the UUID pattern for each character: a hexadecimal digit of either case, or a dash.
pub data Part : Type 0 where
  hex dash : Part

abbrev pub uuid_parts : List Part
uuid_parts =
    hex ∷ hex ∷ hex ∷ hex ∷ hex ∷ hex ∷ hex ∷ hex ∷ dash ∷ hex ∷ hex ∷ hex ∷ hex ∷ dash ∷ hex ∷ hex
    ∷ hex ∷ hex ∷ dash ∷ hex ∷ hex ∷ hex ∷ hex ∷ dash ∷ hex ∷ hex ∷ hex ∷ hex ∷ hex ∷ hex ∷ hex
    ∷ hex ∷ hex ∷ hex ∷ hex ∷ hex ∷ []

abbrev pub fits_part : Part → ℕ → Bool
fits_part hex c =
    (leb b'0' c && leb c b'9') || (leb b'a' c && leb c b'f') || (leb b'A' c && leb c b'F')
fits_part dash c = c == b'-'

unfoldable pub fits : List Part → String → Bool
fits [] String.[] = true
fits [] (String.◌∷◌ c s) = false
fits (p ∷ ps) String.[] = false
fits (p ∷ ps) (String.◌∷◌ c s) = fits_part p (code c) && fits ps s

-- The text that `RegExp.test` sees. An array of one element has that element's text; the text of
-- any other value that is no string never has the form of a UUID, and neither has "".
unfoldable mutual
  pub tested_text : Value → String
  tested_text (str s) = s
  tested_text (arr vs) = only_text vs
  tested_text undefined = ""
  tested_text null = ""
  tested_text (io_t_midterm_availabilit.Js.Value.bool b) = ""
  tested_text (num n) = ""
  tested_text (obj ms) = ""

  pub only_text : Elements → String
  only_text nil = ""
  only_text (cons v nil) = tested_text v
  only_text (cons v (cons w vs)) = ""

unfoldable pub is_uuid : Value → Bool
unfolding fits tested_text
is_uuid v = fits uuid_parts (tested_text v)

pub record MqttMessage : Type 0 where
  pub msg_id : Value
  pub type : Value
  pub timestamp : Value
  pub priority : Value
  pub source : Value
  pub target : Value
  pub route : Value
  pub delivery : Value
  pub payload : Value

abbrev or_null : Value → Value
or_null v = if is_nullish v then null else v

unfoldable pub parse_mqtt_message : Option Value → Option MqttMessage
parse_mqtt_message none = none
parse_mqtt_message (some j) =
    if truthy (get j "msg_id") && is_uuid (get j "msg_id") && truthy (get j "type")
    then some (record {
      msg_id = get j "msg_id";
      type = get j "type";
      timestamp = get j "timestamp";
      priority = or_null (get j "priority");
      source = get j "source";
      target = get j "target";
      route = get j "route";
      delivery = get j "delivery";
      payload = get j "payload";
    })
    else none
