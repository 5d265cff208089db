-- ===== src/Publisher/Message.antt =====
-- publisher_client/src/mqtt/message.js: the event message and its topic. A fresh UUID and the time
-- stamp of `nowUtc` are arguments. The tables have the three message types as keys; names that
-- every object inherits (`constructor` and the like) are no message types here.
use io_t_midterm_availabilit.Base.{
  ℕ, String, Bool, false, ◌||◌, Option, none, some, ◌=ₛ◌, if◌then◌else◌,
}
use io_t_midterm_availabilit.Js.Text.{◌<>◌}
use io_t_midterm_availabilit.Js.Value.{Value, str}

-- `original_node` is the publisher's id until `applyOriginRoute` puts the primary edge's there.
-- The last three fields are set for delivery by way of a fallback broker and from the queue.
pub record Message : Type 0 where
  pub msg_id : String
  pub type : String
  pub timestamp : String
  pub created_at : String
  pub priority : Option String
  pub source_role : String
  pub source_id : String
  pub target_role : String
  pub target_id : String
  pub original_node : Value
  pub prev_hop : String
  pub next_hop : String
  pub hop_count : ℕ
  pub ttl : ℕ
  pub qos : ℕ
  pub dup : Bool
  pub retain : Bool
  pub building_id : String
  pub camera_id : String
  pub description : String
  pub via_failover : Bool
  pub intended_edge_ip : Option String
  pub was_queued : Bool

abbrev pub is_known_type : String → Bool
is_known_type t = t =ₛ "MOTION" || t =ₛ "DOOR_FORCED" || t =ₛ "INTRUSION"

unfoldable pub segment_of : String → Option String
segment_of t =
    if t =ₛ "MOTION"
    then some "motion"
    else if t =ₛ "DOOR_FORCED"
    then some "door"
    else if t =ₛ "INTRUSION"
    then some "intrusion"
    else none

unfoldable pub infer_priority : String → Option String
infer_priority t =
    if t =ₛ "MOTION"
    then some "MEDIUM"
    else if t =ₛ "DOOR_FORCED"
    then some "HIGH"
    else if t =ₛ "INTRUSION"
    then some "HIGH"
    else none

abbrev topic_in : String → String → Option String → Option String
topic_in building camera none = none
topic_in building camera (some segment) =
    if building =ₛ "" || camera =ₛ ""
    then none
    else some ("campus/data/" <> segment <> "/" <> building <> "/" <> camera)

unfoldable pub build_topic : String → String → String → Option String
unfolding segment_of
build_topic t building camera = topic_in building camera (segment_of t)

-- The arguments of `publish`, with the results of `generateUuid` and `nowUtc`.
pub record Args : Type 0 where
  pub publisher_id : String
  pub type : String
  pub building_id : String
  pub camera_id : String
  pub description : String
  pub uuid : String
  pub stamp : String

-- `none` where the source throws.
unfoldable pub build_message : Args → Option Message
unfolding infer_priority
build_message a =
    if a.publisher_id =ₛ ""
    then none
    else if is_known_type a.type
    then some (record {
      msg_id = a.uuid;
      type = a.type;
      timestamp = a.stamp;
      created_at = a.stamp;
      priority = infer_priority a.type;
      source_role = "NODE";
      source_id = a.publisher_id;
      target_role = "CORE";
      target_id = "";
      original_node = str a.publisher_id;
      prev_hop = "";
      next_hop = "";
      hop_count = 0;
      ttl = 8;
      qos = 1;
      dup = false;
      retain = false;
      building_id = a.building_id;
      camera_id = a.camera_id;
      description = a.description;
      via_failover = false;
      intended_edge_ip = none;
      was_queued = false;
    })
    else none
