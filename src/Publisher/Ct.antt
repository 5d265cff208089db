-- ===== src/Publisher/Ct.antt =====
-- The Connection Table as the browser publisher holds it (publisher_client/src/mqtt/ctFailover.js):
-- the object that `JSON.parse` returned, seen through the properties that the code reads. An entry
-- of `nodes` or `links` that is null, where a property read raises a TypeError, is left out of the
-- model: it reads here as an object without properties.
use io_t_midterm_availabilit.Base.{Option, none, some, map, List, if◌then◌else◌}
use io_t_midterm_availabilit.Js.Value.{Value, get, truthy, as_array}
use mathlib.Core.Option

pub record Node : Type 0 where
  pub id : Value
  pub role : Value
  pub ip : Value
  pub port : Value
  pub status : Value
  pub hop_to_core : Value

pub record Link : Type 0 where
  pub from_id : Value
  pub to_id : Value
  pub rtt_ms : Value

-- `nodes` and `links` are `none` where `Array.isArray` fails.
pub record Ct : Type 0 where
  pub version : Value
  pub active_core_id : Value
  pub backup_core_id : Value
  pub nodes : Option (List Node)
  pub links : Option (List Link)

abbrev pub node_of : Value → Node
node_of v = record {
  id = get v "id";
  role = get v "role";
  ip = get v "ip";
  port = get v "port";
  status = get v "status";
  hop_to_core = get v "hop_to_core";
}

abbrev pub link_of : Value → Link
link_of v = record { from_id = get v "from_id"; to_id = get v "to_id"; rtt_ms = get v "rtt_ms" }

-- A falsy value is no table, as in `!ct`.
pub ct_of : Value → Option Ct
ct_of v =
    if truthy v
    then some (record {
      version = get v "version";
      active_core_id = get v "active_core_id";
      backup_core_id = get v "backup_core_id";
      nodes = Option.map (map node_of) (as_array (get v "nodes"));
      links = Option.map (map link_of) (as_array (get v "links"));
    })
    else none
