-- ===== src/Client/Endpoint.antt =====
-- client/src/mqtt/nodePresentation.js: IPv4 addresses, and the comparison of nodes by endpoint.
pub mod Address
pub mod Order
use io_t_midterm_availabilit.Base.{
  ℕ, zero, suc, ◌%◌, ◌*◌, ◌^◌, ◌==◌, String, Bool, true, false, not, ◌&&◌, ◌||◌, Option, none, some,
  List, [], ◌∷◌, map, filter, ◌=ₛ◌, if◌then◌else◌, pos, pos_part, neg_part, Comparison, before,
  equal, after, ◌then_by◌, sort_by, Dict, put, lookup,
}
use io_t_midterm_availabilit.Js.Number.{
  Number, fin, infinity, neg_infinity, num_ltb, num_eqb, whole,
}
use io_t_midterm_availabilit.Js.Text.{◌<>◌, trim, split_char, decimal}
use io_t_midterm_availabilit.Js.Value.{
  Value, undefined, null, num, str, arr, obj, get, truthy, is_nullish, is_text,
}
use io_t_midterm_availabilit.Client.Parsers.{Node, Table, MqttMessage}
use io_t_midterm_availabilit.Client.Visibility.{text_of}
use io_t_midterm_availabilit.Client.Graph.{normalize_node_id}

-- What the module uses of the language: the text of a number, the number that a text spells
-- (`none` for NaN), and `localeCompare`, also with the option `numeric`.
pub record Locale : Type 0 where
  pub number_text : Number → String
  pub string_number : String → Option Number
  pub locale_compare : String → String → Comparison
  pub numeric_compare : String → String → Comparison

-- `Number.isInteger`
unfoldable pub is_integer : Number → Bool
is_integer neg_infinity = false
is_integer infinity = false
is_integer (fin z) = pos_part z % 2 ^ 1074 == 0 && neg_part z % 2 ^ 1074 == 0

pub record Ip : Type 0 where
  pub first : Number
  pub second : Number
  pub third : Number
  pub fourth : Number

-- A number that `parseIpv4` lets pass.
unfoldable pub octet : Option Number → Option Number
unfolding is_integer
octet none = none
octet (some n) =
    if not (is_integer n) || num_ltb n (fin (pos 0)) || num_ltb (whole 255) n then none else some n

abbrev pub ip_of : Option Number → Option Number → Option Number → Option Number → Option Ip
ip_of (some a) (some b) (some c) (some d) =
    some (record { first = a; second = b; third = c; fourth = d })
ip_of _ _ _ _ = none

-- `left - right` of two numbers that are no NaN, where they differ.
abbrev pub compare_numbers : Number → Number → Comparison
compare_numbers a b = if num_eqb a b then equal else if num_ltb a b then before else after

abbrev pub compare_octets : Ip → Ip → Comparison
compare_octets a b =
    compare_numbers a.first b.first
    then_by compare_numbers a.second b.second
    then_by compare_numbers a.third b.third
    then_by compare_numbers a.fourth b.fourth

-- Addresses in numeric order, and behind them what is no address.
abbrev pub compare_ips : Option Ip → Option Ip → Comparison
compare_ips (some a) (some b) = compare_octets a b
compare_ips (some a) none = before
compare_ips none (some b) = after
compare_ips none none = equal

-- The ports, and only if they are equal what follows; a difference with NaN is NaN, which the
-- sort reads as 0.
abbrev pub compare_ports : Option Number → Option Number → Comparison → Comparison
compare_ports (some a) (some b) next_order = compare_numbers a b then_by next_order
compare_ports none b next_order = equal
compare_ports (some a) none next_order = equal

module _ (locale : Locale) where
  -- `Number(v)`
  unfoldable pub to_number : Value → Option Number
  to_number undefined = none
  to_number null = some (fin (pos 0))
  to_number (io_t_midterm_availabilit.Js.Value.bool b) = some (if b then whole 1 else fin (pos 0))
  to_number (num n) = some n
  to_number (str s) = locale.string_number s
  to_number (arr vs) = locale.string_number (text_of locale.number_text (arr vs))
  to_number (obj ms) = none

  abbrev pub four_octets : List String → Option Ip
  four_octets (a ∷ b ∷ c ∷ d ∷ []) =
      ip_of (octet (locale.string_number a)) (octet (locale.string_number b))
        (octet (locale.string_number c)) (octet (locale.string_number d))
  four_octets _ = none

  unfoldable pub parse_ipv4 : Value → Option Ip
  unfolding split_char
  parse_ipv4 (str s) = four_octets (split_char b'.' s)
  parse_ipv4 _ = none

  abbrev pub port_number : Node → Option Number
  port_number n = if is_nullish n.port then some (fin (pos 0)) else to_number n.port

  unfoldable pub compare_node_endpoints : Node → Node → Comparison
  compare_node_endpoints left right =
      compare_ips (parse_ipv4 left.ip) (parse_ipv4 right.ip)
      then_by compare_ports (port_number left) (port_number right) (
          locale.locale_compare (normalize_node_id locale.number_text left.id)
            (normalize_node_id locale.number_text right.id))
