-- ===== src/Client/Endpoint/Order.antt =====
-- nodePresentation.js: comparing nodes by their endpoints is an order.
use io_t_midterm_availabilit.Base.{
  ◌≡◌, refl, true, false, Option, none, some, arith, pos, is_some, Comparison, flip, ◌then_by◌,
  AtMost, IsOrder, then_by-IsOrder, on-IsOrder, agreeing-IsOrder,
}
use io_t_midterm_availabilit.Js.Number.{
  Number, fin, num_ltb, compared, Compared, below, same, above, num_leb_trans,
}
use io_t_midterm_availabilit.Client.Parsers.{Node}
use io_t_midterm_availabilit.Client.Graph.{normalize_node_id}
use io_t_midterm_availabilit.Client.Endpoint.{
  Locale, Ip, compare_numbers, compare_octets, compare_ips, compare_ports, parse_ipv4, port_number,
  compare_node_endpoints,
}

AtMost-compare_numbers : (a b : Number) → num_ltb b a ≡ false → AtMost (compare_numbers a b)
AtMost-compare_numbers a b h = elim (compared a b) [
  | below x y z ↦ ground arith
  | same e x y z ↦ ground arith
  | above x y z ↦ cc
]

leb_of_AtMost : (a b : Number) → AtMost (compare_numbers a b) → num_ltb b a ≡ false
leb_of_AtMost a b h = elim (compared a b) [
  | below x y z ↦ z
  | same e x y z ↦ z
  | above x y z ↦ ground arith
]

-- Numbers that are no NaN compare as an order.
compare_numbers-IsOrder : IsOrder (λ _. Unit) compare_numbers
compare_numbers-IsOrder = record {
  flips = λ a b p q. flips a b (compared a b) (compared b a);
  trans = λ a b c p q r x y.
      AtMost-compare_numbers a c (num_leb_trans a b c (leb_of_AtMost a b x) (leb_of_AtMost b c y));
}
  where
    flips :
        (a b : Number)
        → Compared a b
        → Compared b a
        → compare_numbers b a ≡ flip (compare_numbers a b)
    flips a b (below x y z) (below p q r) = ground arith
    flips a b (below x y z) (same e p q r) = ground arith
    flips a b (below x y z) (above p q r) = ground arith
    flips a b (same e x y z) (below p q r) = ground arith
    flips a b (same e x y z) (same d p q r) = ground arith
    flips a b (same e x y z) (above p q r) = ground arith
    flips a b (above x y z) (below p q r) = ground arith
    flips a b (above x y z) (same e p q r) = ground arith
    flips a b (above x y z) (above p q r) = ground arith

compare_octets-IsOrder : IsOrder (λ _. Unit) compare_octets
compare_octets-IsOrder =
    then_by-IsOrder (λ a b. compare_numbers a.first b.first) _ (by_part (λ a. a.first))
      (then_by-IsOrder (λ a b. compare_numbers a.second b.second) _ (by_part (λ a. a.second))
        (then_by-IsOrder (λ a b. compare_numbers a.third b.third) _ (by_part (λ a. a.third))
          (by_part (λ a. a.fourth))))
  where
    by_part : (part : Ip → Number) → IsOrder (λ _. Unit) (λ a b. compare_numbers (part a) (part b))
    by_part part = on-IsOrder part compare_numbers (λ a p. tt) compare_numbers-IsOrder

compare_ips-IsOrder : IsOrder (λ _. Unit) compare_ips
compare_ips-IsOrder = record { flips = flips; trans = transitive }
  where
    flips : (a b : Option Ip) → Unit {0} → Unit {0} → compare_ips b a ≡ flip (compare_ips a b)
    flips none none p q = refl
    flips none (some b) p q = refl
    flips (some a) none p q = refl
    flips (some a) (some b) p q = compare_octets-IsOrder.flips a b tt tt

    transitive :
        (a b c : Option Ip)
        → Unit {0}
        → Unit {0}
        → Unit {0}
        → AtMost (compare_ips a b)
        → AtMost (compare_ips b c)
        → AtMost (compare_ips a c)
    transitive none none none p q r x y = refl
    transitive none none (some c) p q r x y = y
    transitive none (some b) c p q r x y = cc
    transitive (some a) none none p q r x y = refl
    transitive (some a) none (some c) p q r x y = cc
    transitive (some a) (some b) none p q r x y = refl
    transitive (some a) (some b) (some c) p q r x y =
        compare_octets-IsOrder.trans a b c tt tt tt x y

abbrev number_or_zero : Option Number → Number
number_or_zero none = fin (pos 0)
number_or_zero (some n) = n

both_numbers :
    (a b : Option Number) (d : Comparison)
    → is_some a ≡ true
    → is_some b ≡ true
    → compare_ports a b d ≡ compare_numbers (number_or_zero a) (number_or_zero b) then_by d
both_numbers none b d p q = cc
both_numbers (some a) none d p q = cc
both_numbers (some a) (some b) d p q = refl

-- Ports that are numbers, and behind them the ids.
module _ {A : Type 0} (port : A → Option Number) (c : A → A → Comparison) where
  compare_ports-IsOrder :
      IsOrder (λ _. Unit) c
      → IsOrder (λ a. is_some (port a) ≡ true) (λ a b. compare_ports (port a) (port b) (c a b))
  compare_ports-IsOrder o =
      agreeing-IsOrder _
        (λ a b. compare_numbers (number_or_zero (port a)) (number_or_zero (port b)) then_by c a b)
        (λ a b p q. both_numbers (port a) (port b) (c a b) p q)
        (then_by-IsOrder
          (λ a b. compare_numbers (number_or_zero (port a)) (number_or_zero (port b))) c
          (on-IsOrder (λ a. number_or_zero (port a)) compare_numbers (λ a p. tt)
            compare_numbers-IsOrder)
          (on-IsOrder (λ a. a) c (λ a p. tt) o))

-- `Number(node.port ?? 0)` is no NaN.
abbrev pub HasPort : Locale → Node → Type 0
HasPort locale n = is_some (port_number locale n) ≡ true

-- What the sort asks of `localeCompare`.
abbrev pub IsCollation : Locale → Type 0
IsCollation locale = IsOrder (λ _. Unit) locale.locale_compare

pub compare_node_endpoints-IsOrder :
    (locale : Locale)
    → IsCollation locale
    → IsOrder (HasPort locale) (compare_node_endpoints locale)
unfolding compare_node_endpoints
compare_node_endpoints-IsOrder locale o =
    then_by-IsOrder (λ a b. compare_ips (parse_ipv4 locale a.ip) (parse_ipv4 locale b.ip)) _
      (on-IsOrder (λ a. parse_ipv4 locale a.ip) compare_ips (λ a p. tt) compare_ips-IsOrder)
      (compare_ports-IsOrder (port_number locale) _ (
        on-IsOrder (λ a. normalize_node_id locale.number_text a.id) locale.locale_compare
          (λ a p. tt) o))
