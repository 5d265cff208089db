-- ===== src/Client/Endpoint/Address.antt =====
-- nodePresentation.js: the addresses that parseIpv4 accepts.
use native.Mathlib.Nat.{mod-add-div', div-le_of_le-mul, mul_comm}
use io_t_midterm_availabilit.Base.{
  ℕ, ◌*◌, ◌/◌, ◌%◌, ◌^◌, ◌≤◌, ◌==◌, String, ◌≡◌, refl, ap, subst, true, false, Option, none, some,
  List, [], ◌∷◌, arith, pos, negsuc, and-eq-true,
}
use io_t_midterm_availabilit.Js.Number.{Number, fin, infinity, neg_infinity, num_ltb, whole}
use io_t_midterm_availabilit.Js.Text.{split_char}
use io_t_midterm_availabilit.Js.Value.{Value, str}
use io_t_midterm_availabilit.Client.Endpoint.{
  Locale, Ip, is_integer, octet, ip_of, four_octets, parse_ipv4,
}

-- A whole number from 0 to 255.
abbrev pub IsOctet : Number → Type 0
IsOctet n = (k : ℕ) × (k ≤ 255) × (n ≡ whole k)

multiple_le : (m u : ℕ) → (m % u == 0) ≡ true → m ≤ 255 * u → (k : ℕ) × (k ≤ 255) × (m ≡ k * u)
multiple_le m u e h = (
  m / u,
  div-le_of_le-mul u (subst (λ x. m ≤ x) (mul_comm 255 u) h),
  ground (arith, mod-add-div' m u),
)

octet_same : (o : Option Number) (n : Number) → octet o ≡ some n → o ≡ some n
unfolding octet
octet_same none n e = cc
octet_same (some m) n e = ground arith

whole-IsOctet :
    (m : Number)
    → is_integer m ≡ true
    → num_ltb m (fin (pos 0)) ≡ false
    → num_ltb (whole 255) m ≡ false
    → IsOctet m
unfolding is_integer num_ltb whole
whole-IsOctet neg_infinity p q r = cc
whole-IsOctet infinity p q r = cc
whole-IsOctet (fin (negsuc n)) p q r = ground arith
whole-IsOctet (fin (pos n)) p q r =
    let (k, h, e) =
      multiple_le n (2 ^ 1074) (and-eq-true (n % 2 ^ 1074 == 0) true p).0 (ground arith) in
    (k, h, ap (λ x. fin (pos x)) e)

octet-IsOctet : (o : Option Number) (n : Number) → octet o ≡ some n → IsOctet n
unfolding octet
octet-IsOctet none n e = cc
octet-IsOctet (some m) n e =
    subst IsOctet (ground arith) (whole-IsOctet m (ground arith) (ground arith) (ground arith))

-- One part of an address spells the number, which is whole and at most 255.
abbrev pub IsPart : Locale → String → Number → Type 0
IsPart locale part n = (locale.string_number part ≡ some n) × IsOctet n

abbrev pub IsAddress : Locale → List String → Ip → Type 0
IsAddress locale (a ∷ b ∷ c ∷ d ∷ []) ip =
    IsPart locale a ip.first
    × IsPart locale b ip.second
    × IsPart locale c ip.third
    × IsPart locale d ip.fourth
IsAddress locale _ ip = ⊥

octet-IsPart :
    (locale : Locale) (part : String) (n : Number)
    → octet (locale.string_number part) ≡ some n
    → IsPart locale part n
octet-IsPart locale part n e =
    (octet_same (locale.string_number part) n e, octet-IsOctet (locale.string_number part) n e)

ip_of_lem :
    (a b c d : Option Number) (ip : Ip)
    → ip_of a b c d ≡ some ip
    → (a ≡ some ip.first) × (b ≡ some ip.second) × (c ≡ some ip.third) × (d ≡ some ip.fourth)
ip_of_lem (some a) (some b) (some c) (some d) ip e = (cc, cc, cc, cc)
ip_of_lem none b c d ip e = cc
ip_of_lem (some a) none c d ip e = cc
ip_of_lem (some a) (some b) none d ip e = cc
ip_of_lem (some a) (some b) (some c) none ip e = cc

four_octets-IsAddress :
    (locale : Locale) (parts : List String) (ip : Ip)
    → four_octets locale parts ≡ some ip
    → IsAddress locale parts ip
four_octets-IsAddress locale (a ∷ b ∷ c ∷ d ∷ []) ip e =
    let (p, q, r, t) = ip_of_lem _ _ _ _ ip e in
    (
      octet-IsPart locale a ip.first p,
      octet-IsPart locale b ip.second q,
      octet-IsPart locale c ip.third r,
      octet-IsPart locale d ip.fourth t,
    )
four_octets-IsAddress locale _ ip e = cc

-- parseIpv4 yields an address only for a text of four parts with a dot between two. Each part
-- spells the number at its place, and that is a whole number from 0 to 255.
parse_ipv4-IsAddress :
    (locale : Locale) (v : Value) (ip : Ip)
    → parse_ipv4 locale v ≡ some ip
    → (s : String) × (v ≡ str s) × IsAddress locale (split_char b'.' s) ip
unfolding parse_ipv4
parse_ipv4-IsAddress locale (str s) ip e =
    (s, refl, four_octets-IsAddress locale (split_char b'.' s) ip e)
parse_ipv4-IsAddress locale _ ip e = cc
