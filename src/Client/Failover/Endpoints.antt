-- ===== src/Client/Failover/Endpoints.antt =====
-- Addresses: an endpoint that was formatted is parsed to the same host and port.
use Prim.Native.Char.{Char}
use io_t_midterm_availabilit.Base.{
  ◌⊎◌, ◌↔◌, ℕ, zero, suc, ◌+◌, String, ◌≡◌, ◌≢◌, refl, true, false, ◌||◌, some, ◌=ₛ◌, eq_iff, ◌==◌,
  arith, Bool-cases, inl, inr, ◌∙◌, sym,
}
use io_t_midterm_availabilit.Js.Value.{Value, str}
use io_t_midterm_availabilit.Js.Text.{trim, is_space, ◌<>◌}
use io_t_midterm_availabilit.Js.Scan.{
  index_of, last_index_of, slice_to, slice_from, starts_with, includes, size, Without,
  Without-append, trim-eq, index_of-append, last_index_of-append, slice_to-append,
  slice_from-append, append_assoc, joined_nil, joined_cons,
}
use io_t_midterm_availabilit.Client.Failover.{
  Endpoint, format_broker_host, parse_broker_endpoint, endpoint_in, same_broker_host, same_host,
}

-- A host as it stands in a table: no white space and no brackets.
pub record IsHost (h : String) : Type 0 where
  pub not_empty : h ≢ ""
  pub no_space : Without is_space h
  pub no_bracket : Without (λ c. c == b'[' || c == b']') h

abbrev pub IsPort : String → Type 0
IsPort p = Without is_space p × Without (λ c. c == b':') p

abbrev with_port : String → String
with_port p = String.◌∷◌ ":" p

abbrev in_brackets : String → String → String
in_brackets h p = String.◌∷◌ "[" (h <> String.◌∷◌ "]" (with_port p))

colon_port : (p : String) → ":" <> p ≡ with_port p
colon_port p = joined_cons ":" "" p ∙ rw (joined_nil p) refl

bracket_port : (h p : String) → ("[" <> h <> "]") <> with_port p ≡ in_brackets h p
bracket_port h p =
    rw
      (
        joined_cons "[" "" (h <> "]"),
        joined_nil (h <> "]"),
        joined_cons "[" (h <> "]") (with_port p),
        append_assoc h "]" (with_port p),
        joined_cons "]" "" (with_port p),
        joined_nil (with_port p),
      )
      refl

slice_from-suc : (n : ℕ) (s : String) → slice_from (suc n) s ≡ slice_from 1 (slice_from n s)
unfolding slice_from
slice_from-suc zero s = refl
slice_from-suc (suc n) String.[] = refl
slice_from-suc (suc n) (String.◌∷◌ c s) = slice_from-suc n s

-- The parser where there is a colon, and where there is a closing bracket.
plain_at :
    (t : String) (i : ℕ)
    → t ≢ ""
    → starts_with b'[' t ≡ false
    → last_index_of b':' t ≡ some i
    → endpoint_in t ≡ some (record { host = slice_to i t; port = slice_from (suc i) t })
plain_at t i h b e = ground (arith, eq_iff t "")

bracketed_at :
    (t : String) (i : ℕ)
    → t ≢ ""
    → starts_with b'[' t ≡ true
    → index_of b']' t ≡ some i
    → endpoint_in t
      ≡ some (record { host = slice_from 1 (slice_to i t); port = slice_from (i + 2) t })
bracketed_at t i h b e = ground (arith, eq_iff t "")

opens_with : (h : String) → Without (λ c. c == b'[' || c == b']') h → starts_with b'[' h ≡ false
unfolding starts_with
opens_with String.[] w = refl
opens_with (String.◌∷◌ c h) w = ground (arith, w.0)

Without-closing :
    (h : String) → Without (λ c. c == b'[' || c == b']') h → Without (λ c. c == b']') h
Without-closing String.[] w = tt
Without-closing (String.◌∷◌ c h) w = (ground (arith, w.0), Without-closing h w.1)

endpoint_in-plain :
    (h p : String)
    → h ≢ ""
    → Without (λ c. c == b'[' || c == b']') h
    → Without (λ c. c == b':') p
    → endpoint_in (h <> with_port p) ≡ some (record { host = h; port = p })
unfolding starts_with
endpoint_in-plain String.[] p n u w = elim (n refl) [ ]
endpoint_in-plain (String.◌∷◌ c h) p n u w =
    plain_at (String.◌∷◌ c h <> with_port p) (size (String.◌∷◌ c h))
      (λ e. cc (sym (joined_cons c h (with_port p)) ∙ e))
      (rw (joined_cons c h (with_port p)) (ground (arith, u.0)))
      (last_index_of-append b':' ":" refl (String.◌∷◌ c h) p w)
    ∙ rw (slice_to-append (String.◌∷◌ c h) (with_port p), slice_from-append ":" (String.◌∷◌ c h) p)
        refl

index_of-in_brackets :
    (h p : String)
    → Without (λ c. c == b']') h
    → index_of b']' (in_brackets h p) ≡ some (suc (size h))
unfolding index_of
index_of-in_brackets h p w = rw (index_of-append b']' "]" refl h (with_port p) w) refl

slice_in_brackets : (h p : String) → slice_from (suc (size h) + 2) (in_brackets h p) ≡ p
unfolding slice_from
slice_in_brackets h p =
    let three : suc (size h) + 2 ≡ suc (suc (suc (size h))) = omega arith in
    rw three (
      slice_from-suc (suc (size h)) (h <> String.◌∷◌ "]" (with_port p))
      ∙ rw (slice_from-append "]" h (with_port p)) refl)

slice_one : (c : Char) (h : String) → slice_from 1 (String.◌∷◌ c h) ≡ h
unfolding slice_from
slice_one c h = refl

endpoint_in-bracketed :
    (h p : String)
    → Without (λ c. c == b'[' || c == b']') h
    → endpoint_in (in_brackets h p) ≡ some (record { host = h; port = p })
unfolding starts_with slice_to
endpoint_in-bracketed h p w =
    bracketed_at (in_brackets h p) (suc (size h)) (λ e. cc e) refl
      (index_of-in_brackets h p (Without-closing h w))
    ∙ rw (slice_in_brackets h p, slice_to-append h (String.◌∷◌ "]" (with_port p)), slice_one "[" h)
        refl

format_broker_host_cases :
    (h : String)
    → IsHost h
    → (format_broker_host (str h) ≡ h) ⊎ (format_broker_host (str h) ≡ "[" <> h <> "]")
unfolding format_broker_host
format_broker_host_cases h w = rw (trim-eq h w.no_space) (elim (Bool-cases (includes b':' h)) [
  | inl e ↦ inr (ground (arith, eq_iff h "", w.not_empty, opens_with h w.no_bracket))
  | inr e ↦ inl (ground (arith, eq_iff h "", w.not_empty, opens_with h w.no_bracket))
])

parsed_text :
    (t : String) (e : Endpoint)
    → Without is_space t
    → endpoint_in t ≡ some e
    → parse_broker_endpoint (str t) ≡ some e
unfolding parse_broker_endpoint
parsed_text t e w h = rw (trim-eq t w) h

spaceless_port :
    (h p : String) → Without is_space h → Without is_space p → Without is_space (h <> with_port p)
unfolding is_space
spaceless_port h p u v = Without-append is_space h (with_port p) u (refl, v)

-- `parseBrokerEndpoint` reads back a host that `formatBrokerHost` wrote in front of a colon and a
-- port, also an IPv6 address with its colons, which stands in brackets. The host is not empty and
-- has no white space and no brackets; the port has no white space and no colon.
pub parse_broker_endpoint-format_broker_host :
    (h p : String)
    → IsHost h
    → IsPort p
    → parse_broker_endpoint (str (format_broker_host (str h) <> ":" <> p))
      ≡ some (record { host = h; port = p })
unfolding is_space
parse_broker_endpoint-format_broker_host h p w v = elim (format_broker_host_cases h w) [
  | inl plain ↦
      rw (plain, colon_port p)
        (parsed_text (h <> with_port p) (record { host = h; port = p })
          (spaceless_port h p w.no_space v.0) (endpoint_in-plain h p w.not_empty w.no_bracket v.1))
  | inr brackets ↦
      rw (brackets, colon_port p, bracket_port h p)
        (parsed_text (in_brackets h p) (record { host = h; port = p })
          (
            refl,
            Without-append is_space h (String.◌∷◌ "]" (with_port p)) w.no_space (refl, (refl, v.0)),
          )
          (endpoint_in-bracketed h p w.no_bracket))
]

abbrev IsEqFlip : String → String → Type 0
IsEqFlip a b = (a =ₛ b) ≡ (b =ₛ a)

eq_comm : (a b : String) → IsEqFlip a b
eq_comm a b = ground (arith, eq_iff a b, eq_iff b a)

same_host_sym : (a b : String) → same_host a b ≡ same_host b a
same_host_sym a b = ground (arith, eq_comm a b)

same_host_trans :
    (a b c : String) → same_host a b ≡ true → same_host b c ≡ true → same_host a c ≡ true
same_host_trans a b c p q = ground (arith, eq_iff a b, eq_iff b c, eq_iff a c)

same_broker_host_sym :
    (lower : String → String) (a b : Value)
    → same_broker_host lower a b ≡ same_broker_host lower b a
unfolding same_broker_host
same_broker_host_sym lower (str a) (str b) = same_host_sym (lower (trim a)) (lower (trim b))
same_broker_host_sym lower a b = ground arith

same_broker_host_trans :
    (lower : String → String) (a b c : Value)
    → same_broker_host lower a b ≡ true
    → same_broker_host lower b c ≡ true
    → same_broker_host lower a c ≡ true
unfolding same_broker_host
same_broker_host_trans lower (str a) (str b) (str c) p q =
    same_host_trans (lower (trim a)) (lower (trim b)) (lower (trim c)) p q
same_broker_host_trans lower a b c p q = ground arith

abbrev pub IsLocalHost : String → Type 0
IsLocalHost h = (h ≡ "localhost") ⊎ (h ≡ "127.0.0.1")

abbrev pub AreOneHost : String → String → Type 0
AreOneHost h k = (h ≢ "") × (k ≢ "") × ((h ≡ k) ⊎ (IsLocalHost h × IsLocalHost k))

-- The value is a text, which is this host without the white space around it and in lower case.
abbrev pub IsHostText : (String → String) → Value → String → Type 0
IsHostText lower v h = (s : String) × (v ≡ str s) × (lower (trim s) ≡ h)

abbrev pub NameOneHost : (String → String) → Value → Value → Type 0
NameOneHost lower a b =
    (h : String) × (k : String) × IsHostText lower a h × IsHostText lower b k × AreOneHost h k

same_host_iff : (h k : String) → (same_host h k ≡ true) ↔ AreOneHost h k
same_host_iff h k = ground (
  arith,
  eq_iff h "",
  eq_iff k "",
  eq_iff h k,
  eq_iff h "localhost",
  eq_iff k "localhost",
  eq_iff h "127.0.0.1",
  eq_iff k "127.0.0.1",
)

same_broker_host-NameOneHost :
    (lower : String → String) (a b : Value)
    → same_broker_host lower a b ≡ true
    → NameOneHost lower a b
unfolding same_broker_host
same_broker_host-NameOneHost lower (str a) (str b) e = (
  lower (trim a),
  lower (trim b),
  (a, refl, refl),
  (b, refl, refl),
  (same_host_iff (lower (trim a)) (lower (trim b))).0 e,
)
same_broker_host-NameOneHost lower a b e = ground arith

NameOneHost-same_broker_host :
    (lower : String → String) (a b : Value)
    → NameOneHost lower a b
    → same_broker_host lower a b ≡ true
unfolding same_broker_host
NameOneHost-same_broker_host lower a b (h, k, (s, p, q), (t, u, v), one) =
    rw (p, u) (rw (q, v) ((same_host_iff h k).1 one))

-- `sameBrokerHost` holds exactly for two texts, neither blank, which without the white space around
-- them and in lower case are equal or both among `localhost` and `127.0.0.1`. It is symmetric and
-- transitive, so that the hosts form classes.
pub same_broker_host_lem :
    (lower : String → String) (a b c : Value)
    → ((same_broker_host lower a b ≡ true) ↔ NameOneHost lower a b)
      × (same_broker_host lower a b ≡ same_broker_host lower b a)
      × (same_broker_host lower a b ≡ true
          → same_broker_host lower b c ≡ true
          → same_broker_host lower a c ≡ true)
same_broker_host_lem lower a b c = (
  (same_broker_host-NameOneHost lower a b, NameOneHost-same_broker_host lower a b),
  same_broker_host_sym lower a b,
  same_broker_host_trans lower a b c,
)
