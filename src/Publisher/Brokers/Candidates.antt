-- ===== src/Publisher/Brokers/Candidates.antt =====
-- The list of brokers that the publisher tries.
use io_t_midterm_availabilit.Base.{
  String, ◌≡◌, ◌≢◌, ◌↔◌, refl, sym, ◌∙◌, ap, subst, true, false, Option, none, some, List, [], ◌∷◌,
  ◌++◌, arith, All, All-append, In, here, there, In-append_right, In-cons, any, any-All, ◌=ₛ◌,
  eq_iff, Bool-cases, inl, inr, ◌⊎◌,
}
use io_t_midterm_availabilit.Js.Url.{Url}
use io_t_midterm_availabilit.Js.Text.{split_runs, trim, is_space}
use io_t_midterm_availabilit.Js.Scan.{Without, trim-eq}
use io_t_midterm_availabilit.Publisher.Brokers.{
  is_ws, is_separator, if_ws, with_some, same_href, normalize_broker_url, normalized, add_unseen,
  parse_broker_candidates,
}
use io_t_midterm_availabilit.Publisher.Brokers.Parts.{
  separates, IsPart, split_runs-IsPart, split_runs-In,
}

abbrev pub HasDistinctUrls : List Url → Type 0
HasDistinctUrls [] = Unit {0}
HasDistinctUrls (u ∷ us) = All (λ (v : Url). same_href u.href v ≡ false) us × HasDistinctUrls us

-- One of the brokers has this URL.
abbrev pub IsListed : String → List Url → Type 0
IsListed h us = (u : Url) × In u us × (u.href ≡ h)

IsListed-there : (h : String) (v : Url) (us : List Url) → IsListed h us → IsListed h (v ∷ us)
IsListed-there h v us (u, i, e) = (u, there i, e)

any-IsListed : (h : String) (us : List Url) → any (same_href h) us ≡ true → IsListed h us
unfolding any
any-IsListed h [] e = cc
any-IsListed h (u ∷ us) e = elim (Bool-cases (same_href h u)) [
  | inl f ↦ (u, here, (eq_iff u.href h).0 f)
  | inr f ↦ IsListed-there h u us (any-IsListed h us (ground arith))
]

IsListed-append : (h : String) (us vs : List Url) → IsListed h us → IsListed h (us ++ vs)
IsListed-append h [] vs (u, i, e) = elim i [ ]
IsListed-append h (x ∷ us) vs (u, here, e) = (x, here, e)
IsListed-append h (x ∷ us) vs (u, there i, e) =
    IsListed-there h x (us ++ vs) (IsListed-append h us vs (u, i, e))

IsListed-cases :
    (h : String) (u : Url) (us : List Url) → IsListed h (u ∷ us) → (u.href ≡ h) ⊎ IsListed h us
IsListed-cases h u us (v, here, e) = inl e
IsListed-cases h u us (v, there i, e) = inr (v, i, e)

-- A new URL at the end.
HasDistinctUrls-snoc :
    (u : Url) (us : List Url)
    → any (same_href u.href) us ≡ false
    → HasDistinctUrls us
    → HasDistinctUrls (us ++ u ∷ [])
HasDistinctUrls-snoc u us h d = go us (any-All (same_href u.href) us h) d
  where
    go :
        (us : List Url)
        → All (λ v. same_href u.href v ≡ false) us
        → HasDistinctUrls us
        → HasDistinctUrls (us ++ u ∷ [])
    go [] a d = (tt, tt)
    go (v ∷ vs) a d = (
      All-append (λ (w : Url). same_href v.href w ≡ false) vs (u ∷ []) d.0
          (ground (arith, a.0, eq_iff v.href u.href, eq_iff u.href v.href), tt),
      go vs a.1 d.1,
    )

-- The list made from `us`, with the brokers before it: from them and `us`, with every URL once.
record IsUnion (P : Url → Type 0) (bs us result : List Url) : Type 0 where
  distinct : HasDistinctUrls result
  sound : All P result
  old : (h : String) → IsListed h bs → IsListed h result
  new : (h : String) → IsListed h us → IsListed h result

add_unseen-IsUnion :
    (P : Url → Type 0) (bs us : List Url)
    → HasDistinctUrls bs
    → All P bs
    → All P us
    → IsUnion P bs us (add_unseen bs us)
unfolding add_unseen
add_unseen-IsUnion P bs [] d p q = record {
  distinct = d;
  sound = p;
  old = λ h l. l;
  new = λ h (u, i, e). elim i [ ];
}
add_unseen-IsUnion P bs (u ∷ us) d p q = elim (Bool-cases (any (same_href u.href) bs)) [
  | inl seen ↦
      let r = add_unseen-IsUnion P bs us d p q.1 in
      rw seen (record {
        distinct = r.distinct;
        sound = r.sound;
        old = r.old;
        new = λ h l.
            by_place r.new
              (λ e. r.old h (subst (λ x. IsListed x bs) e (any-IsListed u.href bs seen)))
              (IsListed-cases h u us l);
      })
  | inr fresh ↦
      let r =
        add_unseen-IsUnion P (bs ++ u ∷ []) us (HasDistinctUrls-snoc u bs fresh d)
          (All-append P bs (u ∷ []) p (q.0, tt)) q.1 in
      rw fresh (record {
        distinct = r.distinct;
        sound = r.sound;
        old = λ h l. r.old h (IsListed-append h bs (u ∷ []) l);
        new = λ h l.
            by_place r.new (λ e. r.old h (u, In-append_right bs here, e)) (IsListed-cases h u us l);
      })
]
  where
    by_place :
        {h : String} {result : List Url}
        → ((h : String) → IsListed h us → IsListed h result)
        → (u.href ≡ h → IsListed h result)
        → (u.href ≡ h) ⊎ IsListed h us
        → IsListed h result
    by_place {h} later first (inl e) = first e
    by_place {h} later first (inr l) = later h l

-- A WebSocket URL, plain or secured.
abbrev pub IsWebSocket : Url → Type 0
IsWebSocket u = (u.protocol ≡ "ws:") ⊎ (u.protocol ≡ "wss:")

is_ws_iff : (u : Url) → (is_ws u ≡ true) ↔ IsWebSocket u
is_ws_iff u = ground (arith, eq_iff u.protocol "ws:", eq_iff u.protocol "wss:")

if_ws-eq-some : (o : Option Url) (u : Url) → if_ws o ≡ some u → (o ≡ some u) × IsWebSocket u
if_ws-eq-some none u e = cc
if_ws-eq-some (some v) u e = elim (Bool-cases (is_ws v)) [
  | inl w ↦
      let same : v ≡ u = ground (arith, w, e) in
      (ap some same, subst IsWebSocket same ((is_ws_iff v).0 w))
  | inr w ↦ ground (arith, w, e)
]

with_some-All :
    (P : Url → Type 0) (o : Option Url) (us : List Url)
    → ((u : Url) → o ≡ some u → P u)
    → All P us
    → All P (with_some o us)
with_some-All P none us h a = a
with_some-All P (some u) us h a = (h u refl, a)

In-with_some : (o : Option Url) (us : List Url) (u : Url) → o ≡ some u → In u (with_some o us)
In-with_some none us u e = cc
In-with_some (some v) us u e = let same : v ≡ u = ground arith in rw same here

In-with_some_there : (o : Option Url) (us : List Url) (u : Url) → In u us → In u (with_some o us)
In-with_some_there none us u i = i
In-with_some_there (some v) us u i = there i

spaceless : (part : String) → Without separates part → Without is_space part
spaceless String.[] w = tt
spaceless (String.◌∷◌ c part) w = (ground (arith, w.0), spaceless part w.1)

module _ (new_url : String → Option Url) where
  -- A part of the text is this WebSocket URL, as `new URL` reads it.
  abbrev pub IsTyped : String → Url → Type 0
  IsTyped raw u = (part : String) × IsPart raw part × (new_url part ≡ some u) × IsWebSocket u

  normalize-eq-some :
      (raw part : String) (u : Url)
      → In part (split_runs is_separator false "" raw)
      → normalize_broker_url new_url part ≡ some u
      → IsTyped raw u
  unfolding normalize_broker_url
  normalize-eq-some raw part u i e = elim (Bool-cases (trim part =ₛ "")) [
    | inl empty ↦ ground (arith, empty, e)
    | inr text ↦
        let filled : part ≢ "" = λ q. nothing (rw q at text) in
        let r = split_runs-In raw part i filled in
        let (f, w) = if_ws-eq-some (new_url (trim part)) u (rw text at e) in
        (part, r, rw (trim-eq part (spaceless part r.whole)) at f, w)
  ]
    where
      nothing : (trim "" =ₛ "") ≡ false → ⊥
      nothing h = cc (sym h ∙ (eq_iff (trim "") "").1 (trim-eq "" tt))

  eq-some-normalize :
      (raw part : String) (u : Url)
      → IsPart raw part
      → new_url part ≡ some u
      → IsWebSocket u
      → normalize_broker_url new_url part ≡ some u
  unfolding normalize_broker_url
  eq-some-normalize raw part u r e w =
      let text : (part =ₛ "") ≡ false = ground (arith, eq_iff part "", r.filled) in
      let ws : is_ws u ≡ true = (is_ws_iff u).1 w in
      rw (trim-eq part (spaceless part r.whole)) (rw (text, e) (rw ws refl))

  normalized-All :
      (P : Url → Type 0) (parts : List String)
      → ((part : String) (u : Url)
          → In part parts
          → normalize_broker_url new_url part ≡ some u
          → P u)
      → All P (normalized new_url parts)
  unfolding normalized
  normalized-All P [] h = tt
  normalized-All P (part ∷ parts) h =
      with_some-All P (normalize_broker_url new_url part) _ (λ u e. h part u here e)
        (normalized-All P parts (λ x u i e. h x u (there i) e))

  In-normalized :
      (part : String) (u : Url) (parts : List String)
      → In part parts
      → normalize_broker_url new_url part ≡ some u
      → In u (normalized new_url parts)
  unfolding normalized
  In-normalized part u [] i e = elim i [ ]
  In-normalized part u (p ∷ parts) i e = elim (In-cons i) [
    | inl same ↦ In-with_some _ _ u (subst (λ x. normalize_broker_url new_url x ≡ some u) same e)
    | inr j ↦ In-with_some_there _ _ u (In-normalized part u parts j e)
  ]

-- The brokers typed: exactly the WebSocket URLs among the parts of the text, each once.
pub record IsCandidateList (new_url : String → Option Url) (raw : String) (bs : List Url)
    : Type 0 where
  pub distinct : HasDistinctUrls bs
  pub typed : All (IsTyped new_url raw) bs
  pub complete : (u : Url) → IsTyped new_url raw u → IsListed u.href bs

-- `parseBrokerCandidates` lists each URL once. Every broker listed is a part of the text that
-- `new URL` reads as a `ws:` or `wss:` URL, and every such part has its URL listed. The parts stand
-- between separators or the text's ends, are not empty, and have no separators, which are line
-- ends, commas and white space.
pub parse_broker_candidates-IsCandidateList :
    (new_url : String → Option Url) (raw : String)
    → IsCandidateList new_url raw (parse_broker_candidates new_url raw)
unfolding parse_broker_candidates
parse_broker_candidates-IsCandidateList new_url raw =
    let parts = split_runs is_separator false "" raw in
    let r =
      add_unseen-IsUnion (IsTyped new_url raw) [] (normalized new_url parts) tt tt
        (normalized-All new_url (IsTyped new_url raw) parts (normalize-eq-some new_url raw)) in
    record {
      distinct = r.distinct;
      typed = r.sound;
      complete = λ u (part, i, e, w).
          let placed = split_runs-IsPart raw part i in
          let read = eq-some-normalize new_url raw part u i e w in
          r.new u.href (u, In-normalized new_url part u parts placed read, refl);
    }
