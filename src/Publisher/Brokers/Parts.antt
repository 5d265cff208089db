-- ===== src/Publisher/Brokers/Parts.antt =====
-- failover.js: `split(/[\n,\s]+/)` gives the parts of a text between its separators.
use Prim.Native.Char.{Char, code}
use io_t_midterm_availabilit.Base.{
  ℕ, String, ◌≡◌, ◌≢◌, refl, sym, ap, ◌∙◌, subst, ◌⊎◌, inl, inr, Bool, true, false, ◌||◌, ◌==◌,
  Bool-cases, In, here, there, In-cons,
}
use io_t_midterm_availabilit.Js.Text.{is_space, split_runs, ◌<>◌}
use io_t_midterm_availabilit.Js.Scan.{Without, joined_nil, joined_cons, append_empty, append_assoc}
use io_t_midterm_availabilit.Publisher.Brokers.{is_separator}

-- A character that separates: a line end, a comma, or white space.
abbrev pub separates : ℕ → Bool
separates c = c == 10 || c == 44 || is_space c

-- Nothing, or a text that ends, or starts, with a separator.
abbrev pub EndsClosed : String → Type 0
EndsClosed String.[] = Unit
EndsClosed (String.◌∷◌ c String.[]) = separates (code c) ≡ true
EndsClosed (String.◌∷◌ c (String.◌∷◌ d s)) = EndsClosed (String.◌∷◌ d s)

abbrev pub StartsClosed : String → Type 0
StartsClosed String.[] = Unit
StartsClosed (String.◌∷◌ c s) = separates (code c) ≡ true

-- A part of the text: not empty, without separators, and between separators or the text's ends.
pub record IsPart (raw part : String) : Type 0 where
  pub before : String
  pub after : String
  pub split : raw ≡ before <> (part <> after)
  pub opened : EndsClosed before
  pub closed : StartsClosed after
  pub whole : Without separates part
  pub filled : part ≢ ""

-- A character at the end of one text or at the start of the next.
shift :
    (cur : String) (c : Char) (s : String) → (cur <> String.◌∷◌ c "") <> s ≡ cur <> String.◌∷◌ c s
shift cur c s =
    append_assoc cur (String.◌∷◌ c "") s
    ∙ ap (λ x. cur <> x) (joined_cons c "" s ∙ ap (String.◌∷◌ c) (joined_nil s))

-- The part that is being read, up to the next separator.
In-split_runs_current :
    (cur p post : String)
    → Without separates p
    → StartsClosed post
    → In (cur <> p) (split_runs is_separator false cur (p <> post))
unfolding split_runs
In-split_runs_current cur String.[] String.[] w h = rw (append_empty cur) here
In-split_runs_current cur String.[] (String.◌∷◌ c s) w h =
    rw (append_empty cur, joined_nil (String.◌∷◌ c s)) (rw h here)
In-split_runs_current cur (String.◌∷◌ c p) post w h = rw (joined_cons c p post) (
    rw w.0 (
      subst (λ x. In x (split_runs is_separator false (cur <> String.◌∷◌ c "") (p <> post)))
        (shift cur c p) (In-split_runs_current (cur <> String.◌∷◌ c "") p post w.1 h)))

In-split_runs_next :
    (c : Char) (p post : String)
    → Without separates (String.◌∷◌ c p)
    → StartsClosed post
    → In (String.◌∷◌ c p) (split_runs is_separator true "" (String.◌∷◌ c p <> post))
unfolding split_runs
In-split_runs_next c p post w h = rw (joined_cons c p post) (
    rw w.0 (
      subst (λ x. In x (split_runs is_separator false ("" <> String.◌∷◌ c "") (p <> post)))
        (shift "" c p ∙ joined_nil (String.◌∷◌ c p))
        (In-split_runs_current ("" <> String.◌∷◌ c "") p post w.1 h)))

-- The text after a separator is read with nothing gathered.
abbrev IsFresh : Bool → String → Type 0
IsFresh true cur = cur ≡ ""
IsFresh false cur = Unit

-- One separator.
In-split_runs_separator :
    (x : String) (in_run : Bool) (cur : String) (c : Char) (s : String)
    → separates (code c) ≡ true
    → IsFresh in_run cur
    → In x (split_runs is_separator true "" s)
    → In x (split_runs is_separator in_run cur (String.◌∷◌ c s))
unfolding split_runs
In-split_runs_separator x true cur c s h fresh i = rw (h, fresh) i
In-split_runs_separator x false cur c s h fresh i = rw h (there i)

-- One character of a part.
In-split_runs_letter :
    (x : String) (in_run : Bool) (cur : String) (c : Char) (s : String)
    → separates (code c) ≡ false
    → In x (split_runs is_separator false (cur <> String.◌∷◌ c "") s)
    → In x (split_runs is_separator in_run cur (String.◌∷◌ c s))
unfolding split_runs
In-split_runs_letter x in_run cur c s h i = rw h i

In-split_runs_after :
    (in_run : Bool) (cur : String) (c : Char) (before : String) (d : Char) (p post : String)
    → IsFresh in_run cur
    → EndsClosed (String.◌∷◌ c before)
    → Without separates (String.◌∷◌ d p)
    → StartsClosed post
    → In
        (String.◌∷◌ d p)
        (split_runs is_separator in_run cur (String.◌∷◌ c before <> (String.◌∷◌ d p <> post)))
In-split_runs_after in_run cur c String.[] d p post fresh e w h =
    rw (joined_cons c "" (String.◌∷◌ d p <> post), joined_nil (String.◌∷◌ d p <> post))
      (In-split_runs_separator (String.◌∷◌ d p) in_run cur c (String.◌∷◌ d p <> post) e fresh
        (In-split_runs_next d p post w h))
In-split_runs_after in_run cur c (String.◌∷◌ b before) d p post fresh e w h =
    let s = String.◌∷◌ b before <> (String.◌∷◌ d p <> post) in
    rw (joined_cons c (String.◌∷◌ b before) (String.◌∷◌ d p <> post))
      (elim (Bool-cases (separates (code c))) [
        | inl q ↦
            In-split_runs_separator (String.◌∷◌ d p) in_run cur c s q fresh
              (In-split_runs_after true "" b before d p post refl e w h)
        | inr q ↦
            In-split_runs_letter (String.◌∷◌ d p) in_run cur c s q
              (In-split_runs_after false (cur <> String.◌∷◌ c "") b before d p post tt e w h)
      ])

pub split_runs-IsPart :
    (raw part : String) → IsPart raw part → In part (split_runs is_separator false "" raw)
split_runs-IsPart raw part r =
    rw r.split (placed part r.before r.after r.opened r.closed r.whole r.filled)
  where
    placed :
        (x before after : String)
        → EndsClosed before
        → StartsClosed after
        → Without separates x
        → x ≢ ""
        → In x (split_runs is_separator false "" (before <> (x <> after)))
    placed String.[] before after e h w f = absurd (f refl)
    placed (String.◌∷◌ d p) String.[] after e h w f = rw (joined_nil (String.◌∷◌ d p <> after)) (
        subst (λ y. In y (split_runs is_separator false "" (String.◌∷◌ d p <> after)))
          (joined_nil (String.◌∷◌ d p)) (In-split_runs_current "" (String.◌∷◌ d p) after w h))
    placed (String.◌∷◌ d p) (String.◌∷◌ c before) after e h w f =
        In-split_runs_after false "" c before d p after tt e w h

-- What is found: the part that is being read, or one behind a separator.
abbrev Current : String → String → String → Type 0
Current cur s x =
    (p : String) × (post : String) × (x ≡ cur <> p)
    × (s ≡ p <> post)
    × Without separates p
    × StartsClosed post

abbrev Later : String → String → Type 0
Later s x =
    (c : Char) × (before : String) × (post : String) × (s ≡ String.◌∷◌ c before <> (x <> post))
    × EndsClosed (String.◌∷◌ c before)
    × Without separates x
    × StartsClosed post

Later-cons : (c : Char) (s x : String) → Later s x → Later (String.◌∷◌ c s) x
Later-cons c s x (b, before, post, e, o, w, h) = (
  c,
  String.◌∷◌ b before,
  post,
  ap (String.◌∷◌ c) e ∙ sym (joined_cons c (String.◌∷◌ b before) (x <> post)),
  o,
  w,
  h,
)

-- What is read after a separator stands behind it.
after_separator :
    (c : Char) (s x : String)
    → separates (code c) ≡ true
    → Current "" s x ⊎ Later s x
    → Later (String.◌∷◌ c s) x
after_separator c s x h (inl (p, post, e, f, w, k)) =
    let same : x ≡ p = e ∙ joined_nil p in
    (
      c,
      "",
      post,
      ap (String.◌∷◌ c) (f ∙ ap (λ y. y <> post) (sym same))
          ∙ sym (joined_cons c "" (x <> post) ∙ ap (String.◌∷◌ c) (joined_nil (x <> post))),
      h,
      subst (Without separates) (sym same) w,
      k,
    )
after_separator c s x h (inr later) = Later-cons c s x later

after_letter :
    (c : Char) (cur s x : String)
    → separates (code c) ≡ false
    → Current (cur <> String.◌∷◌ c "") s x ⊎ Later s x
    → Current cur (String.◌∷◌ c s) x ⊎ Later (String.◌∷◌ c s) x
after_letter c cur s x h (inl (p, post, e, f, w, k)) = inl (
  String.◌∷◌ c p,
  post,
  e ∙ shift cur c p,
  ap (String.◌∷◌ c) f ∙ sym (joined_cons c p post),
  (h, w),
  k,
)
after_letter c cur s x h (inr later) = inr (Later-cons c s x later)

split_runs-cases :
    (in_run : Bool) (cur s x : String)
    → IsFresh in_run cur
    → In x (split_runs is_separator in_run cur s)
    → Current cur s x ⊎ Later s x
unfolding split_runs
split_runs-cases in_run cur String.[] x fresh i = elim (In-cons i) [
  | inl same ↦ inl ("", "", same ∙ sym (append_empty cur), refl, tt, tt)
  | inr j ↦ elim j [ ]
]
split_runs-cases true cur (String.◌∷◌ c s) x fresh i = elim (Bool-cases (separates (code c))) [
  | inl q ↦ inr (
      after_separator c s x q (
        split_runs-cases true "" s x refl
          (subst (λ y. In x (split_runs is_separator true y s)) fresh (subst (In x) (rw q) i))))
  | inr q ↦
      after_letter c cur s x q
        (split_runs-cases false (cur <> String.◌∷◌ c "") s x tt (subst (In x) (rw q) i))
]
split_runs-cases false cur (String.◌∷◌ c s) x fresh i = elim (Bool-cases (separates (code c))) [
  | inl q ↦ elim (In-cons (subst (In x) (rw q) i)) [
    | inl same ↦ inl (
      "",
      String.◌∷◌ c s,
      same ∙ sym (append_empty cur),
      sym (joined_nil (String.◌∷◌ c s)),
      tt,
      q,
    )
    | inr j ↦ inr (after_separator c s x q (split_runs-cases true "" s x refl j))
  ]
  | inr q ↦
      after_letter c cur s x q
        (split_runs-cases false (cur <> String.◌∷◌ c "") s x tt (subst (In x) (rw q) i))
]

pub split_runs-In :
    (raw part : String)
    → In part (split_runs is_separator false "" raw)
    → part ≢ ""
    → IsPart raw part
split_runs-In raw part i f = elim (split_runs-cases false "" raw part tt i) [
  | inl (p, post, e, g, w, k) ↦
      let same : part ≡ p = e ∙ joined_nil p in
      record {
        before = "";
        after = post;
        split = g ∙ ap (λ y. y <> post) (sym same) ∙ sym (joined_nil (part <> post));
        opened = tt;
        closed = k;
        whole = subst (Without separates) (sym same) w;
        filled = f;
      }
  | inr (c, before, post, e, o, w, k) ↦ record {
    before = String.◌∷◌ c before;
    after = post;
    split = e;
    opened = o;
    closed = k;
    whole = w;
    filled = f;
  }
]
