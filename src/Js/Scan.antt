-- ===== src/Js/Scan.antt =====
-- Searching and cutting texts at a character, and what these do around a character that was put in.
use Prim.Native.Char.{Char, code}
use Prim.Native.String.append.{nil as append_nil, cons as append_cons}
use io_t_midterm_availabilit.Base.{
  ℕ, zero, suc, String, ◌≡◌, refl, ap, ◌∙◌, Bool, true, false, Option, none, some, ◌==◌,
  if◌then◌else◌,
}
use io_t_midterm_availabilit.Js.Text.{is_space, trim_start, trim_end, trim, ◌<>◌}

abbrev shifted : Option ℕ → Option ℕ
shifted none = none
shifted (some i) = some (suc i)

-- `indexOf` and `lastIndexOf` with one character; `none` is -1.
unfoldable pub index_of : ℕ → String → Option ℕ
index_of k String.[] = none
index_of k (String.◌∷◌ c s) =
    let rest = index_of k s in if code c == k then some 0 else shifted rest

abbrev or_here : Bool → Option ℕ → Option ℕ
or_here b (some i) = some (suc i)
or_here b none = if b then some 0 else none

unfoldable pub last_index_of : ℕ → String → Option ℕ
last_index_of k String.[] = none
last_index_of k (String.◌∷◌ c s) = or_here (code c == k) (last_index_of k s)

-- `slice(0, n)` and `slice(n)`
unfoldable pub slice_to : ℕ → String → String
slice_to zero s = ""
slice_to (suc n) String.[] = ""
slice_to (suc n) (String.◌∷◌ c s) = String.◌∷◌ c (slice_to n s)

unfoldable pub slice_from : ℕ → String → String
slice_from zero s = s
slice_from (suc n) String.[] = ""
slice_from (suc n) (String.◌∷◌ c s) = slice_from n s

unfoldable pub starts_with : ℕ → String → Bool
starts_with k String.[] = false
starts_with k (String.◌∷◌ c s) = code c == k

unfoldable pub ends_with : ℕ → String → Bool
ends_with k String.[] = false
ends_with k (String.◌∷◌ c String.[]) = code c == k
ends_with k (String.◌∷◌ c (String.◌∷◌ d s)) = ends_with k (String.◌∷◌ d s)

unfoldable pub includes : ℕ → String → Bool
includes k String.[] = false
includes k (String.◌∷◌ c s) = let rest = includes k s in if code c == k then true else rest

unfoldable pub size : String → ℕ
size String.[] = 0
size (String.◌∷◌ c s) = suc (size s)

-- No character of the text passes the test.
abbrev pub Without : (ℕ → Bool) → String → Type 0
Without p String.[] = Unit {0}
Without p (String.◌∷◌ c s) = (p (code c) ≡ false) × Without p s

pub trim-eq : (s : String) → Without is_space s → trim s ≡ s
unfolding trim trim_start trim_end
trim-eq s w = rw (starts s w) (ends s w)
  where
    starts : (s : String) → Without is_space s → trim_start s ≡ s
    starts String.[] w = refl
    starts (String.◌∷◌ c s) w = rw w.0 refl

    ends : (s : String) → Without is_space s → trim_end s ≡ s
    ends String.[] w = refl
    ends (String.◌∷◌ c String.[]) w = rw w.0 refl
    ends (String.◌∷◌ c (String.◌∷◌ d s)) w = rw (ends (String.◌∷◌ d s) w.1) refl

pub joined_nil : (t : String) → "" <> t ≡ t
joined_nil = append_nil

pub joined_cons : (c : Char) (s t : String) → String.◌∷◌ c s <> t ≡ String.◌∷◌ c (s <> t)
joined_cons = append_cons

pub append_empty : (s : String) → s <> "" ≡ s
append_empty String.[] = joined_nil ""
append_empty (String.◌∷◌ c s) = joined_cons c s "" ∙ ap (String.◌∷◌ c) (append_empty s)

pub append_assoc : (a b c : String) → (a <> b) <> c ≡ a <> (b <> c)
append_assoc String.[] b c = rw (joined_nil b, joined_nil (b <> c)) refl
append_assoc (String.◌∷◌ x a) b c =
    rw (joined_cons x a b, joined_cons x (a <> b) c, joined_cons x a (b <> c), append_assoc a b c)
      refl

pub Without-append : (p : ℕ → Bool) (a b : String) → Without p a → Without p b → Without p (a <> b)
Without-append p String.[] b u v = rw (joined_nil b) v
Without-append p (String.◌∷◌ c a) b u v = rw (joined_cons c a b) (u.0, Without-append p a b u.1 v)

last_index_of-none : (k : ℕ) (b : String) → Without (λ d. d == k) b → last_index_of k b ≡ none
unfolding last_index_of
last_index_of-none k String.[] w = refl
last_index_of-none k (String.◌∷◌ d b) w = rw (last_index_of-none k b w.1, w.0) refl

module _ (k : ℕ) (c : Char) (found : (code c == k) ≡ true) where
  pub index_of-append :
      (a b : String) → Without (λ d. d == k) a → index_of k (a <> String.◌∷◌ c b) ≡ some (size a)
  unfolding index_of size
  index_of-append String.[] b w = rw (joined_nil (String.◌∷◌ c b), found) refl
  index_of-append (String.◌∷◌ d a) b w =
      rw (joined_cons d a (String.◌∷◌ c b), w.0, index_of-append a b w.1) refl

  pub last_index_of-append :
      (a b : String)
      → Without (λ d. d == k) b
      → last_index_of k (a <> String.◌∷◌ c b) ≡ some (size a)
  unfolding last_index_of size
  last_index_of-append String.[] b w =
      rw (joined_nil (String.◌∷◌ c b), last_index_of-none k b w, found) refl
  last_index_of-append (String.◌∷◌ d a) b w =
      rw (joined_cons d a (String.◌∷◌ c b), last_index_of-append a b w) refl

pub slice_to-append : (a b : String) → slice_to (size a) (a <> b) ≡ a
unfolding slice_to size
slice_to-append String.[] b = refl
slice_to-append (String.◌∷◌ c a) b = rw (joined_cons c a b, slice_to-append a b) refl

pub slice_from-append :
    (c : Char) (a b : String) → slice_from (suc (size a)) (a <> String.◌∷◌ c b) ≡ b
unfolding slice_from size
slice_from-append c String.[] b = rw (joined_nil (String.◌∷◌ c b)) refl
slice_from-append c (String.◌∷◌ d a) b =
    rw (joined_cons d a (String.◌∷◌ c b)) (slice_from-append c a b)

-- `startsWith(prefix)` and `slice(prefix.length)`: the text behind a prefix.
unfoldable pub behind : String → String → Option String
behind String.[] s = some s
behind (String.◌∷◌ c p) String.[] = none
behind (String.◌∷◌ c p) (String.◌∷◌ d s) =
    let rest = behind p s in if code c == code d then rest else none

-- `split(sep).pop()`
abbrev after_index : String → Option ℕ → String
after_index s none = s
after_index s (some i) = slice_from (suc i) s

unfoldable pub last_part : ℕ → String → String
last_part k s = after_index s (last_index_of k s)
