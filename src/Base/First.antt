-- ===== src/Base/First.antt =====
-- What `Array.prototype.find` and `some` answer, in terms of a predicate on the elements.
use mathlib.Core.Path.{◌≡◌, refl, ap, subst}
use mathlib.Core.Bool.{Bool, true, false}
use mathlib.Core.Logic.{◌↔◌, inl, inr}
use mathlib.Core.List.{List, [], ◌∷◌, ◌++◌}
use mathlib.Core.Option.{some}
use native.Mathlib.Omega.{arith}
use io_t_midterm_availabilit.Base.Tests.{Bool-cases}
use io_t_midterm_availabilit.Base.Lists.{find, any, All, In, here, there, In-cons}

-- The first element with the property.
pub record FirstOf {ℓ κ} {A : Type ℓ} (P : A → Type κ) (xs : List A) (x : A) : Type (ℓ ⊔ κ) where
  pub before : List A
  pub after : List A
  pub split : xs ≡ before ++ x ∷ after
  pub others : All (λ y. ¬ P y) before
  pub passes : P x

module _ {ℓ κ} {A : Type ℓ} (p : A → Bool) (P : A → Type κ)
    (meant : (x : A) → (p x ≡ true) ↔ P x) where
  fails : (x : A) → p x ≡ false → ¬ P x
  fails x f q = ground (arith, f, (meant x).1 q)

  passes_not : (x : A) → ¬ P x → p x ≡ false
  passes_not x n = elim (Bool-cases (p x)) [ inl e ↦ absurd (n ((meant x).0 e)) | inr e ↦ e ]

  pub find-FirstOf : (xs : List A) (x : A) → find p xs ≡ some x → FirstOf P xs x
  unfolding find
  find-FirstOf [] x e = cc
  find-FirstOf (y ∷ ys) x e = elim (Bool-cases (p y)) [
    | inl f ↦
        let same : y ≡ x = ground (arith, f, e) in
        record {
          before = [];
          after = ys;
          split = ap (λ z. z ∷ ys) same;
          others = tt;
          passes = subst P same ((meant y).0 f);
        }
    | inr f ↦
        let r = find-FirstOf ys x (rw f at e) in
        record {
          before = y ∷ r.before;
          after = r.after;
          split = ap (λ zs. y ∷ zs) r.split;
          others = (fails y f, r.others);
          passes = r.passes;
        }
  ]

  find-split :
      (before after : List A) (x : A)
      → All (λ y. ¬ P y) before
      → P x
      → find p (before ++ x ∷ after) ≡ some x
  unfolding find
  find-split [] after x a h = rw ((meant x).1 h) refl
  find-split (y ∷ before) after x a h = rw (passes_not y a.0) (find-split before after x a.1 h)

  pub FirstOf-find : (xs : List A) (x : A) → FirstOf P xs x → find p xs ≡ some x
  FirstOf-find xs x f = rw f.split (find-split f.before f.after x f.others f.passes)

  pub any-In : (xs : List A) → any p xs ≡ true → (x : A) × In x xs × P x
  unfolding any
  any-In [] e = ground (arith, e)
  any-In (y ∷ ys) e = elim (Bool-cases (p y)) [
    | inl f ↦ (y, here, (meant y).0 f)
    | inr f ↦ let (x, i, h) = any-In ys (rw f at e) in (x, there i, h)
  ]

  pub In-any : (xs : List A) (x : A) → In x xs → P x → any p xs ≡ true
  unfolding any
  In-any [] x i h = elim i [ ]
  In-any (y ∷ ys) x i h = elim (Bool-cases (p y)) [
    | inl f ↦ rw f refl
    | inr f ↦ elim (In-cons i) [
      | inl same ↦ absurd (fails y f (subst P same h))
      | inr j ↦ rw f (In-any ys x j h)
    ]
  ]
