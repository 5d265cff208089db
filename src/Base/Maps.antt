-- ===== src/Base/Maps.antt =====
-- Maps with text keys (`Map`, and objects used as one), with the entry that was set last in front.
use Prim.Native.String.{String}
use mathlib.Core.Path.{◌≡◌}
use mathlib.Core.Logic.{◌≢◌, ◌⊎◌, inl, inr}
use mathlib.Core.Option.{Option, none, some}
use mathlib.Core.List.{List, [], ◌∷◌}
use native.Mathlib.Omega.{arith}
use text.Mathlib.Text.{◌==◌ as ◌=ₛ◌}
use text.Mathlib.TextEquality.{eq_iff}
use text.Mathlib.TextPositions.{eq_refl}
use io_t_midterm_availabilit.Base.Tests.{if◌then◌else◌, Bool-cases}

abbrev pub Dict {ℓ} : Type ℓ → Type ℓ
Dict A = List (String × A)

abbrev pub put {ℓ} : {A : Type ℓ} → String → A → Dict A → Dict A
put k a d = (k, a) ∷ d

unfoldable pub lookup {ℓ} : {A : Type ℓ} → String → Dict A → Option A
lookup k [] = none
lookup k ((j, a) ∷ d) = if j =ₛ k then some a else lookup k d

pub lookup-put {ℓ} : {A : Type ℓ} (k : String) (a : A) (d : Dict A) → lookup k (put k a d) ≡ some a
unfolding lookup
lookup-put k a d = ground (arith, eq_refl k)

pub lookup-put_other {ℓ} :
    {A : Type ℓ} (k j : String) (a : A) (d : Dict A) → j ≢ k → lookup k (put j a d) ≡ lookup k d
unfolding lookup
lookup-put_other k j a d ne = ground (arith, eq_iff j k)

-- What is found after an entry was set: this entry or what was there.
pub put-lookup {ℓ} :
    {A : Type ℓ} (k j : String) (a p : A) (d : Dict A)
    → lookup k (put j a d) ≡ some p
    → ((j ≡ k) × (a ≡ p)) ⊎ (lookup k d ≡ some p)
unfolding lookup
put-lookup k j a p d h = elim (Bool-cases (j =ₛ k)) [
  | inl e ↦ inl (ground (arith, eq_iff j k), ground arith)
  | inr e ↦ inr (ground arith)
]
