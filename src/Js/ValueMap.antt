-- ===== src/Js/ValueMap.antt =====
-- `Map` with keys that are values: setting a key that is there keeps its place.
use mathlib.Core.Path.{ap₂}
use io_t_midterm_availabilit.Base.{
  String, ◌≡◌, refl, ap, ◌∙◌, true, false, Option, none, some, List, [], ◌∷◌, arith, eq_refl, inl,
  inr, Bool-cases, if◌then◌else◌,
}
use io_t_midterm_availabilit.Js.Value.{Value, str, strict_eq, strict_eq→eq}

abbrev pub ValueMap {ℓ} : Type ℓ → Type ℓ
ValueMap A = List (Value × A)

unfoldable pub set_value {ℓ} : {A : Type ℓ} → Value → A → ValueMap A → ValueMap A
set_value id n [] = (id, n) ∷ []
set_value id n ((k, m) ∷ rest) =
    let others = set_value id n rest in if strict_eq k id then (k, n) ∷ rest else (k, m) ∷ others

unfoldable pub get_value {ℓ} : {A : Type ℓ} → ValueMap A → Value → Option A
get_value [] id = none
get_value ((k, m) ∷ rest) id = if strict_eq k id then some m else get_value rest id

not_both :
    (id j : Value) (k : String)
    → strict_eq j id ≡ false
    → strict_eq j (str k) ≡ true
    → strict_eq id (str k) ≡ false
not_both id j k e f = elim (Bool-cases (strict_eq id (str k))) [
  | inl g ↦
      let same : strict_eq j id ≡ strict_eq (str k) (str k) =
        ap₂ strict_eq (strict_eq→eq j (str k) f) (strict_eq→eq id (str k) g) in
      ground (arith, same, eq_refl k)
  | inr g ↦ g
]

get_value-set_value {ℓ} :
    {A : Type ℓ} (id : Value) (n : A) (nodes : ValueMap A) (k : String)
    → get_value (set_value id n nodes) (str k)
      ≡ (if strict_eq id (str k) then some n else get_value nodes (str k))
unfolding get_value set_value
get_value-set_value id n [] k = refl
get_value-set_value id n ((j, m) ∷ rest) k = elim (Bool-cases (strict_eq j id)) [
  | inl e ↦
      let same : strict_eq j (str k) ≡ strict_eq id (str k) =
        ap (λ x. strict_eq x (str k)) (strict_eq→eq j id e) in
      rw e (ground (arith, same))
  | inr e ↦ rw e (elim (Bool-cases (strict_eq j (str k))) [
    | inl f ↦ rw f (rw (not_both id j k e f) refl)
    | inr f ↦ rw f (get_value-set_value id n rest k)
  ])
]

pub get_value-set_value_own {ℓ} :
    {A : Type ℓ} (id : Value) (n : A) (nodes : ValueMap A) (k : String)
    → strict_eq id (str k) ≡ true
    → get_value (set_value id n nodes) (str k) ≡ some n
get_value-set_value_own id n nodes k e =
    get_value-set_value id n nodes k ∙ ap (λ b. if b then some n else get_value nodes (str k)) e

pub get_value-set_value_other {ℓ} :
    {A : Type ℓ} (id : Value) (n : A) (nodes : ValueMap A) (k : String)
    → strict_eq id (str k) ≡ false
    → get_value (set_value id n nodes) (str k) ≡ get_value nodes (str k)
get_value-set_value_other id n nodes k e =
    get_value-set_value id n nodes k ∙ ap (λ b. if b then some n else get_value nodes (str k)) e
