-- ===== src/Base/Compare.antt =====
-- What a comparator answers, and the laws that a sort asks of it.
use mathlib.Core.Path.{◌≡◌, refl, sym, ◌∙◌, ap, ap₂, subst}
use mathlib.Core.Bool.{Bool, true, false}
use native.Mathlib.Omega.{arith}

-- The sign of a comparator's answer; `equal` is 0 and NaN.
pub data Comparison : Type 0 where
  before equal after : Comparison

abbrev pub flip : Comparison → Comparison
flip before = after
flip equal = equal
flip after = before

abbrev pub is_after : Comparison → Bool
is_after after = true
is_after _ = false

-- The first comparison that decides: `if (order !== 0) return order;`
infixr 40 ◌then_by◌
abbrev pub ◌then_by◌ : Comparison → Comparison → Comparison
before then_by d = before
equal then_by d = d
after then_by d = after

abbrev pub AtMost : Comparison → Type 0
AtMost c = is_after c ≡ false

-- A comparator that orders the elements with `P`: the two ways agree, and it is transitive.
pub record IsOrder {ℓ} {A : Type ℓ} (P : A → Type 0) (cmp : A → A → Comparison) : Type ℓ where
  pub flips : (a b : A) → P a → P b → cmp b a ≡ flip (cmp a b)
  pub trans : (a b c : A) → P a → P b → P c → AtMost (cmp a b) → AtMost (cmp b c) → AtMost (cmp a c)

pub flip-then_by : (c d : Comparison) → flip (c then_by d) ≡ flip c then_by flip d
flip-then_by before d = refl
flip-then_by equal d = refl
flip-then_by after d = refl

-- Two transitive triangles, one deciding before the other, make a transitive triangle.
then_by_trans :
    (x y z dx dy dz : Comparison)
    → (AtMost x → AtMost y → AtMost z)
    → (AtMost y → AtMost (flip z) → AtMost (flip x))
    → (AtMost (flip z) → AtMost x → AtMost (flip y))
    → (AtMost dx → AtMost dy → AtMost dz)
    → AtMost (x then_by dx)
    → AtMost (y then_by dy)
    → AtMost (z then_by dz)
then_by_trans after y z dx dy dz h k m d p q = cc
then_by_trans before after z dx dy dz h k m d p q = cc
then_by_trans equal after z dx dy dz h k m d p q = cc
then_by_trans before before before dx dy dz h k m d p q = refl
then_by_trans before before equal dx dy dz h k m d p q = ground (arith, k refl refl)
then_by_trans before before after dx dy dz h k m d p q = h refl refl
then_by_trans before equal before dx dy dz h k m d p q = refl
then_by_trans before equal equal dx dy dz h k m d p q = ground (arith, k refl refl)
then_by_trans before equal after dx dy dz h k m d p q = h refl refl
then_by_trans equal before before dx dy dz h k m d p q = refl
then_by_trans equal before equal dx dy dz h k m d p q = ground (arith, m refl refl)
then_by_trans equal before after dx dy dz h k m d p q = h refl refl
then_by_trans equal equal before dx dy dz h k m d p q = refl
then_by_trans equal equal equal dx dy dz h k m d p q = d p q
then_by_trans equal equal after dx dy dz h k m d p q = h refl refl

module _ {ℓ} {A : Type ℓ} {P : A → Type 0} where
  pub then_by-IsOrder :
      (c d : A → A → Comparison)
      → IsOrder P c
      → IsOrder P d
      → IsOrder P (λ a b. c a b then_by d a b)
  then_by-IsOrder c d oc od = record {
    flips = λ a b pa pb.
        ap₂ (λ x y. x then_by y) (oc.flips a b pa pb) (od.flips a b pa pb)
        ∙ sym (flip-then_by (c a b) (d a b));
    trans = λ x y z px py pz p q.
        then_by_trans (c x y) (c y z) (c x z) (d x y) (d y z) (d x z) (oc.trans x y z px py pz)
          (λ u v.
            subst AtMost (oc.flips x y px py)
              (oc.trans y z x py pz px u (subst AtMost (sym (oc.flips x z px pz)) v)))
          (λ u v.
            subst AtMost (oc.flips y z py pz)
              (oc.trans z x y pz px py (subst AtMost (sym (oc.flips x z px pz)) u) v))
          (od.trans x y z px py pz) p q;
  }

  -- Elements ordered by a key.
  pub on-IsOrder {κ} :
      {B : Type κ} {Q : B → Type 0} (key : A → B) (c : B → B → Comparison)
      → ((a : A) → P a → Q (key a))
      → IsOrder Q c
      → IsOrder P (λ a b. c (key a) (key b))
  on-IsOrder key c h o = record {
    flips = λ a b pa pb. o.flips (key a) (key b) (h a pa) (h b pb);
    trans = λ x y z px py pz. o.trans (key x) (key y) (key z) (h x px) (h y py) (h z pz);
  }

  -- A comparator that agrees with an order on the elements with `P`.
  pub agreeing-IsOrder :
      (c d : A → A → Comparison)
      → ((a b : A) → P a → P b → c a b ≡ d a b)
      → IsOrder P d
      → IsOrder P c
  agreeing-IsOrder c d e o = record {
    flips = λ a b pa pb. e b a pb pa ∙ o.flips a b pa pb ∙ ap flip (sym (e a b pa pb));
    trans = λ x y z px py pz p q.
        subst AtMost (sym (e x z px pz))
          (o.trans x y z px py pz (subst AtMost (e x y px py) p) (subst AtMost (e y z py pz) q));
  }
