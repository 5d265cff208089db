-- ===== src/Client/Graph/Layout/Places.antt =====
-- topologyGraphModel.js: the angles, the radii and the rows of the graph.
use io_t_midterm_availabilit.Base.{
  ℕ, suc, ◌+◌, ◌-◌, ◌*◌, ◌/◌, ◌%◌, ◌^◌, ◌<◌, ◌≤◌, ltb, not, ◌==◌, ℤ, pos, negsuc, String, ◌≡◌, refl,
  sym, ap, ◌∙◌, ◌⊎◌, inl, inr, Bool, true, false, arith, if◌then◌else◌, pos_part, neg_part,
  Bool-cases,
}
use io_t_midterm_availabilit.Client.Graph.Layout.{
  stable_hash, stable_hash_from, add_shifted, edge_slot_angle, next_hash, Position, at, around,
  directed, core_place, edge_place,
}

stable_hash_from_lt : (h : ℕ) (s : String) → h < 2 ^ 32 → stable_hash_from h s < 2 ^ 32
unfolding stable_hash_from
stable_hash_from_lt h String.[] lt = lt
stable_hash_from_lt h (String.◌∷◌ c s) lt = stable_hash_from_lt (next_hash h c) s (omega arith)

-- stableHash yields 32 bits.
stable_hash_lt : (s : String) → stable_hash s < 2 ^ 32
unfolding stable_hash
stable_hash_lt s = stable_hash_from_lt 2166136261 s (omega arith)

abbrev slot_at : ℕ → ℕ
slot_at angle =
    if ltb angle 34
    then 0
    else if ltb angle 46
    then 6
    else if ltb angle 58
    then 1
    else if ltb angle 70
    then 7
    else if ltb angle 82
    then 2
    else if ltb angle 98
    then 8
    else if ltb angle 110
    then 3
    else if ltb angle 122
    then 9
    else if ltb angle 134
    then 4
    else if ltb angle 146
    then 10
    else 5

slot_at-edge_slot_angle :
    (slot jitter : ℕ) → slot < 11 → jitter < 12 → slot_at (edge_slot_angle slot + jitter - 6) ≡ slot
unfolding edge_slot_angle
slot_at-edge_slot_angle slot jitter lt small = ground arith

edge_slot_angle_near : (slot : ℕ) → (28 ≤ edge_slot_angle slot) × (edge_slot_angle slot ≤ 152)
unfolding edge_slot_angle
edge_slot_angle_near slot = ground arith

add_shifted_near : (n h : ℕ) → 23 ≤ n → (add_shifted n h ≤ n + 23) × (n ≤ add_shifted n h + 23)
unfolding add_shifted
add_shifted_near n h large = ground arith

abbrev angle_of : Position → ℕ
angle_of (at x y) = 0
angle_of (around angle radius) = angle

abbrev radius_of : Position → ℕ
radius_of (at x y) = 0
radius_of (around angle radius) = radius

abbrev x_of : Position → ℤ
x_of (at x y) = x
x_of (around angle radius) = pos 0

abbrev base : ℕ → Bool → ℕ
base ring offline = 230 + ring * 112 + (if offline then 42 else 0)

same_ring :
    (r s a b : ℕ) (p q : Bool)
    → (a ≤ base r p + 23) × (base r p ≤ a + 23)
    → (b ≤ base s q + 23) × (base s q ≤ b + 23)
    → a ≡ b
    → r ≡ s
same_ring r s a b p q near_a near_b e = ground (arith, near_a.0, near_a.1, near_b.0, near_b.1)

-- The slots keep the angles of one ring apart, and the rings are further apart than the radii of
-- one ring.
pub edge_place_injective : (i j h k : ℕ) (p q : Bool) → edge_place i h p ≡ edge_place j k q → i ≡ j
unfolding edge_place
edge_place_injective i j h k p q e =
    let slots : i % 11 ≡ j % 11 =
      sym (slot_at-edge_slot_angle (i % 11) (h % 12) (omega arith) (omega arith))
      ∙ ap slot_at (ap angle_of e)
      ∙ slot_at-edge_slot_angle (j % 11) (k % 12) (omega arith) (omega arith) in
    let rings : i / 11 ≡ j / 11 =
      same_ring (i / 11) (j / 11) _ _ p q (add_shifted_near (base (i / 11) p) h (omega arith))
        (add_shifted_near (base (j / 11) q) k (omega arith)) (ap radius_of e) in
    omega (arith, slots, rings)

-- Two directed distances that are equal and not 0.
directed_injective :
    (p q : Bool) (m n : ℕ) → 0 < m → 0 < n → directed p m ≡ directed q n → (p ≡ q) × (m ≡ n)
directed_injective true true m n mp np e = (refl, ap pos_part e)
directed_injective true false m (suc n) mp np e = ground arith
directed_injective false true (suc m) n mp np e = ground arith
directed_injective false false (suc m) (suc n) mp np e = (refl, ap neg_part e)
directed_injective _ _ m n mp np e = ground arith

abbrev wide : ℕ → ℕ
wide n = if n == 0 then 80 else 80 + 140 * n

pub core_place_injective : (i j : ℕ) → core_place i ≡ core_place j → i ≡ j
unfolding core_place
core_place_injective i j e =
    let (side, far) =
      directed_injective (not (i % 2 == 0)) (not (j % 2 == 0)) (wide (i / 2)) (wide (j / 2))
        (ground arith) (ground arith) (ap x_of e) in
    ground arith

-- The place is one of the ring.
abbrev pub is_ring : Position → Bool
is_ring (at x y) = false
is_ring (around angle radius) = true

-- A core is in one of two rows, the lower one at y = -118. An edge is below the anchor, whose y is
-- -110, at an angle whose sine is positive, and away from it.
abbrev pub IsApart : Position → Type 0
IsApart (at x y) = (y ≡ negsuc 149) ⊎ (y ≡ negsuc 117)
IsApart (around angle radius) = (22 ≤ angle) × (angle ≤ 157) × (207 ≤ radius)

pub core_place-IsApart : (i : ℕ) → IsApart (core_place i)
unfolding core_place
core_place-IsApart i = elim (Bool-cases (i / 2 == 0)) [
  | inl e ↦ rw e (inl refl)
  | inr e ↦ rw e (inr refl)
]

pub edge_place-IsApart : (i h : ℕ) (offline : Bool) → IsApart (edge_place i h offline)
unfolding edge_place
edge_place-IsApart i h offline =
    let angle = edge_slot_angle_near (i % 11) in
    let radius = add_shifted_near (base (i / 11) offline) h (omega arith) in
    (omega (arith, angle.0), omega (arith, angle.1), ground (arith, radius.1))
