-- ===== src/Publisher/Camera.antt =====
-- publisher_client/src/components/CameraView.jsx: the motion detector. The browser's camera, video
-- and canvas are outside: whether access was granted, and the pixels of a frame, come as events.
use io_t_midterm_availabilit.Base.{
  ℕ, suc, ◌+◌, ◌-◌, ◌*◌, ltb, Bool, true, false, ◌&&◌, Option, none, some, List, ◌∷◌, if◌then◌else◌,
}
use io_t_midterm_availabilit.Js.Number.{Number, num_ltb}

-- PIXEL_DIFF, and the pixels of a frame: CANVAS_W * CANVAS_H.
abbrev pub pixel_diff : ℕ
pixel_diff = 30

abbrev pub total : ℕ
total = 320 * 240

pub data CamStatus : Type 0 where
  idle active denied : CamStatus

-- `Math.abs(a - b)`
abbrev distance : ℕ → ℕ → ℕ
distance a b = (a - b) + (b - a)

-- The loop over the pixels, of four bytes each; the fourth, for opacity, is not read.
unfoldable pub changed_pixels : List ℕ → List ℕ → ℕ
changed_pixels (r ∷ g ∷ b ∷ a ∷ curr) (s ∷ h ∷ c ∷ d ∷ prev) =
    let rest = changed_pixels curr prev in
    if ltb pixel_diff (distance r s + distance g h + distance b c) then suc rest else rest
changed_pixels _ _ = 0

pub record Camera : Type 0 where
  pub status : CamStatus
  pub prev_data : Option (List ℕ)
  pub is_sampling : Bool

-- The callback gets the percentage; `percent` is the double `changed / total * 100`.
abbrev compared : (ℕ → Number) → Number → Option (List ℕ) → List ℕ → Option Number
compared percent sensitivity none curr = none
compared percent sensitivity (some prev) curr =
    let pct = percent (changed_pixels curr prev) in
    if num_ltb sensitivity pct then some pct else none

-- Access was granted or not, the camera is stopped, the effect runs for a value of `enabled`, and
-- the timer of the sampling fires, with the frame if the video has one.
pub data CameraEvent : Type 0 where
  starts : (granted : Bool) → CameraEvent
  stops : CameraEvent
  effect_runs : (enabled : Bool) → CameraEvent
  samples : Option (List ℕ) → CameraEvent

abbrev is_active : CamStatus → Bool
is_active active = true
is_active _ = false

module _ (percent : ℕ → Number) (sensitivity : Number) where
  abbrev sample : Option (List ℕ) → Camera → Camera × Option Number
  sample none c = (c, none)
  sample (some curr) c =
      (record c { prev_data = some curr }, compared percent sensitivity c.prev_data curr)

  -- A step of the camera, with the percentage that the callback gets, if it is called.
  unfoldable pub camera_step : Camera → CameraEvent → Camera × Option Number
  unfolding changed_pixels num_ltb
  camera_step c (starts granted) = (record c { status = if granted then active else denied }, none)
  camera_step c stops = (record c { status = idle; prev_data = none }, none)
  camera_step c (effect_runs enabled) =
      (record c { is_sampling = enabled && is_active c.status }, none)
  camera_step c (samples frame) = if c.is_sampling then sample frame c else (c, none)
