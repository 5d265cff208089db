-- ===== src/Publisher/Panel/Tests.antt =====
-- Concrete motions and frames.
use io_t_midterm_availabilit.Base.{
  ℕ, String, Option, List, filter, ◌≡◌, refl, true, none, some, [], ◌∷◌, In, pos,
}
use io_t_midterm_availabilit.Js.Number.{fin, num_ltb}
use io_t_midterm_availabilit.Publisher.Panel.{
  Panel, initial_panel, Motion, handle_motions, args, handle_motion, handle_manual,
}
use io_t_midterm_availabilit.Publisher.Panel.Actions.{
  Action, detect, set_detection, type_camera, click_manual, door_forced, is_watching, panel_step,
  run_panel,
}
use io_t_midterm_availabilit.Publisher.Panel.Runs.{is_automatic, watched, run_panel-IsCooled}
use io_t_midterm_availabilit.Publisher.Hook.State.{State, initial, connected}
use io_t_midterm_availabilit.Publisher.Hook.Step.{user_publishes}
use io_t_midterm_availabilit.Js.Url.{Url}
use io_t_midterm_availabilit.Publisher.Panel.Spaced.{IsSpaced, IsCovered, handle_motions_lem}
use io_t_midterm_availabilit.Publisher.Camera.{
  Camera, active, changed_pixels, camera_step, samples, stops,
}

abbrev panel : Panel
panel = initial_panel "p"

abbrev motion : ℕ → Motion
motion t = record { now = t; uuid = "u"; stamp = "s" }

IsSpaced-motions : IsSpaced 0 (handle_motions panel (motion 4000 ∷ motion 5000 ∷ motion 7000 ∷ []))
IsSpaced-motions = (handle_motions_lem panel (motion 4000 ∷ motion 5000 ∷ motion 7000 ∷ [])).0

abbrev linked : State
linked = record initial { status = connected }

-- A motion before the detector is switched on, and a click on a button within the cooldown.
abbrev steps : List (State × Action)
steps =
    (linked, detect (motion 3500))
    ∷ (linked, set_detection true)
    ∷ (linked, detect (motion 4000))
    ∷ (linked, type_camera "cam-02")
    ∷ (linked, click_manual door_forced (motion 4500))
    ∷ (linked, detect (motion 5000))
    ∷ (linked, detect (motion 7000))
    ∷ (initial, detect (motion 11000))
    ∷ []

abbrev new_url : String → Option Url
new_url s = none

publishes :
    run_panel new_url panel steps
    ≡ user_publishes (args panel "MOTION" "auto-detect" "u" "s") 4000
      ∷ user_publishes
          (args (record panel { camera_id = "cam-02" }) "DOOR_FORCED" "manual" "u" "s")
          4500
      ∷ user_publishes
          (args (record panel { camera_id = "cam-02" }) "MOTION" "auto-detect" "u" "s")
          7000
      ∷ []
unfolding run_panel panel_step is_watching handle_motion handle_manual
publishes = refl

run_panel-IsCooled_example :
    IsSpaced 0 (filter is_automatic (run_panel new_url panel steps))
    × ((m : Motion)
        → In m (watched new_url panel steps)
        → IsCovered 0 (filter is_automatic (run_panel new_url panel steps)) m.now)
run_panel-IsCooled_example = run_panel-IsCooled new_url panel steps

abbrev camera : Camera
camera = record { status = active; prev_data = some (10 ∷ 10 ∷ 10 ∷ 0 ∷ []); is_sampling = true }

-- A pixel whose colours differ by 31 has changed, by 30 it has not; a stopped camera forgets.
frames :
    (changed_pixels (20 ∷ 20 ∷ 21 ∷ 9 ∷ []) (10 ∷ 10 ∷ 10 ∷ 0 ∷ []) ≡ 1)
    × (changed_pixels (20 ∷ 20 ∷ 20 ∷ 9 ∷ []) (10 ∷ 10 ∷ 10 ∷ 0 ∷ []) ≡ 0)
    × ((camera_step
          (λ n. fin (pos n))
          (fin (pos 0))
          camera
          (samples (some (41 ∷ 10 ∷ 10 ∷ 0 ∷ [])))).1
        ≡ some (fin (pos 1)))
    × ((camera_step (λ n. fin (pos n)) (fin (pos 0)) camera stops).0.prev_data ≡ none)
unfolding changed_pixels camera_step num_ltb
frames = (refl, refl, refl, refl)
