-- ===== src/Publisher/Panel/Actions.antt =====
-- publisher_client/src/App.jsx: the inputs and the buttons, with what disables them.
use io_t_midterm_availabilit.Base.{
  String, Bool, ◌&&◌, Option, none, some, List, [], ◌∷◌, if◌then◌else◌,
}
use io_t_midterm_availabilit.Js.Number.{Number}
use io_t_midterm_availabilit.Js.Url.{Url}
use io_t_midterm_availabilit.Publisher.Brokers.{parse_broker_candidates}
use io_t_midterm_availabilit.Publisher.Hook.State.{State}
use io_t_midterm_availabilit.Publisher.Hook.Step.{Event}
use io_t_midterm_availabilit.Publisher.Panel.{
  Panel, Motion, is_connected, handle_connect, handle_manual, handle_motion, with_event,
}

-- The kinds of event that have a button.
pub data Manual : Type 0 where
  motion : Manual
  door_forced : Manual
  intrusion : Manual

abbrev manual_type : Manual → String
manual_type motion = "MOTION"
manual_type door_forced = "DOOR_FORCED"
manual_type intrusion = "INTRUSION"

pub data Action : Type 0 where
  type_url : String → Action
  type_building : String → Action
  type_camera : String → Action
  set_detection : Bool → Action
  slide : Number → Action
  click_connect : Action
  click_manual : Manual → Motion → Action
  detect : Motion → Action

-- `enabled` of the camera
unfoldable pub is_watching : State → Panel → Bool
is_watching s p = p.motion_on && is_connected s.status

-- What an action does to the page, and the call of the hook that it makes. An input or a button
-- that is disabled does nothing, and a camera that is not enabled reports no motion.
unfoldable pub panel_step : (String → Option Url) → State → Action → Panel → Panel × Option Event
unfolding is_watching handle_connect handle_manual handle_motion
panel_step new_url s (type_url value) p =
    (if is_connected s.status then p else record p { url_input = value }, none)
panel_step new_url s (type_building value) p = (record p { building_id = value }, none)
panel_step new_url s (type_camera value) p = (record p { camera_id = value }, none)
panel_step new_url s (set_detection on) p =
    (if is_connected s.status then record p { motion_on = on } else p, none)
panel_step new_url s (slide value) p = (record p { sensitivity = value }, none)
panel_step new_url s click_connect p =
    (p, some (handle_connect (parse_broker_candidates new_url p.url_input) s))
panel_step new_url s (click_manual kind m) p = (
  p,
  if is_connected s.status
      then some (handle_manual p (manual_type kind) m.uuid m.stamp m.now)
      else none,
)
panel_step new_url s (detect m) p = if is_watching s p then handle_motion p m else (p, none)

-- The calls of the hook that a sequence of actions makes, each with the state of the hook that the
-- page shows.
unfoldable pub run_panel : (String → Option Url) → Panel → List (State × Action) → List Event
unfolding panel_step
run_panel new_url p [] = []
run_panel new_url p ((s, a) ∷ steps) =
    let next_panel = panel_step new_url s a p in
    with_event next_panel.1 (run_panel new_url next_panel.0 steps)
