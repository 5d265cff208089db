-- ===== src/Publisher/Panel.antt =====
-- publisher_client/src/App.jsx: what the buttons and the motion detector do.
mod Tests
pub mod Actions
pub mod Runs
pub mod Spaced
use io_t_midterm_availabilit.Base.{
  ℕ, ◌+◌, ltb, String, Bool, true, false, Option, none, some, pos, List, [], ◌∷◌, if◌then◌else◌,
}
use io_t_midterm_availabilit.Js.Number.{Number, fin}
use io_t_midterm_availabilit.Js.Url.{Url}
use io_t_midterm_availabilit.Publisher.Message.{Args}
use io_t_midterm_availabilit.Publisher.Hook.State.{
  State, Status, connected, connecting, disconnected, error,
}
use io_t_midterm_availabilit.Publisher.Hook.Step.{
  Event, user_connects, user_disconnects, user_publishes,
}

-- MOTION_COOLDOWN
abbrev pub motion_cooldown : ℕ
motion_cooldown = 3000

-- The inputs of the page and the time of the last motion that was published.
pub record Panel : Type 0 where
  pub publisher_id : String
  pub url_input : String
  pub building_id : String
  pub camera_id : String
  pub motion_on : Bool
  pub sensitivity : Number
  pub last_motion : ℕ

-- The page as it is loaded, with a generated identifier.
abbrev pub initial_panel : String → Panel
initial_panel publisher_id = record {
  publisher_id = publisher_id;
  url_input = "ws://localhost:9001";
  building_id = "building-a";
  camera_id = "cam-01";
  motion_on = false;
  sensitivity = fin (pos 2);
  last_motion = 0;
}

abbrev pub is_connected : Status → Bool
is_connected connected = true
is_connected _ = false

-- The call of the hook that the button makes, with the brokers that the text of the input lists.
unfoldable pub handle_connect : List Url → State → Event
handle_connect urls s = if is_connected s.status then user_disconnects else user_connects urls

abbrev pub args : Panel → String → String → String → String → Args
args p type description uuid stamp = record {
  publisher_id = p.publisher_id;
  type = type;
  building_id = p.building_id;
  camera_id = p.camera_id;
  description = description;
  uuid = uuid;
  stamp = stamp;
}

unfoldable pub handle_manual : Panel → String → String → String → ℕ → Event
handle_manual p type uuid stamp now = user_publishes (args p type "manual" uuid stamp) now

-- A motion that the detector reports: the clock, and what the message is made of.
pub record Motion : Type 0 where
  pub now : ℕ
  pub uuid : String
  pub stamp : String

-- `now - last < MOTION_COOLDOWN`
abbrev pub is_cooling : Panel → ℕ → Bool
is_cooling p now = ltb now (p.last_motion + motion_cooldown)

unfoldable pub handle_motion : Panel → Motion → Panel × Option Event
handle_motion p m = if is_cooling p m.now then (p, none) else (
  record p { last_motion = m.now },
  some (user_publishes (args p "MOTION" "auto-detect" m.uuid m.stamp) m.now),
)

abbrev pub with_event : Option Event → List Event → List Event
with_event none es = es
with_event (some e) es = e ∷ es

-- The calls of the hook that a sequence of motions makes.
unfoldable pub handle_motions : Panel → List Motion → List Event
unfolding handle_motion
handle_motions p [] = []
handle_motions p (m ∷ ms) =
    let next_panel = handle_motion p m in with_event next_panel.1 (handle_motions next_panel.0 ms)
