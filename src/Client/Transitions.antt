-- ===== src/Client/Transitions.antt =====
-- client/src/mqtt/nodeTransitions.js: a node that came back is marked for a while. `Date.parse` is
-- the language's and stands as a parameter, `none` for NaN; times are whole milliseconds.
use io_t_midterm_availabilit.Base.{
  ℕ, suc, ◌+◌, ◌-◌, ℤ, pos, negsuc, int_ltb, Bool, false, not, ◌&&◌, Option, none, some, leb,
  if◌then◌else◌,
}
use io_t_midterm_availabilit.Js.Value.{Value, str, is_nullish, is_text}
use io_t_midterm_availabilit.Client.Parsers.{Node}

abbrev pub recent_node_transition_window_ms : ℕ
recent_node_transition_window_ms = 15000

abbrev pub plus_ms : ℤ → ℕ → ℤ
plus_ms (pos t) w = pos (t + w)
plus_ms (negsuc t) w = if leb (suc t) w then pos (w - suc t) else negsuc (t - w)

abbrev pub deadline_from : Option ℤ → ℕ → Option ℤ
deadline_from none w = none
deadline_from (some t) w = some (plus_ms t w)

abbrev pub has_recovered : Node → Bool
has_recovered n =
    not (is_text n.role "CORE") && is_text n.status "ONLINE" && is_text n.previous_status "OFFLINE"

abbrev pub is_by : ℤ → Option ℤ → Bool
is_by now none = false
is_by now (some deadline) = not (int_ltb deadline now)

module _ (date_parse : Value → Option ℤ) where
  unfoldable pub parse_timestamp_ms : Value → Option ℤ
  parse_timestamp_ms v = date_parse (if is_nullish v then str "" else v)

  unfoldable pub get_recent_recovery_deadline : Node → ℕ → Option ℤ
  get_recent_recovery_deadline n window =
      if has_recovered n
      then deadline_from (parse_timestamp_ms n.status_changed_at) window
      else none

  unfoldable pub is_recently_recovered_node : Node → ℤ → ℕ → Bool
  is_recently_recovered_node n now window = is_by now (get_recent_recovery_deadline n window)
