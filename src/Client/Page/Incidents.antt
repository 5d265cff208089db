-- ===== src/Client/Page/Incidents.antt =====
-- client/src/App.jsx: the texts of the incidents.
use Prim.Native.Char.{code}
use io_t_midterm_availabilit.Base.{
  ℕ, String, ◌==◌, Option, none, some, ◌=ₛ◌, if◌then◌else◌, Dict, lookup,
}
use io_t_midterm_availabilit.Js.Number.{Number}
use io_t_midterm_availabilit.Js.Text.{◌<>◌}
use io_t_midterm_availabilit.Js.Scan.{slice_to}
use io_t_midterm_availabilit.Js.Value.{Value, str, truthy}
use io_t_midterm_availabilit.Client.Visibility.{text_of}
use io_t_midterm_availabilit.Client.Presentation.{Presentation}
use io_t_midterm_availabilit.Client.EventText.{format_delay_label}
use io_t_midterm_availabilit.Client.Hook.State.{
  Incident, IncidentType, buffered_events, edge_down, edge_up, failover_switch, core_down,
  active_core_down, backup_core_down, Detail, plain, late, endpoint,
}

abbrev reconnect_reason_label : String → String
reconnect_reason_label reason =
    if reason =ₛ "W-01" then "LWT" else if reason =ₛ "M-04" then "topology sync" else "core_switch"

-- `replace('_', ' ')`: the first underscore.
unfoldable pub replace_underscore : String → String
replace_underscore String.[] = ""
replace_underscore (String.◌∷◌ c s) =
    let rest = replace_underscore s in
    if code c == b'_' then String.◌∷◌ " " s else String.◌∷◌ c rest

abbrev list_label_in : Option Presentation → String
list_label_in none = ""
list_label_in (some p) = p.list_label

-- The name of a node, `none` where `slice` raises at an identifier that is no text.
unfoldable pub format_node_reference : Value → Dict Presentation → Option String
unfolding slice_to lookup
format_node_reference (str s) displays =
    if s =ₛ ""
    then some "Unknown edge"
    else if list_label_in (lookup s displays) =ₛ ""
    then some (slice_to 8 s <> "…")
    else some (list_label_in (lookup s displays))
format_node_reference v displays = if truthy v then none else some "Unknown edge"

abbrev followed_by : Option String → String → Option String
followed_by none t = none
followed_by (some s) t = some (s <> t)

module _ (number_text : Number → String) (to_lower_case : String → String) where
  -- The kind of the events that came late; `none` where `replace` raises.
  abbrev event_type_text : Value → Option String
  event_type_text (str s) =
      some (to_lower_case (if s =ₛ "" then "events" else replace_underscore s))
  event_type_text v = if truthy v then none else some (to_lower_case "events")

  abbrev replayed : Option String → Option String → ℕ → Option String
  replayed (some ref) (some kind) delay =
      some (ref <> " replayed queued " <> kind <> " (" <> format_delay_label (some delay) <> ")")
  replayed none kind delay = none
  replayed (some ref) none delay = none

  abbrev promoted_text : Value → String
  promoted_text v =
      "Backup promoted to active" <> (if truthy v then " (" <> text_of number_text v <> ")" else "")

  abbrev text_for : IncidentType → Detail → Option String → Option String
  text_for core_down d ref = followed_by ref " disconnected"
  text_for active_core_down d ref = followed_by ref " disconnected"
  text_for backup_core_down d ref = followed_by ref " disconnected"
  text_for edge_down d ref = followed_by ref " disconnected"
  text_for edge_up d ref = followed_by ref " recovered"
  text_for failover_switch (endpoint v) (some ref) = some (promoted_text v)
  text_for failover_switch plain (some ref) = some (promoted_text (str ""))
  text_for failover_switch (late t ms) (some ref) = some (promoted_text (str ""))
  text_for failover_switch d none = none
  text_for buffered_events (late t ms) ref = replayed ref (event_type_text t) ms
  text_for buffered_events plain ref = replayed ref (some (to_lower_case "events")) 0
  text_for buffered_events (endpoint v) ref = replayed ref (some (to_lower_case "events")) 0

  unfoldable pub format_incident_text : Incident → Dict Presentation → Option String
  unfolding format_node_reference replace_underscore format_delay_label text_of
  format_incident_text i displays =
      text_for i.type i.detail (format_node_reference i.node_id displays)
