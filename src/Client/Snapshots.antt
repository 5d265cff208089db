-- ===== src/Client/Snapshots.antt =====
-- client/src/mqtt/eventSnapshot.js: the presentations that the page keeps between two renderings.
mod Tests
pub mod Kept
use io_t_midterm_availabilit.Base.{String, Option, none, some, List, [], ◌∷◌, Dict, if◌then◌else◌}
use io_t_midterm_availabilit.Js.Number.{Number}
use io_t_midterm_availabilit.Js.Value.{Value, truthy}
use io_t_midterm_availabilit.Js.ValueMap.{ValueMap, set_value, get_value}
use io_t_midterm_availabilit.Client.Parsers.{MqttMessage}
use io_t_midterm_availabilit.Client.Presentation.{Presentation}
use io_t_midterm_availabilit.Client.EventText.{Dates}
use io_t_midterm_availabilit.Client.EventView.{NodeMap, EventPresentation, get_event_presentation}

abbrev pub Snapshots : Type 0
Snapshots = ValueMap EventPresentation

-- What one rendering of the page has.
pub record Render : Type 0 where
  pub events : List MqttMessage
  pub nodes : NodeMap
  pub displays : Dict Presentation

-- `previous ?? computed`
abbrev pub kept_or : Option EventPresentation → EventPresentation → EventPresentation
kept_or none computed = computed
kept_or (some previous) computed = previous

module _ (number_text : Number → String) (dates : Dates) where
  -- The body of `forEach`.
  unfoldable pub add_snapshot :
      Snapshots → NodeMap → Dict Presentation → MqttMessage → Snapshots → Snapshots
  unfolding get_value set_value
  add_snapshot previous nodes displays e snapshots =
      if truthy e.msg_id
      then set_value e.msg_id
          (kept_or (get_value previous e.msg_id)
            (get_event_presentation number_text dates e nodes displays))
          snapshots
      else snapshots

  unfoldable pub add_snapshots :
      Snapshots → NodeMap → Dict Presentation → List MqttMessage → Snapshots → Snapshots
  unfolding add_snapshot
  add_snapshots previous nodes displays [] snapshots = snapshots
  add_snapshots previous nodes displays (e ∷ es) snapshots =
      add_snapshots previous nodes displays es (add_snapshot previous nodes displays e snapshots)

  unfoldable pub build_event_presentation_snapshots : Render → Snapshots → Snapshots
  unfolding add_snapshots
  build_event_presentation_snapshots r previous =
      add_snapshots previous r.nodes r.displays r.events []

  -- The renderings of the page, each with the snapshots of the one before.
  unfoldable pub render_all : List Render → Snapshots → Snapshots
  unfolding build_event_presentation_snapshots
  render_all [] snapshots = snapshots
  render_all (r ∷ rs) snapshots = render_all rs (build_event_presentation_snapshots r snapshots)
