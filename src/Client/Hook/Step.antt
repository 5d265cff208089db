-- ===== src/Client/Hook/Step.antt =====
-- useMqtt.js: everything that can happen to the hook, as one step: a message, the client's other
-- events, an alert's timer, the form that sets the broker's URL, and React's run of the effect.
use io_t_midterm_availabilit.Base.{
  ℕ, String, Bool, true, false, Option, none, some, List, [], ◌∷◌, ◌=ₛ◌, if◌then◌else◌,
}
use io_t_midterm_availabilit.Js.Scan.{behind, last_part}
use io_t_midterm_availabilit.Client.Hook.State.{
  Env, State, connecting, connected, disconnected, error,
}
use io_t_midterm_availabilit.Client.Hook.Updates.{alert_expires}
use io_t_midterm_availabilit.Client.Hook.Messages.{
  on_topology, on_data, on_node_alert, on_core_switch, on_core_will,
}

pub data Event : Type 0 where
  message : (topic raw : String) (now later : ℕ) → Event
  connects errors closes reconnects : Event
  expires : (ts : ℕ) → Event
  sets_broker_url : String → Event
  effect : Event

pub data Topic : Type 0 where
  topology data_event node_down node_up core_switch other : Topic
  core_will : String → Topic

abbrev starts : String → String → Bool
starts prefix topic = elim (behind prefix topic) [ none ↦ false | some rest ↦ true ]

abbrev will_topic : Option String → Topic
will_topic none = other
will_topic (some id) = core_will id

-- The chain of tests on the topic.
unfoldable pub topic_of : String → Topic
topic_of topic =
    if topic =ₛ "campus/monitor/topology"
    then topology
    else if starts "campus/data/" topic
    then data_event
    else if starts "campus/alert/node_down/" topic
    then node_down
    else if starts "campus/alert/node_up/" topic
    then node_up
    else if topic =ₛ "campus/alert/core_switch"
    then core_switch
    else will_topic (behind "campus/will/core/" topic)

module _ (env : Env) where
  unfoldable pub on_message : Topic → String → String → ℕ → ℕ → State → State
  on_message topology topic raw now later s = on_topology env raw s
  on_message data_event topic raw now later s = on_data env topic raw now s
  on_message node_down topic raw now later s =
      on_node_alert env true topic raw (last_part b'/' topic) now later s
  on_message node_up topic raw now later s =
      on_node_alert env false topic raw (last_part b'/' topic) now later s
  on_message core_switch topic raw now later s = on_core_switch env topic raw now s
  on_message (core_will failed) topic raw now later s =
      on_core_will env topic raw failed now later s
  on_message other topic raw now later s = s

  unfoldable pub step : State → Event → State
  step s (message topic raw now later) = on_message (topic_of topic) topic raw now later s
  step s connects = record s { status = connected; reconnect_info = none }
  step s errors = record s { status = error }
  step s closes = record s { status = disconnected }
  step s reconnects = record s { status = connecting }
  step s (expires ts) = alert_expires ts s
  step s (sets_broker_url url) = record s { broker_url = url }
  step s effect = record s { client_url = s.broker_url }

  unfoldable pub run : State → List Event → State
  run s [] = s
  run s (e ∷ es) = run (step s e) es
