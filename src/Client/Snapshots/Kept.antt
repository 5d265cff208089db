-- ===== src/Client/Snapshots/Kept.antt =====
-- eventSnapshot.js: a presentation stays as it is for as long as its event is listed.
use io_t_midterm_availabilit.Base.{
  String, ◌≡◌, ◌≢◌, refl, sym, ap, ◌∙◌, inl, inr, true, false, Option, none, some, List, [], ◌∷◌,
  arith, eq_iff, eq_refl, Bool-cases, either_branch, if◌then◌else◌, In, In-cons, Dict, All,
}
use io_t_midterm_availabilit.Js.Number.{Number}
use io_t_midterm_availabilit.Js.Value.{Value, str, truthy, is_text, is_text_iff, strict_eq}
use io_t_midterm_availabilit.Js.ValueMap.{
  get_value, get_value-set_value_own, get_value-set_value_other,
}
use io_t_midterm_availabilit.Client.Parsers.{MqttMessage}
use io_t_midterm_availabilit.Client.Presentation.{Presentation}
use io_t_midterm_availabilit.Client.EventText.{Dates}
use io_t_midterm_availabilit.Client.EventView.{NodeMap, EventPresentation, get_event_presentation}
use io_t_midterm_availabilit.Client.Snapshots.{
  Snapshots, Render, kept_or, add_snapshot, add_snapshots, build_event_presentation_snapshots,
  render_all,
}

-- The last listed event with an id.
abbrev pub last_shown : List MqttMessage → String → Option MqttMessage → Option MqttMessage
last_shown [] k found = found
last_shown (e ∷ es) k found = last_shown es k (if is_text e.msg_id k then some e else found)

-- An event with the id is listed.
abbrev pub Shows : String → Render → Type 0
Shows k r = (e : MqttMessage) × In e r.events × (e.msg_id ≡ str k)

strict_eq-is_text : (v : Value) (k : String) → strict_eq v (str k) ≡ is_text v k
strict_eq-is_text (str s) k = refl
strict_eq-is_text _ k = ground arith

found_or :
    (es : List MqttMessage) (k : String) (e : MqttMessage)
    → (x : MqttMessage) × (last_shown es k (some e) ≡ some x)
found_or [] k e = (e, refl)
found_or (d ∷ es) k e = elim (Bool-cases (is_text d.msg_id k)) [
  | inl q ↦ rw q (found_or es k d)
  | inr q ↦ rw q (found_or es k e)
]

last_shown-In :
    (es : List MqttMessage) (k : String) (found : Option MqttMessage) (e : MqttMessage)
    → In e es
    → e.msg_id ≡ str k
    → (x : MqttMessage) × (last_shown es k found ≡ some x)
last_shown-In [] k found e i id = elim i [ ]
last_shown-In (d ∷ es) k found e i id = elim (In-cons i) [
  | inl same ↦
      let q : is_text d.msg_id k ≡ true =
        ap (λ (x : MqttMessage). is_text x.msg_id k) (sym same)
        ∙ ap (λ v. is_text v k) id
        ∙ eq_refl k in
      rw q (found_or es k d)
  | inr j ↦ last_shown-In es k (if is_text d.msg_id k then some d else found) e j id
]

module _ (number_text : Number → String) (dates : Dates) where
  -- The kept presentation of the id, else that of the event.
  abbrev pub presented :
      Snapshots
      → NodeMap
      → Dict Presentation
      → String
      → Option MqttMessage
      → Option EventPresentation
  presented previous nodes displays k none = none
  presented previous nodes displays k (some e) = some (
      kept_or (get_value previous (str k))
        (get_event_presentation number_text dates e nodes displays))

  module _ (previous : Snapshots) (nodes : NodeMap) (displays : Dict Presentation) (k : String)
      (full : k ≢ "") where
    own_snapshot :
        (e : MqttMessage) (snapshots : Snapshots)
        → e.msg_id ≡ str k
        → get_value (add_snapshot number_text dates previous nodes displays e snapshots) (str k)
          ≡ presented previous nodes displays k (some e)
    unfolding add_snapshot
    own_snapshot e snapshots id =
        let here_it : truthy e.msg_id ≡ true = ap truthy id ∙ ground (arith, eq_iff k "") in
        let same : strict_eq e.msg_id (str k) ≡ true =
          ap (λ v. strict_eq v (str k)) id ∙ eq_refl k in
        rw here_it (
          get_value-set_value_own e.msg_id _ snapshots k same
          ∙ ap
              (λ v. some (
                kept_or (get_value previous v)
                  (get_event_presentation number_text dates e nodes displays)))
              id)

    other_snapshot :
        (e : MqttMessage) (snapshots : Snapshots)
        → strict_eq e.msg_id (str k) ≡ false
        → get_value (add_snapshot number_text dates previous nodes displays e snapshots) (str k)
          ≡ get_value snapshots (str k)
    unfolding add_snapshot
    other_snapshot e snapshots other =
        either_branch (λ x. get_value x (str k) ≡ get_value snapshots (str k)) (truthy e.msg_id) _
          snapshots (get_value-set_value_other e.msg_id _ snapshots k other) refl

    get_value-add_snapshots :
        (es : List MqttMessage) (snapshots : Snapshots) (found : Option MqttMessage)
        → get_value snapshots (str k) ≡ presented previous nodes displays k found
        → get_value (add_snapshots number_text dates previous nodes displays es snapshots) (str k)
          ≡ presented previous nodes displays k (last_shown es k found)
    unfolding add_snapshots
    get_value-add_snapshots [] snapshots found h = h
    get_value-add_snapshots (e ∷ es) snapshots found h =
        get_value-add_snapshots es
          (add_snapshot number_text dates previous nodes displays e snapshots)
          (if is_text e.msg_id k then some e else found)
          (elim (Bool-cases (is_text e.msg_id k)) [
            | inl q ↦ rw q (own_snapshot e snapshots (ground (arith, is_text_iff e.msg_id k)))
            | inr q ↦ rw q (other_snapshot e snapshots (strict_eq-is_text e.msg_id k ∙ q) ∙ h)
          ])

-- The snapshot of an id after a rendering: none unless an event with the id is listed, the one of
-- the rendering before if there was one, and else the presentation of the last listed event with
-- the id. The id is a text that is not empty.
build_event_presentation_snapshots-last_shown :
    (number_text : Number → String) (dates : Dates) (r : Render) (previous : Snapshots) (k : String)
    → k ≢ ""
    → get_value (build_event_presentation_snapshots number_text dates r previous) (str k)
      ≡ presented number_text dates previous r.nodes r.displays k (last_shown r.events k none)
unfolding build_event_presentation_snapshots get_value
build_event_presentation_snapshots-last_shown number_text dates r previous k full =
    get_value-add_snapshots number_text dates previous r.nodes r.displays k full r.events [] none
      refl

-- A presentation that was made once stays the same in all later renderings, whatever becomes of
-- the nodes and their names, as long as every rendering lists an event with the id, which is a
-- text that is not empty.
pub render_all-kept :
    (number_text : Number → String) (dates : Dates) (rs : List Render) (snapshots : Snapshots)
    (k : String) (view : EventPresentation)
    → k ≢ ""
    → All (Shows k) rs
    → get_value snapshots (str k) ≡ some view
    → get_value (render_all number_text dates rs snapshots) (str k) ≡ some view
unfolding render_all
render_all-kept number_text dates [] snapshots k view full shows e = e
render_all-kept number_text dates (r ∷ rs) snapshots k view full shows e =
    let (x, found) = last_shown-In r.events k none shows.0.0 shows.0.1 shows.0.2 in
    render_all-kept number_text dates rs
      (build_event_presentation_snapshots number_text dates r snapshots) k view full shows.1
      (build_event_presentation_snapshots-last_shown number_text dates r snapshots k full
        ∙ ap (presented number_text dates snapshots r.nodes r.displays k) found
        ∙ ap (λ o. some (kept_or o (get_event_presentation number_text dates x r.nodes r.displays)))
            e)
