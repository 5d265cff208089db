-- ===== src/Publisher/Panel/Runs.antt =====
-- App.jsx: the cooldown of the motion detector among everything else that is done on the page.
use io_t_midterm_availabilit.Base.{
  String, Bool, ◌≡◌, refl, sym, subst, inl, inr, true, false, Bool-cases, Option, none, List, [],
  ◌∷◌, filter, arith, ◌=ₛ◌, In,
}
use io_t_midterm_availabilit.Js.Url.{Url}
use io_t_midterm_availabilit.Publisher.Hook.State.{State}
use io_t_midterm_availabilit.Publisher.Hook.Step.{Event, user_publishes}
use io_t_midterm_availabilit.Publisher.Panel.{
  Panel, Motion, args, is_connected, is_cooling, handle_connect, handle_manual, handle_motion,
  with_event,
}
use io_t_midterm_availabilit.Publisher.Panel.Actions.{
  Action, type_url, type_building, type_camera, set_detection, slide, click_connect, click_manual,
  detect, is_watching, panel_step, run_panel,
}
use io_t_midterm_availabilit.Publisher.Panel.Spaced.{
  IsSpaced, IsCovered, IsCooled, IsCooled-none, IsCooled-dropped, IsCooled-published,
}

abbrev pub is_automatic : Event → Bool
is_automatic (user_publishes a now) = a.description =ₛ "auto-detect"
is_automatic _ = false

abbrev pub is_detection : Action → Bool
is_detection (detect m) = true
is_detection _ = false

abbrev pub seen_motion : Bool → Action → List Motion → List Motion
seen_motion true (detect m) ms = m ∷ ms
seen_motion _ _ ms = ms

module _ (new_url : String → Option Url) where
  -- The motions that are detected while the camera is enabled.
  unfoldable pub watched : Panel → List (State × Action) → List Motion
  watched p [] = []
  watched p ((s, a) ∷ steps) =
      seen_motion (is_watching s p) a (watched (panel_step new_url s a p).0 steps)

  -- What is neither a motion nor published by the detector.
  IsQuiet : State → Action → Panel → Type 0
  IsQuiet s a p =
      ((panel_step new_url s a p).0.last_motion ≡ p.last_motion)
      × ((es : List Event)
          → filter is_automatic (with_event (panel_step new_url s a p).1 es)
            ≡ filter is_automatic es)

  panel_step-IsQuiet : (s : State) (a : Action) (p : Panel) → is_detection a ≡ false → IsQuiet s a p
  unfolding IsQuiet panel_step handle_connect handle_manual filter
  panel_step-IsQuiet s (detect m) p h = ground arith
  panel_step-IsQuiet s (type_url value) p h = elim (Bool-cases (is_connected s.status)) [
    | inl e ↦ rw e (refl, λ es. refl)
    | inr e ↦ rw e (refl, λ es. refl)
  ]
  panel_step-IsQuiet s (set_detection on) p h = elim (Bool-cases (is_connected s.status)) [
    | inl e ↦ rw e (refl, λ es. refl)
    | inr e ↦ rw e (refl, λ es. refl)
  ]
  panel_step-IsQuiet s click_connect p h = elim (Bool-cases (is_connected s.status)) [
    | inl e ↦ rw e (refl, λ es. refl)
    | inr e ↦ rw e (refl, λ es. refl)
  ]
  panel_step-IsQuiet s (click_manual kind m) p h = elim (Bool-cases (is_connected s.status)) [
    | inl e ↦ rw e (refl, λ es. refl)
    | inr e ↦ rw e (refl, λ es. refl)
  ]
  panel_step-IsQuiet s (type_building value) p h = (refl, λ es. refl)
  panel_step-IsQuiet s (type_camera value) p h = (refl, λ es. refl)
  panel_step-IsQuiet s (slide value) p h = (refl, λ es. refl)

  -- Where what follows the result is cooled, it is with the action before it.
  IsStep : Panel → Action → Bool → Panel × Option Event → Type 0
  IsStep p a seen result =
      (es : List Event) (ms : List Motion)
      → IsCooled result.0.last_motion (filter is_automatic es) ms
      → IsCooled p.last_motion (filter is_automatic (with_event result.1 es))
          (seen_motion seen a ms)

  handle_motion-IsStep : (p : Panel) (m : Motion) → IsStep p (detect m) true (handle_motion p m)
  unfolding IsStep handle_motion filter
  handle_motion-IsStep p m = elim (Bool-cases (is_cooling p m.now)) [
    | inl c ↦ rw c (λ es ms rest.
        IsCooled-dropped p.last_motion (filter is_automatic es) ms m (ground arith) rest)
    | inr c ↦ rw c (λ es ms rest.
        IsCooled-published p.last_motion (filter is_automatic es) ms m
          (args p "MOTION" "auto-detect" m.uuid m.stamp) (ground arith) rest)
  ]

  unwatched-IsStep : (p : Panel) (m : Motion) → IsStep p (detect m) false (p, none)
  unfolding IsStep
  unwatched-IsStep p m es ms rest = rest

  detect-IsStep :
      (s : State) (p : Panel) (m : Motion)
      → IsStep p (detect m) (is_watching s p) (panel_step new_url s (detect m) p)
  unfolding panel_step
  detect-IsStep s p m = elim (Bool-cases (is_watching s p)) [
    | inl e ↦ rw e (handle_motion-IsStep p m)
    | inr e ↦ rw e (unwatched-IsStep p m)
  ]

  unseen :
      (seen : Bool) (a : Action) (ms : List Motion)
      → is_detection a ≡ false
      → ms ≡ seen_motion seen a ms
  unseen true (detect m) ms h = ground arith
  unseen true (type_url value) ms h = refl
  unseen true (type_building value) ms h = refl
  unseen true (type_camera value) ms h = refl
  unseen true (set_detection on) ms h = refl
  unseen true (slide value) ms h = refl
  unseen true click_connect ms h = refl
  unseen true (click_manual kind m) ms h = refl
  unseen false a ms h = refl

  quiet-IsStep :
      (s : State) (p : Panel) (a : Action)
      → is_detection a ≡ false
      → IsStep p a (is_watching s p) (panel_step new_url s a p)
  unfolding IsStep IsQuiet
  quiet-IsStep s p a h es ms rest =
      let (same_time, same_events) = panel_step-IsQuiet s a p h in
      subst (λ x. IsCooled p.last_motion x (seen_motion (is_watching s p) a ms))
        (sym (same_events es))
        (subst (λ x. IsCooled p.last_motion (filter is_automatic es) x)
          (unseen (is_watching s p) a ms h)
          (subst (λ t. IsCooled t (filter is_automatic es) ms) same_time rest))

  panel_step-IsStep :
      (s : State) (p : Panel) (a : Action) → IsStep p a (is_watching s p) (panel_step new_url s a p)
  panel_step-IsStep s p (detect m) = detect-IsStep s p m
  panel_step-IsStep s p (type_url value) = quiet-IsStep s p (type_url value) refl
  panel_step-IsStep s p (type_building value) = quiet-IsStep s p (type_building value) refl
  panel_step-IsStep s p (type_camera value) = quiet-IsStep s p (type_camera value) refl
  panel_step-IsStep s p (set_detection on) = quiet-IsStep s p (set_detection on) refl
  panel_step-IsStep s p (slide value) = quiet-IsStep s p (slide value) refl
  panel_step-IsStep s p click_connect = quiet-IsStep s p click_connect refl
  panel_step-IsStep s p (click_manual kind m) = quiet-IsStep s p (click_manual kind m) refl

-- The cooldown of the motion detector, whatever else is done on the page and whatever state the
-- hook is in at each action: the motions that the detector publishes are at least 3000
-- milliseconds apart, also from the last one before, and every motion that is detected while the
-- camera is enabled comes less than 3000 milliseconds after one that the detector published,
-- itself or one before. This holds for any clock readings.
pub run_panel-IsCooled :
    (new_url : String → Option Url) (p : Panel) (steps : List (State × Action))
    → IsSpaced p.last_motion (filter is_automatic (run_panel new_url p steps))
      × ((m : Motion)
          → In m (watched new_url p steps)
          → IsCovered p.last_motion (filter is_automatic (run_panel new_url p steps)) m.now)
unfolding run_panel watched filter IsStep
run_panel-IsCooled new_url p [] = IsCooled-none p.last_motion
run_panel-IsCooled new_url p ((s, a) ∷ steps) =
    let next_panel = (panel_step new_url s a p).0 in
    panel_step-IsStep new_url s p a (run_panel new_url next_panel steps)
      (watched new_url next_panel steps) (run_panel-IsCooled new_url next_panel steps)
