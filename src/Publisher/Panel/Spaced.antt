-- ===== src/Publisher/Panel/Spaced.antt =====
-- App.jsx: the motions that are published keep their distance, and no other motion is dropped.
use io_t_midterm_availabilit.Base.{
  ℕ, ◌+◌, ◌≤◌, ◌<◌, sym, subst, ◌⊎◌, inl, inr, Bool-cases, List, [], ◌∷◌, arith, In, In-cons,
}
use io_t_midterm_availabilit.Publisher.Message.{Args}
use io_t_midterm_availabilit.Publisher.Hook.Step.{Event, user_publishes}
use io_t_midterm_availabilit.Publisher.Panel.{Panel, Motion, args, is_cooling, handle_motions}

-- Only publishes, each at least 3000 milliseconds after the time before.
abbrev pub IsSpaced : ℕ → List Event → Type 0
IsSpaced last [] = Unit
IsSpaced last (user_publishes a now ∷ es) = (last + 3000 ≤ now) × IsSpaced now es
IsSpaced last (_ ∷ es) = ⊥

-- There is a publish, or the time before, of which less than 3000 milliseconds have passed.
abbrev pub IsCovered : ℕ → List Event → ℕ → Type 0
IsCovered last [] t = t < last + 3000
IsCovered last (user_publishes a now ∷ es) t = (t < last + 3000) ⊎ IsCovered now es t
IsCovered last (_ ∷ es) t = ⊥

-- The time before covers what follows it within the cooldown.
IsCovered-by_last :
    (last t : ℕ) (es : List Event) → IsSpaced last es → t < last + 3000 → IsCovered last es t
IsCovered-by_last last t [] h lt = lt
IsCovered-by_last last t (user_publishes a now ∷ es) h lt = inl lt
IsCovered-by_last last t (_ ∷ es) h lt = elim h [ ]

-- The publishes keep their distance and cover the motions.
abbrev pub IsCooled : ℕ → List Event → List Motion → Type 0
IsCooled last es ms = IsSpaced last es × ((m : Motion) → In m ms → IsCovered last es m.now)

pub IsCooled-none : (last : ℕ) → IsCooled last [] []
IsCooled-none last = (tt, λ m i. elim i [ ])

-- A motion within the cooldown is dropped.
pub IsCooled-dropped :
    (last : ℕ) (es : List Event) (ms : List Motion) (m : Motion)
    → m.now < last + 3000
    → IsCooled last es ms
    → IsCooled last es (m ∷ ms)
IsCooled-dropped last es ms m lt (spaced, covered) = (
  spaced,
  λ y i. elim (In-cons i) [
    | inl same ↦
        subst (λ (x : Motion). IsCovered last es x.now) (sym same)
          (IsCovered-by_last last m.now es spaced lt)
    | inr j ↦ covered y j
  ],
)

-- A motion after the cooldown is published.
pub IsCooled-published :
    (last : ℕ) (es : List Event) (ms : List Motion) (m : Motion) (a : Args)
    → last + 3000 ≤ m.now
    → IsCooled m.now es ms
    → IsCooled last (user_publishes a m.now ∷ es) (m ∷ ms)
IsCooled-published last es ms m a le (spaced, covered) = (
  (le, spaced),
  λ y i. elim (In-cons i) [
    | inl same ↦ inr (
        subst (λ (x : Motion). IsCovered m.now es x.now) (sym same)
          (IsCovered-by_last m.now m.now es spaced (omega arith)))
    | inr j ↦ inr (covered y j)
  ],
)

-- The cooldown of the motion detector: the motions that are published are at least 3000
-- milliseconds apart, also from the last one before, and every motion that was detected comes less
-- than 3000 milliseconds after one that was published, itself or one before. This holds for any
-- clock readings.
pub handle_motions_lem :
    (p : Panel) (ms : List Motion)
    → IsSpaced p.last_motion (handle_motions p ms)
      × ((m : Motion) → In m ms → IsCovered p.last_motion (handle_motions p ms) m.now)
unfolding handle_motions
handle_motions_lem p [] = IsCooled-none p.last_motion
handle_motions_lem p (m ∷ ms) = elim (Bool-cases (is_cooling p m.now)) [
  | inl e ↦ rw e (
      IsCooled-dropped p.last_motion (handle_motions p ms) ms m (ground arith)
        (handle_motions_lem p ms))
  | inr e ↦ rw e (
      IsCooled-published p.last_motion (handle_motions (record p { last_motion = m.now }) ms) ms m
        (args p "MOTION" "auto-detect" m.uuid m.stamp) (ground arith)
        (handle_motions_lem (record p { last_motion = m.now }) ms))
]
