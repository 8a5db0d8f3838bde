-- ===== src/Tracking/Released.antt =====
-- How long the quarantine of Tracking.Wake lasts.
use delivery_tracking.Prelude.{
  ℕ, ◌+◌, ◌<◌, ◌≤◌, ◌≡◌, ◌≢◌, refl, Option, none, some, true, false, inl, inr, List, [], ◌∷◌, All,
  Bool-cases, arith, leb, ◌⊎◌, ltb,
}
use delivery_tracking.Tracking.Wake.{
  Quarantine, TraccarFix, is_rejected, is_weak, after_silence, handle_position, handle_all,
  wake_quarantine_max, wake_quarantine_stale, wake_silence_min, evaluate_weak, evaluate_open,
  evaluate_new,
}

-- The fixes come in the order of their instants, with at most `wake_quarantine_stale` between two.
abbrev pub IsDense : ℕ → List TraccarFix → Type 0
IsDense t [] = Unit
IsDense t (f ∷ fs) = (t ≤ f.time) × (f.time ≤ t + wake_quarantine_stale) × IsDense f.time fs

-- There is more than `wake_quarantine_stale` between two fixes.
abbrev pub IsSparse : ℕ → List TraccarFix → Type 0
IsSparse t [] = Unit
IsSparse t (f ∷ fs) = (t + wake_quarantine_stale < f.time) × IsSparse f.time fs

abbrev pub last_time : ℕ → List TraccarFix → ℕ
last_time t [] = t
last_time t (f ∷ fs) = last_time f.time fs

-- A quarantine that a fix at the instant can find.
abbrev pub IsBefore : ℕ → Option Quarantine → Type 0
IsBefore t none = Unit
IsBefore t (some q) = (q.since ≤ q.last) × (q.last ≤ t)

-- The last reliable row of the vehicle is older than the silence of a wake-up.
abbrev IsBelow : ℕ → Option ℕ → Type 0
IsBelow t none = Unit
IsBelow t (some p) = p + wake_silence_min < t

silent : (p : Option ℕ) (t : ℕ) → IsBelow t p → after_silence p t ≡ true
silent none t h = refl
silent (some p) t h = ground arith

abbrev pub IsLone : TraccarFix → Type 0
IsLone f = (is_weak f.sat ≡ true) × IsBelow f.time f.last_db

leb-false : (a b : ℕ) → leb a b ≡ false → b < a
leb-false a b h = ground arith

abbrev held_since : ℕ → ℕ → Option Quarantine
held_since s t = some (record { since = s; last = t })

module _ (min_satellites : ℕ) where
  abbrev pub IsHeard : TraccarFix → Type 0
  IsHeard f = is_rejected min_satellites f ≡ false

  -- A fix that comes soon after the last held one goes on, or the quarantine stays as old.
  step_open :
      (s t : ℕ) (f : TraccarFix)
      → s ≤ t
      → t ≤ f.time
      → f.time ≤ t + wake_quarantine_stale
      → IsHeard f
      → ((handle_position min_satellites (held_since s t) f).1 ≡ true)
        ⊎ ((f.time < s + wake_quarantine_max)
            × (handle_position min_satellites (held_since s t) f ≡ (held_since s f.time, false)))
  unfolding handle_position
  step_open s t f a b c h = elim (Bool-cases (is_weak f.sat)) [
    | inr strong ↦ inl (rw (h, strong))
    | inl weak ↦ elim (Bool-cases (leb (s + wake_quarantine_max) f.time)) [
      | inl over ↦ inl (ground arith)
      | inr early ↦ inr (omega (arith, leb-false _ _ early), ground arith)
    ]
  ]

  abbrev GoesOrHolds : Option Quarantine → TraccarFix → Type 0
  GoesOrHolds q f =
      ((handle_position min_satellites q f).1 ≡ true)
      ⊎ ((s : ℕ) × (s ≤ f.time)
          × (f.time < s + wake_quarantine_max)
          × (handle_position min_satellites q f ≡ (held_since s f.time, false)))

  weak_new : (f : TraccarFix) → IsHeard f → is_weak f.sat ≡ true → GoesOrHolds none f
  unfolding handle_position
  weak_new f h w = elim (Bool-cases (after_silence f.last_db f.time)) [
    | inl silent ↦ inr (f.time, omega arith, omega arith, ground arith)
    | inr heard ↦ inl (ground arith)
  ]

  weak_open :
      (q : Quarantine) (f : TraccarFix)
      → q.since ≤ q.last
      → q.last ≤ f.time
      → IsHeard f
      → is_weak f.sat ≡ true
      → GoesOrHolds (some q) f
  unfolding handle_position
  weak_open q f a b h w = elim (Bool-cases (ltb (q.last + wake_quarantine_stale) f.time)) [
    | inl stale ↦ elim (Bool-cases (after_silence f.last_db f.time)) [
      | inl silent ↦ inr (f.time, omega arith, omega arith, ground arith)
      | inr heard ↦ inl (ground arith)
    ]
    | inr fresh ↦ elim (Bool-cases (leb (q.since + wake_quarantine_max) f.time)) [
      | inl over ↦ inl (ground arith)
      | inr early ↦ inr (q.since, omega arith, omega (arith, leb-false _ _ early), ground arith)
    ]
  ]

  -- Any fix goes on, or leaves a quarantine that it may have opened.
  step_any :
      (q : Option Quarantine) (f : TraccarFix) → IsBefore f.time q → IsHeard f → GoesOrHolds q f
  unfolding handle_position
  step_any none f b h = elim (Bool-cases (is_weak f.sat)) [
    | inr strong ↦ inl (rw (h, strong))
    | inl weak ↦ weak_new f h weak
  ]
  step_any (some q) f b h = elim (Bool-cases (is_weak f.sat)) [
    | inr strong ↦ inl (rw (h, strong))
    | inl weak ↦ weak_open q f b.0 b.1 h weak
  ]

  in_quarantine :
      (s t : ℕ) (fs : List TraccarFix)
      → s ≤ t
      → t < s + wake_quarantine_max
      → IsDense t fs
      → All IsHeard fs
      → s + wake_quarantine_max ≤ last_time t fs
      → handle_all min_satellites (held_since s t) fs ≢ []
  unfolding handle_all
  in_quarantine s t [] a b d h e = absurd (omega arith)
  in_quarantine s t (f ∷ fs) a b d h e = elim (step_open s t f a d.0 d.1 h.0) [
    | inl goes ↦ λ p. cc
    | inr (early, held) ↦ rw held (in_quarantine s f.time fs (omega arith) early d.2 h.1 e)
  ]

  pub handle_all-releases :
      (q : Option Quarantine) (f : TraccarFix) (fs : List TraccarFix)
      → IsBefore f.time q
      → IsDense f.time fs
      → All IsHeard (f ∷ fs)
      → f.time + wake_quarantine_max ≤ last_time f.time fs
      → handle_all min_satellites q (f ∷ fs) ≢ []
  unfolding handle_all
  handle_all-releases q f fs b d h e = elim (step_any q f b h.0) [
    | inl goes ↦ λ p. cc
    | inr (s, a, early, held) ↦ rw held (in_quarantine s f.time fs a early d h.1 (omega arith))
  ]

  -- A weak fix long after the last one opens a new quarantine.
  step_lone :
      (t : ℕ) (f : TraccarFix) (q : Option Quarantine)
      → t + wake_quarantine_stale < f.time
      → is_weak f.sat ≡ true
      → after_silence f.last_db f.time ≡ true
      → IsBefore t q
      → IsHeard f
      → handle_position min_satellites q f ≡ (held_since f.time f.time, false)
  unfolding handle_position
  step_lone t f none d w l b h = ground arith
  step_lone t f (some q) d w l b h = ground arith

  pub handle_all-starves :
      (t : ℕ) (fs : List TraccarFix)
      → IsSparse t fs
      → All IsLone fs
      → All IsHeard fs
      → (q : Option Quarantine) → IsBefore t q
      → handle_all min_satellites q fs ≡ []
  unfolding handle_all evaluate_weak evaluate_open evaluate_new
  handle_all-starves t [] d l h q b = refl
  handle_all-starves t (f ∷ fs) d l h q b =
      rw (step_lone t f q d.0 l.0.0 (silent f.last_db f.time l.0.1) b h.0)
        (handle_all-starves f.time fs d.1 l.1 h.1 _ (omega arith, omega arith))
