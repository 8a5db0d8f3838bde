-- ===== src/Tracking/Runs.antt =====
-- Stops as runs of fixes, a description of the collapsed sequence that has no index, and the run
-- that the inner loop of detectStopWindows takes.
use delivery_tracking.Prelude.{
  false, ◌+◌, ◌≤◌, ◌<◌, ◌≡◌, refl, ap, List, [], ◌∷◌, ◌++◌, length, Bool-cases, inl, inr, arith,
}
use delivery_tracking.Tracking.Fixes.{
  Fix, Distance, time, stationary_max_sample_gap, stop_cluster_radius, stop_cluster_min_duration,
}
use delivery_tracking.Tracking.Stops.{
  Centre, centre_of, move_centre, is_moving, leaves, grow, centred,
}

abbrev pub last_of : Fix → List Fix → Fix
last_of f [] = f
last_of f (g ∷ gs) = last_of g gs

abbrev pub centre_from : Centre → List Fix → Centre
centre_from c [] = c
centre_from c (f ∷ fs) = centre_from (move_centre c f) fs

-- The last fix of a run, moved to the centre of the run.
abbrev pub stands_for : Fix → List Fix → Fix
stands_for f run =
    let c = centre_from (centre_of f) run in centred (last_of f run) c.latitude c.longitude

-- The instants do not go back.
abbrev pub IsChronological : Fix → List Fix → Type 0
IsChronological f [] = Unit
IsChronological f (g ∷ gs) = (time f ≤ time g) × IsChronological g gs

abbrev pub InOrder : List Fix → Type 0
InOrder [] = Unit
InOrder (f ∷ fs) = IsChronological f fs

pub InOrder-tail : (f : Fix) (fs : List Fix) → IsChronological f fs → InOrder fs
InOrder-tail f [] o = tt
InOrder-tail f (g ∷ fs) o = o.1

pub InOrder-rest : (f : Fix) (run rest : List Fix) → IsChronological f (run ++ rest) → InOrder rest
InOrder-rest f [] rest o = InOrder-tail f rest o
InOrder-rest f (g ∷ run) rest o = InOrder-rest g run rest o.1

pub later_run : (f : Fix) (run : List Fix) → time f < time (last_of f run) → 0 < length run
later_run f [] h = absurd (omega arith)
later_run f (g ∷ run) h = omega arith

module _ (distance : Distance) where
  -- Each fix of the run follows soon after the one before it, has no reliable speed of a moving
  -- vehicle, and is near the centre of those before it.
  abbrev pub Stays : Fix → Centre → List Fix → Type 0
  Stays f c [] = Unit
  Stays f c (g ∷ gs) =
      (time g ≤ time f + stationary_max_sample_gap)
      × (is_moving g ≡ false)
      × (distance c.latitude c.longitude g.latitude g.longitude ≤ stop_cluster_radius)
      × Stays g (move_centre c g) gs

  abbrev pub IsStop : Fix → List Fix → Type 0
  IsStop f run =
      Stays f (centre_of f) run × (time f + stop_cluster_min_duration ≤ time (last_of f run))

  -- The run is the longest that stays, of those that the rest goes on with.
  abbrev pub IsLongest : Fix → List Fix → List Fix → Type 0
  IsLongest f run fs =
      (run' rest' : List Fix)
      → fs ≡ run' ++ rest'
      → Stays f (centre_of f) run'
      → length run' ≤ length run

  -- From left to right, a fix that no stop begins with is kept, and the longest run from any other
  -- becomes one fix.
  pub data Collapsed : List Fix → List Fix → Type 0 where
    done : Collapsed [] []
    keep :
        (f : Fix) (fs gs : List Fix)
        → ((run rest : List Fix) → fs ≡ run ++ rest → IsStop f run → ⊥)
        → Collapsed fs gs
        → Collapsed (f ∷ fs) (f ∷ gs)
    stop :
        (f : Fix) (fs run rest gs : List Fix)
        → fs ≡ run ++ rest
        → IsStop f run
        → IsLongest f run fs
        → Collapsed rest gs
        → Collapsed (f ∷ fs) (stands_for f run ∷ gs)

  stays_step :
      (f g : Fix) (c : Centre)
      → leaves distance f c g ≡ false
      → (time g ≤ time f + stationary_max_sample_gap)
        × (is_moving g ≡ false)
        × (distance c.latitude c.longitude g.latitude g.longitude ≤ stop_cluster_radius)
  stays_step f g c h = ground arith

  leaves_not :
      (f g : Fix) (c : Centre)
      → time g ≤ time f + stationary_max_sample_gap
      → is_moving g ≡ false
      → distance c.latitude c.longitude g.latitude g.longitude ≤ stop_cluster_radius
      → leaves distance f c g ≡ false
  leaves_not f g c a b d = ground arith

  -- The run that the inner loop takes.
  pub record Grown (f : Fix) (c : Centre) (fs : List Fix) : Type 0 where
    pub run : List Fix
    pub cut : fs ≡ run ++ (grow distance f c fs).rest
    pub centre : (grow distance f c fs).centre ≡ centre_from c run
    pub last : (grow distance f c fs).last ≡ last_of f run
    pub stays : Stays f c run
    pub count : (grow distance f c fs).centre.count ≡ c.count + length run

  pub grow_run : (f : Fix) (c : Centre) (fs : List Fix) → Grown f c fs
  unfolding grow move_centre
  grow_run f c [] = record {
    run = [];
    cut = refl;
    centre = refl;
    last = refl;
    stays = tt;
    count = omega arith;
  }
  grow_run f c (g ∷ fs) = elim (Bool-cases (leaves distance f c g)) [
    | inl e ↦ record {
      run = [];
      cut = rw e;
      centre = rw e;
      last = rw e;
      stays = tt;
      count = rw e (omega arith);
    }
    | inr e ↦
        let r = grow_run g (move_centre c g) fs in
        let (a, b, d) = stays_step f g c e in
        record {
          run = g ∷ r.run;
          cut = rw e (ap (λ t. g ∷ t) r.cut);
          centre = rw e r.centre;
          last = rw e r.last;
          stays = (a, b, d, r.stays);
          count = rw e (omega (arith, r.count));
        }
  ]

  -- No run from the same fix goes on for longer.
  pub grow-longest :
      (f : Fix) (c : Centre) (run rest : List Fix)
      → IsChronological f (run ++ rest)
      → Stays f c run
      → time (last_of f run) ≤ time (grow distance f c (run ++ rest)).last
  unfolding grow
  grow-longest f c [] [] o s = omega arith
  grow-longest f c [] (g ∷ rest) o s = elim (Bool-cases (leaves distance f c g)) [
    | inl e ↦ rw e (omega arith)
    | inr e ↦ rw e (omega (arith, grow-longest g (move_centre c g) [] rest o.1 tt))
  ]
  grow-longest f c (g ∷ run) rest o s =
      rw (leaves_not f g c s.0 s.1 s.2) (grow-longest g (move_centre c g) run rest o.1 s.3)

  -- Nor has it more fixes.
  pub grow-most :
      (f : Fix) (c : Centre) (run rest : List Fix)
      → Stays f c run
      → c.count + length run ≤ (grow distance f c (run ++ rest)).centre.count
  unfolding grow move_centre
  grow-most f c [] [] s = omega arith
  grow-most f c [] (g ∷ rest) s = elim (Bool-cases (leaves distance f c g)) [
    | inl e ↦ rw e (omega arith)
    | inr e ↦ rw e (omega (arith, grow-most g (move_centre c g) [] rest tt))
  ]
  grow-most f c (g ∷ run) rest s =
      rw (leaves_not f g c s.0 s.1 s.2) (omega (arith, grow-most g (move_centre c g) run rest s.3))
