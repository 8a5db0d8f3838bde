-- ===== src/Tracking/Collapsed.antt =====
-- collapseStationaryWindows of Tracking.Stops against its description in Tracking.Runs.
use delivery_tracking.Prelude.{
  ◌↔◌, ℕ, zero, suc, some, true, false, ◌+◌, ◌-◌, ◌≤◌, ◌<◌, ◌≡◌, refl, sym, ap, ◌∙◌, ltb, leb,
  leb→le, lt→ltb, is_none, List, [], ◌∷◌, ◌++◌, length, length-append, drop, get_elem?, any,
  Bool-cases, inl, inr, arith,
}
use mathlib.Core.Path.{subst}
use delivery_tracking.Tracking.Fixes.{Fix, Distance, time, stop_cluster_min_duration}
use delivery_tracking.Tracking.Stops.{
  StopWindow, Group, centre_of, grow, is_confirmed, window, detect_from, detect_stop_windows,
  centred, collapse_from, collapse_stationary_windows,
}
use delivery_tracking.Tracking.Runs.{
  last_of, centre_from, IsChronological, InOrder, InOrder-tail, InOrder-rest, later_run, Stays,
  IsStop, IsLongest, Collapsed, Grown, grow_run, grow-longest, grow-most,
}

not_short : (n : ℕ) → 3 ≤ n → ltb n 3 ≡ false
not_short n h = ground arith

get_elem?-last_of :
    (f : Fix) (run rest : List Fix)
    → get_elem? (f ∷ (run ++ rest)) (length run) ≡ some (last_of f run)
get_elem?-last_of f [] rest = refl
get_elem?-last_of f (g ∷ run) rest = get_elem?-last_of g run rest

drop-run : (run rest : List Fix) → drop (length run) (run ++ rest) ≡ rest
drop-run [] rest = refl
drop-run (g ∷ run) rest = drop-run run rest

-- The first window begins at the index or later, and does not end before it begins.
abbrev StartsFrom : ℕ → List StopWindow → Type 0
StartsFrom k [] = Unit
StartsFrom k (w ∷ ws) = (k ≤ w.start_index) × (w.start_index ≤ w.end_index)

StartsFrom-pred : (k : ℕ) (ws : List StopWindow) → StartsFrom (k + 1) ws → StartsFrom k ws
StartsFrom-pred k [] h = tt
StartsFrom-pred k (w ∷ ws) h = omega arith

collapse_from-keep :
    (k : ℕ) (f : Fix) (fs : List Fix) (ws : List StopWindow)
    → StartsFrom (k + 1) ws
    → collapse_from k (f ∷ fs) ws ≡ f ∷ collapse_from (k + 1) fs ws
unfolding collapse_from
collapse_from-keep k f fs [] h = refl
collapse_from-keep k f fs (w ∷ ws) h =
    let a : w.start_index - k ≡ suc (w.start_index - (k + 1)) = omega arith in
    let b : w.end_index - k ≡ suc (w.end_index - (k + 1)) = omega arith in
    let c : w.end_index + 1 - k ≡ suc (w.end_index + 1 - (k + 1)) = omega arith in rw (a, b, c)

collapse_from-window :
    (k : ℕ) (f : Fix) (run rest : List Fix) (w : StopWindow) (ws : List StopWindow)
    → w.start_index ≡ k
    → w.end_index ≡ k + length run
    → collapse_from k (f ∷ (run ++ rest)) (w ∷ ws)
      ≡ centred (last_of f run) w.latitude w.longitude
        ∷ collapse_from (k + suc (length run)) rest ws
unfolding collapse_from
collapse_from-window k f run rest w ws p q =
    let a : w.start_index - k ≡ 0 = omega arith in
    let b : w.end_index - k ≡ length run = omega arith in
    let c : w.end_index + 1 - k ≡ suc (length run) = omega arith in
    let d : w.end_index + 1 ≡ k + suc (length run) = omega arith in
    rw (a, b, c, d) (rw (get_elem?-last_of f run rest, drop-run run rest))

same_split :
    (run rest run' rest' : List Fix)
    → run ++ rest ≡ run' ++ rest'
    → length run ≡ length run'
    → (run ≡ run') × (rest ≡ rest')
same_split [] rest [] rest' e h = (refl, e)
same_split [] rest (g ∷ run') rest' e h = absurd (omega arith)
same_split (f ∷ run) rest [] rest' e h = absurd (omega arith)
same_split (f ∷ run) rest (g ∷ run') rest' e h =
    let (a, b) = same_split run rest run' rest' (cc e) (omega arith) in
    let same : f ≡ g = cc e in (cc (a, same), b)

module _ (distance : Distance) where
  not_confirmed :
      (f : Fix) (fs : List Fix)
      → is_confirmed distance f (grow distance f (centre_of f) fs) ≡ false
      → time (grow distance f (centre_of f) fs).last < time f + stop_cluster_min_duration
  not_confirmed f fs e =
      let r = grow_run distance f (centre_of f) fs in
      elim (Bool-cases (leb (time f + stop_cluster_min_duration) (time (last_of f r.run)))) [
        | inr early ↦ rw r.last (ground arith)
        | inl late ↦
            let some_run : 0 < length r.run = later_run f r.run (omega (arith, leb→le _ _ late)) in
            let many : ltb 1 (grow distance f (centre_of f) fs).centre.count ≡ true =
              lt→ltb _ _ (omega (arith, r.count)) in
            let late' : time f + stop_cluster_min_duration
                ≤ time (grow distance f (centre_of f) fs).last =
              rw r.last (leb→le _ _ late) in
            ground arith
      ]

  -- Where the outer loop confirms no stop, none begins.
  no_stop :
      (f : Fix) (fs : List Fix)
      → IsChronological f fs
      → is_confirmed distance f (grow distance f (centre_of f) fs) ≡ false
      → (run rest : List Fix) → fs ≡ run ++ rest
      → IsStop distance f run
      → ⊥
  no_stop f fs o e run rest split s =
      let o' : IsChronological f (run ++ rest) = rw split at o in
      let early = not_confirmed f (run ++ rest) (rw split at e) in
      let longest = grow-longest distance f (centre_of f) run rest o' s.0 in absurd (omega arith)

  detect_from-StartsFrom :
      (fuel k : ℕ) (fs : List Fix) → StartsFrom k (detect_from distance fuel k fs)
  unfolding detect_from
  detect_from-StartsFrom zero k fs = tt
  detect_from-StartsFrom (suc fuel) k [] = tt
  detect_from-StartsFrom (suc fuel) k (f ∷ fs) =
      elim (Bool-cases (is_confirmed distance f (grow distance f (centre_of f) fs))) [
        | inl e ↦ rw e (omega arith, ground arith)
        | inr e ↦ rw e (StartsFrom-pred k _ (detect_from-StartsFrom fuel (k + 1) fs))
      ]

  nothing :
      (fuel k : ℕ) → Collapsed distance [] (collapse_from k [] (detect_from distance fuel k []))
  unfolding detect_from collapse_from
  nothing zero k = Collapsed.done
  nothing (suc fuel) k = Collapsed.done

  detect_from-confirmed :
      (fuel k : ℕ) (f : Fix) (fs : List Fix)
      → is_confirmed distance f (grow distance f (centre_of f) fs) ≡ true
      → detect_from distance (suc fuel) k (f ∷ fs)
        ≡ window distance k f (grow distance f (centre_of f) fs)
          ∷ detect_from distance fuel
              (k + (grow distance f (centre_of f) fs).centre.count)
              (grow distance f (centre_of f) fs).rest
  unfolding detect_from
  detect_from-confirmed fuel k f fs e = rw e

  detect_from-next :
      (fuel k : ℕ) (f : Fix) (fs : List Fix)
      → is_confirmed distance f (grow distance f (centre_of f) fs) ≡ false
      → detect_from distance (suc fuel) k (f ∷ fs) ≡ detect_from distance fuel (k + 1) fs
  unfolding detect_from
  detect_from-next fuel k f fs e = rw e

  confirmed_late :
      (f : Fix) (g : Group)
      → is_confirmed distance f g ≡ true
      → time f + stop_cluster_min_duration ≤ time g.last
  confirmed_late f g e = ground arith

  -- The step of the proof at a stop, for the run that the inner loop took.
  confirmed_stop :
      (k : ℕ) (f : Fix) (run : List Fix) (ws : List StopWindow) (g : Group)
      → g.centre ≡ centre_from (centre_of f) run
      → g.last ≡ last_of f run
      → g.centre.count ≡ 1 + length run
      → Stays distance f (centre_of f) run
      → IsLongest distance f run (run ++ g.rest)
      → is_confirmed distance f g ≡ true
      → Collapsed distance g.rest (collapse_from (k + g.centre.count) g.rest ws)
      → Collapsed distance
          (f ∷ (run ++ g.rest))
          (collapse_from k (f ∷ (run ++ g.rest)) (window distance k f g ∷ ws))
  confirmed_stop k f run ws g centre last count stays longest e ih =
      let late : time f + stop_cluster_min_duration ≤ time (last_of f run) =
        rw (← last) (confirmed_late f g e) in
      let here : k + g.centre.count ≡ k + suc (length run) = omega arith in
      let ih' : Collapsed distance g.rest (collapse_from (k + suc (length run)) g.rest ws) =
        rw here at ih in
      rw (collapse_from-window k f run g.rest (window distance k f g) ws refl (omega arith))
        (rw centre (Collapsed.stop f (run ++ g.rest) run g.rest _ refl (stays, late) longest ih'))

  IsLongest-run :
      (f : Fix) (fs : List Fix) (r : Grown distance f (centre_of f) fs)
      → IsLongest distance f r.run fs
  IsLongest-run f fs r run' rest' e s =
      let most : 1 + length run' ≤ (grow distance f (centre_of f) fs).centre.count =
        subst (λ t. 1 + length run' ≤ (grow distance f (centre_of f) t).centre.count) (sym e)
          (grow-most distance f (centre_of f) run' rest' s) in
      omega (arith, most, r.count)

  detect_from-Collapsed :
      (fuel k : ℕ) (fs : List Fix)
      → length fs ≤ fuel
      → InOrder fs
      → Collapsed distance fs (collapse_from k fs (detect_from distance fuel k fs))
  detect_from-Collapsed zero k [] h o = nothing zero k
  detect_from-Collapsed (suc fuel) k [] h o = nothing (suc fuel) k
  detect_from-Collapsed zero k (f ∷ fs) h o = absurd (omega arith)
  detect_from-Collapsed (suc fuel) k (f ∷ fs) h o =
      elim (Bool-cases (is_confirmed distance f (grow distance f (centre_of f) fs))) [
        | inl e ↦
            let r = grow_run distance f (centre_of f) fs in
            let g = grow distance f (centre_of f) fs in
            let shorter : length g.rest ≤ fuel =
              omega (arith, ap length r.cut, length-append r.run g.rest) in
            let ordered : InOrder g.rest = InOrder-rest f r.run g.rest (rw r.cut at o) in
            let ws = detect_from distance fuel (k + g.centre.count) g.rest in
            let ih = detect_from-Collapsed fuel (k + g.centre.count) g.rest shorter ordered in
            rw (detect_from-confirmed fuel k f fs e) (
              subst
                (λ t.
                  Collapsed distance (f ∷ t) (collapse_from k (f ∷ t) (window distance k f g ∷ ws)))
                (sym r.cut)
                (confirmed_stop k f r.run ws g r.centre r.last r.count r.stays
                  (subst (λ t. IsLongest distance f r.run t) r.cut (IsLongest-run f fs r)) e ih))
        | inr e ↦ rw (detect_from-next fuel k f fs e) (
            rw (collapse_from-keep k f fs _ (detect_from-StartsFrom fuel (k + 1) fs)) (
              Collapsed.keep f fs _ (no_stop f fs o e)
                (detect_from-Collapsed fuel (k + 1) fs (omega arith) (InOrder-tail f fs o))))
      ]

  is_collapsed :
      (positions : List Fix)
      → 3 ≤ length positions
      → any (λ p. is_none p.timestamp) positions ≡ false
      → InOrder positions
      → Collapsed distance positions (collapse_stationary_windows distance positions)
  unfolding collapse_stationary_windows detect_stop_windows
  is_collapsed positions h t o =
      rw (t, not_short _ h) (detect_from-Collapsed _ 0 positions (omega arith) o)

  -- The description leaves no choice.
  Collapsed-unique :
      (xs ys zs : List Fix) → Collapsed distance xs ys → Collapsed distance xs zs → ys ≡ zs
  Collapsed-unique _ _ _ Collapsed.done Collapsed.done = refl
  Collapsed-unique _ _ _ (Collapsed.keep f fs gs n c) (Collapsed.keep _ _ hs m d) =
      ap (λ t. f ∷ t) (Collapsed-unique fs gs hs c d)
  Collapsed-unique _ _ _ (Collapsed.keep f fs gs n c) (Collapsed.stop _ _ run rest hs e s l d) =
      absurd (n run rest e s)
  Collapsed-unique _ _ _ (Collapsed.stop f fs run rest gs e s l c) (Collapsed.keep _ _ hs m d) =
      absurd (m run rest e s)
  Collapsed-unique _ _ _ (Collapsed.stop f fs run rest gs e s l c)
        (Collapsed.stop _ _ run' rest' hs e' s' l' d) =
      let as_long : length run ≡ length run' =
        omega (arith, l run' rest' e' s'.0, l' run rest e s.0) in
      let (same_run, same_rest) = same_split run rest run' rest' (sym e ∙ e') as_long in
      let tails =
        Collapsed-unique rest gs hs c (subst (λ t. Collapsed distance t hs) (sym same_rest) d) in
      rw (same_run, tails) refl

  -- On a sequence of at least three fixes with their instants, which do not go back, a sequence is
  -- the collapsed one exactly if an index-free description holds of it: from left to right it keeps each
  -- fix that no stop begins with, and the longest run from any other fix becomes its last fix,
  -- moved to the centre of the run. A stop is a run of dense fixes that stay near their running centre,
  -- without a reliable speed above the threshold, for at least a minute.
  pub collapse_stationary_windows-Collapsed :
      (positions gs : List Fix)
      → 3 ≤ length positions
      → any (λ p. is_none p.timestamp) positions ≡ false
      → InOrder positions
      → Collapsed distance positions gs ↔ (gs ≡ collapse_stationary_windows distance positions)
  collapse_stationary_windows-Collapsed positions gs h t o =
      let c = is_collapsed positions h t o in
      (
        λ d. Collapsed-unique positions gs _ d c,
        λ e. subst (Collapsed distance positions) (sym e) c,
      )
