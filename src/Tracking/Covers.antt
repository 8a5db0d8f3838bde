-- ===== src/Tracking/Covers.antt =====
-- The rows that stand for a position, and what keeps them.
use delivery_tracking.Prelude.{
  ℕ, Option, none, some, Bool, true, false, inl, inr, Bool-cases, Option-cases, ◌&&◌, ◌≡◌, ◌==◌,
  leb, List, [], ◌∷◌, ◌++◌, any, arith,
}
use mathlib.Core.List.{append_assoc, append-nil}
use delivery_tracking.Tracking.Rows.{ValidPosition, GpsPosition}
use delivery_tracking.Tracking.Batch.{is_near, is_near_to, newest, reference_of}
use delivery_tracking.Tracking.Save.{has_key_of, create_many}

-- A row of the vehicle within a second of the instant.
abbrev pub covers : ℕ → ℕ → GpsPosition → Bool
covers v t r = r.vehicle_id == v && is_near t r.timestamp

abbrev pub IsCovered : List GpsPosition → ValidPosition → Type 0
IsCovered rows p = any (covers p.vehicle_id p.timestamp) rows ≡ true

module _ (q : GpsPosition → Bool) where
  pub any-append_left : (rs ss : List GpsPosition) → any q rs ≡ true → any q (rs ++ ss) ≡ true
  any-append_left [] ss h = absurd (cc h)
  any-append_left (r ∷ rs) ss h = ground (arith, any-append_left rs ss)

  pub any-append_middle :
      (rs ss : List GpsPosition) (r : GpsPosition) → q r ≡ true → any q (rs ++ (r ∷ ss)) ≡ true
  any-append_middle [] ss r h = rw h
  any-append_middle (s ∷ rs) ss r h = ground (arith, any-append_middle rs ss r h)

  any-without :
      (rs ss : List GpsPosition) (r : GpsPosition)
      → q r ≡ false
      → any q (rs ++ (r ∷ ss)) ≡ true
      → any q (rs ++ ss) ≡ true
  any-without [] ss r f h = rw f at h
  any-without (s ∷ rs) ss r f h = ground (arith, any-without rs ss r f)

pub same_key :
    (r : GpsPosition) (v t : ℕ) (rs : List GpsPosition)
    → any (has_key_of r) rs ≡ true
    → covers v t r ≡ true
    → any (covers v t) rs ≡ true
same_key r v t [] h c = absurd (cc h)
same_key r v t (s ∷ rs) h c = ground (arith, same_key r v t rs)

-- Leaving out a row whose key is taken loses no cover.
pub any-taken :
    (r : GpsPosition) (v t : ℕ) (table rs : List GpsPosition)
    → any (has_key_of r) table ≡ true
    → any (covers v t) (table ++ (r ∷ rs)) ≡ true
    → any (covers v t) (table ++ rs) ≡ true
any-taken r v t table rs k h = elim (Bool-cases (covers v t r)) [
  | inl c ↦ any-append_left (covers v t) table rs (same_key r v t table k c)
  | inr c ↦ any-without (covers v t) table rs r c h
]

pub create_many-covers :
    (v t : ℕ) (table rs : List GpsPosition)
    → any (covers v t) (table ++ rs) ≡ true
    → any (covers v t) (create_many table rs).0 ≡ true
unfolding create_many
create_many-covers v t table [] h = rw append-nil at h
create_many-covers v t table (r ∷ rs) h = elim (Bool-cases (any (has_key_of r) table)) [
  | inl e ↦ rw e (create_many-covers v t table rs (any-taken r v t table rs e h))
  | inr e ↦ rw e (create_many-covers v t (table ++ (r ∷ [])) rs (rw append_assoc h))
]

newest_first_row :
    (v t : ℕ) (s : GpsPosition) (rs : List GpsPosition) (r : GpsPosition)
    → newest v rs ≡ none
    → newest v (s ∷ rs) ≡ some r
    → is_near t r.timestamp ≡ true
    → any (covers v t) (s ∷ rs) ≡ true
unfolding newest
newest_first_row v t s rs r e h k = ground arith

pub newest-covers :
    (v t : ℕ) (rs : List GpsPosition) (r : GpsPosition)
    → newest v rs ≡ some r
    → is_near t r.timestamp ≡ true
    → any (covers v t) rs ≡ true
unfolding newest
newest-covers v t [] r h k = absurd (cc h)
newest-covers v t (s ∷ rs) r h k = elim (Option-cases (newest v rs)) [
  | inl e ↦ newest_first_row v t s rs r e h k
  | inr (n, e) ↦ elim (Bool-cases (s.vehicle_id == v)) [
    | inl mine ↦ elim (Bool-cases (leb n.timestamp s.timestamp)) [
      | inl newer ↦ ground arith
      | inr older ↦ ground (arith, newest-covers v t rs n e)
    ]
    | inr other ↦ ground (arith, newest-covers v t rs n e)
  ]
]

pub reference_of-covers :
    (v t : ℕ) (rs : List GpsPosition) (o : Option GpsPosition)
    → newest v rs ≡ o
    → is_near_to (reference_of o) t ≡ true
    → any (covers v t) rs ≡ true
reference_of-covers v t rs none e h = absurd (cc h)
reference_of-covers v t rs (some r) e h = newest-covers v t rs r e h
