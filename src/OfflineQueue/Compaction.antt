-- ===== src/OfflineQueue/Compaction.antt =====
-- What the compaction of the offline queue keeps.
use mathlib.Core.Path.{subst}
use delivery_tracking.Prelude.{
  ℕ, suc, ◌-◌, ◌==◌, ◌≡◌, ◌≤◌, refl, sym, ◌⊎◌, inl, inr, true, false, Option, none, some, List, [],
  ◌∷◌, ap, ◌∙◌, ==_iff, arith, All, if◌then◌else◌, Option-cases, Bool-cases,
}
use delivery_tracking.Prelude.Table.{find?}
use delivery_tracking.OfflineQueue.Store.{
  Entry, Queue, old_bucket, visit, scan, delete_positions, compact_oldest_positions,
  compact_horizon_ms,
}
use delivery_tracking.OfflineQueue.Ordered.{IsWithin, delete_head, delete_above}

abbrev pub Has : (Entry → Type 0) → List Entry → Type 0
Has P [] = ⊥
Has P (x ∷ xs) = P x ⊎ Has P xs

-- The entry stands, perhaps marked as compressed, or an entry of its bucket is marked and stands for
-- it.
abbrev pub Stands : ℕ → Entry → Entry → Type 0
Stands cutoff e s =
    ((s.id ≡ e.id)
      × (s.timestamp ≡ e.timestamp)
      × (s.payload ≡ e.payload)
      × (s.queued_at ≡ e.queued_at))
    ⊎ ((old_bucket cutoff s ≡ old_bucket cutoff e) × (s.compressed ≡ true))

-- The entries that the compaction leaves, described without keys to delete.
unfoldable pub survivors : ℕ → List (ℕ × ℕ) → List Entry → List Entry
unfolding visit
survivors cutoff kept [] = []
survivors cutoff kept (e ∷ es) =
    let v = visit cutoff kept e in
    let rest = survivors cutoff v.kept es in if v.deletes then rest else v.entry ∷ rest

pub visit-id :
    (cutoff : ℕ) (kept : List (ℕ × ℕ)) (e : Entry) → (visit cutoff kept e).entry.id ≡ e.id
unfolding visit
visit-id cutoff kept e = elim (Option-cases (old_bucket cutoff e)) [
  | inl young ↦ rw young refl
  | inr (b, old) ↦ elim (Option-cases (find? (λ p. p.0 == b) kept)) [
    | inl new ↦ rw (old, new) refl
    | inr (k, seen) ↦ rw (old, seen) refl
  ]
]

scan-IsWithin :
    (cutoff : ℕ) (kept : List (ℕ × ℕ)) (lo hi : ℕ) (es : List Entry)
    → IsWithin lo hi es
    → IsWithin lo hi (scan cutoff kept es).0
unfolding scan
scan-IsWithin cutoff kept lo hi [] h = h
scan-IsWithin cutoff kept lo hi (e ∷ es) h =
    rw (visit-id cutoff kept e)
      (h.0, scan-IsWithin cutoff (visit cutoff kept e).kept (suc e.id) hi es h.1)

above-lower :
    (lo lo' : ℕ) (ids : List ℕ) → lo' ≤ lo → All (λ id. lo ≤ id) ids → All (λ id. lo' ≤ id) ids
above-lower lo lo' [] h k = tt
above-lower lo lo' (id ∷ ids) h k = (omega (arith, h, k.0), above-lower lo lo' ids h k.1)

scan-above :
    (cutoff : ℕ) (kept : List (ℕ × ℕ)) (lo hi : ℕ) (es : List Entry)
    → IsWithin lo hi es
    → All (λ id. lo ≤ id) (scan cutoff kept es).1
unfolding scan
scan-above cutoff kept lo hi [] h = tt
scan-above cutoff kept lo hi (e ∷ es) h =
    let v = visit cutoff kept e in
    let rest =
      above-lower (suc e.id) lo (scan cutoff v.kept es).1 (omega (arith, h.0))
        (scan-above cutoff v.kept (suc e.id) hi es h.1) in
    elim (Bool-cases v.deletes) [ inl gone ↦ rw gone (h.0, rest) | inr stays ↦ rw stays rest ]

-- The scan and the deletion leave the survivors.
scan-survivors :
    (cutoff : ℕ) (kept : List (ℕ × ℕ)) (lo hi : ℕ) (es : List Entry)
    → IsWithin lo hi es
    → delete_positions (scan cutoff kept es).1 (scan cutoff kept es).0 ≡ survivors cutoff kept es
unfolding scan survivors delete_positions
scan-survivors cutoff kept lo hi [] h = refl
scan-survivors cutoff kept lo hi (e ∷ es) h =
    let v = visit cutoff kept e in
    let rest = scan-survivors cutoff v.kept (suc e.id) hi es h.1 in
    let same = visit-id cutoff kept e in
    elim (Bool-cases v.deletes) [
      | inl gone ↦
          rw (gone, delete_positions)
            (rw
              (delete_head e.id hi v.entry (scan cutoff v.kept es).0 same
                (scan-IsWithin cutoff v.kept (suc e.id) hi es h.1))
              rest)
      | inr stays ↦ rw stays (
          delete_above (scan cutoff v.kept es).1 v.entry (scan cutoff v.kept es).0
            (rw same (scan-above cutoff v.kept (suc e.id) hi es h.1))
          ∙ ap (λ r. v.entry ∷ r) rest)
    ]

-- An entry of the bucket was kept before.
abbrev Kept : ℕ → List (ℕ × ℕ) → Entry → Type 0
Kept cutoff kept e =
    (b : ℕ) × (old_bucket cutoff e ≡ some b) × ((k : ℕ × ℕ) × (find? (λ p. p.0 == b) kept ≡ some k))

abbrev Covered : ℕ → List (ℕ × ℕ) → List Entry → Entry → Type 0
Covered cutoff kept left e = Has (Stands cutoff e) left ⊎ Kept cutoff kept e

All-map : (P Q : Entry → Type 0) (es : List Entry) → ((e : Entry) → P e → Q e) → All P es → All Q es
All-map P Q [] f h = tt
All-map P Q (e ∷ es) f h = (f e h.0, All-map P Q es f h.1)

one_more :
    (cutoff : ℕ) (kept : List (ℕ × ℕ)) (s : Entry) (left es : List Entry)
    → All (Covered cutoff kept left) es
    → All (Covered cutoff kept (s ∷ left)) es
one_more cutoff kept s left es h =
    All-map (Covered cutoff kept left) (Covered cutoff kept (s ∷ left)) es
      (λ e c. elim c [ inl there ↦ inl (inr there) | inr k ↦ inr k ]) h

-- The entry that is marked for its bucket covers what the bucket then covers.
marked :
    (cutoff b id : ℕ) (kept : List (ℕ × ℕ)) (s : Entry) (left es : List Entry)
    → old_bucket cutoff s ≡ some b
    → s.compressed ≡ true
    → All (Covered cutoff ((b, id) ∷ kept) left) es
    → All (Covered cutoff kept (s ∷ left)) es
unfolding find?
marked cutoff b id kept s left es old mark h =
    All-map (Covered cutoff ((b, id) ∷ kept) left) (Covered cutoff kept (s ∷ left)) es each h
  where
    each : (e : Entry) → Covered cutoff ((b, id) ∷ kept) left e → Covered cutoff kept (s ∷ left) e
    each e (inl there) = inl (inr there)
    each e (inr (b', where_at, (k, found))) = elim (Bool-cases (b == b')) [
      | inl same ↦ inl (inl (inr (old ∙ ap some ((==_iff b b').0 same) ∙ sym where_at, mark)))
      | inr other ↦ inr (b', where_at, (k, rw other at found))
    ]

-- The four ways in which the cursor passes an entry.
module _ (cutoff : ℕ) (kept : List (ℕ × ℕ)) (e : Entry) (es : List Entry) where
  survivors_young :
      old_bucket cutoff e ≡ none → survivors cutoff kept (e ∷ es) ≡ e ∷ survivors cutoff kept es
  unfolding survivors visit
  survivors_young young = rw young refl

  module _ (b : ℕ) (old : old_bucket cutoff e ≡ some b) where
    survivors_first :
        find? (λ p. p.0 == b) kept ≡ none
        → survivors cutoff kept (e ∷ es)
          ≡ record e { compressed = true } ∷ survivors cutoff ((b, e.id) ∷ kept) es
    unfolding survivors visit
    survivors_first new = rw (old, new) refl

    module _ (k : ℕ × ℕ) (seen : find? (λ p. p.0 == b) kept ≡ some k) where
      survivors_self :
          (k.1 == e.id) ≡ true → survivors cutoff kept (e ∷ es) ≡ e ∷ survivors cutoff kept es
      unfolding survivors visit
      survivors_self self = rw (old, seen, self) refl

      survivors_absorbed :
          (k.1 == e.id) ≡ false → survivors cutoff kept (e ∷ es) ≡ survivors cutoff kept es
      unfolding survivors visit
      survivors_absorbed other = rw (old, seen, other) refl

mark-old_bucket :
    (cutoff : ℕ) (e : Entry)
    → old_bucket cutoff (record e { compressed = true }) ≡ old_bucket cutoff e
unfolding old_bucket
mark-old_bucket cutoff e = refl

survivors-stand :
    (cutoff : ℕ) (kept : List (ℕ × ℕ)) (es : List Entry)
    → All (Covered cutoff kept (survivors cutoff kept es)) es
survivors-stand cutoff kept [] = tt
survivors-stand cutoff kept (e ∷ es) =
    let covered : List Entry → Type 0 = λ left. All (Covered cutoff kept left) (e ∷ es) in
    let self : Stands cutoff e e = inl (refl, refl, refl, refl) in
    let rest = survivors-stand cutoff kept es in
    elim (Option-cases (old_bucket cutoff e)) [
      | inl young ↦
          subst covered (sym (survivors_young cutoff kept e es young))
            (inl (inl self), one_more cutoff kept e (survivors cutoff kept es) es rest)
      | inr (b, old) ↦ elim (Option-cases (find? (λ p. p.0 == b) kept)) [
        | inl new ↦
            let left = survivors cutoff ((b, e.id) ∷ kept) es in
            subst covered (sym (survivors_first cutoff kept e es b old new)) (
              inl (inl (inr (mark-old_bucket cutoff e, refl))),
              marked cutoff b e.id kept (record e { compressed = true }) left es
                  (mark-old_bucket cutoff e ∙ old) refl
                  (survivors-stand cutoff ((b, e.id) ∷ kept) es),
            )
        | inr (k, seen) ↦ elim (Bool-cases (k.1 == e.id)) [
          | inl same ↦
              subst covered (sym (survivors_self cutoff kept e es b old k seen same))
                (inl (inl self), one_more cutoff kept e (survivors cutoff kept es) es rest)
          | inr other ↦
              subst covered (sym (survivors_absorbed cutoff kept e es b old k seen other))
                (inr (b, old, (k, seen)), rest)
        ]
      ]
    ]

Covered-left :
    (cutoff : ℕ) (left es : List Entry)
    → All (Covered cutoff [] left) es
    → All (λ e. Has (Stands cutoff e) left) es
Covered-left cutoff left es h =
    All-map (Covered cutoff [] left) (λ e. Has (Stands cutoff e) left) es each h
  where
    empty : (b : ℕ) → ◌≡◌ {A = Option (ℕ × ℕ)} none (find? (λ p. p.0 == b) [])
    empty b = unfold find? in refl

    nothing : (k : ℕ × ℕ) → none ≡ some k → ⊥
    nothing k h = cc h

    none_kept : (b : ℕ) (k : ℕ × ℕ) → find? (λ p. p.0 == b) [] ≡ some k → ⊥
    none_kept b k found = nothing k (empty b ∙ found)

    each : (e : Entry) → Covered cutoff [] left e → Has (Stands cutoff e) left
    each e (inl there) = there
    each e (inr (b, where_at, (k, found))) = absurd (none_kept b k found)

pub compact-survivors :
    (now lo hi : ℕ) (q : Queue)
    → IsWithin lo hi q.entries
    → (compact_oldest_positions now q).1.entries ≡ survivors (now - compact_horizon_ms) [] q.entries
unfolding compact_oldest_positions
compact-survivors now lo hi q h = scan-survivors (now - compact_horizon_ms) [] lo hi q.entries h

-- The compaction loses no position without a trace: for each entry of a queue whose keys ascend,
-- the entry is there afterwards, or one of the same bucket that is marked as compressed is.
pub compact-Stands :
    (now lo hi : ℕ) (q : Queue)
    → IsWithin lo hi q.entries
    → All
        (λ e. Has (Stands (now - compact_horizon_ms) e) (compact_oldest_positions now q).1.entries)
        q.entries
compact-Stands now lo hi q h =
    subst (λ left. All (λ e. Has (Stands (now - compact_horizon_ms) e) left) q.entries)
      (sym (compact-survivors now lo hi q h))
      (Covered-left (now - compact_horizon_ms) (survivors (now - compact_horizon_ms) [] q.entries)
        q.entries (survivors-stand (now - compact_horizon_ms) [] q.entries))
