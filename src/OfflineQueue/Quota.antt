-- ===== src/OfflineQueue/Quota.antt =====
-- The quota of the offline queue, and what an enqueued position may push out.
use mathlib.Core.Path.{subst}
use delivery_tracking.Prelude.{
  ℕ, suc, ◌-◌, ◌≡◌, ◌≤◌, ◌<◌, refl, sym, inl, inr, true, false, List, [], ◌∷◌, ◌++◌, arith, All,
  Bool-cases, length, length-append, leb, leb→le,
}
use delivery_tracking.OfflineQueue.Store.{
  Position, Entry, Queue, visit, compact_oldest_positions, compact_horizon_ms, queue_max_size,
  stored, enqueue_full, enqueue_compacted, enqueue_position,
}
use delivery_tracking.OfflineQueue.Ordered.{IsWithin, IsWithin-lower, IsWithin-snoc}
use delivery_tracking.OfflineQueue.Compaction.{
  Has, Stands, survivors, visit-id, compact-survivors, compact-Stands,
}

-- The keys of the queue ascend below the next one, and the quota is respected.
pub record IsReady (q : Queue) : Type 0 where
  pub ordered : IsWithin 0 q.next_id q.entries
  pub bounded : length q.entries ≤ queue_max_size

survivors-IsWithin :
    (cutoff : ℕ) (kept : List (ℕ × ℕ)) (lo hi : ℕ) (es : List Entry)
    → IsWithin lo hi es
    → IsWithin lo hi (survivors cutoff kept es)
unfolding survivors
survivors-IsWithin cutoff kept lo hi [] h = h
survivors-IsWithin cutoff kept lo hi (e ∷ es) h =
    let v = visit cutoff kept e in
    let rest = survivors-IsWithin cutoff v.kept (suc e.id) hi es h.1 in
    elim (Bool-cases v.deletes) [
      | inl gone ↦
          rw gone
            (IsWithin-lower (suc e.id) lo hi (survivors cutoff v.kept es) (omega (arith, h.0)) rest)
      | inr stays ↦ rw (stays, visit-id cutoff kept e) (h.0, rest)
    ]

length-survivors :
    (cutoff : ℕ) (kept : List (ℕ × ℕ)) (es : List Entry)
    → length (survivors cutoff kept es) ≤ length es
unfolding survivors
length-survivors cutoff kept [] = omega arith
length-survivors cutoff kept (e ∷ es) =
    let v = visit cutoff kept e in ground (arith, length-survivors cutoff v.kept es)

compact-IsReady : (now : ℕ) (q : Queue) → IsReady q → IsReady (compact_oldest_positions now q).1
unfolding compact_oldest_positions
compact-IsReady now q h =
    let e = compact-survivors now 0 q.next_id q h.ordered in
    let cutoff = now - compact_horizon_ms in
    record {
      ordered =
          subst (λ es. IsWithin 0 q.next_id es) (sym e)
            (survivors-IsWithin cutoff [] 0 q.next_id q.entries h.ordered);
      bounded = rw e (omega (arith, length-survivors cutoff [] q.entries, h.bounded));
    }

stored-IsReady :
    (now : ℕ) (pos : Position) (q : Queue)
    → IsWithin 0 q.next_id q.entries
    → length q.entries < queue_max_size
    → IsReady (stored now pos q)
stored-IsReady now pos q h room = record {
  ordered = IsWithin-snoc 0 q.next_id q.entries _ refl h;
  bounded =
      omega (
        arith,
        room,
        length-append q.entries ((stored now pos (record q { entries = [] })).entries),
      );
}

full-IsReady :
    (now : ℕ) (pos : Position) (q : Queue) (es : List Entry)
    → q.entries ≡ es
    → IsReady q
    → IsReady (enqueue_full now pos q es).1
full-IsReady now pos q [] same h = h
full-IsReady now pos q (e ∷ es) same h =
    let ordered : IsWithin 0 q.next_id (e ∷ es) =
      subst (λ x. IsWithin 0 q.next_id x) same h.ordered in
    stored-IsReady now pos (record q { entries = es })
      (IsWithin-lower (suc e.id) 0 q.next_id es (omega arith) ordered.1)
      (omega (arith, rw same at h.bounded))

enqueue_compacted-IsReady :
    (now : ℕ) (pos : Position) (q : Queue) → IsReady q → IsReady (enqueue_compacted now pos q).1
unfolding enqueue_compacted
enqueue_compacted-IsReady now pos q h = elim (Bool-cases (leb queue_max_size (length q.entries))) [
  | inl full ↦ rw full (full-IsReady now pos q q.entries refl h)
  | inr room ↦ rw room (stored-IsReady now pos q h.ordered (ground (arith, room)))
]

-- An enqueued position leaves the queue within its quota of 10000 entries, with ascending keys.
pub enqueue_position-IsReady :
    (now : ℕ) (pos : Position) (q : Queue) → IsReady q → IsReady (enqueue_position now pos q).1
unfolding enqueue_position
enqueue_position-IsReady now pos q h = elim (Bool-cases (leb queue_max_size (length q.entries))) [
  | inl full ↦ rw full (
      enqueue_compacted-IsReady now pos (compact_oldest_positions now q).1
        (compact-IsReady now q h))
  | inr room ↦ rw room (enqueue_compacted-IsReady now pos q h)
]

-- With room, the position is stored behind the others.
pub enqueue_room :
    (now : ℕ) (pos : Position) (q : Queue)
    → length q.entries < queue_max_size
    → (enqueue_position now pos q).1 ≡ stored now pos q
unfolding enqueue_position enqueue_compacted
enqueue_room now pos q room = ground (arith, room)

full-dropped :
    (now : ℕ) (pos : Position) (q : Queue) (es : List Entry)
    → queue_max_size ≤ length es
    → (enqueue_full now pos q es).0.dropped_oldest ≡ true
full-dropped now pos q [] h = absurd (omega (arith, h))
full-dropped now pos q (e ∷ es) h = refl

compacted-keeps :
    (now : ℕ) (pos : Position) (q : Queue)
    → (enqueue_compacted now pos q).0.dropped_oldest ≡ false
    → (enqueue_compacted now pos q).1 ≡ stored now pos q
unfolding enqueue_compacted
compacted-keeps now pos q quiet = elim (Bool-cases (leb queue_max_size (length q.entries))) [
  | inl full ↦ absurd (
      cc (
        full-dropped now pos q q.entries (leb→le queue_max_size (length q.entries) full),
        rw full at quiet,
      ))
  | inr room ↦ rw room refl
]

Has-append : (P : Entry → Type 0) (xs ys : List Entry) → Has P xs → Has P (xs ++ ys)
Has-append P [] ys h = absurd h
Has-append P (x ∷ xs) ys (inl here) = inl here
Has-append P (x ∷ xs) ys (inr there) = inr (Has-append P xs ys there)

append-Stands :
    (cutoff : ℕ) (left more es : List Entry)
    → All (λ e. Has (Stands cutoff e) left) es
    → All (λ e. Has (Stands cutoff e) (left ++ more)) es
append-Stands cutoff left more [] h = tt
append-Stands cutoff left more (e ∷ es) h =
    (Has-append (Stands cutoff e) left more h.0, append-Stands cutoff left more es h.1)

self-Stands : (cutoff : ℕ) (es : List Entry) → All (λ e. Has (Stands cutoff e) es) es
self-Stands cutoff [] = tt
self-Stands cutoff (e ∷ es) =
    (inl (inl (refl, refl, refl, refl)), one_before cutoff e es es (self-Stands cutoff es))
  where
    one_before :
        (cutoff : ℕ) (x : Entry) (left es : List Entry)
        → All (λ e. Has (Stands cutoff e) left) es
        → All (λ e. Has (Stands cutoff e) (x ∷ left)) es
    one_before cutoff x left [] h = tt
    one_before cutoff x left (e ∷ es) h = (inr h.0, one_before cutoff x left es h.1)

position_compacted :
    (now : ℕ) (pos : Position) (q : Queue)
    → leb queue_max_size (length q.entries) ≡ true
    → enqueue_position now pos q ≡ enqueue_compacted now pos (compact_oldest_positions now q).1
unfolding enqueue_position
position_compacted now pos q full = rw full refl

compacted-Stands :
    (now cutoff : ℕ) (pos : Position) (es : List Entry) (q : Queue)
    → All (λ e. Has (Stands cutoff e) q.entries) es
    → (enqueue_compacted now pos q).0.dropped_oldest ≡ false
    → All (λ e. Has (Stands cutoff e) (enqueue_compacted now pos q).1.entries) es
compacted-Stands now cutoff pos es q h quiet =
    subst (λ t. All (λ e. Has (Stands cutoff e) t.entries) es)
      (sym (compacted-keeps now pos q quiet))
      (append-Stands cutoff q.entries (stored now pos (record q { entries = [] })).entries es h)

-- A position is never lost in silence: if `droppedOldest` is not reported, then every position that
-- was in the queue is there afterwards, or one of its bucket that is marked as compressed is.
pub enqueue_position-Stands :
    (now : ℕ) (pos : Position) (q : Queue)
    → IsReady q
    → (enqueue_position now pos q).0.dropped_oldest ≡ false
    → All
        (λ e. Has (Stands (now - compact_horizon_ms) e) (enqueue_position now pos q).1.entries)
        q.entries
enqueue_position-Stands now pos q h quiet =
    let cutoff = now - compact_horizon_ms in
    elim (Bool-cases (leb queue_max_size (length q.entries))) [
      | inl full ↦
          let c = (compact_oldest_positions now q).1 in
          let e = position_compacted now pos q full in
          subst (λ t. All (λ e. Has (Stands cutoff e) t.1.entries) q.entries) (sym e)
            (compacted-Stands now cutoff pos q.entries c
              (compact-Stands now 0 q.next_id q h.ordered)
              (subst (λ t. t.0.dropped_oldest ≡ false) e quiet))
      | inr room ↦
          subst (λ t. All (λ e. Has (Stands cutoff e) t.entries) q.entries)
            (sym (enqueue_room now pos q (ground (arith, room))))
            (append-Stands cutoff q.entries (stored now pos (record q { entries = [] })).entries
              q.entries (self-Stands cutoff q.entries))
    ]
