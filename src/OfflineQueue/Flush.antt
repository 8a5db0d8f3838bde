-- ===== src/OfflineQueue/Flush.antt =====
-- What a flush of the offline queue sends and what it leaves.
use mathlib.Core.Path.{subst}
use mathlib.Core.List.{append_assoc}
use delivery_tracking.Prelude.{
  ℕ, zero, suc, ◌+◌, ◌≡◌, ◌≤◌, refl, sym, ap, ◌∙◌, Bool, true, false, Option, none, some, List, [],
  ◌∷◌, ◌++◌, map, arith, All, if◌then◌else◌, length, length-append,
}
use delivery_tracking.OfflineQueue.Store.{
  Position, Entry, Queue, Send, Flush, drained, send_failed, waiting, take, dequeue_positions,
  deleted, delete_positions, enqueue_all, stored, flush_chunk, flush_pending, flush_loop,
  flush_queue, queue_max_size, released,
}
use delivery_tracking.OfflineQueue.Ordered.{IsWithin, IsWithin-snoc, IsWithin-suffix, delete_prefix}
use delivery_tracking.OfflineQueue.Quota.{enqueue_room}

append_nil : (xs : List Entry) → xs ++ [] ≡ xs
append_nil [] = refl
append_nil (x ∷ xs) = ap (λ r. x ∷ r) (append_nil xs)

All-append : (P : Entry → Type 0) (xs ys : List Entry) → All P xs → All P ys → All P (xs ++ ys)
All-append P [] ys h k = k
All-append P (x ∷ xs) ys h k = (h.0, All-append P xs ys h.1 k)

newer :
    (m n : ℕ) (es : List Entry)
    → m ≤ n
    → All (λ e. n ≤ Entry.id e) es
    → All (λ e. m ≤ Entry.id e) es
newer m n [] h k = tt
newer m n (e ∷ es) h k = (omega (arith, h, k.0), newer m n es h k.1)

-- The positions that arrive while the calls are awaited.
abbrev pub arrivals : List Send → ℕ
arrivals [] = 0
arrivals (s ∷ ss) = length s.arrived + arrivals ss

-- A queue after `n` arrivals: the entries, and the new ones behind them.
pub record Arrived (q r : Queue) (n : ℕ) : Type 0 where
  pub added : List Entry
  pub behind : r.entries ≡ q.entries ++ added
  pub fresh : All (λ e. q.next_id ≤ Entry.id e) added
  pub count : length added ≡ n
  pub ordered : IsWithin 0 r.next_id r.entries
  pub later : q.next_id ≤ r.next_id

pub enqueue_all-Arrived :
    (ps : List (ℕ × Position)) (q : Queue)
    → IsWithin 0 q.next_id q.entries
    → length q.entries + length ps ≤ queue_max_size
    → Arrived q (enqueue_all ps q) (length ps)
unfolding enqueue_all
enqueue_all-Arrived [] q h room = record {
  added = [];
  behind = sym (append_nil q.entries);
  fresh = tt;
  count = refl;
  ordered = h;
  later = omega arith;
}
enqueue_all-Arrived ((now, pos) ∷ ps) q h room =
    let n = (stored now pos (record q { entries = [] })).entries in
    let s = stored now pos q in
    let a : Arrived s (enqueue_all ps s) (length ps) =
      enqueue_all-Arrived ps s (IsWithin-snoc 0 q.next_id q.entries _ refl h)
        (omega (arith, room, length-append q.entries n)) in
    rw (enqueue_room now pos q (omega (arith, room))) (record {
      added = n ++ a.added;
      behind = a.behind ∙ append_assoc q.entries n a.added;
      fresh = (omega arith, newer q.next_id (q.next_id + 1) a.added (omega arith) a.fresh);
      count = omega (arith, a.count);
      ordered = a.ordered;
      later = omega (arith, a.later);
    })

split_take : (n : ℕ) (es : List Entry) → (ys : List Entry) × (es ≡ take n es ++ ys)
split_take zero es = (es, refl)
split_take (suc n) [] = ([], refl)
split_take (suc n) (e ∷ es) = let (ys, h) = split_take n es in (ys, ap (λ r. e ∷ r) h)

pub split_dequeue :
    (chunk_size : Option ℕ) (es : List Entry)
    → (ys : List Entry) × (es ≡ dequeue_positions chunk_size es ++ ys)
split_dequeue none es = ([], sym (append_nil es))
split_dequeue (some n) es = split_take n es

-- What was sent, with what is left, is what there was, with what came.
pub record Conserves (q : Queue) (f : Flush) : Type 0 where
  pub added : List Entry
  pub whole : f.sent ++ f.queue.entries ≡ q.entries ++ added
  pub fresh : All (λ e. q.next_id ≤ Entry.id e) added

unsent :
    (q r : Queue) (n : ℕ) (f : Flush) → f.sent ≡ [] → f.queue ≡ r → Arrived q r n → Conserves q f
unsent q r n f nothing same a = record {
  added = a.added;
  whole = rw (nothing, same) a.behind;
  fresh = a.fresh;
}

unchanged : (q : Queue) (f : Flush) → f.sent ≡ [] → f.queue ≡ q → Conserves q f
unchanged q f nothing same = record {
  added = [];
  whole = rw (nothing, same) (sym (append_nil q.entries));
  fresh = tt;
}

-- A chunk: the entries that were read, those behind them, and the queue when the call has ended.
module _ (q after : Queue) (n : ℕ) (es ys : List Entry) (split : q.entries ≡ es ++ ys)
    (a : Arrived q after n) where
  after_split : after.entries ≡ es ++ (ys ++ a.added)
  after_split = a.behind ∙ ap (λ r. r ++ a.added) split ∙ append_assoc es ys a.added

  pub left_behind : (deleted es after).entries ≡ ys ++ a.added
  left_behind =
      ap (λ r. delete_positions (map (λ e. e.id) es) r) after_split
      ∙ delete_prefix 0 after.next_id es (ys ++ a.added)
          (subst (λ r. IsWithin 0 after.next_id r) after_split a.ordered)

  pub left-IsWithin : IsWithin 0 after.next_id (deleted es after).entries
  left-IsWithin =
      subst (λ r. IsWithin 0 after.next_id r) (sym left_behind)
        (IsWithin-suffix 0 after.next_id es (ys ++ a.added)
          (subst (λ r. IsWithin 0 after.next_id r) after_split a.ordered))

  sent_more :
      (f : Flush) → Conserves (deleted es after) f → Conserves q (record f { sent = es ++ f.sent })
  sent_more f c = record {
    added = a.added ++ c.added;
    whole =
        append_assoc es f.sent f.queue.entries
        ∙ ap (λ r. es ++ r) (c.whole ∙ ap (λ r. r ++ c.added) left_behind)
        ∙ sym (append_assoc es (ys ++ a.added) c.added)
        ∙ ap (λ r. r ++ c.added) (sym after_split ∙ a.behind)
        ∙ append_assoc q.entries a.added c.added;
    fresh =
        All-append (λ e. q.next_id ≤ Entry.id e) a.added c.added a.fresh
          (newer q.next_id after.next_id c.added a.later c.fresh);
  }

chunk-Conserves :
    (acked : Bool) (q after : Queue) (n : ℕ) (es ys : List Entry) (rest : Flush)
    → q.entries ≡ es ++ ys
    → Arrived q after n
    → Conserves (deleted es after) rest
    → Conserves q (flush_chunk es acked q after rest)
chunk-Conserves acked q after n [] ys rest split a c =
    unchanged q (record { end = drained; sent = []; queue = q }) refl refl
chunk-Conserves true q after n (e ∷ es) ys rest split a c =
    sent_more q after n (e ∷ es) ys split a rest c
chunk-Conserves false q after n (e ∷ es) ys rest split a c =
    unsent q after n (record { end = send_failed; sent = []; queue = after }) refl refl a

pending-Conserves : (q : Queue) (es : List Entry) → Conserves q (flush_pending es q)
pending-Conserves q [] = unchanged q (record { end = drained; sent = []; queue = q }) refl refl
pending-Conserves q (e ∷ es) =
    unchanged q (record { end = waiting; sent = []; queue = q }) refl refl

pub shorter :
    (q after : Queue) (n : ℕ) (es ys : List Entry) (split : q.entries ≡ es ++ ys)
    (a : Arrived q after n)
    → length (deleted es after).entries ≤ length q.entries + n
shorter q after n es ys split a = omega (
  arith,
  ap length (left_behind q after n es ys split a),
  ap length split,
  length-append ys a.added,
  length-append es ys,
  a.count,
)

flush_loop-Conserves :
    (chunk_size : Option ℕ) (sends : List Send) (q : Queue)
    → IsWithin 0 q.next_id q.entries
    → length q.entries + arrivals sends ≤ queue_max_size
    → Conserves q (flush_loop chunk_size sends q)
unfolding flush_loop
flush_loop-Conserves chunk_size [] q h room =
    pending-Conserves q (dequeue_positions chunk_size q.entries)
flush_loop-Conserves chunk_size (s ∷ ss) q h room =
    let es = dequeue_positions chunk_size q.entries in
    let (ys, split) = split_dequeue chunk_size q.entries in
    let after = enqueue_all s.arrived q in
    let n = length s.arrived in
    let a = enqueue_all-Arrived s.arrived q h (omega (arith, room)) in
    chunk-Conserves s.acked q after n es ys (flush_loop chunk_size ss (deleted es after)) split a (
      flush_loop-Conserves chunk_size ss (deleted es after) (left-IsWithin q after n es ys split a)
        (omega (arith, room, shorter q after n es ys split a)))

released-Conserves :
    (q : Queue) (f : Flush)
    → Conserves (record q { is_flushing = true }) f
    → Conserves q (released f)
released-Conserves q f c = record { added = c.added; whole = c.whole; fresh = c.fresh }

entered-Conserves :
    (busy : Bool) (q : Queue) (f : Flush)
    → Conserves (record q { is_flushing = true }) f
    → Conserves q (if busy then record { end = drained; sent = []; queue = q } else released f)
entered-Conserves true q f c =
    unchanged q (record { end = drained; sent = []; queue = q }) refl refl
entered-Conserves false q f c = released-Conserves q f c

-- A flush deletes what `sendFn` has acknowledged and nothing else: whatever the calls answer, in
-- whatever chunks, and whatever is enqueued while they are awaited, the positions acknowledged,
-- followed by those left in the queue, are those that were there, in their order, followed by the
-- new ones; the keys ascend below the next one, and the arrivals fit in the quota.
pub flush_queue-Conserves :
    (chunk_size : Option ℕ) (sends : List Send) (q : Queue)
    → IsWithin 0 q.next_id q.entries
    → length q.entries + arrivals sends ≤ queue_max_size
    → Conserves q (flush_queue chunk_size sends q)
unfolding flush_queue
flush_queue-Conserves chunk_size sends q h room =
    entered-Conserves q.is_flushing q
      (flush_loop chunk_size sends (record q { is_flushing = true }))
      (flush_loop-Conserves chunk_size sends (record q { is_flushing = true }) h room)
