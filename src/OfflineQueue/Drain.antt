-- ===== src/OfflineQueue/Drain.antt =====
-- How long a flush of the offline queue goes on.
use delivery_tracking.Prelude.{
  ℕ, zero, suc, ◌≡◌, ◌≤◌, refl, ap, inl, inr, Bool, true, false, Option, none, some, List, [], ◌∷◌,
  ◌⊎◌, arith, All, length, length-append,
}
use delivery_tracking.OfflineQueue.Store.{
  Entry, Queue, Send, Flush, drained, dequeue_positions, deleted, enqueue_all, flush_chunk,
  flush_pending, flush_loop, flush_queue, queue_max_size, is_waiting,
}
use delivery_tracking.OfflineQueue.Ordered.{IsWithin}
use delivery_tracking.OfflineQueue.Flush.{
  enqueue_all-Arrived, split_dequeue, left_behind, left-IsWithin, shorter,
}

abbrev pub IsPositive : Option ℕ → Type 0
IsPositive none = Unit
IsPositive (some n) = 1 ≤ n

-- The calls all resolve, and nothing is enqueued meanwhile.
abbrev pub IsCalm : List Send → Type 0
IsCalm ss = All (λ s. (Send.acked s ≡ true) × (Send.arrived s ≡ [])) ss

dequeue_empty :
    (chunk_size : Option ℕ) (es : List Entry)
    → IsPositive chunk_size
    → dequeue_positions chunk_size es ≡ []
    → es ≡ []
dequeue_empty none es pos h = h
dequeue_empty (some zero) es pos h = absurd (omega (arith, pos))
dequeue_empty (some (suc n)) [] pos h = refl
dequeue_empty (some (suc n)) (e ∷ es) pos h = absurd (cc h)

empty_dequeue : (chunk_size : Option ℕ) → dequeue_positions chunk_size [] ≡ []
empty_dequeue none = refl
empty_dequeue (some zero) = refl
empty_dequeue (some (suc n)) = refl

progress : (es xs : List Entry) → (es ≡ [] → xs ≡ []) → (length xs ≡ 0) ⊎ (1 ≤ length es)
progress [] xs h = inl (ap length (h refl))
progress (e ∷ es) xs h = inr (omega arith)

abbrev Drained : Flush → Type 0
Drained f = (f.end ≡ drained) × (f.queue.entries ≡ [])

chunk-Drained :
    (acked : Bool) (q after : Queue) (es : List Entry) (rest : Flush)
    → acked ≡ true
    → (es ≡ [] → q.entries ≡ [])
    → Drained rest
    → Drained (flush_chunk es acked q after rest)
chunk-Drained acked q after [] rest resolved h d = (refl, h refl)
chunk-Drained true q after (e ∷ es) rest resolved h d = d
chunk-Drained false q after (e ∷ es) rest resolved h d = absurd (cc resolved)

pending-Drained :
    (chunk_size : Option ℕ) (es : List Entry) (q : Queue)
    → es ≡ []
    → q.entries ≡ es
    → Drained (flush_pending (dequeue_positions chunk_size es) q)
pending-Drained chunk_size [] q nothing same = rw (empty_dequeue chunk_size) (refl, same)
pending-Drained chunk_size (e ∷ es) q nothing same = absurd (cc nothing)

no_entries : (es : List Entry) → length es ≤ 0 → es ≡ []
no_entries [] h = refl
no_entries (e ∷ es) h = absurd (omega (arith, h))

flush_loop-Drained :
    (chunk_size : Option ℕ) (sends : List Send) (q : Queue)
    → IsPositive chunk_size
    → IsCalm sends
    → IsWithin 0 q.next_id q.entries
    → length q.entries ≤ queue_max_size
    → length q.entries ≤ length sends
    → Drained (flush_loop chunk_size sends q)
unfolding flush_loop
flush_loop-Drained chunk_size [] q pos calm h room enough =
    pending-Drained chunk_size q.entries q (no_entries q.entries enough) refl
flush_loop-Drained chunk_size (s ∷ ss) q pos calm h room enough =
    let es = dequeue_positions chunk_size q.entries in
    let (ys, split) = split_dequeue chunk_size q.entries in
    let after = enqueue_all s.arrived q in
    let n = length s.arrived in
    let alone : length s.arrived ≡ 0 = ap length calm.0.1 in
    let a = enqueue_all-Arrived s.arrived q h (omega (arith, room, alone)) in
    let empty = dequeue_empty chunk_size q.entries pos in
    let less : length (deleted es after).entries ≤ length ss = elim (progress es q.entries empty) [
      | inl nothing ↦ omega (arith, nothing, alone, shorter q after n es ys split a)
      | inr some_sent ↦ omega (
        arith,
        some_sent,
        alone,
        enough,
        ap length (left_behind q after n es ys split a),
        ap length split,
        length-append ys a.added,
        length-append es ys,
        a.count,
      )
    ] in
    chunk-Drained s.acked q after es (flush_loop chunk_size ss (deleted es after)) calm.0.0 empty (
      flush_loop-Drained chunk_size ss (deleted es after) pos calm.1
        (left-IsWithin q after n es ys split a)
        (omega (arith, room, alone, shorter q after n es ys split a)) less)

-- If the calls all resolve and nothing is enqueued meanwhile, then as many calls as there are
-- entries are enough: the flush ends with an empty queue and gives the lock back. The queue is not
-- being flushed already, and a chunk has at least one position.
pub flush_queue-Drained :
    (chunk_size : Option ℕ) (sends : List Send) (q : Queue)
    → IsPositive chunk_size
    → IsCalm sends
    → IsWithin 0 q.next_id q.entries
    → length q.entries ≤ queue_max_size
    → length q.entries ≤ length sends
    → q.is_flushing ≡ false
    → ((flush_queue chunk_size sends q).end ≡ drained)
      × ((flush_queue chunk_size sends q).queue.entries ≡ [])
      × ((flush_queue chunk_size sends q).queue.is_flushing ≡ false)
unfolding flush_queue
flush_queue-Drained chunk_size sends q pos calm h room enough free =
    let locked = record q { is_flushing = true } in
    let (end, empty) = flush_loop-Drained chunk_size sends locked pos calm h room enough in
    rw free (end, empty, ap is_waiting end)
