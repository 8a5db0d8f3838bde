-- ===== src/OfflineQueue/Examples.antt =====
-- The theorems about the offline queue, at concrete inputs.
use delivery_tracking.Prelude.{ℕ, ◌≡◌, refl, true, false, some, List, [], ◌∷◌, All, arith}
use delivery_tracking.Prelude.Table.{find?}
use delivery_tracking.OfflineQueue.Store.{
  Position, Entry, Queue, Send, at, absent, drained, compact_oldest_positions, enqueue_position,
  flush_queue, old_bucket,
}
use delivery_tracking.OfflineQueue.Ordered.{IsWithin}
use delivery_tracking.OfflineQueue.Compaction.{Has, Stands}
use delivery_tracking.OfflineQueue.Quota.{IsReady, enqueue_position-Stands}
use delivery_tracking.OfflineQueue.Flush.{Conserves, flush_queue-Conserves}
use delivery_tracking.OfflineQueue.Drain.{flush_queue-Drained}

abbrev entry : ℕ → ℕ → Entry
entry id t = record { id = id; timestamp = at t; payload = t; queued_at = t; compressed = false }

-- The first two entries are old and of one bucket.
abbrev three : Queue
three = record {
  entries = entry 1 100000 ∷ entry 4 101000 ∷ entry 5 900000 ∷ [];
  next_id = 9;
  is_flushing = false;
}

abbrev here : Position
here = record { timestamp = absent; payload = 77 }

three-IsWithin : IsWithin 0 9 three.entries
three-IsWithin = (omega arith, (omega arith, (omega arith, omega arith)))

three-IsReady : IsReady three
three-IsReady = record { ordered = three-IsWithin; bounded = omega arith }

second_is_absorbed :
    (compact_oldest_positions 1000000 three).1.entries
    ≡ record (entry 1 100000) { compressed = true } ∷ entry 5 900000 ∷ []
unfolding compact_oldest_positions old_bucket find?
second_is_absorbed = refl

not_dropped : (enqueue_position 1000000 here three).0.dropped_oldest ≡ false
unfolding enqueue_position
not_dropped = refl

enqueue_position-Stands_example :
    All (λ e. Has (Stands 700000 e) (enqueue_position 1000000 here three).1.entries) three.entries
enqueue_position-Stands_example =
    enqueue_position-Stands 1000000 here three three-IsReady not_dropped

-- The second call fails, while a position arrives.
abbrev failing : List Send
failing =
    record { acked = true; arrived = [] }
    ∷ record { acked = false; arrived = (1000000, here) ∷ [] }
    ∷ []

flush_queue-Conserves_example : Conserves three (flush_queue (some 2) failing three)
flush_queue-Conserves_example =
    flush_queue-Conserves (some 2) failing three three-IsWithin (omega arith)

abbrev calm : List Send
calm =
    record { acked = true; arrived = [] }
    ∷ record { acked = true; arrived = [] }
    ∷ record { acked = true; arrived = [] }
    ∷ []

flush_queue-Drained_example :
    ((flush_queue (some 2) calm three).end ≡ drained)
    × ((flush_queue (some 2) calm three).queue.entries ≡ [])
    × ((flush_queue (some 2) calm three).queue.is_flushing ≡ false)
flush_queue-Drained_example =
    flush_queue-Drained (some 2) calm three (omega arith)
      ((refl, refl), ((refl, refl), ((refl, refl), tt))) three-IsWithin (omega arith) (omega arith)
      refl
