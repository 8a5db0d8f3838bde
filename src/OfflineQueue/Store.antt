-- ===== src/OfflineQueue/Store.antt =====
-- The object store, the compaction, `enqueuePosition` and `flushQueue` of
-- frontend/src/services/offlineQueue.ts. The store is the list of its entries in the order of their
-- keys; an instant is a number of milliseconds.
use delivery_tracking.Prelude.{
  ℕ, zero, suc, ◌+◌, ◌-◌, ◌*◌, ◌/◌, ◌==◌, Bool, true, false, not, ◌&&◌, Option, none, some, List,
  [], ◌∷◌, ◌++◌, map, length, ltb, leb, if◌then◌else◌,
}
use delivery_tracking.Prelude.Table.{find?}

-- The property `timestamp` of a position: absent, no date, or an instant.
pub data Stamp : Type 0 where
  absent unreadable : Stamp
  at : ℕ → Stamp

pub record Position : Type 0 where
  pub timestamp : Stamp
  pub payload : ℕ

pub record Entry : Type 0 where
  pub id : ℕ
  pub timestamp : Stamp
  pub payload : ℕ
  pub queued_at : ℕ
  pub compressed : Bool

pub record Queue : Type 0 where
  pub entries : List Entry
  pub next_id : ℕ
  pub is_flushing : Bool

pub record EnqueueResult : Type 0 where
  pub queued : Bool
  pub dropped_oldest : Bool
  pub near_capacity : Bool

abbrev pub queue_max_size : ℕ
queue_max_size = 10000

abbrev pub queue_warn_size : ℕ
queue_warn_size = 8000

abbrev pub compact_horizon_ms : ℕ
compact_horizon_ms = 300000

abbrev pub compact_bucket_ms : ℕ
compact_bucket_ms = 45000

-- `value.timestamp ?? value.queuedAt`
abbrev pub instant : Stamp → ℕ → Option ℕ
instant absent queued_at = some queued_at
instant unreadable queued_at = none
instant (at t) queued_at = some t

abbrev pub bucket_before : ℕ → Option ℕ → Option ℕ
bucket_before cutoff none = none
bucket_before cutoff (some t) =
    if ltb 0 t && ltb t cutoff then some (t / compact_bucket_ms * compact_bucket_ms) else none

-- The bucket of an entry that is older than the cutoff.
unfoldable pub old_bucket : ℕ → Entry → Option ℕ
old_bucket cutoff e = bucket_before cutoff (instant e.timestamp e.queued_at)

-- What the cursor does at an entry.
pub record Visit : Type 0 where
  pub kept : List (ℕ × ℕ)
  pub entry : Entry
  pub deletes : Bool

abbrev pub visit_bucket : List (ℕ × ℕ) → Entry → ℕ → Option (ℕ × ℕ) → Visit
visit_bucket kept e b none = record {
  kept = (b, e.id) ∷ kept;
  entry = record e { compressed = true };
  deletes = false;
}
visit_bucket kept e b (some k) = record { kept = kept; entry = e; deletes = not (k.1 == e.id) }

abbrev pub visit_old : List (ℕ × ℕ) → Entry → Option ℕ → Visit
visit_old kept e none = record { kept = kept; entry = e; deletes = false }
visit_old kept e (some b) = visit_bucket kept e b (find? (λ p. p.0 == b) kept)

unfoldable pub visit : ℕ → List (ℕ × ℕ) → Entry → Visit
visit cutoff kept e = visit_old kept e (old_bucket cutoff e)

-- The entries as the cursor leaves them, and the keys to delete.
unfoldable pub scan : ℕ → List (ℕ × ℕ) → List Entry → List Entry × List ℕ
unfolding visit
scan cutoff kept [] = ([], [])
scan cutoff kept (e ∷ es) =
    let v = visit cutoff kept e in
    let rest = scan cutoff v.kept es in
    (v.entry ∷ rest.0, if v.deletes then e.id ∷ rest.1 else rest.1)

unfoldable pub delete_position : ℕ → List Entry → List Entry
delete_position id [] = []
delete_position id (e ∷ es) =
    let rest = delete_position id es in if e.id == id then rest else e ∷ rest

unfoldable pub delete_positions : List ℕ → List Entry → List Entry
unfolding delete_position
delete_positions [] es = es
delete_positions (id ∷ ids) es = delete_positions ids (delete_position id es)

abbrev pub is_nil : List ℕ → Bool
is_nil [] = true
is_nil (_ ∷ _) = false

unfoldable pub compact_oldest_positions : ℕ → Queue → Bool × Queue
unfolding scan delete_positions
compact_oldest_positions now q =
    let (es, ids) = scan (now - compact_horizon_ms) [] q.entries in
    (not (is_nil ids), record q { entries = delete_positions ids es })

abbrev pub stored : ℕ → Position → Queue → Queue
stored now pos q = record q {
  entries =
      q.entries
      ++ record {
        id = q.next_id;
        timestamp = pos.timestamp;
        payload = pos.payload;
        queued_at = now;
        compressed = false;
      }
        ∷ [];
  next_id = q.next_id + 1;
}

abbrev pub enqueued : Bool → ℕ → EnqueueResult
enqueued dropped size = record {
  queued = true;
  dropped_oldest = dropped;
  near_capacity = leb queue_warn_size (size + 1);
}

-- With the quota reached: the oldest entry is dropped.
abbrev pub enqueue_full : ℕ → Position → Queue → List Entry → EnqueueResult × Queue
enqueue_full now pos q [] =
    (record { queued = false; dropped_oldest = false; near_capacity = false }, q)
enqueue_full now pos q (e ∷ es) =
    (enqueued true (length q.entries), stored now pos (record q { entries = es }))

unfoldable pub enqueue_compacted : ℕ → Position → Queue → EnqueueResult × Queue
enqueue_compacted now pos q =
    if leb queue_max_size (length q.entries)
    then enqueue_full now pos q q.entries
    else (enqueued false (length q.entries), stored now pos q)

unfoldable pub enqueue_position : ℕ → Position → Queue → EnqueueResult × Queue
unfolding enqueue_compacted compact_oldest_positions
enqueue_position now pos q =
    enqueue_compacted now pos
      (if leb queue_max_size (length q.entries) then (compact_oldest_positions now q).1 else q)

abbrev pub take : {A : Type 0} → ℕ → List A → List A
take zero xs = []
take (suc n) [] = []
take (suc n) (x ∷ xs) = x ∷ take n xs

-- `limit` is `none` where it is `Infinity`.
abbrev pub dequeue_positions : Option ℕ → List Entry → List Entry
dequeue_positions none es = es
dequeue_positions (some limit) es = take limit es

-- A call of `sendFn`: whether it resolves, and the positions enqueued while it is awaited.
pub record Send : Type 0 where
  pub acked : Bool
  pub arrived : List (ℕ × Position)

pub data FlushEnd : Type 0 where
  drained send_failed waiting : FlushEnd

-- How a flush stands: its end, the positions acknowledged so far, and the queue.
pub record Flush : Type 0 where
  pub end : FlushEnd
  pub sent : List Entry
  pub queue : Queue

unfoldable pub enqueue_all : List (ℕ × Position) → Queue → Queue
unfolding enqueue_position
enqueue_all [] q = q
enqueue_all ((now, pos) ∷ ps) q = enqueue_all ps (enqueue_position now pos q).1

abbrev pub deleted : List Entry → Queue → Queue
deleted es q = record q { entries = delete_positions (map (λ e. e.id) es) q.entries }

abbrev pub flush_chunk : List Entry → Bool → Queue → Queue → Flush → Flush
flush_chunk [] acked before after rest = record { end = drained; sent = []; queue = before }
flush_chunk (e ∷ es) true before after rest = record rest { sent = (e ∷ es) ++ rest.sent }
flush_chunk (e ∷ es) false before after rest = record {
  end = send_failed;
  sent = [];
  queue = after;
}

abbrev pub flush_pending : List Entry → Queue → Flush
flush_pending [] q = record { end = drained; sent = []; queue = q }
flush_pending (e ∷ es) q = record { end = waiting; sent = []; queue = q }

-- The loop, along the calls of `sendFn` that have come to an end.
unfoldable pub flush_loop : Option ℕ → List Send → Queue → Flush
unfolding delete_positions enqueue_all
flush_loop chunk_size [] q = flush_pending (dequeue_positions chunk_size q.entries) q
flush_loop chunk_size (s ∷ ss) q =
    let es = dequeue_positions chunk_size q.entries in
    let after = enqueue_all s.arrived q in
    let rest = flush_loop chunk_size ss (deleted es after) in flush_chunk es s.acked q after rest

abbrev pub is_waiting : FlushEnd → Bool
is_waiting waiting = true
is_waiting drained = false
is_waiting send_failed = false

abbrev pub released : Flush → Flush
released f = record f { queue = record f.queue { is_flushing = is_waiting f.end } }

unfoldable pub flush_queue : Option ℕ → List Send → Queue → Flush
unfolding flush_loop
flush_queue chunk_size sends q =
    if q.is_flushing
    then record { end = drained; sent = []; queue = q }
    else released (flush_loop chunk_size sends (record q { is_flushing = true }))
