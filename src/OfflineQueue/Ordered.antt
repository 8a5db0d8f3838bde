-- ===== src/OfflineQueue/Ordered.antt =====
-- Queues whose keys ascend, and deletions by keys in them.
use delivery_tracking.Prelude.{
  ℕ, suc, ◌+◌, ◌==◌, ◌≡◌, ◌≤◌, ◌<◌, refl, List, [], ◌∷◌, ◌++◌, map, arith, All, false,
}
use delivery_tracking.OfflineQueue.Store.{Entry, delete_position, delete_positions}

-- The keys ascend strictly, from `lo` on and below `hi`.
abbrev pub IsWithin : ℕ → ℕ → List Entry → Type 0
IsWithin lo hi [] = lo ≤ hi
IsWithin lo hi (e ∷ es) = (lo ≤ e.id) × IsWithin (suc e.id) hi es

pub IsWithin-lower :
    (lo lo' hi : ℕ) (es : List Entry) → lo' ≤ lo → IsWithin lo hi es → IsWithin lo' hi es
IsWithin-lower lo lo' hi [] h k = omega (arith, h, k)
IsWithin-lower lo lo' hi (e ∷ es) h k = (omega (arith, h, k.0), k.1)

pub IsWithin-suffix :
    (lo hi : ℕ) (xs ys : List Entry) → IsWithin lo hi (xs ++ ys) → IsWithin lo hi ys
IsWithin-suffix lo hi [] ys h = h
IsWithin-suffix lo hi (x ∷ xs) ys h =
    IsWithin-lower (suc x.id) lo hi ys (omega (arith, h.0))
      (IsWithin-suffix (suc x.id) hi xs ys h.1)

pub IsWithin-snoc :
    (lo hi : ℕ) (es : List Entry) (e : Entry)
    → e.id ≡ hi
    → IsWithin lo hi es
    → IsWithin lo (hi + 1) (es ++ e ∷ [])
IsWithin-snoc lo hi [] e same h = (omega (arith, same, h), omega (arith, same))
IsWithin-snoc lo hi (x ∷ es) e same h = (h.0, IsWithin-snoc (suc x.id) hi es e same h.1)

pub delete_absent :
    (id lo hi : ℕ) (es : List Entry) → id < lo → IsWithin lo hi es → delete_position id es ≡ es
unfolding delete_position
delete_absent id lo hi [] h k = refl
delete_absent id lo hi (e ∷ es) h k =
    let rest = delete_absent id (suc e.id) hi es (omega (arith, h, k.0)) k.1 in
    ground (arith, rest, h, k.0)

pub delete_head :
    (id hi : ℕ) (e : Entry) (es : List Entry)
    → e.id ≡ id
    → IsWithin (suc id) hi es
    → delete_position id (e ∷ es) ≡ es
unfolding delete_position
delete_head id hi e es same h =
    ground (arith, same, delete_absent id (suc id) hi es (omega arith) h)

-- The keys of a prefix delete the prefix.
pub delete_prefix :
    (lo hi : ℕ) (xs ys : List Entry)
    → IsWithin lo hi (xs ++ ys)
    → delete_positions (map (λ e. e.id) xs) (xs ++ ys) ≡ ys
unfolding delete_positions
delete_prefix lo hi [] ys h = refl
delete_prefix lo hi (x ∷ xs) ys h =
    rw (delete_head x.id hi x (xs ++ ys) refl h.1, delete_positions)
      (delete_prefix (suc x.id) hi xs ys h.1)

-- Keys that lie above a head leave it.
pub delete_above :
    (ids : List ℕ) (e : Entry) (es : List Entry)
    → All (λ id. suc e.id ≤ id) ids
    → delete_positions ids (e ∷ es) ≡ e ∷ delete_positions ids es
unfolding delete_positions delete_position
delete_above [] e es h = refl
delete_above (id ∷ ids) e es h =
    rw (other e.id id h.0) (delete_above ids e (delete_position id es) h.1)
  where
    other : (a b : ℕ) → suc a ≤ b → (a == b) ≡ false
    other a b l = ground (arith, l)
