-- ===== src/Deliveries/Status.antt =====
-- The life cycle of a delivery: `DeliveryStatus` of backend/prisma/schema.prisma and the transition
-- matrix of backend/src/modules/deliveries/deliveries.service.ts.
use delivery_tracking.Prelude.{
  ℕ, ◌≡◌, ◌==◌, ◌↔◌, Bool, true, false, ◌&&◌, ◌||◌, List, [], ◌∷◌, any, arith, if◌then◌else◌,
}

pub data DeliveryStatus : Type 0 where
  pending assigned in_progress delivered failed cancelled : DeliveryStatus

abbrev pub rank : DeliveryStatus → ℕ
rank pending = 0
rank assigned = 1
rank in_progress = 2
rank delivered = 3
rank failed = 4
rank cancelled = 5

-- `===` on two statuses
abbrev pub same_status : DeliveryStatus → DeliveryStatus → Bool
same_status s t = rank s == rank t

abbrev pub includes : List DeliveryStatus → DeliveryStatus → Bool
includes ss s = any (same_status s) ss

unfoldable pub transition_matrix : DeliveryStatus → List DeliveryStatus
transition_matrix pending = assigned ∷ cancelled ∷ []
transition_matrix assigned = in_progress ∷ cancelled ∷ []
transition_matrix in_progress = delivered ∷ failed ∷ cancelled ∷ []
transition_matrix delivered = []
transition_matrix failed = []
transition_matrix cancelled = []

unfoldable pub is_valid_transition : DeliveryStatus → DeliveryStatus → Bool
unfolding transition_matrix
is_valid_transition from to = includes (transition_matrix from) to

-- the statuses that a driver's request may ask for
abbrev pub is_driver_status : DeliveryStatus → Bool
is_driver_status s = same_status s in_progress || same_status s delivered || same_status s failed

-- `allowedTransitions.filter(...)`
abbrev pub filter_driver : List DeliveryStatus → List DeliveryStatus
filter_driver [] = []
filter_driver (s ∷ ss) =
    let rest = filter_driver ss in if is_driver_status s then s ∷ rest else rest

unfoldable pub driver_allowed : DeliveryStatus → List DeliveryStatus
unfolding transition_matrix
driver_allowed s = filter_driver (transition_matrix s)

-- The statuses after which the driver's fuel report is computed again.
abbrev pub is_fuel_report_trigger_status : DeliveryStatus → Bool
is_fuel_report_trigger_status s = same_status s delivered || same_status s failed

abbrev pub is_terminal : DeliveryStatus → Bool
is_terminal s = same_status s delivered || same_status s failed || same_status s cancelled

pub same_status_iff : (s t : DeliveryStatus) → (same_status s t ≡ true) ↔ (s ≡ t)
same_status_iff s t = ground arith

pub terminal-refuses :
    (s t : DeliveryStatus) → is_terminal s ≡ true → is_valid_transition s t ≡ false
unfolding is_valid_transition
terminal-refuses s t h = ground arith

-- What a driver may ask for is what the matrix allows, less cancellation and assignment.
pub driver_allowed_lem :
    (s t : DeliveryStatus)
    → includes (driver_allowed s) t ≡ (is_valid_transition s t && is_driver_status t)
unfolding driver_allowed is_valid_transition
driver_allowed_lem s t = ground arith
