-- ===== src/Billing/Trim.antt =====
-- `trim` on a text, as submitProof of
-- backend/src/modules/manual-billing/manual-billing.service.ts applies it to a reference.
use Prim.Native.Char.{Char, code}
use Prim.Native.String.{String}
use delivery_tracking.Prelude.{Bool, true, false, if◌then◌else◌}
use delivery_tracking.Deliveries.Amount.{is_space}

abbrev pub without_leading : String → String
without_leading String.[] = String.[]
without_leading (String.◌∷◌ c s) =
    let rest = without_leading s in if is_space (code c) then rest else String.◌∷◌ c s

abbrev pub append_kept : Bool → Char → String → String
append_kept true c String.[] = String.[]
append_kept true c (String.◌∷◌ d s) = String.◌∷◌ c (String.◌∷◌ d s)
append_kept false c s = String.◌∷◌ c s

abbrev pub without_trailing : String → String
without_trailing String.[] = String.[]
without_trailing (String.◌∷◌ c s) = append_kept (is_space (code c)) c (without_trailing s)

unfoldable pub trim : String → String
trim s = without_trailing (without_leading s)
