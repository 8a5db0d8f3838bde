-- ===== src/Deliveries/Amount.antt =====
-- `parseAmount` of backend/src/common/utils/parse-amount.ts, over the code points of a text.
use Prim.Native.Char.{code}
use Prim.Native.String.{String}
use delivery_tracking.Prelude.{
  ℕ, ◌+◌, ◌*◌, ◌-◌, ◌==◌, Bool, not, ◌&&◌, ◌||◌, Option, none, some, List, [], ◌∷◌, leb,
  if◌then◌else◌,
}

abbrev pub codes : String → List ℕ
codes String.[] = []
codes (String.◌∷◌ c s) = code c ∷ codes s

-- `/\s/`, with the narrow no-break space
abbrev pub is_space : ℕ → Bool
is_space c =
    leb 9 c && leb c 13
    || c == 32
    || c == 160
    || c == 5760
    || leb 8192 c && leb c 8202
    || c == 8232
    || c == 8233
    || c == 8239
    || c == 8287
    || c == 12288
    || c == 65279

abbrev pub is_digit : ℕ → Bool
is_digit c = leb 48 c && leb c 57

abbrev pub keep : (ℕ → Bool) → List ℕ → List ℕ
keep p [] = []
keep p (c ∷ cs) = let rest = keep p cs in if p c then c ∷ rest else rest

abbrev pub lower : ℕ → ℕ
lower c = if leb 65 c && leb c 90 then c + 32 else c

-- `.replace(/Ar$/i, '')`
abbrev pub strip_ar : List ℕ → List ℕ
strip_ar [] = []
strip_ar (a ∷ []) = a ∷ []
strip_ar (a ∷ r ∷ []) = if lower a == 97 && lower r == 114 then [] else a ∷ r ∷ []
strip_ar (a ∷ r ∷ c ∷ cs) = a ∷ strip_ar (r ∷ c ∷ cs)

abbrev pub parse_int : ℕ → List ℕ → ℕ
parse_int n [] = n
parse_int n (c ∷ cs) = parse_int (n * 10 + (c - 48)) cs

abbrev pub parse_digits : List ℕ → Option ℕ
parse_digits [] = none
parse_digits (c ∷ cs) = some (parse_int 0 (c ∷ cs))

unfoldable pub parse_amount : Option (List ℕ) → Option ℕ
parse_amount none = none
parse_amount (some text) =
    parse_digits (keep is_digit (strip_ar (keep (λ c. not (is_space c)) text)))
