-- ===== src/Util/Common.antt =====
-- `SplitString`, `GenerateStrFromStrInt` and `GenerateStrFromStrInt64` of util/common.go, with
-- the decimal form that `fmt` gives an integer.
pub mod Pieces
pub mod Keys
use touchstone.Base.{
  ℕ, zero, suc, ◌+◌, ◌-◌, ◌/◌, ◌%◌, ℤ, pos, negsuc, Str, codes, Bool, true, false, List, [], ◌∷◌,
  ◌++◌, Option, none, some, length, take, drop, ltb, ◌==◌, if◌then◌else◌,
}

-- The loop of `SplitString` on what is left of the string, `s[resultLen:]`, with fuel; `none`
-- means that the fuel ran out.
pub split_loop : ℕ → ℕ → Str → Option (List Str)
split_loop zero l s = none
split_loop (suc f) l s =
    let more = split_loop f l (drop l s) in
    if ltb l (length s)
    then elim more [ none ↦ none | some pieces ↦ some (take l s ∷ pieces) ]
    else if length s == 0
    then some []
    else some (s ∷ [])

-- Each round takes at least one character if `l` is positive, so the length is fuel enough.
unfoldable pub split_string : Str → ℕ → Option (List Str)
unfolding split_loop
split_string s l = split_loop (suc (length s)) l s

-- The digits of a natural number, with fuel; a number has fewer digits than its successor counts.
pub digits : ℕ → ℕ → Str
digits zero n = []
digits (suc f) n =
    let high = digits f (n / 10) in if ltb n 10 then (48 + n) ∷ [] else high ++ ((48 + n % 10) ∷ [])

-- `%d`
unfoldable pub decimal : ℤ → Str
unfolding digits
decimal (pos n) = digits (suc n) n
decimal (negsuc n) = b'-' ∷ digits (suc (suc n)) (suc n)

-- `fmt.Sprintf("%s_%d", a, b)`
unfoldable pub generate_str_from_str_int : Str → ℤ → Str
generate_str_from_str_int a b = a ++ (b'_' ∷ decimal b)
