-- ===== src/Util/Common/Pieces.antt =====
-- What `SplitString` cuts a string into.
use mathlib.Core.List.{flatten, append-nil}
use touchstone.Base.{
  ℕ, zero, suc, ◌≤◌, ◌<◌, ◌≡◌, refl, Str, List, [], ◌∷◌, some, length, take, drop, All, length-drop,
  length-take, take-append-drop, arith, Bool-cases, ltb, ltb→lt, inl, inr,
}
use touchstone.Util.Common.{split_loop, split_string}

-- The pieces of a string: in order they make up the string, and none is empty or too long.
pub record IsSplit (l : ℕ) (s : Str) (pieces : List Str) : Type 0 where
  pub joined : flatten pieces ≡ s
  pub sized : All (λ piece. (0 < length piece) × (length piece ≤ l)) pieces

split_loop_last :
    (f l : ℕ) (s : Str)
    → length s ≤ l
    → (pieces : List Str) × (split_loop (suc f) l s ≡ some pieces) × IsSplit l s pieces
unfolding split_loop flatten
split_loop_last f l [] h = ([], ground arith, record { joined = refl; sized = tt })
split_loop_last f l (c ∷ s) h =
    ((c ∷ s) ∷ [], ground arith, record { joined = append-nil (c ∷ s); sized = omega arith })

split_loop_more :
    (f l : ℕ) (s : Str) (rest : List Str)
    → 0 < l
    → l < length s
    → split_loop f l (drop l s) ≡ some rest
    → IsSplit l (drop l s) rest
    → (pieces : List Str) × (split_loop (suc f) l s ≡ some pieces) × IsSplit l s pieces
unfolding split_loop flatten
split_loop_more f l s rest pos more e split = (
  take l s ∷ rest,
  ground arith,
  record {
    joined = rw split.joined (take-append-drop l s);
    sized = ((omega (arith, length-take l s), omega (arith, length-take l s)), split.sized);
  },
)

split_loop-IsSplit :
    (f l : ℕ) (s : Str)
    → 0 < l
    → length s < f
    → (pieces : List Str) × (split_loop f l s ≡ some pieces) × IsSplit l s pieces
split_loop-IsSplit zero l s pos enough = absurd (omega arith)
split_loop-IsSplit (suc f) l s pos enough = elim (Bool-cases (ltb l (length s))) [
  | inl more ↦
      let (rest, e, split) =
        split_loop-IsSplit f l (drop l s) pos (ground (arith, length-drop l s)) in
      split_loop_more f l s rest pos (ltb→lt l (length s) more) e split
  | inr last ↦ split_loop_last f l s (ground arith)
]

-- For a positive piece length `SplitString` ends, and cuts the string into pieces that make it
-- up in order, each of at least one and at most `l` characters.
pub split_string-IsSplit :
    (s : Str) (l : ℕ)
    → 0 < l
    → (pieces : List Str) × (split_string s l ≡ some pieces) × IsSplit l s pieces
unfolding split_string
split_string-IsSplit s l pos = split_loop-IsSplit (suc (length s)) l s pos (omega arith)
