-- ===== src/Services/Process/Added.antt =====
-- What `ParseAndAddTxPoints` adds to a collection that keeps its documents.
use touchstone.Base.{
  ℕ, suc, ◌<◌, ◌≤◌, ◌≡◌, refl, sym, ap, ◌∙◌, arith, pos, Str, str_eq, false, not, Bool-cases, inl,
  inr, ◌⊎◌, ◌==◌, List, [], ◌∷◌, ◌++◌, All, All-append, All-map, any, any-none, ok, Error, Action,
  fail, handle_ok, handle-eq-ok, if◌then◌else◌, subst,
}
use mathlib.Core.List.{append_assoc, append-nil}
use touchstone.Models.Collection.{is_duplicate}
use touchstone.Models.Kept.{Keeps}
use touchstone.Models.TxPoints.{TxPoint, same_point, add_tx_point}
use touchstone.Services.Env.{Env}
use touchstone.Services.Validate.Places.{Between}
use touchstone.Services.Process.{add_tx_points}

-- A record leaves the indices from `lo` on free for those of a transaction and a kind.
unfoldable pub Clear : Str → ℕ → ℕ → TxPoint → Type 0
Clear txid kind lo e =
    (str_eq txid e.txid ≡ false)
    ⊎ ((kind == e.kind) ≡ false)
    ⊎ ((j : ℕ) × (e.index ≡ pos j) × (j < lo))

module _ (txid : Str) (kind : ℕ) where
  Clear-point :
      (lo j : ℕ) (p e : TxPoint)
      → p.txid ≡ txid
      → p.kind ≡ kind
      → p.index ≡ pos j
      → lo ≤ j
      → Clear txid kind lo e
      → same_point p e ≡ false
  unfolding Clear
  Clear-point lo j p e t k i from (inl other) = rw t (rw other refl)
  Clear-point lo j p e t k i from (inr (inl other)) = rw k (ground arith)
  Clear-point lo j p e t k i from (inr (inr (m, is_m, less))) = rw i (rw is_m (ground arith))

  Clear-later : (lo j : ℕ) (e : TxPoint) → lo ≤ j → Clear txid kind lo e → Clear txid kind (suc j) e
  unfolding Clear
  Clear-later lo j e from (inl other) = inl other
  Clear-later lo j e from (inr (inl other)) = inr (inl other)
  Clear-later lo j e from (inr (inr (m, is_m, less))) = inr (inr (m, is_m, omega arith))

module _ {S : Type 0} (env : Env S) (points : S → List TxPoint)
    (keeps : Keeps env.tx_points points same_point) (txid : Str) (kind : ℕ) where
  -- Records at free indices are appended, if the loop has no error.
  pub add_tx_points-docs :
      (lo hi : ℕ) (ps : List TxPoint) (s : S)
      → Between txid kind lo hi ps
      → All (Clear txid kind lo) (points s)
      → (add_tx_points env ps s).0 ≡ ok tt
      → points (add_tx_points env ps s).1 ≡ points s ++ ps
  unfolding add_tx_points Between add_tx_point Clear
  add_tx_points-docs lo hi [] s b free done = sym (append-nil (points s))
  add_tx_points-docs lo hi (p ∷ ps) s (j, from, t, k, i, u, more) free done =
      let insert = env.tx_points.insert p in
      let v = insert s in
      let go_on : Unit {0} → Action S (Unit {0}) = λ _. add_tx_points env ps in
      let failed : Error → Action S (Unit {0}) =
        λ e. let rest = add_tx_points env ps in if not (is_duplicate e) then fail e else rest in
      let new : any (same_point p) (points s) ≡ false =
        any-none (same_point p) (points s)
          (All-map (λ e. Clear-point txid kind lo j p e t k i from) (points s) free) in
      elim (handle-eq-ok go_on tt insert failed s done) [
        | inl (_, e, h) ↦
            let kept = keeps.insert_ok p s e in
            let free' : All (Clear txid kind (suc j)) (points v.1) =
              subst (All (Clear txid kind (suc j))) (sym kept) (
                All-append (Clear txid kind (suc j)) (points s) (p ∷ [])
                  (All-map (λ e. Clear-later txid kind lo j e from) (points s) free)
                  (inr (inr (j, i, omega arith)), tt)) in
            ap (λ r. points r.1) (handle_ok insert go_on s failed (ap (λ r. (r, v.1)) e))
            ∙ (add_tx_points-docs (suc j) hi ps v.1 more free' h
                ∙ (ap (λ x. x ++ ps) kept ∙ append_assoc (points s) (p ∷ []) ps))
        | inr (e, is_err, h) ↦ elim (Bool-cases (is_duplicate e)) [
          | inl dup ↦ let there = keeps.insert_duplicate p s e is_err dup in absurd (cc)
          | inr other ↦ let wrong = rw other at h in absurd (cc)
        ]
      ]
