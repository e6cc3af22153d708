-- ===== src/Services/Store/Found.antt =====
-- What `GetTxPoint` finds is a record of an output that is kept.
use touchstone.Base.{
  ℤ, Str, not, Bool-cases, List, ◌≡◌, ◌≢◌, ap, ◌∙◌, subst, arith, inl, inr, ok, Error, pure,
  handle-eq-ok, ◌==◌,
}
use mathlib.Core.List.{Memᴰ}
use touchstone.Models.Collection.{is_not_found}
use touchstone.Models.TxPoints.{TxPoint, get_tx_point, is_point, tx_point_type_vout}
use touchstone.Models.TxInfos.{MsgTxBriefInfo, get_msg_tx_brief_info, tx_state_closed}
use touchstone.Services.Env.{Env}
use touchstone.Services.Validate.{
  server_get_tx_point, first_error, second_error, known_info, info_error,
}
use touchstone.Services.Validate.Reads.{get_msg_tx_brief_info-Leaves, get_tx_point-Leaves}
use touchstone.Services.Process.Recorded.{KeepsPoints}

module _ {S : Type 0} (env : Env S) (points : S → List TxPoint)
    (kept : KeepsPoints env points) where
  abbrev IsOutput : List TxPoint → TxPoint → Type 0
  IsOutput ps p = Memᴰ p ps × (p.kind ≡ tx_point_type_vout)

  look_again : (p q : TxPoint) (s : S) → (pure q s).0 ≡ ok p → q ≡ p
  look_again p q s h = cc

  get_tx_point-IsOutput :
      (txid : Str) (index : ℤ) (p : TxPoint) (s : S)
      → (get_tx_point env.tx_points txid index tx_point_type_vout s).0 ≡ ok p
      → IsOutput (points s) p
  unfolding get_tx_point
  get_tx_point-IsOutput txid index p s h =
      let (m, passed) = kept.keeps.get_one_found (is_point txid index tx_point_type_vout) p s h in
      (m, ground arith)

  second_error-err : (e : Error) (s : S) (p : TxPoint) → (second_error env e s).0 ≢ ok p
  second_error-err e s p h = ground arith

  known_info-IsOutput :
      (txid : Str) (index : ℤ) (info : MsgTxBriefInfo) (p : TxPoint) (s : S)
      → (known_info env txid index info s).0 ≡ ok p
      → IsOutput (points s) p
  known_info-IsOutput txid index info p s h =
      elim (Bool-cases (not (info.state == tx_state_closed))) [
        | inl still_open ↦ let wrong = rw still_open at h in absurd (cc)
        | inr closed ↦
            let look = get_tx_point env.tx_points txid index tx_point_type_vout in
            elim (handle-eq-ok pure p look (second_error env) s (rw closed at h)) [
              | inl (q, e, same) ↦
                  get_tx_point-IsOutput txid index p s
                    (e ∙ ap (λ x. ok x) (look_again p q (look s).1 same))
              | inr (x, _, wrong) ↦ absurd (second_error-err x (look s).1 p wrong)
            ]
      ]

  first_error-IsOutput :
      (txid : Str) (index : ℤ) (x : Error) (p : TxPoint) (s : S)
      → (first_error env txid index x s).0 ≡ ok p
      → IsOutput (points s) p
  first_error-IsOutput txid index x p s h = elim (Bool-cases (not (is_not_found x))) [
    | inl other ↦ let wrong = rw other at h in absurd (cc)
    | inr not_there ↦
        let brief = get_msg_tx_brief_info env.tx_infos txid in
        let read : points (brief s).1 ≡ points s =
          get_msg_tx_brief_info-Leaves env points kept.keeps.get_one_keeps kept.apart.get_one_leaves
            txid s in
        elim (handle-eq-ok (known_info env txid index) p brief (info_error env txid index) s
          (rw not_there at h)) [
            | inl (info, _, h') ↦
                subst (λ ps. IsOutput ps p) read
                  (known_info-IsOutput txid index info p (brief s).1 h')
            | inr (e, _, wrong) ↦ absurd (ground arith)
          ]
  ]

  pub server_get_tx_point-IsOutput :
      (txid : Str) (index : ℤ) (p : TxPoint) (s : S)
      → (server_get_tx_point env txid index s).0 ≡ ok p
      → Memᴰ p (points s) × (p.kind ≡ tx_point_type_vout)
  unfolding server_get_tx_point
  server_get_tx_point-IsOutput txid index p s h =
      let look = get_tx_point env.tx_points txid index tx_point_type_vout in
      let read : points (look s).1 ≡ points s =
        get_tx_point-Leaves env points kept.keeps.get_one_keeps kept.apart.get_one_leaves txid index
          s in
      elim (handle-eq-ok pure p look (first_error env txid index) s h) [
        | inl (q, e, same) ↦
            get_tx_point-IsOutput txid index p s
              (e ∙ ap (λ x. ok x) (look_again p q (look s).1 same))
        | inr (x, _, h') ↦
            subst (λ ps. IsOutput ps p) read (first_error-IsOutput txid index x p (look s).1 h')
      ]
