-- ===== src/Services/Validate/Illegal.antt =====
-- An input that claims a badge which its transaction, already checked, did not make. `GetTxPoint`
-- reports it with a code of its own, and the loop over the inputs then reads through the nil
-- pointer that came with the error.
use touchstone.Base.{
  ℕ, ◌+◌, ℤ, pos, true, List, [], ◌∷◌, ◌++◌, some, ◌≡◌, refl, ap, sym, ◌∙◌, pure, lift, handle_ok,
  handle_err, >>=_ok, >>=_panic, >>=-eq-ok, Outcome, ok, err, panic, Error, codes,
}
use touchstone.Wire.{MsgTx, TxIn}
use touchstone.Models.Collection.{is_not_found}
use touchstone.Models.TxPoints.{get_tx_point, tx_point_type_vout}
use touchstone.Models.TxInfos.{MsgTxBriefInfo, get_msg_tx_brief_info, tx_state_closed}
use touchstone.Services.Env.{Env}
use touchstone.Services.Validate.{
  Spent, err_illegal_vin_code, new_code_error, server_get_tx_point, has_badge_flag, nothing_spent,
  second_look, second_error, first_error, known_info, info_error, use_point, vin_error, parse_vin,
  parse_vins, parse_outputs, parse_msg_tx,
}

module _ {S : Type 0} (env : Env S) where
  -- The three reads of `GetTxPoint` that end in the error on an illegal input: no such output, a
  -- transaction that is closed, and again no such output.
  pub record IsIllegal (vin : TxIn) (s : S) : Type 1 where
    pub first_error : Error
    pub second_error : Error
    pub info : MsgTxBriefInfo
    pub between : S
    pub after : S
    pub last : S
    pub missing :
        get_tx_point env.tx_points vin.prev_hash (pos vin.prev_index) tx_point_type_vout s
        ≡ (err first_error, between)
    pub first_missing : is_not_found first_error ≡ true
    pub known : get_msg_tx_brief_info env.tx_infos vin.prev_hash between ≡ (ok info, after)
    pub closed : info.state ≡ tx_state_closed
    pub still_missing :
        get_tx_point env.tx_points vin.prev_hash (pos vin.prev_index) tx_point_type_vout after
        ≡ (err second_error, last)
    pub second_missing : is_not_found second_error ≡ true

  abbrev illegal_error : Error
  illegal_error = new_code_error err_illegal_vin_code (codes "illegal vin")

  second_look-illegal :
      (vin : TxIn) (s : S) (h : IsIllegal vin s)
      → second_look env vin.prev_hash (pos vin.prev_index) h.after ≡ (err illegal_error, h.last)
  second_look-illegal vin s h =
      handle_err (get_tx_point env.tx_points vin.prev_hash (pos vin.prev_index) tx_point_type_vout)
        pure h.after (second_error env) h.still_missing
      ∙ (rw h.second_missing refl)

  first_error-illegal :
      (vin : TxIn) (s : S) (h : IsIllegal vin s)
      → first_error env vin.prev_hash (pos vin.prev_index) h.first_error h.between
        ≡ (err illegal_error, h.last)
  first_error-illegal vin s h = rw h.first_missing (
      handle_ok (get_msg_tx_brief_info env.tx_infos vin.prev_hash)
        (known_info env vin.prev_hash (pos vin.prev_index)) h.between
        (info_error env vin.prev_hash (pos vin.prev_index)) h.known
      ∙ (rw h.closed (second_look-illegal vin s h)))

  server_get_tx_point-illegal :
      (vin : TxIn) (s : S) (h : IsIllegal vin s)
      → server_get_tx_point env vin.prev_hash (pos vin.prev_index) s ≡ (err illegal_error, h.last)
  unfolding server_get_tx_point
  server_get_tx_point-illegal vin s h =
      handle_err (get_tx_point env.tx_points vin.prev_hash (pos vin.prev_index) tx_point_type_vout)
        pure s (first_error env vin.prev_hash (pos vin.prev_index)) h.missing
      ∙ first_error-illegal vin s h

  parse_vin-illegal :
      (tx : MsgTx) (i : ℕ) (timestamp : ℤ) (vin : TxIn) (st : Spent) (s : S)
      → has_badge_flag vin.signature_script ≡ true
      → (h : IsIllegal vin s) → parse_vin env tx i timestamp vin st s ≡ (panic, h.last)
  unfolding parse_vin vin_error use_point
  parse_vin-illegal tx i timestamp vin st s flagged h = rw flagged (
      handle_err (server_get_tx_point env vin.prev_hash (pos vin.prev_index))
        (λ p. lift (use_point env tx i timestamp st (some p))) s (vin_error env tx i timestamp st)
        (server_get_tx_point-illegal vin s h)
      ∙ refl)

  -- The rounds before the illegal input end well, and the next does not.
  parse_vins-illegal :
      (tx : MsgTx) (i : ℕ) (timestamp : ℤ) (before rest : List TxIn) (vin : TxIn) (st st' : Spent)
      (s s' : S)
      → parse_vins env tx i timestamp before st s ≡ (ok st', s')
      → has_badge_flag vin.signature_script ≡ true
      → (h : IsIllegal vin s')
      → parse_vins env tx i timestamp (before ++ (vin ∷ rest)) st s ≡ (panic, h.last)
  unfolding parse_vins
  parse_vins-illegal tx i timestamp [] rest vin st st' s s' e flagged h =
      >>=_panic (parse_vin env tx i timestamp vin st) (parse_vins env tx (i + 1) timestamp rest) s (
        ap (parse_vin env tx i timestamp vin st) (ap (λ (v : Outcome Spent × S). v.1) e)
        ∙ parse_vin-illegal tx i timestamp vin st s' flagged h)
  parse_vins-illegal tx i timestamp (v ∷ before) rest vin st st' s s' e flagged h =
      let (mid, found, _) =
        >>=-eq-ok (parse_vins env tx (i + 1) timestamp before) st'
          (parse_vin env tx i timestamp v st) s (ap (λ (r : Outcome Spent × S). r.0) e) in
      let next : S = (parse_vin env tx i timestamp v st s).1 in
      let went : parse_vin env tx i timestamp v st s ≡ (ok mid, next) =
        ap (λ (r : Outcome Spent). (r, next)) found in
      >>=_ok (parse_vin env tx i timestamp v st)
        (parse_vins env tx (i + 1) timestamp (before ++ (vin ∷ rest))) s went
      ∙ parse_vins-illegal tx (i + 1) timestamp before rest vin mid st' next s'
          (sym (
              >>=_ok (parse_vin env tx i timestamp v st)
                (parse_vins env tx (i + 1) timestamp before) s went)
            ∙ e)
          flagged h

  -- If all inputs before one go through, and that one bears the badge flag and names an output
  -- that its transaction, known and closed, does not have, the check panics.
  pub parse_msg_tx-illegal :
      (tx : MsgTx) (timestamp : ℤ) (before rest : List TxIn) (vin : TxIn) (st : Spent) (s s' : S)
      → tx.tx_in ≡ before ++ (vin ∷ rest)
      → parse_vins env tx 0 timestamp before nothing_spent s ≡ (ok st, s')
      → has_badge_flag vin.signature_script ≡ true
      → (h : IsIllegal vin s') → parse_msg_tx env tx timestamp s ≡ (panic, h.last)
  unfolding parse_msg_tx
  parse_msg_tx-illegal tx timestamp before rest vin st s s' ins first flagged h =
      >>=_panic (parse_vins env tx 0 timestamp tx.tx_in nothing_spent)
        (λ st. lift (parse_outputs env tx timestamp st)) s
        (ap (λ vs. parse_vins env tx 0 timestamp vs nothing_spent s) ins
          ∙ parse_vins-illegal tx 0 timestamp before rest vin nothing_spent st s s' first flagged h)
