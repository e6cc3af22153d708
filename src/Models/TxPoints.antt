-- ===== src/Models/TxPoints.antt =====
-- models/tx_point.go: an input or output of a transaction that moves badges, and the repository
-- of these records.
use touchstone.Base.{
  ℕ, ℤ, Str, codes, str_eq, Bool, true, List, Action, fail, new_error, ◌==◌, ◌==ℤ◌, leb_ℤ, ltb_ℤ,
  ◌&&◌, if◌then◌else◌,
}
use touchstone.Models.Collection.{Collection}

abbrev pub tx_point_type_all : ℕ
tx_point_type_all = 0

abbrev pub tx_point_type_vin : ℕ
tx_point_type_vin = 1

abbrev pub tx_point_type_vout : ℕ
tx_point_type_vout = 2

abbrev pub tx_point_state_all : ℕ
tx_point_state_all = 0

abbrev pub tx_point_state_may_be_unspent : ℕ
tx_point_state_may_be_unspent = 1

abbrev pub tx_point_state_pretty_sure_spent : ℕ
tx_point_state_pretty_sure_spent = 2

-- `TxPoint`; its field `Type` is `kind` here.
pub record TxPoint : Type 0 where
  pub addr : Str
  pub txid : Str
  pub index : ℤ
  pub kind : ℕ
  pub value : ℤ
  pub pre_txid : Str
  pub pre_index : ℤ
  pub badge_code : Str
  pub timestamp : ℤ
  pub state : ℕ

-- The condition on `txid`, `index` and `type`.
abbrev pub is_point : Str → ℤ → ℕ → TxPoint → Bool
is_point txid index kind p = str_eq p.txid txid && (p.index ==ℤ index && p.kind == kind)

-- The unique index of the collection: `txid`, `index` and `type`.
abbrev pub same_point : TxPoint → TxPoint → Bool
same_point p q = str_eq p.txid q.txid && (p.index ==ℤ q.index && p.kind == q.kind)

-- The conditions of `GetTxPointsByAddr`.
abbrev pub is_of_addr : Str → Str → ℕ → TxPoint → Bool
is_of_addr addr badge_code state p =
    str_eq p.addr addr
    && (str_eq p.badge_code badge_code
        && (if state == tx_point_state_all then true else p.state == state))

-- The orders `index` and `-timestamp`.
abbrev pub by_index : TxPoint → TxPoint → Bool
by_index p q = leb_ℤ p.index q.index

abbrev pub by_timestamp_desc : TxPoint → TxPoint → Bool
by_timestamp_desc p q = leb_ℤ q.timestamp p.timestamp

module _ {S : Type 0} (col : Collection S TxPoint) where
  open col use {foreach, insert, get_one, get_all, update_one, delete_all}

  unfoldable pub add_tx_point : TxPoint → Action S (Unit {0})
  add_tx_point p = insert p

  unfoldable pub get_tx_point : Str → ℤ → ℕ → Action S TxPoint
  get_tx_point txid index kind =
      if kind == tx_point_type_all
      then fail (new_error (codes "only support in or out,not all"))
      else get_one (is_point txid index kind)

  unfoldable pub get_tx_points : Str → Action S (List TxPoint)
  get_tx_points txid = get_all (λ p. str_eq p.txid txid) by_index

  unfoldable pub get_tx_points_by_addr : Str → Str → ℕ → Action S (List TxPoint)
  get_tx_points_by_addr addr badge_code state =
      get_all (is_of_addr addr badge_code state) by_timestamp_desc

  unfoldable pub delete_tx_points : Str → Action S (Unit {0})
  delete_tx_points txid = delete_all (λ p. str_eq p.txid txid)

  unfoldable pub set_tx_point_state : Str → ℤ → ℕ → ℕ → Action S (Unit {0})
  set_tx_point_state txid index kind state =
      if kind == tx_point_type_all
      then fail (new_error (codes "only support in or out,not all"))
      else update_one (is_point txid index kind) (λ p. record p { state = state })

  unfoldable pub foreach_unspent_vin_tx_point :
      ℤ → (TxPoint → Action S (Unit {0})) → Action S (Unit {0})
  foreach_unspent_vin_tx_point last_timestamp handle =
      foreach
        (λ p.
          ltb_ℤ p.timestamp last_timestamp
          && (p.state == tx_point_state_may_be_unspent && p.kind == tx_point_type_vin))
        handle
