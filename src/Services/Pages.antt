-- ===== src/Services/Pages.antt =====
-- Pages of a sorted slice: `PageTxPoints`, `PageAddrInventorys` and the queries with a page.
pub mod Bounds
use touchstone.Base.{
  ℕ, ◌-◌, ℤ, pos, negsuc, pos_part, Str, Bool, List, [], ◌∷◌, Outcome, ok, panic, Action, lift,
  ◌>>=◌, length, take, drop, ltb_ℤ, leb_ℤ, ◌||◌, ◌+64◌, if◌then◌else◌,
}
use touchstone.Models.TxPoints.{TxPoint}
use touchstone.Services.Env.{Env}
use touchstone.Services.Utxos.{get_all_addr_utxos, get_all_user_utxos}
use touchstone.Services.Inventories.{
  AddrInventory, get_all_addr_inventorys, get_user_addr_inventorys,
}

-- `TxPointsSorter.Less` and `AddrInventorySorter.Less`
abbrev pub less_tx_point : TxPoint → TxPoint → Bool
less_tx_point p q = ltb_ℤ p.timestamp q.timestamp

abbrev pub less_addr_inventory : AddrInventory → AddrInventory → Bool
less_addr_inventory i j = ltb_ℤ j.timestamp i.timestamp

module _ {A : Type 0} where
  -- `xs[lo:hi]`, for a `hi` that is no greater than the length.
  unfoldable pub slice : List A → ℤ → ℤ → Outcome (List A)
  slice xs lo hi =
      if ltb_ℤ lo (pos 0) || ltb_ℤ hi lo
      then panic
      else ok (take (pos_part hi - pos_part lo) (drop (pos_part lo) xs))

  -- What follows `sort.Sort` in both functions.
  unfoldable pub page_of : List A → ℤ → ℤ → Outcome (List A)
  unfolding slice
  page_of xs offset limit =
      if leb_ℤ (pos (length xs)) offset
      then ok []
      else if ltb_ℤ (pos (length xs)) (limit +64 offset)
      then slice xs offset (pos (length xs))
      else slice xs offset (limit +64 offset)

module _ {S : Type 0} (env : Env S) where
  unfoldable pub page_tx_points : List TxPoint → ℤ → ℤ → Outcome (List TxPoint)
  unfolding page_of
  page_tx_points ps offset limit = page_of (env.sort less_tx_point ps) offset limit

  unfoldable pub page_addr_inventorys : List AddrInventory → ℤ → ℤ → Outcome (List AddrInventory)
  unfolding page_of
  page_addr_inventorys is offset limit = page_of (env.sort less_addr_inventory is) offset limit

  unfoldable pub get_addr_utxos : Str → Str → ℤ → ℤ → Action S (List TxPoint)
  unfolding page_tx_points
  get_addr_utxos addr badge_code offset limit = do
    utxos ← get_all_addr_utxos env addr badge_code
    lift (page_tx_points utxos offset limit)

  unfoldable pub get_user_utxos : Str → ℤ → ℤ → Str → ℤ → ℤ → Action S (List TxPoint)
  unfolding page_tx_points
  get_user_utxos appid user_id user_index badge_code offset limit = do
    utxos ← get_all_user_utxos env appid user_id user_index badge_code
    lift (page_tx_points utxos offset limit)

  unfoldable pub get_addr_inventorys : Str → Str → ℤ → ℤ → Action S (List AddrInventory)
  unfolding page_addr_inventorys
  get_addr_inventorys addr badge_code offset limit = do
    is ← get_all_addr_inventorys env addr badge_code
    lift (page_addr_inventorys is offset limit)

  unfoldable pub get_user_inventorys : Str → ℤ → ℤ → Str → ℤ → ℤ → Action S (List AddrInventory)
  unfolding page_addr_inventorys
  get_user_inventorys appid user_id user_index badge_code offset limit = do
    is ← get_user_addr_inventorys env appid user_id user_index badge_code
    lift (page_addr_inventorys is offset limit)
