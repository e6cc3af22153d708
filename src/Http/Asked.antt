-- ===== src/Http/Asked.antt =====
-- What the server is asked to do for a request of each route.
use touchstone.Base.{ℕ, ℤ, pos, ◌≡◌, Str, true, false, map, some, Action, pure, ◌>>=◌, ltb_ℤ}
use touchstone.Services.Env.{Env}
use touchstone.Services.Sync.{send_raw_transaction}
use touchstone.Services.Inventories.{get_transaction_inventory}
use touchstone.Services.Pages.{
  get_addr_utxos, get_user_utxos, get_addr_inventorys, get_user_inventorys,
}
use touchstone.Services.Utxos.{get_addr_balance, get_user_balance}
use touchstone.Services.Chain.{set_addr_info}
use touchstone.Services.Send.{send_badge_to_address}
use touchstone.Http.Requests.{
  Route, sendrawtransaction, gettxinventory, getaddrutxos, getaddrbalance, getaddrinventorys,
  setaddrinfo, getuserutxos, getuserbalance, getuserinventorys, sendbadgetoaddress, Body,
}
use touchstone.Http.Controller.{
  Answer, an_inventory, some_points, a_balance, some_inventorys, nothing, a_payment,
}
use touchstone.Http.Fields.{IsWhole}

module _ {S : Type 0} (env : Env S) (fuel : ℕ) where
  -- What a request asks of the server, with the values of its fields, in their order. A request that
  -- lacks a field asks nothing, and neither does a payment with a negative amount to burn.
  unfoldable pub Asks : (r : Route) → Body r → Action S Answer → Type 0
  unfolding Body
  Asks sendrawtransaction q m =
      m ≡ (send_raw_transaction env fuel q.raw_tx >>= λ i. pure (an_inventory i))
  Asks gettxinventory q m =
      m ≡ (get_transaction_inventory env q.txid >>= λ i. pure (an_inventory i))
  Asks getaddrutxos q m =
      (addr : Str) × (badge_code : Str) × (q.addr ≡ some addr)
      × (q.badge_code ≡ some badge_code)
      × (m ≡ (get_addr_utxos env addr badge_code q.offset q.limit >>= λ ps. pure (some_points ps)))
  Asks getaddrbalance q m =
      (addr : Str) × (badge_code : Str) × (q.addr ≡ some addr)
      × (q.badge_code ≡ some badge_code)
      × (m ≡ (get_addr_balance env addr badge_code >>= λ b. pure (a_balance b)))
  Asks getaddrinventorys q m =
      (addr : Str) × (badge_code : Str) × (q.addr ≡ some addr)
      × (q.badge_code ≡ some badge_code)
      × (m ≡ (
          get_addr_inventorys env addr badge_code q.offset q.limit >>= λ is.
          pure (some_inventorys is)))
  Asks setaddrinfo q m =
      (appid : Str) × (user_id : ℤ) × (user_index : ℤ) × (addr : Str) × (q.appid ≡ some appid)
      × (q.user_id ≡ some user_id)
      × (q.user_index ≡ some user_index)
      × (q.addr ≡ some addr)
      × (m ≡ (set_addr_info env appid user_id user_index addr >>= λ _. pure nothing))
  Asks getuserutxos q m =
      (appid : Str) × (user_id : ℤ) × (user_index : ℤ) × (badge_code : Str) × (q.appid ≡ some appid)
      × (q.user_id ≡ some user_id)
      × (q.user_index ≡ some user_index)
      × (q.badge_code ≡ some badge_code)
      × (m ≡ (
          get_user_utxos env appid user_id user_index badge_code q.offset q.limit >>= λ ps.
          pure (some_points ps)))
  Asks getuserbalance q m =
      (appid : Str) × (user_id : ℤ) × (user_index : ℤ) × (badge_code : Str) × (q.appid ≡ some appid)
      × (q.user_id ≡ some user_id)
      × (q.user_index ≡ some user_index)
      × (q.badge_code ≡ some badge_code)
      × (m ≡ (get_user_balance env appid user_id user_index badge_code >>= λ b. pure (a_balance b)))
  Asks getuserinventorys q m =
      (appid : Str) × (user_id : ℤ) × (user_index : ℤ) × (badge_code : Str) × (q.appid ≡ some appid)
      × (q.user_id ≡ some user_id)
      × (q.user_index ≡ some user_index)
      × (q.badge_code ≡ some badge_code)
      × (m ≡ (
          get_user_inventorys env appid user_id user_index badge_code q.offset q.limit >>= λ is.
          pure (some_inventorys is)))
  Asks sendbadgetoaddress q m =
      (ltb_ℤ q.amount2burn (pos 0) ≡ false)
      × (w : IsWhole q) × (q.addr_amounts ≡ map some w.amounts)
      × (m ≡ (
          send_badge_to_address env w.appid w.user_id w.user_index w.badge_code w.change_addr
            w.amounts q.amount2burn
          >>= λ p. pure (a_payment p)))

  -- A payment with a negative amount to burn.
  unfoldable pub IsNegative : (r : Route) → Body r → Type 0
  unfolding Body
  IsNegative sendbadgetoaddress q = ltb_ℤ q.amount2burn (pos 0) ≡ true
  IsNegative _ q = ⊥
