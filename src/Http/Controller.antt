-- ===== src/Http/Controller.antt =====
-- controller/http_controller.go: the handlers, which take the fields out of a request and call the
-- server.
use touchstone.Base.{
  ℕ, ℤ, pos, Str, Bytes, codes, List, [], ◌∷◌, Option, none, some, ◌⊎◌, Outcome, ok, err, panic,
  bind, Error, Action, pure, lift, ◌>>=◌, ltb_ℤ, if◌then◌else◌,
}
use touchstone.Models.TxPoints.{TxPoint}
use touchstone.Services.Env.{Env}
use touchstone.Services.Validate.{TxInventory, new_code_error}
use touchstone.Services.Sync.{send_raw_transaction}
use touchstone.Services.Inventories.{AddrInventory, get_transaction_inventory}
use touchstone.Services.Pages.{
  get_addr_utxos, get_user_utxos, get_addr_inventorys, get_user_inventorys,
}
use touchstone.Services.Utxos.{get_addr_balance, get_user_balance}
use touchstone.Services.Chain.{set_addr_info}
use touchstone.Services.Send.{AddrAmount, SendBadgeToAddressRsp, send_badge_to_address}
use touchstone.Http.{err_parameters_code, HttpJsonResponse, aspect}
use touchstone.Http.Requests.{
  Route, sendrawtransaction, gettxinventory, getaddrutxos, getaddrbalance, getaddrinventorys,
  setaddrinfo, getuserutxos, getuserbalance, getuserinventorys, sendbadgetoaddress, Body,
  new_http_req_body, value_of, SendBadgeToAddressReq,
}

-- The calls that the handlers make of the server.
pub data Call : Type 0 where
  call_send_raw_transaction : Str → Call
  call_get_transaction_inventory : Str → Call
  call_get_addr_utxos : Str → Str → ℤ → ℤ → Call
  call_get_addr_balance : Str → Str → Call
  call_get_addr_inventorys : Str → Str → ℤ → ℤ → Call
  call_set_addr_info : Str → ℤ → ℤ → Str → Call
  call_get_user_utxos : Str → ℤ → ℤ → Str → ℤ → ℤ → Call
  call_get_user_balance : Str → ℤ → ℤ → Str → Call
  call_get_user_inventorys : Str → ℤ → ℤ → Str → ℤ → ℤ → Call
  call_send_badge_to_address : Str → ℤ → ℤ → Str → Str → List AddrAmount → ℤ → Call

-- What the handlers give back, an `interface{}`.
pub data Answer : Type 0 where
  an_inventory : TxInventory → Answer
  some_points : List TxPoint → Answer
  a_balance : ℤ → Answer
  some_inventorys : List AddrInventory → Answer
  nothing : Answer
  a_payment : SendBadgeToAddressRsp → Answer

-- `*p`
abbrev pub deref : {A : Type 0} → Option A → Outcome A
deref none = panic
deref (some a) = ok a

-- The server dereferences each amount in turn; here a nil among them panics before the call.
abbrev pub deref_all : {A : Type 0} → List (Option A) → Outcome (List A)
deref_all [] = ok []
deref_all (p ∷ ps) = bind (deref p) λ a. bind (deref_all ps) λ rest. ok (a ∷ rest)

unfoldable pub to_payment : SendBadgeToAddressReq → Outcome Call
to_payment q =
    if ltb_ℤ q.amount2burn (pos 0)
    then err (new_code_error err_parameters_code (codes "Amount2Burn < 0"))
    else bind (deref q.appid) λ appid. bind (deref q.user_id) λ user_id.
      bind (deref q.user_index) λ user_index. bind (deref q.badge_code) λ badge_code.
        bind (deref q.change_addr) λ change_addr. bind (deref_all q.addr_amounts) λ addr_amounts.
          ok (
            call_send_badge_to_address appid user_id user_index badge_code change_addr addr_amounts
              q.amount2burn)

-- The handlers of `HttpController` up to the call of the server.
unfoldable pub to_call : (r : Route) → Body r → Outcome Call
unfolding Body to_payment
to_call sendrawtransaction q = ok (call_send_raw_transaction q.raw_tx)
to_call gettxinventory q = ok (call_get_transaction_inventory q.txid)
to_call getaddrutxos q = bind (deref q.addr) λ addr.
    bind (deref q.badge_code)
      λ badge_code. ok (call_get_addr_utxos addr badge_code q.offset q.limit)
to_call getaddrbalance q =
    bind (deref q.addr)
      λ addr. bind (deref q.badge_code) λ badge_code. ok (call_get_addr_balance addr badge_code)
to_call getaddrinventorys q = bind (deref q.addr) λ addr.
    bind (deref q.badge_code)
      λ badge_code. ok (call_get_addr_inventorys addr badge_code q.offset q.limit)
to_call setaddrinfo q = bind (deref q.appid) λ appid. bind (deref q.user_id) λ user_id.
    bind (deref q.user_index) λ user_index.
      bind (deref q.addr) λ addr. ok (call_set_addr_info appid user_id user_index addr)
to_call getuserutxos q = bind (deref q.appid) λ appid. bind (deref q.user_id) λ user_id.
    bind (deref q.user_index) λ user_index.
      bind (deref q.badge_code)
        λ badge_code. ok (call_get_user_utxos appid user_id user_index badge_code q.offset q.limit)
to_call getuserbalance q = bind (deref q.appid) λ appid. bind (deref q.user_id) λ user_id.
    bind (deref q.user_index) λ user_index.
      bind (deref q.badge_code)
        λ badge_code. ok (call_get_user_balance appid user_id user_index badge_code)
to_call getuserinventorys q = bind (deref q.appid) λ appid. bind (deref q.user_id) λ user_id.
    bind (deref q.user_index) λ user_index. bind (deref q.badge_code) λ badge_code.
      ok (call_get_user_inventorys appid user_id user_index badge_code q.offset q.limit)
to_call sendbadgetoaddress q = to_payment q

-- The server, over its environment, with the rounds for the loops that read a transaction.
module _ {S : Type 0} (env : Env S) (fuel : ℕ) where
  unfoldable pub run : Call → Action S Answer
  run (call_send_raw_transaction raw_tx) =
      send_raw_transaction env fuel raw_tx >>= λ i. pure (an_inventory i)
  run (call_get_transaction_inventory txid) =
      get_transaction_inventory env txid >>= λ i. pure (an_inventory i)
  run (call_get_addr_utxos addr badge_code offset limit) =
      get_addr_utxos env addr badge_code offset limit >>= λ ps. pure (some_points ps)
  run (call_get_addr_balance addr badge_code) =
      get_addr_balance env addr badge_code >>= λ b. pure (a_balance b)
  run (call_get_addr_inventorys addr badge_code offset limit) =
      get_addr_inventorys env addr badge_code offset limit >>= λ is. pure (some_inventorys is)
  run (call_set_addr_info appid user_id user_index addr) =
      set_addr_info env appid user_id user_index addr >>= λ _. pure nothing
  run (call_get_user_utxos appid user_id user_index badge_code offset limit) =
      get_user_utxos env appid user_id user_index badge_code offset limit >>= λ ps.
      pure (some_points ps)
  run (call_get_user_balance appid user_id user_index badge_code) =
      get_user_balance env appid user_id user_index badge_code >>= λ b. pure (a_balance b)
  run (call_get_user_inventorys appid user_id user_index badge_code offset limit) =
      get_user_inventorys env appid user_id user_index badge_code offset limit >>= λ is.
      pure (some_inventorys is)
  run
        (call_send_badge_to_address appid user_id user_index badge_code change_addr addr_amounts
          amount2burn) =
      send_badge_to_address env appid user_id user_index badge_code change_addr addr_amounts
        amount2burn
      >>= λ p. pure (a_payment p)

  unfoldable pub handle_request : (r : Route) → Body r → Action S Answer
  unfolding run to_call
  handle_request r q = lift (to_call r q) >>= run

  -- What the router calls for a route: `interceptor.Aspect(handler, &Req{})`.
  unfoldable pub serve :
      ((r : Route) → Bytes → Body r → Error ⊎ Body r)
      → (r : Route) → Error ⊎ Bytes
      → Action S (HttpJsonResponse Answer)
  unfolding handle_request
  serve unmarshal r body =
      aspect (unmarshal r) (value_of r) (handle_request r) (new_http_req_body r) body
