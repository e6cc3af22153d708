-- ===== src/Http/Requests.antt =====
-- The request structures of controller/http_controller.go, and the routes of main.go.
use touchstone.Base.{ℤ, pos, Str, codes, List, [], ◌∷◌, Option, none, some}
use touchstone.Services.Send.{AddrAmount}
use touchstone.Http.{Value, Values, nil_ptr, ptr, struct, slice, other, end, field}

-- The routes, by their handlers.
pub data Route : Type 0 where
  sendrawtransaction gettxinventory getaddrutxos getaddrbalance getaddrinventorys setaddrinfo
        getuserutxos getuserbalance getuserinventorys sendbadgetoaddress :
      Route

pub record SendRawTransactionReq : Type 0 where
  pub raw_tx : Str

pub record GetTransactionInventoryReq : Type 0 where
  pub txid : Str

pub record GetAddrUtxosReq : Type 0 where
  pub addr : Option Str
  pub badge_code : Option Str
  pub offset : ℤ
  pub limit : ℤ

pub record GetAddrBalanceReq : Type 0 where
  pub addr : Option Str
  pub badge_code : Option Str

pub record GetAddrInventorysReq : Type 0 where
  pub addr : Option Str
  pub badge_code : Option Str
  pub offset : ℤ
  pub limit : ℤ

pub record SetAddrInfoReq : Type 0 where
  pub appid : Option Str
  pub user_id : Option ℤ
  pub user_index : Option ℤ
  pub addr : Option Str

pub record GetUserUtxosReq : Type 0 where
  pub appid : Option Str
  pub user_id : Option ℤ
  pub user_index : Option ℤ
  pub badge_code : Option Str
  pub offset : ℤ
  pub limit : ℤ

pub record GetUserBalanceReq : Type 0 where
  pub appid : Option Str
  pub user_id : Option ℤ
  pub user_index : Option ℤ
  pub badge_code : Option Str

pub record GetUserInventorysReq : Type 0 where
  pub appid : Option Str
  pub user_id : Option ℤ
  pub user_index : Option ℤ
  pub badge_code : Option Str
  pub offset : ℤ
  pub limit : ℤ

pub record SendBadgeToAddressReq : Type 0 where
  pub appid : Option Str
  pub user_id : Option ℤ
  pub user_index : Option ℤ
  pub badge_code : Option Str
  pub change_addr : Option Str
  pub addr_amounts : List (Option AddrAmount)
  pub amount2burn : ℤ

-- The structure that a route's handler takes.
unfoldable pub Body : Route → Type 0
Body sendrawtransaction = SendRawTransactionReq
Body gettxinventory = GetTransactionInventoryReq
Body getaddrutxos = GetAddrUtxosReq
Body getaddrbalance = GetAddrBalanceReq
Body getaddrinventorys = GetAddrInventorysReq
Body setaddrinfo = SetAddrInfoReq
Body getuserutxos = GetUserUtxosReq
Body getuserbalance = GetUserBalanceReq
Body getuserinventorys = GetUserInventorysReq
Body sendbadgetoaddress = SendBadgeToAddressReq

-- `NewHttpReqBody`
unfoldable pub new_http_req_body : (r : Route) → Body r
unfolding Body
new_http_req_body sendrawtransaction = record { raw_tx = [] }
new_http_req_body gettxinventory = record { txid = [] }
new_http_req_body getaddrutxos = record {
  addr = none;
  badge_code = none;
  offset = pos 0;
  limit = pos 10;
}
new_http_req_body getaddrbalance = record { addr = none; badge_code = none }
new_http_req_body getaddrinventorys = record {
  addr = none;
  badge_code = none;
  offset = pos 0;
  limit = pos 10;
}
new_http_req_body setaddrinfo = record {
  appid = none;
  user_id = none;
  user_index = none;
  addr = none;
}
new_http_req_body getuserutxos = record {
  appid = none;
  user_id = none;
  user_index = none;
  badge_code = none;
  offset = pos 0;
  limit = pos 10;
}
new_http_req_body getuserbalance = record {
  appid = none;
  user_id = none;
  user_index = none;
  badge_code = none;
}
new_http_req_body getuserinventorys = record {
  appid = none;
  user_id = none;
  user_index = none;
  badge_code = none;
  offset = pos 0;
  limit = pos 10;
}
new_http_req_body sendbadgetoaddress = record {
  appid = none;
  user_id = none;
  user_index = none;
  badge_code = none;
  change_addr = none;
  addr_amounts = [];
  amount2burn = pos 0;
}

-- The paths that `StartHttpServer` gives to the router.
abbrev pub routes : List (Str × Route)
routes =
    (codes "/v1/touchstone/sendrawtransaction", sendrawtransaction)
    ∷ (codes "/v1/touchstone/gettxinventory", gettxinventory)
    ∷ (codes "/v1/touchstone/getaddrutxos", getaddrutxos)
    ∷ (codes "/v1/touchstone/getaddrbalance", getaddrbalance)
    ∷ (codes "/v1/touchstone/getaddrinventorys", getaddrinventorys)
    ∷ (codes "/v1/touchstone/setaddrinfo", setaddrinfo)
    ∷ (codes "/v1/touchstone/getuserutxos", getuserutxos)
    ∷ (codes "/v1/touchstone/getuserbalance", getuserbalance)
    ∷ (codes "/v1/touchstone/getuserinventorys", getuserinventorys)
    ∷ (codes "/v1/touchstone/sendbadgetoaddress", sendbadgetoaddress)
    ∷ []

-- What reflection shows of a pointer to a value without pointers.
abbrev pub pointer : {A : Type 0} → Option A → Value
pointer none = nil_ptr
pointer (some a) = ptr other

-- An `*AddrAmount`: two fields without pointers.
abbrev pub amount_values : List (Option AddrAmount) → Values
amount_values [] = end
amount_values (none ∷ rest) = field nil_ptr (amount_values rest)
amount_values (some a ∷ rest) =
    field (ptr (struct (field other (field other end)))) (amount_values rest)

-- The fields of a structure, in order.
abbrev pub fields : List Value → Values
fields [] = end
fields (v ∷ vs) = field v (fields vs)

-- `reflect.ValueOf` of the pointer to a structure.
unfoldable pub value_of : (r : Route) → Body r → Value
unfolding Body
value_of sendrawtransaction q = ptr (struct (fields (other ∷ [])))
value_of gettxinventory q = ptr (struct (fields (other ∷ [])))
value_of getaddrutxos q =
    ptr (struct (fields (pointer q.addr ∷ pointer q.badge_code ∷ other ∷ other ∷ [])))
value_of getaddrbalance q = ptr (struct (fields (pointer q.addr ∷ pointer q.badge_code ∷ [])))
value_of getaddrinventorys q =
    ptr (struct (fields (pointer q.addr ∷ pointer q.badge_code ∷ other ∷ other ∷ [])))
value_of setaddrinfo q = ptr (
    struct
      (fields (pointer q.appid ∷ pointer q.user_id ∷ pointer q.user_index ∷ pointer q.addr ∷ [])))
value_of getuserutxos q = ptr (
    struct (
      fields (
        pointer q.appid
        ∷ pointer q.user_id
        ∷ pointer q.user_index
        ∷ pointer q.badge_code
        ∷ other
        ∷ other
        ∷ [])))
value_of getuserbalance q = ptr (
    struct (
      fields
        (pointer q.appid ∷ pointer q.user_id ∷ pointer q.user_index ∷ pointer q.badge_code ∷ [])))
value_of getuserinventorys q = ptr (
    struct (
      fields (
        pointer q.appid
        ∷ pointer q.user_id
        ∷ pointer q.user_index
        ∷ pointer q.badge_code
        ∷ other
        ∷ other
        ∷ [])))
value_of sendbadgetoaddress q = ptr (
    struct (
      fields (
        pointer q.appid
        ∷ pointer q.user_id
        ∷ pointer q.user_index
        ∷ pointer q.badge_code
        ∷ pointer q.change_addr
        ∷ slice (amount_values q.addr_amounts)
        ∷ other
        ∷ [])))
