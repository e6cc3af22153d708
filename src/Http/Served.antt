-- ===== src/Http/Served.antt =====
-- The handlers ask the server what the requests of their routes ask of it.
use touchstone.Base.{
  ℕ, pos, ◌≡◌, refl, ap, ◌∙◌, codes, true, Bool-cases, List, [], ◌∷◌, map, Option, none, some, ◌⊎◌,
  inl, inr, Outcome, ok, err, Action, lift, ◌>>=◌, ltb_ℤ, ok_injective, bind-eq-ok,
}
use touchstone.Services.Env.{Env}
use touchstone.Services.Validate.{new_code_error}
use touchstone.Services.Send.{AddrAmount}
use touchstone.Http.{err_parameters_code, do_check_nil_recursion, other}
use touchstone.Http.Requests.{
  Route, sendrawtransaction, gettxinventory, getaddrutxos, getaddrbalance, getaddrinventorys,
  setaddrinfo, getuserutxos, getuserbalance, getuserinventorys, sendbadgetoaddress, Body, value_of,
  SendBadgeToAddressReq,
}
use touchstone.Http.Controller.{
  Call, call_send_raw_transaction, call_get_transaction_inventory, call_get_addr_utxos,
  call_get_addr_balance, call_get_addr_inventorys, call_set_addr_info, call_get_user_utxos,
  call_get_user_balance, call_get_user_inventorys, call_send_badge_to_address, Answer, deref_all,
  to_payment, to_call, run, handle_request,
}
use touchstone.Http.Fields.{payment-IsWhole, to_payment-eq-ok, two_fields, four_fields}
use touchstone.Http.Asked.{Asks, IsNegative}

deref_all-map :
    (ps : List (Option AddrAmount)) {amounts : List AddrAmount}
    → deref_all ps ≡ ok amounts
    → ps ≡ map some amounts
deref_all-map [] h = ap (map some) (ok_injective h)
deref_all-map (none ∷ ps) h = absurd (cc)
deref_all-map (some a ∷ ps) h =
    let (rest, e, e') = bind-eq-ok (deref_all ps) (λ rest. ok (a ∷ rest)) h in
    ap (◌∷◌ (some a)) (deref_all-map ps e) ∙ ap (map some) (ok_injective e')

to_payment-negative :
    (q : SendBadgeToAddressReq)
    → ltb_ℤ q.amount2burn (pos 0) ≡ true
    → to_payment q ≡ err (new_code_error err_parameters_code (codes "Amount2Burn < 0"))
unfolding to_payment
to_payment-negative q negative = rw negative refl

module _ {S : Type 0} (env : Env S) (fuel : ℕ) where
  -- The action of a handler whose call is known.
  action-eq :
      (o : Outcome Call) (call : Call) → o ≡ ok call → (lift o >>= run env fuel) ≡ run env fuel call
  action-eq o call e = ap (λ x. lift x >>= run env fuel) e

  -- A request that passes the check of nil pointers has its handler do what it asks, or it is a
  -- payment that is refused.
  pub handle_request-Asks :
      (r : Route) (q : Body r)
      → do_check_nil_recursion (value_of r q) ≡ ok tt
      → Asks env fuel r q (handle_request env fuel r q)
        ⊎ (IsNegative env fuel r q
            × (handle_request env fuel r q
                ≡ lift (err (new_code_error err_parameters_code (codes "Amount2Burn < 0")))))
  unfolding Asks IsNegative handle_request to_call to_payment Body value_of run
  handle_request-Asks sendrawtransaction q h = inl refl
  handle_request-Asks gettxinventory q h = inl refl
  handle_request-Asks getaddrutxos q h =
      let (a, b, ea, eb) = two_fields q.addr q.badge_code (other ∷ other ∷ []) h in
      inl (
        a,
        b,
        ea,
        eb,
        action-eq (to_call getaddrutxos q) (call_get_addr_utxos a b q.offset q.limit) (cc),
      )
  handle_request-Asks getaddrbalance q h =
      let (a, b, ea, eb) = two_fields q.addr q.badge_code [] h in
      inl (a, b, ea, eb, action-eq (to_call getaddrbalance q) (call_get_addr_balance a b) (cc))
  handle_request-Asks getaddrinventorys q h =
      let (a, b, ea, eb) = two_fields q.addr q.badge_code (other ∷ other ∷ []) h in
      inl (
        a,
        b,
        ea,
        eb,
        action-eq (to_call getaddrinventorys q) (call_get_addr_inventorys a b q.offset q.limit)
            (cc),
      )
  handle_request-Asks setaddrinfo q h =
      let (a, b, c, d, ea, eb, ec, ed) = four_fields q.appid q.user_id q.user_index q.addr [] h in
      inl (
        a,
        b,
        c,
        d,
        ea,
        eb,
        ec,
        ed,
        action-eq (to_call setaddrinfo q) (call_set_addr_info a b c d) (cc),
      )
  handle_request-Asks getuserutxos q h =
      let (a, b, c, d, ea, eb, ec, ed) =
        four_fields q.appid q.user_id q.user_index q.badge_code (other ∷ other ∷ []) h in
      inl (
        a,
        b,
        c,
        d,
        ea,
        eb,
        ec,
        ed,
        action-eq (to_call getuserutxos q) (call_get_user_utxos a b c d q.offset q.limit) (cc),
      )
  handle_request-Asks getuserbalance q h =
      let (a, b, c, d, ea, eb, ec, ed) =
        four_fields q.appid q.user_id q.user_index q.badge_code [] h in
      inl (
        a,
        b,
        c,
        d,
        ea,
        eb,
        ec,
        ed,
        action-eq (to_call getuserbalance q) (call_get_user_balance a b c d) (cc),
      )
  handle_request-Asks getuserinventorys q h =
      let (a, b, c, d, ea, eb, ec, ed) =
        four_fields q.appid q.user_id q.user_index q.badge_code (other ∷ other ∷ []) h in
      inl (
        a,
        b,
        c,
        d,
        ea,
        eb,
        ec,
        ed,
        action-eq (to_call getuserinventorys q) (call_get_user_inventorys a b c d q.offset q.limit)
            (cc),
      )
  handle_request-Asks sendbadgetoaddress q h = elim (Bool-cases (ltb_ℤ q.amount2burn (pos 0))) [
    | inl negative ↦
        inr (negative, ap (λ x. lift x >>= run env fuel) (to_payment-negative q negative))
    | inr fine ↦
        let w = payment-IsWhole q h in
        inl (
          fine,
          w,
          deref_all-map q.addr_amounts w.has_amounts,
          action-eq (to_payment q)
              (call_send_badge_to_address w.appid w.user_id w.user_index w.badge_code w.change_addr
                w.amounts q.amount2burn)
              (to_payment-eq-ok q w fine),
        )
  ]

  -- What asks something of the server makes a call.
  pub Asks-to_call :
      (r : Route) (q : Body r) (m : Action S Answer)
      → Asks env fuel r q m
      → (call : Call) × (to_call r q ≡ ok call)
  unfolding Asks to_call to_payment Body
  Asks-to_call sendrawtransaction q m h = (call_send_raw_transaction q.raw_tx, refl)
  Asks-to_call gettxinventory q m h = (call_get_transaction_inventory q.txid, refl)
  Asks-to_call getaddrutxos q m (a, b, ea, eb, _) = (call_get_addr_utxos a b q.offset q.limit, cc)
  Asks-to_call getaddrbalance q m (a, b, ea, eb, _) = (call_get_addr_balance a b, cc)
  Asks-to_call getaddrinventorys q m (a, b, ea, eb, _) =
      (call_get_addr_inventorys a b q.offset q.limit, cc)
  Asks-to_call setaddrinfo q m (a, b, c, d, ea, eb, ec, ed, _) = (call_set_addr_info a b c d, cc)
  Asks-to_call getuserutxos q m (a, b, c, d, ea, eb, ec, ed, _) =
      (call_get_user_utxos a b c d q.offset q.limit, cc)
  Asks-to_call getuserbalance q m (a, b, c, d, ea, eb, ec, ed, _) =
      (call_get_user_balance a b c d, cc)
  Asks-to_call getuserinventorys q m (a, b, c, d, ea, eb, ec, ed, _) =
      (call_get_user_inventorys a b c d q.offset q.limit, cc)
  Asks-to_call sendbadgetoaddress q m (fine, w, _, _) = (
    call_send_badge_to_address w.appid w.user_id w.user_index w.badge_code w.change_addr w.amounts
        q.amount2burn,
    to_payment-eq-ok q w fine,
  )
