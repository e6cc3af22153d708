-- ===== src/Http/Nil.antt =====
-- A request that passes `CheckNil` has what its handler dereferences.
use touchstone.Base.{
  ◌≡◌, refl, ap, pos, codes, Bool-cases, List, [], ◌∷◌, Option, ◌⊎◌, inl, inr, Outcome, ok, err,
  bind, ltb_ℤ,
}
use touchstone.Services.Validate.{new_code_error}
use touchstone.Http.{
  Value, Values, nil_ptr, ptr, struct, slice, other, end, field, missing, or_missing,
  err_parameters_code, do_check_nil_recursion, check_nil_values,
}
use touchstone.Http.Requests.{
  Route, sendrawtransaction, gettxinventory, getaddrutxos, getaddrbalance, getaddrinventorys,
  setaddrinfo, getuserutxos, getuserbalance, getuserinventorys, sendbadgetoaddress, Body, value_of,
  pointer, fields,
}
use touchstone.Http.Controller.{
  Call, call_send_raw_transaction, call_get_transaction_inventory, call_get_addr_utxos,
  call_get_addr_balance, call_get_addr_inventorys, call_set_addr_info, call_get_user_utxos,
  call_get_user_balance, call_get_user_inventorys, call_send_badge_to_address, deref, to_payment,
  to_call,
}
use touchstone.Http.Fields.{two_fields, four_fields, payment-IsWhole, to_payment-eq-ok}

-- A call is made, or the amount to burn is refused.
IsMade : Outcome Call → Type 0
IsMade m =
    ((call : Call) × (m ≡ ok call))
    ⊎ (m ≡ err (new_code_error err_parameters_code (codes "Amount2Burn < 0")))

-- The handlers that take two fields, and four, make their call.
module _ {A B : Type 0} where
  two :
      (p : Option A) (q : Option B) (rest : List Value) (k : A → B → Call)
      → do_check_nil_recursion (ptr (struct (fields (pointer p ∷ pointer q ∷ rest)))) ≡ ok tt
      → IsMade (bind (deref p) λ a. bind (deref q) λ b. ok (k a b))
  unfolding IsMade
  two p q rest k h = let (a, b, ea, eb) = two_fields p q rest h in inl (k a b, cc)

module _ {A B C D : Type 0} where
  four :
      (p : Option A) (q : Option B) (r : Option C) (s : Option D) (rest : List Value)
      (k : A → B → C → D → Call)
      → do_check_nil_recursion
          (ptr (struct (fields (pointer p ∷ pointer q ∷ pointer r ∷ pointer s ∷ rest))))
        ≡ ok tt
      → IsMade (
          bind
            (deref p)
            λ a. bind (deref q) λ b. bind (deref r) λ c. bind (deref s) λ d. ok (k a b c d))
  unfolding IsMade
  four p q r s rest k h =
      let (a, b, c, d, ea, eb, ec, ed) = four_fields p q r s rest h in inl (k a b c d, cc)

to_payment-IsMade :
    (q : Body sendbadgetoaddress)
    → do_check_nil_recursion (value_of sendbadgetoaddress q) ≡ ok tt
    → IsMade (to_call sendbadgetoaddress q)
unfolding value_of Body to_call to_payment IsMade
to_payment-IsMade q h = elim (Bool-cases (ltb_ℤ q.amount2burn (pos 0))) [
  | inl negative ↦ inr (rw negative refl)
  | inr fine ↦
      let w = payment-IsWhole q h in
      inl (
        call_send_badge_to_address w.appid w.user_id w.user_index w.badge_code w.change_addr
            w.amounts q.amount2burn,
        to_payment-eq-ok q w fine,
      )
]

-- A request that passes the check of nil pointers makes its call of the server, with no nil pointer
-- dereferenced, on each of the ten routes; only a negative amount to burn is refused, with an error
-- of the parameters.
pub to_call-checked :
    (r : Route) (q : Body r)
    → do_check_nil_recursion (value_of r q) ≡ ok tt
    → ((call : Call) × (to_call r q ≡ ok call))
      ⊎ (to_call r q ≡ err (new_code_error err_parameters_code (codes "Amount2Burn < 0")))
unfolding to_call Body value_of IsMade
to_call-checked sendrawtransaction q h = inl (call_send_raw_transaction q.raw_tx, refl)
to_call-checked gettxinventory q h = inl (call_get_transaction_inventory q.txid, refl)
to_call-checked getaddrutxos q h =
    two q.addr q.badge_code (other ∷ other ∷ [])
      (λ addr code. call_get_addr_utxos addr code q.offset q.limit) h
to_call-checked getaddrbalance q h = two q.addr q.badge_code [] call_get_addr_balance h
to_call-checked getaddrinventorys q h =
    two q.addr q.badge_code (other ∷ other ∷ [])
      (λ addr code. call_get_addr_inventorys addr code q.offset q.limit) h
to_call-checked setaddrinfo q h = four q.appid q.user_id q.user_index q.addr [] call_set_addr_info h
to_call-checked getuserutxos q h =
    four q.appid q.user_id q.user_index q.badge_code (other ∷ other ∷ [])
      (λ a b c d. call_get_user_utxos a b c d q.offset q.limit) h
to_call-checked getuserbalance q h =
    four q.appid q.user_id q.user_index q.badge_code [] call_get_user_balance h
to_call-checked getuserinventorys q h =
    four q.appid q.user_id q.user_index q.badge_code (other ∷ other ∷ [])
      (λ a b c d. call_get_user_inventorys a b c d q.offset q.limit) h
to_call-checked sendbadgetoaddress q h = to_payment-IsMade q h

-- The check passes or gives its one error.
mutual
  unfolding do_check_nil_recursion check_nil_values

  pub do_check_nil_recursion-cases :
      (v : Value) → (do_check_nil_recursion v ≡ ok tt) ⊎ (do_check_nil_recursion v ≡ err missing)
  do_check_nil_recursion-cases nil_ptr = inr refl
  do_check_nil_recursion-cases (ptr v) = elim (do_check_nil_recursion-cases v) [
    | inl h ↦ inl (ap or_missing h)
    | inr h ↦ inr (ap or_missing h)
  ]
  do_check_nil_recursion-cases (struct vs) = check_nil_values-cases vs
  do_check_nil_recursion-cases (slice vs) = check_nil_values-cases vs
  do_check_nil_recursion-cases other = inl refl

  check_nil_values-cases :
      (vs : Values) → (check_nil_values vs ≡ ok tt) ⊎ (check_nil_values vs ≡ err missing)
  check_nil_values-cases end = inl refl
  check_nil_values-cases (field v vs) = elim (do_check_nil_recursion-cases v) [
    | inl h ↦ elim (check_nil_values-cases vs) [ inl h' ↦ inl (cc) | inr h' ↦ inr (cc) ]
    | inr h ↦ inr (cc)
  ]
