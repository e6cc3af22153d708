-- ===== src/Http/Complete.antt =====
-- `CheckNil` refuses no request that its handler can use.
use touchstone.Base.{
  ◌≡◌, refl, ap, pos, Bool-cases, List, [], ◌∷◌, Option, none, some, inl, inr, Outcome, ok, bind,
  bind-eq-ok, ltb_ℤ,
}
use touchstone.Services.Send.{AddrAmount}
use touchstone.Http.{
  Value, Values, ptr, struct, other, field, or_missing, do_check_nil_recursion, check_nil_values,
}
use touchstone.Http.Requests.{
  Route, sendrawtransaction, gettxinventory, getaddrutxos, getaddrbalance, getaddrinventorys,
  setaddrinfo, getuserutxos, getuserbalance, getuserinventorys, sendbadgetoaddress, Body, value_of,
  pointer, amount_values, fields,
}
use touchstone.Http.Controller.{
  Call, call_get_addr_utxos, call_get_addr_balance, call_get_addr_inventorys, call_set_addr_info,
  call_get_user_utxos, call_get_user_balance, call_get_user_inventorys, deref, deref_all,
  to_payment, to_call,
}

-- A field whose dereference goes on does not stop the check.
pointer-passes :
    {A : Type 0} (p : Option A) (vs : Values) (k : A → Outcome Call) {call : Call}
    → bind (deref p) k ≡ ok call
    → ((a : A) → k a ≡ ok call → check_nil_values vs ≡ ok tt)
    → check_nil_values (field (pointer p) vs) ≡ ok tt
unfolding check_nil_values do_check_nil_recursion
pointer-passes none vs k h rest = absurd (cc)
pointer-passes (some a) vs k h rest = rest a h

amounts-pass :
    (ps : List (Option AddrAmount)) {amounts : List AddrAmount}
    → deref_all ps ≡ ok amounts
    → check_nil_values (amount_values ps) ≡ ok tt
unfolding check_nil_values do_check_nil_recursion
amounts-pass [] h = refl
amounts-pass (none ∷ ps) h = absurd (cc)
amounts-pass (some a ∷ ps) h =
    let (rest, e, _) = bind-eq-ok (deref_all ps) (λ rest. ok (a ∷ rest)) h in amounts-pass ps e

-- Fields that hold no pointers.
ptr_struct-passes :
    (vs : Values) → check_nil_values vs ≡ ok tt → do_check_nil_recursion (ptr (struct vs)) ≡ ok tt
unfolding do_check_nil_recursion
ptr_struct-passes vs h = ap or_missing h

plain : check_nil_values (fields []) ≡ ok tt
unfolding check_nil_values
plain = refl

plain_page : check_nil_values (fields (other ∷ other ∷ [])) ≡ ok tt
unfolding check_nil_values do_check_nil_recursion
plain_page = refl

module _ {A B : Type 0} where
  two :
      (p : Option A) (q : Option B) (rest : List Value) (k : A → B → Call) {call : Call}
      → check_nil_values (fields rest) ≡ ok tt
      → (bind (deref p) λ a. bind (deref q) λ b. ok (k a b)) ≡ ok call
      → do_check_nil_recursion (ptr (struct (fields (pointer p ∷ pointer q ∷ rest)))) ≡ ok tt
  two p q rest k e h = ptr_struct-passes (fields (pointer p ∷ pointer q ∷ rest)) (
      pointer-passes p (fields (pointer q ∷ rest)) (λ a. bind (deref q) λ b. ok (k a b)) h
        (λ a h1. pointer-passes q (fields rest) (λ b. ok (k a b)) h1 (λ _ _. e)))

module _ {A B C D : Type 0} where
  four :
      (p : Option A) (q : Option B) (r : Option C) (s : Option D) (rest : List Value)
      (k : A → B → C → D → Call) {call : Call}
      → check_nil_values (fields rest) ≡ ok tt
      → (bind
          (deref p)
          λ a. bind (deref q) λ b. bind (deref r) λ c. bind (deref s) λ d. ok (k a b c d))
        ≡ ok call
      → do_check_nil_recursion
          (ptr (struct (fields (pointer p ∷ pointer q ∷ pointer r ∷ pointer s ∷ rest))))
        ≡ ok tt
  four p q r s rest k e h =
      ptr_struct-passes (fields (pointer p ∷ pointer q ∷ pointer r ∷ pointer s ∷ rest)) (
        pointer-passes p (fields (pointer q ∷ pointer r ∷ pointer s ∷ rest))
          (λ a. bind (deref q) λ b. bind (deref r) λ c. bind (deref s) λ d. ok (k a b c d)) h
          (λ a h1.
            pointer-passes q (fields (pointer r ∷ pointer s ∷ rest))
              (λ b. bind (deref r) λ c. bind (deref s) λ d. ok (k a b c d)) h1
              (λ b h2.
                pointer-passes r (fields (pointer s ∷ rest))
                  (λ c. bind (deref s) λ d. ok (k a b c d)) h2
                  (λ c h3. pointer-passes s (fields rest) (λ d. ok (k a b c d)) h3 (λ _ _. e)))))

deref-eq-ok : {A : Type 0} (p : Option A) {a : A} → deref p ≡ ok a → p ≡ some a
deref-eq-ok none h = absurd (cc)
deref-eq-ok (some b) h = cc

payment_passes :
    (q : Body sendbadgetoaddress) (call : Call)
    → to_call sendbadgetoaddress q ≡ ok call
    → do_check_nil_recursion (value_of sendbadgetoaddress q) ≡ ok tt
unfolding to_call to_payment Body value_of do_check_nil_recursion check_nil_values
payment_passes q call h = elim (Bool-cases (ltb_ℤ q.amount2burn (pos 0))) [
  | inl negative ↦ let wrong = rw negative at h in absurd (cc)
  | inr fine ↦
      let (a, ea, h1) = bind-eq-ok (deref q.appid) _ (rw fine at h) in
      let (b, eb, h2) = bind-eq-ok (deref q.user_id) _ h1 in
      let (c, ec, h3) = bind-eq-ok (deref q.user_index) _ h2 in
      let (d, ed, h4) = bind-eq-ok (deref q.badge_code) _ h3 in
      let (e, ee, h5) = bind-eq-ok (deref q.change_addr) _ h4 in
      let (amounts, ef, _) = bind-eq-ok (deref_all q.addr_amounts) _ h5 in
      let pa = deref-eq-ok q.appid ea in
      let pb = deref-eq-ok q.user_id eb in
      let pc = deref-eq-ok q.user_index ec in
      let pd = deref-eq-ok q.badge_code ed in
      let pe = deref-eq-ok q.change_addr ee in let pf = amounts-pass q.addr_amounts ef in cc
]

pub to_call-passes :
    (r : Route) (q : Body r) (call : Call)
    → to_call r q ≡ ok call
    → do_check_nil_recursion (value_of r q) ≡ ok tt
unfolding to_call Body value_of do_check_nil_recursion check_nil_values
to_call-passes sendrawtransaction q call h = refl
to_call-passes gettxinventory q call h = refl
to_call-passes getaddrutxos q call h =
    two q.addr q.badge_code (other ∷ other ∷ [])
      (λ addr code. call_get_addr_utxos addr code q.offset q.limit) plain_page h
to_call-passes getaddrbalance q call h = two q.addr q.badge_code [] call_get_addr_balance plain h
to_call-passes getaddrinventorys q call h =
    two q.addr q.badge_code (other ∷ other ∷ [])
      (λ addr code. call_get_addr_inventorys addr code q.offset q.limit) plain_page h
to_call-passes setaddrinfo q call h =
    four q.appid q.user_id q.user_index q.addr [] call_set_addr_info plain h
to_call-passes getuserutxos q call h =
    four q.appid q.user_id q.user_index q.badge_code (other ∷ other ∷ [])
      (λ a b c d. call_get_user_utxos a b c d q.offset q.limit) plain_page h
to_call-passes getuserbalance q call h =
    four q.appid q.user_id q.user_index q.badge_code [] call_get_user_balance plain h
to_call-passes getuserinventorys q call h =
    four q.appid q.user_id q.user_index q.badge_code (other ∷ other ∷ [])
      (λ a b c d. call_get_user_inventorys a b c d q.offset q.limit) plain_page h
to_call-passes sendbadgetoaddress q call h = payment_passes q call h
