-- ===== src/Http/Fields.antt =====
-- The fields that a request has once it passes `CheckNil`.
use touchstone.Base.{
  ◌≡◌, refl, pos, List, [], ◌∷◌, Option, none, some, Outcome, ok, err, panic, hang, bind-eq-ok,
  ltb_ℤ, ℤ, Str, false,
}
use touchstone.Services.Send.{AddrAmount}
use touchstone.Http.{
  Value, Values, ptr, struct, slice, other, field, or_missing, do_check_nil_recursion,
  check_nil_values,
}
use touchstone.Http.Requests.{pointer, amount_values, fields, SendBadgeToAddressReq}
use touchstone.Http.Controller.{call_send_badge_to_address, deref_all, to_payment}

or_missing-eq-ok : (r : Outcome (Unit {0})) → or_missing r ≡ ok tt → r ≡ ok tt
or_missing-eq-ok (ok tt) h = refl
or_missing-eq-ok (err e) h = absurd (cc)
or_missing-eq-ok panic h = absurd (cc)
or_missing-eq-ok hang h = absurd (cc)

-- A structure that passes the check has all its fields pass it.
ptr_struct-checked :
    (vs : Values) → do_check_nil_recursion (ptr (struct vs)) ≡ ok tt → check_nil_values vs ≡ ok tt
unfolding do_check_nil_recursion
ptr_struct-checked vs h = or_missing-eq-ok (check_nil_values vs) h

-- The first field, where it is a pointer or a slice, and the others.
pointer-checked :
    {A : Type 0} (p : Option A) (vs : Values)
    → check_nil_values (field (pointer p) vs) ≡ ok tt
    → (a : A) × (p ≡ some a) × (check_nil_values vs ≡ ok tt)
unfolding check_nil_values do_check_nil_recursion
pointer-checked none vs h = absurd (cc)
pointer-checked (some a) vs h = (a, refl, h)

amounts-checked :
    (ps : List (Option AddrAmount))
    → check_nil_values (amount_values ps) ≡ ok tt
    → (amounts : List AddrAmount) × (deref_all ps ≡ ok amounts)
unfolding check_nil_values do_check_nil_recursion
amounts-checked [] h = ([], refl)
amounts-checked (none ∷ ps) h = absurd (cc)
amounts-checked (some a ∷ ps) h = let (rest, e) = amounts-checked ps h in (a ∷ rest, cc)

slice-checked :
    (vs rest : Values)
    → check_nil_values (field (slice vs) rest) ≡ ok tt
    → (check_nil_values vs ≡ ok tt) × (check_nil_values rest ≡ ok tt)
unfolding check_nil_values do_check_nil_recursion
slice-checked vs rest h =
    let (u, e, e') = bind-eq-ok (or_missing (check_nil_values vs)) (λ _. check_nil_values rest) h in
    (or_missing-eq-ok (check_nil_values vs) e, e')

-- Two fields, and four, are there.
module _ {A B : Type 0} where
  pub two_fields :
      (p : Option A) (q : Option B) (rest : List Value)
      → do_check_nil_recursion (ptr (struct (fields (pointer p ∷ pointer q ∷ rest)))) ≡ ok tt
      → (a : A) × (b : B) × (p ≡ some a) × (q ≡ some b)
  two_fields p q rest h =
      let h0 = ptr_struct-checked (fields (pointer p ∷ pointer q ∷ rest)) h in
      let (a, ea, h1) = pointer-checked p (fields (pointer q ∷ rest)) h0 in
      let (b, eb, h2) = pointer-checked q (fields rest) h1 in (a, b, ea, eb)

module _ {A B C D : Type 0} where
  pub four_fields :
      (p : Option A) (q : Option B) (r : Option C) (s : Option D) (rest : List Value)
      → do_check_nil_recursion
          (ptr (struct (fields (pointer p ∷ pointer q ∷ pointer r ∷ pointer s ∷ rest))))
        ≡ ok tt
      → (a : A) × (b : B) × (c : C) × (d : D) × (p ≡ some a)
        × (q ≡ some b)
        × (r ≡ some c)
        × (s ≡ some d)
  four_fields p q r s rest h =
      let h0 =
        ptr_struct-checked (fields (pointer p ∷ pointer q ∷ pointer r ∷ pointer s ∷ rest)) h in
      let (a, ea, h1) = pointer-checked p (fields (pointer q ∷ pointer r ∷ pointer s ∷ rest)) h0 in
      let (b, eb, h2) = pointer-checked q (fields (pointer r ∷ pointer s ∷ rest)) h1 in
      let (c, ec, h3) = pointer-checked r (fields (pointer s ∷ rest)) h2 in
      let (d, ed, h4) = pointer-checked s (fields rest) h3 in (a, b, c, d, ea, eb, ec, ed)

-- A payment's request with all its fields.
pub record IsWhole (q : SendBadgeToAddressReq) : Type 0 where
  pub appid : Str
  pub user_id : ℤ
  pub user_index : ℤ
  pub badge_code : Str
  pub change_addr : Str
  pub amounts : List AddrAmount
  pub has_appid : q.appid ≡ some appid
  pub has_user_id : q.user_id ≡ some user_id
  pub has_user_index : q.user_index ≡ some user_index
  pub has_badge_code : q.badge_code ≡ some badge_code
  pub has_change_addr : q.change_addr ≡ some change_addr
  pub has_amounts : deref_all q.addr_amounts ≡ ok amounts

abbrev pub payment_fields : SendBadgeToAddressReq → Values
payment_fields q = fields (
    pointer q.appid
    ∷ pointer q.user_id
    ∷ pointer q.user_index
    ∷ pointer q.badge_code
    ∷ pointer q.change_addr
    ∷ slice (amount_values q.addr_amounts)
    ∷ other
    ∷ [])

pub payment-IsWhole :
    (q : SendBadgeToAddressReq)
    → do_check_nil_recursion (ptr (struct (payment_fields q))) ≡ ok tt
    → IsWhole q
payment-IsWhole q h =
    let tail = field (slice (amount_values q.addr_amounts)) (fields (other ∷ [])) in
    let from_code = field (pointer q.badge_code) (field (pointer q.change_addr) tail) in
    let from_index = field (pointer q.user_index) from_code in
    let from_id = field (pointer q.user_id) from_index in
    let h0 = ptr_struct-checked (field (pointer q.appid) from_id) h in
    let (a, ea, h1) = pointer-checked q.appid from_id h0 in
    let (b, eb, h2) = pointer-checked q.user_id from_index h1 in
    let (c, ec, h3) = pointer-checked q.user_index from_code h2 in
    let (d, ed, h4) = pointer-checked q.badge_code (field (pointer q.change_addr) tail) h3 in
    let (e, ee, h5) = pointer-checked q.change_addr tail h4 in
    let (h6, _) = slice-checked (amount_values q.addr_amounts) (fields (other ∷ [])) h5 in
    let (amounts, ef) = amounts-checked q.addr_amounts h6 in
    record {
      appid = a;
      user_id = b;
      user_index = c;
      badge_code = d;
      change_addr = e;
      amounts = amounts;
      has_appid = ea;
      has_user_id = eb;
      has_user_index = ec;
      has_badge_code = ed;
      has_change_addr = ee;
      has_amounts = ef;
    }

-- Its call, where the amount to burn is not negative.
pub to_payment-eq-ok :
    (q : SendBadgeToAddressReq) (w : IsWhole q)
    → ltb_ℤ q.amount2burn (pos 0) ≡ false
    → to_payment q
      ≡ ok (
          call_send_badge_to_address w.appid w.user_id w.user_index w.badge_code w.change_addr
            w.amounts q.amount2burn)
unfolding to_payment
to_payment-eq-ok q w fine = rw fine (
    cc (
      w.has_appid, w.has_user_id, w.has_user_index, w.has_badge_code, w.has_change_addr,
      w.has_amounts,
    ))
