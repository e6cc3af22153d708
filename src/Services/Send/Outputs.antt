-- ===== src/Services/Send/Outputs.antt =====
-- The outputs of the transaction that `SendBadgeToAddress` makes.
use touchstone.Base.{
  ◌≡◌, refl, sym, ap, ◌∙◌, ℤ, pos, negsuc, Str, Bytes, true, List, [], ◌∷◌, Outcome, ok, err, Error,
  bind-eq-ok, ok_injective, length, arith, ltb_ℤ, ◌+64◌, IsInt64, ◌++◌, ◌⊎◌, inl, inr, false,
  Bool-cases, ◌==ℤ◌, ==ℤ_iff,
}
use touchstone.Wire.{TxOut}
use touchstone.Util.Script.{BtcUtil, create_badge_lock_script, parse_badge_vout_script}
use touchstone.Util.Script.RoundTrip.{BtcUtilLaws, parse-create}
use touchstone.Services.Send.{AddrAmount, outputs_of, change_outputs}

-- What is left to pay once all amounts are added to a value.
abbrev pub add_amounts : ℤ → List AddrAmount → ℤ
add_amounts v [] = v
add_amounts v (a ∷ rest) = add_amounts (v +64 a.amount) rest

-- An output, of 888 satoshis, whose script is read as an amount for the hash of an address.
pub record Pays (btc : BtcUtil) (a : AddrAmount) (out : TxOut) : Type 0 where
  pub dust : out.value ≡ pos 888
  pub addr : btc.Address
  pub read_addr : btc.Address
  pub decoded : btc.decode_address a.addr ≡ ok addr
  pub reads :
      parse_badge_vout_script btc out.pk_script
      ≡ ok (record { badge_value = a.amount; address = read_addr })
  pub same_hash : btc.script_address read_addr ≡ btc.script_address addr

-- One output for each amount, in order.
abbrev pub PayAll : (btc : BtcUtil) → List AddrAmount → List TxOut → Type 0
PayAll btc [] [] = Unit
PayAll btc [] (out ∷ outs) = ⊥
PayAll btc (a ∷ rest) [] = ⊥
PayAll btc (a ∷ rest) (out ∷ outs) = Pays btc a out × PayAll btc rest outs

-- All outputs, with the change that is left to an address: none more where it is 0, and otherwise
-- one that pays it, behind the others.
abbrev pub IsChanged : (btc : BtcUtil) → Str → List TxOut → ℤ → List TxOut → Type 0
IsChanged btc text outs change all =
    ((change ≡ pos 0) × (all ≡ outs))
    ⊎ ((out : TxOut) × (ltb_ℤ (pos 0) change ≡ true)
        × Pays btc (record { addr = text; amount = change }) out
        × (all ≡ outs ++ (out ∷ [])))

positive : (x : ℤ) → ltb_ℤ x (pos 0) ≡ false → (x ==ℤ pos 0) ≡ false → ltb_ℤ (pos 0) x ≡ true
positive x h k = ground arith

err_ok : {A : Type 0} {e : Error} {a : A} → ◌≡◌ {A = Outcome A} (err e) (ok a) → ⊥
err_ok h = cc

-- The amounts are values of an `int64`, and addresses are decoded to hashes of 20 bytes.
abbrev pub AreInt64 : List AddrAmount → Type 0
AreInt64 [] = Unit
AreInt64 (a ∷ rest) = IsInt64 a.amount × AreInt64 rest

abbrev pub HasHashes : BtcUtil → Type 0
HasHashes btc =
    (text : Str) (addr : btc.Address)
    → btc.decode_address text ≡ ok addr
    → length (btc.script_address addr) ≡ 20

module _ (btc : BtcUtil) (laws : BtcUtilLaws btc) (hashes : HasHashes btc) where
  create-Pays :
      (a : AddrAmount) (amount : ℤ) (addr : btc.Address) (script : Bytes)
      → a.amount ≡ amount
      → IsInt64 amount
      → btc.decode_address a.addr ≡ ok addr
      → create_badge_lock_script btc addr amount ≡ ok script
      → Pays btc a (record { value = pos 888; pk_script = script })
  unfolding create_badge_lock_script
  create-Pays a (negsuc n) addr script same small d h =
      let negative : ltb_ℤ (negsuc n) (pos 0) ≡ true = ground arith in
      let wrong = rw negative at h in absurd (err_ok wrong)
  create-Pays a (pos n) addr script same small d h =
      let (made, read_addr, h1, h2, h3) =
        parse-create btc addr n laws (hashes a.addr addr d) (omega arith) in
      let equal : made ≡ script = ok_injective (sym h1 ∙ h) in
      record {
        dust = refl;
        addr = addr;
        read_addr = read_addr;
        decoded = d;
        reads = rw (← equal, same) h2;
        same_hash = h3;
      }

  -- If the Bitcoin libraries do as they document and addresses are decoded to hashes of 20 bytes,
  -- then the outputs that are made for amounts are, one for each and in order, read by the parser
  -- as that amount for the hash of that address; and the value asked for is the value to burn
  -- with all amounts added in 64 bits.
  pub outputs_of-PayAll :
      (burn : ℤ) (amounts : List AddrAmount) (outs : List TxOut) (asked : ℤ)
      → AreInt64 amounts
      → outputs_of btc burn amounts ≡ ok (outs, asked)
      → PayAll btc amounts outs × (asked ≡ add_amounts burn amounts)
  unfolding outputs_of
  outputs_of-PayAll burn [] outs asked small h =
      let same = ok_injective h in
      let none_out : [] ≡ outs = ap (λ (x : List TxOut × ℤ). x.0) same in
      rw (← none_out) (tt, sym (ap (λ (x : List TxOut × ℤ). x.1) same))
  outputs_of-PayAll burn (a ∷ rest) outs asked small h =
      let (addr, d, h1) = bind-eq-ok (btc.decode_address a.addr) _ h in
      let (script, made, h2) = bind-eq-ok (create_badge_lock_script btc addr a.amount) _ h1 in
      let (more, h3, h4) = bind-eq-ok (outputs_of btc (burn +64 a.amount) rest) _ h2 in
      let same = ok_injective h4 in
      let first = ap (λ (x : List TxOut × ℤ). x.0) same in
      let total = ap (λ (x : List TxOut × ℤ). x.1) same in
      let (paid, summed) = outputs_of-PayAll (burn +64 a.amount) rest more.0 more.1 small.1 h3 in
      rw (← first)
        ((create-Pays a a.amount addr script refl small.0 d made, paid), sym total ∙ summed)

  -- If the outputs with the change are made, then there is none for it where it is 0, and otherwise
  -- it is positive and there is one more, behind the others, which the parser reads as the change
  -- for the hash of the address for it.
  pub change_outputs-IsChanged :
      (text : Str) (addr : btc.Address) (outs all : List TxOut) (change : ℤ)
      → IsInt64 change
      → btc.decode_address text ≡ ok addr
      → change_outputs btc addr outs change ≡ ok all
      → IsChanged btc text outs change all
  unfolding change_outputs
  change_outputs-IsChanged text addr outs all change small d h =
      elim (Bool-cases (ltb_ℤ change (pos 0))) [
        | inl negative ↦ absurd (err_ok (rw negative at h))
        | inr enough ↦ elim (Bool-cases (change ==ℤ pos 0)) [
          | inl zero_left ↦ inl (
            (==ℤ_iff change (pos 0)).0 zero_left,
            ok_injective (sym (rw (enough, zero_left) at h)),
          )
          | inr some_left ↦
              let h' = rw (enough, some_left) at h in
              let (script, made, e) = bind-eq-ok (create_badge_lock_script btc addr change) _ h' in
              inr (
                record { value = pos 888; pk_script = script },
                positive change enough some_left,
                create-Pays (record { addr = text; amount = change }) change addr script refl small
                    d made,
                sym (ok_injective e),
              )
        ]
      ]
