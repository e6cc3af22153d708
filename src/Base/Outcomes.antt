-- ===== src/Base/Outcomes.antt =====
-- How a Go call ends: a value, an error, a panic, or not within the rounds that the model gives
-- its loops (`hang`); and calls that read and change a state.
-- An error has a text, and a code if it is a `util.CodeError`.
use mathlib.Core.Path.{◌≡◌, refl}
use mathlib.Core.Option.{Option, none}
use mathlib.Core.Logic.{◌⊎◌, inl, inr}
use touchstone.Base.Ints.{ℤ}
use touchstone.Base.Strings.{Str}

-- `error`
pub record Error : Type 0 where
  pub code : Option ℤ
  pub text : Str

pub data Outcome {ℓ} (A : Type ℓ) : Type ℓ where
  ok : A → Outcome A
  err : Error → Outcome A
  panic hang : Outcome A

-- `errors.New(text)`
abbrev pub new_error : Str → Error
new_error t = record { code = none; text = t }

-- Sequencing with `if err != nil { return nil, err }`.
abbrev pub bind {ℓ κ} : {A : Type ℓ} {B : Type κ} → Outcome A → (A → Outcome B) → Outcome B
bind (ok a) f = f a
bind (err e) f = err e
bind panic f = panic
bind hang f = hang

-- A call that reads and changes a state `S`.
abbrev pub Action : Type 0 → Type 0 → Type 0
Action S A = S → Outcome A × S

infixl 5 ◌>>=◌ ◌>>◌
abbrev pub ◌>>=◌ : {S A B : Type 0} → Action S A → (A → Action S B) → Action S B
◌>>=◌ m f s =
    let (r, s') = m s in
    elim r [ ok a ↦ f a s' | err e ↦ (err e, s') | panic ↦ (panic, s') | hang ↦ (hang, s') ]

abbrev pub ◌>>◌ : {S A B : Type 0} → Action S A → Action S B → Action S B
m >> k = m >>= λ _. k

module _ {S A : Type 0} where
  abbrev pub pure : A → Action S A
  pure a s = (ok a, s)

  abbrev pub fail : Error → Action S A
  fail e s = (err e, s)

  abbrev pub crash : Action S A
  crash s = (panic, s)

  abbrev pub lift : Outcome A → Action S A
  lift r s = (r, s)

  -- `a, err := m` with the error looked at by the code that follows.
  abbrev pub handle :
      {B : Type 0} → Action S A → (A → Action S B) → (Error → Action S B) → Action S B
  handle m f g s =
      let (r, s') = m s in
      elim r [ ok a ↦ f a s' | err e ↦ g e s' | panic ↦ (panic, s') | hang ↦ (hang, s') ]

-- Inversion of a successful sequence.
pub bind-eq-ok {ℓ κ} :
    {A : Type ℓ} {B : Type κ} (m : Outcome A) (f : A → Outcome B) {b : B}
    → bind m f ≡ ok b
    → (a : A) × (m ≡ ok a) × (f a ≡ ok b)
bind-eq-ok (ok a) f h = (a, refl, h)
bind-eq-ok (err e) f h = cc
bind-eq-ok panic f h = cc
bind-eq-ok hang f h = cc

pub ok_injective : {A : Type 0} {a b : A} → ◌≡◌ {A = Outcome A} (ok a) (ok b) → a ≡ b
ok_injective h = cc

-- The four ways to end.
pub Outcome-cases {ℓ} :
    {A : Type ℓ} (r : Outcome A)
    → ((a : A) × (r ≡ ok a)) ⊎ ((e : Error) × (r ≡ err e)) ⊎ (r ≡ panic) ⊎ (r ≡ hang)
Outcome-cases (ok a) = inl (a, refl)
Outcome-cases (err e) = inr (inl (e, refl))
Outcome-cases panic = inr (inr (inl refl))
Outcome-cases hang = inr (inr (inr refl))

module _ {S A B : Type 0} (f : A → Action S B) where
  -- What `handle m f g` makes of the result of `m`.
  abbrev pub resume : (Error → Action S B) → Outcome A × S → Outcome B × S
  resume g (r, s) = elim r [ ok a ↦ f a s | err e ↦ g e s | panic ↦ (panic, s) | hang ↦ (hang, s) ]

module _ {S A B : Type 0} (f : A → Action S B) (b : B) where
  resume-eq-ok :
      (g : Error → Action S B) (v : Outcome A × S)
      → (resume f g v).0 ≡ ok b
      → ((a : A) × (v.0 ≡ ok a) × ((f a v.1).0 ≡ ok b))
        ⊎ ((e : Error) × (v.0 ≡ err e) × ((g e v.1).0 ≡ ok b))
  resume-eq-ok g (ok a, s) h = inl (a, refl, h)
  resume-eq-ok g (err e, s) h = inr (e, refl, h)
  resume-eq-ok g (panic, s) h = cc
  resume-eq-ok g (hang, s) h = cc

  -- Inversion of a successful call whose error is looked at.
  pub handle-eq-ok :
      (m : Action S A) (g : Error → Action S B) (s : S)
      → (handle m f g s).0 ≡ ok b
      → ((a : A) × ((m s).0 ≡ ok a) × ((f a (m s).1).0 ≡ ok b))
        ⊎ ((e : Error) × ((m s).0 ≡ err e) × ((g e (m s).1).0 ≡ ok b))
  handle-eq-ok m g s h = resume-eq-ok g (m s) h

  -- Inversion of a successful sequence of calls.
  pub >>=-eq-ok :
      (m : Action S A) (s : S)
      → ((m >>= f) s).0 ≡ ok b
      → (a : A) × ((m s).0 ≡ ok a) × ((f a (m s).1).0 ≡ ok b)
  >>=-eq-ok m s h = elim (resume-eq-ok fail (m s) h) [
    | inl found ↦ found
    | inr (e, _, wrong) ↦ absurd (ok_err wrong)
  ]
    where
      ok_err : {e : Error} → ◌≡◌ {A = Outcome B} (err e) (ok b) → ⊥
      ok_err w = cc

-- How a sequence goes on from a call whose result and new state are known.
module _ {S A B : Type 0} (m : Action S A) (f : A → Action S B) (s : S) {s' : S} where
  pub handle_ok : (g : Error → Action S B) {a : A} → m s ≡ (ok a, s') → handle m f g s ≡ f a s'
  handle_ok g h = cc

  pub handle_err :
      (g : Error → Action S B) {e : Error} → m s ≡ (err e, s') → handle m f g s ≡ g e s'
  handle_err g h = cc

  pub >>=_ok : {a : A} → m s ≡ (ok a, s') → (m >>= f) s ≡ f a s'
  >>=_ok h = cc

  pub >>=_panic : m s ≡ (panic, s') → (m >>= f) s ≡ (panic, s')
  >>=_panic h = cc

  pub >>=_hang : m s ≡ (hang, s') → (m >>= f) s ≡ (hang, s')
  >>=_hang h = cc
