-- ===== src/Base/Views.antt =====
-- Calls that leave a part of the state as it is, whichever way they end.
use mathlib.Core.Path.{◌≡◌, refl, ◌∙◌}
use touchstone.Base.Outcomes.{
  Error, Outcome, ok, err, panic, hang, Action, handle, resume, ◌>>=◌, fail,
}

abbrev pub Leaves : {S A X : Type 0} → (S → X) → Action S A → Type 0
Leaves {S} view m = (s : S) → view (m s).1 ≡ view s

module _ {S A B X : Type 0} (view : S → X) (f : A → Action S B) where
  resume-Leaves :
      (g : Error → Action S B) (v : Outcome A × S)
      → ((a : A) → Leaves view (f a))
      → ((e : Error) → Leaves view (g e))
      → view (resume f g v).1 ≡ view v.1
  resume-Leaves g (ok a, s) hf hg = hf a s
  resume-Leaves g (err e, s) hf hg = hg e s
  resume-Leaves g (panic, s) hf hg = refl
  resume-Leaves g (hang, s) hf hg = refl

  pub handle-Leaves :
      (m : Action S A) (g : Error → Action S B)
      → Leaves view m
      → ((a : A) → Leaves view (f a))
      → ((e : Error) → Leaves view (g e))
      → Leaves view (handle m f g)
  handle-Leaves m g hm hf hg s = resume-Leaves g (m s) hf hg ∙ hm s

  pub >>=-Leaves :
      (m : Action S A) → Leaves view m → ((a : A) → Leaves view (f a)) → Leaves view (m >>= f)
  >>=-Leaves m hm hf s = resume-Leaves fail (m s) hf (λ e s'. refl) ∙ hm s

-- Calls that keep an invariant of the state, whichever way they end.
abbrev pub Preserves : {S A : Type 0} → (S → Type 0) → Action S A → Type 0
Preserves {S} P m = (s : S) → P s → P (m s).1

module _ {S A B : Type 0} (P : S → Type 0) (f : A → Action S B) where
  resume-Preserves :
      (Q : A → Type 0) (g : Error → Action S B) (v : Outcome A × S)
      → ((a : A) → v.0 ≡ ok a → Q a)
      → ((a : A) → Q a → Preserves P (f a))
      → ((e : Error) → Preserves P (g e))
      → P v.1
      → P (resume f g v).1
  resume-Preserves Q g (ok a, s) q hf hg h = hf a (q a refl) s h
  resume-Preserves Q g (err e, s) q hf hg h = hg e s h
  resume-Preserves Q g (panic, s) q hf hg h = h
  resume-Preserves Q g (hang, s) q hf hg h = h

  pub handle-Preserves :
      (m : Action S A) (g : Error → Action S B)
      → Preserves P m
      → ((a : A) → Preserves P (f a))
      → ((e : Error) → Preserves P (g e))
      → Preserves P (handle m f g)
  handle-Preserves m g hm hf hg s h =
      resume-Preserves (λ a. Unit) g (m s) (λ a e. tt) (λ a _. hf a) hg (hm s h)

  -- What follows may use what is known of the result.
  pub >>=-Preserves :
      (Q : A → Type 0) (m : Action S A)
      → Preserves P m
      → ((s : S) (a : A) → P s → (m s).0 ≡ ok a → Q a)
      → ((a : A) → Q a → Preserves P (f a))
      → Preserves P (m >>= f)
  >>=-Preserves Q m hm known hf s h =
      resume-Preserves Q fail (m s) (λ a. known s a h) hf (λ e s' h'. h') (hm s h)
