-- ===== src/Prelude/Outcome.antt =====
-- Go's `(value, error)` results: `err` carries the text of `err.Error()`. An action on a state
-- gives its state back beside an error too, as what was written before the error stays written.
use mathlib.Core.Path.{◌≡◌, refl, ap}
use mathlib.Core.Logic.{◌⊎◌, inl, inr}
use ovpn.Prelude.Lists.{Text}

pub data Result {ℓ} (A : Type ℓ) : Type ℓ where
  ok : A → Result A
  err : Text → Result A

abbrev pub Exec {ℓ} : Type ℓ → Type ℓ → Type ℓ
Exec S A = S → Result A × S

module _ {ℓ} {S A : Type ℓ} where
  unfoldable pub pure : A → Exec S A
  pure a s = (ok a, s)

  unfoldable pub fail : Text → Exec S A
  fail e s = (err e, s)

module _ {ℓ} {S A B : Type ℓ} where
  abbrev pub continue : Result A → (A → Exec S B) → Exec S B
  continue (ok a) f s = f a s
  continue (err e) f s = (err e, s)

  infixl 10 ◌>>=◌ ◌>>◌
  unfoldable pub ◌>>=◌ : Exec S A → (A → Exec S B) → Exec S B
  unfolding pure fail
  ◌>>=◌ m f s = let (r, s') = m s in continue r f s'

  abbrev pub ◌>>◌ : Exec S A → Exec S B → Exec S B
  m >> n = m >>= λ _. n

pub Result-cases {ℓ} :
    {A : Type ℓ} (r : Result A) → ((a : A) × (r ≡ ok a)) ⊎ ((e : Text) × (r ≡ err e))
Result-cases (ok a) = inl (a, refl)
Result-cases (err e) = inr (e, refl)

module _ {ℓ} {S A B : Type ℓ} where
  continue_inv :
      (r : Result A) (f : A → Exec S B) (s : S)
      → ((a : A) × (r ≡ ok a) × (continue r f s ≡ f a s))
        ⊎ ((e : Text) × (r ≡ err e) × (continue r f s ≡ (err e, s)))
  continue_inv (ok a) f s = inl (a, refl, refl)
  continue_inv (err e) f s = inr (e, refl, refl)

  -- A block goes on from the state that its first action left, or ends there with its error.
  pub bind_cases :
      (m : Exec S A) (f : A → Exec S B) (s : S)
      → ((a : A) × ((m s).0 ≡ ok a) × ((m >>= f) s ≡ f a (m s).1))
        ⊎ ((e : Text) × ((m s).0 ≡ err e) × ((m >>= f) s ≡ (err e, (m s).1)))
  unfolding ◌>>=◌
  bind_cases m f s = continue_inv (m s).0 f (m s).1

  -- A block that succeeds went on from its first action's state.
  pub bind_ok :
      (m : Exec S A) (f : A → Exec S B) (s : S) {b : B}
      → ((m >>= f) s).0 ≡ ok b
      → (a : A) × ((m s).0 ≡ ok a) × ((m >>= f) s ≡ f a (m s).1)
  bind_ok m f s {b} h = elim (bind_cases m f s) [
    | inl found ↦ found
    | inr (e, failed, same) ↦ absurd (cc (ap (λ (r : Result B × S). r.0) same))
  ]
