-- ===== src/Exec.antt =====
-- Methods that change shared state and may raise: the state comes back beside the exception too,
-- since what was written before a `raise` stays written.
use mautrix_asmux.Prelude.{subst, ◌≡◌, refl, Bool, if◌then◌else◌}
use mautrix_asmux.Errors.{Exn}
use mautrix_asmux.Result.{Result, ok, err}

abbrev pub Exec {ℓ} : Type ℓ → Type ℓ → Type ℓ
Exec S A = S → Result A × S

module _ {ℓ} {S A : Type ℓ} where
  abbrev pub pure : A → Exec S A
  pure a s = (ok a, s)

  abbrev pub raise : Exn → Exec S A
  raise e s = (err e, s)

  abbrev pub lift : Result A → Exec S A
  lift r s = (r, s)

  abbrev pub gets : (S → A) → Exec S A
  gets f s = (ok (f s), s)

module _ {ℓ} {S A B : Type ℓ} where
  abbrev pub continue : Result A → S → (A → Exec S B) → Result B × S
  continue (ok a) s f = f a s
  continue (err e) s f = (err e, s)

  infixl 5 ◌>>=◌ ◌>>◌
  abbrev pub ◌>>=◌ : Exec S A → (A → Exec S B) → Exec S B
  ◌>>=◌ m f s = let (r, s') = m s in continue r s' f

  abbrev pub ◌>>◌ : Exec S A → Exec S B → Exec S B
  m >> k = m >>= λ _. k

abbrev pub modify : {S : Type 0} → (S → S) → Exec S (Unit {0})
modify f s = (ok tt, f s)

abbrev pub raise_if : {S : Type 0} → Bool → Exn → Exec S (Unit {0})
raise_if c e s = (if c then err e else ok tt, s)

-- A predicate on the state holds after a sequence if it holds after the first part and the second
-- part, where that is reached, keeps it.
pub continue-keeps {ℓ κ} :
    {S A B : Type ℓ} (P : S → Type κ) (r : Result A) (s : S) (f : A → Exec S B)
    → P s
    → ((a : A) → r ≡ ok a → P (f a s).1)
    → P (continue r s f).1
continue-keeps P (ok a) s f h k = k a refl
continue-keeps P (err e) s f h k = h

-- What a call returns, with the state that it leaves, satisfies `Q`, if it returns.
pub record Returns {ℓ κ} {S B : Type ℓ} (Q : B → S → Type κ) (x : Result B × S) : Type (ℓ ⊔ κ) where
  pub at : (b : B) → x.0 ≡ ok b → Q b x.1

pub Returns-continue {ℓ κ} :
    {S A B : Type ℓ} {Q : B → S → Type κ} (r : Result A) (s : S) (f : A → Exec S B)
    → ((a : A) → r ≡ ok a → Returns Q (f a s))
    → Returns Q (continue r s f)
Returns-continue (ok a) s f h = h a refl
Returns-continue (err e) s f h = record { at = λ b e. cc }

err_injective {ℓ} : {A : Type ℓ} {x e : Exn} → ◌≡◌ {A = Result A} (err x) (err e) → x ≡ e
err_injective h = cc

-- Each exception of a sequence satisfies `Q`, if those of its two parts do.
pub continue-fails {ℓ κ} :
    {S A B : Type ℓ} (Q : Exn → Type κ) (r : Result A) (s : S) (f : A → Exec S B)
    → ((e : Exn) → r ≡ err e → Q e)
    → ((a : A) → r ≡ ok a → (e : Exn) → (f a s).0 ≡ err e → Q e)
    → (e : Exn) → (continue r s f).0 ≡ err e
    → Q e
continue-fails Q (ok a) s f first second e h = second a refl e h
continue-fails Q (err x) s f first second e h = subst Q (err_injective h) (first x refl)
