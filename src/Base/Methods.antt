-- ===== src/Base/Methods.antt =====
-- Methods that mutate an object and may raise. What was written before a raise stays written, so
-- the object comes back beside the error too.
use Prim.Native.Nat.{ℕ}
use Prim.Native.String.{String}
use mathlib.Core.Option.{Option}
use mathlib.Core.Path.{◌≡◌, refl}
use mathlib.Core.Bool.{Bool, true, false}
use mathlib.Core.Logic.{◌⊎◌, inl, inr}

-- The exception classes that the modelled files raise.
pub data Error : Type 0 where
  value_error key_error runtime_error memory_budget memory_pressure storage_read os_error
        overflow_error type_error :
      Error
  -- the status, the parameter and the code of an `ApiRequestError`
  api_request : ℕ → Option String → Option String → Error

pub data Result {ℓ} (A : Type ℓ) : Type ℓ where
  ok : A → Result A
  raise : Error → Result A

abbrev pub Exec {ℓ} : Type ℓ → Type ℓ → Type ℓ
Exec S A = S → Result A × S

module _ {ℓ} {S A B : Type ℓ} where
  abbrev pub continue : Result A × S → (A → Exec S B) → Result B × S
  continue (ok a, s) f = f a s
  continue (raise e, s) f = (raise e, s)

infixl 5 ◌>>=◌
infixr 5 ◌>>◌
abbrev pub ◌>>=◌ {ℓ} : {A B : Type ℓ} → Result A → (A → Result B) → Result B
ok a >>= f = f a
raise e >>= f = raise e

abbrev pub ◌>>◌ {ℓ} : {B : Type ℓ} → Result (Unit {ℓ}) → Result B → Result B
m >> k = m >>= λ _. k

pub Result-cases {ℓ} :
    {A : Type ℓ} (r : Result A) → ((a : A) × (r ≡ ok a)) ⊎ ((e : Error) × (r ≡ raise e))
Result-cases (ok a) = inl (a, refl)
Result-cases (raise e) = inr (e, refl)

module _ {ℓ} {S A B : Type ℓ} where
  pub continue_ok :
      (m : Result A × S) (f : A → Exec S B) (a : A) → m.0 ≡ ok a → continue m f ≡ f a m.1
  continue_ok m f a h = rw (h, continue)

  pub continue_raise :
      (m : Result A × S) (f : A → Exec S B) (e : Error)
      → m.0 ≡ raise e
      → continue m f ≡ (raise e, m.1)
  continue_raise m f e h = rw (h, continue)

abbrev pub guard {ℓ} : Bool → Error → Result (Unit {ℓ})
guard true e = ok tt
guard false e = raise e

pub ok-injective {ℓ} : {A : Type ℓ} {a b : A} → ok a ≡ ok b → a ≡ b
ok-injective h = cc

-- What a chain of results that returns says of its parts.
pub >>=_ok {ℓ} :
    {A B : Type ℓ} (m : Result A) (f : A → Result B) (b : B)
    → m >>= f ≡ ok b
    → (a : A) × ((m ≡ ok a) × (f a ≡ ok b))
>>=_ok (ok a) f b h = (a, (refl, h))
>>=_ok (raise e) f b h = absurd (let x = h in cc)

pub guard_ok {ℓ} :
    {B : Type ℓ} (c : Bool) (e : Error) (k : Result B) (b : B)
    → guard c e >> k ≡ ok b
    → (c ≡ true) × (k ≡ ok b)
guard_ok true e k b h = (refl, h)
guard_ok false e k b h = absurd (let x = h in cc)
