-- ===== src/Prelude/Errors.antt =====
-- What raises: `err` holds the message of the exception.
use Prim.Native.String.{String}
use mathlib.Core.Bool.{Bool, true, false}
use mathlib.Core.Path.{◌≡◌, refl, subst}

pub data Result {ℓ} (A : Type ℓ) : Type ℓ where
  ok : A → Result A
  err : String → Result A

infixl 5 ◌>>=◌ ◌>>◌
abbrev pub ◌>>=◌ {ℓ κ} : {A : Type ℓ} {B : Type κ} → Result A → (A → Result B) → Result B
ok a >>= f = f a
err message >>= f = err message

abbrev pub ◌>>◌ {ℓ κ} : {A : Type ℓ} {B : Type κ} → Result A → Result B → Result B
m >> k = m >>= λ _. k

-- `if refused: raise ValueError(message)`
abbrev pub raise_if : Bool → String → Result (Unit {0})
raise_if true message = err message
raise_if false message = ok tt

-- What is returned, if anything is, has the property.
pub data Ensures {ℓ κ} {A : Type ℓ} (P : A → Type κ) : Result A → Type (ℓ ⊔ κ) where
  returned : {a : A} → P a → Ensures P (ok a)
  raised : {message : String} → Ensures P (err message)

module _ {ℓ κ} {A : Type ℓ} {P : A → Type κ} where
  pub Ensures-unless :
      (b : Bool) (message : String) {m : Result A}
      → (b ≡ false → Ensures P m)
      → Ensures P (raise_if b message >> m)
  Ensures-unless true message h = raised
  Ensures-unless false message h = h refl

  -- what comes after a check is all that is returned
  pub Ensures-then : {B : Type 0} (m : Result B) {k : Result A} → Ensures P k → Ensures P (m >> k)
  Ensures-then (ok b) h = h
  Ensures-then (err message) h = raised

  pub ensured : {m : Result A} {a : A} → Ensures P m → m ≡ ok a → P a
  ensured (returned p) e = subst P (cc) p
  ensured raised e = absurd (cc)

module _ {ℓ κ μ} {A : Type ℓ} {P : A → Type κ} where
  pub Ensures-mono :
      {Q : A → Type μ} {m : Result A} → ((a : A) → P a → Q a) → Ensures P m → Ensures Q m
  Ensures-mono f (returned p) = returned (f _ p)
  Ensures-mono f raised = raised

module _ {ℓ κ μ ν} {A : Type ℓ} {B : Type κ} {P : A → Type μ} {Q : B → Type ν} where
  pub Ensures-bind :
      {m : Result A} (f : A → Result B)
      → Ensures P m
      → ((a : A) → P a → Ensures Q (f a))
      → Ensures Q (m >>= f)
  Ensures-bind f (returned p) h = h _ p
  Ensures-bind f raised h = raised
