-- ===== src/Base/Throws.antt =====
-- A computation that may throw: a value, or the message of the `Error`.
use mathlib.Core.Path.{◌≡◌, refl, subst}
use mathlib.Core.Bool.{Bool}
use mathlib.Core.Option.{Option, none, some}
use mathlib.Core.List.{List, [], ◌∷◌}
use easyclaw.Base.Tests.{if◌then◌else◌}
use easyclaw.Base.Strings.{Text}

pub data Result {ℓ} (A : Type ℓ) : Type ℓ where
  ok : A → Result A
  err : Text → Result A

infixl 5 ◌>>◌
module _ {ℓ κ} {A : Type ℓ} {B : Type κ} where
  infixl 5 ◌>>=◌
  -- What follows is left out once something was thrown.
  abbrev pub ◌>>=◌ : Result A → (A → Result B) → Result B
  err message >>= next = err message
  ok a >>= next = next a

  -- If the whole returns, so does each part.
  pub >>=-eq-ok :
      (m : Result A) (next : A → Result B) {b : B}
      → (m >>= next) ≡ ok b
      → (a : A) × (m ≡ ok a) × (next a ≡ ok b)
  >>=-eq-ok (err message) next returns = cc
  >>=-eq-ok (ok a) next returns = (a, refl, returns)

-- `xs.map(f)`, where `f` may throw
unfoldable pub traverse {ℓ κ} :
    {A : Type ℓ} {B : Type κ} → (A → Result B) → List A → Result (List B)
traverse f [] = ok []
traverse f (x ∷ xs) = do y ← f x; ys ← traverse f xs; ok (y ∷ ys)

-- `if (value === null) throw new Error(message)`
abbrev pub or_throw {ℓ} : {A : Type ℓ} → Option A → Text → Result A
or_throw (some a) message = ok a
or_throw none message = err message

-- `if (!test) throw new Error(message)`
abbrev pub guard : Bool → Text → Result (Unit {0})
guard test message = if test then ok tt else err message

-- A step for its effect alone.
abbrev pub ◌>>◌ {κ} : {B : Type κ} → Result (Unit {0}) → Result B → Result B
◌>>◌ step rest = step >>= λ done. rest

abbrev AtValue : {A : Type 0} → (A → Type 0) → Result A → Type 0
AtValue P (ok a) = P a
AtValue P (err message) = Unit

-- What is said of the value, if there is one.
pub record Holds {A : Type 0} (P : A → Type 0) (r : Result A) : Type 0 where
  pub at_value : AtValue P r

module _ {A : Type 0} {P : A → Type 0} where
  pub held : {a : A} → P a → Holds P (ok a)
  held p = record { at_value = p }

  pub Holds-ok : {r : Result A} {a : A} → Holds P r → r ≡ ok a → P a
  Holds-ok h e = subst (AtValue P) e h.at_value

  pub >>=-Holds :
      {B : Type 0} (m : Result B) (next : B → Result A)
      → ((b : B) → Holds P (next b))
      → Holds P (m >>= next)
  >>=-Holds (err message) next h = record { at_value = tt }
  >>=-Holds (ok b) next h = h b
