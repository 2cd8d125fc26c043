-- ===== src/Base/Faults.antt =====
use mathlib.Core.Path.{◌≡◌, refl}

-- A computation that may do what C leaves undefined (an access outside an array, through NULL or
-- through an indeterminate pointer, or a signed overflow). This is a value of its own, `fault`.
pub data Run {ℓ} (A : Type ℓ) : Type ℓ where
  ok : A → Run A
  fault : Run A

-- What follows an access runs only where the access is defined.
infixl 5 ◌>>=◌
abbrev pub ◌>>=◌ {ℓ κ} : {T : Type ℓ} {U : Type κ} → Run T → (T → Run U) → Run U
◌>>=◌ step next = elim step [ fault ↦ fault | ok value ↦ next value ]

-- A chain that does not fault is a step that does not fault, and what follows it.
pub bind-ok {ℓ κ} :
    {T : Type ℓ} {U : Type κ} (r : Run T) (next : T → Run U) (v : U)
    → (r >>= next) ≡ ok v
    → (t : T) × (r ≡ ok t) × (next t ≡ ok v)
bind-ok (ok t) next v e = (t, refl, e)
bind-ok fault next v e = cc
