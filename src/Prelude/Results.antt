-- ===== src/Prelude/Results.antt =====
-- `io::Result`, and panics.
use mathlib.Core.Path.{◌≡◌, refl}
use mathlib.Core.Logic.{◌⊎◌, inl, inr}
use mathlib.Core.List.{[]}
use impulse_ring.Prelude.Text.{Str, bytes}

-- `io::Error::other(message)`, a timeout, a missing file (ENOENT), a refused one (EACCES), any
-- other error of the system by its message; `panic` is a failed assertion.
pub data Error : Type 0 where
  panic : Error
  other : Str → Error
  timed_out : Str → Error
  not_found : Error
  access_denied : Error
  os : Str → Error

-- `{e}` of an `io::Error`. (A panic is no error value.)
abbrev pub display : Error → Str
display panic = []
display (other message) = message
display (timed_out message) = message
display not_found = bytes "No such file or directory (os error 2)"
display access_denied = bytes "Permission denied (os error 13)"
display (os message) = message

pub data Result {ℓ} (A : Type ℓ) : Type ℓ where
  ok : A → Result A
  err : Error → Result A

-- The `?` operator.
infixl 5 ◌>>=◌
abbrev pub ◌>>=◌ {ℓ κ} : {A : Type ℓ} {B : Type κ} → Result A → (A → Result B) → Result B
ok a >>= f = f a
err e >>= f = err e

-- A chain that succeeds succeeds at both of its links.
pub >>=-eq-ok {ℓ κ} :
    {A : Type ℓ} {B : Type κ} (first : Result A) (next : A → Result B) {y : B}
    → (first >>= next) ≡ ok y
    → (x : A) × (next x ≡ ok y) × (first ≡ ok x)
>>=-eq-ok (ok x) next h = (x, h, refl)
>>=-eq-ok (err e) next h = cc

pub Result-cases {ℓ} :
    {A : Type ℓ} (m : Result A) → ((a : A) × (m ≡ ok a)) ⊎ ((e : Error) × (m ≡ err e))
Result-cases (ok a) = inl (a, refl)
Result-cases (err e) = inr (e, refl)
