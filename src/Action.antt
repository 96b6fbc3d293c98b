-- ===== src/Action.antt =====
-- Calls that change a state and may fail: methods on `&mut self` that return an `io::Result`, and
-- calls of the operating system (crates/connector/src/client.rs, crates/core/src/shm.rs).
use impulse_ring.Prelude.{◌≡◌, sym, ap, ◌∙◌, Result, ok, err, Error, Result-cases, inl, inr, arith}

-- A fallible call that changes a state. What it changed stays changed when it fails.
abbrev pub Action : Type 0 → Type 0 → Type 0
Action S A = S → Result A × S

infixl 5 ◌>>=◌ ◌>>◌
abbrev pub ◌>>=◌ : {S A B : Type 0} → Action S A → (A → Action S B) → Action S B
◌>>=◌ m f s = let (r, s') = m s in elim r [ ok x ↦ f x s' | err e ↦ (err e, s') ]

abbrev pub ◌>>◌ : {S A B : Type 0} → Action S A → Action S B → Action S B
m >> k = m >>= λ x. k

module _ {S A : Type 0} where
  abbrev pub pure : A → Action S A
  pure x s = (ok x, s)

  abbrev pub raise : Error → Action S A
  raise e s = (err e, s)

  abbrev pub lift : Result A → Action S A
  lift r s = (r, s)

  abbrev pub gets : (S → A) → Action S A
  gets f s = (ok (f s), s)

abbrev pub modify : {S : Type 0} → (S → S) → Action S (Unit {0})
modify f s = (ok tt, f s)

-- A chain that succeeds succeeds at both of its links.
pub bind-eq-ok :
    {S A B : Type 0} (m : Action S A) (f : A → Action S B) (s : S) {y : B}
    → ((m >>= f) s).0 ≡ ok y
    → (x : A) × ((m s).0 ≡ ok x) × ((m >>= f) s ≡ f x (m s).1)
bind-eq-ok m f s h = elim (Result-cases (m s).0) [
  | inl (x, e) ↦ (x, e, ground arith)
  | inr (e, bad) ↦ absurd (ground arith)
]

-- What holds of all that the second link of a chain can give holds of what the chain gives.
pub bind-gives :
    {S A B : Type 0} (P : B → Type 0) (m : Action S A) (f : A → Action S B)
    → ((x : A) (s : S) (y : B) → (f x s).0 ≡ ok y → P y)
    → (s : S) (y : B) → ((m >>= f) s).0 ≡ ok y
    → P y
bind-gives P m f k s y h =
    let (x, done, e) = bind-eq-ok m f s h in k x (m s).1 y (sym (ap (λ p. p.0) e) ∙ h)

module _ {S A B : Type 0} (m : Action S A) (f : A → Action S B) (s : S) where
  pub bind-ok : {x : A} → (m s).0 ≡ ok x → (m >>= f) s ≡ f x (m s).1
  bind-ok e = ground arith

  pub bind-err : {e : Error} → (m s).0 ≡ err e → (m >>= f) s ≡ (err e, (m s).1)
  bind-err e = ground arith
