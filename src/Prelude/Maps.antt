-- ===== src/Prelude/Maps.antt =====
-- `HashMap` as an association list, and its laws.
use mathlib.Core.Path.{◌≡◌, refl}
use mathlib.Core.Logic.{◌≢◌, ◌⊎◌, inl, inr}
use mathlib.Core.Bool.{Bool, true, false, ◌||◌}
use mathlib.Core.List.{List, [], ◌∷◌}
use mathlib.Core.Option.{Option, none, some}
use native.Mathlib.Omega.{arith}
use impulse_ring.Prelude.Tests.{Bool-cases, if◌then◌else◌, Eq, ◌==◌}

abbrev pub Map {ℓ κ} : Type ℓ → Type κ → Type (ℓ ⊔ κ)
Map K V = List (K × V)

abbrev pub is_some {ℓ} : {A : Type ℓ} → Option A → Bool
is_some none = false
is_some (some a) = true

unfoldable pub contains {ℓ} : {K : Type ℓ} ⦃e : Eq K⦄ → K → List K → Bool
contains k [] = false
contains k (j ∷ js) = j == k || contains k js

-- Whether there is a value, and it passes a test.
abbrev pub any_in {κ} : {V : Type κ} → (V → Bool) → Option V → Bool
any_in p none = false
any_in p (some v) = p v

module _ {ℓ κ} {K : Type ℓ} ⦃e : Eq K⦄ {V : Type κ} where
  unfoldable pub get : K → Map K V → Option V
  get k [] = none
  get k ((j, v) ∷ m) = if j == k then some v else get k m

  abbrev pub contains_key : K → Map K V → Bool
  contains_key k m = is_some (get k m)

  unfoldable pub insert : K → V → Map K V → Map K V
  insert k v [] = (k, v) ∷ []
  insert k v ((j, w) ∷ m) = if j == k then (k, v) ∷ m else (j, w) ∷ insert k v m

  unfoldable pub remove : K → Map K V → Map K V
  remove k [] = []
  remove k ((j, w) ∷ m) = let rest = remove k m in if j == k then rest else (j, w) ∷ rest

  -- The keys of the entries that pass a test: `iter().filter(p).map(key).collect()`.
  unfoldable pub keys_where : (V → Bool) → Map K V → List K
  keys_where p [] = []
  keys_where p ((j, w) ∷ m) = let rest = keys_where p m in if p w then j ∷ rest else rest

  -- No key stands twice.
  unfoldable pub Unique : Map K V → Type κ
  Unique [] = Unit
  Unique ((j, w) ∷ m) = (get j m ≡ none) × Unique m

  pub get-insert :
      (k j : K) (v : V) (m : Map K V) → get j (insert k v m) ≡ (if k == j then some v else get j m)
  unfolding get insert
  get-insert k j v [] = refl
  get-insert k j v ((i, w) ∷ m) =
      ground (arith, e.equals_iff k j, e.equals_iff i k, e.equals_iff i j, get-insert k j v m)

  pub get-remove : (k j : K) (m : Map K V) → get j (remove k m) ≡ (if k == j then none else get j m)
  unfolding get remove
  get-remove k j [] = ground arith
  get-remove k j ((i, w) ∷ m) =
      ground (arith, e.equals_iff k j, e.equals_iff i k, e.equals_iff i j, get-remove k j m)

  -- What is found after an insertion, or after a removal, and where the others stay.
  pub get-insert-cases :
      {k j : K} {v w : V} (m : Map K V)
      → get j (insert k v m) ≡ some w
      → ((k ≡ j) × (v ≡ w)) ⊎ ((k ≢ j) × (get j m ≡ some w))
  get-insert-cases {k} {j} {v} m h = elim (Bool-cases (k == j)) [
    | inl same ↦ inl ((e.equals_iff k j).0 same, ground (arith, get-insert k j v m))
    | inr differ ↦
        inr (λ k_is. ground (arith, (e.equals_iff k j).1 k_is), ground (arith, get-insert k j v m))
  ]

  pub get-insert-here : (k : K) (v : V) (m : Map K V) → get k (insert k v m) ≡ some v
  get-insert-here k v m = ground (arith, e.equals_iff k k, get-insert k k v m)

  pub get-insert-away : {k j : K} (v : V) (m : Map K V) → k ≢ j → get j (insert k v m) ≡ get j m
  get-insert-away {k} {j} v m ne = ground (arith, e.equals_iff k j, get-insert k j v m)

  pub get-remove-cases :
      {k j : K} {w : V} (m : Map K V) → get j (remove k m) ≡ some w → (k ≢ j) × (get j m ≡ some w)
  get-remove-cases {k} {j} m h = ground (arith, e.equals_iff k j, get-remove k j m)

  pub get-remove-away : {k j : K} (m : Map K V) → k ≢ j → get j (remove k m) ≡ get j m
  get-remove-away {k} {j} m ne = ground (arith, e.equals_iff k j, get-remove k j m)

  pub get-remove-here : (k : K) (m : Map K V) → get k (remove k m) ≡ none
  get-remove-here k m = ground (arith, e.equals_iff k k, get-remove k k m)

  pub insert-Unique : (k : K) (v : V) (m : Map K V) → Unique m → Unique (insert k v m)
  unfolding Unique insert get
  insert-Unique k v [] u = (refl, tt)
  insert-Unique k v ((j, w) ∷ m) u =
      ground
        (arith, e.equals_iff j k, e.equals_iff k j, get-insert k j v m, insert-Unique k v m u.1)

  pub remove-Unique : (k : K) (m : Map K V) → Unique m → Unique (remove k m)
  unfolding Unique remove
  remove-Unique k [] u = tt
  remove-Unique k ((j, w) ∷ m) u = ground (arith, get-remove k j m, remove-Unique k m u.1)

  -- A key is among those that pass a test exactly when its own value passes it.
  pub contains-keys_where :
      (p : V → Bool) (k : K) (m : Map K V)
      → Unique m
      → contains k (keys_where p m) ≡ any_in p (get k m)
  unfolding contains keys_where get Unique
  contains-keys_where p k [] u = refl
  contains-keys_where p k ((j, w) ∷ m) u =
      ground (arith, e.equals_iff j k, contains-keys_where p k m u.1)
