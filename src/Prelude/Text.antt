-- ===== src/Prelude/Text.antt =====
-- `String` and `&str` as their bytes. A literal of the source is `bytes "…"`.
use Prim.Native.Nat.{ℕ}
use Prim.Native.Char.{code}
use Prim.Native.String.{String}
use mathlib.Core.Path.{◌≡◌}
use mathlib.Core.Logic.{◌↔◌}
use mathlib.Core.Bool.{Bool, true, false, ◌&&◌, ◌||◌}
use mathlib.Core.List.{List, [], ◌∷◌}
use native.Mathlib.Omega.{arith}
use impulse_ring.Prelude.Tests.{nat_eqb, nat_eq, Eq, ◌==◌}

abbrev pub Str : Type 0
Str = List ℕ

-- Every literal of the source is ASCII.
abbrev pub bytes : String → Str
bytes String.[] = []
bytes (String.◌∷◌ c s) = code c ∷ bytes s

unfoldable pub str_eqb : Str → Str → Bool
str_eqb [] [] = true
str_eqb (a ∷ s) (b ∷ t) = nat_eqb a b && str_eqb s t
str_eqb _ _ = false

pub str_eqb_iff : (s t : Str) → (str_eqb s t ≡ true) ↔ (s ≡ t)
unfolding str_eqb
str_eqb_iff [] [] = ground arith
str_eqb_iff (a ∷ s) (b ∷ t) = ground (arith, str_eqb_iff s t)
str_eqb_iff [] (b ∷ t) = ground arith
str_eqb_iff (a ∷ s) [] = ground arith

instance abbrev pub str_eq : Eq Str
str_eq = record { equals = str_eqb; equals_iff = str_eqb_iff }

abbrev pub is_empty : Str → Bool
is_empty [] = true
is_empty (c ∷ s) = false

unfoldable pub starts_with : Str → Str → Bool
starts_with s [] = true
starts_with [] (p ∷ ps) = false
starts_with (c ∷ s) (p ∷ ps) = c == p && starts_with s ps

-- `s.contains(part)`.
unfoldable pub contains_str : Str → Str → Bool
unfolding starts_with
contains_str [] part = starts_with [] part
contains_str (c ∷ s) part = starts_with (c ∷ s) part || contains_str s part
