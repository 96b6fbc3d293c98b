-- ===== src/Names/Keys.antt =====
-- The comparison of an access key with a stored hash (crates/core/src/util.rs).
use impulse_ring.Prelude.{
  ℕ, ◌≡◌, ◌↔◌, refl, ap₂, true, List, [], ◌∷◌, Str, arith, length, bit_or, bit_xor, bit_or-eq_zero,
  bit_xor-eq_zero, bit_xor_self,
}
use impulse_ring.Names.{Sha256, key_hash, difference, key_matches}

-- The loop gives 0 exactly from 0, on equal rows.
difference-zero :
    (d : ℕ) (hs ss : List ℕ) → length hs ≡ length ss → difference d hs ss ≡ 0 → (d ≡ 0) × (hs ≡ ss)
unfolding difference
difference-zero d [] [] l e = (e, refl)
difference-zero d [] (s ∷ ss) l e = absurd (omega arith)
difference-zero d (h ∷ hs) [] l e = absurd (omega arith)
difference-zero d (h ∷ hs) (s ∷ ss) l e =
    let (front, rest) = difference-zero (bit_or d (bit_xor h s)) hs ss (omega arith) e in
    let (d0, x0) = bit_or-eq_zero d (bit_xor h s) front in
    (d0, ap₂ ◌∷◌ (bit_xor-eq_zero h s x0) rest)

difference_self : (hs : List ℕ) → difference 0 hs hs ≡ 0
unfolding difference
difference_self [] = refl
difference_self (h ∷ hs) = rw (bit_xor_self h) (difference_self hs)

-- Over digests of the stored hash's length, the comparison is equality of the hashes.
pub key_matches_iff :
    (sha256 : Sha256) (presented : Str) (stored_hash : List ℕ)
    → length (key_hash sha256 presented) ≡ length stored_hash
    → (key_matches sha256 presented stored_hash ≡ true) ↔ (key_hash sha256 presented ≡ stored_hash)
unfolding key_matches
key_matches_iff sha256 presented stored_hash l = (
  λ e. (difference-zero 0 (key_hash sha256 presented) stored_hash l (ground arith)).1,
  λ e. rw (← e, difference_self (key_hash sha256 presented)) refl,
)
