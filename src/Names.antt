-- ===== src/Names.antt =====
-- Segment names and access keys (crates/core/src/util.rs). SHA-256 is a parameter.
pub mod Tests
pub mod Distinct
pub mod Keys
use impulse_ring.Prelude.{
  ℕ, zero, suc, Bool, List, [], ◌∷◌, ◌++◌, Str, bytes, decimal, bit_or, bit_xor, nat_eqb,
}

abbrev pub control_segment : Str
control_segment = bytes "/impulse-ring.ctl.v1"

unfoldable pub client_segment : ℕ → Str
client_segment nonce = bytes "/impulse-ring.cli." ++ (decimal nonce ++ bytes ".v1")

unfoldable pub channel_arena : ℕ → Str
channel_arena channel_id = bytes "/impulse-ring.arena." ++ (decimal channel_id ++ bytes ".v1")

unfoldable pub function_arena : ℕ → Str
function_arena fn_id = bytes "/impulse-ring.fn." ++ (decimal fn_id ++ bytes ".v1")

-- The digest of a text, 32 bytes.
abbrev pub Sha256 : Type 0
Sha256 = Str → List ℕ

unfoldable pub key_hash : Sha256 → Str → List ℕ
key_hash sha256 key = sha256 (bytes "impulse-ring/key/v1:" ++ key)

-- The loop over the bytes of the two hashes: `diff |= h[i] ^ stored_hash[i]`.
unfoldable pub difference : ℕ → List ℕ → List ℕ → ℕ
difference diff (h ∷ hs) (s ∷ ss) = difference (bit_or diff (bit_xor h s)) hs ss
difference diff _ _ = diff

unfoldable pub key_matches : Sha256 → Str → List ℕ → Bool
key_matches sha256 presented stored_hash =
    nat_eqb (difference 0 (key_hash sha256 presented) stored_hash) 0
