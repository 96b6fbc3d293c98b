-- ===== src/Names/Tests.antt =====
-- Segment names and a key, with a digest of two bytes.
use impulse_ring.Prelude.{◌≡◌, ◌↔◌, refl, true, [], ◌∷◌, bytes, length, ◌%◌}
use impulse_ring.Names.{Sha256, key_hash, key_matches}
use impulse_ring.Names.Keys.{key_matches_iff}

abbrev pub toy_digest : Sha256
toy_digest s = (length s % 256) ∷ 1 ∷ []

secret_length : length (key_hash toy_digest (bytes "secret")) ≡ 2
unfolding key_hash
secret_length = refl

key_matches_iff_example :
    (key_matches toy_digest (bytes "secret") (26 ∷ 1 ∷ []) ≡ true)
    ↔ (key_hash toy_digest (bytes "secret") ≡ 26 ∷ 1 ∷ [])
key_matches_iff_example = key_matches_iff toy_digest (bytes "secret") (26 ∷ 1 ∷ []) secret_length
