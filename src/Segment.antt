-- ===== src/Segment.antt =====
-- A mapped shared-memory segment (crates/core/src/shm.rs): its length, its atomic words and its
-- plain bytes, by their offset. A word and the bytes that it covers are told apart here: the
-- source uses every offset as a word of one width or as data.
use impulse_ring.Prelude.{ℕ, ◌+◌, List, [], ◌∷◌, ◌==◌, nat_eq, if◌then◌else◌}

pub record Segment : Type 0 where
  pub len : ℕ
  pub word : ℕ → ℕ
  pub byte : ℕ → ℕ

-- `ftruncate` hands out zeroed memory.
abbrev pub zeroed : ℕ → Segment
zeroed size = record { len = size; word = λ i. 0; byte = λ i. 0 }

-- `atomic_u32_at(offset).store(v)`; the 64-bit store is the same on another word.
abbrev pub store : Segment → ℕ → ℕ → Segment
store s offset v = record s { word = λ i. if offset == i then v else s.word i }

abbrev pub write : (ℕ → ℕ) → ℕ → ℕ → (ℕ → ℕ)
write m offset x = λ i. if offset == i then x else m i

-- `copy_nonoverlapping(src, ptr.add(offset), src.len())`.
unfoldable pub copy_in : (ℕ → ℕ) → ℕ → List ℕ → (ℕ → ℕ)
copy_in m offset [] = m
copy_in m offset (x ∷ xs) = copy_in (write m offset x) (offset + 1) xs

-- `copy_nonoverlapping(ptr.add(offset), out, n)`.
unfoldable pub copy_out : (ℕ → ℕ) → ℕ → ℕ → List ℕ
copy_out m offset ℕ.zero = []
copy_out m offset (ℕ.suc n) = m offset ∷ copy_out m (offset + 1) n
