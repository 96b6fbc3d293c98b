-- ===== src/Queue.antt =====
-- What a ring promises: a first-in first-out queue of messages, bounded by the bytes that they
-- take, each with its four-byte length in front.
use impulse_ring.Prelude.{
  ℕ, ◌+◌, Bool, true, false, Option, none, some, List, [], ◌∷◌, ◌++◌, length, ltb, if◌then◌else◌,
  to_le_bytes,
}

abbrev pub Queue : Type 0
Queue = List (List ℕ)

-- A message as the ring stores it.
abbrev pub stored : List ℕ → List ℕ
stored x = to_le_bytes 4 (length x) ++ x

abbrev pub flat : Queue → List ℕ
flat [] = []
flat (x ∷ q) = stored x ++ flat q

-- A message is taken if it fits beside those that wait.
abbrev pub push : ℕ → Queue → List ℕ → Bool × Queue
push cap q x =
    if ltb cap (length (flat q) + (4 + length x)) then (false, q) else (true, q ++ x ∷ [])

abbrev pub pop : Queue → Option (List ℕ) × Queue
pop [] = (none, [])
pop (x ∷ q) = (some x, q)
