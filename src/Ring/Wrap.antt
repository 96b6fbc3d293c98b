-- ===== src/Ring/Wrap.antt =====
-- The data region seen as a circle of `cap` cells: `write_wrapped` and `read_wrapped` in two parts
-- are one walk round it.
use native.Mathlib.Nat.{
  mod-add-mod, mod-eq_of_lt, mod-eq-sub-mod, zero-add, add-zero, suc-add, mod-lt, mod_self,
  min-eq_left, min-eq_right,
}
use native.Mathlib.Decide.{dec_lt}
use impulse_ring.Prelude.{
  ℕ, zero, suc, ◌+◌, ◌-◌, ◌%◌, ◌≤◌, ◌<◌, ◌≡◌, ◌≢◌, refl, sym, ap, ap₂, ◌∙◌, List, [], ◌∷◌, ◌++◌,
  arith, min, length, take, drop, nat_eq, ltb, lt→ltb, if◌then◌else◌, false, length-take,
  length-drop, take-append-drop, take_all,
}
use impulse_ring.Segment.{copy_in, copy_out, write}

-- Fewer than `cap` steps round the circle do not come back to the start.
mod-ne : (cap p q : ℕ) → q < p → p < q + cap → p % cap ≢ q % cap
mod-ne cap p q h k e = elim (dec_lt (q % cap + (p - q)) cap) [
  | yes l ↦ omega (arith, shift, mod-eq_of_lt l)
  | no l ↦ omega (
    arith,
    shift,
    mod-eq-sub-mod {n = q % cap + (p - q)} {m = cap} (omega arith),
    mod-eq_of_lt {n = q % cap + (p - q) - cap} {m = cap} (omega arith),
  )
]
  where
    shift : (q % cap + (p - q)) % cap ≡ p % cap
    shift = rw mod-add-mod (ap (λ t. t % cap) (omega arith))

same_add : (cap p q n : ℕ) → p % cap ≡ q % cap → (p + n) % cap ≡ (q + n) % cap
same_add cap p q n e = sym (mod-add-mod p cap n) ∙ ap (λ t. (t + n) % cap) e ∙ mod-add-mod q cap n

le_of_lt : {a b : ℕ} → a < b → a ≤ b
le_of_lt h = omega arith

not_lt : {a b : ℕ} → ¬ (a < b) → b ≤ a
not_lt h = omega arith

ltb_irrefl : (n : ℕ) → ltb n n ≡ false
ltb_irrefl n = ground arith

module _ (cap d : ℕ) where
  -- The `n` bytes from position `pos` on.
  unfoldable pub stream : (ℕ → ℕ) → ℕ → ℕ → List ℕ
  stream m pos zero = []
  stream m pos (suc n) = m (d + pos % cap) ∷ stream m (pos + 1) n

  -- The memory with a row of bytes written from `pos` on.
  unfoldable pub puts : (ℕ → ℕ) → ℕ → List ℕ → (ℕ → ℕ)
  puts m pos [] = m
  puts m pos (x ∷ xs) = puts (write m (d + pos % cap) x) (pos + 1) xs

  pub length-stream : (m : ℕ → ℕ) (pos n : ℕ) → length (stream m pos n) ≡ n
  unfolding stream
  length-stream m pos zero = refl
  length-stream m pos (suc n) = ap suc (length-stream m (pos + 1) n)

  pub stream_same : (m : ℕ → ℕ) (p q n : ℕ) → p % cap ≡ q % cap → stream m p n ≡ stream m q n
  unfolding stream
  stream_same m p q zero e = refl
  stream_same m p q (suc n) e =
      ap₂ ◌∷◌ (ap (λ t. m (d + t)) e) (stream_same m (p + 1) (q + 1) n (same_add cap p q 1 e))

  pub puts_same :
      (m : ℕ → ℕ) (p q : ℕ) (xs : List ℕ) → p % cap ≡ q % cap → puts m p xs ≡ puts m q xs
  unfolding puts
  puts_same m p q [] e = refl
  puts_same m p q (x ∷ xs) e =
      rw e (puts_same (write m (d + q % cap) x) (p + 1) (q + 1) xs (same_add cap p q 1 e))

  pub stream_add :
      (m : ℕ → ℕ) (pos a b : ℕ) → stream m pos (a + b) ≡ stream m pos a ++ stream m (pos + a) b
  unfolding stream
  stream_add m pos zero b = rw (zero-add, add-zero)
  stream_add m pos (suc a) b = rw suc-add (
      ap (◌∷◌ (m (d + pos % cap)))
        (stream_add m (pos + 1) a b ∙ ap (λ t. stream m (pos + 1) a ++ stream m t b) (omega arith)))

  pub puts_append :
      (m : ℕ → ℕ) (pos : ℕ) (xs ys : List ℕ)
      → puts m pos (xs ++ ys) ≡ puts (puts m pos xs) (pos + length xs) ys
  unfolding puts
  puts_append m pos [] ys = rw add-zero
  puts_append m pos (x ∷ xs) ys =
      puts_append (write m (d + pos % cap) x) (pos + 1) xs ys
      ∙ ap (λ t. puts (puts (write m (d + pos % cap) x) (pos + 1) xs) t ys) (omega arith)

  -- Writing ahead of a cell, and not all the way round, leaves it alone.
  puts_behind :
      (m : ℕ → ℕ) (p q : ℕ) (xs : List ℕ)
      → q < p
      → p + length xs ≤ q + cap
      → puts m p xs (d + q % cap) ≡ m (d + q % cap)
  unfolding puts
  puts_behind m p q [] h k = refl
  puts_behind m p q (x ∷ xs) h k = ground (
    arith,
    mod-ne cap p q h (omega arith),
    puts_behind (write m (d + p % cap) x) (p + 1) q xs (omega arith) (omega arith),
  )

  pub stream-puts_behind :
      (m : ℕ → ℕ) (p q n : ℕ) (xs : List ℕ)
      → q + n ≤ p
      → p + length xs ≤ q + cap
      → stream (puts m p xs) q n ≡ stream m q n
  unfolding stream
  stream-puts_behind m p q zero xs h k = refl
  stream-puts_behind m p q (suc n) xs h k =
      ap₂ ◌∷◌ (puts_behind m p q xs (omega arith) k)
        (stream-puts_behind m p (q + 1) n xs (omega arith) (omega arith))

  -- What was written is read back.
  pub stream-puts_self :
      (m : ℕ → ℕ) (p : ℕ) (xs : List ℕ) → length xs ≤ cap → stream (puts m p xs) p (length xs) ≡ xs
  unfolding stream puts
  stream-puts_self m p [] h = refl
  stream-puts_self m p (x ∷ xs) h =
      ap₂ ◌∷◌
        (puts_behind (write m (d + p % cap) x) (p + 1) p xs (omega arith) (omega arith)
          ∙ ground arith)
        (stream-puts_self (write m (d + p % cap) x) (p + 1) xs (omega arith))

  next_index : (pos : ℕ) → pos % cap + 1 < cap → (pos + 1) % cap ≡ pos % cap + 1
  next_index pos h = sym (mod-add-mod pos cap 1) ∙ mod-eq_of_lt h

  -- A copy that stays inside the region is a stretch of the walk.
  copy_out-stream :
      (m : ℕ → ℕ) (pos n : ℕ) → pos % cap + n ≤ cap → copy_out m (d + pos % cap) n ≡ stream m pos n
  unfolding stream copy_out
  copy_out-stream m pos zero h = refl
  copy_out-stream m pos (suc zero) h = refl
  copy_out-stream m pos (suc (suc n)) h =
      let e : d + pos % cap + 1 ≡ d + (pos + 1) % cap =
        omega (arith, next_index pos (omega arith)) in
      ap (◌∷◌ (m (d + pos % cap))) (
        ap (λ t. copy_out m t (suc n)) e
        ∙ copy_out-stream m (pos + 1) (suc n) (omega (arith, next_index pos (omega arith))))

  copy_in-puts :
      (m : ℕ → ℕ) (pos : ℕ) (xs : List ℕ)
      → pos % cap + length xs ≤ cap
      → copy_in m (d + pos % cap) xs ≡ puts m pos xs
  unfolding puts copy_in
  copy_in-puts m pos [] h = refl
  copy_in-puts m pos (x ∷ []) h = refl
  copy_in-puts m pos (x ∷ y ∷ xs) h =
      let e : d + pos % cap + 1 ≡ d + (pos + 1) % cap =
        omega (arith, next_index pos (omega arith)) in
      ap (λ t. copy_in (write m (d + pos % cap) x) t (y ∷ xs)) e
      ∙ copy_in-puts (write m (d + pos % cap) x) (pos + 1) (y ∷ xs)
          (omega (arith, next_index pos (omega arith)))

  -- The first part of a walk that goes round ends at the start of the region.
  round_index : (pos : ℕ) → 0 < cap → (pos + (cap - pos % cap)) % cap ≡ 0 % cap
  round_index pos h =
      sym (mod-add-mod pos cap (cap - pos % cap))
      ∙ ap (λ t. t % cap) (omega (arith, mod-lt pos h))
      ∙ mod_self cap
      ∙ sym (mod-eq_of_lt h)

  copy_out_start :
      (m : ℕ → ℕ) (pos n : ℕ)
      → 0 < cap
      → n ≤ cap
      → pos % cap ≡ 0 % cap
      → copy_out m d n ≡ stream m pos n
  copy_out_start m pos n c h e =
      ap (λ t. copy_out m t n) (omega (arith, mod-eq_of_lt c))
      ∙ copy_out-stream m 0 n (omega (arith, mod-eq_of_lt c))
      ∙ stream_same m 0 pos n (sym e)

  copy_in_start :
      (m : ℕ → ℕ) (pos : ℕ) (xs : List ℕ)
      → 0 < cap
      → length xs ≤ cap
      → pos % cap ≡ 0 % cap
      → copy_in m d xs ≡ puts m pos xs
  copy_in_start m pos xs c h e =
      ap (λ t. copy_in m t xs) (omega (arith, mod-eq_of_lt c))
      ∙ copy_in-puts m 0 xs (omega (arith, mod-eq_of_lt c))
      ∙ puts_same m 0 pos xs (sym e)

  split_sum : (a n : ℕ) → a ≤ n → a + (n - a) ≡ n
  split_sum a n h = omega arith

  -- `read_wrapped`: the stretch up to the end of the region, then the rest from its start.
  pub read_walk :
      (m : ℕ → ℕ) (pos n : ℕ)
      → 0 < cap
      → n ≤ cap
      → (let first = min n (cap - pos % cap) in
          let front = copy_out m (d + pos % cap) first in
          if ltb first n then front ++ copy_out m d (n - first) else front)
        ≡ stream m pos n
  read_walk m pos n c h = elim (dec_lt (cap - pos % cap) n) [
    | yes l ↦
        rw (min-eq_right (le_of_lt l), lt→ltb _ _ l)
          (ap₂ ◌++◌ (copy_out-stream m pos (cap - pos % cap) (omega (arith, mod-lt pos c))) (
              copy_out_start m (pos + (cap - pos % cap)) (n - (cap - pos % cap)) c (omega arith)
                (round_index pos c))
            ∙ sym (stream_add m pos (cap - pos % cap) (n - (cap - pos % cap)))
            ∙ ap (stream m pos) (split_sum (cap - pos % cap) n (omega arith)))
    | no l ↦
        rw (min-eq_left (not_lt l), ltb_irrefl n)
          (copy_out-stream m pos n (omega (arith, mod-lt pos c)))
  ]

  -- `write_wrapped`, the same way.
  pub write_walk :
      (m : ℕ → ℕ) (pos : ℕ) (src : List ℕ)
      → 0 < cap
      → length src ≤ cap
      → (let first = min (length src) (cap - pos % cap) in
          let m1 = copy_in m (d + pos % cap) (take first src) in
          if ltb first (length src) then copy_in m1 d (drop first src) else m1)
        ≡ puts m pos src
  write_walk m pos src c h = elim (dec_lt (cap - pos % cap) (length src)) [
    | yes l ↦
        rw (min-eq_right (le_of_lt l), lt→ltb _ _ l)
          (ap (λ t. copy_in t d (drop (cap - pos % cap) src))
              (copy_in-puts m pos (take (cap - pos % cap) src)
                (omega (arith, mod-lt pos c, length-take (cap - pos % cap) src)))
            ∙ copy_in_start (puts m pos (take (cap - pos % cap) src))
                (pos + length (take (cap - pos % cap) src)) (drop (cap - pos % cap) src) c
                (omega (arith, length-drop (cap - pos % cap) src))
                (ap (λ t. (pos + t) % cap) (front_length l) ∙ round_index pos c)
            ∙ sym (puts_append m pos (take (cap - pos % cap) src) (drop (cap - pos % cap) src))
            ∙ ap (puts m pos) (take-append-drop (cap - pos % cap) src))
    | no l ↦
        rw (min-eq_left (not_lt l), ltb_irrefl (length src), take_all src)
          (copy_in-puts m pos src (omega (arith, mod-lt pos c)))
  ]
    where
      front_length :
          cap - pos % cap < length src → length (take (cap - pos % cap) src) ≡ cap - pos % cap
      front_length l = omega (arith, length-take (cap - pos % cap) src)
