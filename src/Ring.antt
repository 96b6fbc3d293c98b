-- ===== src/Ring.antt =====
-- The shared-memory ring (crates/core/src/ring.rs): its header, `format` and `attach`, and the
-- steps of a push and of a pop, the producer lock and the wake-up counters included.
mod Wrap
pub mod Tests
pub mod Invariant
pub mod Lock
pub mod Refine
pub mod Format
pub mod Push
pub mod Pop
pub mod Run
pub mod Blocking
use impulse_ring.Prelude.{
  ℕ, ◌+◌, ◌-◌, ◌%◌, Bool, true, false, not, is_power_of_two, ◌||◌, ◌&&◌, Option, none, some, List,
  [], ◌∷◌, ◌++◌, zero, suc, bytes, bit_and, min, length, take, drop, ltb, ◌==◌, nat_eq,
  if◌then◌else◌, u64_mod, u32_mod, to_le_bytes, from_le_bytes, is_some, Result, ok, err, panic,
  other,
}
use impulse_ring.Segment.{Segment, store, copy_in, copy_out}

abbrev pub magic : ℕ
magic = 0x474e_4952

abbrev pub off_magic : ℕ
off_magic = 0

abbrev pub off_cap : ℕ
off_cap = 4

abbrev pub off_head : ℕ
off_head = 64

abbrev pub off_prodlock : ℕ
off_prodlock = 72

abbrev pub off_space_seq : ℕ
off_space_seq = 76

abbrev pub off_tail : ℕ
off_tail = 128

abbrev pub off_data_seq : ℕ
off_data_seq = 136

abbrev pub ring_header : ℕ
ring_header = 192

abbrev pub spin_limit : ℕ
spin_limit = 256

abbrev pub ring_bytes : ℕ → ℕ
ring_bytes capacity = ring_header + capacity

-- A view of a ring; the segment is passed beside it.
pub record Ring : Type 0 where
  pub base : ℕ
  pub capacity : ℕ
  pub mask : ℕ

abbrev pub view : ℕ → ℕ → Ring
view base capacity = record { base = base; capacity = capacity; mask = capacity - 1 }

-- The header's words, in the order in which `format` stores them, the magic last.
unfoldable pub write_header : Segment → ℕ → ℕ → Segment
write_header s base capacity =
    let s1 = store s (base + off_head) 0 in
    let s2 = store s1 (base + off_tail) 0 in
    let s3 = store s2 (base + off_prodlock) 0 in
    let s4 = store s3 (base + off_space_seq) 0 in
    let s5 = store s4 (base + off_data_seq) 0 in
    let s6 = store s5 (base + off_cap) (capacity % u32_mod) in store s6 (base + off_magic) magic

-- The two assertions panic.
unfoldable pub format : Segment → ℕ → ℕ → Result (Ring × Segment)
format s base capacity =
    if not (is_power_of_two capacity)
    then err panic
    else if not (base % 64 == 0)
    then err panic
    else if ltb s.len (base + ring_bytes capacity)
    then err (other (bytes "segment too small for ring"))
    else ok (view base capacity, write_header s base capacity)

unfoldable pub attach : Segment → ℕ → Result Ring
attach s base =
    if not (s.word (base + off_magic) == magic)
    then err (other (bytes "ring magic mismatch / not formatted"))
    else let capacity = s.word (base + off_cap) in
      if not (is_power_of_two capacity) || ltb s.len (base + ring_bytes capacity)
      then err (other (bytes "ring capacity invalid"))
      else ok (view base capacity)

module _ (r : Ring) where
  abbrev pub head : Segment → ℕ
  head s = s.word (r.base + off_head)

  abbrev pub tail : Segment → ℕ
  tail s = s.word (r.base + off_tail)

  -- The offset of the data region.
  abbrev pub data_ptr : ℕ
  data_ptr = r.base + ring_header

  unfoldable pub write_wrapped : Segment → ℕ → List ℕ → Segment
  write_wrapped s pos src =
      let idx = bit_and pos r.mask in
      let first = min (length src) (r.capacity - idx) in
      let m = copy_in s.byte (data_ptr + idx) (take first src) in
      record s { byte = if ltb first (length src) then copy_in m data_ptr (drop first src) else m }

  unfoldable pub read_wrapped : Segment → ℕ → ℕ → List ℕ
  read_wrapped s pos len =
      let idx = bit_and pos r.mask in
      let first = min len (r.capacity - idx) in
      let front = copy_out s.byte (data_ptr + idx) first in
      if ltb first len then front ++ copy_out s.byte data_ptr (len - first) else front

  -- The caller holds the producer lock. `head - tail` and `head + need` are on `u64`, and wrap. The
  -- source's `capacity - used` wraps too on a ring that says it holds more than its capacity; here
  -- it stops at 0.
  unfoldable pub push_locked : Segment → List ℕ → Bool × Segment
  push_locked s src =
      let need = 4 + length src in
      let h = head s in
      let used = (h + u64_mod - tail s) % u64_mod in
      if ltb r.capacity need
      then (false, s)
      else if ltb (r.capacity - used) need
      then (false, s)
      else let len = length src % u32_mod in
        let s1 = write_wrapped s h (to_le_bytes 4 len) in
        let s2 = write_wrapped s1 ((h + 4) % u64_mod) src in
        (true, store s2 (r.base + off_head) ((h + need) % u64_mod))

  -- `fetch_add(1)` on a 32-bit counter, which wraps.
  abbrev pub bump : Segment → ℕ → Segment
  bump s offset = store s (r.base + offset) ((s.word (r.base + offset) + 1) % u32_mod)

  -- The lock's word: 0 free, 1 held, 2 held with waiters. A free lock is taken as 1 (`true`); from
  -- a held one the caller swaps in 2 and sleeps (`false`).
  unfoldable pub lock_producer : Segment → Bool × Segment
  lock_producer s =
      if s.word (r.base + off_prodlock) == 0
      then (true, store s (r.base + off_prodlock) 1)
      else (false, store s (r.base + off_prodlock) 2)

  -- What the sleeper does once it is woken: swap in 2, and have the lock if that read 0.
  unfoldable pub lock_again : Segment → Bool × Segment
  lock_again s = (s.word (r.base + off_prodlock) == 0, store s (r.base + off_prodlock) 2)

  -- Whether a waiter is woken, and the segment after.
  unfoldable pub unlock_producer : Segment → Bool × Segment
  unlock_producer s = (s.word (r.base + off_prodlock) == 2, store s (r.base + off_prodlock) 0)

  -- One attempt at a push, from a free lock to a free lock. `none`: the caller sleeps on the lock.
  unfoldable pub try_push : Segment → List ℕ → Option (Bool × Segment)
  try_push s src =
      let (held, s1) = lock_producer s in
      let (done, s2) = push_locked s1 src in
      let (woken, s3) = unlock_producer s2 in
      if held then some (done, if done then bump s3 off_data_seq else s3) else none

  unfoldable pub try_pop : Segment → Option (List ℕ) × Segment
  try_pop s =
      let t = tail s in
      if head s == t
      then (none, s)
      else let len = from_le_bytes (read_wrapped s t 4) in
        let payload = read_wrapped s ((t + 4) % u64_mod) len in
        let s1 = store s (r.base + off_tail) ((t + 4 + len) % u64_mod) in
        (some payload, bump s1 off_space_seq)

  -- `push_blocking`: try, and where there is no room sleep until something changes, up to the
  -- deadline. The list has what other threads did to the segment in each sleep before the deadline.
  -- `none`: the lock was not free on a round.
  unfoldable pub push_blocking :
      Segment → List ℕ → List (Segment → Segment) → Option (Bool × Segment)
  push_blocking s src [] = try_push s src
  push_blocking s src (sleep ∷ sleeps) = elim (try_push s src) [
    | none ↦ none
    | some (done, s') ↦
        let rest = push_blocking (sleep s') src sleeps in if done then some (true, s') else rest
  ]

  -- One round of `pop_blocking`: `n` attempts, and one more once `data_seq` was read. `during i` is
  -- what other threads did after the attempt that left `i` to make.
  unfoldable pub pop_round : ℕ → Segment → (ℕ → Segment → Segment) → Option (List ℕ) × Segment
  pop_round zero s during = try_pop s
  pop_round (suc n) s during =
      let p = try_pop s in
      let rest = pop_round n (during n p.1) during in if is_some p.0 then p else rest

  -- The rounds up to the deadline, with a sleep between two.
  unfoldable pub pop_blocking :
      Segment → (ℕ → Segment → Segment) → List (Segment → Segment) → Option (List ℕ) × Segment
  pop_blocking s during [] = pop_round spin_limit s during
  pop_blocking s during (sleep ∷ sleeps) =
      let p = pop_round spin_limit s during in
      let rest = pop_blocking (sleep p.1) during sleeps in if is_some p.0 then p else rest
