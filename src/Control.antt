-- ===== src/Control.antt =====
-- The control segment's layout and the arena sizes (crates/core/src/control.rs).
pub mod Tests
pub mod Arena
pub mod Bootstrap
pub mod Used
use impulse_ring.Prelude.{
  ℕ, zero, suc, ◌+◌, ◌*◌, ◌%◌, ◌^◌, Bool, not, ◌++◌, List, [], ◌∷◌, ℤ, i32_as_u32, u32_as_i32, min,
  max, leb, nat_eqb, if◌then◌else◌, bytes, decimal, from_le_bytes, u64_mod, Result, ok, err, other,
  ◌>>=◌,
}
use impulse_ring.Segment.{Segment, store}
use impulse_ring.Ring.{Ring, ring_bytes, format, attach}

abbrev pub ctl_magic : ℕ
ctl_magic = from_le_bytes (bytes "IMPRING" ++ 0 ∷ [])

abbrev pub ctl_version : ℕ
ctl_version = 1

abbrev pub off_magic : ℕ
off_magic = 0

abbrev pub off_version : ℕ
off_version = 8

abbrev pub off_pid : ℕ
off_pid = 12

abbrev pub off_epoch : ℕ
off_epoch = 16

abbrev pub submission_base : ℕ
submission_base = 64

abbrev pub submission_cap : ℕ
submission_cap = 2 ^ 18

abbrev pub reply_cap : ℕ
reply_cap = 2 ^ 19

abbrev pub arena_cap : ℕ
arena_cap = 2 ^ 19

abbrev pub min_arena_cap : ℕ
min_arena_cap = 2 ^ 18

abbrev pub max_arena_cap : ℕ
max_arena_cap = 2 ^ 27

-- `usize::next_power_of_two`: double from 1 until it is not below `n`. Of the 64 bits of a `usize`
-- at most 64 doublings are needed.
next_power_from : ℕ → ℕ → ℕ → ℕ
next_power_from zero p n = p
next_power_from (suc f) p n = let next = next_power_from f (2 * p) n in if leb n p then p else next

unfoldable pub next_power_of_two : ℕ → ℕ
unfolding next_power_from
next_power_of_two n = next_power_from 64 1 n

-- `requested.clamp(MIN_ARENA_CAP, MAX_ARENA_CAP).next_power_of_two()`, and the default for 0.
unfoldable pub clamp_arena_cap : ℕ → ℕ
clamp_arena_cap requested =
    if nat_eqb requested 0
    then arena_cap
    else next_power_of_two (min (max requested min_arena_cap) max_arena_cap)

abbrev pub control_segment_bytes : ℕ
control_segment_bytes = submission_base + ring_bytes submission_cap

-- The superblock's words, the magic last.
unfoldable pub write_superblock : Segment → ℤ → ℕ → Segment
write_superblock s broker_pid epoch =
    let s1 = store s off_version ctl_version in
    let s2 = store s1 off_pid (i32_as_u32 broker_pid) in
    let s3 = store s2 off_epoch epoch in store s3 off_magic ctl_magic

unfoldable pub format_control : Segment → ℤ → ℕ → Result (Ring × Segment)
format_control s broker_pid epoch =
    format s submission_base submission_cap >>= λ p. ok (p.0, write_superblock p.1 broker_pid epoch)

unfoldable pub attach_control : Segment → Result Ring
attach_control s =
    if not (nat_eqb (s.word off_magic) ctl_magic)
    then err (other (bytes "control magic mismatch (broker not running?)"))
    else if not (nat_eqb (s.word off_version) ctl_version)
    then err
        (other (bytes "control version " ++ decimal (s.word off_version) ++ bytes " unsupported"))
    else attach s submission_base

unfoldable pub broker_pid : Segment → ℤ
broker_pid s = u32_as_i32 (s.word off_pid)

unfoldable pub broker_epoch : Segment → ℕ
broker_epoch s = s.word off_epoch
