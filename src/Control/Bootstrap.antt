-- ===== src/Control/Bootstrap.antt =====
-- Formatting a control segment and attaching to it (crates/core/src/control.rs).
use impulse_ring.Prelude.{
  ℕ, ◌+◌, ◌^◌, ◌≤◌, ◌<◌, ◌≡◌, refl, ap, ◌∙◌, false, ltb, arith, ℤ, pos, negsuc, i32_as_u32,
  u32_as_i32, ok, >>=-eq-ok, [],
}
use impulse_ring.Segment.{Segment}
use impulse_ring.Ring.{Ring, view, write_header, format, attach, ring_bytes, off_prodlock}
use impulse_ring.Ring.Refine.{Holds, Holds-frame}
use impulse_ring.Ring.Format.{format-ok, format-attach}
use impulse_ring.Control.{
  write_superblock, format_control, attach_control, broker_pid, broker_epoch, submission_base,
  submission_cap, control_segment_bytes, ctl_magic, ctl_version, off_magic, off_version, off_pid,
  off_epoch,
}

abbrev pub IsI32 : ℤ → Type 0
IsI32 (pos n) = n < 2 ^ 31
IsI32 (negsuc n) = n < 2 ^ 31

u32_as_i32-i32_as_u32 : (v : ℤ) → IsI32 v → u32_as_i32 (i32_as_u32 v) ≡ v
u32_as_i32-i32_as_u32 (pos n) h = ground arith
u32_as_i32-i32_as_u32 (negsuc n) h = ground arith

-- The superblock stays clear of the submission ring.
superblock_words :
    (s : Segment) (pid : ℤ) (epoch i : ℕ)
    → submission_base ≤ i
    → (write_superblock s pid epoch).word i ≡ s.word i
unfolding write_superblock
superblock_words s pid epoch i h = ground arith

superblock_rest :
    (s : Segment) (pid : ℤ) (epoch : ℕ)
    → ((write_superblock s pid epoch).len ≡ s.len) × ((write_superblock s pid epoch).byte ≡ s.byte)
unfolding write_superblock
superblock_rest s pid epoch = (refl, refl)

superblock_fields :
    (s : Segment) (pid : ℤ) (epoch : ℕ)
    → let s' = write_superblock s pid epoch in
      (s'.word off_magic ≡ ctl_magic)
      × (s'.word off_version ≡ ctl_version)
      × (s'.word off_pid ≡ i32_as_u32 pid)
      × (s'.word off_epoch ≡ epoch)
unfolding write_superblock
superblock_fields s pid epoch = ground arith

attach_same :
    (s s' : Segment) (base : ℕ)
    → s'.len ≡ s.len
    → ((i : ℕ) → base ≤ i → s'.word i ≡ s.word i)
    → attach s' base ≡ attach s base
unfolding attach
attach_same s s' base len same =
    rw (len, same (base + 0) (omega arith), same (base + 4) (omega arith))

-- What `format_control` has made: a ring in the segment, and the superblock over it.
format_control-ok :
    (s : Segment) (pid : ℤ) (epoch : ℕ) {r : Ring} {s' : Segment}
    → format_control s pid epoch ≡ ok (r, s')
    → (s0 : Segment) × (format s submission_base submission_cap ≡ ok (r, s0))
      × (s' ≡ write_superblock s0 pid epoch)
unfolding format_control
format_control-ok s pid epoch {r} {s'} e =
    let (p, done, made) =
      >>=-eq-ok (format s submission_base submission_cap)
        (λ p. ok (p.0, write_superblock p.1 pid epoch)) e in
    (p.1, made ∙ ap ok (cc done), cc done)

-- A connector attaches to what the broker formatted: it gets the same ring, empty and with its lock
-- free, and reads the broker's pid and epoch.
pub format_control-attach_control :
    (s : Segment) (pid : ℤ) (epoch : ℕ) {r : Ring} {s' : Segment}
    → IsI32 pid
    → format_control s pid epoch ≡ ok (r, s')
    → (attach_control s' ≡ ok r)
      × Holds r s' []
      × (s'.word (r.base + off_prodlock) ≡ 0)
      × (broker_pid s' ≡ pid)
      × (broker_epoch s' ≡ epoch)
unfolding attach_control broker_pid broker_epoch
format_control-attach_control s pid epoch {r} small e =
    let (s0, made, es) = format_control-ok s pid epoch e in
    let (found, holds, free) = format-attach s submission_base submission_cap (omega arith) made in
    let (_, _, _, er, _) = format-ok s submission_base submission_cap made in
    let base : r.base ≡ submission_base = ap (λ (v : Ring). v.base) er in
    let s1 = write_superblock s0 pid epoch in
    let (magic, version, pid_word, epoch_word) = superblock_fields s0 pid epoch in
    let (len, bytes) = superblock_rest s0 pid epoch in
    let same = superblock_words s0 pid epoch in
    rw es (
      rw (magic, version) (attach_same s0 s1 submission_base len same ∙ found),
      Holds-frame s1 bytes (same (r.base + 64) (omega (arith, base)))
          (same (r.base + 128) (omega (arith, base))) holds,
      same (r.base + 72) (omega (arith, base)) ∙ free,
      rw pid_word (u32_as_i32-i32_as_u32 pid small),
      epoch_word,
    )

-- On a segment of the length that `start` asks for, formatting cannot fail.
format_control-total :
    (s : Segment) (pid : ℤ) (epoch : ℕ)
    → control_segment_bytes ≤ s.len
    → (r : Ring) × (s' : Segment) × (format_control s pid epoch ≡ ok (r, s'))
unfolding format_control format
format_control-total s pid epoch h = (
  view submission_base submission_cap,
  write_superblock (write_header s submission_base submission_cap) pid epoch,
  rw enough refl,
)
  where
    enough : ltb s.len (submission_base + ring_bytes submission_cap) ≡ false
    enough = ground arith
