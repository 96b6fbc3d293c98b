-- ===== src/Control/Tests.antt =====
-- Arena sizes that clients ask for, and a control segment.
use impulse_ring.Prelude.{[], ◌+◌, ◌≤◌, ◌≡◌, refl, true, pos, is_power_of_two, ok, arith}
use impulse_ring.Segment.{Segment, zeroed}
use impulse_ring.Ring.{Ring, view, format, write_header, off_prodlock}
use impulse_ring.Ring.Refine.{Holds}
use impulse_ring.Control.{
  min_arena_cap, max_arena_cap, clamp_arena_cap, submission_base, submission_cap,
  control_segment_bytes, format_control, attach_control, write_superblock, broker_pid, broker_epoch,
}
use impulse_ring.Control.Arena.{clamp_arena_cap_legal}
use impulse_ring.Control.Bootstrap.{format_control-attach_control}

clamp_arena_cap_legal_example :
    (is_power_of_two (clamp_arena_cap 300000) ≡ true)
    × (min_arena_cap ≤ clamp_arena_cap 300000)
    × (clamp_arena_cap 300000 ≤ max_arena_cap)
clamp_arena_cap_legal_example = clamp_arena_cap_legal 300000

abbrev pub control_ring : Ring
control_ring = view submission_base submission_cap

abbrev pub control : Segment
control =
    write_superblock (write_header (zeroed control_segment_bytes) submission_base submission_cap)
      (pos 4242) 17

pub control-format_control :
    format_control (zeroed control_segment_bytes) (pos 4242) 17 ≡ ok (control_ring, control)
unfolding format_control format
control-format_control = refl

format_control-attach_control_example :
    (attach_control control ≡ ok control_ring)
    × Holds control_ring control []
    × (control.word (control_ring.base + off_prodlock) ≡ 0)
    × (broker_pid control ≡ pos 4242)
    × (broker_epoch control ≡ 17)
format_control-attach_control_example =
    format_control-attach_control (zeroed control_segment_bytes) (pos 4242) 17 (omega arith)
      control-format_control
