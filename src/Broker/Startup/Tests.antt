-- ===== src/Broker/Startup/Tests.antt =====
-- A system with one segment, the control segment or none, in which every process lives.
use impulse_ring.Prelude.{
  ◌≡◌, refl, ap, Option, none, some, [], ◌∷◌, ok, err, not_found, true, false, pos, contains,
  nat_eq, arith,
}
use impulse_ring.Segment.{Segment, zeroed}
use impulse_ring.Names.{control_segment}
use impulse_ring.Shm.{Os, Mapping, delivered, open_existing, c_string, closing, measured, pid_alive}
use impulse_ring.Ring.{push_locked, lock_producer}
use impulse_ring.Control.{control_segment_bytes}
use impulse_ring.Control.Used.{Used, untouched, pushed, locked}
use impulse_ring.Control.Bootstrap.{format_control-attach_control}
use impulse_ring.Control.Tests.{control, control_ring, control-format_control}
use impulse_ring.Broker.{new_broker}
use impulse_ring.Broker.Runs.{new_broker-Sound}
use impulse_ring.Broker.Startup.{not_up, already_running, start}
use impulse_ring.Broker.Startup.Ready.{Ready, ReadyIf, start-Ready, start-Ready-refused}

abbrev content : Option Segment → Segment
content none = zeroed 0
content (some s) = s

abbrev machine : Os
machine = record {
  World = Option Segment;
  shm_open_create = λ name mode w. (ok 3, w);
  shm_open = λ name w. elim w [ none ↦ (err not_found, none) | some s ↦ (ok 3, some s) ];
  fchmod = λ fd mode w. (ok tt, w);
  ftruncate = λ fd size w. (ok tt, some (zeroed size));
  fstat_size = λ fd w. (ok control_segment_bytes, w);
  mmap = λ fd size w. (ok 7, w);
  munmap = λ ptr size w. w;
  close = λ fd w. w;
  shm_unlink = λ name w. (ok tt, none);
  read_dir = λ w. (ok [], w);
  kill = λ w pid. delivered;
  memory = λ w ptr. content w;
  update = λ ptr s w. some s;
}

start-Ready_example : ReadyIf machine (pos 4242) 17 (start machine (pos 4242) 17 none)
start-Ready_example = start-Ready machine (λ ptr s w. refl) (pos 4242) 17 (omega arith) none

-- The control segment as its broker mapped it, and as a second one does.
abbrev first : Mapping
first = record { name = control_segment; ptr = 7; len = control_segment_bytes; owns_unlink = true }

abbrev second : Mapping
second = record {
  name = control_segment;
  ptr = 7;
  len = control_segment_bytes;
  owns_unlink = false;
}

first-Ready : Ready machine (pos 4242) 17 (some control) first control_ring new_broker
first-Ready =
    let (attached, empty, unlocked, pid_is, epoch_is) =
      format_control-attach_control (zeroed control_segment_bytes) (pos 4242) 17 (omega arith)
        control-format_control in
    record {
      attached = attached;
      empty = empty;
      unlocked = unlocked;
      pid_is = pid_is;
      epoch_is = epoch_is;
      sound = new_broker-Sound;
    }

-- A client has pushed three bytes and another one holds the lock.
abbrev with_message : Segment
with_message = (push_locked control_ring control (1 ∷ 2 ∷ 3 ∷ [])).1

abbrev in_use : Segment
in_use = (lock_producer control_ring with_message).1

in_use-Used : Used control_ring control in_use
in_use-Used = locked with_message (pushed control (1 ∷ 2 ∷ 3 ∷ []) untouched)

second-opened : open_existing machine control_segment (some in_use) ≡ (ok second, some in_use)
unfolding open_existing c_string closing measured contains
second-opened = refl

lives : pid_alive machine (some in_use) (pos 4242) ≡ true
unfolding pid_alive
lives = refl

start-Ready-refused_example :
    start machine (pos 5000) 18 (some in_use) ≡ (not_up already_running, some in_use)
unfolding open_existing c_string closing measured contains
start-Ready-refused_example =
    start-Ready-refused machine (pos 4242) (pos 5000) 17 18 (some control) (some in_use) first
      second first-Ready (ap (λ p. p.0) second-opened) in_use-Used lives
