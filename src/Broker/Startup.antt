-- ===== src/Broker/Startup.antt =====
-- How a broker starts, and that there is one on a bus (crates/impulsed/src/broker.rs).
pub mod Ready
pub mod Tests
use impulse_ring.Prelude.{
  ℕ, ◌≡◌, refl, sym, ap, ◌∙◌, Bool, true, false, ℤ, List, [], ◌∷◌, Str, bytes, Result, ok, err,
  Error, not_found, access_denied, if◌then◌else◌, Result-cases, Bool-cases, inl, inr, contains,
  nat_eq, ◌==◌, other, arith,
}
use impulse_ring.Names.{control_segment}
use impulse_ring.Action.{Action, bind-eq-ok, bind-ok}
use impulse_ring.Shm.{
  Os, Mapping, closing, c_string, measured, create, open_existing, unlink, drop_mapping,
  list_segments, pid_alive,
}
use impulse_ring.Segment.{Segment}
use impulse_ring.Ring.{Ring, off_prodlock}
use impulse_ring.Ring.Refine.{Holds}
use impulse_ring.Control.{
  attach_control, broker_pid, broker_epoch, format_control, control_segment_bytes,
}
use impulse_ring.Broker.{Broker, new_broker}
use impulse_ring.Broker.Fit.{Sound}
use impulse_ring.Broker.Runs.{new_broker-Sound}
use impulse_ring.Control.Bootstrap.{IsI32, format_control-attach_control}

pub data StartError : Type 0 where
  already_running : StartError
  io : Error → StartError

-- What the guard comes to: go on, go on after unlinking the control segment, or an error.
pub data Guard : Type 0 where
  proceed : Guard
  reclaim : Guard
  stop : StartError → Guard

-- `opened` is the result of opening the control segment.
unfoldable pub guard_singleton : (ℤ → Bool) → Result Segment → Guard
guard_singleton pid_alive (ok seg) = elim (attach_control seg) [
  | ok ring ↦ if pid_alive (broker_pid seg) then stop already_running else reclaim
  | err e ↦ reclaim
]
guard_singleton pid_alive (err not_found) = proceed
guard_singleton pid_alive (err access_denied) = stop already_running
guard_singleton pid_alive (err e) = stop (io e)

-- A broker that has started has its control segment, the submission ring in it, and its state.
pub data Start : Type 0 where
  up : Mapping → Ring → Broker → Start
  not_up : StartError → Start

module _ (o : Os) where
  open o use {World, memory, update}

  -- The guard with the system calls: a control segment that it opened is unmapped again.
  unfoldable pub guarded : World → Guard × World
  unfolding guard_singleton
  guarded w =
      let (opened, w1) = open_existing o control_segment w in
      elim opened [
        | err e ↦ (guard_singleton (pid_alive o w1) (err e), w1)
        | ok m ↦
            let w2 = drop_mapping o m w1 in
            elim (guard_singleton (pid_alive o w1) (ok (memory w1 m.ptr))) [
              | reclaim ↦ (reclaim, (unlink o control_segment w2).1)
              | proceed ↦ (proceed, w2)
              | stop e ↦ (stop e, w2)
            ]
      ]

  unfoldable pub unlink_all : List Str → World → World
  unlink_all [] w = w
  unlink_all (name ∷ names) w = unlink_all names (unlink o name w).1

  unfoldable pub cleanup_stale : World → World
  unfolding unlink_all
  cleanup_stale w =
      let (listed, w1) = list_segments o w in
      elim listed [ ok names ↦ unlink_all names w1 | err e ↦ w1 ]

  -- A control segment that cannot be formatted is dropped.
  unfoldable pub formatted : ℤ → ℕ → Mapping → World → Start × World
  formatted pid epoch m w = elim (format_control (memory w m.ptr) pid epoch) [
    | err e ↦ (not_up (io e), drop_mapping o m w)
    | ok (submission, s) ↦ (up m submission new_broker, update m.ptr s w)
  ]

  unfoldable pub brought_up : ℤ → ℕ → World → Start × World
  unfolding cleanup_stale formatted
  brought_up pid epoch w =
      let (created, w1) = create o control_segment control_segment_bytes (cleanup_stale w) in
      elim created [ err e ↦ (not_up (io e), w1) | ok m ↦ formatted pid epoch m w1 ]

  unfoldable pub start : ℤ → ℕ → World → Start × World
  unfolding guarded brought_up
  start pid epoch w =
      let (guard, w1) = guarded w in
      elim guard [
        | stop e ↦ (not_up e, w1)
        | proceed ↦ brought_up pid epoch w1
        | reclaim ↦ brought_up pid epoch w1
      ]

-- On a control segment that a broker has formatted, a second start is refused while that broker's
-- process is alive, and reclaims the segment once it is dead.
guard_singleton-format_control :
    (pid_alive : ℤ → Bool) (s : Segment) (pid : ℤ) (epoch : ℕ) {ring : Ring} {s' : Segment}
    → IsI32 pid
    → format_control s pid epoch ≡ ok (ring, s')
    → guard_singleton pid_alive (ok s') ≡ (if pid_alive pid then stop already_running else reclaim)
unfolding guard_singleton
guard_singleton-format_control pid_alive s pid epoch small e =
    let (found, holds, rests, pid_is, epoch_is) =
      format_control-attach_control s pid epoch small e in
    rw (found, pid_is, guard_singleton) refl
