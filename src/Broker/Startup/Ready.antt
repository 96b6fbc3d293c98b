-- ===== src/Broker/Startup/Ready.antt =====
-- What a broker that has started is like (`Broker::start` of crates/impulsed/src/broker.rs), and
-- what becomes of a second one.
use impulse_ring.Prelude.{
  ℕ, ◌+◌, ◌≡◌, refl, ap, true, false, ℤ, [], ok, Result-cases, inl, inr, Str,
}
use impulse_ring.Names.{control_segment}
use impulse_ring.Segment.{Segment}
use impulse_ring.Ring.{Ring, off_prodlock}
use impulse_ring.Ring.Refine.{Holds}
use impulse_ring.Action.{bind-gives}
use impulse_ring.Shm.{
  Os, Mapping, closing, c_string, measured, borrowed, mapping_of, opening, create, open_existing,
  drop_mapping, pid_alive,
}
use impulse_ring.Control.{
  attach_control, broker_pid, broker_epoch, format_control, control_segment_bytes,
}
use impulse_ring.Control.Used.{Used, attach_control-Used}
use impulse_ring.Control.Bootstrap.{IsI32, format_control-attach_control}
use impulse_ring.Broker.{Broker}
use impulse_ring.Broker.Fit.{Sound}
use impulse_ring.Broker.Runs.{new_broker-Sound}
use impulse_ring.Broker.Startup.{
  proceed, reclaim, stop, Guard, already_running, Start, up, not_up, guarded, cleanup_stale,
  formatted, brought_up, start, guard_singleton,
}

module _ (o : Os) where
  open o use {World, memory, update}

  -- What is stored at an address is there.
  abbrev pub Stores : Type 0
  Stores = (ptr : ℕ) (s : Segment) (w : World) → memory (update ptr s w) ptr ≡ s

  -- What a broker is like that has started.
  pub record Ready (pid : ℤ) (epoch : ℕ) (w : World) (m : Mapping) (ring : Ring) (b : Broker)
      : Type 0 where
    pub attached : attach_control (memory w m.ptr) ≡ ok ring
    pub empty : Holds ring (memory w m.ptr) []
    pub unlocked : (memory w m.ptr).word (ring.base + off_prodlock) ≡ 0
    pub pid_is : broker_pid (memory w m.ptr) ≡ pid
    pub epoch_is : broker_epoch (memory w m.ptr) ≡ epoch
    pub sound : Sound b

  abbrev pub ReadyIf : ℤ → ℕ → Start × World → Type 0
  ReadyIf pid epoch (not_up e, w) = Unit
  ReadyIf pid epoch (up m ring b, w) = Ready pid epoch w m ring b

  module _ (stores : Stores) (pid : ℤ) (epoch : ℕ) (small : IsI32 pid) where
    formatted-Ready : (m : Mapping) (w : World) → ReadyIf pid epoch (formatted o pid epoch m w)
    unfolding formatted
    formatted-Ready m w = elim (Result-cases (format_control (memory w m.ptr) pid epoch)) [
      | inr (e, failed) ↦ rw (failed, formatted) tt
      | inl ((ring, s), done) ↦
          let (found, holds, rests, pid_is, epoch_is) =
            format_control-attach_control (memory w m.ptr) pid epoch small done in
          let there = stores m.ptr s w in
          rw (done, formatted)
            (record {
              attached = rw there found;
              empty = rw there holds;
              unlocked = rw there rests;
              pid_is = rw there pid_is;
              epoch_is = rw there epoch_is;
              sound = new_broker-Sound;
            })
    ]

    brought_up-Ready : (w : World) → ReadyIf pid epoch (brought_up o pid epoch w)
    unfolding brought_up
    brought_up-Ready w =
        let w1 = cleanup_stale o w in
        elim (Result-cases (create o control_segment control_segment_bytes w1).0) [
          | inr (e, failed) ↦ rw (failed, brought_up) tt
          | inl (m, made) ↦ rw (made, brought_up) (formatted-Ready m _)
        ]

    by_guard :
        (guard : Guard) (w : World)
        → ReadyIf pid epoch (elim guard [
          | stop e ↦ (not_up e, w)
          | proceed ↦ brought_up o pid epoch w
          | reclaim ↦ brought_up o pid epoch w
        ])
    by_guard (stop e) w = tt
    by_guard proceed w = brought_up-Ready w
    by_guard reclaim w = brought_up-Ready w

    -- A broker that comes up has an empty submission ring with its lock free in a control segment
    -- that connectors attach to, in which they read its pid and its epoch, and its state is sound,
    -- if the memory keeps what is stored in it.
    pub start-Ready : (w : World) → ReadyIf pid epoch (start o pid epoch w)
    unfolding start
    start-Ready w = by_guard (guarded o w).0 (guarded o w).1

  -- A segment that is opened is not unlinked when it is dropped.
  open_existing-borrows :
      (name : Str) (w : World) {m : Mapping}
      → (open_existing o name w).0 ≡ ok m
      → m.owns_unlink ≡ false
  unfolding open_existing
  open_existing-borrows name w h =
      let P : Mapping → Type 0 = λ m. m.owns_unlink ≡ false in
      bind-gives P (c_string o name) (λ u. opening o name)
        (λ u.
          bind-gives P (o.shm_open name) (mapping_of o name)
            (λ fd. bind-gives P (closing o fd (measured o fd)) (borrowed o name) (λ x s y e. cc)))
        w _ h

  drop_borrowed :
      (m : Mapping) (w : World)
      → m.owns_unlink ≡ false
      → drop_mapping o m w ≡ o.munmap m.ptr m.len w
  unfolding drop_mapping
  drop_borrowed m w e = rw (e, drop_mapping) refl

  guarded-alive :
      (v : World) (seen : Mapping) (pid : ℤ) {ring : Ring}
      → (open_existing o control_segment v).0 ≡ ok seen
      → attach_control (memory (open_existing o control_segment v).1 seen.ptr) ≡ ok ring
      → broker_pid (memory (open_existing o control_segment v).1 seen.ptr) ≡ pid
      → pid_alive o (open_existing o control_segment v).1 pid ≡ true
      → guarded o v
        ≡ (stop already_running, drop_mapping o seen (open_existing o control_segment v).1)
  unfolding guarded guard_singleton
  guarded-alive v seen pid opened attached pid_is alive =
      rw (opened, attached, pid_is, alive, guarded, guard_singleton) refl

  -- While a broker that has come up lives, another start on its bus is refused as already running,
  -- and has changed nothing but its own mapping of the control segment, which it opened and
  -- unmapped again: however the submission ring has been used since the broker came up, with
  -- messages waiting in it or its lock held.
  pub start-Ready-refused :
      (pid pid' : ℤ) (epoch epoch' : ℕ) (w v : World) (m seen : Mapping) {ring : Ring} {b : Broker}
      → Ready pid epoch w m ring b
      → (open_existing o control_segment v).0 ≡ ok seen
      → Used ring (memory w m.ptr) (memory (open_existing o control_segment v).1 seen.ptr)
      → pid_alive o (open_existing o control_segment v).1 pid ≡ true
      → start o pid' epoch' v
        ≡ (not_up already_running, o.munmap seen.ptr seen.len (open_existing o control_segment v).1)
  unfolding start
  start-Ready-refused pid pid' epoch epoch' w v m seen r opened used alive =
      let (attached, pid_is) = attach_control-Used r.attached r.pid_is used in
      let stopped = guarded-alive v seen pid opened attached pid_is alive in
      let dropped =
        drop_borrowed seen (open_existing o control_segment v).1
          (open_existing-borrows control_segment v opened) in
      rw (ap (λ p. p.0) stopped, ap (λ p. p.1) stopped, dropped, start) refl
