-- ===== src/Connector/Reconnect.antt =====
-- Connecting, surviving a restart of the broker, and leaving (`bootstrap`, `with_reconnect`,
-- `reconnect`, `replay`, `run_watcher` and the rest of crates/connector/src/client.rs).
pub mod Replay
pub mod Settled
mod Tests
use impulse_ring.Prelude.{
  ℕ, ◌+◌, Bool, true, false, not, ◌&&◌, ◌||◌, List, [], ◌∷◌, ◌++◌, Option, none, some, Str, bytes,
  ℤ, pos, Map, get, insert, remove, nat_eq, ◌==◌, if◌then◌else◌, Result, ok, err, Error, panic,
  other, timed_out, not_found, access_denied, os, display, contains_str,
}
use impulse_ring.Segment.{Segment}
use impulse_ring.Ring.{Ring, ring_bytes, format}
use impulse_ring.Control.{clamp_arena_cap, attach_control, broker_epoch, reply_cap}
use impulse_ring.Names.{control_segment, client_segment}
use impulse_ring.Proto.{unregister, unpublish, Message, Avro}
use impulse_ring.Proto.Catalog.{Catalog, to_frame}
use impulse_ring.Connector.Slots.{clear, nobody}
use impulse_ring.Connector.Session.{
  Mapped, Transport, Reg, channel, function, ChannelReg, FunctionReg, Inner, Bus, Action, ◌>>=◌,
  ◌>>◌, pure, raise, lift, gets, modify, on_world,
}
use impulse_ring.Connector.Calls.{
  Call, next_corr, waits, submit, do_register, do_publish, do_expose,
}

-- `io::Error::new(e.kind(), format!("…: {e}"))`. The errors of a missing and of a refused file keep
-- no text here.
abbrev in_context : Str → Error → Error
in_context what panic = panic
in_context what (other message) = other (what ++ message)
in_context what (timed_out message) = timed_out (what ++ message)
in_context what not_found = not_found
in_context what access_denied = access_denied
in_context what (os message) = os (what ++ message)

abbrev pub map_err {ℓ} : {A : Type ℓ} → (Error → Error) → Result A → Result A
map_err f (ok x) = ok x
map_err f (err e) = err (f e)

abbrev is_unreachable_kind : Error → Bool
is_unreachable_kind (timed_out message) = true
is_unreachable_kind not_found = true
is_unreachable_kind e = false

unfoldable pub broker_unreachable : Error → Bool
broker_unreachable e =
    is_unreachable_kind e || contains_str (display e) (bytes "submission ring full")

-- The snapshots of the registry, in its order.
unfoldable pub channels_of : Map ℕ Reg → List ChannelReg
channels_of [] = []
channels_of ((id, channel r) ∷ regs) = r ∷ channels_of regs
channels_of ((id, function r) ∷ regs) = channels_of regs

unfoldable pub functions_of : Map ℕ Reg → List FunctionReg
functions_of [] = []
functions_of ((id, channel r) ∷ regs) = functions_of regs
functions_of ((id, function r) ∷ regs) = r ∷ functions_of regs

module _ (b : Bus) where
  open b use {World, random_u64, open_segment, create_segment, memory, update}

  -- The control segment, its submission ring and its epoch.
  abbrev control_at : ℕ → Action World (Mapped × ℕ)
  control_at segment world = elim (attach_control (memory world segment)) [
    | ok ring ↦
        (ok (record { segment = segment; ring = ring }, broker_epoch (memory world segment)), world)
    | err e ↦ (err e, world)
  ]

  unfoldable pub live_broker_epoch : Action World ℕ
  live_broker_epoch = do
    segment ← open_segment control_segment
    (submission, epoch) ← control_at segment
    pure epoch

  abbrev open_control : Action World ℕ
  open_control world =
      let (opened, world') = open_segment control_segment world in
      (
        map_err (in_context (bytes "cannot open control segment (is impulsed running?): ")) opened,
        world',
      )

  abbrev random : Action World ℕ
  random world = let (r, world') = random_u64 world in (ok r, world')

  -- `Ring::format(seg, 0, cap)`.
  abbrev formatted : ℕ → ℕ → Action World Mapped
  formatted segment cap world = elim (format (memory world segment) 0 cap) [
    | ok (ring, memory') ↦
        (ok (record { segment = segment; ring = ring }), update segment memory' world)
    | err e ↦ (err e, world)
  ]

  -- The capacity of a new reply ring.
  abbrev pub reply_ring_cap : ℕ → ℕ
  reply_ring_cap requested = clamp_arena_cap (if requested == 0 then reply_cap else requested)

  unfoldable pub bootstrap : ℕ → Action World Transport
  bootstrap requested = do
    control_seg ← open_control
    (submission, epoch) ← control_at control_seg
    nonce ← random
    let reply_name = client_segment nonce
    reply_seg ← create_segment reply_name (ring_bytes (reply_ring_cap requested))
    reply_ring ← formatted reply_seg (reply_ring_cap requested)
    pure (record {
      submission = submission;
      reply_ring = reply_ring;
      reply_segment = reply_name;
      nonce = nonce;
      client_id = pos 0;
      epoch = epoch;
    })

  unfoldable pub start : Str → ℕ → Transport → World → Inner World
  start app_name requested transport world = record {
    transport = transport;
    waiting = nobody;
    callees = [];
    app_name = app_name;
    reply_cap = requested;
    running = true;
    auto_reconnect = true;
    registry = [];
    reg_seq = 1;
    cells = [];
    next_cell = 0;
    world = world;
  }

  unfoldable pub register_entry : Reg → Call b ℕ
  register_entry reg s = (
    ok s.reg_seq,
    record s { registry = insert s.reg_seq reg s.registry; reg_seq = s.reg_seq + 1 },
  )

  unfoldable pub deregister : ℕ → Call b (Unit {0})
  deregister id = modify (λ s. record s { registry = remove id s.registry })

  -- A new cell, and a write to one.
  unfoldable pub new_cell : Mapped → Call b ℕ
  new_cell ring s = (
    ok s.next_cell,
    record s { cells = insert s.next_cell ring s.cells; next_cell = s.next_cell + 1 },
  )

  unfoldable pub rebind : ℕ → Mapped → Inner World → Inner World
  rebind cell ring s = record s { cells = insert cell ring s.cells }

  module _ (a : Avro) (c : Catalog a.Schema) where
    abbrev registered : Result ℤ × Inner World → Result (Inner World)
    registered (ok client_id, s) = ok s
    registered (err e, s) = err e

    abbrev bootstrapped : Str → ℕ → Result Transport × World → Result (Inner World)
    bootstrapped app_name requested (ok transport, world) =
        registered (do_register b a c (start app_name requested transport world))
    bootstrapped app_name requested (err e, world) = err e

    -- A connection whose registration fails is given up, with its threads.
    unfoldable pub connect : Str → ℕ → World → Result (Inner World)
    connect app_name requested world = bootstrapped app_name requested (bootstrap requested world)

    abbrev pub republished : ChannelReg → Result (Mapped × ℕ) × Inner World → Inner World
    republished r (ok (ring, fp), s) = rebind r.ring ring s
    republished r (err e, s) = s

    abbrev pub reexposed : FunctionReg → Result (Mapped × ℕ × ℕ) × Inner World → Inner World
    reexposed r (ok (ring, req_fp, resp_fp), s) = rebind r.ring ring s
    reexposed r (err e, s) = s

    unfoldable pub replay_channels : List ChannelReg → Inner World → Inner World
    replay_channels [] s = s
    replay_channels (r ∷ rs) s =
        replay_channels rs
          (republished r (do_publish b a c r.name r.schema_json r.key r.arena_cap s))

    unfoldable pub replay_functions : List FunctionReg → Inner World → Inner World
    replay_functions [] s = s
    replay_functions (r ∷ rs) s = replay_functions rs (
        reexposed r
          (do_expose b a c r.name r.req_schema_json r.resp_schema_json r.key r.arena_cap s))

    unfoldable pub replay : Inner World → Inner World
    replay s =
        replay_functions (functions_of s.registry) (replay_channels (channels_of s.registry) s)

    -- The new transport takes the place of the old one.
    unfoldable pub swap : Transport → Inner World → Inner World
    swap transport s = record s { waiting = clear s.waiting; callees = []; transport = transport }

    -- Once it is there: registering and replaying.
    unfoldable pub settle_on : Transport → Call b (Unit {0})
    settle_on transport = do modify (swap transport); client_id ← do_register b a c; modify replay

    unfoldable pub rejoin : Call b (Unit {0})
    rejoin = do
      requested ← gets (λ s. s.reply_cap)
      transport ← on_world (bootstrap requested)
      settle_on transport

    unfoldable pub reconnect : ℕ → Call b (Unit {0})
    reconnect failed_epoch s =
        if not (s.transport.epoch == failed_epoch) then (ok tt, s) else rejoin s

    module _ {A : Type 0} where
      -- The broker answers: a call is tried again after a restart only.
      abbrev restarted : Call b A → Error → ℕ → Result ℕ → Call b A
      restarted op e observed (err unreachable) = raise e
      restarted op e observed (ok live) =
          if live == observed then raise e else (reconnect observed >> op)

      unfoldable pub after_failure : Call b A → Error → Call b A
      after_failure op e s =
          let (live, world) = live_broker_epoch s.world in
          if not s.auto_reconnect || not (broker_unreachable e)
          then (err e, s)
          else restarted op e s.transport.epoch live (record s { world = world })

      abbrev tried : Call b A → Result A × Inner World → Result A × Inner World
      tried op (ok v, s) = (ok v, s)
      tried op (err e, s) = after_failure op e s

      unfoldable pub with_reconnect : Call b A → Call b A
      with_reconnect op s = tried op (op s)

    -- A round of the watcher, once it has slept.
    abbrev pub noticed : ℕ → Result ℕ → Inner World → Inner World
    noticed observed (err e) s = s
    noticed observed (ok live) s = if live == observed then s else (reconnect observed s).1

    unfoldable pub watch : Inner World → Inner World
    watch s =
        let (live, world) = live_broker_epoch s.world in
        if not s.running || not s.auto_reconnect
        then s
        else noticed s.transport.epoch live (record s { world = world })

    -- Best effort: the outcome is dropped.
    abbrev ignored : {A : Type 0} → Call b A → Inner World → Inner World
    ignored m s = (m s).1

    unfoldable pub send_unpublish : Str → Inner World → Inner World
    send_unpublish name = ignored (do
      corr ← next_corr b
      client_id ← gets (λ s. s.transport.client_id)
      frame ← lift (
          to_frame a c unpublish
            (record { correlation_id = corr; client_id = client_id; channel = name }))
      submit b a c frame)

    unfoldable pub send_unregister : Inner World → Inner World
    send_unregister = ignored (do
      corr ← next_corr b
      client_id ← gets (λ s. s.transport.client_id)
      frame ←
          lift (to_frame a c unregister (record { correlation_id = corr; client_id = client_id }))
      submit b a c frame)
