-- ===== src/Connector/Calls.antt =====
-- The calls that a connection makes of the broker, and the cache of callees
-- (`Inner` of crates/connector/src/client.rs).
pub mod Replies
pub mod Talks
pub mod Callees
use impulse_ring.Prelude.{
  ℕ, ◌+◌, Bool, true, false, not, ◌&&◌, ◌||◌, List, [], ◌∷◌, ◌++◌, Option, none, some, Str, bytes,
  ℤ, pos, u64_as_i64, Map, get, insert, remove, int_eq, str_eq, nat_eq, ◌==◌, if◌then◌else◌, Result,
  ok, err, Error, panic, other, timed_out, display,
}
use impulse_ring.Segment.{Segment}
use impulse_ring.Ring.{Ring, attach}
use impulse_ring.Frame
use impulse_ring.Frame.{Frame}
use impulse_ring.Proto.{
  Kind, register, register_reply, unregister, publish_channel, publish_reply, unpublish,
  list_channels, channel_list, subscribe, subscribe_reply, expose_function, expose_reply,
  lookup_function, lookup_reply, Message, Avro, ChannelInfo, RegisterReply, LookupReply, status_ok,
  fp_to_i64, i64_to_fp,
}
use impulse_ring.Proto.Catalog.{Catalog, to_frame, from_frame}
use impulse_ring.Connector.Slots
use impulse_ring.Connector.Slots.{Waiting, happen_all, drop_pending, wait}
use impulse_ring.Connector.Session.{
  Mapped, Transport, Callee, CalleeId, callee_id_eq, Inner, Bus, Action, ◌>>=◌, ◌>>◌, pure, raise,
  lift, gets, modify, on_world,
}

-- `key.unwrap_or("")`.
abbrev pub key_or_empty : Option Str → Str
key_or_empty none = []
key_or_empty (some key) = key

module _ (b : Bus) where
  open b use {World, random_u64, open_segment, memory}

  abbrev pub Call : Type 0 → Type 0
  Call A = Action (Inner World) A

  unfoldable pub next_corr : Call ℤ
  next_corr s =
      let (r, world) = random_u64 s.world in (ok (u64_as_i64 r), record s { world = world })

  -- `Ring::attach(seg, 0)`.
  unfoldable pub attached : ℕ → Action World Mapped
  attached segment world = elim (attach (memory world segment) 0) [
    | ok ring ↦ (ok (record { segment = segment; ring = ring }), world)
    | err e ↦ (err e, world)
  ]

  unfoldable pub open_ring : Str → Action World Mapped
  unfolding attached
  open_ring name = do segment ← open_segment name; attached segment

  abbrev pub waits : (Waiting → Waiting) → Call (Unit {0})
  waits f = modify (λ s. record s { waiting = f s.waiting })

  unfoldable pub forget_callee : Str → Option Str → Call (Unit {0})
  forget_callee fn_name key =
      modify (λ s. record s { callees = remove (fn_name, key_or_empty key) s.callees })

  module _ (a : Avro) (c : Catalog a.Schema) where
    -- `push_blocking` with a deadline, on a ring that a call holds.
    unfoldable pub push_on : Mapped → List ℕ → Call Bool
    push_on ring bytes s =
        let (done, world) = b.push ring bytes s.world in
        let waiting = happen_all a c (b.during_push s.world) s.waiting in
        (ok done, record s { world = world; waiting = waiting })

    unfoldable pub wait_for : ℕ → Call (Option Frame)
    wait_for slot s =
        let (wakes, world) = b.wakes s.world in
        let (frame, waiting) = wait a c slot wakes s.waiting in
        (ok frame, record s { waiting = waiting; world = world })

    -- `Inner::register`.
    unfoldable pub register_slot : ℤ → Call ℕ
    register_slot corr s =
        let (slot, waiting) = Slots.register corr s.waiting in
        (ok slot, record s { waiting = waiting })

    -- The match on the outcome of `slot.wait`.
    unfoldable pub answer : ℤ → Option Frame → Call Frame
    answer corr (some frame) = pure frame
    answer corr none = do
      waits (drop_pending corr)
      raise (timed_out (bytes "timed out waiting for broker reply"))

    -- Once the push is over.
    unfoldable pub placed : ℤ → ℕ → Bool → Call Frame
    placed corr slot true = do reply ← wait_for slot; answer corr reply
    placed corr slot false = do
      waits (drop_pending corr)
      raise (other (bytes "submission ring full (broker stuck?)"))

    unfoldable pub call_control : ℤ → Frame → Call Frame
    call_control corr frame = do
      slot ← register_slot corr
      submission ← gets (λ s. s.transport.submission)
      pushed ← push_on submission (Frame.encode frame)
      placed corr slot pushed

    unfoldable pub submit : Frame → Call Bool
    submit frame = do
      submission ← gets (λ s. s.transport.submission)
      push_on submission (Frame.encode frame)

    -- A request, and the message in its reply.
    unfoldable pub exchange : ℤ → (q r : Kind) → Message q → Call (Message r)
    exchange corr q r request = do
      frame ← lift (to_frame a c q request)
      reply ← call_control corr frame
      lift (from_frame a c r reply)

    -- `status != OK`.
    unfoldable pub checked : Str → ℤ → Str → Call (Unit {0})
    checked what status message =
        if status == status_ok then pure tt else raise (other (what ++ message))

    -- The reply to a registration, its status OK.
    unfoldable pub register_reply_to : Call RegisterReply
    register_reply_to = do
      t ← gets (λ s. s.transport)
      corr ← next_corr
      app_name ← gets (λ s. s.app_name)
      rr ← exchange corr register register_reply (record {
        correlation_id = corr;
        app_name = app_name;
        nonce = u64_as_i64 t.nonce;
        reply_segment = t.reply_segment;
        heartbeat_ms = pos 1000;
        pid = b.pid;
      })
      checked (bytes "register rejected: ") rr.status rr.message
      pure rr

    unfoldable pub adopt : RegisterReply → Call ℤ
    adopt rr s =
        (ok rr.client_id, record s { transport = record s.transport { client_id = rr.client_id } })

    unfoldable pub do_register : Call ℤ
    unfolding adopt
    do_register = do rr ← register_reply_to; adopt rr

    unfoldable pub do_publish : Str → Str → Option Str → ℤ → Call (Mapped × ℕ)
    do_publish name schema_json key arena_cap = do
      corr ← next_corr
      client_id ← gets (λ s. s.transport.client_id)
      pr ← exchange corr publish_channel publish_reply (record {
        correlation_id = corr;
        client_id = client_id;
        channel = name;
        schema_json = schema_json;
        access_key = key_or_empty key;
        arena_cap = arena_cap;
      })
      checked (bytes "publish failed: ") pr.status pr.message
      ring ← on_world (open_ring pr.arena)
      pure (ring, i64_to_fp pr.schema_fp)

    unfoldable pub do_list_channels : Call (List ChannelInfo)
    do_list_channels = do
      corr ← next_corr
      client_id ← gets (λ s. s.transport.client_id)
      list ←
          exchange corr list_channels channel_list
            (record { correlation_id = corr; client_id = client_id })
      pure list.channels

    unfoldable pub do_subscribe : ℤ → Option Str → ℕ → Call (Mapped × ℕ)
    do_subscribe channel_id key expected_fp = do
      corr ← next_corr
      client_id ← gets (λ s. s.transport.client_id)
      sr ← exchange corr subscribe subscribe_reply (record {
        correlation_id = corr;
        client_id = client_id;
        channel_id = channel_id;
        access_key = key_or_empty key;
        expected_fp = fp_to_i64 expected_fp;
      })
      checked (bytes "subscribe failed: ") sr.status sr.message
      ring ← on_world (open_ring sr.arena)
      pure (ring, i64_to_fp sr.schema_fp)

    unfoldable pub do_expose : Str → Str → Str → Option Str → ℤ → Call (Mapped × ℕ × ℕ)
    do_expose name req_schema_json resp_schema_json key arena_cap = do
      corr ← next_corr
      client_id ← gets (λ s. s.transport.client_id)
      er ← exchange corr expose_function expose_reply (record {
        correlation_id = corr;
        client_id = client_id;
        fn_name = name;
        req_schema_json = req_schema_json;
        resp_schema_json = resp_schema_json;
        access_key = key_or_empty key;
        req_arena_cap = arena_cap;
      })
      checked (bytes "expose failed: ") er.status er.message
      req_ring ← on_world (open_ring er.req_arena)
      pure (req_ring, i64_to_fp er.req_fp, i64_to_fp er.resp_fp)

    unfoldable pub do_lookup : Str → Option Str → Call LookupReply
    do_lookup fn_name key = do
      corr ← next_corr
      client_id ← gets (λ s. s.transport.client_id)
      lr ← exchange corr lookup_function lookup_reply (record {
        correlation_id = corr;
        client_id = client_id;
        fn_name = fn_name;
        access_key = key_or_empty key;
      })
      checked (bytes "lookup failed: ") lr.status lr.message
      pure lr

    -- What is not in the cache.
    unfoldable pub enter_callee : Str → Option Str → LookupReply → Mapped → Call Callee
    enter_callee fn_name key lr ring s =
        let found : Callee = record {
          req_fp = i64_to_fp lr.req_fp;
          resp_fp = i64_to_fp lr.resp_fp;
          ring = ring;
        } in
        (ok found, record s { callees = insert (fn_name, key_or_empty key) found s.callees })

    unfoldable pub open_callee : Str → Option Str → LookupReply → Call Callee
    unfolding enter_callee
    open_callee fn_name key lr = do
      ring ← on_world (open_ring lr.req_arena)
      enter_callee fn_name key lr ring

    unfoldable pub resolve : Str → Option Str → Call Callee
    resolve fn_name key = do lr ← do_lookup fn_name key; open_callee fn_name key lr

    abbrev pub cached_or : Option Callee → Call Callee → Call Callee
    cached_or (some found) resolved = pure found
    cached_or none resolved = resolved

    unfoldable pub callee : Str → Option Str → Call Callee
    callee fn_name key = do
      cached ← gets (λ s. get (fn_name, key_or_empty key) s.callees)
      cached_or cached (resolve fn_name key)

    unfoldable pub refetched : ℕ → ℕ → Callee → Call Callee
    refetched req_fp resp_fp found =
        if not (found.req_fp == req_fp)
        then raise (other (bytes "call rejected: request schema mismatch"))
        else if not (found.resp_fp == resp_fp)
        then raise (other (bytes "call rejected: response schema mismatch"))
        else pure found

    -- Whether what is resolved already will do.
    unfoldable pub fitting : Str → Option Str → ℕ → ℕ → Callee → Call Callee
    fitting fn_name key req_fp resp_fp found =
        if found.req_fp == req_fp && found.resp_fp == resp_fp
        then pure found
        else (forget_callee fn_name key >> (callee fn_name key >>= refetched req_fp resp_fp))

    unfoldable pub matching_callee : Str → Option Str → ℕ → ℕ → Call Callee
    matching_callee fn_name key req_fp resp_fp = do
      found ← callee fn_name key
      fitting fn_name key req_fp resp_fp found

    unfoldable pub function_arena_capacity : Str → Option Str → Call ℕ
    function_arena_capacity fn_name key = do
      found ← callee fn_name key
      pure found.ring.ring.capacity
