-- ===== src/Connector/Api.antt =====
-- What an application calls (`Connection` of crates/connector/src/lib.rs, `CallFuture` and
-- `block_on` of crates/connector/src/rpc.rs).
pub mod Roundtrip
mod Tests
pub mod Await
use impulse_ring.Prelude.{
  ℕ, ◌+◌, Bool, true, false, not, List, [], ◌∷◌, ◌++◌, Option, none, some, Str, bytes, ℤ, pos,
  negsuc, Map, get, int_eq, nat_eq, ◌==◌, if◌then◌else◌, Result, ok, err, Error, panic, other,
  timed_out, not_found, access_denied, os, hex, decimal, u64_as_i64, i64_as_u64, max,
}
use impulse_ring.Frame
use impulse_ring.Frame.{Frame}
use impulse_ring.Proto.{
  Avro, parse, rpc_request, rpc_response, ChannelInfo, RpcRequest, RpcResponse, fp_to_i64,
  i64_to_fp, status_ok,
}
use impulse_ring.Proto.Catalog.{Catalog, to_frame, from_frame}
use impulse_ring.Connector.Slots.{
  Waiting, Wakes, timeout, notified, poll, happen_all, drop_pending, taken_or,
}
use impulse_ring.Connector.Session.{
  Mapped, Transport, Callee, Reg, channel, function, Inner, Bus, Action, ◌>>=◌, ◌>>◌, pure, raise,
  lift, gets, modify,
}
use impulse_ring.Connector.Calls.{
  Call, next_corr, waits, register_slot, push_on, forget_callee, matching_callee,
  function_arena_capacity, do_publish, do_list_channels, do_subscribe, do_expose,
}
use impulse_ring.Connector.Reconnect.{
  with_reconnect, new_cell, register_entry, send_unregister, connect,
}
use impulse_ring.Connector.Serde.{Serde}
use impulse_ring.Connector.Service.{Exposed, default_service_workers}
use impulse_ring.Connector.Pool.{Pool, new_pool}
use impulse_ring.Connector.Channels
use impulse_ring.Connector.Channels.{Publisher, Subscriber}

-- `{}` of an `i32`.
abbrev decimal_int : ℤ → Str
decimal_int (pos n) = decimal n
decimal_int (negsuc n) = bytes "-" ++ decimal (n + 1)

-- `e.kind() == TimedOut`.
abbrev is_timed_out : Error → Bool
is_timed_out (timed_out message) = true
is_timed_out e = false

-- `usize as i64`.
abbrev usize_as_i64 : ℕ → ℤ
usize_as_i64 n = u64_as_i64 n

pub record CallFuture (Schema : Type 0) : Type 0 where
  pub slot : ℕ
  pub resp_schema : Schema
  pub expected_resp_fp : ℕ
  pub corr : ℤ

-- A function's service: the cell of its arena, and its pool.
pub record Service : Type 0 where
  pub ring : ℕ
  pub pool : Pool

pub record Connection (World : Type 0) : Type 0 where
  pub inner : Inner World
  pub services : List Service
  pub service_workers : ℕ

unfoldable set_service_workers : {World : Type 0} → ℕ → Connection World → Connection World
set_service_workers workers conn = record conn { service_workers = max workers 1 }

module _ (a : Avro) (c : Catalog a.Schema) where
  abbrev pub result_of :
      {Resp : Type 0} → Serde a.Schema Resp → CallFuture a.Schema → RpcResponse → Result Resp
  result_of serde fut resp =
      if not (resp.status == status_ok)
      then err (
          other (
            bytes "remote function error ("
            ++ (decimal_int resp.status ++ (bytes "): " ++ resp.message))))
      else if not (i64_to_fp resp.result_fp == fut.expected_resp_fp)
      then err (
          other (
            bytes "response schema mismatch: expected "
            ++ (hex fut.expected_resp_fp ++ (bytes ", got " ++ hex (i64_to_fp resp.result_fp)))))
      else serde.decode fut.resp_schema resp.result

  unfoldable pub decode_response :
      {Resp : Type 0} → Serde a.Schema Resp → CallFuture a.Schema → Frame → Result Resp
  decode_response serde fut frame = elim (from_frame a c rpc_response frame) [
    | ok resp ↦ result_of serde fut resp
    | err e ↦ err e
  ]

  -- `block_on` of a call's future: polls, with a park between two, up to the deadline.
  unfoldable pub poll_until : ℕ → ℕ → Wakes → Waiting → Option Frame × Waiting
  poll_until slot waker (timeout events) w =
      taken_or a c (poll slot waker w)
        (poll slot waker (happen_all a c events (poll slot waker w).1))
  poll_until slot waker (notified events wakes) w =
      let later = poll_until slot waker wakes (happen_all a c events (poll slot waker w).1) in
      taken_or a c (poll slot waker w) later

  abbrev pub awaited :
      {Resp : Type 0} → Serde a.Schema Resp → CallFuture a.Schema → Option Frame → Result Resp
  awaited serde fut (some frame) = decode_response serde fut frame
  awaited serde fut none = err (timed_out (bytes "rpc call timed out"))

abbrev pub request_of : Transport → ℤ → ℕ → List ℕ → RpcRequest
request_of t rpc_corr arg_fp args = record {
  correlation_id = rpc_corr;
  caller_id = t.client_id;
  reply_segment = t.reply_segment;
  arg_fp = fp_to_i64 arg_fp;
  args = args;
}

module _ (b : Bus) (a : Avro) (c : Catalog a.Schema) where
  open b use {World}

  unfoldable pub connect_with_reply_cap : Str → ℕ → World → Result (Connection World)
  connect_with_reply_cap app_name reply_cap world = elim (connect b a c app_name reply_cap world) [
    | ok inner ↦
        ok (record { inner = inner; services = []; service_workers = default_service_workers })
    | err e ↦ err e
  ]

  unfoldable pub capacity_of_function : Str → Option Str → Call b ℕ
  capacity_of_function fn_name key =
      with_reconnect b a c (function_arena_capacity b a c fn_name key)

  unfoldable pub publish_channel_with_arena :
      Str → Str → Option Str → ℕ → Call b (Publisher a.Schema)
  publish_channel_with_arena name schema_json key arena_cap = do
    (schema, parsed_fp) ← lift (parse a schema_json)
    (ring, fp) ←
        with_reconnect b a c (do_publish b a c name schema_json key (usize_as_i64 arena_cap))
    cell ← new_cell b ring
    id ← register_entry b (
        channel (record {
          name = name;
          schema_json = schema_json;
          key = key;
          arena_cap = usize_as_i64 arena_cap;
          ring = cell;
        }))
    pure (record { ring = cell; schema = schema; schema_fp = fp; channel = name; reg_id = id })

  unfoldable pub channels : Call b (List ChannelInfo)
  channels = with_reconnect b a c (do_list_channels b a c)

  unfoldable pub subscribe_to : ℤ → Option Str → Str → Call b (Subscriber a.Schema)
  subscribe_to channel_id key expected_schema_json = do
    (schema, expected_fp) ← lift (parse a expected_schema_json)
    (ring, fp) ← with_reconnect b a c (do_subscribe b a c channel_id key expected_fp)
    cell ← new_cell b ring
    pure (record { ring = cell; schema = schema; schema_fp = fp })

  -- The function as exposed, and the cell of its arena.
  unfoldable pub expose_with_arena :
      {Req Resp : Type 0}
      → Str
      → Str
      → Str
      → Option Str
      → ℕ
      → Serde a.Schema Req
      → Serde a.Schema Resp
      → (Req → Option Resp)
      → Call b (Exposed a.Schema Req Resp × ℕ)
  expose_with_arena name req_json resp_json key arena_cap req_serde resp_serde handler = do
    (req_schema, parsed_req_fp) ← lift (parse a req_json)
    (resp_schema, parsed_resp_fp) ← lift (parse a resp_json)
    (ring, req_fp, resp_fp) ←
        with_reconnect b a c (do_expose b a c name req_json resp_json key (usize_as_i64 arena_cap))
    cell ← new_cell b ring
    id ← register_entry b (
        function (record {
          name = name;
          req_schema_json = req_json;
          resp_schema_json = resp_json;
          key = key;
          arena_cap = usize_as_i64 arena_cap;
          ring = cell;
        }))
    pure (
      record {
        req_schema = req_schema;
        resp_schema = resp_schema;
        req_fp = req_fp;
        resp_fp = resp_fp;
        req_serde = req_serde;
        resp_serde = resp_serde;
        handler = handler;
      },
      cell,
    )

  -- `spawn_service`, with its pool.
  unfoldable pub spawn_service : ℕ → Connection World → Connection World
  spawn_service cell conn = record conn {
    services = record { ring = cell; pool = new_pool conn.service_workers } ∷ conn.services;
  }

  -- Once the request was pushed, or not.
  unfoldable pub sent : Str → Option Str → CallFuture a.Schema → Bool → Call b (CallFuture a.Schema)
  sent fn_name key fut true = pure fut
  sent fn_name key fut false = do
    waits b (drop_pending fut.corr)
    forget_callee b fn_name key
    raise (other (bytes "function request ring full"))

  -- A call from its registration on, with its arguments encoded.
  unfoldable pub place :
      Str → Option Str → Callee → ℕ → List ℕ → a.Schema → ℕ → ℤ → Call b (CallFuture a.Schema)
  place fn_name key callee arg_fp args resp_schema expected_resp_fp rpc_corr = do
    slot ← register_slot b a c rpc_corr
    t ← gets (λ s. s.transport)
    req_frame ← lift (to_frame a c rpc_request (request_of t rpc_corr arg_fp args))
    pushed ← push_on b a c callee.ring (Frame.encode req_frame)
    sent fn_name key
        (record {
          slot = slot;
          resp_schema = resp_schema;
          expected_resp_fp = expected_resp_fp;
          corr = rpc_corr;
        })
        pushed

  unfoldable pub call :
      {Req : Type 0}
      → Str
      → Option Str
      → Serde a.Schema Req
      → Req
      → Str
      → Str
      → Call b (CallFuture a.Schema)
  call fn_name key serde req req_json resp_json = do
    (req_schema, arg_fp) ← lift (parse a req_json)
    (resp_schema, expected_resp_fp) ← lift (parse a resp_json)
    callee ← matching_callee b a c fn_name key arg_fp expected_resp_fp
    args ← lift (serde.encode req_schema req)
    rpc_corr ← next_corr b
    place fn_name key callee arg_fp args resp_schema expected_resp_fp rpc_corr

  -- The future is dropped at the end, and its slot with it.
  unfoldable pub await :
      {Resp : Type 0} → ℕ → Serde a.Schema Resp → CallFuture a.Schema → Call b Resp
  await waker serde fut s =
      let (wakes, world) = b.wakes s.world in
      let (frame, waiting) = poll_until a c fut.slot waker wakes s.waiting in
      (
        awaited a c serde fut frame,
        record s { waiting = drop_pending fut.corr waiting; world = world },
      )

  module _ {Req Resp : Type 0} (waker : ℕ) (req_serde : Serde a.Schema Req)
      (resp_serde : Serde a.Schema Resp) where
    unfoldable pub attempt : Str → Option Str → Req → Str → Str → Call b Resp
    attempt fn_name key req req_json resp_json = do
      fut ← call fn_name key req_serde req req_json resp_json
      await waker resp_serde fut

    -- A silent callee is resolved and called once more.
    abbrev retried :
        Str → Option Str → Call b Resp → Result Resp × Inner World → Result Resp × Inner World
    retried fn_name key again (ok v, s) = (ok v, s)
    retried fn_name key again (err e, s) =
        if is_timed_out e then (forget_callee b fn_name key >> again) s else (err e, s)

    unfoldable pub call_blocking : Str → Option Str → Req → Str → Str → Call b Resp
    call_blocking fn_name key req req_json resp_json =
        let once = attempt fn_name key req req_json resp_json in
        with_reconnect b a c (λ s. retried fn_name key once (once s))

  -- `Drop` of a connection; the threads are joined.
  unfoldable pub drop_connection : Connection World → Connection World
  drop_connection conn =
      let inner = send_unregister b a c conn.inner in
      record conn { inner = record inner { running = false }; services = [] }
