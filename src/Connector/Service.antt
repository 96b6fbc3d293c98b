-- ===== src/Connector/Service.antt =====
-- Answering the calls of an exposed function (crates/connector/src/rpc.rs, the worker pool apart).
pub mod Answers
use impulse_ring.Prelude.{
  ℕ, Bool, true, false, not, List, [], ◌∷◌, ◌++◌, Option, none, some, Str, bytes, ℤ, pos, Map, get,
  insert, nat_eq, str_eq, ◌==◌, if◌then◌else◌, Result, ok, err, Error, other, display, contains_key,
  is_some,
}
use impulse_ring.Frame
use impulse_ring.Frame.{Frame, decode}
use impulse_ring.Proto.{
  Kind, rpc_request, rpc_response, Message, Avro, RpcRequest, RpcResponse, status_ok,
  err_schema_mismatch, err_internal, fp_to_i64, i64_to_fp,
}
use impulse_ring.Proto.Catalog.{Catalog, to_frame, from_frame}
use impulse_ring.Connector.Session.{
  Mapped, Bus, Action, ◌>>=◌, ◌>>◌, pure, raise, lift, gets, modify,
}
use impulse_ring.Connector.Calls.{open_ring}
use impulse_ring.Connector.Serde.{Serde}

abbrev pub default_service_workers : ℕ
default_service_workers = 64

unfoldable pub err_response : ℤ → ℤ → Str → RpcResponse
err_response correlation_id code msg = record {
  correlation_id = correlation_id;
  status = code;
  message = msg;
  result_fp = pos 0;
  result = [];
}

-- A function as its owner exposed it. `handler` gives `none` when it panics.
pub record Exposed (Schema Req Resp : Type 0) : Type 0 where
  pub req_schema : Schema
  pub resp_schema : Schema
  pub req_fp : ℕ
  pub resp_fp : ℕ
  pub req_serde : Serde Schema Req
  pub resp_serde : Serde Schema Resp
  pub handler : Req → Option Resp

module _ {Schema Req Resp : Type 0} (f : Exposed Schema Req Resp) where
  open f use {req_schema, resp_schema, req_fp, resp_fp, req_serde, resp_serde, handler}

  abbrev encoded : RpcRequest → Result (List ℕ) → RpcResponse
  encoded req (ok body) = record {
    correlation_id = req.correlation_id;
    status = status_ok;
    message = [];
    result_fp = fp_to_i64 resp_fp;
    result = body;
  }
  encoded req (err e) =
      err_response req.correlation_id err_internal (bytes "encode failed: " ++ display e)

  -- `none`: the handler panics.
  abbrev handled : RpcRequest → Option Resp → Option RpcResponse
  handled req none = none
  handled req (some result) = some (encoded req (resp_serde.encode resp_schema result))

  abbrev decoded : RpcRequest → Result Req → Option RpcResponse
  decoded req (ok args) = handled req (handler args)
  decoded req (err e) =
      some (err_response req.correlation_id err_internal (bytes "bad args: " ++ display e))

  unfoldable pub handle_one : RpcRequest → Option RpcResponse
  unfolding err_response
  handle_one req =
      if not (i64_to_fp req.arg_fp == req_fp)
      then some
          (err_response req.correlation_id err_schema_mismatch (bytes "request schema mismatch"))
      else decoded req (req_serde.decode req_schema req.args)

  abbrev caught : RpcRequest → Option RpcResponse → RpcResponse
  caught req (some response) = response
  caught req none = err_response req.correlation_id err_internal (bytes "handler panicked")

  -- What a worker answers: `catch_unwind` round `handle_one`.
  unfoldable pub respond : RpcRequest → RpcResponse
  unfolding handle_one
  respond req = caught req (handle_one req)

-- A worker's own rings of callers, by the segment.
pub record Worker (World : Type 0) : Type 0 where
  pub reply_rings : Map Str Mapped
  pub world : World

module _ (b : Bus) where
  open b use {World}

  abbrev on_worker_world : {A : Type 0} → Action World A → Action (Worker World) A
  on_worker_world m s = let (r, world) = m s.world in (r, record s { world = world })

  abbrev open_reply_ring : Str → Action (Worker World) Mapped
  open_reply_ring reply_segment = do
    ring ← on_worker_world (open_ring b reply_segment)
    modify (λ s. record s { reply_rings = insert reply_segment ring s.reply_rings })
    pure ring

  abbrev cached_ring : Str → Option Mapped → Action (Worker World) Mapped
  cached_ring reply_segment (some ring) = pure ring
  cached_ring reply_segment none = open_reply_ring reply_segment

  abbrev delivered : Bool → Action (Worker World) (Unit {0})
  delivered true = pure tt
  delivered false = raise (other (bytes "caller reply ring full"))

  module _ (a : Avro) (c : Catalog a.Schema) where
    unfoldable pub send_response : Str → RpcResponse → Action (Worker World) (Unit {0})
    send_response reply_segment response = do
      cached ← gets (λ s. get reply_segment s.reply_rings)
      ring ← cached_ring reply_segment cached
      frame ← lift (to_frame a c rpc_response response)
      pushed ← on_worker_world (λ world.
          let (done, world') = b.push ring (Frame.encode frame) world in (ok done, world'))
      delivered pushed

    -- A job from the queue to the end of its response; a response that cannot be delivered is
    -- dropped.
    unfoldable pub serve :
        {Req Resp : Type 0} → Exposed a.Schema Req Resp → RpcRequest → Worker World → Worker World
    serve f req s = (send_response req.reply_segment (respond f req) s).1

module _ (a : Avro) (c : Catalog a.Schema) where
  -- What the reader thread makes of popped bytes: a request for the pool, or nothing.
  abbrev pub request_in : Result Frame → Option RpcRequest
  request_in (err e) = none
  request_in (ok frame) = elim (from_frame a c rpc_request frame) [
    | ok req ↦ some req
    | err e ↦ none
  ]

  unfoldable pub read_request : List ℕ → Option RpcRequest
  read_request bytes = request_in (decode bytes)
