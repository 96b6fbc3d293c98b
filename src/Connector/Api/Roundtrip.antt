-- ===== src/Connector/Api/Roundtrip.antt =====
-- A call of a function, from the caller's arguments to the value that it gets.
use mathlib.Core.List.{append-nil}
use impulse_ring.Prelude.{
  ℕ, ◌<◌, ◌^◌, ◌≡◌, sym, ap, ◌∙◌, List, [], none, some, pos, nat_eq, int_eq, Result, ok, err, arith,
}
use impulse_ring.Frame
use impulse_ring.Frame.{Frame}
use impulse_ring.Frame.Roundtrip.{IsFrame, decode-encode}
use impulse_ring.Proto.{
  Kind, Message, Avro, rpc_request, rpc_response, RpcRequest, RpcResponse, status_ok, i64_to_fp,
  fp_to_i64,
}
use impulse_ring.Proto.Catalog.{Catalog, to_frame, from_frame, correlation_id}
use impulse_ring.Proto.Catalog.Routing.{Lists, to_frame-from_frame, i64_to_fp-fp_to_i64}
use impulse_ring.Proto.Catalog.Correlation.{correlation_id-Routed}
use impulse_ring.Connector.Serde.{Serde}
use impulse_ring.Connector.Service.{Exposed, respond, handle_one, read_request, request_in}
use impulse_ring.Connector.Service.Answers.{respond-Goes}
use impulse_ring.Connector.Api.{CallFuture, decode_response, result_of}

-- What a message is framed as, and that its codec reads it back.
pub record Framed (a : Avro) (c : Catalog a.Schema) (k : Kind) (msg : Message k) (frame : Frame)
    : Type 0 where
  pub schema : a.Schema
  pub fp : ℕ
  pub lists : Lists a c k schema fp
  pub law : (body : List ℕ) → a.encode k schema msg ≡ ok body → a.decode k schema body ≡ ok msg
  pub framed : to_frame a c k msg ≡ ok frame
  pub fits : IsFrame frame

decode_whole : (frame : Frame) → IsFrame frame → Frame.decode (Frame.encode frame) ≡ ok frame
decode_whole frame v =
    ap Frame.decode (sym (append-nil (Frame.encode frame))) ∙ decode-encode frame [] v

-- The caller and the callee agree on the function's types, and the handler returns a value that
-- encodes and decodes.
pub record Agree {Schema Req Resp : Type 0} (f : Exposed Schema Req Resp)
    (serde : Serde Schema Resp) (fut : CallFuture Schema) (req : RpcRequest) (value : Resp)
    : Type 0 where
  pub args : Req
  pub body : List ℕ
  pub same_req : i64_to_fp req.arg_fp ≡ f.req_fp
  pub same_resp : fut.expected_resp_fp ≡ f.resp_fp
  pub fp_lt : f.resp_fp < 2 ^ 64
  pub given : f.req_serde.decode f.req_schema req.args ≡ ok args
  pub handled : f.handler args ≡ some value
  pub encoded : f.resp_serde.encode f.resp_schema value ≡ ok body
  pub again : serde.decode fut.resp_schema body ≡ ok value

respond-Agree :
    {Schema Req Resp : Type 0} (f : Exposed Schema Req Resp) (serde : Serde Schema Resp)
    (fut : CallFuture Schema) (req : RpcRequest) (value : Resp) (v : Agree f serde fut req value)
    → respond f req ≡ record {
      correlation_id = req.correlation_id;
      status = status_ok;
      message = [];
      result_fp = fp_to_i64 f.resp_fp;
      result = v.body;
    }
unfolding respond handle_one
respond-Agree f serde fut req value v = ground (arith, v.same_req, v.given, v.handled, v.encoded)

module _ (a : Avro) (c : Catalog a.Schema) where
  Framed-from_frame :
      {k : Kind} {msg : Message k} {frame : Frame}
      → Framed a c k msg frame
      → from_frame a c k frame ≡ ok msg
  Framed-from_frame {k} {msg} {frame} v =
      (to_frame-from_frame a c msg frame v.lists v.law v.framed).1

  read_request-Framed :
      {req : RpcRequest} {frame : Frame}
      → Framed a c rpc_request req frame
      → read_request a c (Frame.encode frame) ≡ some req
  unfolding read_request
  read_request-Framed {req} {frame} v =
      ap (request_in a c) (decode_whole frame v.fits)
      ∙ ap (λ (r : Result RpcRequest). elim r [ ok m ↦ some m | err e ↦ none ])
          (Framed-from_frame v)

  module _ {Req Resp : Type 0} (f : Exposed a.Schema Req Resp) (serde : Serde a.Schema Resp)
      (fut : CallFuture a.Schema) (req : RpcRequest) (value : Resp) where
    decode_response-Framed :
        {frame : Frame}
        → Framed a c rpc_response (respond f req) frame
        → Agree f serde fut req value
        → decode_response a c serde fut frame ≡ ok value
    unfolding decode_response
    decode_response-Framed {frame} v agree =
        ap (λ (r : Result RpcResponse). elim r [ ok m ↦ result_of a c serde fut m | err e ↦ err e ])
          (Framed-from_frame v)
        ∙ ap (result_of a c serde fut) (respond-Agree f serde fut req value agree)
        ∙ ground (
          arith,
          int_eq.equals_iff (pos 0) (pos 0),
          i64_to_fp-fp_to_i64.0 f.resp_fp agree.fp_lt,
          agree.same_resp,
          agree.again,
        )

    -- The bytes of a request's frame are read as that request by the callee; the bytes of the
    -- answer's frame are read as that frame by the caller, are routed to the call that asked, and
    -- give it the handler's value: if both frames are listed by the catalog and fit the wire, the
    -- codec reads back both messages, and both ends agree on the function.
    pub call-value :
        {request response : Frame}
        → Framed a c rpc_request req request
        → Framed a c rpc_response (respond f req) response
        → Agree f serde fut req value
        → (read_request a c (Frame.encode request) ≡ some req)
          × (Frame.decode (Frame.encode response) ≡ ok response)
          × (correlation_id a c response ≡ ok req.correlation_id)
          × (decode_response a c serde fut response ≡ ok value)
    call-value {request} {response} asked answered agree = (
      read_request-Framed asked,
      decode_whole response answered.fits,
      correlation_id-Routed a c (respond f req) response answered.lists answered.law answered.framed
          ∙ ap ok (respond-Goes f req).0,
      decode_response-Framed answered agree,
    )
