-- ===== src/Connector/Service/Answers.antt =====
-- What a service answers (`handle_one` and the worker round it).
use impulse_ring.Prelude.{
  ℕ, ◌≡◌, ◌≢◌, refl, List, Option, none, some, nat_eq, ◌==◌, Result, ok, err, Error, if◌then◌else◌,
  arith, Bool-cases, inl, inr,
}
use impulse_ring.Proto.{
  RpcRequest, RpcResponse, status_ok, err_internal, err_schema_mismatch, i64_to_fp, fp_to_i64,
}
use impulse_ring.Connector.Service.{
  Exposed, handle_one, respond, err_response, decoded, handled, encoded, caught,
}

module _ {Schema Req Resp : Type 0} (f : Exposed Schema Req Resp) (req : RpcRequest) where
  -- The ways in which a request goes.
  pub data Goes (r : RpcResponse) : Type 0 where
    mismatched : i64_to_fp req.arg_fp ≢ f.req_fp → r.status ≡ err_schema_mismatch → Goes r
    undecoded :
        (e : Error)
        → i64_to_fp req.arg_fp ≡ f.req_fp
        → f.req_serde.decode f.req_schema req.args ≡ err e
        → r.status ≡ err_internal
        → Goes r
    panicked :
        (args : Req)
        → i64_to_fp req.arg_fp ≡ f.req_fp
        → f.req_serde.decode f.req_schema req.args ≡ ok args
        → f.handler args ≡ none
        → r.status ≡ err_internal
        → Goes r
    unencoded :
        (args : Req) (value : Resp) (e : Error)
        → i64_to_fp req.arg_fp ≡ f.req_fp
        → f.req_serde.decode f.req_schema req.args ≡ ok args
        → f.handler args ≡ some value
        → f.resp_serde.encode f.resp_schema value ≡ err e
        → r.status ≡ err_internal
        → Goes r
    succeeded :
        (args : Req) (value : Resp) (body : List ℕ)
        → i64_to_fp req.arg_fp ≡ f.req_fp
        → f.req_serde.decode f.req_schema req.args ≡ ok args
        → f.handler args ≡ some value
        → f.resp_serde.encode f.resp_schema value ≡ ok body
        → r.status ≡ status_ok
        → r.result ≡ body
        → r.result_fp ≡ fp_to_i64 f.resp_fp
        → Goes r

  encoded-Goes :
      (args : Req) (value : Resp)
      → i64_to_fp req.arg_fp ≡ f.req_fp
      → f.req_serde.decode f.req_schema req.args ≡ ok args
      → f.handler args ≡ some value
      → (r : Result (List ℕ)) → f.resp_serde.encode f.resp_schema value ≡ r
      → Goes (encoded f req r)
  unfolding err_response
  encoded-Goes args value fp d h (ok body) e = succeeded args value body fp d h e refl refl refl
  encoded-Goes args value fp d h (err x) e = unencoded args value x fp d h e refl

  handled-Goes :
      (args : Req)
      → i64_to_fp req.arg_fp ≡ f.req_fp
      → f.req_serde.decode f.req_schema req.args ≡ ok args
      → (o : Option Resp) → f.handler args ≡ o
      → Goes (caught f req (handled f req o))
  unfolding err_response
  handled-Goes args fp d none h = panicked args fp d h refl
  handled-Goes args fp d (some value) h = encoded-Goes args value fp d h _ refl

  decoded-Goes :
      i64_to_fp req.arg_fp ≡ f.req_fp
      → (r : Result Req) → f.req_serde.decode f.req_schema req.args ≡ r
      → Goes (caught f req (decoded f req r))
  unfolding err_response
  decoded-Goes fp (ok args) d = handled-Goes args fp d _ refl
  decoded-Goes fp (err e) d = undecoded e fp d refl

  respond-way : Goes (respond f req)
  unfolding respond handle_one err_response
  respond-way = elim (Bool-cases (i64_to_fp req.arg_fp == f.req_fp)) [
    | inl same ↦ rw (same, if◌then◌else◌) (decoded-Goes ((nat_eq.equals_iff _ _).0 same) _ refl)
    | inr differ ↦
        rw (differ, if◌then◌else◌)
          (mismatched (λ e. ground (arith, nat_eq.equals_iff (i64_to_fp req.arg_fp) f.req_fp)) refl)
  ]

  respond-correlation_id : (respond f req).correlation_id ≡ req.correlation_id
  unfolding respond handle_one err_response
  respond-correlation_id = ground arith

  -- Every request is answered under its own correlation id: with the handler's encoded result and
  -- the status OK exactly when the argument schema matches, the arguments decode, the handler
  -- returns and its result encodes; a schema mismatch has a status of its own and reaches no
  -- handler; a decoding or encoding error and a panic are an internal error.
  pub respond-Goes : ((respond f req).correlation_id ≡ req.correlation_id) × Goes (respond f req)
  respond-Goes = (respond-correlation_id, respond-way)
