-- ===== src/Connector/Api/Tests.antt =====
-- A function that adds one, called over the toy bus, and a channel.
use mathlib.Core.Path.{subst}
use impulse_ring.Prelude.{
  ℕ, ◌+◌, ◌≡◌, refl, sym, ap, ◌∙◌, [], ◌∷◌, none, some, bytes, pos, get, int_eq, nat_eq, Result, ok,
  err, panic, arith,
}
use impulse_ring.Frame
use impulse_ring.Frame.{Frame}
use impulse_ring.Proto.{rpc_request, rpc_response, RpcRequest, RpcResponse, status_ok}
use impulse_ring.Proto.Catalog.{correlation_id, to_frame}
use impulse_ring.Proto.Catalog.Build.{build-Lists}
use impulse_ring.Proto.Catalog.Routing.{to_frame-Lists}
use impulse_ring.Proto.Tests.{toy, toy_catalog, toy_parsed, toy-Parses, toy_encode, toy_decode}
use impulse_ring.Connector.Tests.{toy_bus, toy_mapped, connected, nobody-IsSound}
use impulse_ring.Connector.Slots.{arrived, timeout}
use impulse_ring.Connector.Slots.Delivery.{LeaveAlone, first_reply}
use impulse_ring.Connector.Session.{Inner, Bus, Callee}
use impulse_ring.Connector.Serde.{Serde}
use impulse_ring.Connector.Service.{Exposed, handle_one, respond, read_request}
use impulse_ring.Connector.Service.Answers.{Goes, respond-Goes}
use impulse_ring.Connector.Pool.{Pool, new_pool, push_back, count, begins, steps, pushes, counts}
use impulse_ring.Connector.Pool.Invariant.{PoolInvariant, PoolReachable-PoolInvariant}
use impulse_ring.Connector.Pool.Stuck.{Stuck}
use impulse_ring.Connector.Channels.{Publisher, Subscriber, publish, recv}
use impulse_ring.Connector.Channels.Messages.{publish-recv}
use impulse_ring.Connector.Api.{CallFuture, decode_response, awaited, request_of}
use impulse_ring.Connector.Api.Await.{placed_and_awaited, place-await}
use impulse_ring.Connector.Api.Roundtrip.{Framed, Agree, call-value}

-- A number as one byte.
abbrev number : Serde ℕ ℕ
number = record {
  encode = λ schema n. ok (n ∷ []);
  decode = λ schema bytes. elim bytes [ n ∷ rest ↦ ok n | [] ↦ err panic ];
}

abbrev add_one : Exposed ℕ ℕ ℕ
add_one = record {
  req_schema = 20;
  resp_schema = 21;
  req_fp = 20;
  resp_fp = 21;
  req_serde = number;
  resp_serde = number;
  handler = λ n. some (n + 1);
}

abbrev question : RpcRequest
question = record {
  correlation_id = pos 5;
  caller_id = pos 3;
  reply_segment = [];
  arg_fp = pos 20;
  args = 7 ∷ [];
}

abbrev reply : RpcResponse
reply = record {
  correlation_id = pos 5;
  status = status_ok;
  message = [];
  result_fp = pos 21;
  result = 8 ∷ [];
}

abbrev pending_call : CallFuture ℕ
pending_call = record { slot = 0; resp_schema = 21; expected_resp_fp = 21; corr = pos 5 }

abbrev question_frame : Frame
question_frame = record { flags = 0; schema_fp = 15; body = 5 ∷ 3 ∷ 20 ∷ 7 ∷ [] }

abbrev reply_frame : Frame
reply_frame = record { flags = 0; schema_fp = 16; body = 5 ∷ 0 ∷ 21 ∷ 8 ∷ [] }

respond-Goes_example :
    ((respond add_one question).correlation_id ≡ pos 5)
    × Goes add_one question (respond add_one question)
respond-Goes_example = respond-Goes add_one question

question-Framed : Framed toy toy_catalog rpc_request question question_frame
unfolding toy_encode toy_decode
question-Framed = record {
  schema = 15;
  fp = 15;
  lists = (build-Lists toy toy_parsed toy-Parses).2 rpc_request;
  law = λ body e.
      let same : 5 ∷ 3 ∷ 20 ∷ 7 ∷ [] ≡ body = cc in ap (toy_decode rpc_request 15) (sym same);
  framed =
      to_frame-Lists toy toy_catalog question
        ((build-Lists toy toy_parsed toy-Parses).2 rpc_request)
      ∙ refl;
  fits = record { flags_lt = omega arith; fp_lt = omega arith; body_lt = omega arith };
}

respond-reply : respond add_one question ≡ reply
unfolding respond handle_one
respond-reply = refl

reply-Framed : Framed toy toy_catalog rpc_response reply reply_frame
unfolding toy_encode toy_decode
reply-Framed = record {
  schema = 16;
  fp = 16;
  lists = (build-Lists toy toy_parsed toy-Parses).2 rpc_response;
  law = λ body e.
      let same : 5 ∷ 0 ∷ 21 ∷ 8 ∷ [] ≡ body = cc in ap (toy_decode rpc_response 16) (sym same);
  framed =
      to_frame-Lists toy toy_catalog reply ((build-Lists toy toy_parsed toy-Parses).2 rpc_response)
      ∙ refl;
  fits = record { flags_lt = omega arith; fp_lt = omega arith; body_lt = omega arith };
}

answer-Framed : Framed toy toy_catalog rpc_response (respond add_one question) reply_frame
answer-Framed =
    subst (λ r. Framed toy toy_catalog rpc_response r reply_frame) (sym respond-reply) reply-Framed

add_one-Agree : Agree add_one number pending_call question 8
add_one-Agree = record {
  args = 7;
  body = 8 ∷ [];
  same_req = refl;
  same_resp = refl;
  fp_lt = omega arith;
  given = refl;
  handled = refl;
  encoded = refl;
  again = refl;
}

call-value_example :
    (read_request toy toy_catalog (Frame.encode question_frame) ≡ some question)
    × (Frame.decode (Frame.encode reply_frame) ≡ ok reply_frame)
    × (correlation_id toy toy_catalog reply_frame ≡ ok (pos 5))
    × (decode_response toy toy_catalog number pending_call reply_frame ≡ ok 8)
call-value_example =
    call-value toy toy_catalog add_one number pending_call question 8 {request = question_frame}
      {response = reply_frame} question-Framed answer-Framed add_one-Agree

-- A bus on which the answer comes while the request is still being pushed.
abbrev early_bus : Bus
early_bus = record toy_bus {
  during_push = λ w. arrived (Frame.encode reply_frame) ∷ [];
  wakes = λ w. (timeout [], w);
}

abbrev callee : Callee
callee = record { req_fp = 20; resp_fp = 21; ring = toy_mapped }

asked :
    to_frame toy toy_catalog rpc_request (request_of connected.transport (pos 5) 20 (7 ∷ []))
    ≡ ok question_frame
unfolding toy_encode
asked =
    to_frame-Lists toy toy_catalog (request_of connected.transport (pos 5) 20 (7 ∷ []))
      ((build-Lists toy toy_parsed toy-Parses).2 rpc_request)
    ∙ refl

abbrev ended : Result ℕ × Inner (Unit {0})
ended =
    placed_and_awaited early_bus toy toy_catalog 1 number (bytes "add") none callee 20 (7 ∷ []) 21
      21 (pos 5) connected

place-await_example :
    (ended.0
      ≡ awaited toy toy_catalog number pending_call
          (first_reply toy toy_catalog (pos 5) (arrived (Frame.encode reply_frame) ∷ [])))
    × (get (pos 5) ended.1.waiting.pending ≡ none)
unfolding LeaveAlone
place-await_example =
    place-await early_bus toy toy_catalog 1 number (bytes "add") none callee 20 (7 ∷ []) 21 21
      (pos 5) question_frame connected nobody-IsSound asked (tt, tt)

abbrev busy : Pool
busy = count (push_back question (new_pool 2))

PoolReachable-PoolInvariant_example : PoolInvariant busy
unfolding new_pool push_back
PoolReachable-PoolInvariant_example =
    PoolReachable-PoolInvariant 2 (steps (steps begins (pushes question refl)) (counts refl))

abbrev publisher : Publisher ℕ
publisher = record { ring = 0; schema = 20; schema_fp = 20; channel = bytes "news"; reg_id = 1 }

abbrev subscriber : Subscriber ℕ
subscriber = record { ring = 0; schema = 20; schema_fp = 20 }

abbrev celled : Inner (Unit {0})
celled = record connected { cells = (0, toy_mapped) ∷ [] }

-- A bus on which the message 7 is there to be popped.
abbrev news_bus : Bus
news_bus = record toy_bus { pop = λ ring w. (some (Frame.encode (Frame.new 20 (7 ∷ []))), w) }

publish-recv_example :
    ((publish news_bus toy toy_catalog number publisher 7 celled).1.world ≡ tt)
    × ((recv news_bus toy number subscriber celled).0 ≡ ok (some 7))
unfolding get
publish-recv_example =
    publish-recv toy number news_bus toy_catalog publisher subscriber 7 (7 ∷ []) celled celled
      {ring = toy_mapped} {popped = toy_mapped} {w = tt} refl refl refl
      (record { flags_lt = omega arith; fp_lt = omega arith; body_lt = omega arith }) refl refl refl
