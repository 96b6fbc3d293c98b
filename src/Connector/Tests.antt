-- ===== src/Connector/Tests.antt =====
-- A connection on a toy bus: pushes succeed, and each sleep ends with one reply.
use impulse_ring.Prelude.{
  ℕ, zero, suc, ◌≡◌, refl, sym, ap, ◌∙◌, true, List, [], ◌∷◌, none, bytes, pos, get, int_eq, nat_eq,
  str_eq, int_eqb, str_eqb, ok,
}
use impulse_ring.Segment.{zeroed}
use impulse_ring.Control.Tests.{control, control_ring}
use impulse_ring.Ring.{ring_bytes}
use impulse_ring.Frame
use impulse_ring.Frame.{Frame}
use impulse_ring.Proto.{register_reply, RegisterReply}
use impulse_ring.Proto.Catalog.{to_frame, correlation_id}
use impulse_ring.Proto.Catalog.Build.{build-Lists}
use impulse_ring.Proto.Catalog.Routing.{to_frame-Lists}
use impulse_ring.Proto.Catalog.Correlation.{correlation_id-Routed}
use impulse_ring.Proto.Tests.{toy, toy_catalog, toy_parsed, toy-Parses, toy_encode, toy_decode}
use impulse_ring.Connector.Slots.{arrived, begun, ended, timeout, happen_all, nobody}
use impulse_ring.Connector.Slots.Sound.{IsSound, history-IsSound}
use impulse_ring.Connector.Slots.Delivery.{LeaveAlone, first_reply}
use impulse_ring.Connector.Slots.Cleared.{NoneReused}
use impulse_ring.Connector.Session.{Mapped, Transport, Callee, Inner, Bus}
use impulse_ring.Connector.Calls.{call_control, callee, matching_callee, fitting}
use impulse_ring.Connector.Calls.Callees.{matching_callee-fits}
use impulse_ring.Connector.Calls.Replies.{
  Expected, meanwhile, call_control-Matched, call_control-outcome, call_control-clears,
}

abbrev welcome : RegisterReply
welcome = record { correlation_id = pos 5; client_id = pos 3; status = pos 0; message = [] }

abbrev welcome_frame : Frame
welcome_frame = record { flags = 0; schema_fp = 1; body = 5 ∷ 3 ∷ 0 ∷ [] }

welcome-to_frame : to_frame toy toy_catalog register_reply welcome ≡ ok welcome_frame
unfolding toy_encode
welcome-to_frame =
    to_frame-Lists toy toy_catalog welcome
      ((build-Lists toy toy_parsed toy-Parses).2 register_reply)
    ∙ refl

welcome-again :
    (body : List ℕ)
    → toy_encode register_reply 1 welcome ≡ ok body
    → toy_decode register_reply 1 body ≡ ok welcome
unfolding toy_encode toy_decode
welcome-again body e =
    let same : 5 ∷ 3 ∷ 0 ∷ [] ≡ body = cc in ap (toy_decode register_reply 1) (sym same)

welcome-routed : correlation_id toy toy_catalog welcome_frame ≡ ok (pos 5)
welcome-routed =
    correlation_id-Routed toy toy_catalog {s = 1} {f = 1} welcome welcome_frame
      ((build-Lists toy toy_parsed toy-Parses).2 register_reply) welcome-again welcome-to_frame

-- Segment 0 is the control segment, and the others are new.
abbrev pub toy_bus : Bus
toy_bus = record {
  World = Unit {0};
  pid = pos 4243;
  random_u64 = λ w. (5, w);
  open_segment = λ name w. (ok 0, w);
  create_segment = λ name size w. (ok 1, w);
  memory = λ w segment. elim segment [ zero ↦ control | suc n ↦ zeroed (ring_bytes 524288) ];
  update = λ segment memory w. w;
  push = λ ring bytes w. (true, w);
  try_push = λ ring bytes w. (true, w);
  pop = λ ring w. (none, w);
  during_push = λ w. [];
  wakes = λ w. (timeout (arrived (Frame.encode welcome_frame) ∷ []), w);
}

abbrev pub toy_mapped : Mapped
toy_mapped = record { segment = 0; ring = control_ring }

abbrev toy_transport : Transport
toy_transport = record {
  submission = toy_mapped;
  reply_ring = toy_mapped;
  reply_segment = bytes "/reply";
  nonce = 5;
  client_id = pos 3;
  epoch = 16;
}

abbrev adder : Callee
adder = record { req_fp = 15; resp_fp = 16; ring = toy_mapped }

abbrev pub connected : Inner (Unit {0})
connected = record {
  transport = toy_transport;
  waiting = nobody;
  callees = ((bytes "add", []), adder) ∷ [];
  app_name = bytes "app";
  reply_cap = 0;
  running = true;
  auto_reconnect = true;
  registry = [];
  reg_seq = 1;
  cells = [];
  next_cell = 0;
  world = tt;
}

history-IsSound_example :
    IsSound (happen_all toy toy_catalog (begun (pos 5) ∷ arrived [] ∷ ended (pos 5) ∷ []) nobody)
history-IsSound_example =
    history-IsSound toy toy_catalog (begun (pos 5) ∷ arrived [] ∷ ended (pos 5) ∷ [])

pub nobody-IsSound : IsSound nobody
unfolding happen_all
nobody-IsSound = history-IsSound toy toy_catalog []

call_control-outcome_example :
    (call_control toy_bus toy toy_catalog (pos 5) welcome_frame connected).0
    ≡ Expected toy_bus toy toy_catalog true (
        first_reply toy toy_catalog
          (pos 5)
          (meanwhile toy_bus toy toy_catalog welcome_frame connected))
unfolding LeaveAlone
call_control-outcome_example =
    call_control-outcome toy_bus toy toy_catalog (pos 5) welcome_frame connected nobody-IsSound
      (tt, tt)

welcomed :
    (call_control toy_bus toy toy_catalog (pos 5) welcome_frame connected).0 ≡ ok welcome_frame
unfolding first_reply Frame.decode Frame.encode int_eqb
welcomed = call_control-outcome_example ∙ rw (welcome-routed, Expected) refl

call_control-Matched_example : correlation_id toy toy_catalog welcome_frame ≡ ok (pos 5)
call_control-Matched_example =
    call_control-Matched toy_bus toy toy_catalog (pos 5) welcome_frame connected
      {reply = welcome_frame} nobody-IsSound welcomed

call_control-clears_example :
    get
      (pos 5)
      (call_control toy_bus toy toy_catalog (pos 5) welcome_frame connected).1.waiting.pending
    ≡ none
unfolding NoneReused
call_control-clears_example =
    call_control-clears toy_bus toy toy_catalog (pos 5) welcome_frame connected nobody-IsSound
      (tt, tt)

matching_callee-fits_example : (adder.req_fp ≡ 15) × (adder.resp_fp ≡ 16)
unfolding matching_callee callee fitting get str_eqb
matching_callee-fits_example =
    matching_callee-fits toy_bus toy toy_catalog (bytes "add") none 15 16 connected {used = adder}
      refl
