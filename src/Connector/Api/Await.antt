-- ===== src/Connector/Api/Await.antt =====
-- Waiting for the future of a call (`block_on`).
use impulse_ring.Prelude.{
  ℕ, ◌≡◌, refl, sym, ap, ◌∙◌, Bool, true, false, List, ◌++◌, Option, none, some, Str, bytes, ℤ, get,
  int_eq, nat_eq, Result, ok, err, other, arith, get-insert-here, get-remove-here,
}
use impulse_ring.Frame
use impulse_ring.Proto.{rpc_request}
use impulse_ring.Proto.Catalog.{to_frame}
use impulse_ring.Connector.Slots
use impulse_ring.Connector.Calls.{register_slot, push_on, forget_callee}
use impulse_ring.Frame.{Frame}
use impulse_ring.Proto.{Avro}
use impulse_ring.Proto.Catalog.{Catalog}
use impulse_ring.Connector.Slots.{
  Waiting, Wakes, timeout, notified, poll, take_frame, taken_or, drop_pending, Event, begun,
  happen_all,
}
use impulse_ring.Connector.Slots.Sound.{IsSound, poll-IsSound, happen-IsSound}
use impulse_ring.Connector.Slots.Delivery.{
  Open, At, or_else, all_events, first_reply, first_reply-append, LeaveAlone, LeaveAlone-append,
  happen_all-At,
}
use impulse_ring.Connector.Session.{Inner, Bus, Callee, ◌>>=◌, lift, bind-ok}
use impulse_ring.Connector.Serde.{Serde}
use impulse_ring.Connector.Api.{CallFuture, poll_until, await, awaited, place, sent, request_of}

module _ (a : Avro) (c : Catalog a.Schema) (corr : ℤ) (slot waker : ℕ) where
  poll-Open : {w : Waiting} → Open a c corr slot w → Open a c corr slot (poll slot waker w).1
  unfolding poll take_frame
  poll-Open {w} v = record {
    sound = poll-IsSound slot waker v.sound;
    listed = ground (arith, v.listed);
  }

  poll-frame : (o : Option Frame) (w : Waiting) → At a c corr slot o w → (poll slot waker w).0 ≡ o
  unfolding poll take_frame
  poll-frame none w v = ground (arith, v.sound.unanswered corr slot v.listed)
  poll-frame (some frame) w v = ground (arith, v.held)

  poll-held :
      (w : Waiting) {frame : Frame}
      → (w.slots slot).frame ≡ some frame
      → (poll slot waker w).0 ≡ some frame
  unfolding poll take_frame
  poll-held w h = ground arith

  taken_or-held :
      (first later : Option Frame × Waiting) {frame : Frame}
      → first.0 ≡ some frame
      → (taken_or a c first later).0 ≡ some frame
  taken_or-held (some f, w) later h = h
  taken_or-held (none, w) later h = cc

  poll_until-held :
      (wakes : Wakes) (w : Waiting) {frame : Frame}
      → (w.slots slot).frame ≡ some frame
      → (poll_until a c slot waker wakes w).0 ≡ some frame
  unfolding poll_until
  poll_until-held (timeout events) w h = taken_or-held (poll slot waker w) _ (poll-held w h)
  poll_until-held (notified events wakes) w h = taken_or-held (poll slot waker w) _ (poll-held w h)

  poll_until-At :
      (o : Option Frame) (wakes : Wakes) (w : Waiting)
      → At a c corr slot o w
      → (Open a c corr slot w
          → (poll_until a c slot waker wakes w).0 ≡ first_reply a c corr (all_events wakes))
      → (poll_until a c slot waker wakes w).0 ≡ or_else o (first_reply a c corr (all_events wakes))
  poll_until-At none wakes w v open_case = open_case v
  poll_until-At (some frame) wakes w v open_case = poll_until-held wakes w v.held

  poll_until-Open :
      (wakes : Wakes) (w : Waiting)
      → LeaveAlone a c corr slot (all_events wakes)
      → Open a c corr slot w
      → (poll_until a c slot waker wakes w).0 ≡ first_reply a c corr (all_events wakes)
  unfolding poll_until
  poll_until-Open (timeout events) w l v =
      let later = happen_all-At a c corr slot none events _ l (poll-Open v) in
      rw (poll-frame none w v, poll_until) (poll-frame (first_reply a c corr events) _ later)
  poll_until-Open (notified events wakes) w l v =
      let (now, then_) = LeaveAlone-append a c corr slot events (all_events wakes) l in
      let later = happen_all-At a c corr slot none events _ now (poll-Open v) in
      rw
        (
          poll-frame none w v,
          poll_until,
          first_reply-append a c corr slot events (all_events wakes),
        )
        (poll_until-At (first_reply a c corr events) wakes _ later (poll_until-Open wakes _ then_))

module _ (b : Bus) (a : Avro) (c : Catalog a.Schema) {Resp : Type 0} (waker : ℕ)
    (serde : Serde a.Schema Resp) where
  -- Waiting, from a table in which the call is unanswered or answered already.
  await-At :
      (fut : CallFuture a.Schema) (s : Inner b.World) (early : Option Frame)
      → At a c fut.corr fut.slot early s.waiting
      → LeaveAlone a c fut.corr fut.slot (all_events (b.wakes s.world).0)
      → (await b a c waker serde fut s).0
        ≡ awaited a c serde fut
            (or_else early (first_reply a c fut.corr (all_events (b.wakes s.world).0)))
  unfolding await
  await-At fut s early v l = ap (awaited a c serde fut) (
      poll_until-At a c fut.corr fut.slot waker early (b.wakes s.world).0 s.waiting v
        (poll_until-Open a c fut.corr fut.slot waker (b.wakes s.world).0 s.waiting l))

  await-clears :
      (fut : CallFuture a.Schema) (s : Inner b.World)
      → get fut.corr (await b a c waker serde fut s).1.waiting.pending ≡ none
  unfolding await drop_pending
  await-clears fut s = get-remove-here fut.corr _

  module _ (fn_name : Str) (key : Option Str) (callee : Callee) (arg_fp : ℕ) (args : List ℕ)
      (resp_schema : a.Schema) (expected_resp_fp : ℕ) (corr : ℤ) where
    abbrev pub future : Inner b.World → CallFuture a.Schema
    future s = record {
      slot = s.waiting.next_slot;
      resp_schema = resp_schema;
      expected_resp_fp = expected_resp_fp;
      corr = corr;
    }

    -- A call from its registration to the end of the wait for it.
    abbrev pub placed_and_awaited : Inner b.World → Result Resp × Inner b.World
    placed_and_awaited s =
        (place b a c fn_name key callee arg_fp args resp_schema expected_resp_fp corr
            >>= await b a c waker serde)
          s

    -- The push of the request, and what other threads do from the registration on.
    abbrev pub request_push : Frame → Inner b.World → Bool × b.World
    request_push frame s = b.push callee.ring (Frame.encode frame) s.world

    abbrev pub since : Frame → Inner b.World → List Event
    since frame s = b.during_push s.world ++ all_events (b.wakes (request_push frame s).1).0

    abbrev pub Ends : Bool → Result Resp → Result Resp
    Ends true result = result
    Ends false result = err (other (bytes "function request ring full"))

    sent-await :
        (fut : CallFuture a.Schema) (done : Bool) (s : Inner b.World)
        → let out = (sent b a c fn_name key fut done >>= await b a c waker serde) s in
          (out.0 ≡ Ends done (await b a c waker serde fut s).0)
          × (get fut.corr out.1.waiting.pending ≡ none)
    unfolding sent forget_callee drop_pending
    sent-await fut true s = (refl, await-clears fut s)
    sent-await fut false s = (refl, get-remove-here fut.corr s.waiting.pending)

    -- What a placed call leaves, the reply apart.
    abbrev pushed_on : Frame → Inner b.World → Inner b.World
    pushed_on frame s = record s {
      waiting = happen_all a c (b.during_push s.world) (Slots.register corr s.waiting).1;
      world = (request_push frame s).1;
    }

    place-framed :
        (frame : Frame) (s : Inner b.World)
        → to_frame a c rpc_request (request_of s.transport corr arg_fp args) ≡ ok frame
        → place b a c fn_name key callee arg_fp args resp_schema expected_resp_fp corr s
          ≡ sent b a c fn_name key (future s) (request_push frame s).0 (pushed_on frame s)
    unfolding place register_slot push_on Slots.register
    place-framed frame s framed =
        bind-ok (lift (to_frame a c rpc_request (request_of s.transport corr arg_fp args)))
          (λ req_frame.
            push_on b a c callee.ring (Frame.encode req_frame)
            >>= sent b a c fn_name key (future s))
          (record s { waiting = (Slots.register corr s.waiting).1 }) framed

    placed_and_awaited-framed :
        (frame : Frame) (s : Inner b.World)
        → to_frame a c rpc_request (request_of s.transport corr arg_fp args) ≡ ok frame
        → placed_and_awaited s
          ≡ (sent b a c fn_name key (future s) (request_push frame s).0 >>= await b a c waker serde)
              (pushed_on frame s)
    placed_and_awaited-framed frame s framed =
        ap
          (λ (p : Result (CallFuture a.Schema) × Inner b.World). elim p.0 [
            | ok fut ↦ await b a c waker serde fut p.1
            | err e ↦ (err e, p.1)
          ])
          (place-framed frame s framed)

    -- A call that other threads leave alone, on a sound pending table and with a request that can
    -- be framed, ends with what the first reply of its id decodes to that arrives after the call
    -- was registered and before the deadline, be it while the request is still being pushed; with a
    -- timeout when there is none; and with the error of a full ring exactly when the push failed.
    -- However it ends, its id is out of the table.
    pub place-await :
        (frame : Frame) (s : Inner b.World)
        → IsSound s.waiting
        → to_frame a c rpc_request (request_of s.transport corr arg_fp args) ≡ ok frame
        → LeaveAlone a c corr s.waiting.next_slot (since frame s)
        → ((placed_and_awaited s).0
            ≡ Ends
                (request_push frame s).0
                (awaited a c serde (future s) (first_reply a c corr (since frame s))))
          × (get corr (placed_and_awaited s).1.waiting.pending ≡ none)
    unfolding Slots.register Slots.happen
    place-await frame s v framed l =
        let events = b.during_push s.world in
        let wakes = (b.wakes (request_push frame s).1).0 in
        let slot = s.waiting.next_slot in
        let (now, then_) = LeaveAlone-append a c corr slot events (all_events wakes) l in
        let opened : Open a c corr slot (Slots.register corr s.waiting).1 = record {
          sound = happen-IsSound a c (begun corr) v;
          listed = get-insert-here corr slot s.waiting.pending;
        } in
        let later = happen_all-At a c corr slot none events _ now opened in
        let whole = first_reply-append a c corr slot events (all_events wakes) in
        let ends = sent-await (future s) (request_push frame s).0 (pushed_on frame s) in
        let waited =
          await-At (future s) (pushed_on frame s) (first_reply a c corr events) later then_ in
        rw (placed_and_awaited-framed frame s framed) (
          ends.0
              ∙ ap (Ends (request_push frame s).0)
                  (waited ∙ ap (awaited a c serde (future s)) (sym whole)),
          ends.1,
        )
