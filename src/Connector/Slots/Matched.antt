-- ===== src/Connector/Slots/Matched.antt =====
-- Which call a reply reaches.
use impulse_ring.Prelude.{
  ℕ, ◌≡◌, ◌<◌, List, [], ◌∷◌, Option, none, some, ℤ, get, int_eq, nat_eq, ok, Result-cases, arith,
  get-insert, get-remove-cases, ◌⊎◌, inl, inr, Option-cases,
}
use impulse_ring.Frame.{Frame, decode}
use impulse_ring.Proto.{Avro}
use impulse_ring.Proto.Catalog.{Catalog, correlation_id}
use impulse_ring.Connector.Slots.{
  Waiting, complete, take_frame, poll, register, drop_pending, clear, deliver, dispatch, Event,
  arrived, begun, ended, polled, taken, cleared, happen, happen_all, nobody, Wakes, timeout,
  notified, wait, taken_or,
}
use impulse_ring.Connector.Slots.Sound.{IsSound, history-IsSound}

module _ (a : Avro) (c : Catalog a.Schema) (corr : ℤ) (slot : ℕ) where
  -- The slot is that of one call: no other id leads to it, and a frame in it is a reply to that
  -- call.
  record Owns (w : Waiting) : Type 0 where
    made : slot < w.next_slot
    only : (k : ℤ) → get k w.pending ≡ some slot → k ≡ corr
    mine : (frame : Frame) → (w.slots slot).frame ≡ some frame → correlation_id a c frame ≡ ok corr

  register-Owns : (k : ℤ) {w : Waiting} → Owns w → Owns (register k w).1
  unfolding register
  register-Owns k {w} v = record {
    made = omega (arith, v.made);
    only = λ j h. ground (arith, get-insert k j w.next_slot w.pending, v.only j, v.made);
    mine = λ frame h. ground (arith, v.mine frame, v.made);
  }

  drop_pending-Owns : (k : ℤ) {w : Waiting} → Owns w → Owns (drop_pending k w)
  unfolding drop_pending
  drop_pending-Owns k {w} v = record {
    made = v.made;
    only = λ j h. v.only j (get-remove-cases w.pending h).1;
    mine = v.mine;
  }

  clear-Owns : {w : Waiting} → Owns w → Owns (clear w)
  unfolding clear get
  clear-Owns v = record { made = v.made; only = λ j h. cc; mine = v.mine }

  take_frame-Owns : (s : ℕ) {w : Waiting} → Owns w → Owns (take_frame s w).1
  unfolding take_frame
  take_frame-Owns s v = record {
    made = v.made;
    only = v.only;
    mine = λ frame h. ground (arith, v.mine frame);
  }

  poll-Owns : (s waker : ℕ) {w : Waiting} → Owns w → Owns (poll s waker w).1
  unfolding poll take_frame
  poll-Owns s waker {w} v = record {
    made = ground (arith, v.made);
    only = λ j h. ground (arith, v.only j);
    mine = λ frame h. ground (arith, v.mine frame);
  }

  complete-Owns :
      (k : ℤ) (s : ℕ) (frame : Frame) {w : Waiting}
      → get k w.pending ≡ some s
      → correlation_id a c frame ≡ ok k
      → Owns w
      → Owns (complete s frame (drop_pending k w))
  unfolding complete drop_pending
  complete-Owns k s frame {w} here routed v = record {
    made = v.made;
    only = λ j h. v.only j (get-remove-cases w.pending h).1;
    mine = λ f h. ground (arith, nat_eq.equals_iff s slot, v.mine f, v.only k);
  }

  dispatch-Owns : (bytes : List ℕ) {w : Waiting} → Owns w → Owns (dispatch a c bytes w)
  unfolding dispatch deliver
  dispatch-Owns bytes {w} v = elim (Result-cases (decode bytes)) [
    | inr (e, bad) ↦ rw (bad, dispatch) v
    | inl (frame, decoded) ↦
        rw (decoded, dispatch)
          (elim (Result-cases (correlation_id a c frame)) [
            | inr (e, bad) ↦ rw (bad, dispatch) v
            | inl (k, routed) ↦
                rw (routed, dispatch)
                  (elim (Option-cases (get k w.pending)) [
                    | inl gone ↦ rw (gone, deliver) v
                    | inr (s, here) ↦ rw (here, deliver) (complete-Owns k s frame here routed v)
                  ])
          ])
  ]

  happen-Owns : (event : Event) {w : Waiting} → Owns w → Owns (happen a c event w)
  unfolding happen
  happen-Owns (arrived bytes) v = dispatch-Owns bytes v
  happen-Owns (begun k) v = register-Owns k v
  happen-Owns (ended k) v = drop_pending-Owns k v
  happen-Owns (polled s waker) v = poll-Owns s waker v
  happen-Owns (taken s) v = take_frame-Owns s v
  happen-Owns cleared v = clear-Owns v

  happen_all-Owns : (events : List Event) {w : Waiting} → Owns w → Owns (happen_all a c events w)
  unfolding happen_all
  happen_all-Owns [] v = v
  happen_all-Owns (event ∷ events) v = happen_all-Owns events (happen-Owns event v)

  happen_all-mine :
      (events : List Event) {w : Waiting} {frame : Frame}
      → Owns w
      → ((happen_all a c events w).slots slot).frame ≡ some frame
      → correlation_id a c frame ≡ ok corr
  happen_all-mine events v h = (happen_all-Owns events v).mine _ h

  taken_or-cases :
      (first later : Option Frame × Waiting) {frame : Frame}
      → (taken_or a c first later).0 ≡ some frame
      → (first.0 ≡ some frame) ⊎ (later.0 ≡ some frame)
  taken_or-cases (some f, w) later h = inl h
  taken_or-cases (none, w) later h = inr h

  wait-mine :
      (wakes : Wakes) (w : Waiting) {frame : Frame}
      → Owns w
      → (wait a c slot wakes w).0 ≡ some frame
      → correlation_id a c frame ≡ ok corr
  unfolding wait take_frame
  wait-mine (timeout events) w v h = elim (taken_or-cases (take_frame slot w) _ h) [
    | inl now ↦ v.mine _ now
    | inr later ↦ (happen_all-Owns events (take_frame-Owns slot v)).mine _ later
  ]
  wait-mine (notified events wakes) w v h = elim (taken_or-cases (take_frame slot w) _ h) [
    | inl now ↦ v.mine _ now
    | inr later ↦ wait-mine wakes _ (happen_all-Owns events (take_frame-Owns slot v)) later
  ]

module _ (a : Avro) (c : Catalog a.Schema) (corr : ℤ) where
  new-Owns : {w : Waiting} → IsSound w → Owns a c corr (register corr w).0 (register corr w).1
  unfolding register
  new-Owns {w} v = record {
    made = omega arith;
    only = λ j h. ground (
      arith,
      int_eq.equals_iff corr j,
      get-insert corr j w.next_slot w.pending,
      v.made j w.next_slot,
    );
    mine = λ frame h. ground arith;
  }

  -- After any history of a connection, what a call finds in the slot that it registers for an id,
  -- whatever the other threads do from then on, is a frame with that very correlation id.
  pub register-Matched :
      (before after : List Event) {frame : Frame}
      → ((happen_all a c after (register corr (happen_all a c before nobody)).1).slots
          (register corr (happen_all a c before nobody)).0).frame
        ≡ some frame
      → correlation_id a c frame ≡ ok corr
  register-Matched before after h =
      happen_all-mine a c corr _ after (new-Owns (history-IsSound a c before)) h

  -- A wait on a new slot comes back with nothing, or with a frame of its id.
  pub register-wait :
      (events : List Event) (wakes : Wakes) {w : Waiting} {frame : Frame}
      → IsSound w
      → (wait a c (register corr w).0 wakes (happen_all a c events (register corr w).1)).0
        ≡ some frame
      → correlation_id a c frame ≡ ok corr
  register-wait events wakes {w} v h =
      wait-mine a c corr (register corr w).0 wakes _
        (happen_all-Owns a c corr (register corr w).0 events (new-Owns v)) h
