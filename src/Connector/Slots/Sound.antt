-- ===== src/Connector/Slots/Sound.antt =====
-- What holds of the pending table at any time.
use impulse_ring.Prelude.{
  ℕ, ◌≡◌, ◌<◌, List, [], ◌∷◌, none, some, ℤ, get, int_eq, nat_eq, Result-cases, arith, get-insert,
  get-remove-cases, inl, inr, Option-cases,
}
use impulse_ring.Frame.{Frame, decode}
use impulse_ring.Proto.{Avro}
use impulse_ring.Proto.Catalog.{Catalog, correlation_id}
use impulse_ring.Connector.Slots.{
  Waiting, complete, take_frame, poll, register, drop_pending, clear, deliver, dispatch, Event,
  arrived, begun, ended, polled, taken, cleared, happen, happen_all, nobody,
}

-- The table is sound: every entry has a slot of its own that was made and holds no frame yet, and
-- what was not made is empty.
pub record IsSound (w : Waiting) : Type 0 where
  pub made : (corr : ℤ) (slot : ℕ) → get corr w.pending ≡ some slot → slot < w.next_slot
  pub own : (j k : ℤ) (slot : ℕ) → get j w.pending ≡ some slot → get k w.pending ≡ some slot → j ≡ k
  pub unanswered :
      (corr : ℤ) (slot : ℕ) → get corr w.pending ≡ some slot → (w.slots slot).frame ≡ none

nobody-IsSound : IsSound nobody
unfolding get
nobody-IsSound = record {
  made = λ corr slot h. cc;
  own = λ j k slot h h'. cc;
  unanswered = λ corr slot h. cc;
}

register-IsSound : (corr : ℤ) {w : Waiting} → IsSound w → IsSound (register corr w).1
unfolding register
register-IsSound corr {w} v = record {
  made = λ k slot h. ground (arith, get-insert corr k w.next_slot w.pending, v.made k slot);
  own = λ j k slot h h'. ground (
    arith,
    get-insert corr k w.next_slot w.pending,
    get-insert corr j w.next_slot w.pending,
    v.made j slot,
    v.made k slot,
    v.own j k slot,
    int_eq.equals_iff corr j,
    int_eq.equals_iff corr k,
  );
  unanswered = λ k slot h.
      ground (arith, get-insert corr k w.next_slot w.pending, v.made k slot, v.unanswered k slot);
}

drop_pending-IsSound : (corr : ℤ) {w : Waiting} → IsSound w → IsSound (drop_pending corr w)
unfolding drop_pending
drop_pending-IsSound corr {w} v = record {
  made = λ k slot h. v.made k slot (get-remove-cases w.pending h).1;
  own = λ j k slot h h'.
      v.own j k slot (get-remove-cases w.pending h).1 (get-remove-cases w.pending h').1;
  unanswered = λ k slot h. v.unanswered k slot (get-remove-cases w.pending h).1;
}

complete-IsSound :
    (corr : ℤ) (slot : ℕ) (frame : Frame) {w : Waiting}
    → IsSound w
    → get corr w.pending ≡ some slot
    → IsSound (complete slot frame (drop_pending corr w))
unfolding complete drop_pending
complete-IsSound corr slot frame {w} v here = record {
  made = λ k s h. v.made k s (get-remove-cases w.pending h).1;
  own =
      λ j k s h h'. v.own j k s (get-remove-cases w.pending h).1 (get-remove-cases w.pending h').1;
  unanswered = λ k s h.
      let (other, there) = get-remove-cases {k = corr} w.pending h in
      ground (arith, v.own corr k slot here, v.unanswered k s there);
}

pub take_frame-IsSound : (slot : ℕ) {w : Waiting} → IsSound w → IsSound (take_frame slot w).1
unfolding take_frame
take_frame-IsSound slot {w} v = record {
  made = v.made;
  own = v.own;
  unanswered = λ k s h. ground (arith, v.unanswered k s h);
}

pub poll-IsSound : (slot waker : ℕ) {w : Waiting} → IsSound w → IsSound (poll slot waker w).1
unfolding poll take_frame
poll-IsSound slot waker {w} v = record {
  made = λ k s h. ground (arith, v.made k s);
  own = λ j k s h h'. ground (arith, v.own j k s);
  unanswered = λ k s h. ground (arith, v.unanswered k s);
}

clear-IsSound : (w : Waiting) → IsSound (clear w)
unfolding clear get
clear-IsSound w = record { made = λ k s h. cc; own = λ j k s h h'. cc; unanswered = λ k s h. cc }

module _ (a : Avro) (c : Catalog a.Schema) where
  pub deliver-IsSound :
      (corr : ℤ) (frame : Frame) {w : Waiting} → IsSound w → IsSound (deliver a c corr frame w)
  unfolding deliver
  deliver-IsSound corr frame {w} v = elim (Option-cases (get corr w.pending)) [
    | inr (slot, e) ↦ rw (e, deliver) (complete-IsSound corr slot frame v e)
    | inl e ↦ rw (e, deliver) v
  ]

  dispatch-IsSound : (bytes : List ℕ) {w : Waiting} → IsSound w → IsSound (dispatch a c bytes w)
  unfolding dispatch
  dispatch-IsSound bytes {w} v = elim (Result-cases (decode bytes)) [
    | inr (e, bad) ↦ rw (bad, dispatch) v
    | inl (frame, decoded) ↦
        rw (decoded, dispatch)
          (elim (Result-cases (correlation_id a c frame)) [
            | inl (corr, routed) ↦ rw (routed, dispatch) (deliver-IsSound corr frame v)
            | inr (e, bad) ↦ rw (bad, dispatch) v
          ])
  ]

  pub happen-IsSound : (event : Event) {w : Waiting} → IsSound w → IsSound (happen a c event w)
  unfolding happen
  happen-IsSound (arrived bytes) v = dispatch-IsSound bytes v
  happen-IsSound (begun corr) v = register-IsSound corr v
  happen-IsSound (ended corr) v = drop_pending-IsSound corr v
  happen-IsSound (polled slot waker) v = poll-IsSound slot waker v
  happen-IsSound (taken slot) v = take_frame-IsSound slot v
  happen-IsSound cleared v = clear-IsSound _

  pub happen_all-IsSound :
      (events : List Event) {w : Waiting} → IsSound w → IsSound (happen_all a c events w)
  unfolding happen_all
  happen_all-IsSound [] v = v
  happen_all-IsSound (event ∷ events) v = happen_all-IsSound events (happen-IsSound event v)

  -- Whatever the calls, the dispatcher and reconnects do from an empty table on, no two correlation
  -- ids share a slot, and no slot that is still in the table holds a frame.
  pub history-IsSound : (events : List Event) → IsSound (happen_all a c events nobody)
  history-IsSound events = happen_all-IsSound events nobody-IsSound
