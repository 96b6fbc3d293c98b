-- ===== src/Connector/Slots/Cleared.antt =====
-- An answered call leaves the pending table.
use impulse_ring.Prelude.{
  ℕ, ◌≡◌, ◌≢◌, refl, List, [], ◌∷◌, ◌++◌, Option, none, some, ℤ, get, int_eq, nat_eq, Result-cases,
  arith, get-insert-away, get-remove, ◌⊎◌, inl, inr,
}
use impulse_ring.Frame.{Frame, decode}
use impulse_ring.Proto.{Avro}
use impulse_ring.Proto.Catalog.{Catalog, correlation_id}
use impulse_ring.Connector.Slots.{
  Waiting, complete, take_frame, poll, register, drop_pending, clear, deliver, dispatch, Event,
  arrived, begun, ended, polled, taken, cleared, happen, happen_all, Wakes, timeout, notified, wait,
  taken_or,
}
use impulse_ring.Connector.Slots.Sound.{IsSound, happen_all-IsSound, take_frame-IsSound}
use impulse_ring.Connector.Slots.Delivery.{all_events}

abbrev NotReused : ℤ → Event → Type 0
NotReused corr (begun k) = k ≢ corr
NotReused corr event = Unit

-- No other call begins under this id.
unfoldable pub NoneReused : ℤ → List Event → Type 0
NoneReused corr [] = Unit
NoneReused corr (event ∷ events) = NotReused corr event × NoneReused corr events

NoneReused-append :
    (corr : ℤ) (xs ys : List Event)
    → NoneReused corr (xs ++ ys)
    → NoneReused corr xs × NoneReused corr ys
unfolding NoneReused
NoneReused-append corr [] ys l = (tt, l)
NoneReused-append corr (x ∷ xs) ys l =
    let (here, there) = NoneReused-append corr xs ys l.1 in ((l.0, here), there)

module _ (a : Avro) (c : Catalog a.Schema) (corr : ℤ) (slot : ℕ) where
  -- The id leads to the slot, or nowhere.
  abbrev Tracked : Waiting → Type 0
  Tracked w = (get corr w.pending ≡ some slot) ⊎ (get corr w.pending ≡ none)

  deliver-Tracked :
      (k : ℤ) (frame : Frame) (w : Waiting) → Tracked w → Tracked (deliver a c k frame w)
  unfolding deliver complete drop_pending
  deliver-Tracked k frame w t = ground (arith, get-remove k corr w.pending)

  dispatch-Tracked : (bytes : List ℕ) (w : Waiting) → Tracked w → Tracked (dispatch a c bytes w)
  unfolding dispatch
  dispatch-Tracked bytes w t = elim (Result-cases (decode bytes)) [
    | inr (e, bad) ↦ rw (bad, dispatch) t
    | inl (frame, decoded) ↦
        rw (decoded, dispatch)
          (elim (Result-cases (correlation_id a c frame)) [
            | inr (e, bad) ↦ rw (bad, dispatch) t
            | inl (k, routed) ↦ rw (routed, dispatch) (deliver-Tracked k frame w t)
          ])
  ]

  happen-Tracked :
      (event : Event) (w : Waiting)
      → NotReused corr event
      → Tracked w
      → Tracked (happen a c event w)
  unfolding happen register drop_pending take_frame poll clear get
  happen-Tracked (arrived bytes) w l t = dispatch-Tracked bytes w t
  happen-Tracked (begun k) w l t = ground (arith, get-insert-away w.next_slot w.pending l)
  happen-Tracked (ended k) w l t = ground (arith, get-remove k corr w.pending)
  happen-Tracked (polled s waker) w l t = ground arith
  happen-Tracked (taken s) w l t = t
  happen-Tracked cleared w l t = inr refl

  happen_all-Tracked :
      (events : List Event) (w : Waiting)
      → NoneReused corr events
      → Tracked w
      → Tracked (happen_all a c events w)
  unfolding happen_all NoneReused
  happen_all-Tracked [] w l t = t
  happen_all-Tracked (event ∷ events) w l t =
      happen_all-Tracked events _ l.1 (happen-Tracked event w l.0 t)

  take_frame-none :
      {w : Waiting} {frame : Frame}
      → IsSound w
      → Tracked w
      → (take_frame slot w).0 ≡ some frame
      → get corr (take_frame slot w).1.pending ≡ none
  unfolding take_frame
  take_frame-none {w} v t h = ground (arith, v.unanswered corr slot)

  taken_or-none :
      (first later : Option Frame × Waiting) {frame : Frame}
      → (first.0 ≡ some frame → get corr first.1.pending ≡ none)
      → (later.0 ≡ some frame → get corr later.1.pending ≡ none)
      → (taken_or a c first later).0 ≡ some frame
      → get corr (taken_or a c first later).1.pending ≡ none
  taken_or-none (some f, w) later now after h = now h
  taken_or-none (none, w) later now after h = after h

  wait-clears :
      (wakes : Wakes) (w : Waiting) {frame : Frame}
      → IsSound w
      → Tracked w
      → NoneReused corr (all_events wakes)
      → (wait a c slot wakes w).0 ≡ some frame
      → get corr (wait a c slot wakes w).1.pending ≡ none
  unfolding wait take_frame
  wait-clears (timeout events) w v t l h =
      let v' = happen_all-IsSound a c events (take_frame-IsSound slot v) in
      taken_or-none (take_frame slot w) _ (take_frame-none v t)
        (take_frame-none v' (happen_all-Tracked events _ l t)) h
  wait-clears (notified events wakes) w v t l h =
      let (now, then_) = NoneReused-append corr events (all_events wakes) l in
      let v' = happen_all-IsSound a c events (take_frame-IsSound slot v) in
      taken_or-none (take_frame slot w) _ (take_frame-none v t)
        (wait-clears wakes _ v' (happen_all-Tracked events _ now t) then_) h

  -- A new call with what happens before its wait.
  pub happen_all-wait-clears :
      (events : List Event) (wakes : Wakes) (w : Waiting) {frame : Frame}
      → IsSound w
      → get corr w.pending ≡ some slot
      → NoneReused corr (events ++ all_events wakes)
      → (wait a c slot wakes (happen_all a c events w)).0 ≡ some frame
      → get corr (wait a c slot wakes (happen_all a c events w)).1.pending ≡ none
  happen_all-wait-clears events wakes w v listed l h =
      let (now, then_) = NoneReused-append corr events (all_events wakes) l in
      wait-clears wakes _ (happen_all-IsSound a c events v)
        (happen_all-Tracked events w now (inl listed)) then_ h
