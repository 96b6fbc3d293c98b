-- ===== src/Connector/Slots/Delivery.antt =====
-- What a wait comes back with (`Slot::wait`, with the dispatcher at work).
use impulse_ring.Prelude.{
  ℕ, ◌≡◌, ◌≢◌, ◌<◌, refl, sym, ◌∙◌, List, [], ◌∷◌, ◌++◌, Option, none, some, ℤ, get, int_eq, nat_eq,
  ◌==◌, if◌then◌else◌, ok, err, Result, Result-cases, arith, get-insert, get-remove,
  get-remove-cases, inl, inr, Bool-cases, get-remove-away, get-insert-away,
}
use impulse_ring.Frame.{Frame, decode}
use impulse_ring.Proto.{Avro}
use impulse_ring.Proto.Catalog.{Catalog, correlation_id}
use impulse_ring.Connector.Slots.{
  Waiting, complete, take_frame, poll, register, drop_pending, deliver, dispatch, Event, arrived,
  begun, ended, polled, taken, cleared, happen, happen_all, Wakes, timeout, notified, wait,
  taken_or,
}
use impulse_ring.Connector.Slots.Sound.{
  IsSound, deliver-IsSound, happen-IsSound, take_frame-IsSound,
}

abbrev pub or_else : Option Frame → Option Frame → Option Frame
or_else none later = later
or_else (some frame) later = some frame

-- What happens while a wait sleeps, up to its deadline.
abbrev pub all_events : Wakes → List Event
all_events (timeout events) = events
all_events (notified events wakes) = events ++ all_events wakes

module _ (a : Avro) (c : Catalog a.Schema) (corr : ℤ) where
  abbrev answer_of : Frame → Result ℤ → Option Frame
  answer_of frame (ok k) = if k == corr then some frame else none
  answer_of frame (err e) = none

  abbrev reply_in : Result Frame → Option Frame
  reply_in (ok frame) = answer_of frame (correlation_id a c frame)
  reply_in (err e) = none

  abbrev pub reply_of : Event → Option Frame
  reply_of (arrived bytes) = reply_in (decode bytes)
  reply_of event = none

  -- The first of the frames that arrive which carries the id.
  unfoldable pub first_reply : List Event → Option Frame
  first_reply [] = none
  first_reply (event ∷ events) = or_else (reply_of event) (first_reply events)

  module _ (slot : ℕ) where
    -- The call is left alone: nobody else uses its id, ends it, looks into its slot, or reconnects.
    abbrev pub LeavesAlone : Event → Type 0
    LeavesAlone (arrived bytes) = Unit
    LeavesAlone (begun k) = k ≢ corr
    LeavesAlone (ended k) = k ≢ corr
    LeavesAlone (polled s waker) = s ≢ slot
    LeavesAlone (taken s) = s ≢ slot
    LeavesAlone cleared = ⊥

    unfoldable pub LeaveAlone : List Event → Type 0
    LeaveAlone [] = Unit
    LeaveAlone (event ∷ events) = LeavesAlone event × LeaveAlone events

    -- No answer yet, and then this one.
    pub record Open (w : Waiting) : Type 0 where
      pub sound : IsSound w
      pub listed : get corr w.pending ≡ some slot

    pub record Answered (frame : Frame) (w : Waiting) : Type 0 where
      pub held : (w.slots slot).frame ≡ some frame
      pub made : slot < w.next_slot
      pub unlisted : (k : ℤ) → get k w.pending ≢ some slot

    abbrev pub At : Option Frame → Waiting → Type 0
    At none w = Open w
    At (some frame) w = Answered frame w

    Open-deliver :
        (k : ℤ) (frame : Frame) {w : Waiting}
        → Open w
        → At (if k == corr then some frame else none) (deliver a c k frame w)
    unfolding deliver complete drop_pending
    Open-deliver k frame {w} v = elim (Bool-cases (k == corr)) [
      | inr away ↦
          let differ : k ≢ corr = λ same. ground (arith, (int_eq.equals_iff k corr).1 same) in
          rw (away, At)
            (record {
              sound = deliver-IsSound a c k frame v.sound;
              listed = ground (arith, get-remove-away w.pending differ, v.listed);
            })
      | inl same ↦
          let here : get k w.pending ≡ some slot =
            ground (arith, (int_eq.equals_iff k corr).0 same, v.listed) in
          rw (same, At, here, deliver)
            (record {
              held = ground arith;
              made = v.sound.made corr slot v.listed;
              unlisted = λ j h.
                  let (away, there) = get-remove-cases {k = k} w.pending h in
                  away (v.sound.own k j slot here there);
            })
    ]

    Answered-deliver :
        (found : Frame) (k : ℤ) (frame : Frame) {w : Waiting}
        → Answered found w
        → Answered found (deliver a c k frame w)
    unfolding deliver complete drop_pending
    Answered-deliver found k frame {w} v = record {
      held = ground (arith, v.held, v.unlisted k);
      made = ground (arith, v.made);
      unlisted = λ j h. ground (arith, v.unlisted j, get-remove k j w.pending);
    }

    Open-dispatch :
        (bytes : List ℕ) {w : Waiting}
        → Open w
        → At (reply_of (arrived bytes)) (dispatch a c bytes w)
    unfolding dispatch
    Open-dispatch bytes {w} v = elim (Result-cases (decode bytes)) [
      | inr (e, bad) ↦ rw (bad, dispatch) v
      | inl (frame, decoded) ↦
          rw (decoded, dispatch)
            (elim (Result-cases (correlation_id a c frame)) [
              | inr (e, bad) ↦ rw (bad, dispatch) v
              | inl (k, routed) ↦ rw (routed, dispatch) (Open-deliver k frame v)
            ])
    ]

    Answered-dispatch :
        (found : Frame) (bytes : List ℕ) {w : Waiting}
        → Answered found w
        → Answered found (dispatch a c bytes w)
    unfolding dispatch
    Answered-dispatch found bytes {w} v = elim (Result-cases (decode bytes)) [
      | inr (e, bad) ↦ rw (bad, dispatch) v
      | inl (frame, decoded) ↦
          rw (decoded, dispatch)
            (elim (Result-cases (correlation_id a c frame)) [
              | inr (e, bad) ↦ rw (bad, dispatch) v
              | inl (k, routed) ↦ rw (routed, dispatch) (Answered-deliver found k frame v)
            ])
    ]

    Open-happen :
        (event : Event) {w : Waiting}
        → LeavesAlone event
        → Open w
        → At (reply_of event) (happen a c event w)
    unfolding happen register drop_pending poll take_frame
    Open-happen (arrived bytes) l v = Open-dispatch bytes v
    Open-happen (begun k) {w} l v = record {
      sound = happen-IsSound a c (begun k) v.sound;
      listed = ground (arith, get-insert-away w.next_slot w.pending l, v.listed);
    }
    Open-happen (ended k) {w} l v = record {
      sound = happen-IsSound a c (ended k) v.sound;
      listed = ground (arith, get-remove-away w.pending l, v.listed);
    }
    Open-happen (polled s waker) {w} l v = record {
      sound = happen-IsSound a c (polled s waker) v.sound;
      listed = ground (arith, v.listed);
    }
    Open-happen (taken s) l v = record {
      sound = happen-IsSound a c (taken s) v.sound;
      listed = v.listed;
    }
    Open-happen cleared l v = absurd l

    Answered-happen :
        (found : Frame) (event : Event) {w : Waiting}
        → LeavesAlone event
        → Answered found w
        → Answered found (happen a c event w)
    unfolding happen register drop_pending poll take_frame
    Answered-happen found (arrived bytes) l v = Answered-dispatch found bytes v
    Answered-happen found (begun k) {w} l v = record {
      held = ground (arith, v.held, v.made);
      made = omega (arith, v.made);
      unlisted = λ j h. ground (arith, get-insert k j w.next_slot w.pending, v.unlisted j, v.made);
    }
    Answered-happen found (ended k) {w} l v = record {
      held = v.held;
      made = v.made;
      unlisted = λ j h. ground (arith, v.unlisted j, get-remove k j w.pending);
    }
    Answered-happen found (polled s waker) {w} l v = record {
      held = ground (arith, v.held, l);
      made = ground (arith, v.made);
      unlisted = λ j h. ground (arith, v.unlisted j);
    }
    Answered-happen found (taken s) l v = record {
      held = ground (arith, v.held, l);
      made = v.made;
      unlisted = v.unlisted;
    }
    Answered-happen found cleared l v = absurd l

    happen-At :
        (o : Option Frame) (event : Event) (w : Waiting)
        → LeavesAlone event
        → At o w
        → At (or_else o (reply_of event)) (happen a c event w)
    happen-At none event w l v = Open-happen event l v
    happen-At (some found) event w l v = Answered-happen found event l v

    pub happen_all-At :
        (o : Option Frame) (events : List Event) (w : Waiting)
        → LeaveAlone events
        → At o w
        → At (or_else o (first_reply events)) (happen_all a c events w)
    unfolding happen_all LeaveAlone first_reply
    happen_all-At none [] w l v = v
    happen_all-At (some frame) [] w l v = v
    happen_all-At none (event ∷ events) w l v =
        happen_all-At (reply_of event) events _ l.1 (happen-At none event w l.0 v)
    happen_all-At (some frame) (event ∷ events) w l v =
        happen_all-At (some frame) events _ l.1 (happen-At (some frame) event w l.0 v)

    take_frame-At : {w : Waiting} → Open w → Open (take_frame slot w).1
    unfolding take_frame
    take_frame-At v = record { sound = take_frame-IsSound slot v.sound; listed = v.listed }

    At-frame : (o : Option Frame) (w : Waiting) → At o w → (take_frame slot w).0 ≡ o
    unfolding take_frame
    At-frame none w v = v.sound.unanswered corr slot v.listed
    At-frame (some frame) w v = v.held

    pub LeaveAlone-append :
        (xs ys : List Event) → LeaveAlone (xs ++ ys) → LeaveAlone xs × LeaveAlone ys
    unfolding LeaveAlone
    LeaveAlone-append [] ys l = (tt, l)
    LeaveAlone-append (x ∷ xs) ys l =
        let (here, there) = LeaveAlone-append xs ys l.1 in ((l.0, here), there)

    pub first_reply-append :
        (xs ys : List Event) → first_reply (xs ++ ys) ≡ or_else (first_reply xs) (first_reply ys)
    unfolding first_reply
    first_reply-append [] ys = refl
    first_reply-append (x ∷ xs) ys = ground (arith, first_reply-append xs ys)

    wait-held :
        (wakes : Wakes) (w : Waiting) {frame : Frame}
        → (w.slots slot).frame ≡ some frame
        → (wait a c slot wakes w).0 ≡ some frame
    unfolding wait take_frame
    wait-held (timeout events) w h = rw (h, taken_or) refl
    wait-held (notified events wakes) w h = rw (h, taken_or) refl

    -- The same, from the state that the sleep left.
    wait-At :
        (o : Option Frame) (wakes : Wakes) (w : Waiting)
        → At o w
        → (Open w → (wait a c slot wakes w).0 ≡ first_reply (all_events wakes))
        → (wait a c slot wakes w).0 ≡ or_else o (first_reply (all_events wakes))
    wait-At none wakes w v open_case = open_case v
    wait-At (some frame) wakes w v open_case = wait-held wakes w v.held

    wait-Open :
        (wakes : Wakes) (w : Waiting)
        → LeaveAlone (all_events wakes)
        → Open w
        → (wait a c slot wakes w).0 ≡ first_reply (all_events wakes)
    unfolding wait
    wait-Open (timeout events) w l v =
        let later = happen_all-At none events _ l (take_frame-At v) in
        rw (At-frame none w v, wait) (At-frame (first_reply events) _ later)
    wait-Open (notified events wakes) w l v =
        let (now, then_) = LeaveAlone-append events (all_events wakes) l in
        let later = happen_all-At none events _ now (take_frame-At v) in
        rw (At-frame none w v, wait, first_reply-append events (all_events wakes))
          (wait-At (first_reply events) wakes _ later (wait-Open wakes _ then_))

    -- A call whose slot stands in a sound table under its id, and which others leave alone while it
    -- waits, gets the first frame with its correlation id that arrives before its time is up, and
    -- nothing when none arrives, however many notifications and spurious wake-ups there are.
    pub wait-first_reply :
        (wakes : Wakes) {w : Waiting}
        → IsSound w
        → get corr w.pending ≡ some slot
        → LeaveAlone (all_events wakes)
        → (wait a c slot wakes w).0 ≡ first_reply (all_events wakes)
    wait-first_reply wakes v listed l = wait-Open wakes _ l (record { sound = v; listed = listed })

    -- The same, when other things happen before the wait.
    pub happen_all-wait :
        (events : List Event) (wakes : Wakes) {w : Waiting}
        → IsSound w
        → get corr w.pending ≡ some slot
        → LeaveAlone (events ++ all_events wakes)
        → (wait a c slot wakes (happen_all a c events w)).0
          ≡ first_reply (events ++ all_events wakes)
    happen_all-wait events wakes v listed l =
        let (now, then_) = LeaveAlone-append events (all_events wakes) l in
        let opened : Open _ = record { sound = v; listed = listed } in
        let later = happen_all-At none events _ now opened in
        wait-At (first_reply events) wakes _ later (wait-Open wakes _ then_)
        ∙ sym (first_reply-append events (all_events wakes))
