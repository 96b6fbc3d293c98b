-- ===== src/Connector/Calls/Replies.antt =====
-- What a call to the broker comes back with (`call_control`).
use impulse_ring.Prelude.{
  ℕ, ◌≡◌, refl, sym, ap, ◌∙◌, Bool, true, false, List, ◌++◌, Option, none, some, ℤ, bytes, get,
  int_eq, Result, ok, err, other, timed_out, get-insert-here, get-remove-here, arith,
}
use impulse_ring.Frame
use impulse_ring.Frame.{Frame}
use impulse_ring.Proto.{Avro}
use impulse_ring.Proto.Catalog.{Catalog, correlation_id}
use impulse_ring.Connector.Slots
use impulse_ring.Connector.Slots.{Waiting, Event, Wakes, happen_all, wait, begun}
use impulse_ring.Connector.Slots.Sound.{IsSound, happen-IsSound}
use impulse_ring.Connector.Slots.Delivery.{LeaveAlone, all_events, first_reply, happen_all-wait}
use impulse_ring.Connector.Slots.Cleared.{NoneReused, happen_all-wait-clears}
use impulse_ring.Connector.Slots.Matched.{register-wait}
use impulse_ring.Connector.Session.{Inner, Bus}
use impulse_ring.Connector.Calls.{call_control, register_slot, placed, answer, push_on, wait_for}

module _ (b : Bus) (a : Avro) (c : Catalog a.Schema) where
  -- The push of a call, and what happens while the call sleeps.
  abbrev pub pushed : Frame → Inner b.World → Bool × b.World
  pushed frame s = b.push s.transport.submission (Frame.encode frame) s.world

  abbrev pub sleep : Frame → Inner b.World → Wakes
  sleep frame s = (b.wakes (pushed frame s).1).0

  abbrev pub meanwhile : Frame → Inner b.World → List Event
  meanwhile frame s = b.during_push s.world ++ all_events (sleep frame s)

  abbrev answered : Option Frame → Result Frame
  answered (some reply) = ok reply
  answered none = err (timed_out (bytes "timed out waiting for broker reply"))

  abbrev pub Expected : Bool → Option Frame → Result Frame
  Expected true reply = answered reply
  Expected false reply = err (other (bytes "submission ring full (broker stuck?)"))

  placed-result :
      (corr : ℤ) (slot : ℕ) (done : Bool) (s : Inner b.World)
      → (placed b a c corr slot done s).0
        ≡ Expected done (wait a c slot (b.wakes s.world).0 s.waiting).0
  unfolding placed wait_for answer
  placed-result corr slot true s = ground arith
  placed-result corr slot false s = refl

  call_control-result :
      (corr : ℤ) (frame : Frame) (s : Inner b.World)
      → (call_control b a c corr frame s).0
        ≡ Expected
            (pushed frame s).0
            (wait a c
              (Slots.register corr s.waiting).0
              (sleep frame s)
              (happen_all a c (b.during_push s.world) (Slots.register corr s.waiting).1)).0
  unfolding call_control register_slot push_on
  call_control-result corr frame s = placed-result corr _ _ _

  Expected-ok :
      (done : Bool) (found : Option Frame) {reply : Frame}
      → Expected done found ≡ ok reply
      → found ≡ some reply
  Expected-ok true none h = cc
  Expected-ok true (some f) h = cc
  Expected-ok false found h = cc

  -- Whatever the other threads do meanwhile, the frame that a call to the broker comes back with
  -- has the correlation id of that call, if the pending table was sound when the call began.
  pub call_control-Matched :
      (corr : ℤ) (frame : Frame) (s : Inner b.World) {reply : Frame}
      → IsSound s.waiting
      → (call_control b a c corr frame s).0 ≡ ok reply
      → correlation_id a c reply ≡ ok corr
  call_control-Matched corr frame s v h =
      register-wait a c corr (b.during_push s.world) (sleep frame s) v
        (Expected-ok (pushed frame s).0 _ (sym (call_control-result corr frame s) ∙ h))

  -- A call that other threads leave alone, on a sound pending table, comes back with the first
  -- frame of its correlation id that the dispatcher pops before the time is up, with a timeout when
  -- there is none, and with the error of a full submission ring exactly when its push failed.
  pub call_control-outcome :
      (corr : ℤ) (frame : Frame) (s : Inner b.World)
      → IsSound s.waiting
      → LeaveAlone a c corr s.waiting.next_slot (meanwhile frame s)
      → (call_control b a c corr frame s).0
        ≡ Expected (pushed frame s).0 (first_reply a c corr (meanwhile frame s))
  unfolding Slots.register Slots.happen
  call_control-outcome corr frame s v l =
      call_control-result corr frame s
      ∙ ap (Expected (pushed frame s).0) (
          happen_all-wait a c corr s.waiting.next_slot (b.during_push s.world) (sleep frame s)
            (happen-IsSound a c (begun corr) v)
            (get-insert-here corr s.waiting.next_slot s.waiting.pending) l)

  answer-clears :
      (corr : ℤ) (found : Option Frame) (s : Inner b.World)
      → ((reply : Frame) → found ≡ some reply → get corr s.waiting.pending ≡ none)
      → get corr (answer b a c corr found s).1.waiting.pending ≡ none
  unfolding answer Slots.drop_pending
  answer-clears corr none s gone = get-remove-here corr s.waiting.pending
  answer-clears corr (some reply) s gone = gone reply refl

  placed-clears :
      (corr : ℤ) (slot : ℕ) (done : Bool) (s : Inner b.World)
      → ((reply : Frame)
          → (wait a c slot (b.wakes s.world).0 s.waiting).0 ≡ some reply
          → get corr (wait a c slot (b.wakes s.world).0 s.waiting).1.pending ≡ none)
      → get corr (placed b a c corr slot done s).1.waiting.pending ≡ none
  unfolding placed wait_for Slots.drop_pending
  placed-clears corr slot true s gone = answer-clears corr _ _ gone
  placed-clears corr slot false s gone = get-remove-here corr s.waiting.pending

  -- Once a call to the broker is over, answered, timed out or never placed, its id is not in the
  -- pending table, if the table was sound and no other call took the same id meanwhile.
  pub call_control-clears :
      (corr : ℤ) (frame : Frame) (s : Inner b.World)
      → IsSound s.waiting
      → NoneReused corr (meanwhile frame s)
      → get corr (call_control b a c corr frame s).1.waiting.pending ≡ none
  unfolding call_control register_slot push_on Slots.register Slots.happen
  call_control-clears corr frame s v l =
      placed-clears corr s.waiting.next_slot (pushed frame s).0 _ (λ reply h.
        happen_all-wait-clears a c corr s.waiting.next_slot (b.during_push s.world) (sleep frame s)
          _ (happen-IsSound a c (begun corr) v)
          (get-insert-here corr s.waiting.next_slot s.waiting.pending) l h)
