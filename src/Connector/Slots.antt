-- ===== src/Connector/Slots.antt =====
-- The calls of a connection that wait for a reply, and the dispatcher that hands the replies out
-- (`Slot`, `Inner::pending` and `run_dispatcher` of crates/connector/src/client.rs). A slot is
-- shared by the call and the table, so it stands in a store, by its number; a waker is a number
-- too.
pub mod Sound
pub mod Matched
pub mod Delivery
pub mod Cleared
use impulse_ring.Prelude.{
  ℕ, ◌+◌, List, [], ◌∷◌, Option, none, some, ℤ, Map, get, insert, remove, int_eq, nat_eq, ◌==◌,
  if◌then◌else◌, ok, err,
}
use impulse_ring.Frame.{Frame, decode}
use impulse_ring.Proto.{Avro}
use impulse_ring.Proto.Catalog.{Catalog, correlation_id}

pub record SlotState : Type 0 where
  pub frame : Option Frame
  pub waker : Option ℕ

-- `Slot::default()`.
abbrev empty_slot : SlotState
empty_slot = record { frame = none; waker = none }

-- `woken` has the wakers called so far.
pub record Waiting : Type 0 where
  pub pending : Map ℤ ℕ
  pub slots : ℕ → SlotState
  pub next_slot : ℕ
  pub woken : List ℕ

abbrev pub nobody : Waiting
nobody = record { pending = []; slots = λ i. empty_slot; next_slot = 0; woken = [] }

abbrev set_slot : (ℕ → SlotState) → ℕ → SlotState → (ℕ → SlotState)
set_slot slots slot state = λ i. if slot == i then state else slots i

abbrev pub wake : Option ℕ → List ℕ → List ℕ
wake none woken = woken
wake (some waker) woken = waker ∷ woken

unfoldable pub complete : ℕ → Frame → Waiting → Waiting
complete slot frame w = record w {
  slots = set_slot w.slots slot (record { frame = some frame; waker = none });
  woken = wake (w.slots slot).waker w.woken;
}

-- `g.frame.take()`.
unfoldable pub take_frame : ℕ → Waiting → Option Frame × Waiting
take_frame slot w = (
  (w.slots slot).frame,
  record w { slots = set_slot w.slots slot (record (w.slots slot) { frame = none }) },
)

-- `none` is `Poll::Pending`.
unfoldable pub poll : ℕ → ℕ → Waiting → Option Frame × Waiting
poll slot waker w = elim (w.slots slot).frame [
  | some frame ↦ take_frame slot w
  | none ↦ (
    none,
    record w { slots = set_slot w.slots slot (record { frame = none; waker = some waker }) },
  )
]

unfoldable pub register : ℤ → Waiting → ℕ × Waiting
register corr w = (
  w.next_slot,
  record w {
    pending = insert corr w.next_slot w.pending;
    slots = set_slot w.slots w.next_slot empty_slot;
    next_slot = w.next_slot + 1;
  },
)

unfoldable pub drop_pending : ℤ → Waiting → Waiting
drop_pending corr w = record w { pending = remove corr w.pending }

-- `pending.clear()` of a reconnect.
unfoldable pub clear : Waiting → Waiting
clear w = record w { pending = [] }

module _ (a : Avro) (c : Catalog a.Schema) where
  -- The frame to a call that waits under this id, if any.
  unfoldable pub deliver : ℤ → Frame → Waiting → Waiting
  deliver corr frame w = elim (get corr w.pending) [
    | some slot ↦ complete slot frame (drop_pending corr w)
    | none ↦ w
  ]

  -- A round of `run_dispatcher` that popped these bytes off the reply ring. The source takes the
  -- call off the table under one lock and fills its slot under another: here both are one step.
  unfoldable pub dispatch : List ℕ → Waiting → Waiting
  dispatch bytes w = elim (decode bytes) [
    | err e ↦ w
    | ok frame ↦ elim (correlation_id a c frame) [ ok corr ↦ deliver corr frame w | err e ↦ w ]
  ]

-- What one thread does at a time: the dispatcher has popped bytes, another call begins, ends, polls
-- its slot or takes the frame out of it, or a reconnect clears the table.
pub data Event : Type 0 where
  arrived : List ℕ → Event
  begun : ℤ → Event
  ended : ℤ → Event
  polled : ℕ → ℕ → Event
  taken : ℕ → Event
  cleared : Event

module _ (a : Avro) (c : Catalog a.Schema) where
  unfoldable pub happen : Event → Waiting → Waiting
  happen (arrived bytes) w = dispatch a c bytes w
  happen (begun corr) w = (register corr w).1
  happen (ended corr) w = drop_pending corr w
  happen (polled slot waker) w = (poll slot waker w).1
  happen (taken slot) w = (take_frame slot w).1
  happen cleared w = clear w

  unfoldable pub happen_all : List Event → Waiting → Waiting
  happen_all [] w = w
  happen_all (event ∷ events) w = happen_all events (happen event w)

-- The wake-ups of one `Slot::wait`, with what happens before each: the last one finds the time up,
-- the others are notifications or spurious.
pub data Wakes : Type 0 where
  timeout : List Event → Wakes
  notified : List Event → Wakes → Wakes

module _ (a : Avro) (c : Catalog a.Schema) where
  -- A frame that is there is taken without a sleep.
  abbrev pub taken_or : Option Frame × Waiting → Option Frame × Waiting → Option Frame × Waiting
  taken_or (some frame, w) later = (some frame, w)
  taken_or (none, w) later = later

  unfoldable pub wait : ℕ → Wakes → Waiting → Option Frame × Waiting
  wait slot (timeout events) w =
      taken_or (take_frame slot w) (take_frame slot (happen_all a c events (take_frame slot w).1))
  wait slot (notified events wakes) w =
      let later = wait slot wakes (happen_all a c events (take_frame slot w).1) in
      taken_or (take_frame slot w) later
