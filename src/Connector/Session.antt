-- ===== src/Connector/Session.antt =====
-- The state of a connection (`Inner`, `Transport`, `Reg`, `Callee` of
-- crates/connector/src/client.rs), and what its calls are made of. A `RingCell` is shared by a
-- handle and the registry, so it stands in a store.
use impulse_ring.Prelude.{
  ℕ, ◌≡◌, ◌↔◌, Bool, true, ◌&&◌, List, Option, Str, str_eq, ℤ, Map, Eq, ◌==◌, Result, arith, nat_eq,
}
use impulse_ring.Segment.{Segment}
use impulse_ring.Ring.{Ring}
pub use impulse_ring.Action.{
  Action, ◌>>=◌, ◌>>◌, pure, raise, lift, gets, modify, bind-eq-ok, bind-ok, bind-err,
}
use impulse_ring.Connector.Slots.{Waiting, Event, Wakes}

-- A `Ring` holds its segment: here by a number.
pub record Mapped : Type 0 where
  pub segment : ℕ
  pub ring : Ring

pub record Transport : Type 0 where
  pub submission : Mapped
  pub reply_ring : Mapped
  pub reply_segment : Str
  pub nonce : ℕ
  pub client_id : ℤ
  pub epoch : ℕ

-- `ring` is the number of the cell.
pub record ChannelReg : Type 0 where
  pub name : Str
  pub schema_json : Str
  pub key : Option Str
  pub arena_cap : ℤ
  pub ring : ℕ

pub record FunctionReg : Type 0 where
  pub name : Str
  pub req_schema_json : Str
  pub resp_schema_json : Str
  pub key : Option Str
  pub arena_cap : ℤ
  pub ring : ℕ

pub data Reg : Type 0 where
  channel : ChannelReg → Reg
  function : FunctionReg → Reg

pub record Callee : Type 0 where
  pub req_fp : ℕ
  pub resp_fp : ℕ
  pub ring : Mapped

abbrev pub CalleeId : Type 0
CalleeId = Str × Str

pub callee_id_eqb_iff : (x y : CalleeId) → ((x.0 == y.0 && x.1 == y.1) ≡ true) ↔ (x ≡ y)
callee_id_eqb_iff x y = (
  λ h. ground (arith, str_eq.equals_iff x.0 y.0, str_eq.equals_iff x.1 y.1),
  λ e. ground (arith, str_eq.equals_iff x.0 y.0, str_eq.equals_iff x.1 y.1),
)

instance abbrev pub callee_id_eq : Eq CalleeId
callee_id_eq = record { equals = λ x y. x.0 == y.0 && x.1 == y.1; equals_iff = callee_id_eqb_iff }

pub record Inner (World : Type 0) : Type 0 where
  pub transport : Transport
  pub waiting : Waiting
  pub callees : Map CalleeId Callee
  pub app_name : Str
  pub reply_cap : ℕ
  pub running : Bool
  pub auto_reconnect : Bool
  pub registry : Map ℕ Reg
  pub reg_seq : ℕ
  pub cells : Map ℕ Mapped
  pub next_cell : ℕ
  pub world : World

-- What lies outside a connection: the operating system, the shared memory and the processes that
-- share it, the clock. `push` is `push_blocking` up to the deadline of the call, and `pop`
-- `pop_blocking`; what they do to a segment is in Ring. `during_push` and `wakes` have what the
-- other threads of the connection do to its waiting calls while a call sleeps.
pub record Bus : Type 1 where
  pub World : Type 0
  pub pid : ℤ
  pub random_u64 : World → ℕ × World
  pub open_segment : Str → World → Result ℕ × World
  pub create_segment : Str → ℕ → World → Result ℕ × World
  pub memory : World → ℕ → Segment
  pub update : ℕ → Segment → World → World
  pub push : Mapped → List ℕ → World → Bool × World
  pub try_push : Mapped → List ℕ → World → Bool × World
  pub pop : Mapped → World → Option (List ℕ) × World
  pub during_push : World → List Event
  pub wakes : World → Wakes × World

-- A call that only the world takes part in.
abbrev pub on_world : {W A : Type 0} → Action W A → Action (Inner W) A
on_world m s = let (r, world) = m s.world in (r, record s { world = world })

-- What only talking to the broker leaves alone.
pub record Kept : Type 0 where
  pub transport : Transport
  pub callees : Map CalleeId Callee
  pub registry : Map ℕ Reg
  pub reg_seq : ℕ
  pub cells : Map ℕ Mapped
  pub next_cell : ℕ
  pub reply_cap : ℕ
  pub running : Bool
  pub auto_reconnect : Bool

abbrev pub kept : {World : Type 0} → Inner World → Kept
kept s = record {
  transport = s.transport;
  callees = s.callees;
  registry = s.registry;
  reg_seq = s.reg_seq;
  cells = s.cells;
  next_cell = s.next_cell;
  reply_cap = s.reply_cap;
  running = s.running;
  auto_reconnect = s.auto_reconnect;
}
