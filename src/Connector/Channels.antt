-- ===== src/Connector/Channels.antt =====
-- The two ends of a channel (crates/connector/src/channel.rs).
pub mod Messages
use impulse_ring.Prelude.{
  ℕ, Bool, true, false, not, List, [], ◌∷◌, ◌++◌, Option, none, some, Str, bytes, ℤ, pos, Map, get,
  nat_eq, ◌==◌, if◌then◌else◌, Result, ok, err, Error, panic, other, hex,
}
use impulse_ring.Frame
use impulse_ring.Frame.{Frame}
use impulse_ring.Proto.{Avro}
use impulse_ring.Proto.Catalog.{Catalog}
use impulse_ring.Connector.Session.{
  Mapped, Inner, Bus, Action, ◌>>=◌, ◌>>◌, pure, raise, lift, gets, modify,
}
use impulse_ring.Connector.Calls.{Call, push_on}
use impulse_ring.Connector.Reconnect.{deregister, send_unpublish}
use impulse_ring.Connector.Serde.{Serde}

pub record Publisher (Schema : Type 0) : Type 0 where
  pub ring : ℕ
  pub schema : Schema
  pub schema_fp : ℕ
  pub channel : Str
  pub reg_id : ℕ

pub record Subscriber (Schema : Type 0) : Type 0 where
  pub ring : ℕ
  pub schema : Schema
  pub schema_fp : ℕ

module _ (a : Avro) {T : Type 0} (serde : Serde a.Schema T) where
  -- A message off the ring.
  unfoldable pub read_message : Subscriber a.Schema → List ℕ → Result T
  read_message sub bytes_ = elim (Frame.decode bytes_) [
    | err e ↦ err e
    | ok frame ↦
        if not (frame.schema_fp == sub.schema_fp)
        then err (
            other (
              bytes "message schema mismatch: expected "
              ++ (hex sub.schema_fp ++ (bytes ", got " ++ hex frame.schema_fp))))
        else serde.decode sub.schema frame.body
  ]

  abbrev pub received : Subscriber a.Schema → Option (List ℕ) → Result (Option T)
  received sub none = ok none
  received sub (some bytes_) = elim (read_message sub bytes_) [ ok v ↦ ok (some v) | err e ↦ err e ]

module _ (b : Bus) where
  open b use {World}

  -- A handle keeps its cell alive, so the cell is always there.
  abbrev pub read_cell : ℕ → Call b Mapped
  read_cell cell s = elim (get cell s.cells) [ some ring ↦ (ok ring, s) | none ↦ (err panic, s) ]

  unfoldable pub capacity : ℕ → Call b ℕ
  capacity cell = do mapped ← read_cell cell; pure mapped.ring.capacity

  module _ (a : Avro) (c : Catalog a.Schema) {T : Type 0} (serde : Serde a.Schema T) where
    abbrev pub published : Bool → Call b (Unit {0})
    published true = pure tt
    published false = raise (other (bytes "channel full (slow subscriber)"))

    unfoldable pub publish : Publisher a.Schema → T → Call b (Unit {0})
    publish p msg = do
      body ← lift (serde.encode p.schema msg)
      ring ← read_cell p.ring
      done ← push_on b a c ring (Frame.encode (Frame.new p.schema_fp body))
      published done

    unfoldable pub try_publish : Publisher a.Schema → T → Call b Bool
    try_publish p msg = do
      body ← lift (serde.encode p.schema msg)
      ring ← read_cell p.ring
      (λ s.
          let (done, world) = b.try_push ring (Frame.encode (Frame.new p.schema_fp body)) s.world in
          (ok done, record s { world = world }))

  module _ (a : Avro) (c : Catalog a.Schema) where
    -- `Drop` of a publisher.
    unfoldable pub drop_publisher : Publisher a.Schema → Inner World → Inner World
    drop_publisher p s = send_unpublish b a c p.channel (deregister b p.reg_id s).1

  module _ (a : Avro) {T : Type 0} (serde : Serde a.Schema T) where
    -- `ok none`: the time is up.
    unfoldable pub recv : Subscriber a.Schema → Call b (Option T)
    recv sub = do
      ring ← read_cell sub.ring
      popped ←
          (λ s. let (popped, world) = b.pop ring s.world in (ok popped, record s { world = world }))
      lift (received a serde sub popped)
