-- ===== src/Connector/Channels/Messages.antt =====
-- A message from the publisher to the subscriber.
use mathlib.Core.List.{append-nil}
use impulse_ring.Prelude.{ℕ, ◌≡◌, refl, sym, ap, ◌∙◌, List, [], some, get, nat_eq, ok, arith}
use impulse_ring.Frame
use impulse_ring.Frame.{Frame}
use impulse_ring.Frame.Roundtrip.{IsFrame, decode-encode}
use impulse_ring.Proto.{Avro}
use impulse_ring.Proto.Catalog.{Catalog}
use impulse_ring.Connector.Session.{Mapped, Inner, Bus}
use impulse_ring.Connector.Serde.{Serde}
use impulse_ring.Connector.Calls.{push_on}
use impulse_ring.Connector.Channels.{Publisher, Subscriber, publish, recv, read_message}

module _ (a : Avro) {T : Type 0} (serde : Serde a.Schema T) where
  read_message-frame :
      (sub : Subscriber a.Schema) (frame : Frame)
      → IsFrame frame
      → frame.schema_fp ≡ sub.schema_fp
      → read_message a serde sub (Frame.encode frame) ≡ serde.decode sub.schema frame.body
  unfolding read_message
  read_message-frame sub frame v same =
      let whole : Frame.decode (Frame.encode frame) ≡ ok frame =
        ap Frame.decode (sym (append-nil (Frame.encode frame))) ∙ decode-encode frame [] v in
      rw (whole, (nat_eq.equals_iff frame.schema_fp sub.schema_fp).1 same, read_message) refl

  module _ (b : Bus) (c : Catalog a.Schema) (p : Publisher a.Schema) (sub : Subscriber a.Schema)
      (msg : T) (body : List ℕ) where
    -- The bytes of the message's frame.
    abbrev pub record_of : List ℕ
    record_of = Frame.encode (Frame.new p.schema_fp body)

    publish-pushes :
        (s : Inner b.World) {ring : Mapped}
        → serde.encode p.schema msg ≡ ok body
        → get p.ring s.cells ≡ some ring
        → ((publish b a c serde p msg s).1.world ≡ (b.push ring record_of s.world).1)
    unfolding publish push_on
    publish-pushes s e at_ = ground (arith, e, at_)

    recv-pops :
        (t : Inner b.World) {ring : Mapped} {w : b.World}
        → IsFrame (Frame.new p.schema_fp body)
        → p.schema_fp ≡ sub.schema_fp
        → serde.decode sub.schema body ≡ ok msg
        → get sub.ring t.cells ≡ some ring
        → b.pop ring t.world ≡ (some record_of, w)
        → (recv b a serde sub t).0 ≡ ok (some msg)
    unfolding recv
    recv-pops t v same again at_ popped =
        ground
          (arith, at_, popped, read_message-frame sub (Frame.new p.schema_fp body) v same, again)

    -- Publishing a message pushes the bytes of one frame onto the channel's ring, and a subscriber
    -- that pops those bytes gets the message: when it encodes and decodes, the frame fits the wire
    -- and both ends have the same fingerprint.
    pub publish-recv :
        (s t : Inner b.World) {ring popped : Mapped} {w : b.World}
        → serde.encode p.schema msg ≡ ok body
        → serde.decode sub.schema body ≡ ok msg
        → p.schema_fp ≡ sub.schema_fp
        → IsFrame (Frame.new p.schema_fp body)
        → get p.ring s.cells ≡ some ring
        → get sub.ring t.cells ≡ some popped
        → b.pop popped t.world ≡ (some record_of, w)
        → ((publish b a c serde p msg s).1.world ≡ (b.push ring record_of s.world).1)
          × ((recv b a serde sub t).0 ≡ ok (some msg))
    publish-recv s t e again same v at_ at_sub pops =
        (publish-pushes s e at_, recv-pops t v same again at_sub pops)
