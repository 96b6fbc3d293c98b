-- ===== src/Broker/Replies.antt =====
-- `reply` (crates/impulsed/src/broker.rs) on a client's ring.
use impulse_ring.Prelude.{
  ℕ, ◌≡◌, refl, inl, inr, ◌⊎◌, List, ◌∷◌, some, true, false, bytes, ℤ, get, insert, int_eq, ok, err,
  other,
}
use impulse_ring.Segment.{Segment}
use impulse_ring.Queue.{Queue}
use impulse_ring.Ring.Run.{Rests}
use impulse_ring.Ring.Blocking.{Meanwhile, Placed, Refused, push_blocking-outcome}
use impulse_ring.Frame
use impulse_ring.Frame.{Frame}
use impulse_ring.Names.{Sha256}
use impulse_ring.Proto.{Kind, Message, Avro}
use impulse_ring.Proto.Catalog.{Catalog, to_frame}
use impulse_ring.Broker.{Broker, ReplyRing, Outside, Handled, reply}

-- The broker with a client's reply ring written.
abbrev with_ring : Broker → ℤ → ReplyRing → Segment → Broker
with_ring b client_id r s = record b {
  reply_rings = insert client_id (record r { segment = s }) b.reply_rings;
}

-- Either the frame stands behind the first of these queues that had room for it, or none had until
-- the deadline, the ring holds the last of them and the handler fails.
abbrev pub Replied : Broker → ℤ → ReplyRing → List ℕ → List Queue → Handled → Type 0
Replied b client_id r message queues out =
    ((s : Segment) × Placed r.ring message queues (some (true, s))
      × (out ≡ some (ok tt, with_ring b client_id r s)))
    ⊎ ((s : Segment) × Refused r.ring message queues (some (false, s))
        × (out
            ≡ some
                (err (other (bytes "reply ring full (client stuck?)")), with_ring b client_id r s)))

-- A reply to a known client tries the queue that its ring holds when the reply begins, and then
-- those that the client leaves after each sleep, whole calls each: the frame goes in behind the
-- first of these that has room, and when none has until the deadline, the handler fails and the
-- ring holds the last of them.
pub reply-Replied :
    (o : Outside) (a : Avro) (c : Catalog a.Schema) (sha256 : Sha256) (b : Broker) (client_id : ℤ)
    (k : Kind) (msg : Message k) (queues : List Queue) {r : ReplyRing} {frame : Frame} {q : Queue}
    → get client_id b.reply_rings ≡ some r
    → to_frame a c k msg ≡ ok frame
    → Rests r.ring (o.meanwhile r.segment) q
    → Meanwhile r.ring q o.sleeps queues
    → Replied b client_id r (Frame.encode frame) (q ∷ queues) (reply o a c sha256 b client_id k msg)
unfolding reply
reply-Replied o a c sha256 b client_id k msg queues {frame = frame} known made rests leaves =
    elim (push_blocking-outcome (Frame.encode frame) o.sleeps queues leaves rests) [
      | inl p ↦ let e = p.result in inl (p.left, rw e at p, rw (known, made, e, reply) refl)
      | inr p ↦ let e = p.result in inr (p.left, rw e at p, rw (known, made, e, reply) refl)
    ]
