-- ===== src/Proto/Catalog/Correlation.antt =====
-- Routing a reply by its correlation id (`correlation_id` of crates/core/src/proto.rs).
use impulse_ring.Prelude.{
  ℕ, ◌≡◌, refl, ap, List, Option, none, some, ℤ, Str, Result, ok, err, other, ◌>>=◌,
}
use impulse_ring.Frame.{Frame}
use impulse_ring.Proto.Schemas.{
  Kind, register, register_reply, unregister, publish_channel, publish_reply, unpublish,
  list_channels, channel_list, subscribe, subscribe_reply, expose_function, expose_reply,
  lookup_function, lookup_reply, heartbeat, rpc_request, rpc_response,
}
use impulse_ring.Proto.Codec.{Message, Avro}
use impulse_ring.Proto.Catalog.{Catalog, to_frame, from_frame, correlation_of, correlation_id}
use impulse_ring.Proto.Catalog.Routing.{Lists, to_frame-from_frame}

-- The id by which a reply finds the call that waits for it; a request is no reply.
abbrev reply_id : (k : Kind) → Message k → Option ℤ
reply_id register_reply m = some m.correlation_id
reply_id publish_reply m = some m.correlation_id
reply_id channel_list m = some m.correlation_id
reply_id subscribe_reply m = some m.correlation_id
reply_id expose_reply m = some m.correlation_id
reply_id lookup_reply m = some m.correlation_id
reply_id rpc_response m = some m.correlation_id
reply_id k m = none

abbrev Routed : Option ℤ → Result ℤ → Type 0
Routed (some id) out = out ≡ ok id
Routed none out = (message : Str) × (out ≡ err (other message))

module _ (a : Avro) (c : Catalog a.Schema) where
  correlation_of-Routed :
      (k : Kind) (msg : Message k) (frame : Frame)
      → from_frame a c k frame ≡ ok msg
      → Routed (reply_id k msg) (correlation_of a c k frame)
  unfolding correlation_of
  correlation_of-Routed register_reply msg frame e = ap (λ r. r >>= λ m. ok m.correlation_id) e
  correlation_of-Routed publish_reply msg frame e = ap (λ r. r >>= λ m. ok m.correlation_id) e
  correlation_of-Routed channel_list msg frame e = ap (λ r. r >>= λ m. ok m.correlation_id) e
  correlation_of-Routed subscribe_reply msg frame e = ap (λ r. r >>= λ m. ok m.correlation_id) e
  correlation_of-Routed expose_reply msg frame e = ap (λ r. r >>= λ m. ok m.correlation_id) e
  correlation_of-Routed lookup_reply msg frame e = ap (λ r. r >>= λ m. ok m.correlation_id) e
  correlation_of-Routed rpc_response msg frame e = ap (λ r. r >>= λ m. ok m.correlation_id) e
  correlation_of-Routed register msg frame e = (_, refl)
  correlation_of-Routed unregister msg frame e = (_, refl)
  correlation_of-Routed publish_channel msg frame e = (_, refl)
  correlation_of-Routed unpublish msg frame e = (_, refl)
  correlation_of-Routed list_channels msg frame e = (_, refl)
  correlation_of-Routed subscribe msg frame e = (_, refl)
  correlation_of-Routed expose_function msg frame e = (_, refl)
  correlation_of-Routed lookup_function msg frame e = (_, refl)
  correlation_of-Routed heartbeat msg frame e = (_, refl)
  correlation_of-Routed rpc_request msg frame e = (_, refl)

  -- The frame of a message of a listed kind that the codec reads back gives the correlation id that
  -- the message carries when it is a reply, and an error when it is a request.
  pub correlation_id-Routed :
      {k : Kind} {s : a.Schema} {f : ℕ} (msg : Message k) (frame : Frame)
      → Lists a c k s f
      → ((body : List ℕ) → a.encode k s msg ≡ ok body → a.decode k s body ≡ ok msg)
      → to_frame a c k msg ≡ ok frame
      → Routed (reply_id k msg) (correlation_id a c frame)
  unfolding correlation_id
  correlation_id-Routed {k} msg frame l law e =
      let (kind_is, read, _) = to_frame-from_frame a c msg frame l law e in
      rw (kind_is, correlation_id) (correlation_of-Routed k msg frame read)
