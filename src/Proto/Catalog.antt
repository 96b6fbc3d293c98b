-- ===== src/Proto/Catalog.antt =====
-- The catalog of schemas by kind and by fingerprint, and the frames of typed messages.
pub mod Build
pub mod Correlation
pub mod Routing
use impulse_ring.Prelude.{
  ℕ, List, [], ◌∷◌, Option, none, some, Str, bytes, ℤ, u64_as_i64, i64_as_u64, Map, get, insert,
  contains_key, if◌then◌else◌, Eq, nat_eq, Result, ok, err, panic, other, ◌>>=◌, ◌++◌,
}
use impulse_ring.Frame
use impulse_ring.Frame.{Frame}
use impulse_ring.Proto.Schemas.{
  Kind, schema_for, legacy_schemas, all_kinds, register, register_reply, unregister,
  publish_channel, publish_reply, unpublish, list_channels, channel_list, subscribe,
  subscribe_reply, expose_function, expose_reply, lookup_function, lookup_reply, heartbeat,
  rpc_request, rpc_response,
}
use impulse_ring.Proto.Codec.{Message, Avro, kind_eq, parse}

abbrev pub fp_to_i64 : ℕ → ℤ
fp_to_i64 fp = u64_as_i64 fp

abbrev pub i64_to_fp : ℤ → ℕ
i64_to_fp v = i64_as_u64 v

-- `{kind:?}`.
unfoldable pub kind_debug : Kind → Str
kind_debug register = bytes "Register"
kind_debug register_reply = bytes "RegisterReply"
kind_debug unregister = bytes "Unregister"
kind_debug publish_channel = bytes "PublishChannel"
kind_debug publish_reply = bytes "PublishReply"
kind_debug unpublish = bytes "Unpublish"
kind_debug list_channels = bytes "ListChannels"
kind_debug channel_list = bytes "ChannelList"
kind_debug subscribe = bytes "Subscribe"
kind_debug subscribe_reply = bytes "SubscribeReply"
kind_debug expose_function = bytes "ExposeFunction"
kind_debug expose_reply = bytes "ExposeReply"
kind_debug lookup_function = bytes "LookupFunction"
kind_debug lookup_reply = bytes "LookupReply"
kind_debug heartbeat = bytes "Heartbeat"
kind_debug rpc_request = bytes "RpcRequest"
kind_debug rpc_response = bytes "RpcResponse"

-- `entry(k).or_insert(v)`.
abbrev pub or_insert {ℓ κ} : {K : Type ℓ} ⦃e : Eq K⦄ {V : Type κ} → K → V → Map K V → Map K V
or_insert k v m = if contains_key k m then m else insert k v m

pub record Catalog (Schema : Type 0) : Type 0 where
  pub schemas : Map Kind Schema
  pub fps : Map Kind ℕ
  pub by_fp : Map ℕ Kind
  pub writer_schemas : Map ℕ Schema

-- `.expect(…)` panics on an error.
abbrev pub expect {ℓ} : {A : Type ℓ} → Result A → Result A
expect (ok x) = ok x
expect (err e) = err panic

module _ (a : Avro) where
  open a use {Schema}

  abbrev pub empty : Catalog Schema
  empty = record { schemas = []; fps = []; by_fp = []; writer_schemas = [] }

  -- The rounds of the two loops of `build`.
  unfoldable pub add_current : Catalog Schema → Kind → Result (Catalog Schema)
  add_current c k = expect (parse a (schema_for k)) >>= λ p. ok (record {
    schemas = insert k p.0 c.schemas;
    fps = insert k p.1 c.fps;
    by_fp = insert p.1 k c.by_fp;
    writer_schemas = insert p.1 p.0 c.writer_schemas;
  })

  unfoldable pub add_legacy : Catalog Schema → Kind × Str → Result (Catalog Schema)
  add_legacy c (k, json) = expect (parse a json) >>= λ p. ok (record c {
    by_fp = or_insert p.1 k c.by_fp;
    writer_schemas = or_insert p.1 p.0 c.writer_schemas;
  })

  unfoldable pub fold_current : Catalog Schema → List Kind → Result (Catalog Schema)
  fold_current c [] = ok c
  fold_current c (k ∷ ks) = add_current c k >>= λ c'. fold_current c' ks

  unfoldable pub fold_legacy : Catalog Schema → List (Kind × Str) → Result (Catalog Schema)
  fold_legacy c [] = ok c
  fold_legacy c (l ∷ ls) = add_legacy c l >>= λ c'. fold_legacy c' ls

  unfoldable pub build : Result (Catalog Schema)
  build = fold_current empty all_kinds >>= λ c. fold_legacy c legacy_schemas

  -- Indexing a map by a missing key panics.
  abbrev index {ℓ} : {A : Type ℓ} → Option A → Result A
  index none = err panic
  index (some x) = ok x

  unfoldable pub schema : Catalog Schema → Kind → Result Schema
  schema c k = index (get k c.schemas)

  unfoldable pub fp : Catalog Schema → Kind → Result ℕ
  fp c k = index (get k c.fps)

  unfoldable pub kind_of : Catalog Schema → ℕ → Option Kind
  kind_of c f = get f c.by_fp

  unfoldable pub writer_schema : Catalog Schema → ℕ → Option Schema
  writer_schema c f = get f c.writer_schemas

  -- `catalog()` is `c`, built once.
  module _ (c : Catalog Schema) where
    unfoldable pub to_frame : (k : Kind) → Message k → Result Frame
    to_frame k msg =
        schema c k >>= λ s. a.encode k s msg >>= λ body. fp c k >>= λ f. ok (Frame.new f body)

    unfoldable pub from_frame : (k : Kind) → Frame → Result (Message k)
    from_frame k frame = schema c k >>= λ s. a.decode k s frame.body

    unfoldable pub from_frame_compat : (k : Kind) → Frame → Result (Message k)
    from_frame_compat k frame = elim (writer_schema c frame.schema_fp) [
      | none ↦ err (other (bytes "unknown frame fingerprint"))
      | some s ↦ a.decode k s frame.body
    ]

    unfoldable pub correlation_of : Kind → Frame → Result ℤ
    correlation_of register_reply frame =
        from_frame register_reply frame >>= λ m. ok m.correlation_id
    correlation_of publish_reply frame = from_frame publish_reply frame >>= λ m. ok m.correlation_id
    correlation_of channel_list frame = from_frame channel_list frame >>= λ m. ok m.correlation_id
    correlation_of subscribe_reply frame =
        from_frame subscribe_reply frame >>= λ m. ok m.correlation_id
    correlation_of expose_reply frame = from_frame expose_reply frame >>= λ m. ok m.correlation_id
    correlation_of lookup_reply frame = from_frame lookup_reply frame >>= λ m. ok m.correlation_id
    correlation_of rpc_response frame = from_frame rpc_response frame >>= λ m. ok m.correlation_id
    correlation_of kind frame =
        err (other (bytes "frame kind " ++ (kind_debug kind ++ bytes " is not a routable reply")))

    unfoldable pub correlation_id : Frame → Result ℤ
    unfolding correlation_of
    correlation_id frame = elim (kind_of c frame.schema_fp) [
      | none ↦ err (other (bytes "unknown frame fingerprint"))
      | some kind ↦ correlation_of kind frame
    ]
