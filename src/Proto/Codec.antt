-- ===== src/Proto/Codec.antt =====
-- The message type of each kind, and what the bus needs of the Avro library.
use impulse_ring.Prelude.{
  ℕ, zero, suc, ◌≡◌, ◌↔◌, Bool, true, List, Str, Eq, nat_eqb, nat_eqb_iff, Result, ok, ◌>>=◌, take,
  from_le_bytes, refl, ap, ◌∙◌, sym,
}
use impulse_ring.Proto.Schemas.{
  Kind, register, register_reply, unregister, publish_channel, publish_reply, unpublish,
  list_channels, channel_list, subscribe, subscribe_reply, expose_function, expose_reply,
  lookup_function, lookup_reply, heartbeat, rpc_request, rpc_response,
}
use impulse_ring.Proto.Messages.{
  Register, RegisterReply, Unregister, PublishChannel, PublishReply, Unpublish, ListChannels,
  ChannelList, Subscribe, SubscribeReply, ExposeFunction, ExposeReply, LookupFunction, LookupReply,
  Heartbeat, RpcRequest, RpcResponse,
}

abbrev pub Message : Kind → Type 0
Message register = Register
Message register_reply = RegisterReply
Message unregister = Unregister
Message publish_channel = PublishChannel
Message publish_reply = PublishReply
Message unpublish = Unpublish
Message list_channels = ListChannels
Message channel_list = ChannelList
Message subscribe = Subscribe
Message subscribe_reply = SubscribeReply
Message expose_function = ExposeFunction
Message expose_reply = ExposeReply
Message lookup_function = LookupFunction
Message lookup_reply = LookupReply
Message heartbeat = Heartbeat
Message rpc_request = RpcRequest
Message rpc_response = RpcResponse

-- The place of a kind in the enumeration, by which kinds are told apart.
abbrev pub kind_index : Kind → ℕ
kind_index register = 0
kind_index register_reply = 1
kind_index unregister = 2
kind_index publish_channel = 3
kind_index publish_reply = 4
kind_index unpublish = 5
kind_index list_channels = 6
kind_index channel_list = 7
kind_index subscribe = 8
kind_index subscribe_reply = 9
kind_index expose_function = 10
kind_index expose_reply = 11
kind_index lookup_function = 12
kind_index lookup_reply = 13
kind_index heartbeat = 14
kind_index rpc_request = 15
kind_index rpc_response = 16

abbrev kind_at : ℕ → Kind
kind_at zero = register
kind_at (suc zero) = register_reply
kind_at (suc (suc zero)) = unregister
kind_at (suc (suc (suc zero))) = publish_channel
kind_at (suc (suc (suc (suc zero)))) = publish_reply
kind_at (suc (suc (suc (suc (suc zero))))) = unpublish
kind_at (suc (suc (suc (suc (suc (suc zero)))))) = list_channels
kind_at (suc (suc (suc (suc (suc (suc (suc zero))))))) = channel_list
kind_at (suc (suc (suc (suc (suc (suc (suc (suc zero)))))))) = subscribe
kind_at (suc (suc (suc (suc (suc (suc (suc (suc (suc zero))))))))) = subscribe_reply
kind_at (suc (suc (suc (suc (suc (suc (suc (suc (suc (suc zero)))))))))) = expose_function
kind_at (suc (suc (suc (suc (suc (suc (suc (suc (suc (suc (suc zero))))))))))) = expose_reply
kind_at (suc (suc (suc (suc (suc (suc (suc (suc (suc (suc (suc (suc zero)))))))))))) =
    lookup_function
kind_at (suc (suc (suc (suc (suc (suc (suc (suc (suc (suc (suc (suc (suc zero))))))))))))) =
    lookup_reply
kind_at (suc (suc (suc (suc (suc (suc (suc (suc (suc (suc (suc (suc (suc (suc zero)))))))))))))) =
    heartbeat
kind_at
      (suc
        (suc (suc (suc (suc (suc (suc (suc (suc (suc (suc (suc (suc (suc (suc zero))))))))))))))) =
    rpc_request
kind_at
      (suc (
        suc
          (suc (suc (suc (suc (suc (suc (suc (suc (suc (suc (suc (suc (suc (suc n)))))))))))))))) =
    rpc_response

kind_at_index : (k : Kind) → kind_at (kind_index k) ≡ k
kind_at_index register = refl
kind_at_index register_reply = refl
kind_at_index unregister = refl
kind_at_index publish_channel = refl
kind_at_index publish_reply = refl
kind_at_index unpublish = refl
kind_at_index list_channels = refl
kind_at_index channel_list = refl
kind_at_index subscribe = refl
kind_at_index subscribe_reply = refl
kind_at_index expose_function = refl
kind_at_index expose_reply = refl
kind_at_index lookup_function = refl
kind_at_index lookup_reply = refl
kind_at_index heartbeat = refl
kind_at_index rpc_request = refl
kind_at_index rpc_response = refl

abbrev kind_eqb : Kind → Kind → Bool
kind_eqb j k = nat_eqb (kind_index j) (kind_index k)

pub kind_eqb_iff : (j k : Kind) → (kind_eqb j k ≡ true) ↔ (j ≡ k)
kind_eqb_iff j k = (
  λ h.
      sym (kind_at_index j)
      ∙ ap kind_at ((nat_eqb_iff (kind_index j) (kind_index k)).0 h)
      ∙ kind_at_index k,
  λ e. (nat_eqb_iff (kind_index j) (kind_index k)).1 (ap kind_index e),
)

instance abbrev pub kind_eq : Eq Kind
kind_eq = record { equals = kind_eqb; equals_iff = kind_eqb_iff }

-- The `apache_avro` crate and serde, as far as control messages use them: parsing a schema text,
-- the bytes of a schema's Rabin digest, and the datum codec of each message type.
pub record Avro : Type 1 where
  pub Schema : Type 0
  pub parse_str : Str → Result Schema
  pub rabin : Schema → List ℕ
  pub encode : (k : Kind) → Schema → Message k → Result (List ℕ)
  pub decode : (k : Kind) → Schema → List ℕ → Result (Message k)

module _ (a : Avro) where
  open a use {Schema, parse_str, rabin}

  -- The first 8 bytes of the digest, or all of a shorter one and zeros, as a little-endian `u64`.
  unfoldable pub fingerprint : Schema → ℕ
  fingerprint schema = from_le_bytes (take 8 (rabin schema))

  unfoldable pub parse : Str → Result (Schema × ℕ)
  parse json = parse_str json >>= λ schema. ok (schema, fingerprint schema)
