-- ===== src/Broker/Handlers.antt =====
-- The handlers of crates/impulsed/src/broker.rs and the registry.
use impulse_ring.Prelude.{
  suc, ℕ, ◌≡◌, refl, inl, inr, false, List, some, Result, ok, err, int_eq, Option-cases,
  Result-cases, max_zero, i64_as_u64, i64_as_i32, str_eq,
}
use impulse_ring.Frame
use impulse_ring.Frame.{Frame, Fingerprint}
use impulse_ring.Names.{Sha256, channel_arena, function_arena}
use impulse_ring.Control.{clamp_arena_cap}
use impulse_ring.Proto.{
  Kind, register, register_reply, unregister, publish_channel, publish_reply, unpublish,
  list_channels, channel_list, subscribe, subscribe_reply, expose_function, expose_reply,
  lookup_function, lookup_reply, heartbeat, rpc_request, rpc_response, i64_to_fp, Avro, parse,
  Register, PublishChannel, Subscribe, ExposeFunction, Unregister, Unpublish, ListChannels,
  LookupFunction,
}
use impulse_ring.Proto.Catalog.{Catalog, kind_of, from_frame}
use impulse_ring.Registry.{
  release_channel, channel_name_taken, function_name_taken, resolve_subscribe, alloc_channel_id,
  alloc_fn_id, add_client, mark_subscribed, insert_channel, insert_function,
}
use impulse_ring.Registry.Invariant.{
  add_client-IsValid, mark_subscribed-IsValid, insert_channel-IsValid, insert_function-IsValid,
  alloc_channel_id-IsValid, alloc_fn_id-IsValid,
}
use impulse_ring.Registry.Access.{AccessResult-cases, resolve_subscribe-present}
use impulse_ring.Broker.{
  Broker, Outside, Handled, release_client, open_reply, registered, on_register, on_unregister,
  claim_channel_name, claim_function_name, publish_as, published, on_publish, after_release,
  on_unpublish, on_list, subscribed_to, on_subscribe, parse_both, expose_as, exposed, on_expose,
  on_lookup, dispatch, handle,
}
use impulse_ring.Broker.Validity.{Leaves, reply-keeps}
use impulse_ring.Broker.Accounts.{
  claim_channel_name-Balanced, claim_function_name-Balanced, insert_channel-Balanced,
  insert_function-Balanced,
}
use impulse_ring.Broker.Claims.{claim_channel_name-Claimed}
use impulse_ring.Broker.FunctionClaims.{claim_function_name-Claimed}
use impulse_ring.Broker.Room.{Room-HasRoom, Room-succ, Room-less, Rooms-less, Rooms-same}
use impulse_ring.Broker.Fit.{Fit, Fit-less, release_client-Fit, make_arena-cases, after_release-Fit}

module _ (o : Outside) (a : Avro) (c : Catalog a.Schema) (sha256 : Sha256) where
  registered-Fit :
      {n : ℕ} (b : Broker) (m : Register)
      → Fit (suc n) b
      → Leaves (Fit n) (registered o a c sha256 b m)
  unfolding registered add_client
  registered-Fit {n} b m v = elim (Result-cases (open_reply o m.reply_segment)) [
    | inr (e, failed) ↦ rw (failed, registered) (Fit-less b v)
    | inl (opened, e) ↦
        rw (e, registered)
          (reply-keeps o a c sha256 _ _ _ _ (Fit n) (λ rings. (
            (add_client-IsValid m.app_name (i64_as_i32 m.pid) v.0.0 (Room-HasRoom v.1.0), v.0.1),
            (Room-succ v.1.0, Room-less v.1.1, Room-less v.1.2),
          )))
  ]

  publish_as-Fit :
      {n : ℕ} (b : Broker) (m : PublishChannel) (fp : Fingerprint)
      → Fit (suc n) b
      → channel_name_taken b.reg m.channel ≡ false
      → Leaves (Fit n) (publish_as o a c sha256 b m fp)
  unfolding publish_as alloc_channel_id insert_channel
  publish_as-Fit {n} b m fp v untaken =
      elim (make_arena-cases o (record b { reg = (alloc_channel_id b.reg).0 })
        (channel_arena (i64_as_u64 b.reg.next_channel)) (clamp_arena_cap (max_zero m.arena_cap))) [
          | inr (e, failed) ↦
              rw (failed, publish_as)
                (reply-keeps o a c sha256 _ _ _ _ (Fit n) (λ rings. (
                  (alloc_channel_id-IsValid v.0.0 (Room-HasRoom v.1.1), v.0.1),
                  (Room-less v.1.0, Room-succ v.1.1, Room-less v.1.2),
                )))
          | inl (s, made) ↦
              rw (made, publish_as)
                (reply-keeps o a c sha256 _ _ _ _ (Fit n) (λ rings. (
                  (
                    insert_channel-IsValid _ v.0.0 (Room-HasRoom v.1.1) refl untaken,
                    insert_channel-Balanced b _ s v.0.0 (Room-HasRoom v.1.1) refl refl v.0.1,
                  ),
                  (Room-less v.1.0, Room-succ v.1.1, Room-less v.1.2),
                )))
        ]

  published-Fit :
      {n : ℕ} (b : Broker) (m : PublishChannel)
      → Fit (suc n) b
      → Leaves (Fit n) (published o a c sha256 b m)
  unfolding published
  published-Fit {n} b m v = elim (Option-cases (claim_channel_name o b m.channel)) [
    | inl live ↦
        rw (live, published) (reply-keeps o a c sha256 _ _ _ _ (Fit n) (λ rings. Fit-less b v))
    | inr (b1, e) ↦
        let (v1, untaken, same) = rw e at (claim_channel_name-Claimed o b m.channel v.0.0) in
        let a1 = rw e at (claim_channel_name-Balanced o b m.channel v.0.0 v.0.1) in
        elim (Result-cases (parse a m.schema_json)) [
          | inr (bad, failed) ↦
              rw (e, failed, published)
                (reply-keeps o a c sha256 _ _ _ _ (Fit n)
                  (λ rings. ((v1, a1), Rooms-same b.reg b1.reg same (Rooms-less b.reg v.1))))
          | inl (p, parsed) ↦
              rw (e, parsed, published)
                (publish_as-Fit b1 m p.1 ((v1, a1), Rooms-same b.reg b1.reg same v.1) untaken)
        ]
  ]

  expose_as-Fit :
      {n : ℕ} (b : Broker) (m : ExposeFunction) (req_fp resp_fp : Fingerprint)
      → Fit (suc n) b
      → function_name_taken b.reg m.fn_name ≡ false
      → Leaves (Fit n) (expose_as o a c sha256 b m req_fp resp_fp)
  unfolding expose_as alloc_fn_id insert_function
  expose_as-Fit {n} b m req_fp resp_fp v untaken =
      elim (make_arena-cases o (record b { reg = (alloc_fn_id b.reg).0 })
        (function_arena (i64_as_u64 b.reg.next_fn)) (clamp_arena_cap (max_zero m.req_arena_cap))) [
          | inr (e, failed) ↦
              rw (failed, expose_as)
                (reply-keeps o a c sha256 _ _ _ _ (Fit n) (λ rings. (
                  (alloc_fn_id-IsValid v.0.0 (Room-HasRoom v.1.2), v.0.1),
                  (Room-less v.1.0, Room-less v.1.1, Room-succ v.1.2),
                )))
          | inl (s, made) ↦
              rw (made, expose_as)
                (reply-keeps o a c sha256 _ _ _ _ (Fit n) (λ rings. (
                  (
                    insert_function-IsValid _ v.0.0 (Room-HasRoom v.1.2) refl untaken,
                    insert_function-Balanced b _ s v.0.0 (Room-HasRoom v.1.2) refl refl v.0.1,
                  ),
                  (Room-less v.1.0, Room-less v.1.1, Room-succ v.1.2),
                )))
        ]

  exposed-Fit :
      {n : ℕ} (b : Broker) (m : ExposeFunction)
      → Fit (suc n) b
      → Leaves (Fit n) (exposed o a c sha256 b m)
  unfolding exposed
  exposed-Fit {n} b m v = elim (Option-cases (claim_function_name o b m.fn_name)) [
    | inl live ↦
        rw (live, exposed) (reply-keeps o a c sha256 _ _ _ _ (Fit n) (λ rings. Fit-less b v))
    | inr (b1, e) ↦
        let (v1, untaken, same) = rw e at (claim_function_name-Claimed o b m.fn_name v.0.0) in
        let a1 = rw e at (claim_function_name-Balanced o b m.fn_name v.0.0 v.0.1) in
        elim (Result-cases (parse_both o a c sha256 m.req_schema_json m.resp_schema_json)) [
          | inr (bad, failed) ↦
              rw (e, failed, exposed)
                (reply-keeps o a c sha256 _ _ _ _ (Fit n)
                  (λ rings. ((v1, a1), Rooms-same b.reg b1.reg same (Rooms-less b.reg v.1))))
          | inl (p, parsed) ↦
              rw (e, parsed, exposed)
                (expose_as-Fit b1 m p.0 p.1 ((v1, a1), Rooms-same b.reg b1.reg same v.1) untaken)
        ]
  ]

  subscribed_to-Fit :
      {n : ℕ} (b : Broker) (m : Subscribe)
      → Fit (suc n) b
      → Leaves (Fit n) (subscribed_to o a c sha256 b m)
  unfolding subscribed_to mark_subscribed
  subscribed_to-Fit {n} b m v =
      elim (AccessResult-cases
        (resolve_subscribe sha256 b.reg m.channel_id m.access_key (i64_to_fp m.expected_fp))) [
          | inr (code, message, e) ↦
              rw (e, subscribed_to)
                (reply-keeps o a c sha256 _ _ _ _ (Fit n) (λ rings. Fit-less b v))
          | inl (x, e) ↦
              let (meta, here) =
                resolve_subscribe-present sha256 b.reg m.channel_id m.access_key _ x e in
              rw (e, subscribed_to)
                (reply-keeps o a c sha256 _ _ _ _ (Fit n) (λ rings.
                  ((mark_subscribed-IsValid m.channel_id here v.0.0, v.0.1), Rooms-less b.reg v.1)))
        ]

  -- A handler whose frame does not decode changes nothing.
  decoding :
      {A : Type 0} {n : ℕ} (b : Broker) (m : Result A) (f : A → Handled)
      → Fit (suc n) b
      → ((x : A) → Leaves (Fit n) (f x))
      → Leaves (Fit n) (elim m [ err e ↦ some (err e, b) | ok x ↦ f x ])
  decoding b (ok x) f v h = h x
  decoding b (err e) f v h = Fit-less b v

  dispatch-Fit :
      {n : ℕ} (b : Broker) (frame : Frame) (k : Kind)
      → Fit (suc n) b
      → Leaves (Fit n) (dispatch o a c sha256 b frame k)
  unfolding dispatch on_register on_unregister on_publish on_unpublish on_list on_subscribe
      on_expose on_lookup
  dispatch-Fit {n} b frame register v = decoding b _ _ v (λ m. registered-Fit b m v)
  dispatch-Fit {n} b frame unregister v =
      decoding b (from_frame a c unregister frame) (λ m. some (ok tt, release_client b m.client_id))
        v (λ (m : Unregister). release_client-Fit b m.client_id v)
  dispatch-Fit {n} b frame publish_channel v = decoding b _ _ v (λ m. published-Fit b m v)
  dispatch-Fit {n} b frame unpublish v =
      decoding b (from_frame a c unpublish frame)
        (λ m. some (
          ok tt,
          after_release o a c sha256 b (release_channel b.reg m.channel m.client_id o.instant),
        ))
        v (λ (m : Unpublish). after_release-Fit o a c sha256 b m.channel m.client_id v)
  dispatch-Fit {n} b frame list_channels v =
      decoding b _ _ v
        (λ (m : ListChannels). reply-keeps o a c sha256 _ _ _ _ (Fit n) (λ rings. Fit-less b v))
  dispatch-Fit {n} b frame subscribe v = decoding b _ _ v (λ m. subscribed_to-Fit b m v)
  dispatch-Fit {n} b frame expose_function v = decoding b _ _ v (λ m. exposed-Fit b m v)
  dispatch-Fit {n} b frame lookup_function v =
      decoding b _ _ v
        (λ (m : LookupFunction). reply-keeps o a c sha256 _ _ _ _ (Fit n) (λ rings. Fit-less b v))
  dispatch-Fit {n} b frame heartbeat v = Fit-less b v
  dispatch-Fit {n} b frame register_reply v = Fit-less b v
  dispatch-Fit {n} b frame publish_reply v = Fit-less b v
  dispatch-Fit {n} b frame channel_list v = Fit-less b v
  dispatch-Fit {n} b frame subscribe_reply v = Fit-less b v
  dispatch-Fit {n} b frame expose_reply v = Fit-less b v
  dispatch-Fit {n} b frame lookup_reply v = Fit-less b v
  dispatch-Fit {n} b frame rpc_request v = Fit-less b v
  dispatch-Fit {n} b frame rpc_response v = Fit-less b v

  -- Whatever message comes in, well-formed or not, and whatever the result, the registry stays
  -- well-formed, the mapped arenas stay those of its channels and functions, no more and no fewer,
  -- and each counter goes up by one at most, as long as none is exhausted.
  pub handle-Fit :
      {n : ℕ} (b : Broker) (message : List ℕ)
      → Fit (suc n) b
      → Leaves (Fit n) (handle o a c sha256 b message)
  unfolding handle
  handle-Fit b message v = elim (Result-cases (Frame.decode message)) [
    | inr (e, failed) ↦ rw (failed, handle) (Fit-less b v)
    | inl (frame, decoded) ↦ elim (Option-cases (kind_of a c frame.schema_fp)) [
      | inl unknown ↦ rw (decoded, unknown, handle) (Fit-less b v)
      | inr (k, known) ↦ rw (decoded, known, handle) (dispatch-Fit b frame k v)
    ]
  ]
