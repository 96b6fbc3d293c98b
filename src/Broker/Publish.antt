-- ===== src/Broker/Publish.antt =====
-- What a publish (crates/impulsed/src/broker.rs) that goes through leaves for its subscribers.
use mathlib.Core.Path.{subst}
use impulse_ring.Prelude.{
  inl, inr, ℕ, ◌≤◌, ◌≡◌, refl, some, Str, ℤ, get, insert, int_eq, str_eq, max_zero, i64_as_u64, ok,
  Bool-cases, is_empty, get-insert-here, arith,
}
use impulse_ring.Segment.{Segment}
use impulse_ring.Ring.{ring_bytes, write_header}
use impulse_ring.Frame.{Fingerprint}
use impulse_ring.Names.{Sha256, key_hash, channel_arena}
use impulse_ring.Names.Keys.{key_matches_iff}
use impulse_ring.Control.{clamp_arena_cap}
use impulse_ring.Control.Arena.{clamp_arena_cap-format}
use impulse_ring.Proto.{Avro, parse, PublishChannel}
use impulse_ring.Proto.Catalog.{Catalog}
use impulse_ring.Registry.{
  Registry, ChannelMeta, granted, check_key, check_fp, resolve_subscribe, alloc_channel_id,
  insert_channel,
}
use impulse_ring.Registry.Invariant.{IsValid}
use impulse_ring.Broker.{
  Broker, Outside, make_arena, key_of, claim_channel_name, publish_as, published,
}
use impulse_ring.Broker.Validity.{Leaves, reply-keeps}
use impulse_ring.Broker.Claims.{claim_channel_name-Claimed}

make_arena-ok :
    (o : Outside) (b : Broker) (name : Str) (requested : ℕ) (s : Segment)
    → o.create name (ring_bytes (clamp_arena_cap requested)) ≡ ok s
    → ring_bytes (clamp_arena_cap requested) ≤ s.len
    → make_arena o b name (clamp_arena_cap requested)
      ≡ ok (
        name,
        record b { arenas = insert name (write_header s 0 (clamp_arena_cap requested)) b.arenas },
      )
unfolding make_arena
make_arena-ok o b name requested s created long =
    rw (created, clamp_arena_cap-format requested s long, make_arena) refl

module _ (o : Outside) (a : Avro) (c : Catalog a.Schema) (sha256 : Sha256) where
  -- The key that a channel was published with opens it.
  key_of-check_key :
      (access_key : Str) → check_key sha256 (key_of o a c sha256 access_key) access_key ≡ granted tt
  unfolding check_key
  key_of-check_key access_key = elim (Bool-cases (is_empty access_key)) [
    | inl public ↦ rw (public, check_key) refl
    | inr private ↦
        let same = (key_matches_iff sha256 access_key (key_hash sha256 access_key) refl).1 refl in
        rw (private, same, check_key) refl
  ]

  check_fp_self : (f : Fingerprint) → check_fp f f ≡ granted tt
  unfolding check_fp
  check_fp_self f = ground arith

  -- A subscriber to channel `id` gets this arena, which is mapped and formatted.
  abbrev pub Served : ℤ → Str → Fingerprint → Segment → Broker → Type 0
  Served id access_key fp arena b =
      (resolve_subscribe sha256 b.reg id access_key fp
        ≡ granted (channel_arena (i64_as_u64 id), fp))
      × (get (channel_arena (i64_as_u64 id)) b.arenas ≡ some arena)

  -- A channel that has just been entered is granted with its key and its schema.
  insert_channel-resolve :
      (r : Registry) (meta : ChannelMeta) (access_key : Str)
      → check_key sha256 meta.key access_key ≡ granted tt
      → resolve_subscribe sha256 (insert_channel r meta) meta.id access_key meta.schema_fp
        ≡ granted (meta.arena, meta.schema_fp)
  unfolding resolve_subscribe insert_channel
  insert_channel-resolve r meta access_key opens =
      rw
        (
          get-insert-here meta.id meta r.channels,
          opens,
          check_fp_self meta.schema_fp,
          resolve_subscribe,
        )
        refl

  publish_as-Served :
      (b : Broker) (m : PublishChannel) (fp : Fingerprint) (s : Segment)
      → o.create
          (channel_arena (i64_as_u64 b.reg.next_channel))
          (ring_bytes (clamp_arena_cap (max_zero m.arena_cap)))
        ≡ ok s
      → ring_bytes (clamp_arena_cap (max_zero m.arena_cap)) ≤ s.len
      → Leaves
          (Served b.reg.next_channel m.access_key fp
            (write_header s 0 (clamp_arena_cap (max_zero m.arena_cap))))
          (publish_as o a c sha256 b m fp)
  unfolding publish_as alloc_channel_id
  publish_as-Served b m fp s created long =
      let arena = write_header s 0 (clamp_arena_cap (max_zero m.arena_cap)) in
      let made =
        make_arena-ok o (record b { reg = (alloc_channel_id b.reg).0 })
          (channel_arena (i64_as_u64 b.reg.next_channel)) (max_zero m.arena_cap) s created long in
      rw (made, publish_as)
        (reply-keeps o a c sha256 _ _ _ _ (Served b.reg.next_channel m.access_key fp arena)
          (λ rings. (
            insert_channel-resolve _ _ m.access_key (key_of-check_key m.access_key),
            get-insert-here (channel_arena (i64_as_u64 b.reg.next_channel)) arena b.arenas,
          )))

  -- A publish that gets its name, with a schema that parses and a segment of the length asked for,
  -- leaves the channel for everybody with its key and its schema: under the next id, in a formatted
  -- arena of the capacity granted.
  pub published-Served :
      (b b1 : Broker) (m : PublishChannel) (schema : a.Schema) (fp : Fingerprint) (s : Segment)
      → IsValid b.reg
      → claim_channel_name o b m.channel ≡ some b1
      → parse a m.schema_json ≡ ok (schema, fp)
      → o.create
          (channel_arena (i64_as_u64 b.reg.next_channel))
          (ring_bytes (clamp_arena_cap (max_zero m.arena_cap)))
        ≡ ok s
      → ring_bytes (clamp_arena_cap (max_zero m.arena_cap)) ≤ s.len
      → Leaves
          (Served b.reg.next_channel m.access_key fp
            (write_header s 0 (clamp_arena_cap (max_zero m.arena_cap))))
          (published o a c sha256 b m)
  unfolding published
  published-Served b b1 m schema fp s v claimed parsed created long =
      let same = (rw claimed at (claim_channel_name-Claimed o b m.channel v)).2.1 in
      rw (claimed, parsed, published)
        (subst
          (λ n.
            Leaves
              (Served n m.access_key fp (write_header s 0 (clamp_arena_cap (max_zero m.arena_cap))))
              (publish_as o a c sha256 b1 m fp))
          same (publish_as-Served b1 m fp s (rw same created) long))
