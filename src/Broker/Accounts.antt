-- ===== src/Broker/Accounts.antt =====
-- The steps of the broker's handlers (crates/impulsed/src/broker.rs) and the arenas that it keeps
-- mapped.
use impulse_ring.Prelude.{
  ℕ, ◌≡◌, sym, ap, ◌∙◌, inl, inr, List, [], ◌∷◌, Option, none, some, Str, ℤ, i64_as_u64, get,
  insert, contains_key, int_eq, str_eq, Option-cases, Bool-cases, ◌==◌, arith,
}
use impulse_ring.Segment.{Segment}
use impulse_ring.Names.{Sha256, channel_arena, function_arena}
use impulse_ring.Names.Distinct.{
  channel_arena-injective, function_arena-injective, channel_arena-ne-function_arena,
}
use impulse_ring.Proto.{Avro}
use impulse_ring.Proto.Catalog.{Catalog}
use impulse_ring.Registry.{
  ChannelMeta, FunctionMeta, forget_channel, forget_function, drop_channel, drop_channels,
  drop_function, drop_functions, remove_client, remove_client_channels, remove_client_functions,
  release_channel, reap_released, insert_channel, insert_function, alloc_channel_id, alloc_fn_id,
}
use impulse_ring.Registry.Linked.{HasRoom, Below-fresh}
use impulse_ring.Registry.Invariant.{IsValid}
use impulse_ring.Registry.Releases.{named_channel-held}
use impulse_ring.Broker.{
  Broker, Outside, reclaim_arena, reclaim_arenas, release_client, claim_channel_name,
  claim_function_name, after_release, sweep,
}
use impulse_ring.Broker.Arenas.{Accounted, Accounted-remove, Accounted-insert, swapped}
use impulse_ring.Broker.Claims.{ChannelClaim, free, waiting, dead, live, claim_channel_name-outcome}
use impulse_ring.Broker.FunctionClaims.{
  FunctionClaim, unused, orphaned, owned, claim_function_name-outcome,
}

-- The arenas that are mapped are those of the channels and the functions, no more and no fewer.
abbrev pub Balanced : Broker → Type 0
Balanced b =
    Accounted {S = Segment} (λ (c : ChannelMeta). c.arena) (λ (f : FunctionMeta). f.req_arena)
      channel_arena function_arena b.reg.channels b.reg.functions b.arenas

-- A channel, or a function, that goes with its arena.
without_channel :
    (b : Broker) (id : ℤ) {c : ChannelMeta}
    → get id b.reg.channels ≡ some c
    → Balanced b
    → Balanced (reclaim_arena (record b { reg = forget_channel b.reg id c.name }) c.arena)
unfolding reclaim_arena
without_channel b id here a =
    Accounted-remove (λ m n. channel_arena-ne-function_arena m n) channel_arena-injective id a here

without_function :
    (b : Broker) (id : ℤ) {f : FunctionMeta}
    → get id b.reg.functions ≡ some f
    → Balanced b
    → Balanced (reclaim_arena (record b { reg = forget_function b.reg id f.name }) f.req_arena)
unfolding reclaim_arena
without_function b id here a = swapped (
    Accounted-remove (λ m n e. channel_arena-ne-function_arena n m (sym e)) function_arena-injective
      id (swapped a) here)

drop_channels-Balanced :
    (ids : List ℤ) (b : Broker)
    → Balanced b
    → let p = drop_channels b.reg ids in Balanced (reclaim_arenas (record b { reg = p.0 }) p.1)
unfolding drop_channels drop_channel reclaim_arenas reclaim_arena
drop_channels-Balanced [] b a = a
drop_channels-Balanced (id ∷ ids) b a = elim (Option-cases (get id b.reg.channels)) [
  | inl gone ↦ rw (gone, drop_channels, drop_channel) (drop_channels-Balanced ids b a)
  | inr (c, here) ↦
      rw (here, drop_channels, drop_channel)
        (drop_channels-Balanced ids _ (without_channel b id here a))
]

drop_functions-Balanced :
    (ids : List ℤ) (b : Broker)
    → Balanced b
    → let p = drop_functions b.reg ids in Balanced (reclaim_arenas (record b { reg = p.0 }) p.1)
unfolding drop_functions drop_function reclaim_arenas reclaim_arena
drop_functions-Balanced [] b a = a
drop_functions-Balanced (id ∷ ids) b a = elim (Option-cases (get id b.reg.functions)) [
  | inl gone ↦ rw (gone, drop_functions, drop_function) (drop_functions-Balanced ids b a)
  | inr (f, here) ↦
      rw (here, drop_functions, drop_function)
        (drop_functions-Balanced ids _ (without_function b id here a))
]

pub release_client-Balanced :
    (b : Broker) (client_id : ℤ) → Balanced b → Balanced (release_client b client_id)
unfolding release_client remove_client remove_client_channels remove_client_functions
release_client-Balanced b client_id a = drop_functions-Balanced _ _ (drop_channels-Balanced _ b a)

pub sweep-Balanced : (b : Broker) (instant : ℕ) → Balanced b → Balanced (sweep b instant)
unfolding sweep reap_released
sweep-Balanced b instant a = drop_channels-Balanced _ b a

-- What is claimed.
abbrev BalancedIn : Option Broker → Type 0
BalancedIn none = Unit
BalancedIn (some b) = Balanced b

pub claim_channel_name-Balanced :
    (o : Outside) (b : Broker) (name : Str)
    → IsValid b.reg
    → Balanced b
    → BalancedIn (claim_channel_name o b name)
claim_channel_name-Balanced o b name v a = by_claim (claim_channel_name-outcome o b name v)
  where
    by_claim : {out : Option Broker} → ChannelClaim o b name out → BalancedIn out
    by_claim (free untaken) = a
    by_claim (waiting c found waits) =
        without_channel b c.id (named_channel-held name c v found).1 a
    by_claim (dead c found idle is_dead) = release_client-Balanced b c.owner a
    by_claim (live c found idle alive) = tt

pub claim_function_name-Balanced :
    (o : Outside) (b : Broker) (name : Str)
    → IsValid b.reg
    → Balanced b
    → BalancedIn (claim_function_name o b name)
claim_function_name-Balanced o b name v a = by_claim (claim_function_name-outcome o b name v)
  where
    by_claim : {out : Option Broker} → FunctionClaim o b name out → BalancedIn out
    by_claim (unused untaken) = a
    by_claim (orphaned i f here name_is is_dead) = release_client-Balanced b f.owner a
    by_claim (owned i f here name_is alive) = tt

module _ (o : Outside) (a : Avro) (c : Catalog a.Schema) (sha256 : Sha256) where
  pub release_channel-Balanced :
      (b : Broker) (name : Str) (owner : ℤ) (instant : ℕ)
      → IsValid b.reg
      → Balanced b
      → Balanced (after_release o a c sha256 b (release_channel b.reg name owner instant))
  unfolding release_channel drop_channel
  release_channel-Balanced b name owner instant v acc =
      elim (Option-cases (get name b.reg.chan_by_name)) [
        | inl nobody ↦ rw (nobody, release_channel) acc
        | inr (id, held) ↦
            let (ch, here, is_named) = v.channels_valid.linked.held name id held in
            elim (Bool-cases (ch.owner == owner)) [
              | inr another ↦ rw (held, here, another, release_channel) acc
              | inl own ↦ elim (Bool-cases (contains_key id b.reg.subscribed)) [
                | inl used ↦
                    rw (held, here, own, used, here, release_channel, drop_channel)
                      (without_channel b id here acc)
                | inr idle ↦ rw (held, here, own, idle, release_channel) acc
              ]
            ]
      ]

-- A channel, or a function, under a fresh id with the arena made for it.
pub insert_channel-Balanced :
    (b : Broker) (c : ChannelMeta) (s : Segment)
    → IsValid b.reg
    → HasRoom b.reg.next_channel
    → c.id ≡ b.reg.next_channel
    → c.arena ≡ channel_arena (i64_as_u64 b.reg.next_channel)
    → Balanced b
    → Balanced (record b {
      reg = insert_channel (alloc_channel_id b.reg).0 c;
      arenas = insert c.arena s b.arenas;
    })
unfolding insert_channel alloc_channel_id HasRoom
insert_channel-Balanced b c s v (n, next_is, room) id_is arena_is a =
    Accounted-insert (λ m k. channel_arena-ne-function_arena m k) channel_arena-injective c s a
      (ap (λ i. get i b.reg.channels) id_is ∙ Below-fresh v.channels_valid.below) (id_is ∙ next_is)
      (omega arith) (arena_is ∙ ap channel_arena (ap i64_as_u64 next_is ∙ omega arith))

pub insert_function-Balanced :
    (b : Broker) (f : FunctionMeta) (s : Segment)
    → IsValid b.reg
    → HasRoom b.reg.next_fn
    → f.id ≡ b.reg.next_fn
    → f.req_arena ≡ function_arena (i64_as_u64 b.reg.next_fn)
    → Balanced b
    → Balanced (record b {
      reg = insert_function (alloc_fn_id b.reg).0 f;
      arenas = insert f.req_arena s b.arenas;
    })
unfolding insert_function alloc_fn_id HasRoom
insert_function-Balanced b f s v (n, next_is, room) id_is arena_is a = swapped (
    Accounted-insert (λ m k e. channel_arena-ne-function_arena k m (sym e)) function_arena-injective
      f s (swapped a) (ap (λ i. get i b.reg.functions) id_is ∙ Below-fresh v.functions_valid.below)
      (id_is ∙ next_is) (omega arith)
      (arena_is ∙ ap function_arena (ap i64_as_u64 next_is ∙ omega arith)))
