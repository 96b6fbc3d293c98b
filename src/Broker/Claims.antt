-- ===== src/Broker/Claims.antt =====
-- How a publish comes by its channel's name.
use impulse_ring.Prelude.{
  ◌≡◌, refl, sym, ap, ◌∙◌, inl, inr, Bool, true, false, List, [], ◌∷◌, Option, none, some, Str, ℤ,
  get, contains_key, int_eq, str_eq, Option-cases, Bool-cases, if◌then◌else◌,
}
use impulse_ring.Registry.{
  Registry, ChannelMeta, remove_client, remove_client_channels, remove_client_functions,
  drop_function, drop_functions, forget_channel, reap_if_released, channel_name_taken,
  dead_channel_owner, pid_of,
}
use impulse_ring.Registry.Invariant.{IsValid, reap_if_released-IsValid}
use impulse_ring.Registry.Departure.{remove_client_channels-frees}
use impulse_ring.Registry.Releases.{
  named_channel, named_channel-held, reap_if_released-present, forgotten,
}
use impulse_ring.Broker.{
  Broker, Outside, reclaim_arena, release_client, owner_alive, claim_channel_name,
}
use impulse_ring.Broker.Validity.{
  departed, release_client-reg, departed-IsValid, SameCounters, departed-SameCounters,
}

drop_function-chan_by_name :
    (r : Registry) (id : ℤ) → (drop_function r id).0.chan_by_name ≡ r.chan_by_name
unfolding drop_function
drop_function-chan_by_name r id = elim (Option-cases (get id r.functions)) [
  | inl gone ↦ rw (gone, drop_function) refl
  | inr (f, here) ↦ rw (here, drop_function) refl
]

drop_functions-chan_by_name :
    (ids : List ℤ) (r : Registry) → (drop_functions r ids).0.chan_by_name ≡ r.chan_by_name
unfolding drop_functions
drop_functions-chan_by_name [] r = refl
drop_functions-chan_by_name (id ∷ ids) r =
    drop_functions-chan_by_name ids (drop_function r id).0 ∙ drop_function-chan_by_name r id

departed-channel_name_taken :
    (r : Registry) (id : ℤ) (name : Str)
    → channel_name_taken (departed r id) name
      ≡ channel_name_taken (remove_client_channels r id).0 name
unfolding departed channel_name_taken remove_client remove_client_functions
departed-channel_name_taken r id name =
    ap (contains_key name) (drop_functions-chan_by_name _ (remove_client_channels r id).0)

taken-named :
    {r : Registry} (name : Str)
    → IsValid r
    → channel_name_taken r name ≡ true
    → (c : ChannelMeta) × (named_channel r name ≡ some c)
unfolding named_channel channel_name_taken
taken-named {r} name v taken = elim (Option-cases (get name r.chan_by_name)) [
  | inl free ↦ absurd cc
  | inr (id, held) ↦
      let (c, here, name_is) = v.channels_valid.linked.held name id held in
      (c, rw (held, named_channel) here)
]

dead_channel_owner-named :
    {r : Registry} (name : Str) (c : ChannelMeta) (alive : ℤ → Bool)
    → IsValid r
    → named_channel r name ≡ some c
    → dead_channel_owner r name alive ≡ (if alive (pid_of r c.owner) then none else some c.owner)
unfolding dead_channel_owner
dead_channel_owner-named {r} name c alive v found =
    let (held, here, name_is) = named_channel-held name c v found in
    rw (held, here, dead_channel_owner) refl

reap_if_released-idle :
    (r : Registry) (name : Str) (id : ℤ)
    → get name r.chan_by_name ≡ some id
    → contains_key id r.released ≡ false
    → reap_if_released r name ≡ (r, none)
unfolding reap_if_released
reap_if_released-idle r name id held idle = rw (held, idle, reap_if_released) refl

-- The ways to a channel name, and the broker after each.
pub data ChannelClaim (o : Outside) (b : Broker) (name : Str) : Option Broker → Type 0 where
  free : channel_name_taken b.reg name ≡ false → ChannelClaim o b name (some b)
  waiting :
      (c : ChannelMeta)
      → named_channel b.reg name ≡ some c
      → contains_key c.id b.reg.released ≡ true
      → ChannelClaim o b name
          (some (reclaim_arena (record b { reg = forget_channel b.reg c.id c.name }) c.arena))
  dead :
      (c : ChannelMeta)
      → named_channel b.reg name ≡ some c
      → contains_key c.id b.reg.released ≡ false
      → owner_alive o (pid_of b.reg c.owner) ≡ false
      → ChannelClaim o b name (some (release_client b c.owner))
  live :
      (c : ChannelMeta)
      → named_channel b.reg name ≡ some c
      → contains_key c.id b.reg.released ≡ false
      → owner_alive o (pid_of b.reg c.owner) ≡ true
      → ChannelClaim o b name none

-- A publish gets its name when the name is free, when the channel of that name only waits for its
-- grace period, which is then cut short, or when the owner's process is known to be dead, which is
-- then released with all that it owned. A channel of a live owner is refused.
pub claim_channel_name-outcome :
    (o : Outside) (b : Broker) (name : Str)
    → IsValid b.reg
    → ChannelClaim o b name (claim_channel_name o b name)
unfolding claim_channel_name
claim_channel_name-outcome o b name v = elim (Bool-cases (channel_name_taken b.reg name)) [
  | inr untaken ↦ rw (untaken, claim_channel_name) (free untaken)
  | inl taken ↦
      let (c, found) = taken-named name v taken in
      let (held, here, name_is) = named_channel-held name c v found in
      elim (Bool-cases (contains_key c.id b.reg.released)) [
        | inl waits ↦
            let reaped = reap_if_released-present b.reg name c.id c held here waits in
            rw (taken, ap (λ p. p.1) reaped, ap (λ p. p.0) reaped, claim_channel_name)
              (waiting c found waits)
        | inr idle ↦
            let unreaped = reap_if_released-idle b.reg name c.id held idle in
            let judged = dead_channel_owner-named name c (owner_alive o) v found in
            elim (Bool-cases (owner_alive o (pid_of b.reg c.owner))) [
              | inl alive ↦
                  rw (taken, unreaped, judged, alive, claim_channel_name) (live c found idle alive)
              | inr is_dead ↦
                  rw (taken, unreaped, judged, is_dead, claim_channel_name)
                    (dead c found idle is_dead)
            ]
      ]
]

-- What holds of the broker that has a name in hand.
abbrev pub Claimed : Broker → (Registry → Bool) → Option Broker → Type 0
Claimed b taken none = Unit
Claimed b taken (some b') = IsValid b'.reg × (taken b'.reg ≡ false) × SameCounters b.reg b'.reg

-- A publish that gets its name finds the registry well-formed still, the name free, and no id
-- spent.
pub claim_channel_name-Claimed :
    (o : Outside) (b : Broker) (name : Str)
    → IsValid b.reg
    → Claimed b (λ r. channel_name_taken r name) (claim_channel_name o b name)
unfolding reclaim_arena
claim_channel_name-Claimed o b name v = by_claim (claim_channel_name-outcome o b name v)
  where
    by_claim :
        {out : Option Broker}
        → ChannelClaim o b name out
        → Claimed b (λ r. channel_name_taken r name) out
    by_claim (free untaken) = (v, untaken, (refl, refl, refl))
    by_claim (waiting c found waits) =
        let (held, here, name_is) = named_channel-held name c v found in
        let reaped = reap_if_released-present b.reg name c.id c held here waits in
        (
          rw (ap (λ p. p.0) reaped) at (reap_if_released-IsValid name v),
          forgotten b.reg name c.id c name_is,
          (refl, refl, refl),
        )
    by_claim (dead c found idle is_dead) =
        let (held, here, name_is) = named_channel-held name c v found in
        rw (release_client-reg b c.owner) (
          departed-IsValid c.owner v,
          departed-channel_name_taken b.reg c.owner name
              ∙ ap (channel_name_taken (remove_client_channels b.reg c.owner).0) (sym name_is)
              ∙ (remove_client_channels-frees c.id c v here).1,
          departed-SameCounters b.reg c.owner,
        )
    by_claim (live c found idle alive) = tt
