-- ===== src/Broker/Room.antt =====
-- How many more ids the counters of the registry have (crates/impulsed/src/registry.rs), and what
-- the broker's steps take of them.
use impulse_ring.Prelude.{
  ℕ, suc, ◌+◌, ◌^◌, ◌<◌, ◌≡◌, refl, ap, ◌∙◌, inl, inr, Str, ℤ, pos, succ_i64, get, contains_key,
  int_eq, str_eq, Option-cases, Bool-cases, ◌==◌, arith,
}
use impulse_ring.Registry.{Registry, drop_channel, release_channel}
use impulse_ring.Registry.Linked.{HasRoom, succ_i64_pos}
use impulse_ring.Registry.Invariant.{released_now-0}
use impulse_ring.Broker.Validity.{SameCounters, drop_channel-SameCounters}

-- The counter can go up `n` times.
pub record Room (n : ℕ) (next : ℤ) : Type 0 where
  pub value : ℕ
  pub is_value : next ≡ pos value
  pub fits : value + n < 2 ^ 63

abbrev pub Rooms : ℕ → Registry → Type 0
Rooms n r = Room n r.next_client × Room n r.next_channel × Room n r.next_fn

module _ {n : ℕ} {next : ℤ} where
  pub Room-HasRoom : Room (suc n) next → HasRoom next
  unfolding HasRoom
  Room-HasRoom room = let lt = room.fits in (room.value, room.is_value, omega arith)

  pub Room-succ : Room (suc n) next → Room n (succ_i64 next)
  Room-succ room =
      let lt = room.fits in
      record {
        value = room.value + 1;
        is_value = ap succ_i64 room.is_value ∙ succ_i64_pos room.value (omega arith);
        fits = omega arith;
      }

  pub Room-less : Room (suc n) next → Room n next
  Room-less room =
      let lt = room.fits in
      record { value = room.value; is_value = room.is_value; fits = omega arith }

  pub Room-same : {next' : ℤ} → next' ≡ next → Room n next → Room n next'
  Room-same same room = record {
    value = room.value;
    is_value = same ∙ room.is_value;
    fits = room.fits;
  }

pub Rooms-less : {n : ℕ} (r : Registry) → Rooms (suc n) r → Rooms n r
Rooms-less r (client, channel, fn) = (Room-less client, Room-less channel, Room-less fn)

pub Rooms-same : {n : ℕ} (r r' : Registry) → SameCounters r r' → Rooms n r → Rooms n r'
Rooms-same r r' same rooms =
    (Room-same same.0 rooms.0, Room-same same.1 rooms.1, Room-same same.2 rooms.2)

pub release_channel-SameCounters :
    (r : Registry) (name : Str) (owner : ℤ) (instant : ℕ)
    → SameCounters r (release_channel r name owner instant).0
unfolding release_channel
release_channel-SameCounters r name owner instant = elim (Option-cases (get name r.chan_by_name)) [
  | inl nobody ↦ rw (nobody, release_channel) (refl, refl, refl)
  | inr (id, held) ↦ elim (Option-cases (get id r.channels)) [
    | inl gone ↦ rw (held, gone, release_channel) (refl, refl, refl)
    | inr (c, here) ↦ elim (Bool-cases (c.owner == owner)) [
      | inr another ↦ rw (held, here, another, release_channel) (refl, refl, refl)
      | inl own ↦ elim (Bool-cases (contains_key id r.subscribed)) [
        | inl used ↦
            rw (held, here, own, used, released_now-0 (drop_channel r id), release_channel)
              (drop_channel-SameCounters r id)
        | inr idle ↦ rw (held, here, own, idle, release_channel) (refl, refl, refl)
      ]
    ]
  ]
]
