-- ===== src/Registry/Releases.antt =====
-- How a publisher's release of a channel goes on: at once, after a grace period, or not at all.
use impulse_ring.Prelude.{
  ℕ, ◌-◌, ◌≡◌, refl, sym, ap, ◌∙◌, inl, inr, true, false, Option, none, some, Str, ℤ, get, insert,
  remove, is_some, any_in, contains_key, get-insert-here, get-remove-here, Option-cases, int_eq,
  str_eq, ◌==◌, if◌then◌else◌, leb, int_eqb_iff,
}
use impulse_ring.Registry.{
  Registry, ChannelMeta, now, deferred, refused, drop_channel, forget_channel, release_channel,
  reap_released, reap_if_released, channel_name_taken,
}
use impulse_ring.Registry.Invariant.{IsValid, release_channel-IsValid}
use impulse_ring.Registry.Departure.{reap_released-get}

-- The channel that a name is held by.
unfoldable pub named_channel : Registry → Str → Option ChannelMeta
named_channel r name = elim (get name r.chan_by_name) [ none ↦ none | some id ↦ get id r.channels ]

-- A release by any other client than the channel's owner, or of an unknown name, changes nothing.
release_channel-refused :
    (r : Registry) (name : Str) (owner : ℤ) (instant : ℕ)
    → any_in (λ c. c.owner == owner) (named_channel r name) ≡ false
    → release_channel r name owner instant ≡ (r, refused)
unfolding release_channel named_channel
release_channel-refused r name owner instant other = elim (Option-cases (get name r.chan_by_name)) [
  | inl free ↦ rw (free, release_channel) refl
  | inr (id, held) ↦ elim (Option-cases (get id r.channels)) [
    | inl gone ↦ rw (held, gone, release_channel) refl
    | inr (c, here) ↦
        rw (held, here, (rw (held, named_channel, here) at other), release_channel) refl
  ]
]

own : (c : ChannelMeta) → (c.owner == c.owner) ≡ true
own c = (int_eqb_iff c.owner c.owner).1 refl

drop_channel-present :
    (r : Registry) (id : ℤ) (c : ChannelMeta)
    → get id r.channels ≡ some c
    → drop_channel r id ≡ (forget_channel r id c.name, some c.arena)
unfolding drop_channel
drop_channel-present r id c here = rw (here, drop_channel) refl

named_channel-free :
    (r : Registry) (name : Str) → get name r.chan_by_name ≡ none → named_channel r name ≡ none
unfolding named_channel
named_channel-free r name free = rw (free, named_channel) refl

named_channel-at :
    (r : Registry) (name : Str) (id : ℤ)
    → get name r.chan_by_name ≡ some id
    → named_channel r name ≡ get id r.channels
unfolding named_channel
named_channel-at r name id held = rw (held, named_channel) refl

-- A name that finds a channel is that channel's name, and holds its id.
pub named_channel-held :
    {r : Registry} (name : Str) (c : ChannelMeta)
    → IsValid r
    → named_channel r name ≡ some c
    → (get name r.chan_by_name ≡ some c.id) × (get c.id r.channels ≡ some c) × (c.name ≡ name)
named_channel-held {r} name c v found = elim (Option-cases (get name r.chan_by_name)) [
  | inl free ↦ let none_is = named_channel-free r name free in absurd cc
  | inr (id, held) ↦
      let (d, there, name_is) = v.channels_valid.linked.held name id held in
      let here : get id r.channels ≡ some c = sym (named_channel-at r name id held) ∙ found in
      let id_is = (v.channels_valid.linked.named id c here).0 in
      (held ∙ ap some (sym id_is), ap (λ k. get k r.channels) id_is ∙ here, cc)
]

pub forgotten :
    (r : Registry) (name : Str) (id : ℤ) (c : ChannelMeta)
    → c.name ≡ name
    → channel_name_taken (forget_channel r id c.name) name ≡ false
unfolding channel_name_taken
forgotten r name id c name_is =
    ap is_some
      (ap (λ n. get name (remove n r.chan_by_name)) name_is ∙ get-remove-here name r.chan_by_name)

-- The owner's release of a channel that somebody has subscribed to hands back its arena at once,
-- and the name is free.
release_channel-now :
    {r : Registry} (name : Str) (c : ChannelMeta) (instant : ℕ)
    → IsValid r
    → named_channel r name ≡ some c
    → contains_key c.id r.subscribed ≡ true
    → ((release_channel r name c.owner instant).1 ≡ now c.arena)
      × (channel_name_taken (release_channel r name c.owner instant).0 name ≡ false)
unfolding release_channel
release_channel-now {r} name c instant v found used =
    let (held, here, name_is) = named_channel-held name c v found in
    let e : release_channel r name c.owner instant ≡ (forget_channel r c.id c.name, now c.arena) =
      rw (held, here, own c, used, release_channel, drop_channel-present r c.id c here) refl in
    rw e (refl, forgotten r name c.id c name_is)

-- The registry after a release that waits.
deferring :
    {r : Registry} (name : Str) (c : ChannelMeta) (instant : ℕ)
    → IsValid r
    → named_channel r name ≡ some c
    → contains_key c.id r.subscribed ≡ false
    → release_channel r name c.owner instant
      ≡ (record r { released = insert c.id instant r.released }, deferred)
unfolding release_channel
deferring {r} name c instant v found unused =
    let (held, here, name_is) = named_channel-held name c v found in
    rw (held, here, own c, unused, release_channel) refl

pub reap_if_released-present :
    (r : Registry) (name : Str) (id : ℤ) (c : ChannelMeta)
    → get name r.chan_by_name ≡ some id
    → get id r.channels ≡ some c
    → contains_key id r.released ≡ true
    → reap_if_released r name ≡ (forget_channel r id c.name, some c.arena)
unfolding reap_if_released
reap_if_released-present r name id c held here waits =
    rw (held, waits, reap_if_released) (drop_channel-present r id c here)

-- The owner's release of a channel without a subscriber waits: its name still finds it. A sweep
-- takes it exactly when the grace period has passed since the release, and a new publisher of the
-- name takes it over at once.
pub release_channel-deferred :
    {r : Registry} (name : Str) (c : ChannelMeta) (instant grace later : ℕ)
    → IsValid r
    → named_channel r name ≡ some c
    → contains_key c.id r.subscribed ≡ false
    → let r' = (release_channel r name c.owner instant).0 in
      ((release_channel r name c.owner instant).1 ≡ deferred)
      × (named_channel r' name ≡ some c)
      × (get c.id (reap_released r' grace later).0.channels
          ≡ (if leb grace (later - instant) then none else some c))
      × ((reap_if_released r' name).1 ≡ some c.arena)
      × (channel_name_taken (reap_if_released r' name).0 name ≡ false)
release_channel-deferred {r} name c instant grace later v found unused =
    let (held, here, name_is) = named_channel-held name c v found in
    let r' : Registry = record r { released = insert c.id instant r.released } in
    let e = deferring name c instant v found unused in
    let valid' : IsValid r' = rw e at (release_channel-IsValid name c.owner instant v) in
    let marked = get-insert-here c.id instant r.released in
    let taken = reap_if_released-present r' name c.id c held here (ap is_some marked) in
    rw e (
      refl,
      named_channel-at r' name c.id held ∙ here,
      reap_released-get grace later c.id valid'
          ∙ ap (λ o. if any_in (λ at. leb grace (later - at)) o then none else get c.id r.channels)
              marked
          ∙ ap (λ o. if leb grace (later - instant) then none else o) here,
      ap (λ p. p.1) taken,
      ap (λ p. channel_name_taken p.0 name) taken ∙ forgotten r' name c.id c name_is,
    )
