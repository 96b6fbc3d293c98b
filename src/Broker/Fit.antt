-- ===== src/Broker/Fit.antt =====
-- What holds of the broker between two messages, and its steps that hand out no id
-- (crates/impulsed/src/broker.rs).
use impulse_ring.Prelude.{
  suc, ◌⊎◌, ℕ, ◌≡◌, refl, inl, inr, Str, ℤ, ok, err, Error, int_eq, Result-cases, insert, str_eq,
}
use impulse_ring.Names.{Sha256}
use impulse_ring.Segment.{Segment}
use impulse_ring.Ring.{ring_bytes, format}
use impulse_ring.Proto.{Avro}
use impulse_ring.Proto.Catalog.{Catalog}
use impulse_ring.Registry.{Registry, Release, now, deferred, refused, release_channel}
use impulse_ring.Registry.Invariant.{IsValid, release_channel-IsValid}
use impulse_ring.Broker.{Broker, Outside, reclaim_arena, release_client, make_arena, after_release}
use impulse_ring.Broker.Validity.{
  release_client-reg, departed-IsValid, SameCounters, departed-SameCounters,
}
use impulse_ring.Broker.Accounts.{Balanced, release_client-Balanced, release_channel-Balanced}
use impulse_ring.Broker.Room.{Rooms, Rooms-less, Rooms-same, release_channel-SameCounters}

-- The registry is well-formed, and the arenas of its channels and functions are mapped, and no
-- others.
abbrev pub Sound : Broker → Type 0
Sound b = IsValid b.reg × Balanced b

-- Each of the counters has `n` ids left besides.
abbrev pub Fit : ℕ → Broker → Type 0
Fit n b = Sound b × Rooms n b.reg

-- What is sound and has its counters as before.
pub Fit-less : {n : ℕ} (b : Broker) → Fit (suc n) b → Fit n b
Fit-less b v = (v.0, Rooms-less b.reg v.1)

Fit-same : {n : ℕ} (b b' : Broker) → Sound b' → SameCounters b.reg b'.reg → Fit (suc n) b → Fit n b'
Fit-same b b' v' same v = (v', Rooms-same b.reg b'.reg same (Rooms-less b.reg v.1))

pub release_client-Fit :
    {n : ℕ} (b : Broker) (client_id : ℤ) → Fit (suc n) b → Fit n (release_client b client_id)
release_client-Fit b client_id v =
    Fit-same b (release_client b client_id)
      (
        rw (release_client-reg b client_id) (departed-IsValid client_id v.0.0),
        release_client-Balanced b client_id v.0.1,
      )
      (rw (release_client-reg b client_id) (departed-SameCounters b.reg client_id)) v

-- A new arena changes the arenas only.
pub make_arena-cases :
    (o : Outside) (b : Broker) (name : Str) (cap : ℕ)
    → ((s : Segment) × (make_arena o b name cap
          ≡ ok (name, record b { arenas = insert name s b.arenas })))
      ⊎ ((e : Error) × (make_arena o b name cap ≡ err e))
unfolding make_arena
make_arena-cases o b name cap = elim (Result-cases (o.create name (ring_bytes cap))) [
  | inr (e, failed) ↦ inr (e, rw (failed, make_arena) refl)
  | inl (s, created) ↦ elim (Result-cases (format s 0 cap)) [
    | inr (e, failed) ↦ inr (e, rw (created, failed, make_arena) refl)
    | inl (p, formatted) ↦ inl (p.1, rw (created, formatted, make_arena) refl)
  ]
]

module _ (o : Outside) (a : Avro) (c : Catalog a.Schema) (sha256 : Sha256) where
  after_release-reg :
      (b : Broker) (p : Registry × Release) → (after_release o a c sha256 b p).reg ≡ p.0
  unfolding reclaim_arena
  after_release-reg b (r, now arena) = refl
  after_release-reg b (r, deferred) = refl
  after_release-reg b (r, refused) = refl

  pub after_release-Fit :
      {n : ℕ} (b : Broker) (name : Str) (owner : ℤ)
      → Fit (suc n) b
      → Fit n (after_release o a c sha256 b (release_channel b.reg name owner o.instant))
  after_release-Fit b name owner v =
      let p = release_channel b.reg name owner o.instant in
      Fit-same b (after_release o a c sha256 b p)
        (
          rw (after_release-reg b p) (release_channel-IsValid name owner o.instant v.0.0),
          release_channel-Balanced o a c sha256 b name owner o.instant v.0.0 v.0.1,
        )
        (rw (after_release-reg b p) (release_channel-SameCounters b.reg name owner o.instant)) v
