-- ===== src/Broker/Runs.antt =====
-- The control loop of crates/impulsed/src/broker.rs.
use impulse_ring.Prelude.{
  ℕ, suc, ◌+◌, ◌-◌, ◌^◌, ◌<◌, refl, Bool, true, false, List, [], ◌∷◌, Option, none, some, leb, inl,
  inr, Option-cases, if◌then◌else◌, arith, length, get, pos,
}
use impulse_ring.Names.{Sha256}
use impulse_ring.Proto.{Avro}
use impulse_ring.Proto.Catalog.{Catalog}
use impulse_ring.Registry.{reap_released}
use impulse_ring.Registry.Invariant.{drop_channels-IsValid, new-IsValid}
use impulse_ring.Broker.{Broker, Outside, sweep, sweep_interval, new_broker, handle, round, run}
use impulse_ring.Broker.Validity.{reclaim_arenas-reg, drop_channels-SameCounters}
use impulse_ring.Broker.Accounts.{sweep-Balanced}
use impulse_ring.Broker.Room.{Room, Rooms, Rooms-same}
use impulse_ring.Broker.Fit.{Sound, Fit, Fit-less}
use impulse_ring.Broker.Handlers.{handle-Fit}

-- What holds of the broker that a round leaves.
abbrev FitAfter : ℕ → Option (Broker × ℕ) → Type 0
FitAfter n none = Unit
FitAfter n (some (b, last_sweep)) = Fit n b

swept-Fit : {n : ℕ} (b : Broker) (instant : ℕ) → Fit n b → Fit n (sweep b instant)
unfolding sweep reap_released
swept-Fit b instant v = (
  (rw (reclaim_arenas-reg _ _) (drop_channels-IsValid _ v.0.0), sweep-Balanced b instant v.0.1),
  Rooms-same b.reg (sweep b instant).reg
      (rw (reclaim_arenas-reg _ _) (drop_channels-SameCounters _ b.reg)) v.1,
)

swept_if-Fit :
    {n : ℕ} (due : Bool) (b : Broker) (instant last_sweep : ℕ)
    → Fit n b
    → FitAfter n (some (if due then (sweep b instant, instant) else (b, last_sweep)))
swept_if-Fit true b instant last_sweep v = swept-Fit b instant v
swept_if-Fit false b instant last_sweep v = v

module _ (a : Avro) (c : Catalog a.Schema) (sha256 : Sha256) where
  -- A round, with a message or without and with a sweep or without.
  round-Fit :
      {n : ℕ} (o : Outside) (b : Broker) (last_sweep : ℕ) (popped : Option (List ℕ))
      → Fit (suc n) b
      → FitAfter n (round o a c sha256 b last_sweep popped)
  unfolding round
  round-Fit o b last_sweep none v =
      swept_if-Fit (leb sweep_interval (o.instant - last_sweep)) b o.instant last_sweep
        (Fit-less b v)
  round-Fit {n} o b last_sweep (some message) v =
      let after = handle-Fit o a c sha256 b message v in
      elim (Option-cases (handle o a c sha256 b message)) [
        | inl stuck ↦ rw (stuck, round) tt
        | inr (p, done) ↦
            rw (done, round)
              (swept_if-Fit (leb sweep_interval (o.instant - last_sweep)) p.1 o.instant last_sweep
                (rw done at after))
      ]

  run-Fit :
      (rounds : List (Outside × Option (List ℕ))) (b : Broker) (last_sweep : ℕ)
      → Fit (length rounds) b
      → FitAfter 0 (run a c sha256 b last_sweep rounds)
  unfolding run
  run-Fit [] b last_sweep v = v
  run-Fit ((o, popped) ∷ rounds) b last_sweep v =
      let after = round-Fit o b last_sweep popped v in
      elim (Option-cases (round o a c sha256 b last_sweep popped)) [
        | inl stuck ↦ rw (stuck, run) tt
        | inr (p, done) ↦ rw (done, run) (run-Fit rounds p.0 p.1 (rw done at after))
      ]

-- What holds of the broker that a run leaves.
abbrev pub SoundAfter : Option (Broker × ℕ) → Type 0
SoundAfter none = Unit
SoundAfter (some (b, last_sweep)) = Sound b

FitAfter-Sound : (left : Option (Broker × ℕ)) → FitAfter 0 left → SoundAfter left
FitAfter-Sound none v = tt
FitAfter-Sound (some p) v = v.0

pub new_broker-Sound : Sound new_broker
unfolding get
new_broker-Sound = (
  new-IsValid,
  record {
    named_v = λ i v h. absurd cc;
    named_w = λ i w h. absurd cc;
    mapped_v = λ i v h. absurd cc;
    mapped_w = λ i w h. absurd cc;
    hosted = λ arena s h. absurd cc;
  },
)

counter : {n : ℕ} → n + 1 < 2 ^ 63 → Rooms n new_broker.reg
counter {n} lt =
    let one : Room n (pos 1) = record { value = 1; is_value = refl; fits = omega arith } in
    (one, one, one)

-- A broker that starts with nothing, and runs for fewer than 2^63 - 1 rounds, each with any message
-- or none and with anything going on outside, has a well-formed registry in the end, and has mapped
-- the arenas of its channels and functions, no more and no fewer.
pub run-Sound :
    (a : Avro) (c : Catalog a.Schema) (sha256 : Sha256) (last_sweep : ℕ)
    (rounds : List (Outside × Option (List ℕ)))
    → length rounds + 1 < 2 ^ 63
    → SoundAfter (run a c sha256 new_broker last_sweep rounds)
run-Sound a c sha256 last_sweep rounds lt =
    FitAfter-Sound _
      (run-Fit a c sha256 rounds new_broker last_sweep (new_broker-Sound, counter lt))
