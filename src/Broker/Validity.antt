-- ===== src/Broker/Validity.antt =====
-- What a departure and a reply (crates/impulsed/src/broker.rs) leave of the broker.
use impulse_ring.Prelude.{
  ◌≡◌, refl, ◌∙◌, inl, inr, List, [], ◌∷◌, none, some, Str, ℤ, get, Result-cases, int_eq,
  Option-cases,
}
use impulse_ring.Frame
use impulse_ring.Frame.{Frame, Fingerprint}
use impulse_ring.Names.{Sha256}
use impulse_ring.Ring.{push_blocking}
use impulse_ring.Proto.{Kind, Message, Avro}
use impulse_ring.Proto.Catalog.{Catalog, to_frame}
use impulse_ring.Registry.{
  drop_channel, drop_channels, drop_function, drop_functions, Registry, remove_client,
  remove_client_channels, remove_client_functions,
}
use impulse_ring.Registry.Invariant.{
  IsValid, remove_client-IsValid, drop_channels-IsValid, drop_functions-IsValid,
}
use impulse_ring.Broker.{
  Broker, Outside, Handled, reclaim_arenas, reclaim_arena, release_client, reply,
}

-- What holds of the broker that a handler leaves, whatever the result is that it returns.
abbrev pub Leaves : (Broker → Type 0) → Handled → Type 0
Leaves p none = Unit
Leaves p (some (result, b)) = p b

pub reclaim_arenas-reg : (b : Broker) (arenas : List Str) → (reclaim_arenas b arenas).reg ≡ b.reg
unfolding reclaim_arenas reclaim_arena
reclaim_arenas-reg b [] = refl
reclaim_arenas-reg b (arena ∷ arenas) = reclaim_arenas-reg (reclaim_arena b arena) arenas

-- What a departing client leaves of the registry.
unfoldable pub departed : Registry → ℤ → Registry
departed r client_id =
    remove_client (remove_client_functions (remove_client_channels r client_id).0 client_id).0
      client_id

pub release_client-reg :
    (b : Broker) (client_id : ℤ) → (release_client b client_id).reg ≡ departed b.reg client_id
unfolding release_client departed
release_client-reg b client_id = simp (reclaim_arenas-reg, departed)

pub departed-IsValid : {r : Registry} (client_id : ℤ) → IsValid r → IsValid (departed r client_id)
unfolding departed remove_client_channels remove_client_functions
departed-IsValid client_id v =
    remove_client-IsValid client_id (drop_functions-IsValid _ (drop_channels-IsValid _ v))

-- No id was handed out.
abbrev pub SameCounters : Registry → Registry → Type 0
SameCounters r r' =
    (r'.next_client ≡ r.next_client) × (r'.next_channel ≡ r.next_channel) × (r'.next_fn ≡ r.next_fn)

pub drop_channel-SameCounters : (r : Registry) (id : ℤ) → SameCounters r (drop_channel r id).0
unfolding drop_channel
drop_channel-SameCounters r id = elim (Option-cases (get id r.channels)) [
  | inl gone ↦ rw (gone, drop_channel) (refl, refl, refl)
  | inr (c, here) ↦ rw (here, drop_channel) (refl, refl, refl)
]

pub drop_channels-SameCounters :
    (ids : List ℤ) (r : Registry) → SameCounters r (drop_channels r ids).0
unfolding drop_channels
drop_channels-SameCounters [] r = (refl, refl, refl)
drop_channels-SameCounters (id ∷ ids) r =
    let one = drop_channel-SameCounters r id in
    let rest = drop_channels-SameCounters ids (drop_channel r id).0 in
    (rest.0 ∙ one.0, rest.1 ∙ one.1, rest.2 ∙ one.2)

drop_function-SameCounters : (r : Registry) (id : ℤ) → SameCounters r (drop_function r id).0
unfolding drop_function
drop_function-SameCounters r id = elim (Option-cases (get id r.functions)) [
  | inl gone ↦ rw (gone, drop_function) (refl, refl, refl)
  | inr (f, here) ↦ rw (here, drop_function) (refl, refl, refl)
]

drop_functions-SameCounters :
    (ids : List ℤ) (r : Registry) → SameCounters r (drop_functions r ids).0
unfolding drop_functions
drop_functions-SameCounters [] r = (refl, refl, refl)
drop_functions-SameCounters (id ∷ ids) r =
    let one = drop_function-SameCounters r id in
    let rest = drop_functions-SameCounters ids (drop_function r id).0 in
    (rest.0 ∙ one.0, rest.1 ∙ one.1, rest.2 ∙ one.2)

pub departed-SameCounters : (r : Registry) (id : ℤ) → SameCounters r (departed r id)
unfolding departed remove_client remove_client_channels remove_client_functions
departed-SameCounters r id =
    let one = drop_channels-SameCounters _ r in
    let rest = drop_functions-SameCounters _ (remove_client_channels r id).0 in
    (rest.0 ∙ one.0, rest.1 ∙ one.1, rest.2 ∙ one.2)

module _ (o : Outside) (a : Avro) (c : Catalog a.Schema) (sha256 : Sha256) where
  -- A reply leaves the registry and the arenas alone.
  pub reply-keeps :
      (b : Broker) (client_id : ℤ) (k : Kind) (msg : Message k) (p : Broker → Type 0)
      → ((rings : _) → p (record b { reply_rings = rings }))
      → Leaves p (reply o a c sha256 b client_id k msg)
  unfolding reply
  reply-keeps b client_id k msg p holds = elim (Option-cases (get client_id b.reply_rings)) [
    | inl unknown ↦ rw (unknown, reply) (holds b.reply_rings)
    | inr (r, known) ↦ elim (Result-cases (to_frame a c k msg)) [
      | inr (e, failed) ↦ rw (known, failed, reply) (holds b.reply_rings)
      | inl (frame, made) ↦
          elim (Option-cases
            (push_blocking r.ring (o.meanwhile r.segment) (Frame.encode frame) o.sleeps)) [
              | inl sleeps ↦ rw (known, made, sleeps, reply) tt
              | inr (pushed, went) ↦ rw (known, made, went, reply) (holds _)
            ]
    ]
  ]
