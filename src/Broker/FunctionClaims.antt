-- ===== src/Broker/FunctionClaims.antt =====
-- How an exposure comes by its function's name.
use impulse_ring.Prelude.{
  ◌≡◌, refl, sym, ap, ◌∙◌, inl, inr, true, false, List, [], ◌∷◌, Option, none, some, Str, ℤ, get,
  int_eq, str_eq, Option-cases, Bool-cases,
}
use impulse_ring.Registry.{
  Registry, FunctionMeta, remove_client, remove_client_channels, remove_client_functions,
  drop_channel, drop_channels, function_name_taken, dead_function_owner, pid_of,
}
use impulse_ring.Registry.Invariant.{IsValid, drop_channels-IsValid}
use impulse_ring.Registry.Departure.{remove_client_functions-frees}
use impulse_ring.Broker.{Broker, Outside, release_client, owner_alive, claim_function_name}
use impulse_ring.Broker.Claims.{Claimed}
use impulse_ring.Broker.Validity.{
  departed, release_client-reg, departed-IsValid, departed-SameCounters,
}

taken-found :
    {r : Registry} (name : Str)
    → IsValid r
    → function_name_taken r name ≡ true
    → (i : ℤ) × (f : FunctionMeta) × (get name r.fn_by_name ≡ some i)
      × (get i r.functions ≡ some f)
      × (f.name ≡ name)
unfolding function_name_taken
taken-found {r} name v taken = elim (Option-cases (get name r.fn_by_name)) [
  | inl nobody ↦ absurd cc
  | inr (id, held) ↦
      let (f, here, name_is) = v.functions_valid.linked.held name id held in
      (id, f, held, here, name_is)
]

-- The ways to a function name, and the broker after each.
pub data FunctionClaim (o : Outside) (b : Broker) (name : Str) : Option Broker → Type 0 where
  unused : function_name_taken b.reg name ≡ false → FunctionClaim o b name (some b)
  orphaned :
      (i : ℤ) (f : FunctionMeta)
      → get i b.reg.functions ≡ some f
      → f.name ≡ name
      → owner_alive o (pid_of b.reg f.owner) ≡ false
      → FunctionClaim o b name (some (release_client b f.owner))
  owned :
      (i : ℤ) (f : FunctionMeta)
      → get i b.reg.functions ≡ some f
      → f.name ≡ name
      → owner_alive o (pid_of b.reg f.owner) ≡ true
      → FunctionClaim o b name none

-- An exposure gets its name when the name is free, or when the owner of the function of that name
-- is known to be dead, which is then released with all that it owned. A function of a live owner is
-- refused.
pub claim_function_name-outcome :
    (o : Outside) (b : Broker) (name : Str)
    → IsValid b.reg
    → FunctionClaim o b name (claim_function_name o b name)
unfolding claim_function_name dead_function_owner
claim_function_name-outcome o b name v = elim (Bool-cases (function_name_taken b.reg name)) [
  | inr untaken ↦ rw (untaken, claim_function_name) (unused untaken)
  | inl taken ↦
      let (i, f, held, here, name_is) = taken-found name v taken in
      elim (Bool-cases (owner_alive o (pid_of b.reg f.owner))) [
        | inl alive ↦
            rw (taken, held, here, alive, dead_function_owner, claim_function_name)
              (owned i f here name_is alive)
        | inr is_dead ↦
            rw (taken, held, here, is_dead, dead_function_owner, claim_function_name)
              (orphaned i f here name_is is_dead)
      ]
]

-- The functions of a departing client go, whatever happens to its channels.
drop_channel-functions :
    (r : Registry) (id : ℤ)
    → ((drop_channel r id).0.functions ≡ r.functions)
      × ((drop_channel r id).0.fn_by_name ≡ r.fn_by_name)
unfolding drop_channel
drop_channel-functions r id = elim (Option-cases (get id r.channels)) [
  | inl gone ↦ rw (gone, drop_channel) (refl, refl)
  | inr (c, here) ↦ rw (here, drop_channel) (refl, refl)
]

drop_channels-functions :
    (ids : List ℤ) (r : Registry)
    → ((drop_channels r ids).0.functions ≡ r.functions)
      × ((drop_channels r ids).0.fn_by_name ≡ r.fn_by_name)
unfolding drop_channels
drop_channels-functions [] r = (refl, refl)
drop_channels-functions (id ∷ ids) r =
    let one = drop_channel-functions r id in
    let rest = drop_channels-functions ids (drop_channel r id).0 in (rest.0 ∙ one.0, rest.1 ∙ one.1)

departed-function_name_taken :
    (r : Registry) (id : ℤ) (name : Str)
    → function_name_taken (departed r id) name
      ≡ function_name_taken (remove_client_functions (remove_client_channels r id).0 id).0 name
unfolding departed function_name_taken remove_client
departed-function_name_taken r id name = refl

-- An exposure that gets its name finds the registry well-formed still, the name free, and no id
-- spent.
pub claim_function_name-Claimed :
    (o : Outside) (b : Broker) (name : Str)
    → IsValid b.reg
    → Claimed b (λ r. function_name_taken r name) (claim_function_name o b name)
unfolding remove_client_channels
claim_function_name-Claimed o b name v = by_claim (claim_function_name-outcome o b name v)
  where
    by_claim :
        {out : Option Broker}
        → FunctionClaim o b name out
        → Claimed b (λ r. function_name_taken r name) out
    by_claim (unused untaken) = (v, untaken, (refl, refl, refl))
    by_claim (orphaned i f here name_is is_dead) =
        let without = (remove_client_channels b.reg f.owner).0 in
        let same = (drop_channels-functions _ b.reg).0 in
        rw (release_client-reg b f.owner) (
          departed-IsValid f.owner v,
          departed-function_name_taken b.reg f.owner name
              ∙ ap (function_name_taken (remove_client_functions without f.owner).0) (sym name_is)
              ∙ remove_client_functions-frees i f (drop_channels-IsValid _ v)
                  (ap (get i) same ∙ here),
          departed-SameCounters b.reg f.owner,
        )
    by_claim (owned i f here name_is alive) = tt
