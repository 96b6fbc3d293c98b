-- ===== src/Registry/Invariant.antt =====
-- What holds of the registry between two operations, and that every operation keeps it.
use impulse_ring.Prelude.{
  ℕ, ◌≡◌, refl, sym, ap, ◌∙◌, inl, inr, false, List, [], ◌∷◌, Option, none, some, Str, ℤ, Map, get,
  insert, remove, Unique, insert-Unique, remove-Unique, get-insert, get-insert-cases,
  get-remove-cases, get-remove-away, Option-cases, Bool-cases, int_eq, str_eq, arith, contains_key,
  ◌==◌,
}
use impulse_ring.Registry.{
  Registry, ClientMeta, ChannelMeta, FunctionMeta, new, add_client, remove_client, forget_channel,
  drop_channel, drop_channels, mark_subscribed, release_channel, released_now, reap_if_released,
  drop_function, drop_functions, alloc_channel_id, alloc_fn_id, insert_channel, insert_function,
  channel_name_taken, function_name_taken,
}
use impulse_ring.Registry.Linked.{
  Linked, Linked-empty, Linked-insert, Linked-remove, Below, Below-empty, Below-remove, Below-fresh,
  Below-succ, Below-insert, HasRoom,
}

-- A set or a map of channel ids that speaks of present channels only.
abbrev IsHeld : {W : Type 0} → Map ℤ W → Map ℤ ChannelMeta → Type 0
IsHeld {W} marks table =
    (i : ℤ) (w : W) → get i marks ≡ some w → (c : ChannelMeta) × (get i table ≡ some c)

pub record ClientsValid (clients : Map ℤ ClientMeta) (next : ℤ) : Type 0 where
  pub unique : Unique clients
  pub below : Below next clients

pub record ChannelsValid (channels : Map ℤ ChannelMeta) (chan_by_name : Map Str ℤ)
    (subscribed : Map {0, 0} ℤ Unit) (released : Map ℤ ℕ) (next : ℤ) : Type 0 where
  pub linked : Linked (λ c. c.id) (λ c. c.name) channels chan_by_name
  pub below : Below next channels
  pub unique_subscribed : Unique subscribed
  pub unique_released : Unique released
  pub subscribed_held : IsHeld subscribed channels
  pub released_held : IsHeld released channels

pub record FunctionsValid (functions : Map ℤ FunctionMeta) (fn_by_name : Map Str ℤ) (next : ℤ)
    : Type 0 where
  pub linked : Linked (λ f. f.id) (λ f. f.name) functions fn_by_name
  pub below : Below next functions

pub record IsValid (r : Registry) : Type 0 where
  pub clients_valid : ClientsValid r.clients r.next_client
  pub channels_valid :
      ChannelsValid r.channels r.chan_by_name r.subscribed r.released r.next_channel
  pub functions_valid : FunctionsValid r.functions r.fn_by_name r.next_fn

pub new-IsValid : IsValid new
unfolding get Unique
new-IsValid = record {
  clients_valid = record { unique = tt; below = Below-empty };
  channels_valid = record {
    linked = Linked-empty;
    below = Below-empty;
    unique_subscribed = tt;
    unique_released = tt;
    subscribed_held = λ i w h. absurd cc;
    released_held = λ i w h. absurd cc;
  };
  functions_valid = record { linked = Linked-empty; below = Below-empty };
}

pub add_client-IsValid :
    {r : Registry} (app_name : Str) (pid : ℤ)
    → IsValid r
    → HasRoom r.next_client
    → IsValid (add_client r app_name pid).0
unfolding add_client
add_client-IsValid {r} app_name pid v room = record {
  clients_valid = record {
    unique = insert-Unique r.next_client _ r.clients v.clients_valid.unique;
    below = Below-insert _ refl v.clients_valid.below room;
  };
  channels_valid = v.channels_valid;
  functions_valid = v.functions_valid;
}

pub remove_client-IsValid : {r : Registry} (id : ℤ) → IsValid r → IsValid (remove_client r id)
unfolding remove_client
remove_client-IsValid {r} id v = record {
  clients_valid = record {
    unique = remove-Unique id r.clients v.clients_valid.unique;
    below = Below-remove id v.clients_valid.below;
  };
  channels_valid = v.channels_valid;
  functions_valid = v.functions_valid;
}

-- Marks stay on present channels when a channel goes with its own mark.
IsHeld-remove :
    {W : Type 0} (marks : Map ℤ W) (table : Map ℤ ChannelMeta) (id : ℤ)
    → IsHeld marks table
    → IsHeld (remove id marks) (remove id table)
IsHeld-remove {W} marks table id h i w at =
    let (ne, before) = get-remove-cases marks at in
    let (c, here) = h i w before in (c, get-remove-away table ne ∙ here)

IsHeld-insert-channel :
    {W : Type 0} (marks : Map ℤ W) (table : Map ℤ ChannelMeta) (c : ChannelMeta)
    → IsHeld marks table
    → IsHeld marks (insert c.id c table)
IsHeld-insert-channel {W} marks table c h i w at = elim (Bool-cases (c.id == i)) [
  | inl same ↦ (c, ground (arith, get-insert c.id i c table))
  | inr differ ↦ let (d, here) = h i w at in (d, ground (arith, get-insert c.id i c table))
]

IsHeld-mark :
    {W : Type 0} (marks : Map ℤ W) (table : Map ℤ ChannelMeta) {c : ChannelMeta} (id : ℤ) (mark : W)
    → get id table ≡ some c
    → IsHeld marks table
    → IsHeld (insert id mark marks) table
IsHeld-mark {W} marks table {c} id mark here h i w at = elim (get-insert-cases marks at) [
  | inl (id_is, mark_is) ↦ (c, ap (λ k. get k table) (sym id_is) ∙ here)
  | inr (ne, before) ↦ h i w before
]

forget_channel-valid :
    (r : Registry) {c : ChannelMeta} (id : ℤ)
    → get id r.channels ≡ some c
    → ChannelsValid r.channels r.chan_by_name r.subscribed r.released r.next_channel
    → let r' = forget_channel r id c.name in
      ChannelsValid r'.channels r'.chan_by_name r'.subscribed r'.released r'.next_channel
forget_channel-valid r id here v = record {
  linked = Linked-remove id v.linked here;
  below = Below-remove id v.below;
  unique_subscribed = remove-Unique id r.subscribed v.unique_subscribed;
  unique_released = remove-Unique id r.released v.unique_released;
  subscribed_held = IsHeld-remove _ _ id v.subscribed_held;
  released_held = IsHeld-remove _ _ id v.released_held;
}

drop_channel-IsValid : {r : Registry} (id : ℤ) → IsValid r → IsValid (drop_channel r id).0
unfolding drop_channel
drop_channel-IsValid {r} id v = elim (Option-cases (get id r.channels)) [
  | inl gone ↦ rw (gone, drop_channel) v
  | inr (c, here) ↦
      rw (here, drop_channel)
        (record {
          clients_valid = v.clients_valid;
          channels_valid = forget_channel-valid r id here v.channels_valid;
          functions_valid = v.functions_valid;
        })
]

pub drop_channels-IsValid :
    (ids : List ℤ) {r : Registry} → IsValid r → IsValid (drop_channels r ids).0
unfolding drop_channels
drop_channels-IsValid [] v = v
drop_channels-IsValid (id ∷ ids) v = drop_channels-IsValid ids (drop_channel-IsValid id v)

drop_function-IsValid : {r : Registry} (id : ℤ) → IsValid r → IsValid (drop_function r id).0
unfolding drop_function
drop_function-IsValid {r} id v = elim (Option-cases (get id r.functions)) [
  | inl gone ↦ rw (gone, drop_function) v
  | inr (f, here) ↦
      rw (here, drop_function)
        (record {
          clients_valid = v.clients_valid;
          channels_valid = v.channels_valid;
          functions_valid = record {
            linked = Linked-remove id v.functions_valid.linked here;
            below = Below-remove id v.functions_valid.below;
          };
        })
]

pub drop_functions-IsValid :
    (ids : List ℤ) {r : Registry} → IsValid r → IsValid (drop_functions r ids).0
unfolding drop_functions
drop_functions-IsValid [] v = v
drop_functions-IsValid (id ∷ ids) v = drop_functions-IsValid ids (drop_function-IsValid id v)

pub mark_subscribed-IsValid :
    {r : Registry} {c : ChannelMeta} (id : ℤ)
    → get id r.channels ≡ some c
    → IsValid r
    → IsValid (mark_subscribed r id)
unfolding mark_subscribed
mark_subscribed-IsValid {r} id here v = record {
  clients_valid = v.clients_valid;
  channels_valid = record {
    linked = v.channels_valid.linked;
    below = v.channels_valid.below;
    unique_subscribed = insert-Unique id tt r.subscribed v.channels_valid.unique_subscribed;
    unique_released = v.channels_valid.unique_released;
    subscribed_held = IsHeld-mark _ _ id tt here v.channels_valid.subscribed_held;
    released_held = v.channels_valid.released_held;
  };
  functions_valid = v.functions_valid;
}

pub reap_if_released-IsValid :
    {r : Registry} (name : Str) → IsValid r → IsValid (reap_if_released r name).0
unfolding reap_if_released
reap_if_released-IsValid {r} name v = elim (Option-cases (get name r.chan_by_name)) [
  | inl free ↦ rw (free, reap_if_released) v
  | inr (id, held) ↦ elim (Bool-cases (contains_key id r.released)) [
    | inl yes_released ↦ rw (held, yes_released, reap_if_released) (drop_channel-IsValid id v)
    | inr not_released ↦ rw (held, not_released, reap_if_released) v
  ]
]

mark_released-IsValid :
    {r : Registry} {c : ChannelMeta} (id : ℤ) (instant : ℕ)
    → get id r.channels ≡ some c
    → IsValid r
    → IsValid (record r { released = insert id instant r.released })
mark_released-IsValid {r} id instant here v = record {
  clients_valid = v.clients_valid;
  channels_valid = record {
    linked = v.channels_valid.linked;
    below = v.channels_valid.below;
    unique_subscribed = v.channels_valid.unique_subscribed;
    unique_released = insert-Unique id instant r.released v.channels_valid.unique_released;
    subscribed_held = v.channels_valid.subscribed_held;
    released_held = IsHeld-mark _ _ id instant here v.channels_valid.released_held;
  };
  functions_valid = v.functions_valid;
}

pub released_now-0 : (p : Registry × Option Str) → (released_now p).0 ≡ p.0
released_now-0 (r, none) = refl
released_now-0 (r, some arena) = refl

pub release_channel-IsValid :
    {r : Registry} (name : Str) (owner : ℤ) (instant : ℕ)
    → IsValid r
    → IsValid (release_channel r name owner instant).0
unfolding release_channel
release_channel-IsValid {r} name owner instant v = elim (Option-cases (get name r.chan_by_name)) [
  | inl free ↦ rw (free, release_channel) v
  | inr (id, held) ↦
      let (c, here, is_named) = v.channels_valid.linked.held name id held in
      elim (Bool-cases (c.owner == owner)) [
        | inr other ↦ rw (held, here, other, release_channel) v
        | inl own ↦ elim (Bool-cases (contains_key id r.subscribed)) [
          | inl used ↦
              rw (held, here, own, used, released_now-0 (drop_channel r id), release_channel)
                (drop_channel-IsValid id v)
          | inr unused ↦
              rw (held, here, own, unused, release_channel)
                (mark_released-IsValid id instant here v)
        ]
      ]
]

-- A channel, or a function, of a free name under a new id.
pub insert_channel-IsValid :
    {r : Registry} (c : ChannelMeta)
    → IsValid r
    → HasRoom r.next_channel
    → c.id ≡ r.next_channel
    → channel_name_taken r c.name ≡ false
    → IsValid (insert_channel (alloc_channel_id r).0 c)
unfolding insert_channel alloc_channel_id channel_name_taken
insert_channel-IsValid {r} c v room id_is free = record {
  clients_valid = v.clients_valid;
  channels_valid = record {
    linked =
        Linked-insert c v.channels_valid.linked (rw id_is (Below-fresh v.channels_valid.below))
          (ground arith);
    below = Below-insert c id_is v.channels_valid.below room;
    unique_subscribed = v.channels_valid.unique_subscribed;
    unique_released = v.channels_valid.unique_released;
    subscribed_held = IsHeld-insert-channel _ _ c v.channels_valid.subscribed_held;
    released_held = IsHeld-insert-channel _ _ c v.channels_valid.released_held;
  };
  functions_valid = v.functions_valid;
}

pub insert_function-IsValid :
    {r : Registry} (f : FunctionMeta)
    → IsValid r
    → HasRoom r.next_fn
    → f.id ≡ r.next_fn
    → function_name_taken r f.name ≡ false
    → IsValid (insert_function (alloc_fn_id r).0 f)
unfolding insert_function alloc_fn_id function_name_taken
insert_function-IsValid {r} f v room id_is free = record {
  clients_valid = v.clients_valid;
  channels_valid = v.channels_valid;
  functions_valid = record {
    linked =
        Linked-insert f v.functions_valid.linked (rw id_is (Below-fresh v.functions_valid.below))
          (ground arith);
    below = Below-insert f id_is v.functions_valid.below room;
  };
}

-- An id that is handed out and not used.
pub alloc_channel_id-IsValid :
    {r : Registry} → IsValid r → HasRoom r.next_channel → IsValid (alloc_channel_id r).0
unfolding alloc_channel_id
alloc_channel_id-IsValid v room = record {
  clients_valid = v.clients_valid;
  channels_valid = record {
    linked = v.channels_valid.linked;
    below = Below-succ v.channels_valid.below room;
    unique_subscribed = v.channels_valid.unique_subscribed;
    unique_released = v.channels_valid.unique_released;
    subscribed_held = v.channels_valid.subscribed_held;
    released_held = v.channels_valid.released_held;
  };
  functions_valid = v.functions_valid;
}

pub alloc_fn_id-IsValid : {r : Registry} → IsValid r → HasRoom r.next_fn → IsValid (alloc_fn_id r).0
unfolding alloc_fn_id
alloc_fn_id-IsValid v room = record {
  clients_valid = v.clients_valid;
  channels_valid = v.channels_valid;
  functions_valid = record {
    linked = v.functions_valid.linked;
    below = Below-succ v.functions_valid.below room;
  };
}
