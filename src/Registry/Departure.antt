-- ===== src/Registry/Departure.antt =====
-- What a departing client, or the end of a grace period, takes out of the registry.
use impulse_ring.Prelude.{
  ℕ, ◌-◌, ◌≡◌, refl, sym, ap, ◌∙◌, inl, inr, Bool, true, false, List, [], ◌∷◌, Option, none, some,
  Str, ℤ, get, contains, is_some, any_in, contains-keys_where, get-remove, Option-cases, Bool-cases,
  int_eq, str_eq, arith, ◌==◌, if◌then◌else◌, leb, int_eqb_iff, str_eqb_iff,
}
use impulse_ring.Registry.{
  Registry, ChannelMeta, FunctionMeta, drop_channel, drop_channels, remove_client_channels,
  reap_released, drop_function, drop_functions, remove_client_functions, with_arena,
  channel_name_taken, function_name_taken,
}
use impulse_ring.Registry.Invariant.{IsValid, drop_channels-IsValid, drop_functions-IsValid}

get-drop_channel :
    (r : Registry) (id j : ℤ)
    → get j (drop_channel r id).0.channels ≡ (if id == j then none else get j r.channels)
unfolding drop_channel get
get-drop_channel r id j = elim (Option-cases (get id r.channels)) [
  | inl gone ↦ rw (gone, drop_channel) (ground (arith, int_eqb_iff id j))
  | inr (c, here) ↦ rw (here, drop_channel) (get-remove id j r.channels)
]

get-drop_channels :
    (ids : List ℤ) (r : Registry) (j : ℤ)
    → get j (drop_channels r ids).0.channels ≡ (if contains j ids then none else get j r.channels)
unfolding drop_channels contains
get-drop_channels [] r j = refl
get-drop_channels (id ∷ ids) r j =
    ground (arith, get-drop_channels ids (drop_channel r id).0 j, get-drop_channel r id j)

get-drop_function :
    (r : Registry) (id j : ℤ)
    → get j (drop_function r id).0.functions ≡ (if id == j then none else get j r.functions)
unfolding drop_function get
get-drop_function r id j = elim (Option-cases (get id r.functions)) [
  | inl gone ↦ rw (gone, drop_function) (ground (arith, int_eqb_iff id j))
  | inr (f, here) ↦ rw (here, drop_function) (get-remove id j r.functions)
]

get-drop_functions :
    (ids : List ℤ) (r : Registry) (j : ℤ)
    → get j (drop_functions r ids).0.functions
      ≡ (if contains j ids then none else get j r.functions)
unfolding drop_functions contains
get-drop_functions [] r j = refl
get-drop_functions (id ∷ ids) r j =
    ground (arith, get-drop_functions ids (drop_function r id).0 j, get-drop_function r id j)

-- An arena that is handed back stays among those of the later rounds.
contains-with_arena :
    (o : Option Str) (a : Str) (arenas : List Str)
    → contains a arenas ≡ true
    → contains a (with_arena o arenas) ≡ true
unfolding contains
contains-with_arena none a arenas h = h
contains-with_arena (some b) a arenas h = ground arith

contains-some_arena : (a : Str) (arenas : List Str) → contains a (with_arena (some a) arenas) ≡ true
unfolding contains
contains-some_arena a arenas = ground (arith, str_eqb_iff a a)

drop_channel-arena :
    (r : Registry) (id : ℤ) (c : ChannelMeta)
    → get id r.channels ≡ some c
    → (drop_channel r id).1 ≡ some c.arena
unfolding drop_channel
drop_channel-arena r id c here = rw (here, drop_channel) refl

-- The arenas handed back are those of the channels dropped.
drop_channels-arenas :
    (ids : List ℤ) (r : Registry) (i : ℤ) {c : ChannelMeta}
    → contains i ids ≡ true
    → get i r.channels ≡ some c
    → contains c.arena (drop_channels r ids).1 ≡ true
unfolding drop_channels contains
drop_channels-arenas [] r i inside here = absurd cc
drop_channels-arenas (id ∷ ids) r i {c} inside here = elim (Bool-cases (id == i)) [
  | inl same ↦
      let id_is = (int_eqb_iff id i).0 same in
      rw (drop_channel-arena r id c (ap (λ k. get k r.channels) id_is ∙ here))
        (contains-some_arena c.arena _)
  | inr differ ↦ contains-with_arena (drop_channel r id).1 c.arena _ (
      drop_channels-arenas ids (drop_channel r id).0 i {c = c} (ground arith)
        (ground (arith, get-drop_channel r id i)))
]

-- After a client has gone, exactly the channels of other owners are left.
pub remove_client_channels-get :
    {r : Registry} (owner i : ℤ)
    → IsValid r
    → get i (remove_client_channels r owner).0.channels
      ≡ (if any_in (λ c. c.owner == owner) (get i r.channels) then none else get i r.channels)
unfolding remove_client_channels
remove_client_channels-get {r} owner i v =
    get-drop_channels _ r i
    ∙ ap (λ b. if b then none else get i r.channels)
        (contains-keys_where (λ c. c.owner == owner) i r.channels v.channels_valid.linked.unique_id)

-- After a client has gone, exactly the functions of other owners are left.
remove_client_functions-get :
    {r : Registry} (owner i : ℤ)
    → IsValid r
    → get i (remove_client_functions r owner).0.functions
      ≡ (if any_in (λ f. f.owner == owner) (get i r.functions) then none else get i r.functions)
unfolding remove_client_functions
remove_client_functions-get {r} owner i v =
    get-drop_functions _ r i
    ∙ ap (λ b. if b then none else get i r.functions)
        (contains-keys_where (λ f. f.owner == owner) i r.functions
          v.functions_valid.linked.unique_id)

-- A sweep takes exactly the channels that were released at least the grace period ago.
pub reap_released-get :
    {r : Registry} (grace instant : ℕ) (i : ℤ)
    → IsValid r
    → get i (reap_released r grace instant).0.channels ≡ (
        if any_in (λ at. leb grace (instant - at)) (get i r.released)
        then none
        else get i r.channels)
unfolding reap_released
reap_released-get {r} grace instant i v =
    get-drop_channels _ r i
    ∙ ap (λ b. if b then none else get i r.channels)
        (contains-keys_where (λ at. leb grace (instant - at)) i r.released
          v.channels_valid.unique_released)

-- What is left of a value that is taken away when it passes a test.
kept :
    {V : Type 0} (p : V → Bool) (o : Option V) (d : V)
    → (if any_in p o then none else o) ≡ some d
    → (o ≡ some d) × (p d ≡ false)
kept p none d h = absurd cc
kept p (some w) d h = elim (Bool-cases (p w)) [
  | inl passes ↦ absurd (ground arith)
  | inr fails ↦ (ground arith, ground arith)
]

-- The arena of every channel of a departing client is handed back, and the name that the channel
-- was found by is free.
pub remove_client_channels-frees :
    {r : Registry} (i : ℤ) (c : ChannelMeta)
    → IsValid r
    → get i r.channels ≡ some c
    → (contains c.arena (remove_client_channels r c.owner).1 ≡ true)
      × (channel_name_taken (remove_client_channels r c.owner).0 c.name ≡ false)
unfolding channel_name_taken remove_client_channels
remove_client_channels-frees {r} i c v here = (
  drop_channels-arenas _ r i {c = c}
      (contains-keys_where (λ d. d.owner == c.owner) i r.channels v.channels_valid.linked.unique_id
        ∙ ap (any_in (λ d. d.owner == c.owner)) here
        ∙ (int_eqb_iff c.owner c.owner).1 refl)
      here,
  elim (Option-cases (get c.name (remove_client_channels r c.owner).0.chan_by_name)) [
    | inl free ↦ ap is_some free
    | inr (j, held) ↦
        let (d, at, name_is) =
          (drop_channels-IsValid _ v).channels_valid.linked.held c.name j held in
        let (before, other) =
          kept (λ d. d.owner == c.owner) (get j r.channels) d
            (sym (remove_client_channels-get c.owner j v) ∙ at) in
        let d_named = (v.channels_valid.linked.named j d before).1 in
        let c_named = (v.channels_valid.linked.named i c here).1 in
        let owns_itself = (int_eqb_iff c.owner c.owner).1 refl in absurd cc
  ],
)

-- The same of the functions of a departing client.
pub remove_client_functions-frees :
    {r : Registry} (i : ℤ) (f : FunctionMeta)
    → IsValid r
    → get i r.functions ≡ some f
    → function_name_taken (remove_client_functions r f.owner).0 f.name ≡ false
unfolding function_name_taken remove_client_functions
remove_client_functions-frees {r} i f v here =
    elim (Option-cases (get f.name (remove_client_functions r f.owner).0.fn_by_name)) [
      | inl free ↦ ap is_some free
      | inr (j, held) ↦
          let (g, at, name_is) =
            (drop_functions-IsValid _ v).functions_valid.linked.held f.name j held in
          let (before, other) =
            kept (λ g. g.owner == f.owner) (get j r.functions) g
              (sym (remove_client_functions-get f.owner j v) ∙ at) in
          let g_named = (v.functions_valid.linked.named j g before).1 in
          let f_named = (v.functions_valid.linked.named i f here).1 in
          let owns_itself = (int_eqb_iff f.owner f.owner).1 refl in absurd cc
    ]
