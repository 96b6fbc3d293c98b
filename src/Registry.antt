-- ===== src/Registry.antt =====
-- The broker's registry of applications, channels and functions (crates/impulsed/src/registry.rs).
-- A `HashMap` is an association list and a `HashSet` one to `Unit`: the order of an iteration,
-- which Rust leaves open, is that of the list. `Instant::now()` is an argument.
pub mod Access
pub mod Departure
pub mod Invariant
pub mod Linked
pub mod Reachable
pub mod Releases
pub mod Tests
use impulse_ring.Prelude.{
  ℕ, ◌-◌, Bool, true, false, not, ◌||◌, List, [], ◌∷◌, ◌++◌, map, Option, none, some, Str, bytes,
  hex, ℤ, pos, succ_i64, i64_as_i32, Map, get, insert, remove, contains_key, keys_where, is_some,
  ◌==◌, int_eq, str_eq, nat_eq, leb, if◌then◌else◌,
}
use impulse_ring.Names.{Sha256, key_matches}
use impulse_ring.Frame.{Fingerprint}
use impulse_ring.Proto.{ChannelInfo, fp_to_i64, err_not_found, err_denied, err_schema_mismatch}

pub record ClientMeta : Type 0 where
  pub app_name : Str
  pub pid : ℤ

pub record ChannelMeta : Type 0 where
  pub id : ℤ
  pub name : Str
  pub owner : ℤ
  pub schema_fp : Fingerprint
  pub key : Option (List ℕ)
  pub arena : Str

pub record FunctionMeta : Type 0 where
  pub id : ℤ
  pub name : Str
  pub owner : ℤ
  pub req_fp : Fingerprint
  pub resp_fp : Fingerprint
  pub key : Option (List ℕ)
  pub req_arena : Str

-- A value, or a status and a message.
pub data AccessResult (A : Type 0) : Type 0 where
  granted : A → AccessResult A
  rejected : ℤ → Str → AccessResult A

pub data Release : Type 0 where
  now : Str → Release
  deferred : Release
  refused : Release

pub record Registry : Type 0 where
  pub clients : Map ℤ ClientMeta
  pub channels : Map ℤ ChannelMeta
  pub chan_by_name : Map Str ℤ
  pub functions : Map ℤ FunctionMeta
  pub fn_by_name : Map Str ℤ
  pub subscribed : Map {0, 0} ℤ Unit
  pub released : Map ℤ ℕ
  pub next_client : ℤ
  pub next_channel : ℤ
  pub next_fn : ℤ

abbrev pub new : Registry
new = record {
  clients = [];
  channels = [];
  chan_by_name = [];
  functions = [];
  fn_by_name = [];
  subscribed = [];
  released = [];
  next_client = pos 1;
  next_channel = pos 1;
  next_fn = pos 1;
}

unfoldable pub add_client : Registry → Str → ℤ → Registry × ℤ
add_client r app_name pid =
    let id = r.next_client in
    (
      record r {
        next_client = succ_i64 id;
        clients = insert id (record { app_name = app_name; pid = pid }) r.clients;
      },
      id,
    )

-- `clients.get(&owner).map(|c| c.pid).unwrap_or(0)`.
abbrev pub pid_of : Registry → ℤ → ℤ
pid_of r owner = elim (get owner r.clients) [ none ↦ pos 0 | some c ↦ c.pid ]

-- `then_some(owner)` of the owner's not being alive.
abbrev unless_alive : Registry → (ℤ → Bool) → ℤ → Option ℤ
unless_alive r alive owner = if alive (pid_of r owner) then none else some owner

unfoldable pub dead_function_owner : Registry → Str → (ℤ → Bool) → Option ℤ
dead_function_owner r name alive = elim (get name r.fn_by_name) [
  | none ↦ none
  | some fid ↦ elim (get fid r.functions) [ none ↦ none | some f ↦ unless_alive r alive f.owner ]
]

unfoldable pub dead_channel_owner : Registry → Str → (ℤ → Bool) → Option ℤ
dead_channel_owner r name alive = elim (get name r.chan_by_name) [
  | none ↦ none
  | some cid ↦ elim (get cid r.channels) [ none ↦ none | some c ↦ unless_alive r alive c.owner ]
]

unfoldable pub remove_client : Registry → ℤ → Registry
remove_client r id = record r { clients = remove id r.clients }

abbrev pub forget_channel : Registry → ℤ → Str → Registry
forget_channel r id name = record r {
  channels = remove id r.channels;
  chan_by_name = remove name r.chan_by_name;
  subscribed = remove id r.subscribed;
  released = remove id r.released;
}

unfoldable pub drop_channel : Registry → ℤ → Registry × Option Str
drop_channel r id = elim (get id r.channels) [
  | none ↦ (r, none)
  | some c ↦ (forget_channel r id c.name, some c.arena)
]

-- `arenas.push(arena)` when there is one, before those of the rounds to come.
abbrev pub with_arena : Option Str → List Str → List Str
with_arena none arenas = arenas
with_arena (some arena) arenas = arena ∷ arenas

-- `drop_channel` of each id in turn: the loops of `remove_client_channels` and `reap_released`.
unfoldable pub drop_channels : Registry → List ℤ → Registry × List Str
drop_channels r [] = (r, [])
drop_channels r (id ∷ ids) =
    let p = drop_channel r id in let rest = drop_channels p.0 ids in (rest.0, with_arena p.1 rest.1)

unfoldable pub remove_client_channels : Registry → ℤ → Registry × List Str
remove_client_channels r owner = drop_channels r (keys_where (λ c. c.owner == owner) r.channels)

unfoldable pub mark_subscribed : Registry → ℤ → Registry
mark_subscribed r channel_id = record r { subscribed = insert channel_id tt r.subscribed }

-- The answer of a release that is due at once.
abbrev pub released_now : Registry × Option Str → Registry × Release
released_now (r, none) = (r, refused)
released_now (r, some arena) = (r, now arena)

unfoldable pub release_channel : Registry → Str → ℤ → ℕ → Registry × Release
release_channel r name owner instant = elim (get name r.chan_by_name) [
  | none ↦ (r, refused)
  | some id ↦ elim (get id r.channels) [
    | none ↦ (r, refused)
    | some c ↦
        if not (c.owner == owner)
        then (r, refused)
        else if contains_key id r.subscribed
        then released_now (drop_channel r id)
        else (record r { released = insert id instant r.released }, deferred)
  ]
]

unfoldable pub reap_released : Registry → ℕ → ℕ → Registry × List Str
reap_released r grace instant =
    drop_channels r (keys_where (λ at. leb grace (instant - at)) r.released)

unfoldable pub reap_if_released : Registry → Str → Registry × Option Str
reap_if_released r name = elim (get name r.chan_by_name) [
  | none ↦ (r, none)
  | some id ↦ if not (contains_key id r.released) then (r, none) else drop_channel r id
]

abbrev pub forget_function : Registry → ℤ → Str → Registry
forget_function r id name = record r {
  functions = remove id r.functions;
  fn_by_name = remove name r.fn_by_name;
}

-- One round of the loop of `remove_client_functions`.
unfoldable pub drop_function : Registry → ℤ → Registry × Option Str
drop_function r id = elim (get id r.functions) [
  | none ↦ (r, none)
  | some f ↦ (forget_function r id f.name, some f.req_arena)
]

unfoldable pub drop_functions : Registry → List ℤ → Registry × List Str
drop_functions r [] = (r, [])
drop_functions r (id ∷ ids) =
    let p = drop_function r id in
    let rest = drop_functions p.0 ids in (rest.0, with_arena p.1 rest.1)

unfoldable pub remove_client_functions : Registry → ℤ → Registry × List Str
remove_client_functions r owner = drop_functions r (keys_where (λ f. f.owner == owner) r.functions)

unfoldable pub alloc_channel_id : Registry → Registry × ℤ
alloc_channel_id r = let id = r.next_channel in (record r { next_channel = succ_i64 id }, id)

unfoldable pub alloc_fn_id : Registry → Registry × ℤ
alloc_fn_id r = let id = r.next_fn in (record r { next_fn = succ_i64 id }, id)

unfoldable pub channel_name_taken : Registry → Str → Bool
channel_name_taken r name = contains_key name r.chan_by_name

unfoldable pub insert_channel : Registry → ChannelMeta → Registry
insert_channel r c = record r {
  chan_by_name = insert c.name c.id r.chan_by_name;
  channels = insert c.id c r.channels;
}

unfoldable pub function_name_taken : Registry → Str → Bool
function_name_taken r name = contains_key name r.fn_by_name

unfoldable pub insert_function : Registry → FunctionMeta → Registry
insert_function r f = record r {
  fn_by_name = insert f.name f.id r.fn_by_name;
  functions = insert f.id f r.functions;
}

unfoldable pub find_function_by_name : Registry → Str → Option FunctionMeta
find_function_by_name r name = elim (get name r.fn_by_name) [
  | none ↦ none
  | some id ↦ get id r.functions
]

abbrev channel_info : Registry → ChannelMeta → ChannelInfo
channel_info r c = record {
  channel_id = c.id;
  name = c.name;
  owner_app = elim (get c.owner r.clients) [ none ↦ [] | some m ↦ m.app_name ];
  schema_fp = fp_to_i64 c.schema_fp;
  requires_key = is_some c.key;
}

unfoldable pub list_channels : Registry → List ChannelInfo
list_channels r = map (λ entry. channel_info r entry.1) r.channels

infixl 5 ◌>>?◌
abbrev pub ◌>>?◌ : {A B : Type 0} → AccessResult A → (A → AccessResult B) → AccessResult B
granted a >>? f = f a
rejected code message >>? f = rejected code message

module _ (sha256 : Sha256) where
  unfoldable pub check_key : Option (List ℕ) → Str → AccessResult Unit
  check_key none presented = granted tt
  check_key (some hash) presented =
      if key_matches sha256 presented hash
      then granted tt
      else rejected err_denied (bytes "invalid access key")

unfoldable pub check_fp : Fingerprint → Fingerprint → AccessResult Unit
check_fp expected actual =
    if expected == 0 || expected == actual
    then granted tt
    else rejected err_schema_mismatch
        (bytes "schema mismatch: expected " ++ (hex expected ++ (bytes ", got " ++ hex actual)))

module _ (sha256 : Sha256) where
  unfoldable pub resolve_subscribe :
      Registry → ℤ → Str → Fingerprint → AccessResult (Str × Fingerprint)
  resolve_subscribe r channel_id access_key expected_fp = elim (get channel_id r.channels) [
    | none ↦ rejected err_not_found (bytes "no such channel")
    | some c ↦ check_key sha256 c.key access_key >>? λ u.
        check_fp expected_fp c.schema_fp >>? λ v. granted (c.arena, c.schema_fp)
  ]

  unfoldable pub resolve_lookup :
      Registry → Str → Str → AccessResult (ℤ × Fingerprint × Fingerprint × Str)
  resolve_lookup r name access_key = elim (find_function_by_name r name) [
    | none ↦ rejected err_not_found (bytes "no such function")
    | some f ↦
        check_key sha256 f.key access_key >>? λ u. granted (f.id, f.req_fp, f.resp_fp, f.req_arena)
  ]
