-- ===== src/Registry/Access.antt =====
-- Who may subscribe to a channel and look a function up.
use impulse_ring.Prelude.{
  ℕ, bytes, hex, ◌++◌, ◌≡◌, ◌⊎◌, inl, inr, refl, ◌||◌, List, Option, none, some, Str, ℤ, get,
  length, int_eq, nat_eq, Option-cases, Bool-cases, arith, ◌==◌,
}
use impulse_ring.Names.{Sha256, key_hash, key_matches}
use impulse_ring.Names.Keys.{key_matches_iff}
use impulse_ring.Frame.{Fingerprint}
use impulse_ring.Proto.{err_not_found, err_denied, err_schema_mismatch}
use impulse_ring.Registry.{
  Registry, ChannelMeta, FunctionMeta, AccessResult, granted, rejected, check_key, check_fp,
  resolve_subscribe, resolve_lookup, find_function_by_name,
}

-- What a presented key has to be: nothing on a public channel, the one with the stored hash on
-- another.
abbrev Opens : Sha256 → Option (List ℕ) → Str → Type 0
Opens sha256 none presented = Unit
Opens sha256 (some hash) presented = key_hash sha256 presented ≡ hash

-- No expectation, or the actual schema.
abbrev Fits : Fingerprint → Fingerprint → Type 0
Fits expected actual = (expected ≡ 0) ⊎ (expected ≡ actual)

-- Stored hashes have the length of a digest.
abbrev pub IsDigest : Sha256 → Option (List ℕ) → Type 0
IsDigest sha256 none = Unit
IsDigest sha256 (some hash) = (presented : Str) → length (key_hash sha256 presented) ≡ length hash

check_key-cases :
    (sha256 : Sha256) (policy : Option (List ℕ)) (presented : Str)
    → IsDigest sha256 policy
    → (Opens sha256 policy presented × (check_key sha256 policy presented ≡ granted tt))
      ⊎ ((¬ Opens sha256 policy presented)
          × (m : Str) × (check_key sha256 policy presented ≡ rejected err_denied m))
unfolding check_key
check_key-cases sha256 none presented d = inl (tt, refl)
check_key-cases sha256 (some hash) presented d =
    let iff = key_matches_iff sha256 presented hash (d presented) in
    elim (Bool-cases (key_matches sha256 presented hash)) [
      | inl same ↦ inl (iff.0 same, rw same refl)
      | inr differ ↦
          inr (λ opens. ground (arith, iff.1 opens), bytes "invalid access key", rw differ refl)
    ]

abbrev mismatch : Fingerprint → Fingerprint → Str
mismatch expected actual =
    bytes "schema mismatch: expected " ++ (hex expected ++ (bytes ", got " ++ hex actual))

check_fp-cases :
    (expected actual : Fingerprint)
    → (Fits expected actual × (check_fp expected actual ≡ granted tt))
      ⊎ ((¬ Fits expected actual)
          × (m : Str) × (check_fp expected actual ≡ rejected err_schema_mismatch m))
unfolding check_fp
check_fp-cases expected actual = elim (Bool-cases (expected == 0 || expected == actual)) [
  | inl fits ↦ inl (ground arith, rw fits refl)
  | inr misfit ↦ inr (
    λ fits. elim fits [ inl e ↦ ground arith | inr e ↦ ground arith ],
    mismatch expected actual,
    rw misfit refl,
  )
]

-- The outcomes of a subscription and what each of them takes.
pub data SubscribeOutcome (sha256 : Sha256) (r : Registry) (channel_id : ℤ) (access_key : Str)
    (expected_fp : Fingerprint) : AccessResult (Str × Fingerprint) → Type 0 where
  no_channel :
      (m : Str)
      → get channel_id r.channels ≡ none
      → SubscribeOutcome sha256 r channel_id access_key expected_fp (rejected err_not_found m)
  bad_key :
      (c : ChannelMeta) (m : Str)
      → get channel_id r.channels ≡ some c
      → ¬ Opens sha256 c.key access_key
      → SubscribeOutcome sha256 r channel_id access_key expected_fp (rejected err_denied m)
  bad_schema :
      (c : ChannelMeta) (m : Str)
      → get channel_id r.channels ≡ some c
      → Opens sha256 c.key access_key
      → ¬ Fits expected_fp c.schema_fp
      → SubscribeOutcome sha256 r channel_id access_key expected_fp (rejected err_schema_mismatch m)
  resolved :
      (c : ChannelMeta)
      → get channel_id r.channels ≡ some c
      → Opens sha256 c.key access_key
      → Fits expected_fp c.schema_fp
      → SubscribeOutcome sha256 r channel_id access_key expected_fp (granted (c.arena, c.schema_fp))

-- Every subscription has one of these outcomes: an unknown channel, a wrong key and a foreign
-- schema are refused in this order, each with its own status, and all else resolves to the
-- channel's arena and schema.
pub resolve_subscribe-outcome :
    (sha256 : Sha256) (r : Registry) (channel_id : ℤ) (access_key : Str) (expected_fp : Fingerprint)
    → ((c : ChannelMeta) → get channel_id r.channels ≡ some c → IsDigest sha256 c.key)
    → SubscribeOutcome sha256 r channel_id access_key expected_fp
        (resolve_subscribe sha256 r channel_id access_key expected_fp)
unfolding resolve_subscribe
resolve_subscribe-outcome sha256 r channel_id access_key expected_fp digest =
    elim (Option-cases (get channel_id r.channels)) [
      | inl absent ↦ rw (absent, resolve_subscribe) (no_channel _ absent)
      | inr (c, here) ↦ elim (check_key-cases sha256 c.key access_key (digest c here)) [
        | inr (shut, m, e) ↦ rw (here, e, resolve_subscribe) (bad_key c m here shut)
        | inl (opens, e) ↦ elim (check_fp-cases expected_fp c.schema_fp) [
          | inr (misfit, m, f) ↦
              rw (here, e, f, resolve_subscribe) (bad_schema c m here opens misfit)
          | inl (fits, f) ↦ rw (here, e, f, resolve_subscribe) (resolved c here opens fits)
        ]
      ]
    ]

pub data LookupOutcome (sha256 : Sha256) (r : Registry) (name access_key : Str)
    : AccessResult (ℤ × Fingerprint × Fingerprint × Str) → Type 0 where
  no_function :
      (m : Str)
      → find_function_by_name r name ≡ none
      → LookupOutcome sha256 r name access_key (rejected err_not_found m)
  locked :
      (f : FunctionMeta) (m : Str)
      → find_function_by_name r name ≡ some f
      → ¬ Opens sha256 f.key access_key
      → LookupOutcome sha256 r name access_key (rejected err_denied m)
  found :
      (f : FunctionMeta)
      → find_function_by_name r name ≡ some f
      → Opens sha256 f.key access_key
      → LookupOutcome sha256 r name access_key (granted (f.id, f.req_fp, f.resp_fp, f.req_arena))

-- A lookup is refused for an unknown name and for a wrong key, in this order, and else gives the
-- function's id, schemas and request arena.
resolve_lookup-outcome :
    (sha256 : Sha256) (r : Registry) (name access_key : Str)
    → ((f : FunctionMeta) → find_function_by_name r name ≡ some f → IsDigest sha256 f.key)
    → LookupOutcome sha256 r name access_key (resolve_lookup sha256 r name access_key)
unfolding resolve_lookup
resolve_lookup-outcome sha256 r name access_key digest =
    elim (Option-cases (find_function_by_name r name)) [
      | inl absent ↦ rw (absent, resolve_lookup) (no_function _ absent)
      | inr (f, here) ↦ elim (check_key-cases sha256 f.key access_key (digest f here)) [
        | inr (shut, m, e) ↦ rw (here, e, resolve_lookup) (locked f m here shut)
        | inl (opens, e) ↦ rw (here, e, resolve_lookup) (found f here opens)
      ]
    ]

pub AccessResult-cases :
    {A : Type 0} (m : AccessResult A)
    → ((x : A) × (m ≡ granted x)) ⊎ ((code : ℤ) × (message : Str) × (m ≡ rejected code message))
AccessResult-cases (granted x) = inl (x, refl)
AccessResult-cases (rejected code message) = inr (code, message, refl)

-- Only a channel that is there is granted.
pub resolve_subscribe-present :
    (sha256 : Sha256) (r : Registry) (channel_id : ℤ) (access_key : Str) (expected_fp : Fingerprint)
    (x : Str × Fingerprint)
    → resolve_subscribe sha256 r channel_id access_key expected_fp ≡ granted x
    → (c : ChannelMeta) × (get channel_id r.channels ≡ some c)
unfolding resolve_subscribe
resolve_subscribe-present sha256 r channel_id access_key expected_fp x e =
    elim (Option-cases (get channel_id r.channels)) [
      | inr present ↦ present
      | inl absent ↦
          let e' : rejected err_not_found (bytes "no such channel") ≡ granted x =
            rw (absent, resolve_subscribe) at e in
          absurd cc
    ]
