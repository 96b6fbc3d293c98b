-- ===== src/Proto/Catalog/Build.antt =====
-- `Catalog::build` (crates/core/src/proto.rs), loop by loop.
use mathlib.Core.Path.{subst}
use impulse_ring.Prelude.{
  ℕ, ◌≡◌, refl, ap, ◌∙◌, ◌⊎◌, inl, inr, true, List, [], ◌∷◌, some, is_some, Str, Map, get, insert,
  contains, contains_key, get-insert-here, get-insert-away, ◌≢◌, ok, All, nat_eq, arith, Eq, ◌==◌,
  Bool-cases,
}
use impulse_ring.Proto.Schemas.{
  Kind, schema_for, all_kinds, legacy_schemas, register, register_reply, unregister,
  publish_channel, publish_reply, unpublish, list_channels, channel_list, subscribe,
  subscribe_reply, expose_function, expose_reply, lookup_function, lookup_reply, heartbeat,
  rpc_request, rpc_response,
}
use impulse_ring.Proto.Codec.{Avro, kind_eq, kind_eqb_iff, parse}
use impulse_ring.Proto.Catalog.{
  Catalog, add_current, add_legacy, fold_current, fold_legacy, build, or_insert, empty,
}
use impulse_ring.Proto.Catalog.Routing.{Lists}

-- An entry is never replaced by `or_insert`.
get-or_insert :
    {K V : Type 0} ⦃e : Eq K⦄ (j k : K) (v w : V) (m : Map K V)
    → get j m ≡ some v
    → get j (or_insert k w m) ≡ some v
get-or_insert ⦃e⦄ j k v w m here = elim (Bool-cases (contains_key k m)) [
  | inl present ↦ rw (present, or_insert) here
  | inr absent ↦
      rw (absent, or_insert)
        (get-insert-away w m (λ same.
            let present : contains_key k m ≡ true =
              ap (λ i. contains_key i m) same ∙ ap is_some here in
            cc)
          ∙ here)
]

-- All the kinds there are.
contains-all_kinds : (k : Kind) → contains k all_kinds ≡ true
unfolding contains all_kinds
contains-all_kinds register = refl
contains-all_kinds register_reply = refl
contains-all_kinds unregister = refl
contains-all_kinds publish_channel = refl
contains-all_kinds publish_reply = refl
contains-all_kinds unpublish = refl
contains-all_kinds list_channels = refl
contains-all_kinds channel_list = refl
contains-all_kinds subscribe = refl
contains-all_kinds subscribe_reply = refl
contains-all_kinds expose_function = refl
contains-all_kinds expose_reply = refl
contains-all_kinds lookup_function = refl
contains-all_kinds lookup_reply = refl
contains-all_kinds heartbeat = refl
contains-all_kinds rpc_request = refl
contains-all_kinds rpc_response = refl

module _ (a : Avro) (parsed : Kind → a.Schema × ℕ) where
  -- The current schemas parse, to schemas of different fingerprints, and the superseded ones parse.
  pub record Parses : Type 0 where
    pub current : (k : Kind) → parse a (schema_for k) ≡ ok (parsed k)
    pub differ : (j k : Kind) → (parsed j).1 ≡ (parsed k).1 → j ≡ k
    pub legacy : All (λ l. (p : a.Schema × ℕ) × (parse a l.1 ≡ ok p)) legacy_schemas

  abbrev Listed : Catalog a.Schema → Kind → Type 0
  Listed c k = Lists a c k (parsed k).0 (parsed k).1

  -- The catalog after one round for `k`.
  abbrev with_kind : Catalog a.Schema → Kind → Catalog a.Schema
  with_kind c k = record {
    schemas = insert k (parsed k).0 c.schemas;
    fps = insert k (parsed k).1 c.fps;
    by_fp = insert (parsed k).1 k c.by_fp;
    writer_schemas = insert (parsed k).1 (parsed k).0 c.writer_schemas;
  }

  add_current-ok :
      Parses → (c : Catalog a.Schema) (k : Kind) → add_current a c k ≡ ok (with_kind c k)
  unfolding add_current
  add_current-ok p c k = rw (p.current k, add_current) refl

  with_kind-here : (c : Catalog a.Schema) (k : Kind) → Listed (with_kind c k) k
  with_kind-here c k = record {
    schema_is = get-insert-here k _ c.schemas;
    fp_is = get-insert-here k _ c.fps;
    kind_is = get-insert-here (parsed k).1 _ c.by_fp;
    writer_is = get-insert-here (parsed k).1 _ c.writer_schemas;
  }

  with_kind-away :
      Parses → (c : Catalog a.Schema) (j k : Kind) → k ≢ j → Listed c j → Listed (with_kind c k) j
  with_kind-away p c j k ne l = record {
    schema_is = get-insert-away _ c.schemas ne ∙ l.schema_is;
    fp_is = get-insert-away _ c.fps ne ∙ l.fp_is;
    kind_is = get-insert-away _ c.by_fp (λ same. ne (p.differ k j same)) ∙ l.kind_is;
    writer_is = get-insert-away _ c.writer_schemas (λ same. ne (p.differ k j same)) ∙ l.writer_is;
  }

  step-Listed :
      Parses
      → (c : Catalog a.Schema) (j k : Kind) (ks : List Kind)
      → Listed c j ⊎ (contains j (k ∷ ks) ≡ true)
      → Listed (with_kind c k) j ⊎ (contains j ks ≡ true)
  unfolding contains
  step-Listed p c j k ks h = elim (Bool-cases (k == j)) [
    | inl same ↦
        inl (subst (λ i. Listed (with_kind c k) i) ((kind_eqb_iff k j).0 same) (with_kind-here c k))
    | inr differ ↦ elim h [
      | inl l ↦ inl (with_kind-away p c j k (λ same. ground (arith, (kind_eqb_iff k j).1 same)) l)
      | inr inside ↦ inr (ground arith)
    ]
  ]

  fold_current-Listed :
      Parses
      → (ks : List Kind) (c : Catalog a.Schema)
      → (c' : Catalog a.Schema) × (fold_current a c ks ≡ ok c')
        × ((j : Kind) → Listed c j ⊎ (contains j ks ≡ true) → Listed c' j)
  unfolding fold_current contains
  fold_current-Listed p [] c = (c, refl, λ j h. elim h [ inl l ↦ l | inr inside ↦ absurd cc ])
  fold_current-Listed p (k ∷ ks) c =
      let (c', e, listed) = fold_current-Listed p ks (with_kind c k) in
      (c', rw (add_current-ok p c k, fold_current) e, λ j h. listed j (step-Listed p c j k ks h))

  fold_legacy-Listed :
      (ls : List (Kind × Str)) (c : Catalog a.Schema)
      → All (λ l. (p : a.Schema × ℕ) × (parse a l.1 ≡ ok p)) ls
      → (c' : Catalog a.Schema) × (fold_legacy a c ls ≡ ok c')
        × ((j : Kind) → Listed c j → Listed c' j)
  unfolding fold_legacy add_legacy
  fold_legacy-Listed [] c h = (c, refl, λ j l. l)
  fold_legacy-Listed ((k, json) ∷ ls) c ((p, parses), h) =
      let next : Catalog a.Schema = record c {
        by_fp = or_insert p.1 k c.by_fp;
        writer_schemas = or_insert p.1 p.0 c.writer_schemas;
      } in
      let (c', e, listed) = fold_legacy-Listed ls next h in
      (
        c',
        rw (parses, add_legacy, fold_legacy) e,
        λ j l. listed j (record {
          schema_is = l.schema_is;
          fp_is = l.fp_is;
          kind_is = get-or_insert (parsed j).1 p.1 j k c.by_fp l.kind_is;
          writer_is = get-or_insert (parsed j).1 p.1 (parsed j).0 p.0 c.writer_schemas l.writer_is;
        }),
      )

  -- Building the catalog does not fail, and lists every kind.
  pub build-Lists :
      Parses
      → (c : Catalog a.Schema) × (build a ≡ ok c)
        × ((k : Kind) → Lists a c k (parsed k).0 (parsed k).1)
  unfolding build
  build-Lists p =
      let (c0, e0, listed0) = fold_current-Listed p all_kinds (empty a) in
      let (c1, e1, listed1) = fold_legacy-Listed legacy_schemas c0 p.legacy in
      (c1, rw (e0, build) e1, λ k. listed1 k (listed0 k (inr (contains-all_kinds k))))
