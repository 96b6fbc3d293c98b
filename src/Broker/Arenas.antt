-- ===== src/Broker/Arenas.antt =====
-- The arenas that the broker (crates/impulsed/src/broker.rs) keeps mapped, and the channels and
-- functions that have them. Two tables share one map of arenas, each with names of its own; what is
-- said of the first table holds of the second by `swapped`.
use impulse_ring.Prelude.{
  ℕ, ◌^◌, ◌<◌, ◌≡◌, ◌≢◌, sym, ap, ◌∙◌, ◌⊎◌, inl, inr, none, some, Str, ℤ, pos, Map, get, insert,
  remove, int_eq, str_eq, get-insert-cases, get-insert-away, get-insert-here, get-remove-cases,
  get-remove-away, arith,
}

-- Every entry has the arena named after its id.
abbrev Named : {V : Type 0} → (V → Str) → (ℕ → Str) → Map ℤ V → Type 0
Named {V} arena_of name table =
    (i : ℤ) (v : V)
    → get i table ≡ some v
    → (k : ℕ) × (i ≡ pos k) × (k < 2 ^ 63) × (arena_of v ≡ name k)

-- Some entry has this arena.
abbrev Hosts : {V : Type 0} → (V → Str) → Map ℤ V → Str → Type 0
Hosts {V} arena_of table arena = (i : ℤ) × (v : V) × (get i table ≡ some v) × (arena_of v ≡ arena)

abbrev pub Distinct : (ℕ → Str) → Type 0
Distinct name = (m n : ℕ) → m < 2 ^ 64 → n < 2 ^ 64 → name m ≡ name n → m ≡ n

abbrev Apart : (ℕ → Str) → (ℕ → Str) → Type 0
Apart f g = (m n : ℕ) → f m ≢ g n

-- The arena of every entry is mapped, and every mapped arena is that of an entry.
pub record Accounted {V W S : Type 0} (arena_v : V → Str) (arena_w : W → Str) (f g : ℕ → Str)
    (vs : Map ℤ V) (ws : Map ℤ W) (arenas : Map Str S) : Type 0 where
  pub named_v : Named arena_v f vs
  pub named_w : Named arena_w g ws
  pub mapped_v : (i : ℤ) (v : V) → get i vs ≡ some v → (s : S) × (get (arena_v v) arenas ≡ some s)
  pub mapped_w : (i : ℤ) (w : W) → get i ws ≡ some w → (s : S) × (get (arena_w w) arenas ≡ some s)
  pub hosted :
      (arena : Str) (s : S)
      → get arena arenas ≡ some s
      → Hosts arena_v vs arena ⊎ Hosts arena_w ws arena

-- Entries of two tables have different arenas.
away :
    {V W : Type 0} {arena_v : V → Str} {arena_w : W → Str} {f g : ℕ → Str} (vs : Map ℤ V)
    (ws : Map ℤ W) {v : V} {w : W} (i j : ℤ)
    → Apart f g
    → Named arena_v f vs
    → Named arena_w g ws
    → get i vs ≡ some v
    → get j ws ≡ some w
    → arena_v v ≢ arena_w w
away vs ws i j apart named_v named_w here there same =
    let (k, i_is, lt, v_is) = named_v i _ here in
    let (l, j_is, lt', w_is) = named_w j _ there in apart k l (sym v_is ∙ same ∙ w_is)

-- Two entries of one table have too.
other :
    {V : Type 0} {arena_v : V → Str} {f : ℕ → Str} (vs : Map ℤ V) {v v' : V} (i j : ℤ)
    → Distinct f
    → Named arena_v f vs
    → get i vs ≡ some v
    → get j vs ≡ some v'
    → i ≢ j
    → arena_v v ≢ arena_v v'
other vs i j distinct named here there ne same =
    let (k, i_is, lt, v_is) = named i _ here in
    let (l, j_is, lt', v_is') = named j _ there in
    ne (
      i_is ∙ ap pos (distinct k l (omega arith) (omega arith) (sym v_is ∙ same ∙ v_is')) ∙ sym j_is)

module _ {V W S : Type 0} {arena_v : V → Str} {arena_w : W → Str} {f g : ℕ → Str} where
  pub swapped :
      {vs : Map ℤ V} {ws : Map ℤ W} {arenas : Map Str S}
      → Accounted arena_v arena_w f g vs ws arenas
      → Accounted arena_w arena_v g f ws vs arenas
  swapped a = record {
    named_v = a.named_w;
    named_w = a.named_v;
    mapped_v = a.mapped_w;
    mapped_w = a.mapped_v;
    hosted = λ arena s h. elim (a.hosted arena s h) [ inl x ↦ inr x | inr y ↦ inl y ];
  }

  module _ (apart : Apart f g) (distinct : Distinct f) where
    -- An entry goes together with its arena.
    pub Accounted-remove :
        {vs : Map ℤ V} {ws : Map ℤ W} {arenas : Map Str S} {v : V} (id : ℤ)
        → Accounted arena_v arena_w f g vs ws arenas
        → get id vs ≡ some v
        → Accounted arena_v arena_w f g (remove id vs) ws (remove (arena_v v) arenas)
    Accounted-remove {vs} {ws} {arenas} {v} id a here = record {
      named_v = λ i x h. a.named_v i x (get-remove-cases vs h).1;
      named_w = a.named_w;
      mapped_v = λ i x h.
          let (ne, before) = get-remove-cases vs h in
          let (s, at) = a.mapped_v i x before in
          (s, get-remove-away arenas (other vs id i distinct a.named_v here before ne) ∙ at);
      mapped_w = λ i x h.
          let (s, at) = a.mapped_w i x h in
          (s, get-remove-away arenas (away vs ws id i apart a.named_v a.named_w here h) ∙ at);
      hosted = λ arena s h.
          let (ne, before) = get-remove-cases arenas h in
          elim (a.hosted arena s before) [
            | inl (i, x, at, arena_is) ↦
                inl (i, x, get-remove-away vs (λ same. ne cc) ∙ at, arena_is)
            | inr y ↦ inr y
          ];
    }

    -- A new entry comes with its arena.
    pub Accounted-insert :
        {vs : Map ℤ V} {ws : Map ℤ W} {arenas : Map Str S} (v : V) (s : S) {id : ℤ} {n : ℕ}
        → Accounted arena_v arena_w f g vs ws arenas
        → get id vs ≡ none
        → id ≡ pos n
        → n < 2 ^ 63
        → arena_v v ≡ f n
        → Accounted arena_v arena_w f g (insert id v vs) ws (insert (arena_v v) s arenas)
    Accounted-insert {vs} {ws} {arenas} v s {id} {n} a fresh id_is lt arena_is =
        let named : Named arena_v f (insert id v vs) = λ i x h. elim (get-insert-cases vs h) [
          | inl (i_is, x_is) ↦ (n, sym i_is ∙ id_is, lt, ap arena_v (sym x_is) ∙ arena_is)
          | inr (ne, before) ↦ a.named_v i x before
        ] in
        let here = get-insert-here id v vs in
        record {
          named_v = named;
          named_w = a.named_w;
          mapped_v = λ i x h. elim (get-insert-cases vs h) [
            | inl (i_is, x_is) ↦ (
              s,
              ap (λ y. get (arena_v y) (insert (arena_v v) s arenas)) (sym x_is)
                  ∙ get-insert-here (arena_v v) s arenas,
            )
            | inr (ne, before) ↦
                let (t, at) = a.mapped_v i x before in
                (
                  t,
                  get-insert-away s arenas (other (insert id v vs) id i distinct named here h ne)
                      ∙ at,
                )
          ];
          mapped_w = λ i x h.
              let (t, at) = a.mapped_w i x h in
              (
                t,
                get-insert-away s arenas
                      (away (insert id v vs) ws id i apart named a.named_w here h)
                    ∙ at,
              );
          hosted = λ arena t h. elim (get-insert-cases arenas h) [
            | inl (arena_is', t_is) ↦ inl (id, v, here, arena_is')
            | inr (ne, before) ↦ elim (a.hosted arena t before) [
              | inl (i, x, at, x_is) ↦ inl (i, x, get-insert-away v vs (λ same. cc) ∙ at, x_is)
              | inr y ↦ inr y
            ]
          ];
        }
