-- ===== src/Registry/Linked.antt =====
-- A table by id and an index by name that agree (the registry's `channels` and `chan_by_name`, its
-- `functions` and `fn_by_name`), and the counter above the ids of a table.
use impulse_ring.Prelude.{
  Option-cases, ℕ, ◌+◌, ◌<◌, ◌^◌, ◌≡◌, refl, sym, ap, ◌∙◌, [], none, some, Str, ℤ, pos, succ_i64,
  Map, get, insert, remove, Unique, insert-Unique, remove-Unique, int_eq, str_eq, arith,
  get-insert-cases, get-insert-away, get-insert-here, get-remove-cases, get-remove-away, inl, inr,
}

pub record Linked {V : Type 0} (id_of : V → ℤ) (name_of : V → Str) (table : Map ℤ V)
    (index : Map Str ℤ) : Type 0 where
  pub unique_id : Unique table
  pub unique_name : Unique index
  pub named :
      (i : ℤ) (v : V) → get i table ≡ some v → (id_of v ≡ i) × (get (name_of v) index ≡ some i)
  pub held :
      (s : Str) (i : ℤ) → get s index ≡ some i → (v : V) × (get i table ≡ some v) × (name_of v ≡ s)

module _ {V : Type 0} {id_of : V → ℤ} {name_of : V → Str} where
  pub Linked-empty : Linked id_of name_of [] []
  unfolding get Unique
  Linked-empty = record {
    unique_id = tt;
    unique_name = tt;
    named = λ i v h. absurd cc;
    held = λ s i h. absurd cc;
  }

  -- An entry under a free id and a free name.
  pub Linked-insert :
      {table : Map ℤ V} {index : Map Str ℤ} (v : V)
      → Linked id_of name_of table index
      → get (id_of v) table ≡ none
      → get (name_of v) index ≡ none
      → Linked id_of name_of (insert (id_of v) v table) (insert (name_of v) (id_of v) index)
  Linked-insert {table} {index} v l free_id free_name = record {
    unique_id = insert-Unique (id_of v) v table l.unique_id;
    unique_name = insert-Unique (name_of v) (id_of v) index l.unique_name;
    named = λ i w h. elim (get-insert-cases table h) [
      | inl (id_is, v_is) ↦ (
        ap id_of (sym v_is) ∙ id_is,
        ap (λ x. get (name_of x) (insert (name_of v) (id_of v) index)) (sym v_is)
            ∙ get-insert-here (name_of v) (id_of v) index
            ∙ ap some id_is,
      )
      | inr (ne, before) ↦
          let (id_is, name_is) = l.named i w before in
          (id_is, get-insert-away (id_of v) index (λ same. cc) ∙ name_is)
    ];
    held = λ s i h. elim (get-insert-cases index h) [
      | inl (name_is, id_is) ↦ (
        v,
        ap (λ k. get k (insert (id_of v) v table)) (sym id_is) ∙ get-insert-here (id_of v) v table,
        name_is,
      )
      | inr (ne, before) ↦
          let (w, at, name_is) = l.held s i before in
          (w, get-insert-away v table (λ id_is. cc) ∙ at, name_is)
    ];
  }

  -- An entry goes together with its name.
  pub Linked-remove :
      {table : Map ℤ V} {index : Map Str ℤ} (i : ℤ) {v : V}
      → Linked id_of name_of table index
      → get i table ≡ some v
      → Linked id_of name_of (remove i table) (remove (name_of v) index)
  Linked-remove {table} {index} i {v} l here = record {
    unique_id = remove-Unique i table l.unique_id;
    unique_name = remove-Unique (name_of v) index l.unique_name;
    named = λ j w h.
        let (ne, before) = get-remove-cases table h in
        let (id_is, name_is) = l.named j w before in
        (
          id_is,
          get-remove-away index (λ same. let named_v = (l.named i v here).1 in ne cc) ∙ name_is,
        );
    held = λ s j h.
        let (ne, before) = get-remove-cases index h in
        let (w, at, name_is) = l.held s j before in
        (w, get-remove-away table (λ same. ne cc) ∙ at, name_is);
  }

-- Every id of the table is a number below the counter.
pub record Below {V : Type 0} (next : ℤ) (table : Map ℤ V) : Type 0 where
  pub bound : ℕ
  pub is_bound : next ≡ pos bound
  pub below : (i : ℤ) (v : V) → get i table ≡ some v → (k : ℕ) × (i ≡ pos k) × (k < bound)

-- The counter is not exhausted: the next id is an `i64` too.
unfoldable pub HasRoom : ℤ → Type 0
HasRoom next = (n : ℕ) × (next ≡ pos n) × (n + 1 < 2 ^ 63)

pub succ_i64_pos : (n : ℕ) → n + 1 < 2 ^ 63 → succ_i64 (pos n) ≡ pos (n + 1)
succ_i64_pos n h = ground arith

module _ {V : Type 0} where
  pub Below-empty : Below {V = V} (pos 1) []
  unfolding get
  Below-empty = record { bound = 1; is_bound = refl; below = λ i v h. absurd cc }

  pub Below-remove :
      {next : ℤ} (i : ℤ) {table : Map ℤ V} → Below next table → Below next (remove i table)
  Below-remove i {table} b = record {
    bound = b.bound;
    is_bound = b.is_bound;
    below = λ j v h. b.below j v (get-remove-cases table h).1;
  }

  pub Below-fresh : {next : ℤ} {table : Map ℤ V} → Below next table → get next table ≡ none
  Below-fresh {next} {table} b = elim (Option-cases (get next table)) [
    | inl e ↦ e
    | inr (v, e) ↦ let (k, is_k, lt) = b.below next v e in absurd (ground (arith, b.is_bound))
  ]

  pub Below-succ :
      {next : ℤ} {table : Map ℤ V} → Below next table → HasRoom next → Below (succ_i64 next) table
  unfolding HasRoom
  Below-succ b (n, is_n, room) = record {
    bound = n + 1;
    is_bound = ap succ_i64 is_n ∙ succ_i64_pos n room;
    below = λ i v h. let (k, is_k, lt) = b.below i v h in (k, is_k, ground (arith, b.is_bound));
  }

  -- An entry under the id that was next.
  pub Below-insert :
      {id next : ℤ} {table : Map ℤ V} (v : V)
      → id ≡ next
      → Below next table
      → HasRoom next
      → Below (succ_i64 next) (insert id v table)
  unfolding HasRoom
  Below-insert {id} {next} {table} v is_next b (n, is_n, room) = record {
    bound = n + 1;
    is_bound = ap succ_i64 is_n ∙ succ_i64_pos n room;
    below = λ i w h. elim (get-insert-cases table h) [
      | inl (id_is, v_is) ↦ (n, sym id_is ∙ is_next ∙ is_n, omega arith)
      | inr (ne, before) ↦
          let (k, is_k, lt) = b.below i w before in (k, is_k, ground (arith, b.is_bound))
    ];
  }
