-- ===== src/Shm.antt =====
-- Named shared-memory segments (crates/core/src/shm.rs). The system calls are the record `Os`: a
-- failed one gives the error of its `errno`. The debug assertion on the first letter of a name is
-- left out.
use impulse_ring.Prelude.{
  ℕ, Bool, true, false, List, [], ◌∷◌, ◌++◌, Str, bytes, starts_with, contains, nat_eq, ℤ, pos,
  negsuc, ◌==◌, if◌then◌else◌, Result, ok, err, other, not_found,
}
use impulse_ring.Segment.{Segment}
use impulse_ring.Action.{Action, ◌>>=◌, ◌>>◌, pure, raise}

abbrev name_prefix : Str
name_prefix = bytes "impulse-ring."

-- 0o666.
abbrev segment_mode : ℕ
segment_mode = 438

-- What `kill(pid, 0)` says.
pub data Signal : Type 0 where
  delivered : Signal
  not_permitted : Signal
  failed : Signal

-- The system. A descriptor and an address are numbers; `memory` is what is mapped at an address.
pub record Os : Type 1 where
  pub World : Type 0
  pub shm_open_create : Str → ℕ → Action World ℕ
  pub shm_open : Str → Action World ℕ
  pub fchmod : ℕ → ℕ → Action World (Unit {0})
  pub ftruncate : ℕ → ℕ → Action World (Unit {0})
  pub fstat_size : ℕ → Action World ℕ
  pub mmap : ℕ → ℕ → Action World ℕ
  pub munmap : ℕ → ℕ → World → World
  pub close : ℕ → World → World
  pub shm_unlink : Str → Action World (Unit {0})
  pub read_dir : Action World (List (Result Str))
  pub kill : World → ℤ → Signal
  pub memory : World → ℕ → Segment
  pub update : ℕ → Segment → World → World

-- `shm::Segment`.
pub record Mapping : Type 0 where
  pub name : Str
  pub ptr : ℕ
  pub len : ℕ
  pub owns_unlink : Bool

-- The entries that `list_segments` keeps; an entry that cannot be read ends it.
unfoldable pub ring_names : List (Result Str) → Result (List Str)
ring_names [] = ok []
ring_names (err e ∷ entries) = err e
ring_names (ok fname ∷ entries) =
    let rest = ring_names entries in
    elim rest [
      | err e ↦ err e
      | ok names ↦
          ok (if starts_with fname name_prefix then (bytes "/" ++ fname) ∷ names else names)
    ]

module _ (o : Os) where
  open o use {World}

  -- `CString::new`.
  unfoldable pub c_string : Str → Action World (Unit {0})
  c_string name = if contains 0 name then raise (other (bytes "nul in shm name")) else pure tt

  -- A descriptor is closed whatever became of what it was used for.
  unfoldable pub closing : {A : Type 0} → ℕ → Action World A → Action World A
  closing fd use_it w = let (r, w') = use_it w in (r, o.close fd w')

  unfoldable pub sized : ℕ → ℕ → Action World ℕ
  sized size fd = do o.fchmod fd segment_mode; o.ftruncate fd size; o.mmap fd size

  unfoldable pub create : Str → ℕ → Action World Mapping
  create name size = do
    c_string name
    fd ← o.shm_open_create name segment_mode
    ptr ← closing fd (sized size fd)
    pure (record { name = name; ptr = ptr; len = size; owns_unlink = true })

  abbrev whole : ℕ → ℕ → Action World (ℕ × ℕ)
  whole fd size = do ptr ← o.mmap fd size; pure (ptr, size)

  unfoldable pub measured : ℕ → Action World (ℕ × ℕ)
  measured fd = do
    size ← o.fstat_size fd
    if size == 0 then raise (other (bytes "segment has zero size")) else whole fd size

  -- The three parts of an opening.
  abbrev pub borrowed : Str → ℕ × ℕ → Action World Mapping
  borrowed name mapped =
      pure (record { name = name; ptr = mapped.0; len = mapped.1; owns_unlink = false })

  abbrev pub mapping_of : Str → ℕ → Action World Mapping
  mapping_of name fd = closing fd (measured fd) >>= borrowed name

  abbrev pub opening : Str → Action World Mapping
  opening name = o.shm_open name >>= mapping_of name

  unfoldable pub open_existing : Str → Action World Mapping
  open_existing name = c_string name >> opening name

  -- `ENOENT` is no error.
  unfoldable pub unlink : Str → Action World (Unit {0})
  unlink name = c_string name >> (λ w.
      let (r, w') = o.shm_unlink name w in
      elim r [ ok u ↦ (ok u, w') | err e ↦ elim e [ not_found ↦ (ok tt, w') | e ↦ (err e, w') ] ])

  -- `Drop`.
  unfoldable pub drop_mapping : Mapping → World → World
  unfolding unlink
  drop_mapping m w =
      let w' = o.munmap m.ptr m.len w in if m.owns_unlink then (unlink m.name w').1 else w'

  unfoldable pub list_segments : Action World (List Str)
  list_segments w =
      let (r, w') = o.read_dir w in
      elim r [ err e ↦ (err e, w') | ok entries ↦ (ring_names entries, w') ]

  unfoldable pub pid_alive : World → ℤ → Bool
  pid_alive w (negsuc n) = false
  pid_alive w (pos n) =
      if n == 0
      then false
      else elim (o.kill w (pos n)) [ delivered ↦ true | not_permitted ↦ true | failed ↦ false ]
