-- ===== src/Connector/Reconnect/Replay.antt =====
-- What a replay changes: the cells of the connection's own channels and functions.
use impulse_ring.Prelude.{
  ℕ, ◌≡◌, ◌≢◌, refl, ap, ◌∙◌, List, [], ◌∷◌, ◌++◌, Option, some, get, nat_eq, Result, ok, err, All,
  get-insert-away, get-insert-here,
}
use impulse_ring.Proto.{Avro}
use impulse_ring.Proto.Catalog.{Catalog}
use impulse_ring.Connector.Session.{Mapped, ChannelReg, FunctionReg, Inner, Bus, kept, Kept}
use impulse_ring.Connector.Calls.{do_publish, do_expose}
use impulse_ring.Connector.Calls.Talks.{do_publish-Talks, do_expose-Talks}
use impulse_ring.Connector.Reconnect.{
  rebind, republished, reexposed, replay_channels, replay_functions, replay, channels_of,
  functions_of,
}

-- All but the cells.
abbrev pub uncelled : Kept → Kept
uncelled k = record k { cells = [] }

module _ (b : Bus) (a : Avro) (c : Catalog a.Schema) where
  -- The publish of a replay.
  abbrev pub publish_again : ChannelReg → Inner b.World → Result (Mapped × ℕ) × Inner b.World
  publish_again r s = do_publish b a c r.name r.schema_json r.key r.arena_cap s

  abbrev pub expose_again : FunctionReg → Inner b.World → Result (Mapped × ℕ × ℕ) × Inner b.World
  expose_again r s = do_expose b a c r.name r.req_schema_json r.resp_schema_json r.key r.arena_cap s

  republished-uncelled :
      (r : ChannelReg) (p : Result (Mapped × ℕ) × Inner b.World)
      → uncelled (kept (republished b a c r p)) ≡ uncelled (kept p.1)
  unfolding rebind
  republished-uncelled r (ok (ring, fp), s) = refl
  republished-uncelled r (err e, s) = refl

  reexposed-uncelled :
      (r : FunctionReg) (p : Result (Mapped × ℕ × ℕ) × Inner b.World)
      → uncelled (kept (reexposed b a c r p)) ≡ uncelled (kept p.1)
  unfolding rebind
  reexposed-uncelled r (ok (ring, req_fp, resp_fp), s) = refl
  reexposed-uncelled r (err e, s) = refl

  replay_channels-uncelled :
      (rs : List ChannelReg) (s : Inner b.World)
      → uncelled (kept (replay_channels b a c rs s)) ≡ uncelled (kept s)
  unfolding replay_channels
  replay_channels-uncelled [] s = refl
  replay_channels-uncelled (r ∷ rs) s =
      replay_channels-uncelled rs _
      ∙ republished-uncelled r (publish_again r s)
      ∙ ap uncelled ((do_publish-Talks b a c r.name r.schema_json r.key r.arena_cap).keeps s)

  replay_functions-uncelled :
      (rs : List FunctionReg) (s : Inner b.World)
      → uncelled (kept (replay_functions b a c rs s)) ≡ uncelled (kept s)
  unfolding replay_functions
  replay_functions-uncelled [] s = refl
  replay_functions-uncelled (r ∷ rs) s =
      replay_functions-uncelled rs _
      ∙ reexposed-uncelled r (expose_again r s)
      ∙ ap uncelled (
          (do_expose-Talks b a c r.name r.req_schema_json r.resp_schema_json r.key
              r.arena_cap).keeps
            s)

  pub replay-uncelled : (s : Inner b.World) → uncelled (kept (replay b a c s)) ≡ uncelled (kept s)
  unfolding replay
  replay-uncelled s =
      replay_functions-uncelled (functions_of s.registry) _
      ∙ replay_channels-uncelled (channels_of s.registry) s

  republished-away :
      (cell : ℕ) (r : ChannelReg) (p : Result (Mapped × ℕ) × Inner b.World)
      → r.ring ≢ cell
      → get cell (republished b a c r p).cells ≡ get cell p.1.cells
  unfolding rebind
  republished-away cell r (ok (ring, fp), s) away = get-insert-away ring s.cells away
  republished-away cell r (err e, s) away = refl

  reexposed-away :
      (cell : ℕ) (r : FunctionReg) (p : Result (Mapped × ℕ × ℕ) × Inner b.World)
      → r.ring ≢ cell
      → get cell (reexposed b a c r p).cells ≡ get cell p.1.cells
  unfolding rebind
  reexposed-away cell r (ok (ring, req_fp, resp_fp), s) away = get-insert-away ring s.cells away
  reexposed-away cell r (err e, s) away = refl

  replay_channels-away :
      (cell : ℕ) (rs : List ChannelReg) (s : Inner b.World)
      → All (λ r. r.ring ≢ cell) rs
      → get cell (replay_channels b a c rs s).cells ≡ get cell s.cells
  unfolding replay_channels
  replay_channels-away cell [] s away = refl
  replay_channels-away cell (r ∷ rs) s away =
      replay_channels-away cell rs _ away.1
      ∙ republished-away cell r (publish_again r s) away.0
      ∙ ap (λ (k : Kept). get cell k.cells)
          ((do_publish-Talks b a c r.name r.schema_json r.key r.arena_cap).keeps s)

  replay_functions-away :
      (cell : ℕ) (rs : List FunctionReg) (s : Inner b.World)
      → All (λ r. r.ring ≢ cell) rs
      → get cell (replay_functions b a c rs s).cells ≡ get cell s.cells
  unfolding replay_functions
  replay_functions-away cell [] s away = refl
  replay_functions-away cell (r ∷ rs) s away =
      replay_functions-away cell rs _ away.1
      ∙ reexposed-away cell r (expose_again r s) away.0
      ∙ ap (λ (k : Kept). get cell k.cells)
          ((do_expose-Talks b a c r.name r.req_schema_json r.resp_schema_json r.key
              r.arena_cap).keeps
            s)

  -- A replay leaves every cell alone that no registration owns, such as a subscriber's, and changes
  -- nothing else of the connection but its pending table and the world: the registrations are there
  -- for the next replay.
  pub replay-away :
      (cell : ℕ) (s : Inner b.World)
      → All (λ r. r.ring ≢ cell) (channels_of s.registry)
      → All (λ r. r.ring ≢ cell) (functions_of s.registry)
      → (get cell (replay b a c s).cells ≡ get cell s.cells)
        × (uncelled (kept (replay b a c s)) ≡ uncelled (kept s))
  unfolding replay
  replay-away cell s no_channel no_function = (
    replay_functions-away cell (functions_of s.registry) _ no_function
        ∙ replay_channels-away cell (channels_of s.registry) s no_channel,
    replay-uncelled s,
  )

  -- A cell once its channel was published again, or not.
  abbrev pub cell_after : Result (Mapped × ℕ) → Option Mapped → Option Mapped
  cell_after (ok (ring, fp)) before = some ring
  cell_after (err e) before = before

  republished-here :
      (r : ChannelReg) (p : Result (Mapped × ℕ) × Inner b.World)
      → get r.ring (republished b a c r p).cells ≡ cell_after p.0 (get r.ring p.1.cells)
  unfolding rebind
  republished-here r (ok (found, f), s) = get-insert-here r.ring found s.cells
  republished-here r (err x, s) = refl

  replay_channels-append :
      (xs ys : List ChannelReg) (s : Inner b.World)
      → replay_channels b a c (xs ++ ys) s ≡ replay_channels b a c ys (replay_channels b a c xs s)
  unfolding replay_channels
  replay_channels-append [] ys s = refl
  replay_channels-append (x ∷ xs) ys s = replay_channels-append xs ys _

  module _ (front back : List ChannelReg) (r : ChannelReg) (s : Inner b.World)
      (listed : channels_of s.registry ≡ front ++ r ∷ back)
      (not_later : All (λ r'. r'.ring ≢ r.ring) back)
      (no_function : All (λ f. f.ring ≢ r.ring) (functions_of s.registry)) where
    abbrev reached : Inner b.World
    reached = replay_channels b a c front s

    replay-at :
        get r.ring (replay b a c s).cells
        ≡ get r.ring (republished b a c r (publish_again r reached)).cells
    unfolding replay replay_channels
    replay-at =
        replay_functions-away r.ring (functions_of s.registry) _ no_function
        ∙ ap (λ rs. get r.ring (replay_channels b a c rs s).cells) listed
        ∙ ap (λ (t : Inner b.World). get r.ring t.cells) (replay_channels-append front (r ∷ back) s)
        ∙ replay_channels-away r.ring back _ not_later

    -- A replay publishes every channel of the connection again, whatever became of the ones before
    -- it: a channel that has its cell for itself finds the new ring in it if its publish succeeded,
    -- and else the old one.
    pub replay-republished :
        All (λ r'. r'.ring ≢ r.ring) front
        → get r.ring (replay b a c s).cells
          ≡ cell_after (publish_again r reached).0 (get r.ring s.cells)
    replay-republished not_before =
        replay-at
        ∙ republished-here r (publish_again r reached)
        ∙ ap (λ (k : Kept). cell_after (publish_again r reached).0 (get r.ring k.cells))
            ((do_publish-Talks b a c r.name r.schema_json r.key r.arena_cap).keeps reached)
        ∙ ap (cell_after (publish_again r reached).0)
            (replay_channels-away r.ring front s not_before)
