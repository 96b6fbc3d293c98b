-- ===== src/Connector/Calls/Callees.antt =====
-- The cache of resolved callees.
use impulse_ring.Prelude.{
  ℕ, ◌≡◌, refl, sym, ap, ◌∙◌, ◌&&◌, Option, none, some, Str, get, nat_eq, str_eq, ◌==◌, Result, ok,
  err, get-insert-here, arith, Bool-cases, inl, inr,
}
use impulse_ring.Proto.{Avro}
use impulse_ring.Proto.Catalog.{Catalog}
use impulse_ring.Proto.{LookupReply}
use impulse_ring.Connector.Session.{
  Mapped, on_world, Callee, CalleeId, callee_id_eq, Inner, Bus, ◌>>=◌, bind-eq-ok,
}
use impulse_ring.Connector.Calls.{
  callee, resolve, matching_callee, fitting, refetched, forget_callee, key_or_empty, cached_or,
  do_lookup, open_ring, enter_callee, open_callee,
}

module _ (b : Bus) (a : Avro) (c : Catalog a.Schema) (fn_name : Str) (key : Option Str) where
  refetched-fits :
      (req_fp resp_fp : ℕ) (found : Callee) (s : Inner b.World) {used : Callee}
      → (refetched b a c req_fp resp_fp found s).0 ≡ ok used
      → (used.req_fp ≡ req_fp) × (used.resp_fp ≡ resp_fp)
  unfolding refetched
  refetched-fits req_fp resp_fp found s h = ground arith

  fitting-fits :
      (req_fp resp_fp : ℕ) (found : Callee) (s : Inner b.World) {used : Callee}
      → (fitting b a c fn_name key req_fp resp_fp found s).0 ≡ ok used
      → (used.req_fp ≡ req_fp) × (used.resp_fp ≡ resp_fp)
  unfolding fitting forget_callee
  fitting-fits req_fp resp_fp found s {used} h =
      elim (Bool-cases (found.req_fp == req_fp && found.resp_fp == resp_fp)) [
        | inl same ↦ ground arith
        | inr differ ↦
            let s' : Inner b.World = (forget_callee b fn_name key s).1 in
            let h' : ((callee b a c fn_name key >>= refetched b a c req_fp resp_fp) s').0
                ≡ ok used =
              ground arith in
            let (again, found_again, step) =
              bind-eq-ok (callee b a c fn_name key) (refetched b a c req_fp resp_fp) s' h' in
            refetched-fits req_fp resp_fp again _ (sym (ap (λ r. r.0) step) ∙ h')
      ]

  -- A call goes only to a callee whose request and response schemas have just the fingerprints that
  -- the caller was built with, be it cached, resolved anew, or fetched again.
  pub matching_callee-fits :
      (req_fp resp_fp : ℕ) (s : Inner b.World) {used : Callee}
      → (matching_callee b a c fn_name key req_fp resp_fp s).0 ≡ ok used
      → (used.req_fp ≡ req_fp) × (used.resp_fp ≡ resp_fp)
  unfolding matching_callee
  matching_callee-fits req_fp resp_fp s h =
      let (found, e, step) =
        bind-eq-ok (callee b a c fn_name key) (fitting b a c fn_name key req_fp resp_fp) s h in
      fitting-fits req_fp resp_fp found _ (sym (ap (λ r. r.0) step) ∙ h)

  abbrev id : CalleeId
  id = (fn_name, key_or_empty key)

  enter_callee-cached :
      (lr : LookupReply) (ring : Mapped) (s : Inner b.World) {found : Callee}
      → (enter_callee b a c fn_name key lr ring s).0 ≡ ok found
      → get id (enter_callee b a c fn_name key lr ring s).1.callees ≡ some found
  unfolding enter_callee
  enter_callee-cached lr ring s {found} h =
      get-insert-here id _ s.callees
      ∙ ap (λ (r : Result Callee). elim r [ ok x ↦ some x | err e ↦ none ]) h

  open_callee-cached :
      (lr : LookupReply) (s : Inner b.World) {found : Callee}
      → (open_callee b a c fn_name key lr s).0 ≡ ok found
      → get id (open_callee b a c fn_name key lr s).1.callees ≡ some found
  unfolding open_callee
  open_callee-cached lr s h =
      let (ring, e, step) =
        bind-eq-ok (on_world (open_ring b lr.req_arena)) (enter_callee b a c fn_name key lr) s h in
      ap (λ r. get id r.1.callees) step
      ∙ enter_callee-cached lr ring (on_world (open_ring b lr.req_arena) s).1
          (sym (ap (λ r. r.0) step) ∙ h)

  resolve-cached :
      (s : Inner b.World) {found : Callee}
      → (resolve b a c fn_name key s).0 ≡ ok found
      → get id (resolve b a c fn_name key s).1.callees ≡ some found
  unfolding resolve
  resolve-cached s h =
      let (lr, e, step) =
        bind-eq-ok (do_lookup b a c fn_name key) (open_callee b a c fn_name key) s h in
      ap (λ r. get id r.1.callees) step ∙ open_callee-cached lr _ (sym (ap (λ r. r.0) step) ∙ h)

  callee-hit :
      (s : Inner b.World) {found : Callee}
      → get id s.callees ≡ some found
      → callee b a c fn_name key s ≡ (ok found, s)
  unfolding callee
  callee-hit s h = rw h refl

  cached_or-cached :
      (known : Option Callee) (s : Inner b.World) {found : Callee}
      → get id s.callees ≡ known
      → (cached_or b a c known (resolve b a c fn_name key) s).0 ≡ ok found
      → get id (cached_or b a c known (resolve b a c fn_name key) s).1.callees ≡ some found
  cached_or-cached none s e h = resolve-cached s h
  cached_or-cached (some hit) s e h = cc

  -- A callee that was resolved once is answered from the cache, with no further message, lookup or
  -- mapping.
  pub callee-callee :
      (s : Inner b.World) {found : Callee}
      → (callee b a c fn_name key s).0 ≡ ok found
      → callee b a c fn_name key (callee b a c fn_name key s).1
        ≡ (ok found, (callee b a c fn_name key s).1)
  unfolding callee
  callee-callee s h = callee-hit _ (cached_or-cached (get id s.callees) s refl h)
