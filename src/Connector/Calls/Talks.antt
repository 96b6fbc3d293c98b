-- ===== src/Connector/Calls/Talks.antt =====
-- The calls of the broker change nothing of a connection but its pending table and the world.
use impulse_ring.Prelude.{
  ◌≡◌, refl, ap, ◌∙◌, Option, Str, bytes, pos, u64_as_i64, ℤ, Result, Result-cases, inl, inr, arith,
}
use impulse_ring.Frame.{Frame}
use impulse_ring.Proto.{
  Kind, Message, Avro, publish_channel, publish_reply, expose_function, expose_reply, register,
  register_reply, PublishReply, ExposeReply, RegisterReply, i64_to_fp,
}
use impulse_ring.Proto.Catalog.{Catalog}
use impulse_ring.Connector.Session.{
  Mapped, Transport, Inner, Bus, Action, ◌>>=◌, pure, lift, gets, on_world, kept, Kept, bind-ok,
  bind-err,
}
use impulse_ring.Connector.Calls.{
  Call, key_or_empty, next_corr, open_ring, push_on, wait_for, register_slot, answer, placed,
  call_control, exchange, checked, do_publish, do_expose, register_reply_to, do_register, adopt,
}

module _ (b : Bus) where
  pub record Talks {A : Type 0} (m : Call b A) : Type 0 where
    pub keeps : (s : Inner b.World) → kept (m s).1 ≡ kept s

  bind-Talks :
      {A B : Type 0} (m : Call b A) (f : A → Call b B)
      → Talks m
      → ((x : A) → Talks (f x))
      → Talks (m >>= f)
  bind-Talks m f t u = record {
    keeps = λ s. elim (Result-cases (m s).0) [
      | inl (x, e) ↦ ap (λ r. kept r.1) (bind-ok m f s e) ∙ (u x).keeps (m s).1 ∙ t.keeps s
      | inr (x, e) ↦ ap (λ r. kept r.1) (bind-err m f s e) ∙ t.keeps s
    ];
  }

  gets-Talks : {A : Type 0} (f : Inner b.World → A) → Talks (gets f)
  gets-Talks f = record { keeps = λ s. refl }

  pure-Talks : {A : Type 0} (x : A) → Talks (pure x)
  pure-Talks x = record { keeps = λ s. refl }

  lift-Talks : {A : Type 0} (x : Result A) → Talks (lift x)
  lift-Talks x = record { keeps = λ s. refl }

  on_world-Talks : {A : Type 0} (m : Action b.World A) → Talks (on_world m)
  on_world-Talks m = record { keeps = λ s. refl }

  next_corr-Talks : Talks (next_corr b)
  unfolding next_corr
  next_corr-Talks = record { keeps = λ s. refl }

  module _ (a : Avro) (c : Catalog a.Schema) where
    checked-Talks :
        (what : Str) (status : ℤ) (message : Str) → Talks (checked b a c what status message)
    unfolding checked
    checked-Talks what status message = record { keeps = λ s. ground arith }

    call_control-Talks : (corr : ℤ) (frame : Frame) → Talks (call_control b a c corr frame)
    unfolding call_control register_slot push_on placed wait_for answer
    call_control-Talks corr frame = record { keeps = λ s. ground arith }

    exchange-Talks :
        (corr : ℤ) (q r : Kind) (request : Message q) → Talks (exchange b a c corr q r request)
    unfolding exchange
    exchange-Talks corr q r request =
        bind-Talks _ _ (lift-Talks _)
          (λ frame. bind-Talks _ _ (call_control-Talks corr frame) (λ reply. lift-Talks _))

    pub do_publish-Talks :
        (name schema_json : Str) (key : Option Str) (arena_cap : ℤ)
        → Talks (do_publish b a c name schema_json key arena_cap)
    unfolding do_publish
    do_publish-Talks name schema_json key arena_cap = bind-Talks _ _ next_corr-Talks (λ corr.
        bind-Talks _ _ (gets-Talks (λ s. s.transport.client_id)) (λ client_id.
          bind-Talks _ _
            (exchange-Talks corr publish_channel publish_reply (record {
              correlation_id = corr;
              client_id = client_id;
              channel = name;
              schema_json = schema_json;
              access_key = key_or_empty key;
              arena_cap = arena_cap;
            }))
            (λ (pr : PublishReply).
              bind-Talks _ _ (checked-Talks (bytes "publish failed: ") pr.status pr.message)
                (λ done.
                  bind-Talks _ _ (on_world-Talks (open_ring b pr.arena))
                    (λ (ring : Mapped). pure-Talks (ring, i64_to_fp pr.schema_fp))))))

    pub do_expose-Talks :
        (name req_schema_json resp_schema_json : Str) (key : Option Str) (arena_cap : ℤ)
        → Talks (do_expose b a c name req_schema_json resp_schema_json key arena_cap)
    unfolding do_expose
    do_expose-Talks name req_schema_json resp_schema_json key arena_cap =
        bind-Talks _ _ next_corr-Talks (λ corr.
          bind-Talks _ _ (gets-Talks (λ s. s.transport.client_id)) (λ client_id.
            bind-Talks _ _
              (exchange-Talks corr expose_function expose_reply (record {
                correlation_id = corr;
                client_id = client_id;
                fn_name = name;
                req_schema_json = req_schema_json;
                resp_schema_json = resp_schema_json;
                access_key = key_or_empty key;
                req_arena_cap = arena_cap;
              }))
              (λ (er : ExposeReply).
                bind-Talks _ _ (checked-Talks (bytes "expose failed: ") er.status er.message)
                  (λ done.
                    bind-Talks _ _ (on_world-Talks (open_ring b er.req_arena)) (λ (ring : Mapped).
                      pure-Talks (ring, i64_to_fp er.req_fp, i64_to_fp er.resp_fp))))))

    register_reply_to-Talks : Talks (register_reply_to b a c)
    unfolding register_reply_to
    register_reply_to-Talks = bind-Talks _ _ (gets-Talks (λ s. s.transport)) (λ (t : Transport).
        bind-Talks _ _ next_corr-Talks (λ corr.
          bind-Talks _ _ (gets-Talks (λ s. s.app_name)) (λ (app_name : Str).
            bind-Talks _ _
              (exchange-Talks corr register register_reply (record {
                correlation_id = corr;
                app_name = app_name;
                nonce = u64_as_i64 t.nonce;
                reply_segment = t.reply_segment;
                heartbeat_ms = pos 1000;
                pid = b.pid;
              }))
              (λ (rr : RegisterReply).
                bind-Talks _ _ (checked-Talks (bytes "register rejected: ") rr.status rr.message)
                  (λ done. pure-Talks rr)))))

    -- A registration changes the client id at most.
    pub do_register-keeps :
        (s : Inner b.World)
        → (client_id : ℤ) × (kept (do_register b a c s).1
            ≡ record (kept s) { transport = record s.transport { client_id = client_id } })
    unfolding do_register adopt
    do_register-keeps s = elim (Result-cases (register_reply_to b a c s).0) [
      | inl (rr, e) ↦ (
        rr.client_id,
        ap (λ r. kept r.1) (bind-ok (register_reply_to b a c) (adopt b a c) s e)
            ∙ ap
                (λ (k : Kept). record k {
                  transport = record k.transport { client_id = rr.client_id };
                })
                (register_reply_to-Talks.keeps s),
      )
      | inr (x, e) ↦ (
        s.transport.client_id,
        ap (λ r. kept r.1) (bind-err (register_reply_to b a c) (adopt b a c) s e)
            ∙ register_reply_to-Talks.keeps s,
      )
    ]
