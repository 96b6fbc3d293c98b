-- ===== src/Connector/Reconnect/Settled.antt =====
-- After a reconnect that got past its bootstrap.
use impulse_ring.Prelude.{
  ◌≡◌, refl, sym, ap, ◌∙◌, not, ◌||◌, nat_eq, ok, if◌then◌else◌, Result-cases, Bool-cases, inl, inr,
}
use impulse_ring.Proto.{Avro}
use impulse_ring.Proto.Catalog.{Catalog}
use impulse_ring.Connector.Session.{
  Transport, Inner, Bus, kept, Kept, modify, bind-ok, bind-err, on_world,
}
use impulse_ring.Connector.Calls.{do_register}
use impulse_ring.Connector.Calls.Talks.{do_register-keeps}
use impulse_ring.Connector.Reconnect.{
  bootstrap, swap, rejoin, settle_on, noticed, reconnect, replay, live_broker_epoch, watch,
}
use impulse_ring.Connector.Reconnect.Replay.{replay-uncelled}

module _ (b : Bus) (a : Avro) (c : Catalog a.Schema) where
  settle_on-epoch :
      (t : Transport) (s : Inner b.World) → (settle_on b a c t s).1.transport.epoch ≡ t.epoch
  unfolding settle_on swap
  settle_on-epoch t s = elim (Result-cases (do_register b a c (swap b a c t s)).0) [
    | inl (client_id, e) ↦
        ap (λ r. r.1.transport.epoch)
          (bind-ok (do_register b a c) (λ id. modify (replay b a c)) (swap b a c t s) e)
        ∙ ap (λ (k : Kept). k.transport.epoch)
            (replay-uncelled b a c (do_register b a c (swap b a c t s)).1)
        ∙ ap (λ (k : Kept). k.transport.epoch) (do_register-keeps b a c (swap b a c t s)).1
    | inr (x, e) ↦
        ap (λ r. r.1.transport.epoch)
          (bind-err (do_register b a c) (λ id. modify (replay b a c)) (swap b a c t s) e)
        ∙ ap (λ (k : Kept). k.transport.epoch) (do_register-keeps b a c (swap b a c t s)).1
  ]

  watch-same :
      (s : Inner b.World)
      → (live_broker_epoch b s.world).0 ≡ ok s.transport.epoch
      → (kept (watch b a c s) ≡ kept s) × ((watch b a c s).waiting ≡ s.waiting)
  unfolding watch
  watch-same s live = elim (Bool-cases (not s.running || not s.auto_reconnect)) [
    | inl off ↦ rw (off, watch) (refl, refl)
    | inr on ↦
        rw
          (on, live, (nat_eq.equals_iff s.transport.epoch s.transport.epoch).1 refl, watch, noticed)
          (refl, refl)
  ]

  module _ (s : Inner b.World) {t : Transport}
      (booted : (bootstrap b s.reply_cap s.world).0 ≡ ok t) where
    rejoin-epoch : (rejoin b a c s).1.transport.epoch ≡ t.epoch
    unfolding rejoin
    rejoin-epoch =
        ap (λ r. r.1.transport.epoch)
          (bind-ok (on_world (bootstrap b s.reply_cap)) (settle_on b a c) s booted)
        ∙ settle_on-epoch t _

    reconnect-epoch : (reconnect b a c s.transport.epoch s).1.transport.epoch ≡ t.epoch
    unfolding reconnect
    reconnect-epoch =
        rw ((nat_eq.equals_iff s.transport.epoch s.transport.epoch).1 refl, not, if◌then◌else◌)
          rejoin-epoch

    -- A reconnect that got past its bootstrap is over, whether or not the connection could register
    -- again and publish its channels: as long as the broker of that bootstrap lives, a round of the
    -- watcher changes nothing.
    pub watch-reconnect :
        (live_broker_epoch b (reconnect b a c s.transport.epoch s).1.world).0 ≡ ok t.epoch
        → (kept (watch b a c (reconnect b a c s.transport.epoch s).1)
            ≡ kept (reconnect b a c s.transport.epoch s).1)
          × ((watch b a c (reconnect b a c s.transport.epoch s).1).waiting
              ≡ (reconnect b a c s.transport.epoch s).1.waiting)
    watch-reconnect live = watch-same _ (live ∙ ap ok (sym reconnect-epoch))
