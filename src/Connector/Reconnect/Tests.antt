-- ===== src/Connector/Reconnect/Tests.antt =====
-- A broker restart on the toy bus.
use impulse_ring.Prelude.{◌≡◌, refl, [], ◌∷◌, none, some, bytes, pos, get, nat_eq, arith}
use impulse_ring.Control.{
  attach_control, broker_epoch, clamp_arena_cap, write_superblock, next_power_of_two,
}
use impulse_ring.Ring.{format, attach, write_header}
use impulse_ring.Proto.Tests.{toy, toy_catalog}
use impulse_ring.Connector.Tests.{toy_bus, toy_mapped, connected}
use impulse_ring.Connector.Session.{ChannelReg, channel, Inner, kept}
use impulse_ring.Connector.Reconnect.{
  bootstrap, live_broker_epoch, reconnect, watch, replay, replay_channels, channels_of,
  functions_of,
}
use impulse_ring.Connector.Reconnect.Replay.{
  replay-away, replay-republished, uncelled, publish_again, cell_after,
}
use impulse_ring.Connector.Reconnect.Settled.{watch-reconnect}

abbrev news : ChannelReg
news = record {
  name = bytes "news";
  schema_json = bytes "chat schema";
  key = none;
  arena_cap = pos 0;
  ring = 0;
}

abbrev weather : ChannelReg
weather = record news { name = bytes "weather"; ring = 1 }

-- Cell 2 is a subscriber's.
abbrev publishing : Inner (Unit {0})
publishing = record connected {
  registry = (1, channel news) ∷ (2, channel weather) ∷ [];
  cells = (0, toy_mapped) ∷ (1, toy_mapped) ∷ (2, toy_mapped) ∷ [];
}

replay-away_example :
    (get 2 (replay toy_bus toy toy_catalog publishing).cells ≡ get 2 publishing.cells)
    × (uncelled (kept (replay toy_bus toy toy_catalog publishing)) ≡ uncelled (kept publishing))
unfolding channels_of functions_of
replay-away_example = replay-away toy_bus toy toy_catalog 2 publishing (omega arith) tt

replay-republished_example :
    get 1 (replay toy_bus toy toy_catalog publishing).cells
    ≡ cell_after toy_bus toy toy_catalog
        (publish_again toy_bus toy toy_catalog weather
          (replay_channels toy_bus toy toy_catalog (news ∷ []) publishing)).0
        (some toy_mapped)
unfolding channels_of functions_of get
replay-republished_example =
    replay-republished toy_bus toy toy_catalog (news ∷ []) [] weather publishing refl tt tt
      (omega arith)

-- The registration fails, since the broker answers nothing that the toy codec knows.
watch-reconnect_example :
    (kept (watch toy_bus toy toy_catalog (reconnect toy_bus toy toy_catalog 16 publishing).1)
      ≡ kept (reconnect toy_bus toy toy_catalog 16 publishing).1)
    × ((watch toy_bus toy toy_catalog (reconnect toy_bus toy toy_catalog 16 publishing).1).waiting
        ≡ (reconnect toy_bus toy toy_catalog 16 publishing).1.waiting)
unfolding bootstrap live_broker_epoch attach_control broker_epoch clamp_arena_cap format attach
    write_superblock write_header next_power_of_two
watch-reconnect_example = watch-reconnect toy_bus toy toy_catalog publishing refl refl
