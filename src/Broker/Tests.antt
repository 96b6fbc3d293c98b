-- ===== src/Broker/Tests.antt =====
-- A broker whose bus has two channels and a function of one client.
use impulse_ring.Prelude.{
  Option, none, insert, str_eq, str_eqb, decimal-digit, sym, ap, ◌++◌, ℕ, ◌≡◌, refl, true, false,
  some, List, [], ◌∷◌, bytes, pos, get, int_eq, int_eqb, if◌then◌else◌, ok, err, not_found, arith,
  ◌==◌,
}
use impulse_ring.Segment.{Segment, zeroed}
use impulse_ring.Control.{clamp_arena_cap}
use impulse_ring.Ring.{ring_bytes, write_header}
use impulse_ring.Names.Tests.{toy_digest}
use impulse_ring.Frame
use impulse_ring.Proto.{unregister, PublishChannel}
use impulse_ring.Proto.Tests.{
  toy, toy_catalog, goodbye, goodbye_frame, goodbye-to_frame, toy-parse_other,
}
use impulse_ring.Ring.Tests.{small, fresh, fresh-Rests}
use impulse_ring.Registry.{
  ChannelMeta, FunctionMeta, channel_name_taken, add_client, alloc_channel_id, insert_channel,
  alloc_fn_id, insert_function, mark_subscribed,
}
use impulse_ring.Registry.Linked.{HasRoom}
use impulse_ring.Registry.Reachable.{Reachable-IsValid}
use impulse_ring.Registry.Tests.{
  alice, feed, news, adder, bus, bus-IsValid, alice-Reachable, with_feed-Reachable,
  with_news-Reachable,
}
use impulse_ring.Broker.Accounts.{Balanced, insert_channel-Balanced, insert_function-Balanced}
use impulse_ring.Names.{channel_arena, function_arena}
use impulse_ring.Broker.{
  Broker, ReplyRing, Outside, claim_channel_name, reply, handle, published, run, new_broker,
}
use impulse_ring.Broker.Claims.{ChannelClaim, claim_channel_name-outcome}
use impulse_ring.Broker.Room.{Rooms}
use impulse_ring.Broker.Fit.{Sound, Fit}
use impulse_ring.Broker.Handlers.{handle-Fit}
use impulse_ring.Broker.Runs.{SoundAfter, run-Sound}
use impulse_ring.Broker.Validity.{Leaves}
use impulse_ring.Broker.Publish.{Served, published-Served}
use impulse_ring.Broker.Replies.{Replied, reply-Replied}

abbrev reply_ring : ReplyRing
reply_ring = record { ring = small; segment = fresh }

-- The broker with the first client only.
abbrev started : Broker
started = record {
  reg = alice;
  reply_rings = (pos 1, reply_ring) ∷ [];
  arenas = [];
  reply_names = bytes "/impulse-ring.cli.9.v1" ∷ [];
}

abbrev with_channel : Broker → ChannelMeta → Broker
with_channel b c = record b {
  reg = insert_channel (alloc_channel_id b.reg).0 c;
  arenas = insert c.arena (zeroed 1024) b.arenas;
}

abbrev with_function : Broker → FunctionMeta → Broker
with_function b f = record b {
  reg = insert_function (alloc_fn_id b.reg).0 f;
  arenas = insert f.req_arena (zeroed 1024) b.arenas;
}

abbrev full : Broker
full = with_function (with_channel (with_channel started feed) news) adder

abbrev broker : Broker
broker = record full { reg = bus }

started-Balanced : Balanced started
unfolding add_client get
started-Balanced = record {
  named_v = λ i v h. absurd cc;
  named_w = λ i w h. absurd cc;
  mapped_v = λ i v h. absurd cc;
  mapped_w = λ i w h. absurd cc;
  hosted = λ arena s h. absurd cc;
}

feed-arena : feed.arena ≡ channel_arena 1
unfolding channel_arena
feed-arena =
    ap (λ d. bytes "/impulse-ring.arena." ++ (d ++ bytes ".v1"))
      (sym (decimal-digit 1 (omega arith)))

news-arena : news.arena ≡ channel_arena 2
unfolding channel_arena
news-arena =
    ap (λ d. bytes "/impulse-ring.arena." ++ (d ++ bytes ".v1"))
      (sym (decimal-digit 2 (omega arith)))

adder-arena : adder.req_arena ≡ function_arena 1
unfolding function_arena
adder-arena =
    ap (λ d. bytes "/impulse-ring.fn." ++ (d ++ bytes ".v1")) (sym (decimal-digit 1 (omega arith)))

full-Balanced : Balanced full
unfolding HasRoom add_client insert_channel alloc_channel_id alloc_fn_id
full-Balanced =
    insert_function-Balanced (with_channel (with_channel started feed) news) adder (zeroed 1024)
      (Reachable-IsValid with_news-Reachable) (1, refl, omega arith) refl adder-arena
      (insert_channel-Balanced (with_channel started feed) news (zeroed 1024)
        (Reachable-IsValid with_feed-Reachable) (2, refl, omega arith) refl news-arena
        (insert_channel-Balanced started feed (zeroed 1024) (Reachable-IsValid alice-Reachable)
          (1, refl, omega arith) refl feed-arena started-Balanced))

broker-Sound : Sound broker
unfolding mark_subscribed
broker-Sound = (bus-IsValid, full-Balanced)

-- The process 100 has died, and all others live.
abbrev outside : Outside
outside = record {
  pid_alive = λ pid. if pid == pos 100 then false else true;
  create = λ name size. ok (zeroed size);
  open_segment = λ name. err not_found;
  instant = 1000;
  meanwhile = λ s. s;
  sleeps = [];
}

broker-Rooms : Rooms 1 broker.reg
unfolding mark_subscribed insert_function alloc_fn_id insert_channel alloc_channel_id add_client
broker-Rooms = (
  record { value = 2; is_value = refl; fits = omega arith },
  record { value = 3; is_value = refl; fits = omega arith },
  record { value = 2; is_value = refl; fits = omega arith },
)

abbrev goodbye_bytes : List ℕ
goodbye_bytes = Frame.encode goodbye_frame

handle-Fit_example : Leaves (Fit 0) (handle outside toy toy_catalog toy_digest broker goodbye_bytes)
handle-Fit_example =
    handle-Fit outside toy toy_catalog toy_digest broker goodbye_bytes (broker-Sound, broker-Rooms)

-- A goodbye of nobody and a silent round.
abbrev two_rounds : List (Outside × Option (List ℕ))
two_rounds = (outside, some goodbye_bytes) ∷ (outside, none) ∷ []

run-Sound_example : SoundAfter (run toy toy_catalog toy_digest new_broker 0 two_rounds)
run-Sound_example = run-Sound toy toy_catalog toy_digest 0 two_rounds (omega arith)

claim_channel_name-outcome_example :
    ChannelClaim outside broker (bytes "feed") (claim_channel_name outside broker (bytes "feed"))
claim_channel_name-outcome_example =
    claim_channel_name-outcome outside broker (bytes "feed") bus-IsValid

reply_ring-known : get (pos 1) broker.reply_rings ≡ some reply_ring
unfolding get int_eqb
reply_ring-known = refl

reply-Replied_example :
    Replied broker
      (pos 1)
      reply_ring
      (Frame.encode goodbye_frame)
      ([] ∷ [])
      (reply outside toy toy_catalog toy_digest broker (pos 1) unregister goodbye)
reply-Replied_example =
    reply-Replied outside toy toy_catalog toy_digest broker (pos 1) unregister goodbye []
      {r = reply_ring} {frame = goodbye_frame} {q = []} reply_ring-known goodbye-to_frame
      fresh-Rests tt

abbrev chat : PublishChannel
chat = record {
  correlation_id = pos 6;
  client_id = pos 1;
  channel = bytes "chat";
  schema_json = bytes "chat schema";
  access_key = bytes "secret";
  arena_cap = pos 300000;
}

chat-free : claim_channel_name outside broker (bytes "chat") ≡ some broker
unfolding claim_channel_name channel_name_taken mark_subscribed insert_function alloc_fn_id
    insert_channel alloc_channel_id add_client get insert str_eqb int_eqb
chat-free = refl

abbrev chat_segment : Segment
chat_segment = zeroed (ring_bytes (clamp_arena_cap 300000))

published-Served_example :
    Leaves
      (Served outside toy toy_catalog toy_digest broker.reg.next_channel
        (bytes "secret")
        17
        (write_header chat_segment 0 (clamp_arena_cap 300000)))
      (published outside toy toy_catalog toy_digest broker chat)
published-Served_example =
    published-Served outside toy toy_catalog toy_digest broker broker chat 17 17 chat_segment
      bus-IsValid chat-free toy-parse_other refl (omega arith)
