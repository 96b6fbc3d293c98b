-- ===== src/Registry/Tests.antt =====
-- A registry with one client, two channels and a function, reached by the operations.
use mathlib.Core.Path.{subst}
use impulse_ring.Prelude.{
  ◌≡◌, refl, false, none, some, [], ◌∷◌, bytes, pos, get, insert, str_eqb, int_eqb, contains_key,
  any_in, ◌==◌, int_eq, str_eq, if◌then◌else◌, arith,
}
use impulse_ring.Names.{key_hash}
use impulse_ring.Names.Tests.{toy_digest}
use impulse_ring.Registry.{
  Registry, ChannelMeta, FunctionMeta, deferred, new, add_client, insert_channel, insert_function,
  alloc_channel_id, alloc_fn_id, mark_subscribed, release_channel, reap_released, reap_if_released,
  remove_client_channels, channel_name_taken, function_name_taken, resolve_subscribe,
}
use impulse_ring.Registry.Linked.{HasRoom}
use impulse_ring.Registry.Invariant.{IsValid}
use impulse_ring.Registry.Reachable.{
  Reachable, start, next, client_added, channel_inserted, function_inserted, subscribed,
  Reachable-IsValid,
}
use impulse_ring.Registry.Releases.{named_channel, release_channel-deferred}
use impulse_ring.Registry.Departure.{remove_client_channels-get}
use impulse_ring.Registry.Access.{IsDigest, SubscribeOutcome, resolve_subscribe-outcome}

abbrev pub alice : Registry
alice = (add_client new (bytes "alice") (pos 100)).0

abbrev pub feed : ChannelMeta
feed = record {
  id = pos 1;
  name = bytes "feed";
  owner = pos 1;
  schema_fp = 77;
  key = none;
  arena = bytes "/impulse-ring.arena.1.v1";
}

abbrev pub news : ChannelMeta
news = record {
  id = pos 2;
  name = bytes "news";
  owner = pos 1;
  schema_fp = 78;
  key = some (26 ∷ 1 ∷ []);
  arena = bytes "/impulse-ring.arena.2.v1";
}

abbrev pub adder : FunctionMeta
adder = record {
  id = pos 1;
  name = bytes "add";
  owner = pos 1;
  req_fp = 7;
  resp_fp = 8;
  key = none;
  req_arena = bytes "/impulse-ring.fn.1.v1";
}

abbrev with_feed : Registry
with_feed = insert_channel (alloc_channel_id alice).0 feed

abbrev with_news : Registry
with_news = insert_channel (alloc_channel_id with_feed).0 news

abbrev with_adder : Registry
with_adder = insert_function (alloc_fn_id with_news).0 adder

-- Somebody has subscribed to the first channel.
abbrev pub bus : Registry
bus = mark_subscribed with_adder (pos 1)

pub alice-Reachable : Reachable alice
unfolding HasRoom
alice-Reachable =
    next new alice start (client_added (bytes "alice") (pos 100) (1, refl, omega arith))

pub with_feed-Reachable : Reachable with_feed
unfolding HasRoom add_client alloc_channel_id alloc_fn_id insert_channel insert_function
    channel_name_taken function_name_taken get insert str_eqb int_eqb
with_feed-Reachable =
    next alice with_feed alice-Reachable (channel_inserted feed (1, refl, omega arith) refl refl)

pub with_news-Reachable : Reachable with_news
unfolding HasRoom add_client alloc_channel_id alloc_fn_id insert_channel insert_function
    channel_name_taken function_name_taken get insert str_eqb int_eqb
with_news-Reachable =
    next with_feed with_news with_feed-Reachable
      (channel_inserted news (2, refl, omega arith) refl refl)

bus-Reachable : Reachable bus
unfolding HasRoom add_client alloc_channel_id alloc_fn_id insert_channel insert_function
    channel_name_taken function_name_taken get insert str_eqb int_eqb
bus-Reachable =
    next with_adder bus
      (next with_news with_adder with_news-Reachable
        (function_inserted adder (1, refl, omega arith) refl refl))
      (subscribed feed (pos 1) refl)

pub bus-IsValid : IsValid bus
bus-IsValid = Reachable-IsValid bus-Reachable

Reachable-IsValid_example : IsValid bus
Reachable-IsValid_example = Reachable-IsValid bus-Reachable

news-named : named_channel bus (bytes "news") ≡ some news
unfolding named_channel mark_subscribed insert_function alloc_fn_id insert_channel alloc_channel_id
    add_client get insert str_eqb int_eqb
news-named = refl

news-unsubscribed : contains_key (pos 2) bus.subscribed ≡ false
unfolding mark_subscribed insert_function alloc_fn_id insert_channel alloc_channel_id add_client get
    insert int_eqb
news-unsubscribed = refl

-- Released at 1000 and swept at 1500, with a grace period of 400.
abbrev released_news : Registry
released_news = (release_channel bus (bytes "news") (pos 1) 1000).0

release_channel-deferred_example :
    ((release_channel bus (bytes "news") (pos 1) 1000).1 ≡ deferred)
    × (named_channel released_news (bytes "news") ≡ some news)
    × (get (pos 2) (reap_released released_news 400 1500).0.channels ≡ none)
    × ((reap_if_released released_news (bytes "news")).1 ≡ some (bytes "/impulse-ring.arena.2.v1"))
    × (channel_name_taken (reap_if_released released_news (bytes "news")).0 (bytes "news") ≡ false)
release_channel-deferred_example =
    release_channel-deferred (bytes "news") news 1000 400 1500 bus-IsValid news-named
      news-unsubscribed

remove_client_channels-get_example : get (pos 1) (remove_client_channels bus (pos 9)).0.channels ≡ (
    if any_in (λ c. c.owner == pos 9) (get (pos 1) bus.channels)
    then none
    else get (pos 1) bus.channels)
remove_client_channels-get_example = remove_client_channels-get (pos 9) (pos 1) bus-IsValid

news-IsDigest : (c : ChannelMeta) → get (pos 2) bus.channels ≡ some c → IsDigest toy_digest c.key
unfolding mark_subscribed insert_function alloc_fn_id insert_channel alloc_channel_id add_client get
    insert int_eqb key_hash
news-IsDigest c here =
    let same : news ≡ c = cc in
    subst (λ (d : ChannelMeta). IsDigest toy_digest d.key) same (λ key. refl)

resolve_subscribe-outcome_example :
    SubscribeOutcome toy_digest bus
      (pos 2)
      (bytes "secret")
      78
      (resolve_subscribe toy_digest bus (pos 2) (bytes "secret") 78)
resolve_subscribe-outcome_example =
    resolve_subscribe-outcome toy_digest bus (pos 2) (bytes "secret") 78 news-IsDigest
