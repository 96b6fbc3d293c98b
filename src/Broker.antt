-- ===== src/Broker.antt =====
-- The broker (crates/impulsed/src/broker.rs): its state, its handlers and its loop.
-- A reply ring stands with the memory of its segment, which the source keeps mapped beside it
-- (`_reply_segs`). A handler ends in at most one reply, so it returns the reply's result:
-- `none` when the reply sleeps on the ring's producer lock, from which the source returns only once
-- the holder has given it back.
pub mod Accounts
pub mod Arenas
pub mod Claims
pub mod Fit
pub mod FunctionClaims
pub mod Handlers
pub mod Publish
pub mod Replies
pub mod Room
pub mod Runs
pub mod Startup
pub mod Tests
pub mod Validity
use impulse_ring.Prelude.{
  ℕ, ◌*◌, ◌^◌, ◌-◌, Bool, true, false, not, ◌||◌, List, [], ◌∷◌, ◌++◌, Option, none, some, Str,
  bytes, ℤ, pos, max_zero, i64_as_i32, i64_as_u64, Map, get, insert, remove, ◌==◌, int_eq, str_eq,
  leb, if◌then◌else◌, Result, ok, err, Error, panic, other, timed_out, display, ◌>>=◌, is_empty,
}
use impulse_ring.Segment.{Segment}
use impulse_ring.Ring.{Ring, ring_bytes, format, attach, push_blocking, pop_blocking}
use impulse_ring.Frame
use impulse_ring.Frame.{Frame, Fingerprint}
use impulse_ring.Control.{clamp_arena_cap}
use impulse_ring.Names.{Sha256, key_hash, channel_arena, function_arena}
use impulse_ring.Proto.{
  Kind, register, register_reply, unregister, publish_channel, publish_reply, unpublish,
  list_channels, channel_list, subscribe, subscribe_reply, expose_function, expose_reply,
  lookup_function, lookup_reply, heartbeat, rpc_request, rpc_response, Message, Avro, parse,
  RegisterReply, PublishChannel, PublishReply, ChannelList, Subscribe, SubscribeReply,
  ExposeFunction, ExposeReply, LookupFunction, LookupReply, Register, status_ok, err_internal,
  err_exists, fp_to_i64, i64_to_fp,
}
use impulse_ring.Proto.Catalog.{
  Catalog, kind_debug, kind_of, to_frame, from_frame, from_frame_compat,
}
use impulse_ring.Registry
use impulse_ring.Registry.{
  Registry, ChannelMeta, FunctionMeta, AccessResult, granted, rejected, Release, now, deferred,
  refused, add_client, remove_client, remove_client_channels, remove_client_functions,
  mark_subscribed, release_channel, reap_released, reap_if_released, alloc_channel_id, alloc_fn_id,
  insert_channel, insert_function, channel_name_taken, function_name_taken, dead_channel_owner,
  dead_function_owner, resolve_subscribe, resolve_lookup,
}

-- In nanoseconds.
abbrev release_grace : ℕ
release_grace = 30 * 10 ^ 9

abbrev pub sweep_interval : ℕ
sweep_interval = 10 ^ 9

pub record ReplyRing : Type 0 where
  pub ring : Ring
  pub segment : Segment

pub record Broker : Type 0 where
  pub reg : Registry
  pub reply_rings : Map ℤ ReplyRing
  pub arenas : Map Str Segment
  pub reply_names : List Str

-- What the operating system and the other processes do while one message is handled: the process
-- table, creating and opening segments by name, the clock, and the changes to a reply segment, by
-- its client, since the broker last saw it and in each sleep of a reply's push.
pub record Outside : Type 0 where
  pub pid_alive : ℤ → Bool
  pub create : Str → ℕ → Result Segment
  pub open_segment : Str → Result Segment
  pub instant : ℕ
  pub meanwhile : Segment → Segment
  pub sleeps : List (Segment → Segment)

abbrev pub Handled : Type 0
Handled = Option (Result (Unit {0}) × Broker)

abbrev pub new_broker : Broker
new_broker = record { reg = Registry.new; reply_rings = []; arenas = []; reply_names = [] }

-- `drop` of the map's entry unlinks the segment.
unfoldable pub reclaim_arena : Broker → Str → Broker
reclaim_arena b name = record b { arenas = remove name b.arenas }

unfoldable pub reclaim_arenas : Broker → List Str → Broker
reclaim_arenas b [] = b
reclaim_arenas b (arena ∷ arenas) = reclaim_arenas (reclaim_arena b arena) arenas

unfoldable pub release_client : Broker → ℤ → Broker
release_client b client_id =
    let (reg1, channel_arenas) = remove_client_channels b.reg client_id in
    let b1 = reclaim_arenas (record b { reg = reg1 }) channel_arenas in
    let (reg2, function_arenas) = remove_client_functions b1.reg client_id in
    let b2 = reclaim_arenas (record b1 { reg = reg2 }) function_arenas in
    record b2 {
      reg = remove_client b2.reg client_id;
      reply_rings = remove client_id b2.reply_rings;
    }

-- The sweep of the control loop.
unfoldable pub sweep : Broker → ℕ → Broker
sweep b instant =
    let (reg1, arenas) = reap_released b.reg release_grace instant in
    reclaim_arenas (record b { reg = reg1 }) arenas

unfoldable pub err_expose : ℤ → ℤ → Str → ExposeReply
err_expose correlation_id code msg = record {
  correlation_id = correlation_id;
  fn_id = pos 0;
  req_fp = pos 0;
  resp_fp = pos 0;
  req_arena = [];
  status = code;
  message = msg;
}

-- The three replies of a publish that is turned down.
abbrev err_publish : ℤ → ℤ → Str → PublishReply
err_publish correlation_id code msg = record {
  correlation_id = correlation_id;
  channel_id = pos 0;
  schema_fp = pos 0;
  arena = [];
  status = code;
  message = msg;
}

module _ (o : Outside) where
  open o use {pid_alive, create, open_segment, instant, meanwhile, sleeps}

  unfoldable pub owner_alive : ℤ → Bool
  owner_alive pid = pid == pos 0 || pid_alive pid

  unfoldable pub make_arena : Broker → Str → ℕ → Result (Str × Broker)
  make_arena b name cap = create name (ring_bytes cap) >>= λ s.
      format s 0 cap >>= λ p. ok (name, record b { arenas = insert name p.1 b.arenas })

  -- The reply segment that a client made, and the ring in it.
  unfoldable pub open_reply : Str → Result (Segment × Ring)
  open_reply name = open_segment name >>= λ s. attach s 0 >>= λ ring. ok (s, ring)

  -- The block by which a publish makes its name free. `none`: a live client holds it.
  unfoldable pub claim_channel_name : Broker → Str → Option Broker
  claim_channel_name b name =
      let (reg1, reaped) = reap_if_released b.reg name in
      if channel_name_taken b.reg name
      then elim reaped [
        | some arena ↦ some (reclaim_arena (record b { reg = reg1 }) arena)
        | none ↦ elim (dead_channel_owner b.reg name owner_alive) [
          | some dead ↦ some (release_client b dead)
          | none ↦ none
        ]
      ]
      else some b

  unfoldable pub claim_function_name : Broker → Str → Option Broker
  claim_function_name b name =
      if function_name_taken b.reg name
      then elim (dead_function_owner b.reg name owner_alive) [
        | some dead ↦ some (release_client b dead)
        | none ↦ none
      ]
      else some b

  module _ (a : Avro) (c : Catalog a.Schema) (sha256 : Sha256) where
    -- A pushed frame, on the ring of a client that is known.
    unfoldable pub reply : Broker → ℤ → (k : Kind) → Message k → Handled
    reply b client_id k msg = elim (get client_id b.reply_rings) [
      | none ↦ some (err (other (bytes "reply ring for client not found")), b)
      | some r ↦ elim (to_frame a c k msg) [
        | err e ↦ some (err e, b)
        | ok frame ↦ elim (push_blocking r.ring (meanwhile r.segment) (Frame.encode frame) sleeps) [
          | none ↦ none
          | some (done, s) ↦
              let b' = record b {
                reply_rings = insert client_id (record r { segment = s }) b.reply_rings;
              } in
              some
                (if done then ok tt else err (other (bytes "reply ring full (client stuck?)")), b')
        ]
      ]
    ]

    unfoldable pub registered : Broker → Register → Handled
    registered b m = elim (open_reply m.reply_segment) [
      | err e ↦ some (err e, b)
      | ok (s, ring) ↦
          let (reg1, client_id) = add_client b.reg m.app_name (i64_as_i32 m.pid) in
          let b1 = record b {
            reg = reg1;
            reply_rings = insert client_id (record { ring = ring; segment = s }) b.reply_rings;
            reply_names = b.reply_names ++ m.reply_segment ∷ [];
          } in
          reply b1 client_id register_reply (record {
            correlation_id = m.correlation_id;
            client_id = client_id;
            status = status_ok;
            message = [];
          })
    ]

    unfoldable pub on_register : Broker → Frame → Handled
    on_register b frame = elim (from_frame_compat a c register frame) [
      | err e ↦ some (err e, b)
      | ok m ↦ registered b m
    ]

    unfoldable pub on_unregister : Broker → Frame → Handled
    on_unregister b frame = elim (from_frame a c unregister frame) [
      | err e ↦ some (err e, b)
      | ok m ↦ some (ok tt, release_client b m.client_id)
    ]

    abbrev pub key_of : Str → Option (List ℕ)
    key_of access_key = if is_empty access_key then none else some (key_hash sha256 access_key)

    -- The last part of a publish: an id, an arena, the entry and the reply.
    unfoldable pub publish_as : Broker → PublishChannel → Fingerprint → Handled
    publish_as b m fp =
        let (reg1, channel_id) = alloc_channel_id b.reg in
        let b1 = record b { reg = reg1 } in
        let arena_cap = clamp_arena_cap (max_zero m.arena_cap) in
        elim (make_arena b1 (channel_arena (i64_as_u64 channel_id)) arena_cap) [
          | err e ↦ reply b1 m.client_id publish_reply (
              err_publish m.correlation_id err_internal
                (bytes "cannot allocate a channel arena: " ++ display e))
          | ok (arena, b2) ↦
              let b3 = record b2 {
                reg = insert_channel b2.reg (record {
                  id = channel_id;
                  name = m.channel;
                  owner = m.client_id;
                  schema_fp = fp;
                  key = key_of m.access_key;
                  arena = arena;
                });
              } in
              reply b3 m.client_id publish_reply (record {
                correlation_id = m.correlation_id;
                channel_id = channel_id;
                schema_fp = fp_to_i64 fp;
                arena = arena;
                status = status_ok;
                message = [];
              })
        ]

    unfoldable pub published : Broker → PublishChannel → Handled
    published b m = elim (claim_channel_name b m.channel) [
      | none ↦
          reply b m.client_id publish_reply
            (err_publish m.correlation_id err_exists (bytes "channel already exists"))
      | some b1 ↦ elim (parse a m.schema_json) [
        | err e ↦
            reply b1 m.client_id publish_reply
              (err_publish m.correlation_id err_internal (bytes "bad schema: " ++ display e))
        | ok (schema, fp) ↦ publish_as b1 m fp
      ]
    ]

    unfoldable pub on_publish : Broker → Frame → Handled
    on_publish b frame = elim (from_frame_compat a c publish_channel frame) [
      | err e ↦ some (err e, b)
      | ok m ↦ published b m
    ]

    -- What follows the registry's answer to a release.
    abbrev pub after_release : Broker → Registry × Release → Broker
    after_release b (reg1, now arena) = reclaim_arena (record b { reg = reg1 }) arena
    after_release b (reg1, deferred) = record b { reg = reg1 }
    after_release b (reg1, refused) = record b { reg = reg1 }

    unfoldable pub on_unpublish : Broker → Frame → Handled
    on_unpublish b frame = elim (from_frame a c unpublish frame) [
      | err e ↦ some (err e, b)
      | ok m ↦ some (ok tt, after_release b (release_channel b.reg m.channel m.client_id instant))
    ]

    unfoldable pub on_list : Broker → Frame → Handled
    on_list b frame = elim (from_frame a c list_channels frame) [
      | err e ↦ some (err e, b)
      | ok m ↦
          reply b m.client_id channel_list
            (record { correlation_id = m.correlation_id; channels = Registry.list_channels b.reg })
    ]

    unfoldable pub subscribed_to : Broker → Subscribe → Handled
    subscribed_to b m =
        elim (resolve_subscribe sha256 b.reg m.channel_id m.access_key (i64_to_fp m.expected_fp)) [
          | granted (arena, fp) ↦
              reply (record b { reg = mark_subscribed b.reg m.channel_id }) m.client_id
                subscribe_reply
                (record {
                  correlation_id = m.correlation_id;
                  arena = arena;
                  schema_fp = fp_to_i64 fp;
                  status = status_ok;
                  message = [];
                })
          | rejected code msg ↦ reply b m.client_id subscribe_reply (record {
            correlation_id = m.correlation_id;
            arena = [];
            schema_fp = pos 0;
            status = code;
            message = msg;
          })
        ]

    unfoldable pub on_subscribe : Broker → Frame → Handled
    on_subscribe b frame = elim (from_frame a c subscribe frame) [
      | err e ↦ some (err e, b)
      | ok m ↦ subscribed_to b m
    ]

    unfoldable pub expose_as : Broker → ExposeFunction → Fingerprint → Fingerprint → Handled
    expose_as b m req_fp resp_fp =
        let (reg1, fn_id) = alloc_fn_id b.reg in
        let b1 = record b { reg = reg1 } in
        let arena_cap = clamp_arena_cap (max_zero m.req_arena_cap) in
        elim (make_arena b1 (function_arena (i64_as_u64 fn_id)) arena_cap) [
          | err e ↦ reply b1 m.client_id expose_reply (
              err_expose m.correlation_id err_internal
                (bytes "cannot allocate a request arena: " ++ display e))
          | ok (req_arena, b2) ↦
              let b3 = record b2 {
                reg = insert_function b2.reg (record {
                  id = fn_id;
                  name = m.fn_name;
                  owner = m.client_id;
                  req_fp = req_fp;
                  resp_fp = resp_fp;
                  key = key_of m.access_key;
                  req_arena = req_arena;
                });
              } in
              reply b3 m.client_id expose_reply (record {
                correlation_id = m.correlation_id;
                fn_id = fn_id;
                req_fp = fp_to_i64 req_fp;
                resp_fp = fp_to_i64 resp_fp;
                req_arena = req_arena;
                status = status_ok;
                message = [];
              })
        ]

    unfoldable pub parse_both : Str → Str → Result (Fingerprint × Fingerprint)
    parse_both req resp = parse a req >>= λ p. parse a resp >>= λ q. ok (p.1, q.1)

    unfoldable pub exposed : Broker → ExposeFunction → Handled
    exposed b m = elim (claim_function_name b m.fn_name) [
      | none ↦
          reply b m.client_id expose_reply
            (err_expose m.correlation_id err_exists (bytes "function exists"))
      | some b1 ↦ elim (parse_both m.req_schema_json m.resp_schema_json) [
        | err e ↦
            reply b1 m.client_id expose_reply
              (err_expose m.correlation_id err_internal (bytes "bad schema"))
        | ok (req_fp, resp_fp) ↦ expose_as b1 m req_fp resp_fp
      ]
    ]

    unfoldable pub on_expose : Broker → Frame → Handled
    on_expose b frame = elim (from_frame_compat a c expose_function frame) [
      | err e ↦ some (err e, b)
      | ok m ↦ exposed b m
    ]

    unfoldable pub looked_up : Broker → LookupFunction → LookupReply
    looked_up b m = elim (resolve_lookup sha256 b.reg m.fn_name m.access_key) [
      | granted (fn_id, req_fp, resp_fp, req_arena) ↦ record {
        correlation_id = m.correlation_id;
        fn_id = fn_id;
        req_fp = fp_to_i64 req_fp;
        resp_fp = fp_to_i64 resp_fp;
        req_arena = req_arena;
        status = status_ok;
        message = [];
      }
      | rejected code msg ↦ record {
        correlation_id = m.correlation_id;
        fn_id = pos 0;
        req_fp = pos 0;
        resp_fp = pos 0;
        req_arena = [];
        status = code;
        message = msg;
      }
    ]

    unfoldable pub on_lookup : Broker → Frame → Handled
    on_lookup b frame = elim (from_frame a c lookup_function frame) [
      | err e ↦ some (err e, b)
      | ok m ↦ reply b m.client_id lookup_reply (looked_up b m)
    ]

    unfoldable pub dispatch : Broker → Frame → Kind → Handled
    dispatch b frame register = on_register b frame
    dispatch b frame unregister = on_unregister b frame
    dispatch b frame publish_channel = on_publish b frame
    dispatch b frame unpublish = on_unpublish b frame
    dispatch b frame list_channels = on_list b frame
    dispatch b frame subscribe = on_subscribe b frame
    dispatch b frame expose_function = on_expose b frame
    dispatch b frame lookup_function = on_lookup b frame
    dispatch b frame heartbeat = some (ok tt, b)
    dispatch b frame k = some (err (other (bytes "unexpected control kind " ++ kind_debug k)), b)

    unfoldable pub handle : Broker → List ℕ → Handled
    handle b message = elim (Frame.decode message) [
      | err e ↦ some (err e, b)
      | ok frame ↦ elim (kind_of a c frame.schema_fp) [
        | none ↦ some (err (other (bytes "unknown control schema fingerprint")), b)
        | some kind ↦ dispatch b frame kind
      ]
    ]

    -- One round of the control loop: at most one message, whose error is only logged, and a sweep
    -- when the last one is an interval ago. The clock is read once.
    unfoldable pub round : Broker → ℕ → Option (List ℕ) → Option (Broker × ℕ)
    round b last_sweep popped =
        let swept : Broker → Broker × ℕ = λ b1.
          if leb sweep_interval (instant - last_sweep)
          then (sweep b1 instant, instant)
          else (b1, last_sweep) in
        elim popped [
          | none ↦ some (swept b)
          | some message ↦ elim (handle b message) [
            | none ↦ none
            | some (result, b1) ↦ some (swept b1)
          ]
        ]

module _ (a : Avro) (c : Catalog a.Schema) (sha256 : Sha256) where
  -- The control loop, for as many rounds as `should_run` lets it go on, each with its own outside
  -- and with the message that it popped.
  unfoldable pub run : Broker → ℕ → List (Outside × Option (List ℕ)) → Option (Broker × ℕ)
  run b last_sweep [] = some (b, last_sweep)
  run b last_sweep ((o, popped) ∷ rounds) = elim (round o a c sha256 b last_sweep popped) [
    | none ↦ none
    | some (b1, swept_at) ↦ run b1 swept_at rounds
  ]
