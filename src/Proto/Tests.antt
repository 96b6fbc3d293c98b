-- ===== src/Proto/Tests.antt =====
-- A toy codec: a schema is its kind's number, and so is its digest.
use impulse_ring.Prelude.{
  bytes, ℕ, ◌≡◌, refl, sym, ap, ◌∙◌, List, [], ◌∷◌, Str, str_eq, ◌==◌, pos, max_zero, if◌then◌else◌,
  Result, ok, err, panic, some, nat_eq, arith, str_eqb,
}
use impulse_ring.Frame.{Frame}
use impulse_ring.Proto.{
  Kind, schema_for, legacy_schemas, all_kinds, register, register_reply, unregister,
  publish_channel, publish_reply, unpublish, list_channels, channel_list, subscribe,
  subscribe_reply, expose_function, expose_reply, lookup_function, lookup_reply, heartbeat,
  rpc_request, rpc_response, Message, Avro, parse, fingerprint, Unregister, kind_index, kind_eq,
  kind_eqb_iff,
}
use impulse_ring.Proto.Catalog.{Catalog, build, to_frame, from_frame, from_frame_compat, kind_of}
use impulse_ring.Proto.Catalog.Routing.{Lists, to_frame-from_frame, to_frame-Lists}
use impulse_ring.Proto.Catalog.Build.{Parses, build-Lists}

-- The number of the kind with this schema, or 17.
index_of : List Kind → Str → ℕ
index_of [] json = 17
index_of (k ∷ ks) json =
    let rest = index_of ks json in if schema_for k == json then kind_index k else rest

pub toy_parse : Str → ℕ
unfolding index_of
toy_parse json = index_of all_kinds json

-- The messages that the tests send, with an empty text in each.
unfoldable pub toy_encode : (k : Kind) → ℕ → Message k → Result (List ℕ)
toy_encode unregister s m = ok (max_zero m.correlation_id ∷ max_zero m.client_id ∷ [])
toy_encode register_reply s m =
    ok (max_zero m.correlation_id ∷ max_zero m.client_id ∷ max_zero m.status ∷ [])
toy_encode rpc_request s m =
    ok (max_zero m.correlation_id ∷ max_zero m.caller_id ∷ max_zero m.arg_fp ∷ m.args)
toy_encode rpc_response s m =
    ok (max_zero m.correlation_id ∷ max_zero m.status ∷ max_zero m.result_fp ∷ m.result)
toy_encode k s m = err panic

unfoldable pub toy_decode : (k : Kind) → ℕ → List ℕ → Result (Message k)
toy_decode unregister s (x ∷ y ∷ []) = ok (record { correlation_id = pos x; client_id = pos y })
toy_decode register_reply s (x ∷ y ∷ z ∷ []) =
    ok (record { correlation_id = pos x; client_id = pos y; status = pos z; message = [] })
toy_decode rpc_request s (x ∷ y ∷ z ∷ args) = ok (record {
  correlation_id = pos x;
  caller_id = pos y;
  reply_segment = [];
  arg_fp = pos z;
  args = args;
})
toy_decode rpc_response s (x ∷ y ∷ z ∷ result) = ok (record {
  correlation_id = pos x;
  status = pos y;
  message = [];
  result_fp = pos z;
  result = result;
})
toy_decode k s body = err panic

abbrev pub toy : Avro
toy = record {
  Schema = ℕ;
  parse_str = λ json. ok (toy_parse json);
  rabin = λ s. s ∷ [];
  encode = toy_encode;
  decode = toy_decode;
}

abbrev pub toy_parsed : Kind → ℕ × ℕ
toy_parsed k = (kind_index k, kind_index k)

-- Each schema text is told from the others.
toy-parse : (k : Kind) → parse toy (schema_for k) ≡ ok (toy_parsed k)
unfolding parse fingerprint toy_parse index_of schema_for all_kinds str_eqb
toy-parse register = refl
toy-parse register_reply = refl
toy-parse unregister = refl
toy-parse publish_channel = refl
toy-parse publish_reply = refl
toy-parse unpublish = refl
toy-parse list_channels = refl
toy-parse channel_list = refl
toy-parse subscribe = refl
toy-parse subscribe_reply = refl
toy-parse expose_function = refl
toy-parse expose_reply = refl
toy-parse lookup_function = refl
toy-parse lookup_reply = refl
toy-parse heartbeat = refl
toy-parse rpc_request = refl
toy-parse rpc_response = refl

pub toy-parse_other : parse toy (bytes "chat schema") ≡ ok (17, 17)
unfolding parse fingerprint toy_parse index_of schema_for all_kinds str_eqb
toy-parse_other = refl

pub toy-Parses : Parses toy toy_parsed
unfolding parse fingerprint legacy_schemas toy_parse index_of schema_for all_kinds str_eqb
toy-Parses = record {
  current = toy-parse;
  differ = λ j k same. (kind_eqb_iff j k).0 (ground arith);
  legacy = (((17, 17), refl), (((17, 17), refl), (((17, 17), refl), tt)));
}

build-Lists_example :
    (c : Catalog ℕ) × (build toy ≡ ok c)
    × ((k : Kind) → Lists toy c k (kind_index k) (kind_index k))
build-Lists_example = build-Lists toy toy_parsed toy-Parses

-- The catalog of the toy codec.
abbrev pub toy_catalog : Catalog ℕ
toy_catalog = (build-Lists toy toy_parsed toy-Parses).0

abbrev pub goodbye : Unregister
goodbye = record { correlation_id = pos 5; client_id = pos 3 }

abbrev pub goodbye_frame : Frame
goodbye_frame = record { flags = 0; schema_fp = 2; body = 5 ∷ 3 ∷ [] }

goodbye-again :
    (body : List ℕ)
    → toy_encode unregister 2 goodbye ≡ ok body
    → toy_decode unregister 2 body ≡ ok goodbye
unfolding toy_encode toy_decode
goodbye-again body e = let same : 5 ∷ 3 ∷ [] ≡ body = cc in ap (toy_decode unregister 2) (sym same)

pub goodbye-to_frame : to_frame toy toy_catalog unregister goodbye ≡ ok goodbye_frame
unfolding toy_encode
goodbye-to_frame =
    to_frame-Lists toy toy_catalog goodbye ((build-Lists toy toy_parsed toy-Parses).2 unregister)
    ∙ refl

to_frame-from_frame_example :
    (kind_of toy toy_catalog 2 ≡ some unregister)
    × (from_frame toy toy_catalog unregister goodbye_frame ≡ ok goodbye)
    × (from_frame_compat toy toy_catalog unregister goodbye_frame ≡ ok goodbye)
to_frame-from_frame_example =
    to_frame-from_frame toy toy_catalog {s = 2} {f = 2} goodbye goodbye_frame
      ((build-Lists toy toy_parsed toy-Parses).2 unregister) goodbye-again goodbye-to_frame
