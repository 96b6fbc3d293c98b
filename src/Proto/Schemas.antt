-- ===== src/Proto/Schemas.antt =====
-- The fixed Avro schemas of the protocol (crates/core/src/proto.rs), as JSON texts.
use impulse_ring.Prelude.{String, List, [], ◌∷◌, ◌++◌, Str, bytes}

-- Every control and RPC message kind.
pub data Kind : Type 0 where
  register register_reply unregister publish_channel publish_reply unpublish list_channels
        channel_list subscribe subscribe_reply expose_function expose_reply lookup_function
        lookup_reply heartbeat rpc_request rpc_response :
      Kind

-- The macro `schema_json!`: a record of the namespace, by its name and its fields.
abbrev record_json : Str → Str → Str
record_json name fields =
    bytes "{\"type\":\"record\",\"name\":\""
    ++ (name ++ (bytes "\",\"namespace\":\"ring.proto\",\"fields\":[" ++ (fields ++ bytes "]}")))

-- A field of one of the plain types, and a field that older writers leave out.
abbrev field_json : Str → Str → Str
field_json name type =
    bytes "{\"name\":\"" ++ (name ++ (bytes "\",\"type\":\"" ++ (type ++ bytes "\"}")))

abbrev default_field_json : Str → Str → Str
default_field_json name type =
    bytes "{\"name\":\""
    ++ (name ++ (bytes "\",\"type\":\"" ++ (type ++ bytes "\",\"default\":0}")))

abbrev fields_json : List Str → Str
fields_json [] = []
fields_json (f ∷ []) = f
fields_json (f ∷ g ∷ fs) = f ++ (bytes "," ++ fields_json (g ∷ fs))

abbrev long : String → Str
long name = field_json (bytes name) (bytes "long")

abbrev int : String → Str
int name = field_json (bytes name) (bytes "int")

abbrev string : String → Str
string name = field_json (bytes name) (bytes "string")

abbrev boolean : String → Str
boolean name = field_json (bytes name) (bytes "boolean")

abbrev byte_string : String → Str
byte_string name = field_json (bytes name) (bytes "bytes")

abbrev long_or_zero : String → Str
long_or_zero name = default_field_json (bytes name) (bytes "long")

-- `schema_for`, field by field.
unfoldable pub schema_for : Kind → Str
schema_for register = record_json (bytes "Register") (
    fields_json (
      long "correlation_id"
      ∷ string "app_name"
      ∷ long "nonce"
      ∷ string "reply_segment"
      ∷ long "heartbeat_ms"
      ∷ long_or_zero "pid"
      ∷ []))
schema_for register_reply =
    record_json (bytes "RegisterReply") (
      fields_json (long "correlation_id" ∷ long "client_id" ∷ int "status" ∷ string "message" ∷ []))
schema_for unregister =
    record_json (bytes "Unregister") (fields_json (long "correlation_id" ∷ long "client_id" ∷ []))
schema_for publish_channel = record_json (bytes "PublishChannel") (
    fields_json (
      long "correlation_id"
      ∷ long "client_id"
      ∷ string "channel"
      ∷ string "schema_json"
      ∷ string "access_key"
      ∷ long_or_zero "arena_cap"
      ∷ []))
schema_for publish_reply = record_json (bytes "PublishReply") (
    fields_json (
      long "correlation_id"
      ∷ long "channel_id"
      ∷ long "schema_fp"
      ∷ string "arena"
      ∷ int "status"
      ∷ string "message"
      ∷ []))
schema_for unpublish =
    record_json (bytes "Unpublish")
      (fields_json (long "correlation_id" ∷ long "client_id" ∷ string "channel" ∷ []))
schema_for list_channels =
    record_json (bytes "ListChannels") (fields_json (long "correlation_id" ∷ long "client_id" ∷ []))
schema_for channel_list =
    bytes "{\"type\":\"record\",\"name\":\"ChannelList\",\"namespace\":\"ring.proto\",\"fields\":["
    ++ (long "correlation_id"
        ++ (bytes
              ",{\"name\":\"channels\",\"type\":{\"type\":\"array\",\"items\":{\"type\":\"record\",\"name\":\"ChannelInfo\",\"fields\":["
            ++ (fields_json (
                  long "channel_id"
                  ∷ string "name"
                  ∷ string "owner_app"
                  ∷ long "schema_fp"
                  ∷ boolean "requires_key"
                  ∷ [])
                ++ bytes "]}}}]}")))
schema_for subscribe = record_json (bytes "Subscribe") (
    fields_json (
      long "correlation_id"
      ∷ long "client_id"
      ∷ long "channel_id"
      ∷ string "access_key"
      ∷ long "expected_fp"
      ∷ []))
schema_for subscribe_reply = record_json (bytes "SubscribeReply") (
    fields_json (
      long "correlation_id"
      ∷ string "arena"
      ∷ long "schema_fp"
      ∷ int "status"
      ∷ string "message"
      ∷ []))
schema_for expose_function = record_json (bytes "ExposeFunction") (
    fields_json (
      long "correlation_id"
      ∷ long "client_id"
      ∷ string "fn_name"
      ∷ string "req_schema_json"
      ∷ string "resp_schema_json"
      ∷ string "access_key"
      ∷ long_or_zero "req_arena_cap"
      ∷ []))
schema_for expose_reply = record_json (bytes "ExposeReply") (
    fields_json (
      long "correlation_id"
      ∷ long "fn_id"
      ∷ long "req_fp"
      ∷ long "resp_fp"
      ∷ string "req_arena"
      ∷ int "status"
      ∷ string "message"
      ∷ []))
schema_for lookup_function = record_json (bytes "LookupFunction") (
    fields_json
      (long "correlation_id" ∷ long "client_id" ∷ string "fn_name" ∷ string "access_key" ∷ []))
schema_for lookup_reply = record_json (bytes "LookupReply") (
    fields_json (
      long "correlation_id"
      ∷ long "fn_id"
      ∷ long "req_fp"
      ∷ long "resp_fp"
      ∷ string "req_arena"
      ∷ int "status"
      ∷ string "message"
      ∷ []))
schema_for heartbeat =
    record_json (bytes "Heartbeat")
      (fields_json (long "correlation_id" ∷ long "client_id" ∷ long "seq" ∷ []))
schema_for rpc_request = record_json (bytes "RpcRequest") (
    fields_json (
      long "correlation_id"
      ∷ long "caller_id"
      ∷ string "reply_segment"
      ∷ long "arg_fp"
      ∷ byte_string "args"
      ∷ []))
schema_for rpc_response = record_json (bytes "RpcResponse") (
    fields_json (
      long "correlation_id"
      ∷ int "status"
      ∷ string "message"
      ∷ long "result_fp"
      ∷ byte_string "result"
      ∷ []))

-- `legacy_schemas`: the kinds whose first version is still read, with that version.
unfoldable pub legacy_schemas : List (Kind × Str)
legacy_schemas =
    (
      register,
      record_json (bytes "Register") (
          fields_json (
            long "correlation_id"
            ∷ string "app_name"
            ∷ long "nonce"
            ∷ string "reply_segment"
            ∷ long "heartbeat_ms"
            ∷ [])),
    )
    ∷ (
      publish_channel,
      record_json (bytes "PublishChannel") (
          fields_json (
            long "correlation_id"
            ∷ long "client_id"
            ∷ string "channel"
            ∷ string "schema_json"
            ∷ string "access_key"
            ∷ [])),
    )
    ∷ (
      expose_function,
      record_json (bytes "ExposeFunction") (
          fields_json (
            long "correlation_id"
            ∷ long "client_id"
            ∷ string "fn_name"
            ∷ string "req_schema_json"
            ∷ string "resp_schema_json"
            ∷ string "access_key"
            ∷ [])),
    )
    ∷ []

-- `ALL_KINDS`.
unfoldable pub all_kinds : List Kind
all_kinds =
    register ∷ register_reply ∷ unregister ∷ publish_channel ∷ publish_reply ∷ unpublish
    ∷ list_channels ∷ channel_list ∷ subscribe ∷ subscribe_reply ∷ expose_function ∷ expose_reply
    ∷ lookup_function ∷ lookup_reply ∷ heartbeat ∷ rpc_request ∷ rpc_response ∷ []
