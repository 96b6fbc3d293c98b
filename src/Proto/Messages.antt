-- ===== src/Proto/Messages.antt =====
-- The message records of the protocol (crates/core/src/proto.rs).
use impulse_ring.Prelude.{ℕ, ℤ, Bool, List, Str}

pub record Register : Type 0 where
  pub correlation_id : ℤ
  pub app_name : Str
  pub nonce : ℤ
  pub reply_segment : Str
  pub heartbeat_ms : ℤ
  pub pid : ℤ

pub record RegisterReply : Type 0 where
  pub correlation_id : ℤ
  pub client_id : ℤ
  pub status : ℤ
  pub message : Str

pub record Unregister : Type 0 where
  pub correlation_id : ℤ
  pub client_id : ℤ

pub record PublishChannel : Type 0 where
  pub correlation_id : ℤ
  pub client_id : ℤ
  pub channel : Str
  pub schema_json : Str
  pub access_key : Str
  pub arena_cap : ℤ

pub record PublishReply : Type 0 where
  pub correlation_id : ℤ
  pub channel_id : ℤ
  pub schema_fp : ℤ
  pub arena : Str
  pub status : ℤ
  pub message : Str

pub record Unpublish : Type 0 where
  pub correlation_id : ℤ
  pub client_id : ℤ
  pub channel : Str

pub record ListChannels : Type 0 where
  pub correlation_id : ℤ
  pub client_id : ℤ

pub record ChannelInfo : Type 0 where
  pub channel_id : ℤ
  pub name : Str
  pub owner_app : Str
  pub schema_fp : ℤ
  pub requires_key : Bool

pub record ChannelList : Type 0 where
  pub correlation_id : ℤ
  pub channels : List ChannelInfo

pub record Subscribe : Type 0 where
  pub correlation_id : ℤ
  pub client_id : ℤ
  pub channel_id : ℤ
  pub access_key : Str
  pub expected_fp : ℤ

pub record SubscribeReply : Type 0 where
  pub correlation_id : ℤ
  pub arena : Str
  pub schema_fp : ℤ
  pub status : ℤ
  pub message : Str

pub record ExposeFunction : Type 0 where
  pub correlation_id : ℤ
  pub client_id : ℤ
  pub fn_name : Str
  pub req_schema_json : Str
  pub resp_schema_json : Str
  pub access_key : Str
  pub req_arena_cap : ℤ

pub record ExposeReply : Type 0 where
  pub correlation_id : ℤ
  pub fn_id : ℤ
  pub req_fp : ℤ
  pub resp_fp : ℤ
  pub req_arena : Str
  pub status : ℤ
  pub message : Str

pub record LookupFunction : Type 0 where
  pub correlation_id : ℤ
  pub client_id : ℤ
  pub fn_name : Str
  pub access_key : Str

pub record LookupReply : Type 0 where
  pub correlation_id : ℤ
  pub fn_id : ℤ
  pub req_fp : ℤ
  pub resp_fp : ℤ
  pub req_arena : Str
  pub status : ℤ
  pub message : Str

pub record Heartbeat : Type 0 where
  pub correlation_id : ℤ
  pub client_id : ℤ
  pub seq : ℤ

pub record RpcRequest : Type 0 where
  pub correlation_id : ℤ
  pub caller_id : ℤ
  pub reply_segment : Str
  pub arg_fp : ℤ
  pub args : List ℕ

pub record RpcResponse : Type 0 where
  pub correlation_id : ℤ
  pub status : ℤ
  pub message : Str
  pub result_fp : ℤ
  pub result : List ℕ
