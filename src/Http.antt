-- ===== src/Http.antt =====
-- The HTTP-over-Ring wire protocol (crates/http/src/lib.rs): names, records, shares of a ring,
-- opcodes. Text is ASCII here, as the tokens of the protocol are.
pub mod Shares
pub mod Upgrade
pub mod Channels
pub mod Tests
use impulse_ring.Prelude.{
  ℕ, zero, suc, ◌+◌, ◌-◌, ◌*◌, ◌/◌, ◌%◌, Bool, true, false, ◌&&◌, ◌||◌, List, [], ◌∷◌, ◌++◌, Option,
  none, some, Str, bytes, str_eq, nat_eq, ◌==◌, leb, ltb, if◌then◌else◌, ℤ, pos, map, is_empty,
  hex_digit,
}

abbrev protocol_version : ℕ
protocol_version = 2

abbrev http_fn_prefix : Str
http_fn_prefix = bytes "impulse-ring-http/v1/"

unfoldable http_fn_name : Str → Str
http_fn_name app_name = http_fn_prefix ++ app_name

pub record RingHeader : Type 0 where
  pub name : Str
  pub value : Str

pub record RingHttpRequest : Type 0 where
  pub method : Str
  pub uri : Str
  pub headers : List RingHeader
  pub body : List ℕ

pub record RingHttpResponse : Type 0 where
  pub status : ℤ
  pub headers : List RingHeader
  pub body : List ℕ

pub data RingUpgradeKind : Type 0 where
  sse web_socket web_transport : RingUpgradeKind

unfoldable pub as_str : RingUpgradeKind → Str
as_str sse = bytes "sse"
as_str web_socket = bytes "websocket"
as_str web_transport = bytes "webtransport"

abbrev pub is_space : ℕ → Bool
is_space c = c == 32 || (leb 9 c && leb c 13)

unfoldable pub trim_start : Str → Str
trim_start [] = []
trim_start (c ∷ s) = let rest = trim_start s in if is_space c then rest else c ∷ s

unfoldable pub trim_end : Str → Str
trim_end [] = []
trim_end (c ∷ s) = let rest = trim_end s in if is_space c && is_empty rest then [] else c ∷ rest

abbrev trim : Str → Str
trim s = trim_end (trim_start s)

abbrev lower : ℕ → ℕ
lower c = if leb b'A' c && leb c b'Z' then c + 32 else c

abbrev pub to_ascii_lowercase : Str → Str
to_ascii_lowercase s = map lower s

-- The match on the token.
unfoldable pub kind_of_token : Str → Option RingUpgradeKind
kind_of_token token =
    if token == bytes "sse"
    then some sse
    else if token == bytes "websocket" || token == bytes "ws"
    then some web_socket
    else if token == bytes "webtransport" || token == bytes "wt"
    then some web_transport
    else none

unfoldable pub parse : Str → Option RingUpgradeKind
unfolding trim_start trim_end kind_of_token
parse s = kind_of_token (to_ascii_lowercase (trim s))

abbrev header_upgrade : Str
header_upgrade = bytes "x-impulse-ring-upgrade"

abbrev header_chan_down : Str
header_chan_down = bytes "x-impulse-ring-chan-down"

abbrev header_chan_up : Str
header_chan_up = bytes "x-impulse-ring-chan-up"

abbrev header_chan_datagrams : Str
header_chan_datagrams = bytes "x-impulse-ring-chan-datagrams"

abbrev header_session : Str
header_session = bytes "x-impulse-ring-session"

abbrev header_body_channel : Str
header_body_channel = bytes "x-impulse-ring-body-chan"

abbrev header_reply_cap : Str
header_reply_cap = bytes "x-impulse-ring-reply-cap"

abbrev header_request_body_channel : Str
header_request_body_channel = bytes "x-impulse-ring-req-body-chan"

abbrev shared_num : ℕ
shared_num = 3

abbrev shared_den : ℕ
shared_den = 8

abbrev reply_num : ℕ
reply_num = 7

abbrev reply_den : ℕ
reply_den = 8

unfoldable pub max_inline_request_body : ℕ → ℕ
max_inline_request_body arena_cap = arena_cap * shared_num / shared_den

unfoldable pub max_inline_response_body : ℕ → ℕ
max_inline_response_body reply_cap = reply_cap * reply_num / reply_den

unfoldable pub body_chunk : ℕ → ℕ
body_chunk arena_cap = arena_cap * shared_num / shared_den

abbrev default_ring_cap : ℕ
default_ring_cap = 512 * 1024

abbrev pub min_ring_cap : ℕ
min_ring_cap = 256 * 1024

abbrev pub stream_chan_prefix : Str
stream_chan_prefix = bytes "impulse-ring-http/v1/stream/"

-- The low `width` hexadecimal digits. `{:016x}` of a `u64` has just its 16.
unfoldable pub hex_padded : ℕ → ℕ → Str
hex_padded zero n = []
hex_padded (suc width) n = hex_padded width (n / 16) ++ hex_digit (n % 16) ∷ []

unfoldable pub stream_channel_name : Str → ℕ → Str → Str
unfolding hex_padded
stream_channel_name app session_id role =
    stream_chan_prefix ++ (app ++ (bytes "/" ++ (hex_padded 16 session_id ++ (bytes "/" ++ role))))

abbrev op_data : ℤ
op_data = pos 0

abbrev op_close : ℤ
op_close = pos 1

abbrev op_datagram : ℤ
op_datagram = pos 2

abbrev op_stream_open : ℤ
op_stream_open = pos 3

abbrev op_stream_data : ℤ
op_stream_data = pos 4

abbrev op_stream_close : ℤ
op_stream_close = pos 5

pub record RingStreamFrame : Type 0 where
  pub opcode : ℤ
  pub stream_id : ℤ
  pub payload : List ℕ

unfoldable data_frame : List ℕ → RingStreamFrame
data_frame payload = record { opcode = op_data; stream_id = pos 0; payload = payload }

unfoldable close_frame : RingStreamFrame
close_frame = record { opcode = op_close; stream_id = pos 0; payload = [] }

unfoldable datagram_frame : List ℕ → RingStreamFrame
datagram_frame payload = record { opcode = op_datagram; stream_id = pos 0; payload = payload }

abbrev request_schema : Str
request_schema =
    bytes "{\n"
    ++ (bytes "  \"type\": \"record\",\n"
        ++ (bytes "  \"name\": \"RingHttpRequest\",\n"
            ++ (bytes "  \"fields\": [\n"
                ++ (bytes "    {\"name\": \"method\", \"type\": \"string\"},\n"
                    ++ (bytes "    {\"name\": \"uri\", \"type\": \"string\"},\n"
                        ++ (bytes
                              "    {\"name\": \"headers\", \"type\": {\"type\": \"array\", \"items\": {\n"
                            ++ (bytes "      \"type\": \"record\",\n"
                                ++ (bytes "      \"name\": \"RingHeader\",\n"
                                    ++ (bytes "      \"fields\": [\n"
                                        ++ (bytes
                                              "        {\"name\": \"name\", \"type\": \"string\"},\n"
                                            ++ (bytes
                                                  "        {\"name\": \"value\", \"type\": \"string\"}\n"
                                                ++ (bytes "      ]\n"
                                                    ++ (bytes "    }}},\n"
                                                        ++ (bytes
                                                            "    {\"name\": \"body\", \"type\": \"bytes\"}\n"
                                                            ++ (bytes "  ]\n"
                                                            ++ (bytes "}"))))))))))))))))

abbrev response_schema : Str
response_schema =
    bytes "{\n"
    ++ (bytes "  \"type\": \"record\",\n"
        ++ (bytes "  \"name\": \"RingHttpResponse\",\n"
            ++ (bytes "  \"fields\": [\n"
                ++ (bytes "    {\"name\": \"status\", \"type\": \"int\"},\n"
                    ++ (bytes
                          "    {\"name\": \"headers\", \"type\": {\"type\": \"array\", \"items\": {\n"
                        ++ (bytes "      \"type\": \"record\",\n"
                            ++ (bytes "      \"name\": \"RingHeader\",\n"
                                ++ (bytes "      \"fields\": [\n"
                                    ++ (bytes
                                          "        {\"name\": \"name\", \"type\": \"string\"},\n"
                                        ++ (bytes
                                              "        {\"name\": \"value\", \"type\": \"string\"}\n"
                                            ++ (bytes "      ]\n"
                                                ++ (bytes "    }}},\n"
                                                    ++ (bytes
                                                          "    {\"name\": \"body\", \"type\": \"bytes\"}\n"
                                                        ++ (bytes "  ]\n"
                                                            ++ (bytes "}")))))))))))))))

abbrev stream_schema : Str
stream_schema =
    bytes "{\n"
    ++ (bytes "  \"type\": \"record\",\n"
        ++ (bytes "  \"name\": \"RingStreamFrame\",\n"
            ++ (bytes "  \"fields\": [\n"
                ++ (bytes "    {\"name\": \"opcode\", \"type\": \"int\"},\n"
                    ++ (bytes "    {\"name\": \"stream_id\", \"type\": \"long\"},\n"
                        ++ (bytes "    {\"name\": \"payload\", \"type\": \"bytes\"}\n"
                            ++ (bytes "  ]\n" ++ (bytes "}"))))))))
