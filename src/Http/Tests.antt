-- ===== src/Http/Tests.antt =====
-- Tokens, names and shares.
use impulse_ring.Prelude.{ℕ, ◌+◌, ◌*◌, ◌≤◌, ◌<◌, ◌≡◌, ◌↔◌, refl, bytes, arith}
use impulse_ring.Http.{
  stream_channel_name, max_inline_request_body, max_inline_response_body, body_chunk,
}
use impulse_ring.Http.Shares.{shares_fit}
use impulse_ring.Http.Channels.{stream_channel_name_iff}

stream_channel_name_iff_example :
    (stream_channel_name (bytes "svc") 1 (bytes "down")
      ≡ stream_channel_name (bytes "svc") 2 (bytes "down"))
    ↔ ((◌≡◌ {A = ℕ} 1 2) × (bytes "down" ≡ bytes "down"))
stream_channel_name_iff_example =
    stream_channel_name_iff (bytes "svc") 1 2 (bytes "down") (bytes "down") (omega arith)
      (omega arith)

shares_fit_example :
    (2 * (max_inline_request_body 262144 + 1000) ≤ 262144)
    × (2 * (body_chunk 262144 + 1000) ≤ 262144)
    × (max_inline_response_body 262144 + 1000 ≤ 262144)
    × (262144 < 3 * max_inline_request_body 262144)
    × (262144 < 3 * body_chunk 262144)
shares_fit_example = shares_fit 262144 1000 (omega arith) refl (omega arith)
