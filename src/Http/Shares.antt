-- ===== src/Http/Shares.antt =====
-- How large a body travels inline, and how many such records a ring holds.
use impulse_ring.Prelude.{ℕ, ◌+◌, ◌*◌, ◌%◌, ◌≤◌, ◌<◌, ◌≡◌, arith}
use impulse_ring.Http.{max_inline_request_body, max_inline_response_body, body_chunk, min_ring_cap}

-- A record that carries `body` bytes as `framing` more, the ring's length word among them. On every
-- arena that the broker hands out, two inline requests or two chunks fit together, and one inline
-- response fits its ring, each with a sixteenth of the ring for framing; three requests or three
-- chunks never do.
pub shares_fit :
    (cap framing : ℕ)
    → min_ring_cap ≤ cap
    → cap % 8 ≡ 0
    → framing * 16 ≤ cap
    → (2 * (max_inline_request_body cap + framing) ≤ cap)
      × (2 * (body_chunk cap + framing) ≤ cap)
      × (max_inline_response_body cap + framing ≤ cap)
      × (cap < 3 * max_inline_request_body cap)
      × (cap < 3 * body_chunk cap)
unfolding max_inline_request_body max_inline_response_body body_chunk
shares_fit cap framing least even small = omega arith
