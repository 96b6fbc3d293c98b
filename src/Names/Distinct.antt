-- ===== src/Names/Distinct.antt =====
-- The names of segments (crates/core/src/util.rs) and when they are equal.
use mathlib.Core.List.{append_cancel_left, append_cancel_right}
use impulse_ring.Prelude.{
  ℕ, ◌^◌, ◌<◌, ◌≡◌, ◌≢◌, ◌↔◌, ap, ◌++◌, Str, bytes, decimal, decimal-injective, drop, arith,
}
use impulse_ring.Names.{channel_arena, function_arena, client_segment}

-- A name is a fixed front, the number's digits and a fixed back.
numbered :
    (front back : Str) (m n : ℕ)
    → m < 2 ^ 64
    → n < 2 ^ 64
    → front ++ (decimal m ++ back) ≡ front ++ (decimal n ++ back)
    → m ≡ n
numbered front back m n hm hn e = decimal-injective m n hm hn (
    append_cancel_right (decimal m) (decimal n) back
      (append_cancel_left front (decimal m ++ back) (decimal n ++ back) e))

pub channel_arena-injective :
    (m n : ℕ) → m < 2 ^ 64 → n < 2 ^ 64 → channel_arena m ≡ channel_arena n → m ≡ n
unfolding channel_arena
channel_arena-injective m n hm hn e =
    numbered (bytes "/impulse-ring.arena.") (bytes ".v1") m n hm hn e

pub function_arena-injective :
    (m n : ℕ) → m < 2 ^ 64 → n < 2 ^ 64 → function_arena m ≡ function_arena n → m ≡ n
unfolding function_arena
function_arena-injective m n hm hn e =
    numbered (bytes "/impulse-ring.fn.") (bytes ".v1") m n hm hn e

client_segment-injective :
    (m n : ℕ) → m < 2 ^ 64 → n < 2 ^ 64 → client_segment m ≡ client_segment n → m ≡ n
unfolding client_segment
client_segment-injective m n hm hn e =
    numbered (bytes "/impulse-ring.cli.") (bytes ".v1") m n hm hn e

-- Two channels share an arena's name exactly when they have the same id; and so do two functions,
-- and two clients with their nonces.
segment_names_iff :
    (m n : ℕ)
    → m < 2 ^ 64
    → n < 2 ^ 64
    → ((channel_arena m ≡ channel_arena n) ↔ (m ≡ n))
      × ((function_arena m ≡ function_arena n) ↔ (m ≡ n))
      × ((client_segment m ≡ client_segment n) ↔ (m ≡ n))
segment_names_iff m n hm hn = (
  (channel_arena-injective m n hm hn, ap channel_arena),
  (function_arena-injective m n hm hn, ap function_arena),
  (client_segment-injective m n hm hn, ap client_segment),
)

-- No channel's arena has the name of a function's.
pub channel_arena-ne-function_arena : (m n : ℕ) → channel_arena m ≢ function_arena n
unfolding channel_arena function_arena
channel_arena-ne-function_arena m n e = ground (arith, ap (drop 14) e)
