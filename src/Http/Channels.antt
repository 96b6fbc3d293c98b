-- ===== src/Http/Channels.antt =====
-- The names of stream channels.
use mathlib.Core.List.{append_cancel_left}
use impulse_ring.Prelude.{
  ℕ, zero, suc, ◌*◌, ◌/◌, ◌%◌, ◌^◌, ◌<◌, ◌≡◌, refl, sym, ◌∙◌, List, [], ◌∷◌, ◌++◌, Str, bytes,
  arith, length, length-append, hex_digit, hex_digit-injective, ap₂, ◌↔◌,
}
use impulse_ring.Http.{hex_padded, stream_channel_name, stream_chan_prefix}

length-hex_padded : (width n : ℕ) → length (hex_padded width n) ≡ width
unfolding hex_padded
length-hex_padded zero n = refl
length-hex_padded (suc width) n = omega (
  arith,
  length-append (hex_padded width (n / 16)) (hex_digit (n % 16) ∷ []),
  length-hex_padded width (n / 16),
)

abbrev bound : ℕ → ℕ
bound zero = 1
bound (suc width) = 16 * bound width

-- Two lists that end in one element each.
last-eq :
    (xs ys : List ℕ) (x y : ℕ)
    → length xs ≡ length ys
    → xs ++ x ∷ [] ≡ ys ++ y ∷ []
    → (xs ≡ ys) × (x ≡ y)
last-eq [] [] x y l e = (refl, cc)
last-eq [] (b ∷ ys) x y l e = absurd (omega arith)
last-eq (a ∷ xs) [] x y l e = absurd (omega arith)
last-eq (a ∷ xs) (b ∷ ys) x y l e =
    let (front, last) = last-eq xs ys x y (omega arith) cc in (cc, last)

hex_padded-injective :
    (width m n : ℕ)
    → m < bound width
    → n < bound width
    → hex_padded width m ≡ hex_padded width n
    → m ≡ n
unfolding hex_padded
hex_padded-injective zero m n hm hn e = omega arith
hex_padded-injective (suc width) m n hm hn e =
    let same_length : length (hex_padded width (m / 16)) ≡ length (hex_padded width (n / 16)) =
      length-hex_padded width (m / 16) ∙ sym (length-hex_padded width (n / 16)) in
    let (front, last) =
      last-eq (hex_padded width (m / 16)) (hex_padded width (n / 16)) _ _ same_length e in
    omega (
      arith,
      hex_padded-injective width (m / 16) (n / 16) (omega arith) (omega arith) front,
      hex_digit-injective (m % 16) (n % 16) (omega arith) (omega arith) last,
    )

-- Lists with fronts of one length.
append-eq : (xs ys s t : List ℕ) → length xs ≡ length ys → xs ++ s ≡ ys ++ t → (xs ≡ ys) × (s ≡ t)
append-eq [] [] s t l e = (refl, e)
append-eq [] (y ∷ ys) s t l e = absurd (omega arith)
append-eq (x ∷ xs) [] s t l e = absurd (omega arith)
append-eq (x ∷ xs) (y ∷ ys) s t l e =
    let (front, back) = append-eq xs ys s t (omega arith) cc in (cc, back)

-- Within one application two stream channels have one name exactly when they are of the same
-- session and role.
pub stream_channel_name_iff :
    (app : Str) (m n : ℕ) (role other : Str)
    → m < 2 ^ 64
    → n < 2 ^ 64
    → (stream_channel_name app m role ≡ stream_channel_name app n other)
      ↔ ((m ≡ n) × (role ≡ other))
unfolding stream_channel_name
stream_channel_name_iff app m n role other hm hn = (
  λ e.
      let digits =
        append_cancel_left (bytes "/") _ _
          (append_cancel_left app _ _ (append_cancel_left stream_chan_prefix _ _ e)) in
      let (number, rest) =
        append-eq (hex_padded 16 m) (hex_padded 16 n) _ _
          (length-hex_padded 16 m ∙ sym (length-hex_padded 16 n)) digits in
      (hex_padded-injective 16 m n hm hn number, append_cancel_left (bytes "/") _ _ rest),
  λ (e : (m ≡ n) × (role ≡ other)). ap₂ (stream_channel_name app) e.0 e.1,
)
