-- ===== src/Frame/Tests.antt =====
-- A frame of three bytes there and back.
use impulse_ring.Prelude.{ℕ, ◌≡◌, refl, List, [], ◌∷◌, ◌++◌, All, IsByte, ok, arith}
use impulse_ring.Frame.{Frame, encode, decode}
use impulse_ring.Frame.Roundtrip.{IsFrame, decode-encode, encode-decode}

abbrev small_frame : Frame
small_frame = record { flags = 0; schema_fp = 0x1234; body = 1 ∷ 2 ∷ 3 ∷ [] }

small_frame-IsFrame : IsFrame small_frame
small_frame-IsFrame = record { flags_lt = omega arith; fp_lt = omega arith; body_lt = omega arith }

decode-encode_example : decode (encode small_frame ++ 255 ∷ []) ≡ ok small_frame
decode-encode_example = decode-encode small_frame (255 ∷ []) small_frame-IsFrame

abbrev frame_bytes : List ℕ
frame_bytes =
    0x49 ∷ 0x52 ∷ 1 ∷ 0 ∷ 0x34 ∷ 0x12 ∷ 0 ∷ 0 ∷ 0 ∷ 0 ∷ 0 ∷ 0 ∷ 3 ∷ 0 ∷ 0 ∷ 0 ∷ 1 ∷ 2 ∷ 3 ∷ 255 ∷ []

frame_bytes-IsByte : All IsByte frame_bytes
frame_bytes-IsByte = ground arith

frame_bytes-decode : decode frame_bytes ≡ ok small_frame
unfolding decode
frame_bytes-decode = refl

encode-decode_example :
    IsFrame small_frame × ((rest : List ℕ) × (frame_bytes ≡ encode small_frame ++ rest))
encode-decode_example = encode-decode frame_bytes frame_bytes-IsByte frame_bytes-decode
