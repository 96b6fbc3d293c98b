-- ===== src/Frame/Roundtrip.antt =====
-- `encode` and `decode` of crates/core/src/frame.rs, one after the other.
use impulse_ring.Prelude.{
  ℕ, ◌+◌, ◌^◌, ◌≤◌, ◌<◌, ◌≡◌, sym, ap, ap₂, ◌∙◌, List, [], ◌∷◌, ◌++◌, arith, length, drop,
  length-append, take-append_self, to_le_bytes, from_le_bytes, ok, All, IsByte, All-take, All-drop,
  drop-drop, take-append-drop, length-take, length-drop, to_le_bytes-from_le_bytes,
  from_le_bytes-lt, from_le_bytes-to_le_bytes_four, from_le_bytes-to_le_bytes_eight,
}
use native.Mathlib.Nat.{mod-eq_of_lt}
use impulse_ring.Frame.{
  Frame, encode, decode, slice, byte_at, frame_header, frame_magic, wire_version,
}

-- The fields fit their widths.
pub record IsFrame (f : Frame) : Type 0 where
  pub flags_lt : f.flags < 256
  pub fp_lt : f.schema_fp < 2 ^ 64
  pub body_lt : length f.body < 2 ^ 32

-- A frame is read back from its bytes, whatever follows them.
pub decode-encode : (f : Frame) (rest : List ℕ) → IsFrame f → decode (encode f ++ rest) ≡ ok f
unfolding decode encode
decode-encode f rest v = ground (
  arith,
  from_le_bytes-to_le_bytes_eight f.schema_fp v.fp_lt,
  from_le_bytes-to_le_bytes_four (length f.body) v.body_lt,
  take-append_self f.body rest,
  length-append f.body rest,
)

-- What `decode` accepts, by its fields.
decode-ok :
    (buf : List ℕ) {f : Frame}
    → decode buf ≡ ok f
    → (from_le_bytes (slice buf 0 2) ≡ frame_magic)
      × (byte_at buf 2 ≡ wire_version)
      × (frame_header + from_le_bytes (slice buf 12 4) ≤ length buf)
      × (f ≡ record {
        flags = byte_at buf 3;
        schema_fp = from_le_bytes (slice buf 4 8);
        body = slice buf frame_header (from_le_bytes (slice buf 12 4));
      })
unfolding decode
decode-ok buf e = ground arith

-- A buffer is its next `k` bytes and what follows them.
cut : (buf : List ℕ) (i k : ℕ) → drop i buf ≡ slice buf i k ++ drop (i + k) buf
cut buf i k = sym (take-append-drop k (drop i buf)) ∙ ap (◌++◌ (slice buf i k)) (drop-drop k i buf)

-- A stretch of bytes that is long enough is the little-endian form of its value.
le_slice :
    (buf : List ℕ) (i k : ℕ)
    → All IsByte buf
    → i + k ≤ length buf
    → to_le_bytes k (from_le_bytes (slice buf i k)) ≡ slice buf i k
le_slice buf i k b h =
    ap (λ n. to_le_bytes n (from_le_bytes (slice buf i k))) (sym len)
    ∙ to_le_bytes-from_le_bytes (slice buf i k)
        (All-take IsByte k (drop i buf) (All-drop IsByte i buf b))
  where
    len : length (slice buf i k) ≡ k
    len = omega (arith, length-take k (drop i buf), length-drop i buf)

-- The bytes of a frame, field by field.
abbrev layout : ℕ → ℕ → List ℕ → ℕ → ℕ → List ℕ → List ℕ
layout magic ver flags fp n rest =
    to_le_bytes 2 magic
    ++ (to_le_bytes 1 ver ++ (flags ++ (to_le_bytes 8 fp ++ (to_le_bytes 4 n ++ rest))))

encode_layout :
    (f : Frame) (rest : List ℕ)
    → IsFrame f
    → encode f ++ rest
      ≡ layout frame_magic wire_version (f.flags ∷ []) f.schema_fp (length f.body) (f.body ++ rest)
unfolding encode
encode_layout f rest v =
    ap (λ n. layout frame_magic wire_version (f.flags ∷ []) f.schema_fp n (f.body ++ rest))
      (mod-eq_of_lt v.body_lt)

module _ (buf : List ℕ) (b : All IsByte buf) where
  abbrev body_len : ℕ
  body_len = from_le_bytes (slice buf 12 4)

  buf_layout :
      frame_header + body_len ≤ length buf
      → buf
        ≡ layout
            (from_le_bytes (slice buf 0 2))
            (byte_at buf 2)
            (to_le_bytes 1 (byte_at buf 3))
            (from_le_bytes (slice buf 4 8))
            body_len
            (slice buf frame_header body_len ++ drop (frame_header + body_len) buf)
  buf_layout h =
      cut buf 0 2
      ∙ ap₂ ◌++◌ (sym (le_slice buf 0 2 b (omega arith))) (
          cut buf 2 1
          ∙ ap₂ ◌++◌ (sym (le_slice buf 2 1 b (omega arith))) (
              cut buf 3 1
              ∙ ap₂ ◌++◌ (sym (le_slice buf 3 1 b (omega arith))) (
                  cut buf 4 8
                  ∙ ap₂ ◌++◌ (sym (le_slice buf 4 8 b (omega arith))) (
                      cut buf 12 4
                      ∙ ap₂ ◌++◌ (sym (le_slice buf 12 4 b (omega arith)))
                          (cut buf frame_header body_len)))))

  slice_lt : (i k : ℕ) → i + k ≤ length buf → from_le_bytes (slice buf i k) < 256 ^ k
  slice_lt i k h =
      rw (len h) at (
        from_le_bytes-lt (slice buf i k) (All-take IsByte k (drop i buf) (All-drop IsByte i buf b)))
    where
      len : i + k ≤ length buf → length (slice buf i k) ≡ k
      len h = omega (arith, length-take k (drop i buf), length-drop i buf)

accepted-length :
    (buf : List ℕ)
    → frame_header + from_le_bytes (slice buf 12 4) ≤ length buf
    → length (slice buf frame_header (from_le_bytes (slice buf 12 4)))
      ≡ from_le_bytes (slice buf 12 4)
accepted-length buf h = omega (
  arith,
  length-take (from_le_bytes (slice buf 12 4)) (drop frame_header buf),
  length-drop frame_header buf,
)

abbrev accepted : List ℕ → Frame
accepted buf = record {
  flags = byte_at buf 3;
  schema_fp = from_le_bytes (slice buf 4 8);
  body = slice buf frame_header (from_le_bytes (slice buf 12 4));
}

accepted-IsFrame :
    (buf : List ℕ)
    → All IsByte buf
    → frame_header + from_le_bytes (slice buf 12 4) ≤ length buf
    → IsFrame (accepted buf)
accepted-IsFrame buf b h = record {
  flags_lt = slice_lt buf b 3 1 (omega arith);
  fp_lt = slice_lt buf b 4 8 (omega arith);
  body_lt = omega (arith, slice_lt buf b 12 4 (omega arith), accepted-length buf h);
}

-- Only a frame's bytes are accepted, with anything behind them: the frame that comes out is well
-- formed, and its encoding is how the buffer began.
pub encode-decode :
    (buf : List ℕ) {f : Frame}
    → All IsByte buf
    → decode buf ≡ ok f
    → IsFrame f × ((rest : List ℕ) × (buf ≡ encode f ++ rest))
encode-decode buf {f} b e =
    let (magic_eq, ver_eq, fits, f_eq) = decode-ok buf e in
    let v = accepted-IsFrame buf b fits in
    let tail_bytes = drop (frame_header + body_len buf b) buf in
    let rest = slice buf frame_header (body_len buf b) ++ tail_bytes in
    let fp = from_le_bytes (slice buf 4 8) in
    rw f_eq (
      v,
      (
        tail_bytes,
        buf_layout buf b fits
            ∙ ap₂ (λ m r. layout m r (to_le_bytes 1 (byte_at buf 3)) fp (body_len buf b) rest)
                magic_eq ver_eq
            ∙ ap₂ (λ fl n. layout frame_magic wire_version (fl ∷ []) fp n rest)
                (mod-eq_of_lt v.flags_lt) (sym (accepted-length buf fits))
            ∙ sym (encode_layout (accepted buf) tail_bytes v),
      ),
    )
