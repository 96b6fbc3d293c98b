-- ===== src/Frame.antt =====
-- The wire frame round an Avro body (crates/core/src/frame.rs).
pub mod Tests
pub mod Roundtrip
use impulse_ring.Prelude.{
  ℕ, ◌+◌, ◌≡◌, Bool, true, not, List, [], ◌∷◌, ◌++◌, Str, bytes, decimal, length, take, drop, ltb,
  nat_eqb, if◌then◌else◌, to_le_bytes, from_le_bytes, ◌%◌, u32_mod, Result, ok, err, other,
}

-- `Fingerprint`, a `u64`.
abbrev pub Fingerprint : Type 0
Fingerprint = ℕ

abbrev pub frame_magic : ℕ
frame_magic = 0x5249

abbrev pub wire_version : ℕ
wire_version = 1

abbrev pub frame_header : ℕ
frame_header = 16

pub record Frame : Type 0 where
  pub flags : ℕ
  pub schema_fp : Fingerprint
  pub body : List ℕ

abbrev pub new : Fingerprint → List ℕ → Frame
new schema_fp body = record { flags = 0; schema_fp = schema_fp; body = body }

unfoldable pub encode : Frame → List ℕ
encode f =
    to_le_bytes 2 frame_magic
    ++ (wire_version
        ∷ f.flags
        ∷ (to_le_bytes 8 f.schema_fp ++ (to_le_bytes 4 (length f.body % u32_mod) ++ f.body)))

-- `buf[i]` in range, `buf[i..j]`.
abbrev pub byte_at : List ℕ → ℕ → ℕ
byte_at buf i = from_le_bytes (take 1 (drop i buf))

abbrev pub slice : List ℕ → ℕ → ℕ → List ℕ
slice buf start len = take len (drop start buf)

unfoldable pub decode : List ℕ → Result Frame
decode buf =
    let magic = from_le_bytes (slice buf 0 2) in
    let ver = byte_at buf 2 in
    let flags = byte_at buf 3 in
    let schema_fp = from_le_bytes (slice buf 4 8) in
    let body_len = from_le_bytes (slice buf 12 4) in
    let body = slice buf frame_header body_len in
    if ltb (length buf) frame_header
    then err (other (bytes "frame shorter than header"))
    else if not (nat_eqb magic frame_magic)
    then err (other (bytes "bad frame magic"))
    else if not (nat_eqb ver wire_version)
    then err (other (bytes "unsupported wire version " ++ decimal ver))
    else if ltb (length buf) (frame_header + body_len)
    then err (other (bytes "frame body truncated"))
    else ok (record { flags = flags; schema_fp = schema_fp; body = body })
