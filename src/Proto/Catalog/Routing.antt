-- ===== src/Proto/Catalog/Routing.antt =====
-- Frames and the catalog: what comes back from a frame, and which kind a fingerprint stands for.
use impulse_ring.Prelude.{
  ℕ, ◌<◌, ◌^◌, ◌≡◌, refl, sym, ◌∙◌, arith, ℤ, pos, negsuc, IsI64, List, some, get, int_eq, nat_eq,
  ok, ◌>>=◌, >>=-eq-ok,
}
use impulse_ring.Frame
use impulse_ring.Frame.{Frame}
use impulse_ring.Proto.Schemas.{Kind}
use impulse_ring.Proto.Codec.{Message, Avro, kind_eq}
use impulse_ring.Proto.Catalog.{
  fp_to_i64, i64_to_fp, Catalog, to_frame, from_frame, from_frame_compat, schema, fp, kind_of,
  writer_schema,
}

long_again : (v : ℤ) → IsI64 v → fp_to_i64 (i64_to_fp v) ≡ v
long_again (pos n) h = ground arith
long_again (negsuc n) h = ground arith

-- A fingerprint crosses the wire as an Avro long and comes back, and so does every long.
pub i64_to_fp-fp_to_i64 :
    ((f : ℕ) → f < 2 ^ 64 → i64_to_fp (fp_to_i64 f) ≡ f)
    × ((v : ℤ) → IsI64 v → fp_to_i64 (i64_to_fp v) ≡ v)
i64_to_fp-fp_to_i64 = (λ f h. ground arith, long_again)

-- The catalog knows a kind under the fingerprint and the schema that it writes with.
pub record Lists (a : Avro) (c : Catalog a.Schema) (k : Kind) (s : a.Schema) (f : ℕ) : Type 0 where
  pub schema_is : get k c.schemas ≡ some s
  pub fp_is : get k c.fps ≡ some f
  pub kind_is : get f c.by_fp ≡ some k
  pub writer_is : get f c.writer_schemas ≡ some s

pub to_frame-Lists :
    (a : Avro) (c : Catalog a.Schema) {k : Kind} {s : a.Schema} {f : ℕ} (msg : Message k)
    → Lists a c k s f
    → to_frame a c k msg ≡ (a.encode k s msg >>= λ body. ok (Frame.new f body))
unfolding to_frame schema fp
to_frame-Lists a c msg l = rw (l.schema_is, l.fp_is, schema, fp, to_frame) refl

-- What is framed as a kind is found again as that kind and read again, by the reader of the kind
-- and by the one that goes by the fingerprint.
pub to_frame-from_frame :
    (a : Avro) (c : Catalog a.Schema) {k : Kind} {s : a.Schema} {f : ℕ} (msg : Message k)
    (frame : Frame)
    → Lists a c k s f
    → ((body : List ℕ) → a.encode k s msg ≡ ok body → a.decode k s body ≡ ok msg)
    → to_frame a c k msg ≡ ok frame
    → (kind_of a c frame.schema_fp ≡ some k)
      × (from_frame a c k frame ≡ ok msg)
      × (from_frame_compat a c k frame ≡ ok msg)
unfolding to_frame from_frame from_frame_compat kind_of schema fp writer_schema
to_frame-from_frame a c {k} {s} {f} msg frame l law e =
    let (body, framed, encoded) =
      >>=-eq-ok (a.encode k s msg) (λ body. ok (Frame.new f body))
        (sym (to_frame-Lists a c msg l) ∙ e) in
    let frame_is : Frame.new f body ≡ frame = cc in
    rw (← frame_is) (
      l.kind_is,
      rw (l.schema_is, schema, from_frame) (law body encoded),
      rw (l.writer_is, writer_schema, from_frame_compat) (law body encoded),
    )
