-- ===== src/Proto.antt =====
-- The control-plane protocol (crates/core/src/proto.rs, avro.rs): kinds, messages, schemas and the
-- catalog that ties a frame's fingerprint to its kind.
mod Schemas
mod Messages
mod Status
mod Codec
pub mod Catalog
pub mod Tests
unfoldable pub use Schemas.*
pub use Messages.*
pub use Status.*
unfoldable pub use Codec.*
pub use Catalog.{fp_to_i64, i64_to_fp}
