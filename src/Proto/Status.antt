-- ===== src/Proto/Status.antt =====
-- The status codes of the replies (crates/core/src/proto.rs).
use impulse_ring.Prelude.{ℤ, pos}

abbrev pub status_ok : ℤ
status_ok = pos 0

abbrev pub err_not_found : ℤ
err_not_found = pos 1

abbrev pub err_denied : ℤ
err_denied = pos 2

abbrev pub err_schema_mismatch : ℤ
err_schema_mismatch = pos 3

abbrev pub err_internal : ℤ
err_internal = pos 4

abbrev pub err_exists : ℤ
err_exists = pos 5
