-- ===== src/Connector/Serde.antt =====
-- The datum codec of an application's own type (serde and `apache_avro`), which is code outside the
-- repository.
use impulse_ring.Prelude.{ℕ, List, Result}

pub record Serde (Schema T : Type 0) : Type 0 where
  pub encode : Schema → T → Result (List ℕ)
  pub decode : Schema → List ℕ → Result T
