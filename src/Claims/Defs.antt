-- ===== src/Claims/Defs.antt =====
-- Disclosed claims: Go's `map[string]any`.
use eudi_verifier_core.Prelude.{String, Bytes}

-- A value is a nested map or a leaf; a leaf is any other JSON or CBOR value, opaque here.
mutual
  pub data Value : Type 0 where
    leaf : Bytes → Value
    node : Claims → Value

  -- The entries of a map, in the order in which Go happens to iterate over them.
  pub data Claims : Type 0 where
    nil : Claims
    entry : String → Value → Claims → Claims
