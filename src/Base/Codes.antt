-- ===== src/Base/Codes.antt =====
-- The status codes that the drivers return. Their numbers are those of ErrorNo.h in codal-core,
-- which is not in this repository: here each code is a constructor.

pub data Code : Type 0 where
  ok invalid_parameter not_supported no_data no_resources invalid_state i2c_error : Code

-- An `int` result that is a count, an index or a byte, or else a negative error code.
pub data Reply {ℓ} (A : Type ℓ) : Type ℓ where
  value : A → Reply A
  error : Code → Reply A
