-- ===== src/Values.antt =====
-- The values of a dynamic type that the package looks into: message properties, descriptor fields.
use faststream_mq.Base.{ℕ, Text, Bytes, Bool}

-- `negsuc n` is -(n + 1)
pub data ℤ : Type 0 where
  pos : ℕ → ℤ
  negsuc : ℕ → ℤ

-- `float_value` holds a bit pattern and `object_value` an object's identity: neither is looked into.
pub data Value : Type 0 where
  none_value : Value
  str_value : Text → Value
  bytes_value bytearray_value : Bytes → Value
  bool_value : Bool → Value
  int_value : ℤ → Value
  float_value object_value : ℕ → Value
