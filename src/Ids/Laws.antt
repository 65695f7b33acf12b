-- ===== src/Ids/Laws.antt =====
-- What the identifier functions of helpers/ids.py promise one another.
use faststream_mq.Base.{
  ℕ, suc, ◌≡◌, refl, inl, inr, true, Option, none, some, [], ◌∷◌, arith, Text, Bytes, length, ◌==◌,
  ==_iff, Bool-cases,
}
use faststream_mq.Errors.{Exc, ok, err, value_error}
use faststream_mq.Values.{str_value, bytes_value, bytearray_value}
use faststream_mq.Ids.{
  generate_mq_id, normalize_mq_id, mq_id_to_bytes, try_parse_mq_id, any_nonzero, checked_hex,
  mq_id_error, hex_to_bytes, checked_raw,
}
use faststream_mq.Ids.Hex.{
  to_hex, from_hex, IsBytes, from_hex-to_hex, from_hex-IsBytes, length-to_hex,
}

-- A text is the canonical spelling of an identifier: the hex digits of 24 bytes.
pub record IsMqId (t : Text) : Type 0 where
  pub raw : Bytes
  pub bytes : IsBytes raw
  pub full : length raw ≡ 24
  pub spelled : t ≡ to_hex raw

pub length-IsMqId : (t : Text) → IsMqId t → length t ≡ 48
length-IsMqId t i = rw i.spelled (omega (arith, length-to_hex i.raw, i.full))

-- `normalize_mq_id` on a text that is not empty
normalize-some :
    (s f : Text) (n : ℕ)
    → length s ≡ suc n
    → normalize_mq_id (some s) f ≡ checked_hex (from_hex s) f
unfolding normalize_mq_id
normalize-some [] f n e = absurd (omega arith)
normalize-some (c ∷ s) f n e = refl

normalize-IsMqId_raw :
    (raw : Bytes) (f : Text)
    → IsBytes raw
    → length raw ≡ 24
    → normalize_mq_id (some (to_hex raw)) f ≡ ok (some (to_hex raw))
normalize-IsMqId_raw raw f b full = rw (
  normalize-some (to_hex raw) f 47 (omega (arith, length-to_hex raw)),
  from_hex-to_hex raw b,
  full,
)

checked_hex-ok :
    (r : Option Bytes) (f t : Text)
    → ((bs : Bytes) → r ≡ some bs → IsBytes bs)
    → checked_hex r f ≡ ok (some t)
    → IsMqId t
checked_hex-ok none f t b h = cc
checked_hex-ok (some raw) f t b h = elim (Bool-cases (length raw == 24)) [
  | inl full ↦ record {
    raw = raw;
    bytes = b raw refl;
    full = (==_iff _ _).0 full;
    spelled = ground arith;
  }
  | inr short ↦ ground arith
]

pub normalize_mq_id-ok :
    (v : Option Text) (f t : Text) → normalize_mq_id v f ≡ ok (some t) → IsMqId t
unfolding normalize_mq_id
normalize_mq_id-ok none f t h = cc
normalize_mq_id-ok (some []) f t h = cc
normalize_mq_id-ok (some (c ∷ s)) f t h =
    checked_hex-ok (from_hex (c ∷ s)) f t (from_hex-IsBytes (c ∷ s)) h

pub mq_id_to_bytes-raw :
    (raw : Bytes) (f : Text)
    → IsBytes raw
    → length raw ≡ 24
    → mq_id_to_bytes (some (to_hex raw)) f ≡ ok (some raw)
unfolding mq_id_to_bytes
mq_id_to_bytes-raw raw f b full =
    rw (normalize-IsMqId_raw raw f b full) (rw (hex_to_bytes, from_hex-to_hex raw b))

-- Whatever `normalize_mq_id` accepts comes out as the 48 lower-case hex digits of 24 bytes; under
-- any field name that spelling normalises to itself, and `mq_id_to_bytes` gives those bytes.
pub normalize_mq_id-canonical :
    (v : Option Text) (f g t : Text)
    → normalize_mq_id v f ≡ ok (some t)
    → (raw : Bytes) × (length raw ≡ 24)
      × (t ≡ to_hex raw)
      × (length t ≡ 48)
      × (normalize_mq_id (some t) g ≡ ok (some t))
      × (mq_id_to_bytes (some t) g ≡ ok (some raw))
normalize_mq_id-canonical v f g t h =
    let i : IsMqId t = normalize_mq_id-ok v f t h in
    (
      i.raw,
      i.full,
      i.spelled,
      length-IsMqId t i,
      rw i.spelled (normalize-IsMqId_raw i.raw g i.bytes i.full),
      rw i.spelled (mq_id_to_bytes-raw i.raw g i.bytes i.full),
    )

-- A generated identifier normalises to itself, and denotes the random bytes that it was made from.
pub generate_mq_id-normalize :
    (random : Bytes) (f : Text)
    → IsBytes random
    → length random ≡ 24
    → (normalize_mq_id (some (generate_mq_id random)) f ≡ ok (some (generate_mq_id random)))
      × (mq_id_to_bytes (some (generate_mq_id random)) f ≡ ok (some random))
unfolding generate_mq_id
generate_mq_id-normalize random f b full =
    (normalize-IsMqId_raw random f b full, mq_id_to_bytes-raw random f b full)

checked_raw-some :
    (raw : Bytes)
    → length raw ≡ 24
    → any_nonzero raw ≡ true
    → checked_raw (some raw) ≡ some (to_hex raw)
checked_raw-some raw full nonzero = rw (full, nonzero)

pub try_parse_mq_id-raw :
    (raw : Bytes)
    → length raw ≡ 24
    → any_nonzero raw ≡ true
    → try_parse_mq_id (bytes_value raw) ≡ some (to_hex raw)
unfolding try_parse_mq_id
try_parse_mq_id-raw raw full nonzero = checked_raw-some raw full nonzero

-- The identifier that a descriptor's 24 bytes are read as, if one of them is not zero, goes back to
-- those bytes when it is published; its hex text is
-- read as the same identifier.
pub try_parse_mq_id-roundtrip :
    (raw : Bytes) (f : Text)
    → IsBytes raw
    → length raw ≡ 24
    → any_nonzero raw ≡ true
    → (t : Text) × (try_parse_mq_id (bytes_value raw) ≡ some t)
      × (try_parse_mq_id (bytearray_value raw) ≡ some t)
      × (try_parse_mq_id (str_value t) ≡ some t)
      × (mq_id_to_bytes (some t) f ≡ ok (some raw))
unfolding try_parse_mq_id
try_parse_mq_id-roundtrip raw f b full nonzero = (
  to_hex raw,
  checked_raw-some raw full nonzero,
  checked_raw-some raw full nonzero,
  rw (from_hex-to_hex raw b) (checked_raw-some raw full nonzero),
  mq_id_to_bytes-raw raw f b full,
)

checked_raw-normal :
    (r : Option Bytes) (f t : Text) → checked_raw r ≡ some t → checked_hex r f ≡ ok (some t)
checked_raw-normal none f t h = cc
checked_raw-normal (some raw) f t h = ground arith

-- A text that `try_parse_mq_id` reads as an identifier is one that `normalize_mq_id` accepts, with
-- the same result.
pub try_parse_mq_id-normalize :
    (s f t : Text)
    → try_parse_mq_id (str_value s) ≡ some t
    → normalize_mq_id (some s) f ≡ ok (some t)
unfolding try_parse_mq_id normalize_mq_id from_hex
try_parse_mq_id-normalize [] f t h = ground arith
try_parse_mq_id-normalize (c ∷ s) f t h = checked_raw-normal (from_hex (c ∷ s)) f t h

checked_hex-err :
    (r : Option Bytes) (f : Text) (e : Exc)
    → checked_hex r f ≡ err e
    → e ≡ value_error (mq_id_error f)
checked_hex-err none f e h = cc
checked_hex-err (some raw) f e h = ground arith

-- The only exception is a `ValueError` that names the field.
pub normalize_mq_id-err :
    (v : Option Text) (f : Text) (e : Exc)
    → normalize_mq_id v f ≡ err e
    → e ≡ value_error (mq_id_error f)
unfolding normalize_mq_id
normalize_mq_id-err none f e h = cc
normalize_mq_id-err (some []) f e h = cc
normalize_mq_id-err (some (c ∷ s)) f e h = checked_hex-err (from_hex (c ∷ s)) f e h

-- the bytes of a normalised identifier are there: the second `fromhex` never raises
pub mq_id_to_bytes-some :
    (t f : Text) → IsMqId t → (raw : Bytes) × (mq_id_to_bytes (some t) f ≡ ok (some raw))
mq_id_to_bytes-some t f i = (i.raw, rw i.spelled (mq_id_to_bytes-raw i.raw f i.bytes i.full))
