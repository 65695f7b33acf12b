-- ===== src/Ids/Hex.antt =====
-- `bytes.hex` and `bytes.fromhex` of Python's `bytes`, and the round trip between them.
use faststream_mq.Base.{
  ℕ, ◌+◌, ◌-◌, ◌*◌, ◌/◌, ◌%◌, ◌<◌, ◌≡◌, refl, ap, Bool, false, ◌&&◌, ◌||◌, Option, none, some, [],
  ◌∷◌, arith, Text, Bytes, length, ltb, leb, ◌==◌, if◌then◌else◌, subst, some-injective, inl, inr,
  Bool-cases,
}

-- the lower-case digit of a number below 16
abbrev pub digit : ℕ → ℕ
digit n = if ltb n 10 then n + 48 else n + 87

-- `raw.hex()`
unfoldable pub to_hex : Bytes → Text
to_hex [] = []
to_hex (b ∷ bs) = digit (b / 16) ∷ digit (b % 16) ∷ to_hex bs

abbrev pub digit_value : ℕ → Option ℕ
digit_value c =
    if leb 48 c && leb c 57
    then some (c - 48)
    else if leb 97 c && leb c 102
    then some (c - 87)
    else if leb 65 c && leb c 70
    then some (c - 55)
    else none

-- the space that `fromhex` skips between bytes
abbrev pub is_ascii_space : ℕ → Bool
is_ascii_space c = c == 32 || (leb 9 c && leb c 13)

abbrev pub join_digits : Option ℕ → Option ℕ → Option Bytes → Option Bytes
join_digits (some hi) (some lo) (some bs) = some ((hi * 16 + lo) ∷ bs)
join_digits (some hi) (some lo) none = none
join_digits (some hi) none rest = none
join_digits none lo rest = none

-- `bytes.fromhex(s)`, with `none` for `ValueError`
unfoldable pub from_hex : Text → Option Bytes
from_hex [] = some []
from_hex (c ∷ []) = if is_ascii_space c then some [] else none
from_hex (c ∷ d ∷ s) =
    let skip = from_hex (d ∷ s) in
    let rest = from_hex s in
    if is_ascii_space c then skip else join_digits (digit_value c) (digit_value d) rest

-- every entry is a byte
abbrev pub IsBytes : Bytes → Type 0
IsBytes [] = Unit
IsBytes (b ∷ bs) = (b < 256) × IsBytes bs

digit_value-digit : (n : ℕ) → n < 16 → digit_value (digit n) ≡ some n
digit_value-digit n h = ground arith

digit-no_space : (n : ℕ) → n < 16 → is_ascii_space (digit n) ≡ false
digit-no_space n h = ground arith

-- Decoding the hex text of bytes gives the bytes back.
pub from_hex-to_hex : (bs : Bytes) → IsBytes bs → from_hex (to_hex bs) ≡ some bs
unfolding from_hex to_hex
from_hex-to_hex [] h = refl
from_hex-to_hex (b ∷ bs) h =
    rw
      (
        digit-no_space (b / 16) (omega arith),
        digit_value-digit (b / 16) (omega arith),
        digit_value-digit (b % 16) (omega arith),
        from_hex-to_hex bs h.1,
      )
      (ap some (ap (λ n. n ∷ bs) (omega arith)))

digit_value_lt : (c n : ℕ) → digit_value c ≡ some n → n < 16
digit_value_lt c n h = ground arith

join_digits-IsBytes :
    (hi lo : Option ℕ) (r : Option Bytes) (bs : Bytes)
    → ((n : ℕ) → hi ≡ some n → n < 16)
    → ((n : ℕ) → lo ≡ some n → n < 16)
    → ((t : Bytes) → r ≡ some t → IsBytes t)
    → join_digits hi lo r ≡ some bs
    → IsBytes bs
join_digits-IsBytes (some a) (some b) (some t) bs ha hb ht h =
    subst IsBytes (some-injective _ _ h) (omega (arith, ha a refl, hb b refl), ht t refl)
join_digits-IsBytes (some a) (some b) none bs ha hb ht h = cc
join_digits-IsBytes (some a) none r bs ha hb ht h = cc
join_digits-IsBytes none lo r bs ha hb ht h = cc

-- What `fromhex` returns are bytes.
pub from_hex-IsBytes : (s : Text) (bs : Bytes) → from_hex s ≡ some bs → IsBytes bs
unfolding from_hex
from_hex-IsBytes [] bs h = ground arith
from_hex-IsBytes (c ∷ []) bs h = ground arith
from_hex-IsBytes (c ∷ d ∷ s) bs h = elim (Bool-cases (is_ascii_space c)) [
  | inl space ↦ from_hex-IsBytes (d ∷ s) bs (rw space at h)
  | inr more ↦
      join_digits-IsBytes (digit_value c) (digit_value d) (from_hex s) bs (digit_value_lt c)
        (digit_value_lt d) (from_hex-IsBytes s) (rw more at h)
]

pub length-to_hex : (bs : Bytes) → length (to_hex bs) ≡ 2 * length bs
unfolding to_hex
length-to_hex [] = omega arith
length-to_hex (b ∷ bs) = omega (arith, length-to_hex bs)
