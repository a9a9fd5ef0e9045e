-- ===== src/Error/Numbers.antt =====
-- The error codecs of core/src/error.rs for numbers, `()`, `Errno` and `String`, behind the trait
-- `RpcErrCodec`. A value of a number type is an integer. `$t::max as u32` casts the function
-- `Ord::max` of the type, and not the constant `$t::MAX`: it is the low half of a code address,
-- which the linker chooses, and so a parameter.
pub mod RoundTrip
use occams_rpc.Base.{
  ℕ, ◌-◌, ◌%◌, ◌^◌, ◌<◌, ◌≡◌, Option, none, some, List, arith, ltb, leb, ◌==◌, if◌then◌else◌,
}
use occams_rpc.Base.Int.{ℤ, pos, negsuc, as_u32, as_i32}
use occams_rpc.Error.{EncodedErr, rpc, num, static, buf, RawErr, raw_num, raw_buf}
use occams_rpc.Error.Text.{from_utf8}

-- The trait, for the codec of one connection. `none` is the `Err(())`.
pub record RpcErrCodec (E : Type 0) : Type 0 where
  pub encode : E → EncodedErr
  pub decode : RawErr → Option E

-- The types that `impl_rpc_error_for_num!` is called for.
pub data NumType : Type 0 where
  i8 u8 i16 u16 i32 u32 : NumType

abbrev pub modulus : NumType → ℕ
modulus i8 = 2 ^ 8
modulus u8 = 2 ^ 8
modulus i16 = 2 ^ 16
modulus u16 = 2 ^ 16
modulus i32 = 2 ^ 32
modulus u32 = 2 ^ 32

-- The number of values that are not negative.
abbrev pub nonneg : NumType → ℕ
nonneg i8 = 2 ^ 7
nonneg u8 = 2 ^ 8
nonneg i16 = 2 ^ 15
nonneg u16 = 2 ^ 16
nonneg i32 = 2 ^ 31
nonneg u32 = 2 ^ 32

-- The values of a type.
abbrev pub IsOf : NumType → ℤ → Type 0
IsOf t (pos n) = n < nonneg t
IsOf t (negsuc n) = n < modulus t - nonneg t

-- `i as $t`, for a u32 i: the low bits, read as a value of the type.
unfoldable pub cast : NumType → ℕ → ℤ
cast t i = let w = i % modulus t in if ltb w (nonneg t) then pos w else negsuc (modulus t - 1 - w)

unfoldable pub num_encode : ℤ → EncodedErr
num_encode z = num (as_u32 z)

module _ (max_fn : NumType → ℕ) where
  pub num_decode : NumType → RawErr → Option ℤ
  num_decode t (raw_num i) = if leb i (max_fn t) then some (cast t i) else none
  num_decode t (raw_buf b) = none

  unfoldable pub num_codec : NumType → RpcErrCodec ℤ
  num_codec t = record { encode = num_encode; decode = num_decode t }

-- `Errno`, of a crate that is not here: its values as an i32 and back are parameters.
module _ {E : Type 0} (to_raw : E → ℤ) (from_raw : ℤ → E) (max_fn : NumType → ℕ) where
  pub errno_decode : RawErr → Option E
  errno_decode (raw_num i) = if leb i (max_fn i32) then some (from_raw (as_i32 i)) else none
  errno_decode (raw_buf b) = none

  pub errno_codec : RpcErrCodec E
  unfolding errno_decode
  errno_codec = record { encode = λ e. num (as_u32 (to_raw e)); decode = errno_decode }

unit_decode : RawErr → Option (Unit {0})
unit_decode (raw_num i) = if i == 0 then some tt else none
unit_decode (raw_buf b) = none

pub unit_codec : RpcErrCodec (Unit {0})
unfolding unit_decode
unit_codec = record { encode = λ _. num 0; decode = unit_decode }

string_decode : RawErr → Option (List ℕ)
string_decode (raw_num i) = none
string_decode (raw_buf b) = from_utf8 b

pub string_codec : RpcErrCodec (List ℕ)
unfolding string_decode
string_codec = record { encode = buf; decode = string_decode }

pub cast-as_u32 : (t : NumType) (z : ℤ) → IsOf t z → cast t (as_u32 z) ≡ z
unfolding cast
cast-as_u32 i8 (pos n) h = ground arith
cast-as_u32 u8 (pos n) h = ground arith
cast-as_u32 i16 (pos n) h = ground arith
cast-as_u32 u16 (pos n) h = ground arith
cast-as_u32 i32 (pos n) h = ground arith
cast-as_u32 u32 (pos n) h = ground arith
cast-as_u32 i8 (negsuc n) h = ground arith
cast-as_u32 u8 (negsuc n) h = ground arith
cast-as_u32 i16 (negsuc n) h = ground arith
cast-as_u32 u16 (negsuc n) h = ground arith
cast-as_u32 i32 (negsuc n) h = ground arith
cast-as_u32 u32 (negsuc n) h = ground arith

-- The form in which the client's transport hands an encoded error on.
abbrev pub raw_of : EncodedErr → Option RawErr
raw_of (rpc e) = none
raw_of (num n) = some (raw_num n)
raw_of (static s) = some (raw_buf s)
raw_of (buf b) = some (raw_buf b)
