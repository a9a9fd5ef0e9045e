-- ===== src/Error/Numbers/RoundTrip.antt =====
-- What the error codecs of core/src/error.rs carry from one side to the other.
use occams_rpc.Base.{ℕ, ◌+◌, ◌≤◌, ◌≡◌, refl, Option, none, some, List, arith, leb, if◌then◌else◌}
use occams_rpc.Base.Int.{ℤ, as_u32}
use occams_rpc.Error.{raw_num}
use occams_rpc.Error.Text.{is_utf8, from_utf8}
use occams_rpc.Error.Numbers.{
  RpcErrCodec, NumType, i8, u8, i16, u16, i32, u32, modulus, IsOf, cast, cast-as_u32, num_encode,
  num_decode, num_codec, string_codec, string_decode, raw_of,
}

unfoldable pub opt_bind : {A B : Type 0} → Option A → (A → Option B) → Option B
opt_bind none f = none
opt_bind (some a) f = f a

-- A user's error, encoded on one side and decoded on the other.
unfoldable pub carried : {E : Type 0} → RpcErrCodec E → E → Option E
unfolding opt_bind
carried c e = opt_bind (raw_of (c.encode e)) c.decode

-- A number of one of the six types comes back exactly if its bit pattern as a u32 is at most the
-- number that `$t::max as u32` is, and is refused otherwise.
pub carried-num_codec :
    (max_fn : NumType → ℕ) (t : NumType) (z : ℤ)
    → IsOf t z
    → carried (num_codec max_fn t) z ≡ (if leb (as_u32 z) (max_fn t) then some z else none)
unfolding carried num_codec num_encode num_decode
carried-num_codec max_fn t z h = rw (cast-as_u32 t z h)

cast-modulus : (t : NumType) (i : ℕ) → cast t (i + modulus t) ≡ cast t i
unfolding cast
cast-modulus i8 i = ground arith
cast-modulus u8 i = ground arith
cast-modulus i16 i = ground arith
cast-modulus u16 i = ground arith
cast-modulus i32 i = ground arith
cast-modulus u32 i = ground arith

-- A code that does not fit the type is not refused: as long as it is at most the number that
-- `$t::max as u32` is, it is decoded as the code that is smaller by the type's modulus.
pub num_decode_wraps :
    (max_fn : NumType → ℕ) (t : NumType) (i : ℕ)
    → i + modulus t ≤ max_fn t
    → num_decode max_fn t (raw_num (i + modulus t)) ≡ num_decode max_fn t (raw_num i)
unfolding num_decode
num_decode_wraps max_fn t i h = ground (arith, cast-modulus t i)

-- A text comes back if it is valid UTF-8, as every Rust `String` is, and is refused otherwise.
pub carried-string_codec :
    (s : List ℕ) → carried string_codec s ≡ (if is_utf8 s then some s else none)
unfolding carried string_codec string_decode from_utf8
carried-string_codec s = refl
