-- ===== src/Error.antt =====
-- core/src/error.rs: the internal errors of the framework, the error that a call returns to the
-- user, and the form in which an error crosses the transport.
pub mod Text
pub mod Codes
pub mod Numbers
pub mod Equality
use Prim.Native.String.{String}
use Prim.Native.Char.{code}
use occams_rpc.Base.{
  ℕ, zero, suc, ◌≡◌, refl, Bool, true, false, Option, none, some, List, [], ◌∷◌, ltb, ◌==◌,
  if◌then◌else◌, ◌&&◌,
}
use Text.{codes, bytes_eq, from_utf8}

-- `RpcIntErr`, in the order of its discriminants.
pub data RpcIntErr : Type 0 where
  unreachable io timeout method service encode decode internal version : RpcIntErr

-- The discriminant, by which the derived `PartialOrd` compares.
abbrev pub discriminant : RpcIntErr → ℕ
discriminant unreachable = 0
discriminant io = 1
discriminant timeout = 2
discriminant method = 3
discriminant service = 4
discriminant encode = 5
discriminant decode = 6
discriminant internal = 7
discriminant version = 8

abbrev pub int_err_lt : RpcIntErr → RpcIntErr → Bool
int_err_lt a b = ltb (discriminant a) (discriminant b)

abbrev pub int_err_eq : RpcIntErr → RpcIntErr → Bool
int_err_eq a b = discriminant a == discriminant b

-- `RPC_ERR_PREFIX`
abbrev pub rpc_err_prefix : List ℕ
rpc_err_prefix = codes "rpc_"

-- `as_bytes`: the text that each variant is serialized to.
abbrev pub as_bytes : RpcIntErr → List ℕ
as_bytes unreachable = codes "rpc_unreachable"
as_bytes io = codes "rpc_io_err"
as_bytes timeout = codes "rpc_timeout"
as_bytes method = codes "rpc_method_notfound"
as_bytes service = codes "rpc_service_notfound"
as_bytes encode = codes "rpc_encode"
as_bytes decode = codes "rpc_decode"
as_bytes internal = codes "rpc_internal_err"
as_bytes version = codes "rpc_invalid_ver"

abbrev pub variants : List RpcIntErr
variants = unreachable ∷ io ∷ timeout ∷ method ∷ service ∷ encode ∷ decode ∷ internal ∷ version ∷ []

pub find_text : List ℕ → List RpcIntErr → Option RpcIntErr
find_text s [] = none
find_text s (e ∷ es) = if bytes_eq s (as_bytes e) then some e else find_text s es

-- `RpcIntErr::from_str`, which the `serialize` attributes give: the variant with this very text.
unfoldable pub from_str : List ℕ → Option RpcIntErr
unfolding find_text
from_str s = find_text s variants

-- `EncodedErr`: what the transport carries. Texts are their UTF-8 bytes.
pub data EncodedErr : Type 0 where
  rpc : RpcIntErr → EncodedErr
  num : ℕ → EncodedErr
  static : List ℕ → EncodedErr
  buf : List ℕ → EncodedErr

-- `try_as_str`; `none` is the `Err(())`.
unfoldable pub try_as_str : EncodedErr → Option (List ℕ)
try_as_str (static s) = some s
try_as_str (buf b) = from_utf8 b
try_as_str (rpc e) = none
try_as_str (num n) = none

-- `RpcError<E>`: what a call returns to the user.
pub data RpcError (E : Type 0) : Type 0 where
  user : E → RpcError E
  int_err : RpcIntErr → RpcError E

-- What a decoder of user errors is given: the `Result<u32, &[u8]>`.
pub data RawErr : Type 0 where
  raw_num : ℕ → RawErr
  raw_buf : List ℕ → RawErr
