-- ===== src/Error/Equality.antt =====
-- The comparisons of core/src/error.rs: `PartialEq` of `EncodedErr` and of `RpcError`.
use occams_rpc.Base.{ℕ, ◌≡◌, refl, ◌↔◌, Bool, true, false, Option, none, some, List, arith, ◌==◌}
use occams_rpc.Error.{
  RpcIntErr, EncodedErr, rpc, num, static, buf, try_as_str, int_err_eq, RpcError, user, int_err,
}
use occams_rpc.Error.Text.{bytes_eq, bytes_eq_refl, bytes_eq_sound, from_utf8, is_utf8}

opt_text_eq : List ℕ → Option (List ℕ) → Bool
opt_text_eq s none = false
opt_text_eq s (some o) = bytes_eq s o

-- The `Buf` arm for an `other` that is no `Buf`.
buf_other_eq : List ℕ → Option (List ℕ) → Bool
unfolding opt_text_eq
buf_other_eq s none = false
buf_other_eq s (some o) = opt_text_eq o (from_utf8 s)

-- `EncodedErr::eq`
pub encoded_eq : EncodedErr → EncodedErr → Bool
unfolding opt_text_eq buf_other_eq
encoded_eq (rpc e) (rpc o) = int_err_eq e o
encoded_eq (rpc e) _ = false
encoded_eq (num e) (num o) = e == o
encoded_eq (num e) _ = false
encoded_eq (static s) other = opt_text_eq s (try_as_str other)
encoded_eq (buf s) (buf o) = bytes_eq s o
encoded_eq (buf s) other = buf_other_eq s (try_as_str other)

-- What an encoded error says: where its text is kept does not matter.
pub data Said : Type 0 where
  said_rpc : RpcIntErr → Said
  said_num : ℕ → Said
  said_text : List ℕ → Said

abbrev pub said : EncodedErr → Said
said (rpc e) = said_rpc e
said (num n) = said_num n
said (static s) = said_text s
said (buf b) = said_text b

-- A `&'static str` holds valid UTF-8.
abbrev pub IsText : EncodedErr → Type 0
IsText (static s) = is_utf8 s ≡ true
IsText _ = Unit {0}

int_err_eq_sound : (d e : RpcIntErr) → int_err_eq d e ≡ true → d ≡ e
int_err_eq_sound d e h = ground arith

int_err_eq_refl : (e : RpcIntErr) → int_err_eq e e ≡ true
int_err_eq_refl e = ground arith

encoded_eq_sound :
    (a b : EncodedErr) → IsText a → IsText b → encoded_eq a b ≡ true → said a ≡ said b
unfolding encoded_eq try_as_str from_utf8
encoded_eq_sound (rpc e) (rpc o) s t h = ground (arith, int_err_eq_sound e o)
encoded_eq_sound (num e) (num o) s t h = ground arith
encoded_eq_sound (static x) (static y) s t h = ground (arith, bytes_eq_sound x y)
encoded_eq_sound (static x) (buf y) s t h = ground (arith, bytes_eq_sound x y)
encoded_eq_sound (buf x) (static y) s t h = ground (arith, bytes_eq_sound y x)
encoded_eq_sound (buf x) (buf y) s t h = ground (arith, bytes_eq_sound x y)
encoded_eq_sound _ _ s t h = cc

encoded_eq_complete :
    (a b : EncodedErr) → IsText a → IsText b → said a ≡ said b → encoded_eq a b ≡ true
unfolding encoded_eq try_as_str from_utf8
encoded_eq_complete (rpc e) (rpc o) s t h = ground (arith, int_err_eq_refl e)
encoded_eq_complete (num e) (num o) s t h = ground arith
encoded_eq_complete (static x) (static y) s t h = ground (arith, bytes_eq_refl x)
encoded_eq_complete (static x) (buf y) s t h = ground (arith, bytes_eq_refl x)
encoded_eq_complete (buf x) (static y) s t h = ground (arith, bytes_eq_refl x)
encoded_eq_complete (buf x) (buf y) s t h = ground (arith, bytes_eq_refl x)
encoded_eq_complete _ _ s t h = cc

-- Two encoded errors, whose static texts are valid UTF-8, are equal in the sense of the code if
-- and only if they say the same: the same internal error, the same number, or the same text,
-- wherever it is kept.
pub encoded_eq_iff :
    (a b : EncodedErr) → IsText a → IsText b → (encoded_eq a b ≡ true) ↔ (said a ≡ said b)
encoded_eq_iff a b s t = (encoded_eq_sound a b s t, encoded_eq_complete a b s t)

-- The three comparisons of `RpcError<E>`: with an internal error, with a user's error by the
-- user's own test, and with another `RpcError`.
module _ {E : Type 0} where
  pub eq_int_err : RpcError E → RpcIntErr → Bool
  eq_int_err (int_err r) o = int_err_eq r o
  eq_int_err (user e) o = false

module _ {E : Type 0} (user_eq : E → E → Bool) where
  pub eq_user : RpcError E → E → Bool
  eq_user (user r) o = user_eq r o
  eq_user (int_err r) o = false

  pub rpc_error_eq : RpcError E → RpcError E → Bool
  rpc_error_eq (int_err r) (int_err o) = int_err_eq r o
  rpc_error_eq (user r) (user o) = user_eq r o
  rpc_error_eq (int_err r) (user o) = false
  rpc_error_eq (user r) (int_err o) = false

  -- The comparison with a bare error is the comparison with that error wrapped, for internal
  -- errors and for the user's.
  pub rpc_error_eq_wrapped :
      (a : RpcError E) (i : RpcIntErr) (e : E)
      → (eq_int_err a i ≡ rpc_error_eq a (int_err i)) × (eq_user a e ≡ rpc_error_eq a (user e))
  unfolding eq_int_err eq_user rpc_error_eq
  rpc_error_eq_wrapped (user r) i e = (refl, refl)
  rpc_error_eq_wrapped (int_err r) i e = (refl, refl)
