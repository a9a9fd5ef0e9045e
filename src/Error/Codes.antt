-- ===== src/Error/Codes.antt =====
-- The texts of `RpcIntErr` (core/src/error.rs), read back.
use occams_rpc.Base.{
  ◌≡◌, refl, sym, ap, ◌∙◌, ◌↔◌, inl, inr, true, some, ℕ, List, [], ◌∷◌, arith, Bool-cases,
}
use occams_rpc.Error.{
  RpcIntErr, unreachable, as_bytes, rpc_err_prefix, from_str, find_text, variants,
}
use occams_rpc.Error.Text.{bytes_eq, bytes_eq_sound, starts_with}

pub from_str-as_bytes : (e : RpcIntErr) → from_str (as_bytes e) ≡ some e
unfolding from_str
from_str-as_bytes unreachable = refl
from_str-as_bytes _ = refl

find_text_sound :
    (s : List ℕ) (es : List RpcIntErr) (e : RpcIntErr) → find_text s es ≡ some e → s ≡ as_bytes e
unfolding find_text
find_text_sound s [] e h = ground arith
find_text_sound s (x ∷ es) e h = elim (Bool-cases (bytes_eq s (as_bytes x))) [
  | inl same ↦ ground (arith, bytes_eq_sound s (as_bytes x) same)
  | inr other ↦ find_text_sound s es e (ground arith)
]

-- Parsing an error's text is exact: a text is read as the error `e` if and only if it is the very
-- text that `e` is written as.
pub from_str_iff : (s : List ℕ) (e : RpcIntErr) → (from_str s ≡ some e) ↔ (s ≡ as_bytes e)
unfolding from_str
from_str_iff s e = (find_text_sound s variants e, λ h. rw h (from_str-as_bytes e))

-- Every internal error carries the reserved prefix, by which a client tells it from a user's.
pub starts_with-as_bytes : (e : RpcIntErr) → starts_with (as_bytes e) rpc_err_prefix ≡ true
starts_with-as_bytes unreachable = refl
starts_with-as_bytes _ = refl

-- Two internal errors with one text are the same.
pub as_bytes_injective : (d e : RpcIntErr) → as_bytes d ≡ as_bytes e → d ≡ e
as_bytes_injective d e h =
    let p : some d ≡ some e = sym (from_str-as_bytes d) ∙ (ap from_str h ∙ from_str-as_bytes e) in
    cc
