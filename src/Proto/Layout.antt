-- ===== src/Proto/Layout.antt =====
-- The bytes of the fixed heads of stream/src/proto.rs. The little-endian fields are those of the
-- crate `zerocopy`, which is not here: how a number lies in bytes is a parameter, with its two laws.
use occams_rpc.Base.{
  slice, ℕ, zero, suc, ◌+◌, ◌*◌, ◌/◌, ◌%◌, ◌^◌, ◌<◌, ◌≡◌, refl, sym, ap, ◌∙◌, List, [], ◌∷◌, ◌++◌,
  arith, length, take, drop, take-append_length, drop-append_length, drop-drop, length-append,
}
use native.Mathlib.Nat.{pow-suc}

pub record ByteOrder : Type 0 where
  -- The bytes of a number in a field of this many bytes.
  pub put : ℕ → ℕ → List ℕ
  pub get : List ℕ → ℕ
  pub length-put : (w v : ℕ) → length (put w v) ≡ w
  pub get-put : (w v : ℕ) → v < 256 ^ w → get (put w v) ≡ v

-- A field at the front of what is left.
pub slice-here : (n : ℕ) (x rest : List ℕ) → length x ≡ n → slice 0 n (x ++ rest) ≡ x
slice-here n x rest h = take-append_length n x rest h

-- A field behind another one.
pub slice-skip :
    (n off len : ℕ) (x rest : List ℕ)
    → length x ≡ n
    → slice (n + off) len (x ++ rest) ≡ slice off len rest
slice-skip n off len x rest h =
    ap (take len)
      (sym (drop-drop n off (x ++ rest)) ∙ ap (drop off) (drop-append_length n x rest h))

-- The bytes that a row of fields takes, and the bytes themselves: a packed struct has no padding.
abbrev pub width : List (ℕ × ℕ) → ℕ
width [] = 0
width ((w, v) ∷ fs) = w + width fs

abbrev pub Fits : List (ℕ × ℕ) → Type 0
Fits [] = Unit {0}
Fits ((w, v) ∷ fs) = (v < 256 ^ w) × Fits fs

module _ (le : ByteOrder) where
  open le use {put, get, length-put, get-put}

  abbrev pub pack : List (ℕ × ℕ) → List ℕ
  pack [] = []
  pack ((w, v) ∷ fs) = put w v ++ pack fs

  pub length-pack : (fs : List (ℕ × ℕ)) → length (pack fs) ≡ width fs
  length-pack [] = refl
  length-pack ((w, v) ∷ fs) =
      omega (arith, length-append (put w v) (pack fs), length-put w v, length-pack fs)

  slice-pack :
      (before : List (ℕ × ℕ)) (w v : ℕ) (after : List (ℕ × ℕ))
      → slice (width before) w (pack (before ++ ((w, v) ∷ after))) ≡ put w v
  slice-pack [] w v after = slice-here w (put w v) (pack after) (length-put w v)
  slice-pack ((u, x) ∷ before) w v after =
      slice-skip u (width before) w (put u x) (pack (before ++ ((w, v) ∷ after))) (length-put u x)
      ∙ slice-pack before w v after

  -- A field is read back at the offset that the fields before it take up.
  pub get-pack :
      (before : List (ℕ × ℕ)) (w v : ℕ) (after : List (ℕ × ℕ))
      → v < 256 ^ w
      → get (slice (width before) w (pack (before ++ ((w, v) ∷ after)))) ≡ v
  get-pack before w v after h = ap get (slice-pack before w v after) ∙ get-put w v h

-- Little-endian numbers: the parameter can be given.
pub le_put : ℕ → ℕ → List ℕ
le_put zero v = []
le_put (suc w) v = (v % 256) ∷ le_put w (v / 256)

pub le_get : List ℕ → ℕ
le_get [] = 0
le_get (b ∷ bs) = b + 256 * le_get bs

pub length-le_put : (w v : ℕ) → length (le_put w v) ≡ w
unfolding le_put
length-le_put zero v = refl
length-le_put (suc w) v = ap suc (length-le_put w (v / 256))

pub le_get-le_put : (w v : ℕ) → v < 256 ^ w → le_get (le_put w v) ≡ v
unfolding le_get le_put
le_get-le_put zero v h = omega arith
le_get-le_put (suc w) v h = omega (arith, le_get-le_put w (v / 256) (omega (arith, pow-suc 256 w)))

unfoldable pub little_endian : ByteOrder
unfolding le_put le_get
little_endian = record {
  put = le_put;
  get = le_get;
  length-put = length-le_put;
  get-put = le_get-le_put;
}
