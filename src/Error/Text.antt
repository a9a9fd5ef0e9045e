-- ===== src/Error/Text.antt =====
-- The texts of core/src/error.rs: a string is its bytes in UTF-8, and `str::from_utf8` is the
-- standard library's validation of them.

use Prim.Native.String.{String}
use Prim.Native.Char.{code}
use occams_rpc.Base.{
  ℕ, ◌≡◌, refl, Bool, true, false, Option, none, some, List, [], ◌∷◌, leb, ◌==◌, if◌then◌else◌,
  ◌&&◌, arith,
}

-- The bytes of an ASCII text.
abbrev pub codes : String → List ℕ
codes String.[] = []
codes (String.◌∷◌ c s) = code c ∷ codes s

abbrev pub bytes_eq : List ℕ → List ℕ → Bool
bytes_eq [] [] = true
bytes_eq [] (y ∷ ys) = false
bytes_eq (x ∷ xs) [] = false
bytes_eq (x ∷ xs) (y ∷ ys) = x == y && bytes_eq xs ys

pub bytes_eq_refl : (xs : List ℕ) → bytes_eq xs xs ≡ true
bytes_eq_refl [] = refl
bytes_eq_refl (x ∷ xs) = ground (arith, bytes_eq_refl xs)

pub bytes_eq_sound : (xs ys : List ℕ) → bytes_eq xs ys ≡ true → xs ≡ ys
bytes_eq_sound [] [] h = refl
bytes_eq_sound [] (y ∷ ys) h = ground arith
bytes_eq_sound (x ∷ xs) [] h = ground arith
bytes_eq_sound (x ∷ xs) (y ∷ ys) h = ground (arith, bytes_eq_sound xs ys)

-- `starts_with` of byte slices.
abbrev pub starts_with : List ℕ → List ℕ → Bool
starts_with xs [] = true
starts_with [] (p ∷ ps) = false
starts_with (x ∷ xs) (p ∷ ps) = x == p && starts_with xs ps

abbrev in_range : ℕ → ℕ → ℕ → Bool
in_range lo hi b = leb lo b && leb b hi

-- The range of the second byte of a sequence of three or four.
second_of_three : ℕ → ℕ → Bool
second_of_three a b =
    if a == 0xe0
    then in_range 0xa0 0xbf b
    else if a == 0xed
    then in_range 0x80 0x9f b
    else in_range 0x80 0xbf b

second_of_four : ℕ → ℕ → Bool
second_of_four a b =
    if a == 0xf0
    then in_range 0x90 0xbf b
    else if a == 0xf4
    then in_range 0x80 0x8f b
    else in_range 0x80 0xbf b

-- A multi-byte sequence is read in one go, byte by byte: `expect` holds the tests that the next
-- bytes have to pass.
utf8_from : List (ℕ → Bool) → List ℕ → Bool
unfolding second_of_three second_of_four
utf8_from [] [] = true
utf8_from (t ∷ ts) [] = false
utf8_from (t ∷ ts) (b ∷ bs) = t b && utf8_from ts bs
utf8_from [] (b ∷ bs) =
    leb b 0xf4
    && utf8_from
        (if leb b 0x7f
          then []
          else if in_range 0xc2 0xdf b
          then in_range 0x80 0xbf ∷ []
          else if in_range 0xe0 0xef b
          then second_of_three b ∷ in_range 0x80 0xbf ∷ []
          else if in_range 0xf0 0xf4 b
          then second_of_four b ∷ in_range 0x80 0xbf ∷ in_range 0x80 0xbf ∷ []
          else (λ _. false) ∷ [])
        bs

unfoldable pub is_utf8 : List ℕ → Bool
unfolding utf8_from
is_utf8 b = utf8_from [] b

-- `str::from_utf8`, on bytes: the same bytes, if they are valid.
unfoldable pub from_utf8 : List ℕ → Option (List ℕ)
unfolding is_utf8
from_utf8 b = if is_utf8 b then some b else none
