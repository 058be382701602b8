-- ===== src/Base/Text.antt =====
-- C strings as lists of bytes, with `strcmp` and the order that it decides.
use Prim.Native.Char.{code}
use Prim.Native.String.{String}
use confluent_kafka_python.Base.{ℕ, ◌≡◌, refl, List, [], ◌∷◌, arith, ltb, if◌then◌else◌}

abbrev pub Text : Type 0
Text = List ℕ

-- The bytes of an ASCII literal.
abbrev pub codes : String → Text
codes String.[] = []
codes (String.◌∷◌ c s) = code c ∷ codes s

-- The sign of `strcmp`.
pub data Sign : Type 0 where
  less same more : Sign

unfoldable pub strcmp : Text → Text → Sign
strcmp [] [] = same
strcmp [] (y ∷ ys) = less
strcmp (x ∷ xs) [] = more
strcmp (x ∷ xs) (y ∷ ys) =
    let rest = strcmp xs ys in if ltb x y then less else if ltb y x then more else rest

abbrev pub flip : Sign → Sign
flip less = more
flip same = same
flip more = less

pub strcmp_self : (s : Text) → strcmp s s ≡ same
unfolding strcmp
strcmp_self [] = refl
strcmp_self (x ∷ xs) = ground (arith, strcmp_self xs)

pub eq_of_strcmp : (s t : Text) → strcmp s t ≡ same → s ≡ t
unfolding strcmp
eq_of_strcmp [] [] h = refl
eq_of_strcmp [] (y ∷ ys) h = cc
eq_of_strcmp (x ∷ xs) [] h = cc
eq_of_strcmp (x ∷ xs) (y ∷ ys) h = ground (arith, eq_of_strcmp xs ys)

pub strcmp-flip : (s t : Text) → strcmp t s ≡ flip (strcmp s t)
unfolding strcmp
strcmp-flip [] [] = refl
strcmp-flip [] (y ∷ ys) = refl
strcmp-flip (x ∷ xs) [] = refl
strcmp-flip (x ∷ xs) (y ∷ ys) = ground (arith, strcmp-flip xs ys)

pub strcmp_trans : (s t u : Text) → strcmp s t ≡ less → strcmp t u ≡ less → strcmp s u ≡ less
unfolding strcmp
strcmp_trans [] [] u h g = cc
strcmp_trans [] (y ∷ ys) [] h g = cc
strcmp_trans [] (y ∷ ys) (z ∷ zs) h g = refl
strcmp_trans (x ∷ xs) [] u h g = cc
strcmp_trans (x ∷ xs) (y ∷ ys) [] h g = cc
strcmp_trans (x ∷ xs) (y ∷ ys) (z ∷ zs) h g = ground (arith, strcmp_trans xs ys zs)
