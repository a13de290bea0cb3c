-- ===== src/Prelude/Texts.antt =====
-- Texts as lists of code points: literals, and the tests `in`, `startswith` and `endswith`.
use Prim.Native.Char.{code}
use Prim.Native.String.{String}
use mathlib.Core.Path.{◌≡◌, refl}
use mathlib.Core.Bool.{Bool, true, false, ◌&&◌, ◌||◌}
use mathlib.Core.List.{[], ◌∷◌, ◌++◌}
use native.Mathlib.Omega.{arith}
use nipo_science.Prelude.Tests.{Text, ◌==◌, nat_eq, text_eq}

-- The code points of a literal.
abbrev pub codes : String → Text
codes String.[] = []
codes (String.◌∷◌ c s) = code c ∷ codes s

-- `text.startswith(needle)`
unfoldable pub starts_with : Text → Text → Bool
starts_with [] text = true
starts_with (n ∷ needle) [] = false
starts_with (n ∷ needle) (c ∷ text) = n == c && starts_with needle text

-- `needle in text`
unfoldable pub occurs : Text → Text → Bool
unfolding starts_with
occurs needle [] = starts_with needle []
occurs needle (c ∷ text) = starts_with needle (c ∷ text) || occurs needle text

-- `text.endswith(needle)`: the needle is the text or ends the rest of it.
unfoldable pub ends_with : Text → Text → Bool
ends_with needle [] = needle == []
ends_with needle (c ∷ text) = needle == (c ∷ text) || ends_with needle text

pub starts_with-append : (needle rest : Text) → starts_with needle (needle ++ rest) ≡ true
unfolding starts_with
starts_with-append [] rest = refl
starts_with-append (n ∷ needle) rest = ground (arith, starts_with-append needle rest)

pub occurs-append : (pre needle post : Text) → occurs needle (pre ++ needle ++ post) ≡ true
unfolding occurs
occurs-append [] [] [] = refl
occurs-append [] [] (c ∷ post) = refl
occurs-append [] (n ∷ needle) post = ground (arith, starts_with-append (n ∷ needle) post)
occurs-append (c ∷ pre) needle post = ground (arith, occurs-append pre needle post)

pub ends_with-append : (pre needle : Text) → ends_with needle (pre ++ needle) ≡ true
unfolding ends_with
ends_with-append [] [] = ground arith
ends_with-append [] (n ∷ needle) = ground arith
ends_with-append (c ∷ pre) needle = ground (arith, ends_with-append pre needle)
