-- ===== src/Prelude/Text.antt =====
-- C strings as lists of bytes without their NUL.
use Prim.Native.Nat.{ℕ}
use mathlib.Core.Path.{◌≡◌, refl}
use mathlib.Core.Logic.{◌≢◌}
use mathlib.Core.Bool.{Bool, true, false}
use mathlib.Core.List.{List, [], ◌∷◌}
use native.Mathlib.Omega.{arith}
use model_lib.Prelude.{◌==◌, if◌then◌else◌}

abbrev pub Text : Type 0
Text = List ℕ

-- The test `!strcmp(a, b)`.
unfoldable pub same : Text → Text → Bool
same [] [] = true
same [] (b ∷ ys) = false
same (a ∷ xs) [] = false
same (a ∷ xs) (b ∷ ys) = let rest = same xs ys in if a == b then rest else false

pub same_self : (a : Text) → same a a ≡ true
unfolding same
same_self [] = refl
same_self (a ∷ xs) = ground (arith, same_self xs)

pub same_eq : (a b : Text) → same a b ≡ true → a ≡ b
unfolding same
same_eq [] [] h = refl
same_eq [] (b ∷ ys) h = cc
same_eq (a ∷ xs) [] h = cc
same_eq (a ∷ xs) (b ∷ ys) h = ground (arith, same_eq xs ys)

-- What `%s` prints of the bytes in a buffer, a NUL behind them.
unfoldable pub until_nul : List ℕ → Text
until_nul [] = []
until_nul (b ∷ ys) = let rest = until_nul ys in if b == 0 then [] else b ∷ rest

-- No byte is NUL, as in every argument of a program.
abbrev pub IsText : List ℕ → Type 0
IsText [] = Unit {0}
IsText (b ∷ ys) = (b ≢ 0) × IsText ys

pub until_nul_text : (t : Text) → IsText t → until_nul t ≡ t
unfolding until_nul
until_nul_text [] h = refl
until_nul_text (b ∷ ys) (h, hs) = ground (arith, until_nul_text ys hs)

-- No byte is a newline.
abbrev pub NoNewline : List ℕ → Type 0
NoNewline [] = Unit {0}
NoNewline (b ∷ ys) = (b ≢ 10) × NoNewline ys
