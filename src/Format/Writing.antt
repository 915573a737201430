-- ===== src/Format/Writing.antt =====
-- What the macro `write!` does with numbers and text, as far as the crate uses it: a text is the list
-- of its code points, a format string the list of its pieces.
use Prim.Native.Char.{code}
use Prim.Native.String.{String}
use fastarena_rs.Base.{ℕ, zero, suc, ◌+◌, ◌/◌, ◌%◌, List, [], ◌∷◌, ◌++◌, ltb, if◌then◌else◌}

abbrev pub Text : Type 0
Text = List ℕ

-- The code points of a literal.
abbrev pub codes : String → Text
codes String.[] = []
codes (String.◌∷◌ c s) = code c ∷ codes s

-- Decimal digits, the last one from the remainder; `steps` bounds their number.
unfoldable pub digits : ℕ → ℕ → Text
digits zero n = []
digits (suc steps) n =
    let before = digits steps (n / 10) in
    if ltb n 10 then (b'0' + n) ∷ [] else before ++ ((b'0' + n % 10) ∷ [])

-- `Display for usize`: a word has at most 20 digits.
unfoldable pub decimal : ℕ → Text
unfolding digits
decimal n = digits 20 n

-- A format string: literal text, and `{}`.
pub data Piece : Type 0 where
  text : Text → Piece
  hole : Piece

-- Each hole takes one of the arguments, which the compiler counts.
unfoldable pub write : List Piece → List ℕ → Text
unfolding decimal
write [] args = []
write (text t ∷ ps) args = t ++ write ps args
write (hole ∷ ps) [] = []
write (hole ∷ ps) (n ∷ args) = decimal n ++ write ps args
