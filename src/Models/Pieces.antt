-- ===== src/Models/Pieces.antt =====
-- Texts. An f-string is kept as the list of its pieces, whose concatenation is the text, so that a
-- text built from an id still shows the id. An id is a uuid4, read as its 128-bit number; the code
-- only compares ids and prints them. `naira` is the price that `to_naira` prints, and `stripped`
-- the text without the white space at its ends.
use Prim.Native.Char.{code}
use tasker_api.Prelude.{
  ◌==◌, leb, ◌&&◌, ◌||◌, ℕ, ℤ, Bool, true, false, Option, none, some, String, List, [], ◌∷◌,
}

pub data Piece : Type 0 where
  lit : String → Piece
  shown : ℕ → Piece
  naira : ℤ → Piece
  stripped : String → Piece

abbrev pub Text : Type 0
Text = List Piece

abbrev pub text : String → Text
text s = lit s ∷ []

-- Python's truth value of a text: a text is false if it is empty.
abbrev pub is_empty : String → Bool
is_empty String.[] = true
is_empty (String.◌∷◌ c s) = false

-- `str.isspace` of a code point, and `s.strip() == ""`.
unfoldable pub is_space : ℕ → Bool
is_space c =
    (leb 0x09 c && leb c 0x0d)
    || (leb 0x1c c && leb c 0x20)
    || c == 0x85
    || c == 0xa0
    || c == 0x1680
    || (leb 0x2000 c && leb c 0x200a)
    || c == 0x2028
    || c == 0x2029
    || c == 0x202f
    || c == 0x205f
    || c == 0x3000

abbrev pub is_ascii : String → Bool
is_ascii String.[] = true
is_ascii (String.◌∷◌ c s) = leb (code c) 0x7f && is_ascii s

unfoldable pub is_blank : String → Bool
unfolding is_space
is_blank String.[] = true
is_blank (String.◌∷◌ c s) = is_space (code c) && is_blank s

abbrev pub truthy : Text → Bool
truthy [] = false
truthy (lit s ∷ rest) = elim (is_empty s) [ true ↦ truthy rest | false ↦ true ]
truthy (stripped s ∷ rest) = elim (is_blank s) [ true ↦ truthy rest | false ↦ true ]
truthy (shown n ∷ rest) = true
truthy (naira n ∷ rest) = true

-- `not value.strip()`
abbrev pub is_blank_text : Text → Bool
is_blank_text [] = true
is_blank_text (lit s ∷ rest) = is_blank s && is_blank_text rest
is_blank_text (stripped s ∷ rest) = is_blank s && is_blank_text rest
is_blank_text (shown n ∷ rest) = false
is_blank_text (naira n ∷ rest) = false

-- `value or default`
abbrev pub or_text : Option Text → Text → Text
or_text none d = d
or_text (some t) d = elim (truthy t) [ true ↦ t | false ↦ d ]
