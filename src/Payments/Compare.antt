-- ===== src/Payments/Compare.antt =====
-- A comparison of texts piece by piece, at which the theorems about webhooks apply.
use Prim.Native.Char.{code}
use tasker_api.Prelude.{
  ℤ, pos, ◌≡◌, refl, Bool, true, false, ◌&&◌, String, [], ◌∷◌, ◌==◌, ==_refl, arith,
}
use tasker_api.Models.{Text, Piece, lit, shown, naira, stripped}

abbrev same_string : String → String → Bool
same_string String.[] String.[] = true
same_string (String.◌∷◌ c s) (String.◌∷◌ d t) = code c == code d && same_string s t
same_string _ _ = false

-- The integers of two amounts.
abbrev same_int : ℤ → ℤ → Bool
same_int (pos m) (pos n) = m == n
same_int (ℤ.negsuc m) (ℤ.negsuc n) = m == n
same_int _ _ = false

abbrev same_piece : Piece → Piece → Bool
same_piece (lit s) (lit t) = same_string s t
same_piece (shown m) (shown n) = m == n
same_piece (naira a) (naira b) = same_int a b
same_piece (stripped s) (stripped t) = same_string s t
same_piece _ _ = false

abbrev pub same_text : Text → Text → Bool
same_text [] [] = true
same_text (p ∷ ps) (q ∷ qs) = same_piece p q && same_text ps qs
same_text _ _ = false

same_string_refl : (s : String) → same_string s s ≡ true
same_string_refl String.[] = refl
same_string_refl (String.◌∷◌ c s) = ground (arith, same_string_refl s)

same_piece_refl : (p : Piece) → same_piece p p ≡ true
same_piece_refl (lit s) = same_string_refl s
same_piece_refl (shown n) = ==_refl n
same_piece_refl (naira (pos n)) = ==_refl n
same_piece_refl (naira (ℤ.negsuc n)) = ==_refl n
same_piece_refl (stripped s) = same_string_refl s

pub same_text_refl : (t : Text) → same_text t t ≡ true
same_text_refl [] = refl
same_text_refl (p ∷ ps) = ground (arith, same_piece_refl p, same_text_refl ps)
