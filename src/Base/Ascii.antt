-- ===== src/Base/Ascii.antt =====
-- The ASCII part of the Unicode database, for runs on concrete texts.
use enterprise_angular_nest.Base.{
  ℕ, Bool, ◌||◌, ◌&&◌, Char, String, code, leb, eqb, if◌then◌else◌, List, [], ◌∷◌,
}
use enterprise_angular_nest.Base.Text.{Unicode}

abbrev letters : List (Char × Char)
letters =
    ("A", "a")
    ∷ ("B", "b")
    ∷ ("C", "c")
    ∷ ("D", "d")
    ∷ ("E", "e")
    ∷ ("F", "f")
    ∷ ("G", "g")
    ∷ ("H", "h")
    ∷ ("I", "i")
    ∷ ("J", "j")
    ∷ ("K", "k")
    ∷ ("L", "l")
    ∷ ("M", "m")
    ∷ ("N", "n")
    ∷ ("O", "o")
    ∷ ("P", "p")
    ∷ ("Q", "q")
    ∷ ("R", "r")
    ∷ ("S", "s")
    ∷ ("T", "t")
    ∷ ("U", "u")
    ∷ ("V", "v")
    ∷ ("W", "w")
    ∷ ("X", "x")
    ∷ ("Y", "y")
    ∷ ("Z", "z")
    ∷ []

abbrev lower_in : List (Char × Char) → Char → Char
lower_in [] c = c
lower_in ((upper, small) ∷ table) c = if eqb (code upper) (code c) then small else lower_in table c

abbrev lower_text : String → String
lower_text String.[] = ""
lower_text (String.◌∷◌ c s) = String.◌∷◌ (lower_in letters c) (lower_text s)

abbrev within : ℕ → ℕ → Char → Bool
within a b c = leb a (code c) && leb (code c) b

abbrev pub ascii : Unicode
ascii = record {
  is_word =
      λ c. within b'a' b'z' c || within b'A' b'Z' c || within b'0' b'9' c || eqb (code c) b'_';
  is_space = λ c. eqb (code c) 32 || within 9 13 c;
  same_letter = λ c d. eqb (code (lower_in letters c)) (code (lower_in letters d));
  lower = lower_text;
  casefold = lower_text;
}
