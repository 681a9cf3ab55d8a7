-- ===== src/Design/Colors.antt =====
-- Luminance and contrast of hex colours: `_relative_luminance`, `_palette_is_dark`, `_contrast_ratio`.
use Prim.Native.String.{[], ◌∷◌}
use enterprise_angular_nest.Base.{
  ℕ, ◌+◌, ◌*◌, ◌-◌, Bool, true, false, Char, code, String, ◌==◌, Option, none, some, eqb, leb, ◌&&◌,
  if◌then◌else◌,
}
use enterprise_angular_nest.Base.Text.{Unicode, strip, strip_left}
use enterprise_angular_nest.Base.Floats.{Floats}
use enterprise_angular_nest.Search.Rows.{Row, text_of}

-- `decimal` gives the value of a decimal digit, of whatever script; a hex digit is one, or a letter.
module _ (u : Unicode) (decimal : Char → Option ℕ) where
  abbrev pub or_letter : Char → Option ℕ → Option ℕ
  or_letter c (some n) = some n
  or_letter c none =
      if leb b'a' (code c) && leb (code c) b'f'
      then some (code c - b'a' + 10)
      else if leb b'A' (code c) && leb (code c) b'F'
      then some (code c - b'A' + 10)
      else none

  abbrev pub hex_digit : Char → Option ℕ
  hex_digit c = or_letter c (decimal c)

  abbrev pub two_digits : Option ℕ → Option ℕ → Option (Bool × ℕ)
  two_digits (some m) (some n) = some (false, m * 16 + n)
  two_digits _ n = none

  abbrev pub signed : Bool → Option ℕ → Option (Bool × ℕ)
  signed minus none = none
  signed minus (some n) = some (minus, n)

  -- `int(text, 16)` on a text of two characters, as a sign and a magnitude: two digits, or one digit
  -- with a sign before it or with space beside it
  abbrev pub int16 : Char → Char → Option (Bool × ℕ)
  int16 c d =
      if eqb (code c) b'-'
      then signed true (hex_digit d)
      else if eqb (code c) b'+'
      then signed false (hex_digit d)
      else if u.is_space c
      then signed false (hex_digit d)
      else if u.is_space d
      then signed false (hex_digit c)
      else two_digits (hex_digit c) (hex_digit d)

module _ (F : Floats) (u : Unicode) (decimal : Char → Option ℕ) where
  open F use {Float, of_nat, add, sub, mul, div, pow, lt}

  abbrev pub ratio : ℕ → ℕ → Float
  ratio n d = div (of_nat n) (of_nat d)

  abbrev pub of_signed : Bool × ℕ → Float
  of_signed (true, n) = sub (of_nat 0) (of_nat n)
  of_signed (false, n) = of_nat n

  -- an sRGB channel, made linear
  abbrev pub linear : Float → Float
  linear c =
      if lt (ratio 4045 100000) c
      then pow (div (add c (ratio 55 1000)) (ratio 1055 1000)) (ratio 24 10)
      else div c (ratio 1292 100)

  abbrev pub channel : Bool × ℕ → Float
  channel n = linear (div (of_signed n) (of_nat 255))

  abbrev pub weigh : Option (Bool × ℕ) → Option (Bool × ℕ) → Option (Bool × ℕ) → Option Float
  weigh (some r) (some g) (some b) = some (
      add (add (mul (ratio 2126 10000) (channel r)) (mul (ratio 7152 10000) (channel g)))
        (mul (ratio 722 10000) (channel b)))
  weigh _ _ b = none

  -- the channels of six characters; three stand for six
  abbrev pub luminance_of : String → Option Float
  luminance_of (a ∷ (b ∷ (c ∷ []))) =
      weigh (int16 u decimal a a) (int16 u decimal b b) (int16 u decimal c c)
  luminance_of (a ∷ (b ∷ (c ∷ (d ∷ (e ∷ (f ∷ [])))))) =
      weigh (int16 u decimal a b) (int16 u decimal c d) (int16 u decimal e f)
  luminance_of _ = none

  -- `_relative_luminance`, of a colour that may be missing
  unfoldable pub relative_luminance : Option String → Option Float
  unfolding strip
  relative_luminance none = none
  relative_luminance (some color) =
      if color == ""
      then none
      else luminance_of (strip_left (λ c. eqb (code c) b'#') (strip u.is_space color))

  abbrev pub below : Float → Option Float → Bool
  below limit none = false
  below limit (some luminance) = lt luminance limit

  -- `_DARK_BACKGROUND_MAX_LUMINANCE`
  abbrev pub dark_max : Float
  dark_max = ratio 18 100

  abbrev pub is_dark_color : String → Bool
  is_dark_color color = below dark_max (relative_luminance (some color))

  -- `_palette_is_dark`
  unfoldable pub palette_is_dark : Row → Bool
  unfolding relative_luminance
  palette_is_dark palette = is_dark_color (text_of "Background" palette)

  -- `max` and `min` of two floats: the first, unless the second is beyond it
  abbrev pub contrast_of : Option Float → Option Float → Option Float
  contrast_of (some a) (some b) = some (
      div (add (if lt a b then b else a) (ratio 5 100))
        (add (if lt b a then b else a) (ratio 5 100)))
  contrast_of _ b = none

  -- `_contrast_ratio`
  unfoldable pub contrast_ratio : Option String → Option String → Option Float
  unfolding relative_luminance
  contrast_ratio first second = contrast_of (relative_luminance first) (relative_luminance second)
