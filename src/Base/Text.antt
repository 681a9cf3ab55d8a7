-- ===== src/Base/Text.antt =====
-- Text over the native strings: substrings, whole words, splitting and joining. What Python takes
-- from the Unicode database (`\w`, `\s`, `re.IGNORECASE`, `lower`, `casefold`) is the parameter `Unicode`.
pub mod Strip
use Prim.Native.String.{[], ◌∷◌}
use mathlib.Core.List.{List}
use enterprise_angular_nest.Base.Tests.{eqb, if◌then◌else◌}
use Prim.Native.Nat.{ℕ, suc}
use Prim.Native.Char.{Char, code}
use Prim.Native.String.{String, ◌++◌ as ◌<>◌}
use mathlib.Core.Bool.{Bool, true, false, ◌&&◌, ◌||◌}
use text.Mathlib.Text.{◌==◌}

pub record Unicode : Type 0 where
  pub is_word : Char → Bool
  pub is_space : Char → Bool
  pub same_letter : Char → Char → Bool
  pub lower : String → String
  pub casefold : String → String

-- `len(s)`
abbrev pub size : String → ℕ
size [] = 0
size (c ∷ s) = suc (size s)

-- `s.startswith(p)`
abbrev pub is_prefix : String → String → Bool
is_prefix [] s = true
is_prefix (c ∷ p) [] = false
is_prefix (c ∷ p) (d ∷ s) = eqb (code c) (code d) && is_prefix p s

-- `p in s`
abbrev pub has_sub : String → String → Bool
has_sub p [] = is_prefix p []
has_sub p (c ∷ s) = is_prefix p (c ∷ s) || has_sub p s

-- `x in xs`
abbrev pub contains : List String → String → Bool
contains List.[] x = false
contains (List.◌∷◌ y ys) x = x == y || contains ys x

-- `sep.join(xs)`
abbrev pub join : String → List String → String
join sep List.[] = ""
join sep (List.◌∷◌ x List.[]) = x
join sep (List.◌∷◌ x (List.◌∷◌ y ys)) = x <> (sep <> join sep (List.◌∷◌ y ys))

-- `all(p(c) for c in s)`
abbrev pub all_chars : (Char → Bool) → String → Bool
all_chars p [] = true
all_chars p (c ∷ s) = p c && all_chars p s

abbrev pub add_word : String → List String → List String
add_word [] ws = ws
add_word (c ∷ w) ws = List.◌∷◌ (c ∷ w) ws

-- the word that the text begins with, and the words behind it
abbrev pub split_from : (Char → Bool) → String → String × List String
split_from space [] = ("", List.[])
split_from space (c ∷ s) =
    let (w, ws) = split_from space s in if space c then ("", add_word w ws) else (c ∷ w, ws)

-- `s.split()`
unfoldable pub split : (Char → Bool) → String → List String
split space s = let (w, ws) = split_from space s in add_word w ws

-- `s.lstrip()`
abbrev pub strip_left : (Char → Bool) → String → String
strip_left space [] = ""
strip_left space (c ∷ s) = if space c then strip_left space s else c ∷ s

abbrev pub add_char : (Char → Bool) → Char → String → String
add_char space c [] = if space c then "" else c ∷ ""
add_char space c (d ∷ s) = c ∷ (d ∷ s)

-- `s.rstrip()`
abbrev pub strip_right : (Char → Bool) → String → String
strip_right space [] = ""
strip_right space (c ∷ s) = add_char space c (strip_right space s)

-- `s.strip()`
unfoldable pub strip : (Char → Bool) → String → String
strip space s = strip_right space (strip_left space s)

abbrev put_first : Char → List String → List String
put_first c List.[] = List.◌∷◌ (c ∷ "") List.[]
put_first c (List.◌∷◌ w ws) = List.◌∷◌ (c ∷ w) ws

-- `s.split(sep)`, for a separator of one character
unfoldable pub split_on : Char → String → List String
split_on sep [] = List.◌∷◌ "" List.[]
split_on sep (c ∷ s) =
    let rest = split_on sep s in
    if eqb (code c) (code sep) then List.◌∷◌ "" rest else put_first c rest

-- `s.replace(p, "")`, for a `p` of the two characters with these codes
abbrev pub remove_pair : ℕ → ℕ → String → String
remove_pair a b [] = ""
remove_pair a b (c ∷ []) = c ∷ ""
remove_pair a b (c ∷ (d ∷ s)) =
    let after = remove_pair a b s in
    let rest = remove_pair a b (d ∷ s) in
    if eqb (code c) a && eqb (code d) b then after else c ∷ rest

-- `set(xs)`, as the list of its elements
abbrev pub distinct : List String → List String
distinct List.[] = List.[]
distinct (List.◌∷◌ x xs) =
    let rest = distinct xs in if contains rest x then rest else List.◌∷◌ x rest
