-- ===== src/Design/Slug.antt =====
-- `safe_slug`
pub mod Laws
use Prim.Native.String.{[], ◌∷◌}
use enterprise_angular_nest.Base.{
  Bool, true, false, Char, code, String, ◌==◌, ◌||◌, ◌&&◌, eqb, leb, if◌then◌else◌,
}
use enterprise_angular_nest.Base.Text.{Unicode, strip}

-- `[a-z0-9_-]`
abbrev pub is_slug_char : Char → Bool
is_slug_char c =
    (leb b'a' (code c) && leb (code c) b'z')
    || (leb b'0' (code c) && leb (code c) b'9')
    || eqb (code c) b'_'
    || eqb (code c) b'-'

-- `re.sub(r'[^a-z0-9_-]+', '-', s)`: one dash for each run; the flag says that the text stands in a run.
abbrev pub dash_runs : Bool → String → String
dash_runs inside [] = ""
dash_runs inside (c ∷ s) =
    let kept = dash_runs false s in
    let dropped = dash_runs true s in
    if is_slug_char c then c ∷ kept else if inside then dropped else "-" ∷ dropped

abbrev pub is_dash : Char → Bool
is_dash c = eqb (code c) b'-'

-- `slug or fallback`
abbrev pub or_text : String → String → String
or_text text fallback = if text == "" then fallback else text

unfoldable pub safe_slug : Unicode → String → String → String
unfolding strip
safe_slug u name fallback = or_text (strip is_dash (dash_runs false (u.lower name))) fallback
