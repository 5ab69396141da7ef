-- ===== src/Validate/Path.antt =====
-- `parse_path` of crates/lodger-core/src/validate.rs.
pub mod Plain
pub mod Chars
pub mod Bytes
pub mod Laws
use Prim.Native.String.{String}
use lodger.Prelude.{
  ℕ, ◌+◌, Bool, false, not, ◌&&◌, ◌||◌, List, [], ◌∷◌, ◌++◌, Result, ok, ◌>>=◌, ◌>>◌, fail_if, ltb,
  leb, ◌==◌, if◌then◌else◌, any,
}
use lodger.Validate.{
  Text, InputError, empty, too_long, path_not_absolute, path_dot_segment, path_control, len,
  check_text, is_empty, is_dots,
}

abbrev pub path_max_len : ℕ
path_max_len = 4096

-- `str::split` by one character: the parts between the separators.
abbrev pub cons_head : ℕ → List Text → List Text
cons_head c [] = (c ∷ []) ∷ []
cons_head c (p ∷ ps) = (c ∷ p) ∷ ps

unfoldable pub split : ℕ → Text → List Text
split sep [] = [] ∷ []
split sep (c ∷ cs) = let rest = split sep cs in if c == sep then [] ∷ rest else cons_head c rest

-- `.filter(|p| !p.is_empty())`.
unfoldable pub non_empty : List Text → List Text
non_empty [] = []
non_empty ([] ∷ ps) = non_empty ps
non_empty ((c ∷ p) ∷ ps) = (c ∷ p) ∷ non_empty ps

unfoldable pub parts : Text → List Text
unfolding split non_empty
parts value = non_empty (split b'/' value)

-- `parts.join("/")`.
unfoldable pub join : List Text → Text
join [] = []
join (p ∷ []) = p
join (p ∷ q ∷ ps) = p ++ b'/' ∷ join (q ∷ ps)

-- `char::is_control`, the category Cc.
unfoldable pub is_control : ℕ → Bool
is_control c = leb c 0x1f || (leb 0x7f c && leb c 0x9f)

-- The characters that a path may not have.
unfoldable pub is_refused : ℕ → Bool
unfolding is_control
is_refused c = is_control c || (c == 0xfffe || c == 0xffff)

abbrev pub is_absolute : Text → Bool
is_absolute [] = false
is_absolute (c ∷ _) = c == b'/'

unfoldable pub parse_path : String → Text → Result InputError Text
unfolding check_text
parse_path field value = do
  check_text field value
  fail_if (is_empty value) (empty field)
  fail_if (not (is_absolute value)) (path_not_absolute field)
  fail_if (ltb path_max_len (len value)) (too_long field (len value) path_max_len)
  fail_if (any is_dots (parts value)) (path_dot_segment field)
  fail_if (any is_refused value) (path_control field)
  ok (b'/' ∷ join (parts value))
