-- ===== src/Validate.antt =====
-- crates/lodger-core/src/validate.rs: the checks of names, hosts, interfaces and free text. A text is
-- the list of its characters' code points; `len` counts the bytes of its UTF-8 form.
pub mod Names
pub mod Path
pub mod Subnet
pub mod Rejection
mod Tests
use Prim.Native.String.{String}
use lodger.Prelude.{
  ℕ, zero, suc, ◌+◌, ◌≡◌, Bool, true, false, not, ◌&&◌, ◌||◌, Option, none, some, List, [], ◌∷◌,
  Result, ok, err, ◌>>=◌, ◌>>◌, fail_if, ltb, leb, ◌==◌, if◌then◌else◌, any, all, find,
}

abbrev pub Text : Type 0
Text = List ℕ

-- A subnet of the crate `ipnet`: its address and prefix length.
pub record Ipv4Net : Type 0 where
  pub addr : ℕ
  pub prefix_len : ℕ

pub data InputError : Type 0 where
  nul : String → InputError
  empty : String → InputError
  too_long : String → (len max : ℕ) → InputError
  bad_first_char : String → (ch : ℕ) → InputError
  bad_char : String → (ch : ℕ) → InputError
  subnet_syntax : String → InputError
  subnet_host_bits : String → (network : Ipv4Net) → InputError
  subnet_not_private : String → InputError
  subnet_too_small : String → (max : ℕ) → InputError
  subnet_overlap : String → (other_name : Text) (other_subnet : Ipv4Net) → InputError
  path_not_absolute : String → InputError
  path_dot_segment : String → InputError
  path_control : String → InputError
  system_path : String → (path : Text) → InputError
  host_syntax : String → InputError
  path_in_use : String → (other_name : Text) → InputError
  nfs_export_in_use : (other_name : Text) → InputError
  interface_name : String → InputError
  no_such_bridge : (name : Text) → InputError
  size_out_of_range : String → (min max : ℕ) → InputError
  volume_name_in_use : (pool name : Text) → InputError

abbrev pub name_max_len : ℕ
name_max_len = 64

abbrev pub interface_max_len : ℕ
interface_max_len = 15

-- `char::len_utf8` and `str::len`.
unfoldable pub len_utf8 : ℕ → ℕ
len_utf8 c = if ltb c 0x80 then 1 else if ltb c 0x800 then 2 else if ltb c 0x10000 then 3 else 4

unfoldable pub len : Text → ℕ
len [] = 0
len (c ∷ cs) = len_utf8 c + len cs

-- `char::is_ascii_alphanumeric`.
unfoldable pub is_ascii_alphanumeric : ℕ → Bool
is_ascii_alphanumeric c =
    leb b'0' c && leb c b'9' || (leb b'A' c && leb c b'Z' || leb b'a' c && leb c b'z')

-- The characters of a name, an interface and a host.
unfoldable pub is_name_char : ℕ → Bool
unfolding is_ascii_alphanumeric
is_name_char c = is_ascii_alphanumeric c || (c == b'.' || (c == b'_' || c == b'-'))

unfoldable pub is_host_char : ℕ → Bool
unfolding is_ascii_alphanumeric
is_host_char c = is_ascii_alphanumeric c || (c == b'.' || (c == b'-' || c == b':'))

-- `check_text`.
unfoldable pub check_text : String → Text → Result InputError Text
check_text field value = if any (λ c. c == 0) value then err (nul field) else ok value

-- `Name::parse` after the check for NUL.
unfoldable pub parse_chars : String → Text → Result InputError Text
parse_chars field [] = err (empty field)
parse_chars field (first ∷ chars) =
    if not (is_ascii_alphanumeric first)
    then err (bad_first_char field first)
    else (elim (find (λ c. not (is_name_char c)) chars) [
      | some ch ↦ err (bad_char field ch)
      | none ↦
          if ltb name_max_len (len (first ∷ chars))
          then err (too_long field (len (first ∷ chars)) name_max_len)
          else ok (first ∷ chars)
    ])

-- `Name::parse`.
unfoldable pub parse_name : String → Text → Result InputError Text
unfolding check_text
parse_name field value = do check_text field value; parse_chars field value

abbrev pub is_empty : Text → Bool
is_empty [] = true
is_empty (_ ∷ _) = false

-- `matches!(value, "." | "..")`.
unfoldable pub is_dots : Text → Bool
is_dots (c ∷ []) = c == b'.'
is_dots (c ∷ d ∷ []) = c == b'.' && d == b'.'
is_dots _ = false

unfoldable pub parse_interface : String → Text → Result InputError Text
unfolding check_text
parse_interface field value = do
  check_text field value
  if not (is_empty value)
        && (leb (len value) interface_max_len && (all is_name_char value && not (is_dots value)))
      then ok value
      else err (interface_name field)

-- `value.starts_with(['-', '.'])`.
abbrev pub starts_badly : Text → Bool
starts_badly [] = false
starts_badly (c ∷ _) = c == b'-' || c == b'.'

unfoldable pub parse_host : String → Text → Result InputError Text
unfolding check_text
parse_host field value = do
  check_text field value
  fail_if (is_empty value) (empty field)
  fail_if (ltb 253 (len value)) (too_long field (len value) 253)
  fail_if (not (all is_host_char value) || starts_badly value) (host_syntax field)
  ok value
