-- ===== src/Validate/Tests.antt =====
-- Runs of the checks of crates/lodger-core/src/validate.rs, and instances of the theorems. The `ipnet`
-- of these runs reads two texts.
use lodger.Prelude.Equality.{text_eq}
use lodger.Prelude.{◌≡◌, refl, false, ok, err, All, any, text}
use lodger.Validate.{
  bad_first_char, interface_name, len, len_utf8, is_ascii_alphanumeric, is_name_char, is_host_char,
  check_text, parse_chars, parse_name, is_dots, parse_interface, parse_host,
}
use lodger.Validate.Path.{parse_path, parts, join, split, non_empty, is_control, is_refused}
use lodger.Validate.Path.Plain.{IsPart}
use lodger.Validate.Path.Laws.{parse_path-parse_path}

validate : Unit {0}
unfolding len len_utf8 is_ascii_alphanumeric is_name_char is_host_char check_text parse_chars
    parse_name is_dots parse_interface parse_host parse_path parts join split non_empty is_control
    is_refused
validate = tt

-- A leading `-` would look like an option, and `..` like a parent folder.
names :
    (parse_name "VM name" (text "web-1") ≡ ok (text "web-1"))
    × (parse_name "VM name" (text "-rf") ≡ err (bad_first_char "VM name" b'-'))
    × (parse_interface "Bridge" (text "..") ≡ err (interface_name "Bridge"))
unfolding validate
names = (refl, refl, refl)

plain : parse_path "Folder" (text "/srv//vm/") ≡ ok (text "/srv/vm")
unfolding validate
plain = refl

parse_path-parse_path_example :
    (parts (text "/srv/vm") ≡ parts (text "/srv//vm/"))
    × All IsPart (parts (text "/srv/vm"))
    × (any is_dots (parts (text "/srv/vm")) ≡ false)
    × (parse_path "Folder" (text "/srv/vm") ≡ ok (text "/srv/vm"))
parse_path-parse_path_example =
    parse_path-parse_path "Folder" (text "/srv//vm/") (text "/srv/vm") plain
