-- ===== src/Web/Password.antt =====
-- The password policy of crates/lodger-core/src/password/mod.rs.
use lodger.Db.{Text}
use lodger.Prelude.Equality.{text_beq}
use lodger.Prelude.{ℕ, Bool, map, Result, ok, err, length, ltb, if◌then◌else◌, any}
use lodger.Web.{Crates, PasswordError, too_short, too_long, common}

abbrev pub min_chars : ℕ
min_chars = 15

abbrev pub max_chars : ℕ
max_chars = 1024

-- `COMMON_SET.contains(&password.to_lowercase())`.
unfoldable pub is_common : Crates → Text → Bool
is_common lib password =
    any (text_beq (lib.to_lowercase password)) (map lib.to_lowercase lib.common_lines)

unfoldable pub check : Crates → Text → Result PasswordError (Unit {0})
check lib password =
    if ltb (length password) min_chars
    then err (too_short (length password))
    else if ltb max_chars (length password)
    then err (too_long (length password))
    else if is_common lib password
    then err common
    else ok tt
