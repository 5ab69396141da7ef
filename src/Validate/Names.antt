-- ===== src/Validate/Names.antt =====
-- `Name::parse`, `parse_interface` and `parse_host` of crates/lodger-core/src/validate.rs accept
-- exactly what their rules describe.
use Prim.Native.String.{String}
use lodger.Prelude.{
  ℕ, ◌≤◌, ◌≡◌, refl, ◌≢◌, ◌↔◌, Bool, true, false, not, none, [], ◌∷◌, ok, err, arith, length, any,
  all, find, ◌==◌,
}
use lodger.Validate.{
  Text, nul, len, len_utf8, is_ascii_alphanumeric, is_name_char, is_host_char, parse_chars,
  parse_name, is_dots, parse_interface, starts_badly, parse_host, name_max_len, interface_max_len,
}

name_char-ascii : (c : ℕ) → is_name_char c ≡ true → (len_utf8 c ≡ 1) × (c ≢ 0) × (c ≢ b'/')
unfolding is_name_char len_utf8
name_char-ascii c h = (ground arith, ground arith, ground arith)

alphanumeric-name_char : (c : ℕ) → is_ascii_alphanumeric c ≡ true → is_name_char c ≡ true
unfolding is_name_char
alphanumeric-name_char c h = ground arith

find-none : (cs : Text) → find (λ c. not (is_name_char c)) cs ≡ none → all is_name_char cs ≡ true
find-none [] h = refl
find-none (c ∷ cs) h = ground (arith, find-none cs)

all-find : (cs : Text) → all is_name_char cs ≡ true → find (λ c. not (is_name_char c)) cs ≡ none
all-find [] h = refl
all-find (c ∷ cs) h = ground (arith, all-find cs)

-- Of ASCII characters, there are as many bytes as characters.
module _ (p : ℕ → Bool)
    (ascii : (c : ℕ) → p c ≡ true → (len_utf8 c ≡ 1) × (c ≢ 0) × (c ≢ b'/')) where
  len-length_of : (cs : Text) → all p cs ≡ true → len cs ≡ length cs
  unfolding len
  len-length_of [] h = refl
  len-length_of (c ∷ cs) h = ground (arith, ascii c, len-length_of cs)

  no_nul_of : (cs : Text) → all p cs ≡ true → any (λ c. c == 0) cs ≡ false
  no_nul_of [] h = refl
  no_nul_of (c ∷ cs) h = ground (arith, ascii c, no_nul_of cs)

len-length : (cs : Text) → all is_name_char cs ≡ true → len cs ≡ length cs
len-length = len-length_of is_name_char name_char-ascii

no_nul : (cs : Text) → all is_name_char cs ≡ true → any (λ c. c == 0) cs ≡ false
no_nul = no_nul_of is_name_char name_char-ascii

-- 1 to 64 characters, all of them letters, digits, `.`, `_` or `-`, and the first a letter or digit.
abbrev pub starts_well : Text → Bool
starts_well [] = false
starts_well (c ∷ _) = is_ascii_alphanumeric c

pub record IsName (value : Text) : Type 0 where
  pub first : starts_well value ≡ true
  pub chars : all is_name_char value ≡ true
  pub short : length value ≤ name_max_len

parse_name_complete : (field : String) (v : Text) → IsName v → parse_name field v ≡ ok v
unfolding parse_name parse_chars
parse_name_complete field [] n = let first = n.first in cc
parse_name_complete field (c ∷ cs) n =
    ground (arith, all-find cs, len-length (c ∷ cs), no_nul (c ∷ cs))

parse_name_sound :
    (field : String) (v : Text) {n : Text} → parse_name field v ≡ ok n → (n ≡ v) × IsName v
unfolding parse_name parse_chars
parse_name_sound field [] h = cc
parse_name_sound field (c ∷ cs) h =
    let chars : all is_name_char (c ∷ cs) ≡ true =
      ground (arith, find-none cs, alphanumeric-name_char c) in
    let bytes = len-length (c ∷ cs) chars in
    (ground arith, record { first = ground arith; chars = chars; short = ground (arith, bytes) })

-- `Name::parse` accepts exactly the texts of 1 to 64 name characters that start with a letter or a
-- digit, and returns the input unchanged.
pub parse_name_iff :
    (field : String) (v n : Text) → (parse_name field v ≡ ok n) ↔ ((n ≡ v) × IsName v)
parse_name_iff field v n =
    (parse_name_sound field v, λ (e, w). rw e (parse_name_complete field v w))

-- The checks of names, interfaces and hosts report a NUL before anything else.
pub check_text-first :
    (field : String) (v : Text)
    → any (λ c. c == 0) v ≡ true
    → (parse_name field v ≡ err (nul field))
      × (parse_interface field v ≡ err (nul field))
      × (parse_host field v ≡ err (nul field))
unfolding parse_name parse_interface parse_host
check_text-first field v h = rw h (refl, refl, refl)

-- 1 to 15 name characters, and neither `.` nor `..`.
pub record IsInterface (value : Text) : Type 0 where
  pub some_char : value ≢ []
  pub chars : all is_name_char value ≡ true
  pub no_dots : is_dots value ≡ false
  pub short : length value ≤ interface_max_len

-- `parse_interface` accepts exactly the texts of 1 to 15 name characters other than `.` and `..`, and
-- returns the input unchanged.
pub parse_interface_iff :
    (field : String) (v n : Text) → (parse_interface field v ≡ ok n) ↔ ((n ≡ v) × IsInterface v)
unfolding parse_interface
parse_interface_iff field [] n = (λ h. cc, λ (e, w). absurd (w.some_char refl))
parse_interface_iff field (c ∷ cs) n = (
  λ h.
      let chars : all is_name_char (c ∷ cs) ≡ true = ground arith in
      let bytes = len-length (c ∷ cs) chars in
      (
        ground arith,
        record {
          some_char = λ e. cc;
          chars = chars;
          no_dots = ground arith;
          short = ground (arith, bytes);
        },
      ),
  λ (e, w). ground (arith, e, len-length (c ∷ cs), no_nul (c ∷ cs)),
)

host_char-ascii : (c : ℕ) → is_host_char c ≡ true → (len_utf8 c ≡ 1) × (c ≢ 0) × (c ≢ b'/')
unfolding is_host_char len_utf8
host_char-ascii c h = (ground arith, ground arith, ground arith)

-- 1 to 253 letters, digits, `.`, `-` or `:`, and the first neither `-` nor `.`.
pub record IsHost (value : Text) : Type 0 where
  pub some_char : value ≢ []
  pub chars : all is_host_char value ≡ true
  pub first : starts_badly value ≡ false
  pub short : length value ≤ 253

-- `parse_host` accepts exactly the texts of 1 to 253 host characters that start with neither `-` nor
-- `.`, and returns the input unchanged.
pub parse_host_iff :
    (field : String) (v n : Text) → (parse_host field v ≡ ok n) ↔ ((n ≡ v) × IsHost v)
unfolding parse_host
parse_host_iff field [] n = (λ h. ground arith, λ (e, w). absurd (w.some_char refl))
parse_host_iff field (c ∷ cs) n = (
  λ h.
      let chars : all is_host_char (c ∷ cs) ≡ true = ground arith in
      let bytes = len-length_of is_host_char host_char-ascii (c ∷ cs) chars in
      (
        ground arith,
        record {
          some_char = λ e. cc;
          chars = chars;
          first = ground arith;
          short = ground (arith, bytes);
        },
      ),
  λ (e, w). ground (
    arith,
    e,
    len-length_of is_host_char host_char-ascii (c ∷ cs),
    no_nul_of is_host_char host_char-ascii (c ∷ cs),
  ),
)
