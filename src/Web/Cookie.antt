-- ===== src/Web/Cookie.antt =====
-- The session cookie of crates/lodger/src/auth.rs: reading and writing it.
use lodger.Db.{Text}
use lodger.Prelude.Equality.{text_beq}
use lodger.Prelude.{ℕ, Option, none, some, List, [], ◌∷◌, ◌++◌, text, find}
use lodger.Validate.Path.{split}
use lodger.Web.{HeaderMap, Crates}
use lodger.Web.Bytes.{trim, split_once}

abbrev pub cookie_name : Text
cookie_name = text "__Host-lodger_sid"

-- `Iterator::filter_map` and `Iterator::flat_map`.
abbrev pub filter_map {ℓ κ} : {A : Type ℓ} {B : Type κ} → (A → Option B) → List A → List B
filter_map f [] = []
filter_map f (x ∷ xs) = let rest = filter_map f xs in elim (f x) [ none ↦ rest | some y ↦ y ∷ rest ]

abbrev pub flat_map {ℓ κ} : {A : Type ℓ} {B : Type κ} → (A → List B) → List A → List B
flat_map f [] = []
flat_map f (x ∷ xs) = f x ++ flat_map f xs

-- The pairs of a name and a value in the texts of the `Cookie` headers.
unfoldable pub cookie_pairs : List Text → List (Text × Text)
cookie_pairs values =
    filter_map (λ pair. split_once b'=' (trim pair)) (flat_map (split b';') values)

unfoldable pub cookie_token : Crates → HeaderMap → Option Text
cookie_token lib headers =
    elim (find (λ p. text_beq p.0 cookie_name)
      (cookie_pairs (filter_map lib.to_str (headers.get_all (text "cookie"))))) [
        | none ↦ none
        | some (name, value) ↦ some value
      ]

unfoldable pub set_cookie : Text → Text
set_cookie token =
    cookie_name ++ text "=" ++ token ++ text "; Path=/; Secure; HttpOnly; SameSite=Strict"

unfoldable pub clear_cookie : Text
clear_cookie =
    cookie_name ++ text "=" ++ text "; Path=/; Secure; HttpOnly; SameSite=Strict; Max-Age=0"

-- `session_key`: the hash that names the request's session.
unfoldable pub session_key : Crates → HeaderMap → Option ℕ
session_key lib headers = elim (cookie_token lib headers) [
  | none ↦ none
  | some token ↦ some (lib.sha256 token)
]
