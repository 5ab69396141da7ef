-- ===== src/Web/CookieLaws.antt =====
-- A browser sends back the part of the session cookie before the first `;`, and crates/lodger/src/auth.rs
-- reads the token from it.
use lodger.Db.{Text}
use lodger.Prelude.{
  ℕ, ◌≡◌, refl, ap, ◌∙◌, Bool, true, false, not, ◌&&◌, Option, none, some, List, [], ◌∷◌, ◌++◌,
  arith, text, all, ◌==◌,
}
use lodger.Validate.Path.{split}
use lodger.Web.{HeaderMap, Crates}
use lodger.Web.Bytes.{is_whitespace, trim_start, push_trimmed, trim_end, trim, split_once}
use lodger.Web.Cookie.{cookie_name, cookie_pairs, cookie_token, set_cookie, filter_map}

-- The characters of a token: no `;` and no white space.
unfoldable pub is_plain : ℕ → Bool
is_plain c = not (c == b';') && not (is_whitespace c)

split_plain :
    (t rest : Text) → all is_plain t ≡ true → split b';' (t ++ b';' ∷ rest) ≡ t ∷ split b';' rest
unfolding split is_plain
split_plain [] rest h = refl
split_plain (c ∷ cs) rest h = ground (arith, split_plain cs rest)

split_whole : (t : Text) → all is_plain t ≡ true → split b';' t ≡ t ∷ []
unfolding split is_plain
split_whole [] h = refl
split_whole (c ∷ cs) h = ground (arith, split_whole cs)

trim_end_plain : (t : Text) → all is_plain t ≡ true → trim_end t ≡ t
unfolding trim_end push_trimmed is_plain
trim_end_plain [] h = refl
trim_end_plain (c ∷ []) h = ground arith
trim_end_plain (c ∷ d ∷ ds) h =
    let rest = trim_end_plain (d ∷ ds) (ground arith) in ap (push_trimmed c) rest

trim_plain : (t : Text) → all is_plain t ≡ true → trim t ≡ t
unfolding trim trim_start is_plain trim_end
trim_plain [] h = refl
trim_plain (c ∷ cs) h =
    let solid : is_whitespace c ≡ false = ground arith in
    let stays : trim_start (c ∷ cs) ≡ c ∷ cs = ground (arith, solid) in
    ap trim_end stays ∙ trim_end_plain (c ∷ cs) h

-- The first part of a list of parts.
abbrev pub first_part : List Text → Text
first_part [] = []
first_part (p ∷ ps) = p

-- The pair that the browser sends back.
abbrev pub cookie_pair : Text → Text
cookie_pair token = cookie_name ++ text "=" ++ token

cookie_pair_plain :
    (token : Text) → all is_plain token ≡ true → all is_plain (cookie_pair token) ≡ true
unfolding is_plain is_whitespace
cookie_pair_plain token h = h

set_cookie-first :
    (token : Text)
    → all is_plain token ≡ true
    → first_part (split b';' (set_cookie token)) ≡ cookie_pair token
unfolding set_cookie
set_cookie-first token h =
    ap first_part (split_plain (cookie_pair token) _ (cookie_pair_plain token h))

cookie_pairs-pair :
    (token : Text)
    → all is_plain token ≡ true
    → cookie_pairs (cookie_pair token ∷ []) ≡ (cookie_name, token) ∷ []
unfolding cookie_pairs split_once trim trim_end trim_start is_whitespace push_trimmed
cookie_pairs-pair token h =
    let plain = cookie_pair_plain token h in
    let read : Text → Option (Text × Text) = λ pair. split_once b'=' (trim pair) in
    let pair : read (cookie_pair token) ≡ some (cookie_name, token) =
      ap (split_once b'=') (trim_plain (cookie_pair token) plain) in
    let step : Option (Text × Text) → List (Text × Text) =
      λ o. elim o [ none ↦ [] | some y ↦ y ∷ [] ] in
    ap (λ ps. filter_map read (ps ++ [])) (split_whole (cookie_pair token) plain) ∙ ap step pair

module _ (lib : Crates) where
  -- When the browser's only cookie is the first part of `set_cookie`, the server reads back the token,
  -- for every token without `;` and white space.
  pub cookie_token-set_cookie :
      (headers : HeaderMap) (value : List ℕ) (token : Text)
      → all is_plain token ≡ true
      → headers.get_all (text "cookie") ≡ value ∷ []
      → lib.to_str value ≡ some (first_part (split b';' (set_cookie token)))
      → cookie_token lib headers ≡ some token
  unfolding cookie_token cookie_pairs
  cookie_token-set_cookie headers value token plain sent read =
      let pair = read ∙ ap some (set_cookie-first token plain) in
      rw (cookie_token, sent, pair, cookie_pairs-pair token plain) refl
