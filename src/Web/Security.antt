-- ===== src/Web/Security.antt =====
-- crates/lodger/src/security.rs: the rule on where a request comes from, and the headers that every
-- response carries. The value of the Content-Security-Policy is a parameter.
use lodger.Db.{Text}
use lodger.Prelude.Equality.{text_beq}
use lodger.Prelude.{Bool, true, false, ◌||◌, Option, some, text, if◌then◌else◌, is_some_and}
use lodger.Web.{
  HeaderMap, Method, get_method, head_method, other_method, Response, Crates, AppState, text_value,
  with_header, error, header_text,
}
use lodger.Web.Bytes.{eq_ignore_ascii_case}

unfoldable pub is_safe : Method → Bool
is_safe get_method = true
is_safe head_method = true
is_safe (other_method name) = false

-- `match (value("origin"), public_origin)`.
unfoldable pub same_origin : Option Text → Option Text → Bool
same_origin (some origin) (some public) = eq_ignore_ascii_case origin public
same_origin _ _ = false

unfoldable pub from_lodger : Crates → HeaderMap → (public_origin : Option Text) → Bool
from_lodger lib headers public_origin =
    is_some_and (λ v. text_beq v (text "same-origin"))
      (header_text lib headers (text "sec-fetch-site"))
    || same_origin (header_text lib headers (text "origin")) public_origin

abbrev pub foreign : Text
foreign =
    text
      "this request must come from a Lodger page. If it does, your browser sends no Sec-Fetch-Site header: set public_url in the configuration file"

-- `require_same_origin`, with the rest of the server as `next`.
unfoldable pub require_same_origin :
    Crates
    → (public_origin : Option Text) → Method
    → HeaderMap
    → (AppState → AppState × Response)
    → AppState
    → AppState × Response
require_same_origin lib public_origin method headers next s =
    if is_safe method || from_lodger lib headers public_origin
    then next s
    else (s, error 403 foreign)

-- The headers that `add_headers` writes on the response of `next`.
unfoldable pub add_headers : (csp : Text) (hsts : Bool) → Response → Response
add_headers csp hsts r =
    let policy = with_header (text "content-security-policy") (text_value csp) r in
    let referrer = with_header (text "referrer-policy") (text_value (text "no-referrer")) policy in
    let sniff =
      with_header (text "x-content-type-options") (text_value (text "nosniff")) referrer in
    if hsts
    then with_header (text "strict-transport-security") (text_value (text "max-age=31536000")) sniff
    else sniff
