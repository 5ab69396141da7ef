-- ===== src/Validate/Path/Laws.antt =====
-- What `parse_path` of crates/lodger-core/src/validate.rs returns.
use Prim.Native.String.{String}
use lodger.Prelude.{◌≤◌, ◌≡◌, refl, ap, ◌∙◌, ◌↔◌, true, false, [], ◌∷◌, ok, arith, All, ◌==◌, any}
use lodger.Validate.{Text, len, is_dots}
use lodger.Validate.Path.{parts, join, is_refused, is_absolute, parse_path, path_max_len}
use lodger.Validate.Path.Plain.{IsPart, parts-IsPart, parts-join}
use lodger.Validate.Path.Chars.{plain-Lacks}
use lodger.Validate.Path.Bytes.{plain_len-le}

-- What the checks of `parse_path` ask of an input.
pub record IsPath (v : Text) : Type 0 where
  pub no_nul : any (λ c. c == 0) v ≡ false
  pub absolute : is_absolute v ≡ true
  pub short : len v ≤ path_max_len
  pub no_dots : any is_dots (parts v) ≡ false
  pub plain_chars : any is_refused v ≡ false

-- `parse_path` accepts exactly the absolute paths of at most 4096 bytes without NUL, `.` or `..` parts
-- and control characters, and returns their non-empty parts with one slash before each.
pub parse_path_iff :
    (field : String) (v p : Text)
    → (parse_path field v ≡ ok p) ↔ ((p ≡ b'/' ∷ join (parts v)) × IsPath v)
unfolding parse_path
parse_path_iff field [] p = (λ h. ground arith, λ (e, w). let a = w.absolute in ground arith)
parse_path_iff field (c ∷ cs) p = (
  λ h. (
    ground arith,
    record {
      no_nul = ground arith;
      absolute = ground arith;
      short = ground arith;
      no_dots = ground arith;
      plain_chars = ground arith;
    },
  ),
  λ (e, w). ground (arith, e),
)

plain-IsPath : (v p : Text) → p ≡ b'/' ∷ join (parts v) → IsPath v → parts p ≡ parts v → IsPath p
unfolding is_refused
plain-IsPath v p plain w same = record {
  no_nul = rw plain (plain-Lacks (λ c. c == 0) v refl w.no_nul);
  absolute = rw plain refl;
  short = rw plain (omega (arith, plain_len-le v w.absolute, w.short));
  no_dots = rw same w.no_dots;
  plain_chars = rw plain (plain-Lacks is_refused v refl w.plain_chars);
}

-- The path that `parse_path` returns has the parts of its input, which are non-empty, without a
-- slash, and neither `.` nor `..`; and `parse_path` returns it unchanged.
pub parse_path-parse_path :
    (field : String) (v p : Text)
    → parse_path field v ≡ ok p
    → (parts p ≡ parts v)
      × All IsPart (parts p)
      × (any is_dots (parts p) ≡ false)
      × (parse_path field p ≡ ok p)
parse_path-parse_path field v p h =
    let (plain, w) = (parse_path_iff field v p).0 h in
    let same : parts p ≡ parts v = ap parts plain ∙ parts-join (parts v) (parts-IsPart v) in
    let fixed : IsPath p = plain-IsPath v p plain w same in
    (
      same,
      rw same (parts-IsPart v),
      rw same w.no_dots,
      (parse_path_iff field p p).1 (rw same plain, fixed),
    )
