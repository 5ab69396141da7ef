-- ===== src/Web/ClientIp.antt =====
-- crates/lodger/src/client_ip.rs: the address of the client.
use lodger.Net.{IpAddr}
use lodger.Prelude.{ℕ, Option, none, some, List, [], ◌∷◌, not, text, if◌then◌else◌, unwrap_or}
use lodger.Validate.Path.{split}
use lodger.Web.{HeaderMap, Crates, and_then, header_text}
use lodger.Web.Bytes.{trim, last_part}

-- `v.rsplit(',').next()`.
unfoldable pub rightmost : List (List ℕ) → Option (List ℕ)
rightmost [] = none
rightmost (p ∷ ps) = some (last_part p ps)

unfoldable pub client_ip : Crates → (peer : IpAddr) → HeaderMap → IpAddr
client_ip lib peer headers =
    let forwarded =
      and_then
        (and_then (header_text lib headers (text "x-forwarded-for"))
          (λ v. rightmost (split b',' v)))
        (λ v. lib.parse_ip (trim v)) in
    if not (lib.is_trusted peer)
    then peer
    else (elim (and_then (header_text lib headers (text "x-real-ip"))
        (λ v. lib.parse_ip (trim v))) [ some ip ↦ ip | none ↦ unwrap_or peer forwarded ])
