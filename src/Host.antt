-- ===== src/Host.antt =====
-- crates/lodger-virt/src/conn.rs: the errors of the operations on libvirt, and the way they run.
-- The calls of the crate `virt` (libvirt), which is not part of this repository, as a parameter: each
-- call reads and writes the host's state `S` and gives a value or an error. A `Connect` closure runs
-- its calls one after another, so it is a chain in the monad `Io`.
pub mod Keeping
use lodger.Xml.{XmlError, doctype, syntax, wrong_root}
use lodger.Prelude.{
  ℕ, Bool, true, false, List, [], ◌∷◌, ◌++◌, Result, ok, err, Option, none, some, ◌≡◌, text,
}
use lodger.Validate.{InputError}

-- `ErrorNumber`, the codes that Lodger tells apart.
pub data ErrorNumber : Type 0 where
  invalid_arg : ErrorNumber
  no_domain : ErrorNumber
  no_storage_pool : ErrorNumber
  no_network : ErrorNumber
  no_storage_volume : ErrorNumber
  operation_invalid : ErrorNumber
  other_number : ℕ → ErrorNumber

-- `virt::error::Error`.
pub record VirtError : Type 0 where
  pub code : ErrorNumber
  pub message : List ℕ

-- A call: the new state, and the value or the error.
abbrev pub Io {ℓ κ} : Type 0 → Type ℓ → Type κ → Type (ℓ ⊔ κ)
Io S E A = S → S × Result E A

abbrev pub then_result {ℓ κ ι} :
    {S : Type 0} {E : Type ℓ} {A : Type κ} {B : Type ι}
    → S × Result E A
    → (A → Io S E B)
    → S × Result E B
then_result (s, ok a) f = f a s
then_result (s, err e) f = (s, err e)

-- `?`, and `and_then`.
infixl 5 ◌>>=◌ ◌>>◌
unfoldable pub ◌>>=◌ {ℓ κ ι} :
    {S : Type 0} {E : Type ℓ} {A : Type κ} {B : Type ι} → Io S E A → (A → Io S E B) → Io S E B
(m >>= f) s = then_result (m s) f

abbrev pub ◌>>◌ {ℓ κ ι} :
    {S : Type 0} {E : Type ℓ} {A : Type κ} {B : Type ι} → Io S E A → Io S E B → Io S E B
m >> k = m >>= λ _. k

abbrev pub pure {ℓ κ} : {S : Type 0} {E : Type ℓ} {A : Type κ} → A → Io S E A
pure a s = (s, ok a)

abbrev pub fail {ℓ κ} : {S : Type 0} {E : Type ℓ} {A : Type κ} → E → Io S E A
fail e s = (s, err e)

-- `let _ = call`: the result is dropped.
abbrev pub ignore {ℓ κ ι} :
    {S : Type 0} {E : Type ℓ} {F : Type ι} {A : Type κ} → Io S E A → Io S F (Unit {0})
ignore m s = ((m s).0, ok tt)

-- `.unwrap_or(default)`.
abbrev pub result_or {ℓ κ} : {E : Type ℓ} {A : Type κ} → A → Result E A → A
result_or d (ok a) = a
result_or d (err e) = d

abbrev pub io_or {ℓ κ ι} :
    {S : Type 0} {E : Type ℓ} {F : Type ι} {A : Type κ} → A → Io S E A → Io S F A
io_or d m s = ((m s).0, ok (result_or d (m s).1))

-- `if test { call? }`.
abbrev pub when {ℓ} : {S : Type 0} {E : Type ℓ} → Bool → Io S E (Unit {0}) → Io S E (Unit {0})
when true m = m
when false m = pure tt

-- `for item in list { call(item)? }`.
abbrev pub for_each {ℓ κ} :
    {S : Type 0} {E : Type ℓ} {A : Type κ} → (A → Io S E (Unit {0})) → List A → Io S E (Unit {0})
for_each f [] = pure tt
for_each f (x ∷ xs) = f x >> for_each f xs

-- A call that keeps a property of the host's state, whatever its result.
abbrev pub Keeps {ℓ κ} : {S : Type 0} {E : Type ℓ} {A : Type κ} → (S → Type 0) → Io S E A → Type 0
Keeps {S} P m = (s : S) → P s → P (m s).0

-- `conn::Error`. A message of the operating system or of another crate is a text.
pub data Error : Type 0 where
  input : InputError → Error
  libvirt : VirtError → Error
  event_loop : (message : List ℕ) → Error
  task : (message : List ℕ) → Error
  io : (message : List ℕ) → Error
  wrong_state : (why : List ℕ) → Error
  in_use : (users : List (List ℕ)) → Error
  xml : (message : List ℕ) → Error

unfoldable pub is_not_found : Error → Bool
is_not_found (libvirt e) = elim (e.code) [
  | no_domain ↦ true
  | no_storage_pool ↦ true
  | no_network ↦ true
  | no_storage_volume ↦ true
  | _ ↦ false
]
is_not_found _ = false

unfoldable pub is_invalid_operation : Error → Bool
is_invalid_operation (wrong_state why) = true
is_invalid_operation (libvirt e) = elim (e.code) [ operation_invalid ↦ true | _ ↦ false ]
is_invalid_operation _ = false

abbrev pub lift_result {ℓ} : {A : Type ℓ} → Result VirtError A → Result Error A
lift_result (ok a) = ok a
lift_result (err e) = err (libvirt e)

-- `map_err(Error::from)`.
abbrev pub lift {ℓ} : {S : Type 0} {A : Type ℓ} → Io S VirtError A → Io S Error A
lift m s = ((m s).0, lift_result (m s).1)

-- The result of a call as a value.
abbrev pub attempt {ℓ κ ι} :
    {S : Type 0} {E : Type ℓ} {F : Type ι} {A : Type κ} → Io S E A → Io S F (Result E A)
attempt m s = ((m s).0, ok (m s).1)

-- `Display` of `XmlError`.
abbrev pub xml_message : XmlError → List ℕ
xml_message doctype = text "the XML has a DOCTYPE, which Lodger never accepts"
xml_message (syntax message) = text "the XML does not parse: " ++ message
xml_message (wrong_root found expected) =
    text "the XML root is <" ++ found ++ text ">, not <" ++ expected ++ text ">"

-- `Error::from` on the result of a reader.
abbrev pub xml_result {ℓ} : {A : Type ℓ} → Result XmlError A → Result Error A
xml_result (ok a) = ok a
xml_result (err e) = err (xml (xml_message e))
