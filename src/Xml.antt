-- ===== src/Xml.antt =====
-- crates/lodger-core/src/xml/mod.rs: the elements of `xmltree` and what Lodger calls of them. The
-- parser of `xmltree` is a parameter.
pub mod Domain
pub mod DomainLaws
use lodger.Map.{get, insert}
use lodger.Prelude.Equality.{text_eq, text_beq}
use lodger.Prelude.{
  Bool, true, false, not, ◌&&◌, ◌||◌, Option, none, some, List, [], ◌∷◌, Result, ok, err, ◌==◌,
  if◌then◌else◌, text,
}
use lodger.Validate.{Text}

-- `xmltree::Element`, with its child nodes in order.
mutual
  pub data Element : Type 0 where
    element : (name : Text) (attributes : List (Text × Text)) (children : Nodes) → Element

  pub data Nodes : Type 0 where
    end : Nodes
    element_node : Element → Nodes → Nodes
    text_node : Text → Nodes → Nodes
    other_node : Nodes → Nodes

abbrev pub tag : Element → Text
tag (element name _ _) = name

abbrev pub children : Element → Nodes
children (element _ _ nodes) = nodes

-- `attributes.get`.
unfoldable pub attribute : Text → Element → Option Text
attribute key (element _ attributes _) = get key attributes

unfoldable pub find_node : Text → Nodes → Option Element
find_node name end = none
find_node name (element_node e rest) =
    let later = find_node name rest in if text_beq (tag e) name then some e else later
find_node name (text_node _ rest) = find_node name rest
find_node name (other_node rest) = find_node name rest

-- `Element::get_child`.
unfoldable pub get_child : Text → Element → Option Element
get_child name e = find_node name (children e)

-- The text of the first text node.
unfoldable pub first_text : Nodes → Option Text
first_text end = none
first_text (text_node words _) = some words
first_text (element_node _ rest) = first_text rest
first_text (other_node rest) = first_text rest

-- The operator `?` of a function into `Option`.
abbrev pub and_then {ℓ κ} : {A : Type ℓ} {B : Type κ} → Option A → (A → Option B) → Option B
and_then none f = none
and_then (some a) f = f a

-- `child_text`.
unfoldable pub child_text : Element → Text → Option Text
child_text e name = and_then (get_child name e) (λ c. first_text (children c))

-- `Element::new`, `text_element` and `element_with`.
unfoldable pub new_element : Text → Element
new_element name = element name [] end

unfoldable pub text_element : (name words : Text) → Element
text_element name words = element name [] (text_node words end)

unfoldable pub put_all : List (Text × Text) → List (Text × Text) → List (Text × Text)
put_all attributes [] = attributes
put_all attributes ((key, value) ∷ rest) = put_all (insert key value attributes) rest

unfoldable pub element_with : Text → List (Text × Text) → Element
element_with name attributes = element name (put_all [] attributes) end

-- `children.push`.
unfoldable pub push_node : Nodes → Element → Nodes
push_node end e = element_node e end
push_node (element_node first rest) e = element_node first (push_node rest e)
push_node (text_node words rest) e = text_node words (push_node rest e)
push_node (other_node rest) e = other_node (push_node rest e)

unfoldable pub push : Element → Element → Element
push (element name attributes nodes) e = element name attributes (push_node nodes e)

-- `str::starts_with` and `str::contains`.
unfoldable pub starts_with : (prefix : Text) → Text → Bool
starts_with [] t = true
starts_with (p ∷ ps) [] = false
starts_with (p ∷ ps) (c ∷ cs) = p == c && starts_with ps cs

unfoldable pub contains : (part : Text) → Text → Bool
contains part [] = starts_with part []
contains part (c ∷ cs) = let later = contains part cs in starts_with part (c ∷ cs) || later

pub data XmlError : Type 0 where
  doctype : XmlError
  syntax : (message : Text) → XmlError
  wrong_root : (found expected : Text) → XmlError

-- `parse`.
unfoldable pub parse :
    (parse_element : Text → Result Text Element) → (xml root : Text) → Result XmlError Element
parse parse_element xml root =
    if contains (text "<!DOCTYPE") xml then err doctype else (elim (parse_element xml) [
      | err message ↦ err (syntax message)
      | ok e ↦ if not (text_beq (tag e) root) then err (wrong_root (tag e) root) else ok e
    ])

-- `Result::ok` of a parsed document.
abbrev pub readable : Result XmlError Element → Option Element
readable (ok e) = some e
readable (err e) = none
