-- ===== src/Volume/Document.antt =====
-- crates/lodger-core/src/xml/volume.rs: the checks and the document of a new volume, and the reader.
use lodger.Prelude.Equality.{text_beq}
use lodger.Prelude.{
  ℕ, not, ◌&&◌, Option, List, [], ◌∷◌, Result, ok, err, ◌>>◌, fail_if, any, leb, text,
  if◌then◌else◌,
}
use lodger.Validate.{Text, InputError, size_out_of_range, volume_name_in_use}
use lodger.Xml.{
  Element, element, end, text_node, attribute, get_child, child_text, and_then, new_element,
  text_element, element_with, push,
}

-- `1 << 20` and `1 << 50`.
abbrev pub min_bytes : ℕ
min_bytes = 1048576

abbrev pub max_bytes : ℕ
max_bytes = 1125899906842624

pub data VolumeFormat : Type 0 where
  qcow2 raw : VolumeFormat

-- `as_str`.
abbrev pub format_text : VolumeFormat → Text
format_text qcow2 = text "qcow2"
format_text raw = text "raw"

pub record NewVolume : Type 0 where
  pub name : Text
  pub format : VolumeFormat
  pub capacity_bytes : ℕ

-- `NewVolume::new`.
unfoldable pub new_volume : Text → VolumeFormat → ℕ → Result InputError NewVolume
new_volume name format capacity_bytes = do
  fail_if (not (leb min_bytes capacity_bytes && leb capacity_bytes max_bytes))
      (size_out_of_range "size" min_bytes max_bytes)
  ok (record { name = name; format = format; capacity_bytes = capacity_bytes })

-- `check_against`.
unfoldable pub check_unused : NewVolume → (pool : Text) → List Text → Result InputError (Unit {0})
check_unused volume pool existing =
    if any (λ name. text_beq name volume.name) existing
    then err (volume_name_in_use pool volume.name)
    else ok tt

-- The element with the size. `number` is `u64::to_string`.
abbrev pub capacity_element : (number : ℕ → Text) → ℕ → Element
capacity_element number bytes =
    element (text "capacity") ((text "unit", text "bytes") ∷ []) (text_node (number bytes) end)

-- The document that `to_xml` writes.
unfoldable pub volume_document : (number : ℕ → Text) → NewVolume → Element
volume_document number volume =
    push
      (push (push (new_element (text "volume")) (text_element (text "name") volume.name))
        (capacity_element number volume.capacity_bytes))
      (push (new_element (text "target"))
        (element_with (text "format") ((text "type", format_text volume.format) ∷ [])))

-- `VolumeXml::name`, `path`, `backing_path` and `format`.
unfoldable pub volume_name : Element → Option Text
volume_name xml = child_text xml (text "name")

unfoldable pub volume_path : Element → Option Text
volume_path xml = and_then (get_child (text "target") xml) (λ t. child_text t (text "path"))

unfoldable pub backing_path : Element → Option Text
backing_path xml = and_then (get_child (text "backingStore") xml) (λ b. child_text b (text "path"))

unfoldable pub volume_format : Element → Option Text
volume_format xml =
    and_then (get_child (text "target") xml)
      (λ t. and_then (get_child (text "format") t) (attribute (text "type")))
