-- ===== src/Xml/DomainLaws.antt =====
-- What the readers of a domain's document say of each other.
use lodger.Prelude.{
  ◌≡◌, ◌⊎◌, refl, Option-cases, List, [], ◌∷◌, Result, ok, err, arith, Result-cases, Bool-cases,
  inl, inr, All, text,
}
use lodger.Validate.{Text}
use lodger.Xml.{Element, XmlError, parse}
use lodger.Xml.Domain.{
  DiskSource, Disk, devices_of, is_disk, disk, is_data_device, data_disks, disk_sources,
  domain_disks, domain_disk_sources,
}

abbrev pub IsAmong : {A : Type 0} → A → List A → Type 0
IsAmong x [] = ⊥
IsAmong x (y ∷ ys) = (x ≡ y) ⊎ IsAmong x ys

later_All :
    (s : DiskSource) (sources : List DiskSource) (disks : List Disk)
    → All (λ d. IsAmong d.source sources) disks
    → All (λ d. IsAmong d.source (s ∷ sources)) disks
later_All s sources [] h = tt
later_All s sources (d ∷ disks) (first, rest) = (inr first, later_All s sources disks rest)

data_disks-IsAmong :
    (es : List Element) → All (λ d. IsAmong d.source (disk_sources es)) (data_disks es)
unfolding data_disks disk_sources
data_disks-IsAmong [] = tt
data_disks-IsAmong (e ∷ rest) = elim (Bool-cases (is_disk e)) [
  | inr another ↦ rw another (data_disks-IsAmong rest)
  | inl is ↦ elim (Option-cases (disk e)) [
    | inl unread ↦ elim (Bool-cases (is_data_device e)) [
      | inl holds ↦ rw (is, holds, unread) (data_disks-IsAmong rest)
      | inr other ↦ rw (is, other, unread) (data_disks-IsAmong rest)
    ]
    | inr (d, read) ↦
        let later =
          later_All d.source (disk_sources rest) (data_disks rest) (data_disks-IsAmong rest) in
        elim (Bool-cases (is_data_device e)) [
          | inl holds ↦ rw (is, holds, read) (inl refl, later)
          | inr other ↦ rw (is, other, read) later
        ]
  ]
]

-- Whatever the document is, the two readers of disks accept and refuse the same ones, and the source of
-- each data disk, which a deletion may remove, is among the sources that count as in use.
pub domain_disks-IsAmong :
    (parse_element : Text → Result Text Element) (xml : Text)
    → ((disks : List Disk) × (sources : List DiskSource) × (domain_disks parse_element xml
          ≡ ok disks)
        × (domain_disk_sources parse_element xml ≡ ok sources)
        × All (λ d. IsAmong d.source sources) disks)
      ⊎ ((e : XmlError) × (domain_disks parse_element xml ≡ err e)
          × (domain_disk_sources parse_element xml ≡ err e))
unfolding domain_disks domain_disk_sources
domain_disks-IsAmong parse_element xml =
    elim (Result-cases (parse parse_element xml (text "domain"))) [
      | inr (e, bad) ↦ inr (e, ground (arith, bad), ground (arith, bad))
      | inl (domain, read) ↦ inl (
        data_disks (devices_of domain),
        disk_sources (devices_of domain),
        ground (arith, read),
        ground (arith, read),
        data_disks-IsAmong (devices_of domain),
      )
    ]
