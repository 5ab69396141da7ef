-- ===== src/Delete/Loop.antt =====
-- The deletion of the disks in crates/lodger-virt/src/delete.rs.
use mathlib.Core.List.{Permᴰ}
use mathlib.Core.List.Permᴰ
use mathlib.Core.List.Permᴰ.{cons, swap, trans}
use lodger.Map.{get}
use lodger.Host.{no_storage_volume, ◌>>=◌}
use lodger.Prelude.Equality.{text_eq}
use lodger.Prelude.{
  ◌≡◌, refl, Bool, true, not, ◌&&◌, List, [], ◌∷◌, Option, none, some, Option-cases, ok, is_some,
  map, ◌++◌, All, All-append, Result-cases, Bool-cases, ◌⊎◌, inl, inr,
}
use lodger.Validate.{Text}
use lodger.Delete.{
  SkipReason, Skipped, failed, not_in_pool, is_shared, used_by, Removal, Target, VmApi, delete_path,
  delete_target, report_target, delete_targets,
}

-- A disk that no other VM may use.
abbrev pub is_free : List (Text × Text) → Target → Bool
is_free users t = not t.shared && not (is_some (get t.key users))

-- The path of a free disk among the targets.
abbrev pub FreeIn : List (Text × Text) → List Target → Text → Type 0
FreeIn users [] p = ⊥
FreeIn users (t ∷ ts) p = ((is_free users t ≡ true) × (t.path ≡ p)) ⊎ FreeIn users ts p

abbrev pub target_paths : List Target → List Text
target_paths ts = map (λ t. t.path) ts

-- The paths that a report tells of.
abbrev pub paths_told : Removal → List Text
paths_told r = r.removed ++ map (λ x. x.path) r.skipped

-- A path that is added to either list of a report.
removed-Permᴰ :
    (p : Text) (removed others : List Text)
    → Permᴰ ((removed ++ p ∷ []) ++ others) (p ∷ (removed ++ others))
removed-Permᴰ p [] others = Permᴰ.refl (p ∷ others)
removed-Permᴰ p (x ∷ removed) others =
    trans (cons refl (removed-Permᴰ p removed others)) (swap refl refl)

skipped-Permᴰ :
    (x : Skipped) (removed : List Text) (skipped : List Skipped)
    → Permᴰ
        (removed ++ map (λ x. x.path) (skipped ++ x ∷ []))
        (x.path ∷ (removed ++ map (λ x. x.path) skipped))
skipped-Permᴰ x [] [] = Permᴰ.refl (x.path ∷ [])
skipped-Permᴰ x [] (y ∷ skipped) = trans (cons refl (skipped-Permᴰ x [] skipped)) (swap refl refl)
skipped-Permᴰ x (p ∷ removed) skipped =
    trans (cons refl (skipped-Permᴰ x removed skipped)) (swap refl refl)

module _ {S Domain Pool Volume : Type 0} (api : VmApi S Domain Pool Volume) where
  delete_path-ok :
      (path : Text) (s : S) → (o : Option SkipReason) × ((delete_path api path s).1 ≡ ok o)
  unfolding delete_path ◌>>=◌
  delete_path-ok path s = elim (Result-cases (api.lookup_volume_by_path path s).1) [
    | inl (held, found) ↦
        elim (Result-cases (api.delete_volume held (api.lookup_volume_by_path path s).0).1) [
          | inl (_, done) ↦ (none, rw (delete_path, found, done) refl)
          | inr (e, kept) ↦ (some (failed e.message), rw (delete_path, found, kept) refl)
        ]
    | inr (e, missing) ↦ (
      some (elim (e.code) [ no_storage_volume ↦ not_in_pool | _ ↦ failed e.message ]),
      rw (delete_path, missing) refl,
    )
  ]

  delete_target-ok :
      (users : List (Text × Text)) (t : Target) (s : S)
      → (o : Option SkipReason) × ((delete_target api users t s).1 ≡ ok o)
        × (o ≡ none → is_free users t ≡ true)
  unfolding delete_target
  delete_target-ok users t s = elim (Bool-cases t.shared) [
    | inl shared ↦ (some is_shared, rw (delete_target, shared) refl, λ e. absurd cc)
    | inr own ↦ elim (Option-cases (get t.key users)) [
      | inl unused ↦
          let (o, deleted) = delete_path-ok t.path s in
          (o, rw (delete_target, own, unused) deleted, λ _. rw (own, unused) refl)
      | inr (user, used) ↦ (some (used_by user), rw (delete_target, own, used) refl, λ e. absurd cc)
    ]
  ]

  report-Permᴰ :
      (t : Target) (o : Option SkipReason) (r : Removal)
      → Permᴰ (paths_told (report_target api t o r)) (t.path ∷ paths_told r)
  unfolding report_target
  report-Permᴰ t none r = removed-Permᴰ t.path r.removed (map (λ x. x.path) r.skipped)
  report-Permᴰ t (some reason) r =
      skipped-Permᴰ (record { path = t.path; reason = reason }) r.removed r.skipped

  report-All :
      (Q : Text → Type 0) (t : Target) (o : Option SkipReason) (r : Removal)
      → All Q r.removed
      → (o ≡ none → Q t.path)
      → All Q (report_target api t o r).removed
  unfolding report_target
  report-All Q t none r h f = All-append Q r.removed (t.path ∷ []) h (f refl, tt)
  report-All Q t (some reason) r h f = h

  -- The deletion of disks never fails. Each disk that it reports as removed was free: neither shared nor
  -- used by another VM; and the paths that the report tells of, as removed or as skipped, are a
  -- rearrangement of those of the disks and of the report before.
  pub delete_targets-report :
      (users : List (Text × Text)) (ts : List Target) (r : Removal) (s : S)
      → (r' : Removal) × ((delete_targets api users ts r s).1 ≡ ok r')
        × Permᴰ (paths_told r') (target_paths ts ++ paths_told r)
        × ((Q : Text → Type 0)
            → All Q r.removed
            → ((p : Text) → FreeIn users ts p → Q p)
            → All Q r'.removed)
  unfolding delete_targets ◌>>=◌
  delete_targets-report users [] r s = (r, refl, Permᴰ.refl (paths_told r), λ Q h f. h)
  delete_targets-report users (t ∷ ts) r s =
      let (o, done, free) = delete_target-ok users t s in
      let s' = (delete_target api users t s).0 in
      let (r', rest, told, freed) = delete_targets-report users ts (report_target api t o r) s' in
      (
        r',
        rw (delete_targets, done) rest,
        trans told (
            trans (Permᴰ.append_left (target_paths ts) (report-Permᴰ t o r))
              (Permᴰ.middle t.path (target_paths ts) (paths_told r))),
        λ Q h f.
            freed Q (report-All Q t o r h (λ e. f t.path (inl (free e, refl))))
              (λ p i. f p (inr i)),
      )
