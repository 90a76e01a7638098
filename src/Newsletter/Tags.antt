-- ===== src/Newsletter/Tags.antt =====
-- cleanTags of app/internal/newsletter/service.go.
use morgenblau.Common.{
  ℕ, ◌≡◌, refl, Option, none, some, Bool, true, ◌&&◌, ◌||◌, not, List, [], ◌∷◌, String, ◌==◌, ltb,
  if◌then◌else◌, any, arith, Bool-cases, Option-cases, inl, inr, some_inj,
}

pub record TagLibrary : Type 0 where
  pub trim_space : String → String
  pub to_lower : String → String
  pub rune_count : String → ℕ
  pub to_json : List String → String

module _ (lib : TagLibrary) where
  abbrev pub is_bad : String → Bool
  is_bad tag = tag == "" || ltb 64 (lib.rune_count tag)

  abbrev pub prepend : String → Option (List String) → Option (List String)
  prepend tag none = none
  prepend tag (some tags) = some (tag ∷ tags)

  -- The loop; one bad tag refuses them all.
  unfoldable pub clean_from : List String → List String → Option (List String)
  clean_from seen [] = some []
  clean_from seen (raw ∷ tags) =
      let tag = lib.trim_space raw in
      let key = lib.to_lower tag in
      let skipped = clean_from seen tags in
      let rest = clean_from (key ∷ seen) tags in
      if is_bad tag then none else (if any (λ k. k == key) seen then skipped else prepend tag rest)

  unfoldable pub clean_tags : List String → Option (List String)
  unfolding clean_from
  clean_tags tags = clean_from [] tags

  -- Every tag is good, and none has the lower-case form of another or of one `seen`.
  unfoldable pub are_clean : List String → List String → Bool
  are_clean seen [] = true
  are_clean seen (tag ∷ tags) =
      not (is_bad tag)
      && not (any (λ k. k == lib.to_lower tag) seen)
      && are_clean (lib.to_lower tag ∷ seen) tags

  clean_from-are_clean :
      (seen tags cleaned : List String)
      → clean_from seen tags ≡ some cleaned
      → are_clean seen cleaned ≡ true
  unfolding clean_from are_clean
  clean_from-are_clean seen [] cleaned h = rw (← some_inj h) refl
  clean_from-are_clean seen (raw ∷ tags) cleaned h =
      let tag = lib.trim_space raw in
      let key = lib.to_lower tag in
      elim (Bool-cases (is_bad tag)) [
        | inl bad ↦ let h' = rw bad at h in cc
        | inr good ↦ elim (Bool-cases (any (λ k. k == key) seen)) [
          | inl twice ↦ clean_from-are_clean seen tags cleaned (rw (good, twice) at h)
          | inr new ↦
              let h' = rw (good, new) at h in
              elim (Option-cases (clean_from (key ∷ seen) tags)) [
                | inl refused ↦ let h'' = rw refused at h' in cc
                | inr (rest, e) ↦
                    let later = clean_from-are_clean (key ∷ seen) tags rest e in
                    rw (← some_inj (rw e at h')) (ground (arith, later))
              ]
        ]
      ]

-- Tags that pass are not empty, have at most 64 characters, and differ even in lower case.
pub cleaned_tags_distinct :
    (lib : TagLibrary) (tags cleaned : List String)
    → clean_tags lib tags ≡ some cleaned
    → are_clean lib [] cleaned ≡ true
unfolding clean_tags
cleaned_tags_distinct lib tags cleaned h = clean_from-are_clean lib [] tags cleaned h
