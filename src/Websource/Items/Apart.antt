-- ===== src/Websource/Items/Apart.antt =====
-- Items with keys of their own, and what sorting a page out keeps of that: unpublished of
-- app/internal/websource/service.go.
use morgenblau.Common.{
  ℕ, ◌≡◌, refl, Bool, true, false, ◌&&◌, ◌||◌, not, List, [], ◌∷◌, String, ◌==◌, eq_iff, eq_refl,
  arith, any, Bool-cases, inl, inr,
}
use morgenblau.Websource.{Library, Item, url_key}
use morgenblau.Websource.Items.{
  Known, is_member, dedupe_items, is_dropped, moved_from, sort_out, unpublished,
}
use morgenblau.Websource.Items.Gate.{is_gated, dedupe_items-is_gated, has_key}

module _ (lib : Library) where
  -- The keys of the items are distinct, and not `taken`.
  unfoldable pub apart : (String → Bool) → List Item → Bool
  apart taken [] = true
  apart taken (it ∷ items) =
      not (taken (url_key lib it.url)) && apart (λ k. url_key lib it.url == k || taken k) items

  pub apart_mono :
      (taken other : String → Bool) (items : List Item)
      → ((k : String) → taken k ≡ false → other k ≡ false)
      → apart taken items ≡ true
      → apart other items ≡ true
  unfolding apart
  apart_mono taken other [] fewer h = refl
  apart_mono taken other (it ∷ items) fewer h =
      let key = url_key lib it.url in
      let rest =
        apart_mono (λ k. key == k || taken k) (λ k. key == k || other k) items
          (λ k e. ground (arith, fewer k)) in
      ground (arith, rest, fewer key)

  pub apart_absent :
      (taken : String → Bool) (key : String) (items : List Item)
      → apart taken items ≡ true
      → taken key ≡ true
      → has_key lib key items ≡ false
  unfolding apart
  apart_absent taken key [] h t = refl
  apart_absent taken key (it ∷ items) h t =
      let own = url_key lib it.url in
      ground (arith, apart_absent (λ k. own == k || taken k) key items, eq_iff own key)

  is_gated-apart :
      (seen : List String) (items : List Item)
      → is_gated lib seen items ≡ true
      → apart (λ k. is_member k seen) items ≡ true
  unfolding is_gated apart
  is_gated-apart seen [] h = refl
  is_gated-apart seen (it ∷ items) h =
      ground (arith, is_gated-apart (url_key lib it.url ∷ seen) items)

  abbrev pub is_known_key : List Known → String → Bool
  is_known_key known key = any (λ k. url_key lib k.url == key) known

  sorted_fresh :
      (known : List Known) (oldest : ℕ) (page items : List Item) (taken : String → Bool)
      → apart taken items ≡ true
      → apart (λ k. is_known_key known k || taken k) (sort_out lib known oldest page items).0 ≡ true
  unfolding apart sort_out is_dropped
  sorted_fresh known oldest page [] taken h = refl
  sorted_fresh known oldest page (it ∷ items) taken h =
      let key = url_key lib it.url in
      let more = sort_out lib known oldest page items in
      let rest = sorted_fresh known oldest page items (λ k. key == k || taken k) (ground arith) in
      let wider =
        apart_mono (λ k. is_known_key known k || (key == k || taken k))
          (λ k. is_known_key known k || taken k) more.0 (λ k e. ground arith) rest in
      let later =
        apart_mono (λ k. is_known_key known k || (key == k || taken k))
          (λ k. key == k || (is_known_key known k || taken k)) more.0 (λ k e. ground arith) rest in
      elim (Bool-cases (is_dropped lib known oldest it)) [
        | inl dropped ↦ rw dropped wider
        | inr kept ↦ elim (Bool-cases (moved_from lib known page it)) [
          | inl old ↦ rw (kept, old) wider
          | inr new ↦ rw (kept, new) (ground (arith, later))
        ]
      ]

  sorted_moved :
      (known : List Known) (oldest : ℕ) (page items : List Item) (taken : String → Bool)
      → apart taken items ≡ true
      → apart
          (λ k.
            has_key lib k (sort_out lib known oldest page items).0
            || (is_known_key known k || taken k))
          (sort_out lib known oldest page items).1
        ≡ true
  unfolding apart sort_out is_dropped
  sorted_moved known oldest page [] taken h = refl
  sorted_moved known oldest page (it ∷ items) taken h =
      let key = url_key lib it.url in
      let more = sort_out lib known oldest page items in
      let apart_rest : apart (λ k. key == k || taken k) items ≡ true = ground arith in
      let rest = sorted_moved known oldest page items (λ k. key == k || taken k) apart_rest in
      let fresh = sorted_fresh known oldest page items (λ k. key == k || taken k) apart_rest in
      let absent =
        apart_absent (λ k. is_known_key known k || (key == k || taken k)) key more.0 fresh
          (ground (arith, eq_refl key)) in
      elim (Bool-cases (is_dropped lib known oldest it)) [
        | inl dropped ↦ rw dropped (
            apart_mono _ (λ k. has_key lib k more.0 || (is_known_key known k || taken k)) more.1
              (λ k e. ground arith) rest)
        | inr kept ↦ elim (Bool-cases (moved_from lib known page it)) [
          | inl old ↦
              let later =
                apart_mono _
                  (λ k. key == k || (has_key lib k more.0 || (is_known_key known k || taken k)))
                  more.1 (λ k e. ground arith) rest in
              rw (kept, old) (ground (arith, later, absent))
          | inr new ↦
              rw (kept, new)
                (apart_mono _
                  (λ k. (key == k || has_key lib k more.0) || (is_known_key known k || taken k))
                  more.1 (λ k e. ground arith) rest)
        ]
      ]

  -- Of a page that passed the gate, neither the fresh items nor the moved ones have a known key, and
  -- none has another's.
  pub unpublished-apart :
      (known : List Known) (oldest : ℕ) (items : List Item)
      → (apart (is_known_key known) (unpublished lib known oldest (dedupe_items lib items)).0
          ≡ true)
        × (apart
              (λ k.
                has_key lib k (unpublished lib known oldest (dedupe_items lib items)).0
                || is_known_key known k)
              (unpublished lib known oldest (dedupe_items lib items)).1
            ≡ true)
  unfolding unpublished
  unpublished-apart known oldest items =
      let page = dedupe_items lib items in
      let gated = is_gated-apart [] page (dedupe_items-is_gated lib items).0 in
      (
        apart_mono (λ k. is_known_key known k || false) (is_known_key known) _ (λ k e. ground arith)
            (sorted_fresh known oldest page page (λ k. false) gated),
        apart_mono _
            (λ k. has_key lib k (sort_out lib known oldest page page).0 || is_known_key known k) _
            (λ k e. ground arith) (sorted_moved known oldest page page (λ k. false) gated),
      )
