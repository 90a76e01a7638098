-- ===== src/Websource/Items/Gate.antt =====
-- What the gate for items of app/internal/websource/service.go lets through.
use morgenblau.Common.{
  ℕ, suc, ◌+◌, ◌-◌, ◌≤◌, ◌<◌, In, eq_refl, ◌≡◌, refl, Bool, true, ◌&&◌, ◌||◌, not, List, [], ◌∷◌,
  String, ◌==◌, eqb, eq_iff, arith, any, length, Bool-cases, inl, inr,
}
use morgenblau.Websource.{Library, Item, url_key}
use morgenblau.Websource.Items.{is_member, is_web_link, dedupe_from, dedupe_items}

module _ (lib : Library) where
  -- Every item is a web link with a key of its own, outside `seen`.
  unfoldable pub is_gated : List String → List Item → Bool
  is_gated seen [] = true
  is_gated seen (it ∷ items) =
      is_web_link lib it.url
      && not (is_member (url_key lib it.url) seen)
      && is_gated (url_key lib it.url ∷ seen) items

  dedupe_from-is_gated :
      (seen : List String) (kept : ℕ) (items : List Item)
      → is_gated seen (dedupe_from lib seen kept items) ≡ true
  unfolding dedupe_from is_gated
  dedupe_from-is_gated seen kept [] = refl
  dedupe_from-is_gated seen kept (it ∷ items) =
      let key = url_key lib (lib.trim_space it.url) in
      let passed_over = dedupe_from-is_gated seen kept items in
      let rest = dedupe_from-is_gated (key ∷ seen) (suc kept) items in
      ground (arith, passed_over, rest)

  length-dedupe_from :
      (seen : List String) (kept : ℕ) (items : List Item)
      → kept ≤ 200
      → length (dedupe_from lib seen kept items) ≤ 200 - kept
  unfolding dedupe_from
  length-dedupe_from seen kept [] h = omega arith
  length-dedupe_from seen kept (it ∷ items) h =
      let key = url_key lib (lib.trim_space it.url) in
      ground (
        arith,
        length-dedupe_from seen kept items,
        length-dedupe_from (key ∷ seen) (suc kept) items,
      )

  -- Whether an item of the list has this key.
  abbrev pub has_key : String → List Item → Bool
  has_key key items = any (λ it. url_key lib it.url == key) items

  dedupe_from-has_key :
      (seen : List String) (kept : ℕ) (items : List Item) (it : Item)
      → In it items
      → is_web_link lib (lib.trim_space it.url) ≡ true
      → kept + length (dedupe_from lib seen kept items) < 200
      → (is_member (url_key lib (lib.trim_space it.url)) seen
          || has_key (url_key lib (lib.trim_space it.url)) (dedupe_from lib seen kept items))
        ≡ true
  unfolding dedupe_from
  dedupe_from-has_key seen kept [] it i link room = elim i [ ]
  dedupe_from-has_key seen kept (head ∷ items) it (inl e) link room =
      let key = url_key lib (lib.trim_space it.url) in rw (← e) (ground (arith, eq_refl key))
  dedupe_from-has_key seen kept (head ∷ items) it (inr i) link room =
      let key = url_key lib (lib.trim_space head.url) in
      elim (Bool-cases (eqb kept 200)) [
        | inl full ↦ absurd (ground arith)
        | inr more ↦
            elim (Bool-cases
              (is_member key seen || not (is_web_link lib (lib.trim_space head.url)))) [
                | inl over ↦
                    rw (more, over)
                      (dedupe_from-has_key seen kept items it i link (rw (more, over) at room))
                | inr new ↦
                    rw (more, new)
                      (let room' = rw (more, new) at room in
                        let rest =
                          dedupe_from-has_key (key ∷ seen) (suc kept) items it i link
                            (omega (arith, room')) in
                        ground (arith, rest, eq_iff key (url_key lib (lib.trim_space it.url))))
              ]
      ]

-- What the gate lets through of a page are at most 200 items, each a web link with a key that no
-- earlier one has.
pub dedupe_items-is_gated :
    (lib : Library) (items : List Item)
    → (is_gated lib [] (dedupe_items lib items) ≡ true) × (length (dedupe_items lib items) ≤ 200)
unfolding dedupe_items
dedupe_items-is_gated lib items =
    (dedupe_from-is_gated lib [] 0 items, length-dedupe_from lib [] 0 items (omega arith))

-- If the gate lets fewer than 200 items of a page through, then every item of the page whose trimmed
-- URL is a web link is among them, by the key of that URL.
pub gate_loses_no_post :
    (lib : Library) (items : List Item) (it : Item)
    → In it items
    → is_web_link lib (lib.trim_space it.url) ≡ true
    → length (dedupe_items lib items) < 200
    → has_key lib (url_key lib (lib.trim_space it.url)) (dedupe_items lib items) ≡ true
unfolding dedupe_items
gate_loses_no_post lib items it i link room =
    dedupe_from-has_key lib [] 0 items it i link (omega (arith, room))
