-- ===== src/Websource/Items/Sorted.antt =====
-- What the loop of unpublished in app/internal/websource/service.go makes of each item of a page.
use morgenblau.Common.{
  ℕ, ◌<◌, ◌≡◌, ◌≢◌, ◌↔◌, ◌⊎◌, refl, Bool, true, false, ◌&&◌, not, List, [], ◌∷◌, Bool-cases, inl,
  inr, keep_if, any, In, All, some_of_any, any_of_In, eq_iff, arith, ◌==◌,
}
use morgenblau.Websource.{Library, Item, url_key}
use morgenblau.Websource.Items.{Known, is_dropped, moved_from, on_page, sort_out, unpublished}

differs : {b : Bool} {P : Type 0} → (b ≡ true) ↔ P → ¬ P → b ≡ false
differs {b = true} f n = elim (n (f.0 refl)) [ ]
differs {b = false} f n = refl

and3 : {a b c : Bool} → a ≡ true → b ≡ false → c ≡ false → (a && not b && not c) ≡ true
and3 h k l = rw (h, k, l) refl

of_and3 : {a b c : Bool} → (a && not b && not c) ≡ true → (a ≡ true) × (b ≡ false) × (c ≡ false)
of_and3 {a = a} {b = b} {c = c} h = (ground arith, ground arith, ground arith)

excluded : {b : Bool} {P : Type 0} → (b ≡ true) ↔ P → (b ≡ false) ↔ (¬ P)
excluded f = ((λ e p. cc (f.1 p)), differs f)

module _ (lib : Library) (known : List Known) (it : Item) where
  -- A stored item has the item's address.
  abbrev pub IsKnown : Type 0
  IsKnown = (k : Known) × In k known × (url_key lib k.url ≡ url_key lib it.url)

  -- Both dates are there, and the item's is before the oldest stored one.
  abbrev pub IsOlder : ℕ → Type 0
  IsOlder oldest = (it.date ≢ 0) × (oldest ≢ 0) × (it.date < oldest)

  -- A stored item of the same title had an address of another shape, at which the page has nothing.
  abbrev pub IsMigrated : List Item → Type 0
  IsMigrated page =
      (k : Known) × In k known
      × (lib.title_key k.title ≡ lib.title_key it.title)
      × All (λ j. url_key lib j.url ≢ url_key lib k.url) page
      × (lib.url_template k.url ≢ lib.url_template it.url)

  is_dropped_lem :
      (oldest : ℕ) → (is_dropped lib known oldest it ≡ true) ↔ (IsKnown ⊎ IsOlder oldest)
  unfolding is_dropped
  is_dropped_lem oldest = (
    λ h. elim (Bool-cases (any (λ k. url_key lib k.url == url_key lib it.url) known)) [
      | inl e ↦
          let (k, i, same) = some_of_any (λ k. url_key lib k.url == url_key lib it.url) known e in
          inl (k, i, (eq_iff (url_key lib k.url) (url_key lib it.url)).0 same)
      | inr e ↦ inr (ground arith, ground arith, ground arith)
    ],
    λ h. elim h [
      | inl (k, i, same) ↦
          rw
            (any_of_In (λ k. url_key lib k.url == url_key lib it.url) k known i
              ((eq_iff (url_key lib k.url) (url_key lib it.url)).1 same))
            refl
      | inr (dated, limit, before) ↦ ground arith
    ],
  )

  off_page :
      (k : Known) (page : List Item)
      → (on_page lib page k.url ≡ false) ↔ All (λ j. url_key lib j.url ≢ url_key lib k.url) page
  off_page k [] = (λ h. tt, λ h. refl)
  off_page k (j ∷ page) =
      let rest = off_page k page in
      let here = eq_iff (url_key lib j.url) (url_key lib k.url) in
      elim (Bool-cases (url_key lib j.url == url_key lib k.url)) [
        | inl hit ↦ rw hit (λ h. cc, λ h. elim (h.0 (here.0 hit)) [ ])
        | inr miss ↦ rw miss (λ h. ((λ e. cc (here.1 e)), rest.0 h), λ h. rest.1 h.1)
      ]

  moves_from : List Item → Known → Bool
  moves_from page k =
      lib.title_key k.title == lib.title_key it.title
      && not (on_page lib page k.url)
      && not (lib.url_template k.url == lib.url_template it.url)

  moves_from_lem :
      (k : Known) (page : List Item)
      → (moves_from page k ≡ true) ↔ (
          (lib.title_key k.title ≡ lib.title_key it.title)
          × All (λ j. url_key lib j.url ≢ url_key lib k.url) page
          × (lib.url_template k.url ≢ lib.url_template it.url))
  unfolding moves_from
  moves_from_lem k page =
      let title = eq_iff (lib.title_key k.title) (lib.title_key it.title) in
      let gone = off_page k page in
      let shape = eq_iff (lib.url_template k.url) (lib.url_template it.url) in
      (
        λ h. let (a, b, c) = of_and3 h in (title.0 a, gone.0 b, (excluded shape).0 c),
        λ (same, absent, other). and3 (title.1 same) (gone.1 absent) ((excluded shape).1 other),
      )

  moved_from_lem : (page : List Item) → (moved_from lib known page it ≡ true) ↔ IsMigrated page
  unfolding moved_from moves_from
  moved_from_lem page = (
    λ h.
        let (k, i, e) = some_of_any (moves_from page) known h in
        let (title, gone, shape) = (moves_from_lem k page).0 e in (k, i, title, gone, shape),
    λ (k, i, title, gone, shape).
        any_of_In (moves_from page) k known i ((moves_from_lem k page).1 (title, gone, shape)),
  )

In-keep_if :
    {A : Type 0} (p : A → Bool) (a : A) (xs : List A)
    → In a (keep_if p xs) ↔ (In a xs × (p a ≡ true))
In-keep_if p a [] = (λ i. elim i [ ], λ (i, e). i)
In-keep_if p a (x ∷ xs) = elim (Bool-cases (p x)) [
  | inl e ↦ rw e (
    λ i. elim i [
      | inl same ↦ (inl same, rw same e)
      | inr i ↦ let (j, h) = (In-keep_if p a xs).0 i in (inr j, h)
    ],
    λ (i, h). elim i [ inl same ↦ inl same | inr j ↦ inr ((In-keep_if p a xs).1 (j, h)) ],
  )
  | inr e ↦ rw e (
    λ i. let (j, h) = (In-keep_if p a xs).0 i in (inr j, h),
    λ (i, h). elim i [ inl same ↦ cc (h, e, same) | inr j ↦ (In-keep_if p a xs).1 (j, h) ],
  )
]

module _ (lib : Library) (known : List Known) (oldest : ℕ) (page : List Item) where
  is_fresh : Item → Bool
  is_fresh it = not (is_dropped lib known oldest it) && not (moved_from lib known page it)

  is_moved : Item → Bool
  is_moved it = not (is_dropped lib known oldest it) && moved_from lib known page it

  sort_out-keep_if :
      (items : List Item)
      → sort_out lib known oldest page items ≡ (keep_if is_fresh items, keep_if is_moved items)
  unfolding sort_out is_fresh is_moved
  sort_out-keep_if [] = refl
  sort_out-keep_if (it ∷ items) =
      let rest = sort_out-keep_if items in
      elim (Bool-cases (is_dropped lib known oldest it)) [
        | inl dropped ↦ rw (dropped, rest) refl
        | inr kept ↦ elim (Bool-cases (moved_from lib known page it)) [
          | inl old ↦ rw (kept, old, rest) refl
          | inr new ↦ rw (kept, new, rest) refl
        ]
      ]

-- An item of the page joins the feed as history exactly if no stored item has its address, it is not
-- dated before the oldest stored date, and a stored item of its title had an address of another shape
-- at which the page has nothing; it joins as a new post exactly if the first two hold and there is no
-- such stored item. Nothing joins that is not on the page. (An item or a feed without a date is
-- never too old.)
pub unpublished_exact :
    (lib : Library) (known : List Known) (oldest : ℕ) (page : List Item) (it : Item)
    → (In it (unpublished lib known oldest page).1 ↔ (
        In it page
        × (¬ (IsKnown lib known it ⊎ IsOlder lib known it oldest))
        × IsMigrated lib known it page))
      × (In it (unpublished lib known oldest page).0 ↔ (
          In it page
          × (¬ (IsKnown lib known it ⊎ IsOlder lib known it oldest))
          × (¬ IsMigrated lib known it page)))
unfolding unpublished is_fresh is_moved
unpublished_exact lib known oldest page it =
    let old = excluded (is_dropped_lem lib known it oldest) in
    let gone = moved_from_lem lib known it page in
    let new = excluded gone in
    rw (sort_out-keep_if lib known oldest page page) (
      (
        λ i.
            let (j, e) = (In-keep_if (is_moved lib known oldest page) it page).0 i in
            (j, old.0 (ground arith), gone.0 (ground arith)),
        λ (j, n, m).
            (In-keep_if (is_moved lib known oldest page) it page).1
              (j, rw (old.1 n, gone.1 m) refl),
      ),
      (
        λ i.
            let (j, e) = (In-keep_if (is_fresh lib known oldest page) it page).0 i in
            (j, old.0 (ground arith), new.0 (ground arith)),
        λ (j, n, m).
            (In-keep_if (is_fresh lib known oldest page) it page).1 (j, rw (old.1 n, new.1 m) refl),
      ),
    )
