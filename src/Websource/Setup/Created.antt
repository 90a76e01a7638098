-- ===== src/Websource/Setup/Created.antt =====
-- A setup of a new source: storeSetup of app/internal/websource/service.go.
use morgenblau.Common.{
  ℕ, ◌≡◌, refl, Option, none, some, some_inj, Bool, true, false, ◌||◌, not, List, ◌∷◌, String, ◌==◌,
  eq_iff, eq_refl, arith, Bool-cases, Option-cases, inl, inr, ◌⊎◌, lookup,
}
use morgenblau.Websource.{WebSource}
use morgenblau.Websource.Store.{Store, Statement, ◌>>=◌}
use morgenblau.Websource.Store.Frame.{bind-some}
use morgenblau.Websource.Keys.Rows.{rows_distinct, has_row, owner, owner_absent_iff}
use morgenblau.Websource.Keys.Aliases.{fits_after}
use morgenblau.Websource.Keys.Stable.{keyed, found, keyed-distinct, keyed-fit, Keeps}
use morgenblau.Websource.{Library}
use morgenblau.Websource.Store.{create_source}
use morgenblau.Websource.Keys.{has_id, has_key, add_alias}
use morgenblau.Websource.Keys.Kept.{Keeps-trans, add_alias-Keeps, add_alias-finds}
use morgenblau.Websource.Setup.{SetupRow, Stored, new_row, add_history, add_source, stored_new}
use morgenblau.Websource.Setup.Landed.{Keeps-same, add_history_keeps}

nothing_owned :
    (key : String) (q : Store)
    → found key q ≡ none
    → (owner key q.sources ≡ none) × (lookup key q.aliases ≡ none)
nothing_owned key q nothing = elim (Option-cases (owner key q.sources)) [
  | inl absent ↦ (absent, rw absent at nothing)
  | inr (o, own) ↦ let nothing' = rw own at nothing in cc
]

-- A new source with a key that found nothing.
cons-Keeps :
    (row : WebSource) (q : Store)
    → keyed q ≡ true
    → has_id row.id q.sources ≡ false
    → found row.listing_key q ≡ none
    → Keeps q (record q { sources = row ∷ q.sources })
unfolding keyed rows_distinct owner
cons-Keeps row q h fresh nothing =
    let (unowned, unaliased) = nothing_owned row.listing_key q nothing in
    let free = owner_absent_iff row.listing_key q.sources unowned in
    let fit =
      fits_after row.listing_key q.sources (row ∷ q.sources) q.aliases (λ i e. ground arith)
        (λ k n e. ground arith) unaliased (keyed-fit q h) in
    (
      ground (arith, fit, keyed-distinct q h),
      λ k i e. elim (Bool-cases (row.listing_key == k)) [
        | inl own ↦ let e' = rw (← (eq_iff row.listing_key k).0 own, nothing) at e in cc
        | inr other ↦ rw other e
      ],
    )

new_row_there :
    (lib : Library) (setup : SetupRow) (id did : String) (now interval : ℕ) (rows : List WebSource)
    → has_row
        (new_row lib setup id did now interval).id
        (new_row lib setup id did now interval).listing_key
        (new_row lib setup id did now interval ∷ rows)
      ≡ true
unfolding new_row
new_row_there lib setup id did now interval rows = rw (eq_refl id, eq_refl setup.key) refl

new_row_finds :
    (lib : Library) (setup : SetupRow) (id did : String) (now interval : ℕ) (q r : Store)
    → found setup.pasted_key q ≡ none
    → r ≡ record q { sources = new_row lib setup id did now interval ∷ q.sources }
    → (found setup.pasted_key r ≡ none)
      ⊎ (found setup.pasted_key r ≡ some (new_row lib setup id did now interval).id)
unfolding new_row owner
new_row_finds lib setup id did now interval q r nothing e =
    elim (Bool-cases (setup.key == setup.pasted_key)) [
      | inl same ↦ inr (rw (e, same) refl)
      | inr moved_ ↦ inl (rw (e, moved_) nothing)
    ]

module _ (lib : Library) (works : Statement → Bool) (now interval : ℕ) where
  add_source-Keeps :
      (setup : SetupRow) (id did : String) (q r : Store)
      → keyed q ≡ true
      → found setup.key q ≡ none
      → add_source lib works now interval setup id did q ≡ some r
      → (Keeps q r) × (r ≡ record q { sources = new_row lib setup id did now interval ∷ q.sources })
  unfolding add_source new_row
  add_source-Keeps setup id did q r h nothing e =
      elim (Bool-cases
        (not (works create_source) || has_id id q.sources || has_key setup.key q.sources)) [
          | inl refused ↦ let e' = rw refused at e in cc
          | inr made ↦
              let same = some_inj (rw made at e) in
              rw (← same) (
                cons-Keeps (new_row lib setup id did now interval) q h (ground arith) nothing,
                refl,
              )
        ]

  pub stored_new-Keeps :
      (did : String) (setup : SetupRow) (q : Store) (new_id : Option String) (r : Stored)
      → keyed q ≡ true
      → found setup.pasted_key q ≡ none
      → found setup.key q ≡ none
      → stored_new lib works now interval did setup q new_id ≡ some r
      → (Keeps q r.store) × (found setup.pasted_key r.store ≡ some r.id)
  unfolding stored_new new_row
  stored_new-Keeps did setup q none r h unpasted nothing e = cc
  stored_new-Keeps did setup q (some id) r h unpasted nothing e =
      let row = new_row lib setup id did now interval in
      let (b, named, e1) =
        bind-some
          (add_source lib works now interval setup id did q
            >>= add_alias works setup.pasted_key row
            >>= add_history lib works now interval id setup.gen)
          _ r e in
      let (a, aliased_, filled) =
        bind-some
          (add_source lib works now interval setup id did q
            >>= add_alias works setup.pasted_key row)
          _ b named in
      let (made, added, alias) =
        bind-some (add_source lib works now interval setup id did q) _ a aliased_ in
      let (keeps, same) = add_source-Keeps setup id did q made h nothing added in
      let there : has_row row.id row.listing_key made.sources ≡ true =
        rw same (new_row_there lib setup id did now interval q.sources) in
      let finds = new_row_finds lib setup id did now interval q made unpasted same in
      let keeps' = add_alias-Keeps works setup.pasted_key row made a keeps.0 there finds alias in
      let found_ = add_alias-finds works setup.pasted_key row made a keeps.0 there finds alias in
      let (sources, aliases) = add_history_keeps lib works now interval id setup.gen a b filled in
      let all = Keeps-same q a b (Keeps-trans q made a keeps keeps') sources aliases in
      rw (← some_inj e1) (all, rw (sources, aliases) found_)
