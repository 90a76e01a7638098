-- ===== src/Websource/Keys/Landing.antt =====
-- The source that a setup lands on: storedSource of app/internal/websource/service.go.
use morgenblau.Common.{
  ◌≡◌, ap, sym, ◌∙◌, Option, none, some, some_inj, Bool, true, false, String, ◌==◌, eq_iff,
  Bool-cases, inl, inr, ◌⊎◌,
}
use morgenblau.Websource.{WebSource}
use morgenblau.Websource.Store.{Store, Statement, get_by_key, when_works}
use morgenblau.Websource.Store.Frame.{bind-some, when_works-some}
use morgenblau.Websource.Keys.{source_by_key}
use morgenblau.Websource.Keys.Rows.{has_row}
use morgenblau.Websource.Keys.Stable.{keyed, id_of, found, source_by_key-found}
use morgenblau.Websource.Keys.{stored_source, stored_by_key, by_keys, replaced_or, source_by_id}
use morgenblau.Websource.Keys.Kept.{find_row-has_row, source_by_key-has_row}
use morgenblau.Websource.Store.{get_source}

-- The row is in the table, and it is the one to replace, or the pasted key finds it or nothing.
abbrev pub LandsOn : String → String → Store → WebSource → Type 0
LandsOn replaces pasted_key q row =
    (has_row row.id row.listing_key q.sources ≡ true)
    × (((row.id == replaces) ≡ true)
        ⊎ ((found pasted_key q ≡ none) ⊎ (found pasted_key q ≡ some row.id)))

abbrev pub LandsNowhere : String → String → Store → Type 0
LandsNowhere pasted_key key q = (found pasted_key q ≡ none) × (found key q ≡ none)

abbrev pub Landing : String → String → String → Store → Option WebSource → Type 0
Landing replaces pasted_key key q none = LandsNowhere pasted_key key q
Landing replaces pasted_key key q (some row) = LandsOn replaces pasted_key q row

module _ (works : Statement → Bool) (replaces pasted_key key : String) (q : Store)
    (h : keyed q ≡ true) where
  asked_key :
      (k : String) (o : Option WebSource)
      → when_works (works (get_by_key k)) (source_by_key k q) ≡ some o
      → (id_of o ≡ found k q) × (source_by_key k q ≡ o)
  asked_key k o e =
      let same = when_works-some (works (get_by_key k)) (source_by_key k q) o e in
      (ap id_of (sym same) ∙ source_by_key-found q k h, same)

  second_key :
      (o : Option WebSource)
      → found pasted_key q ≡ none
      → when_works (works (get_by_key key)) (source_by_key key q) ≡ some o
      → Landing replaces pasted_key key q o
  second_key none nothing e = (nothing, sym (asked_key key none e).0)
  second_key (some row) nothing e =
      (source_by_key-has_row q key row (asked_key key (some row) e).1, inr (inl nothing))

  first_key :
      (first o : Option WebSource)
      → when_works (works (get_by_key pasted_key)) (source_by_key pasted_key q) ≡ some first
      → stored_by_key works pasted_key key q first ≡ some o
      → Landing replaces pasted_key key q o
  unfolding stored_by_key
  first_key (some row) o e e' =
      let (finds, same) = asked_key pasted_key (some row) e in
      rw (← some_inj e') (source_by_key-has_row q pasted_key row same, inr (inr (sym finds)))
  first_key none o e e' =
      let nothing = sym (asked_key pasted_key none e).0 in
      elim (Bool-cases (key == pasted_key)) [
        | inl same ↦
            rw (← some_inj (rw same at e')) (nothing, rw ((eq_iff key pasted_key).0 same) nothing)
        | inr other ↦ second_key o nothing (rw other at e')
      ]

  by_keys-Landing :
      (o : Option WebSource)
      → by_keys works pasted_key key q ≡ some o
      → Landing replaces pasted_key key q o
  unfolding by_keys
  by_keys-Landing o e =
      let (first, asked, e') =
        bind-some (when_works (works (get_by_key pasted_key)) (source_by_key pasted_key q)) _ o e in
      first_key first o asked e'

  replaced-Landing :
      (own o : Option WebSource)
      → source_by_id replaces q ≡ own
      → replaced_or works pasted_key key q own ≡ some o
      → Landing replaces pasted_key key q o
  unfolding replaced_or source_by_id
  replaced-Landing none o e e' = by_keys-Landing o e'
  replaced-Landing (some row) o e e' =
      let (there, itself) = find_row-has_row (λ r. r.id == replaces) q.sources row e in
      rw (← some_inj e') (there, inl itself)

  pub stored_source-Landing :
      (o : Option WebSource)
      → stored_source works replaces pasted_key key q ≡ some o
      → Landing replaces pasted_key key q o
  unfolding stored_source
  stored_source-Landing o e = elim (Bool-cases (replaces == "")) [
    | inl fresh ↦ by_keys-Landing o (rw fresh at e)
    | inr given ↦
        let (own, asked, e') =
          bind-some (when_works (works get_source) (source_by_id replaces q)) _ o (rw given at e) in
        replaced-Landing own o
          (when_works-some (works get_source) (source_by_id replaces q) own asked) e'
  ]

-- A source to replace that is there is the one.
pub asked_source :
    (works : Statement → Bool) (replaces pasted_key key : String) (q : Store) (row : WebSource)
    (o : Option WebSource)
    → (replaces == "") ≡ false
    → source_by_id replaces q ≡ some row
    → stored_source works replaces pasted_key key q ≡ some o
    → some row ≡ o
unfolding stored_source replaced_or
asked_source works replaces pasted_key key q row o given there e =
    let (own, asked, e') =
      bind-some (when_works (works get_source) (source_by_id replaces q)) _ o (rw given at e) in
    let same = when_works-some (works get_source) (source_by_id replaces q) own asked in
    some_inj (rw (sym same ∙ there) at e')
