-- ===== src/Websource/Store/Frame.antt =====
-- What the statements of app/internal/websource/service.go leave alone.
use morgenblau.Common.{
  ℕ, ◌≡◌, refl, Option, none, some, some_inj, Bool, true, false, String, Bool-cases, inl, inr, ◌&&◌,
}
use morgenblau.Websource.{Library}
use morgenblau.Websource.Store.{
  Store, Statement, insert_spend, prune_spend, ◌>>=◌, when_works, record_spend,
}

pub bind-some :
    {A B : Type 0} (first : Option A) (next : A → Option B) (b : B)
    → (first >>= next) ≡ some b
    → (a : A) × (first ≡ some a) × (next a ≡ some b)
bind-some none next b h = cc
bind-some (some a) next b h = (a, refl, h)

pub when_works-some : {A : Type 0} (works : Bool) (a b : A) → when_works works a ≡ some b → a ≡ b
when_works-some true a b h = some_inj h
when_works-some false a b h = cc

-- Equal but for the rows of spend.
abbrev pub Same : Store → Store → Type 0
Same q r =
    (r.sources ≡ q.sources)
    × (r.aliases ≡ q.aliases)
    × (r.items ≡ q.items)
    × (r.polls ≡ q.polls)
    × (r.repairs ≡ q.repairs)

module _ (lib : Library) (works : Statement → Bool) where
  pub record_spend-Same :
      (now : ℕ) (kind : String) (usd : ℕ) (q r : Store)
      → record_spend lib works now kind usd q ≡ some r
      → Same q r
  unfolding record_spend
  record_spend-Same now kind usd q r h = elim (Bool-cases (lib.no_spend usd)) [
    | inl free ↦ let e = some_inj (rw free at h) in rw (← e) (refl, refl, refl, refl, refl)
    | inr paid ↦
        let e = when_works-some (works insert_spend && works prune_spend) _ r (rw paid at h) in
        rw (← e) (refl, refl, refl, refl, refl)
  ]
