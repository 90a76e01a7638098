-- ===== src/CommitGate/Budget.antt =====
-- What a request's budget allows through the gate of commit_gate.go.
use morgenblau.Common.{
  ℕ, ◌+◌, ◌≡◌, refl, min, none, some, Bool, true, false, List, [], ◌∷◌, arith, ◌⊎◌, inl, inr,
  if◌then◌else◌,
}
use morgenblau.CommitGate.{
  Call, list_records, get_record, Budget, Reply, commit_already_spent, from_repo, gate, handle,
}

module _ {A : Type 0} where
  abbrev pub is_commit : Call A → Bool
  is_commit (list_records a) = false
  is_commit (get_record a) = false
  is_commit _ = true

  unfoldable pub commits_asked : List (Call A) → ℕ
  commits_asked [] = 0
  commits_asked (call ∷ calls) = (if is_commit call then 1 else 0) + commits_asked calls

abbrev pub room : Budget → ℕ
room (some false) = 1
room _ = 0

module _ {A R : Type 0} where
  -- The calls that reached the repository.
  unfoldable pub forwarded : List (Call A) → List (Reply R) → List (Call A)
  forwarded (call ∷ calls) (from_repo r ∷ rs) = call ∷ forwarded calls rs
  forwarded (call ∷ calls) (commit_already_spent ∷ rs) = forwarded calls rs
  forwarded _ _ = []

module _ {A R S : Type 0} (repo : Call A → S → R × S) where
  -- The repository alone, over a list of calls.
  unfoldable pub replay : List (Call A) → S → S
  replay [] s = s
  replay (call ∷ calls) s = replay calls (repo call s).1

  -- A call goes through at the price of the budget, or is refused and changes nothing.
  abbrev Goes : Call A → Budget → S → Type 0
  Goes call b s =
      (b' : Budget) × (gate repo call b s ≡ (from_repo (repo call s).0, b', (repo call s).1))
      × (room b ≡ (if is_commit call then 1 else 0) + room b')

  abbrev Stops : Call A → Budget → S → Type 0
  Stops call b s =
      (gate repo call b s ≡ (commit_already_spent, b, s)) × (room b ≡ 0) × (is_commit call ≡ true)

  gate_cases : (call : Call A) (b : Budget) (s : S) → Goes call b s ⊎ Stops call b s
  unfolding gate
  gate_cases (list_records a) b s = inl (b, refl, omega arith)
  gate_cases (get_record a) b s = inl (b, refl, omega arith)
  gate_cases _ none s = inr (refl, refl, refl)
  gate_cases _ (some true) s = inr (refl, refl, refl)
  gate_cases _ (some false) s = inl (some true, refl, omega arith)

  -- Of a handler's commits exactly one goes through if the request has a fresh budget and none
  -- otherwise, and the repository ends as if the refused calls had never been made.
  pub one_commit :
      (calls : List (Call A)) (b : Budget) (s : S)
      → let (replies, b', s') = handle repo calls b s in
        (commits_asked (forwarded calls replies) ≡ min (commits_asked calls) (room b))
        × (s' ≡ replay (forwarded calls replies) s)
  unfolding handle forwarded commits_asked replay
  one_commit [] b s = (omega arith, refl)
  one_commit (call ∷ calls) b s = elim (gate_cases call b s) [
    | inl (b', e, price) ↦
        let (count, state) = one_commit calls b' (repo call s).1 in
        rw e (omega (arith, count, price), state)
    | inr (e, empty, commit) ↦
        let (count, state) = one_commit calls b s in rw e (omega (arith, count, empty), state)
  ]
