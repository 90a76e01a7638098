-- ===== src/CommitGate.antt =====
-- app/internal/api/commit_gate.go: one PDS commit for each mutation request. The repository behind
-- the gate is a parameter: what a call sends to it and what it answers.
pub mod Budget
use morgenblau.Common.{
  ℕ, zero, suc, ◌+◌, ◌≤◌, ◌≡◌, refl, Option, none, some, Bool, true, false, List, [], ◌∷◌, arith,
  if◌then◌else◌,
}

-- The calls of SessionRepo, each with its arguments.
pub data Call (A : Type 0) : Type 0 where
  create_record put_record put_record_if_cid delete_record apply_writes : A → Call A
  list_records get_record : A → Call A

-- The request's budget in its context: absent outside OneCommitPerRequest, else whether it is spent.
abbrev pub Budget : Type 0
Budget = Option Bool

-- The error of spendCommit is the result true of `refused`.
pub record Spent : Type 0 where
  pub refused : Bool
  pub budget : Budget

-- CompareAndSwap(false, true) is one atomic step.
unfoldable pub spend_commit : Budget → Spent
spend_commit none = record { refused = true; budget = none }
spend_commit (some true) = record { refused = true; budget = some true }
spend_commit (some false) = record { refused = false; budget = some true }

pub data Reply (R : Type 0) : Type 0 where
  commit_already_spent : Reply R
  from_repo : R → Reply R

module _ {A R S : Type 0} (repo : Call A → S → R × S) where
  forward : Call A → Budget → S → Reply R × Budget × S
  forward call b s = let (r, s') = repo call s in (from_repo r, b, s')

  after_spend : Call A → Spent → S → Reply R × Budget × S
  unfolding forward
  after_spend call spent s =
      if spent.refused then (commit_already_spent, spent.budget, s) else forward call spent.budget s

  -- One method of CommitGate; the two reads go straight to the repository.
  unfoldable pub gate : Call A → Budget → S → Reply R × Budget × S
  unfolding after_spend forward spend_commit
  gate (create_record a) b s = after_spend (create_record a) (spend_commit b) s
  gate (put_record a) b s = after_spend (put_record a) (spend_commit b) s
  gate (put_record_if_cid a) b s = after_spend (put_record_if_cid a) (spend_commit b) s
  gate (delete_record a) b s = after_spend (delete_record a) (spend_commit b) s
  gate (apply_writes a) b s = after_spend (apply_writes a) (spend_commit b) s
  gate (list_records a) b s = forward (list_records a) b s
  gate (get_record a) b s = forward (get_record a) b s

  -- A handler's calls, in the order in which their budget checks happen.
  unfoldable pub handle : List (Call A) → Budget → S → List (Reply R) × Budget × S
  handle [] b s = ([], b, s)
  handle (call ∷ calls) b s =
      let (r, b', s') = gate call b s in
      let (rs, b'', s'') = handle calls b' s' in (r ∷ rs, b'', s'')
