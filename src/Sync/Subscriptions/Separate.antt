-- ===== src/Sync/Subscriptions/Separate.antt =====
-- The passes of reconcile_subscriptions.go stay out of each other's rows.
use morgenblau.Common.{
  ℕ, ◌≡◌, refl, ap, ◌∙◌, sym, Option, some, Bool, true, false, not, List, [], ◌∷◌, String, map,
  ◌==◌, eq_iff, Assoc, lookup, lookup-remove, keep_if, All, ◌||◌, Option-cases, Bool-cases, inl,
  inr, some_inj,
}
use morgenblau.Sync.Collection.{contains, Tx}
use morgenblau.Sync.Collection.Keeps.{Keeps, pass-Keeps}
use morgenblau.Sync.Table.{upsert-other, rows, Answers, query}
use morgenblau.Sync.Catalog.{FeedParams}
use morgenblau.Sync.Subscriptions.{
  UserSubscription, PdsSubscription, Store, with_subs, inserted, updated, is_rss, is_standardfeed,
  upsert_user_subscription, tier2_then_tier1, delete_user_subscription, rss_records,
}
use morgenblau.Sync.Subscriptions.Passes.{desired_rss, rss_pass, reconcile_rss}

-- Every row stands under its rkey, and a rkey once.
unfoldable pub Keyed : Assoc UserSubscription → Type 0
Keyed [] = Unit
Keyed ((k, s) ∷ t) = (s.rkey ≡ k) × (contains (map (λ e. e.0) t) k ≡ false) × Keyed t

abbrev pub sub_at : String → Store → Option UserSubscription
sub_at k q = lookup k q.subs

query-Keeps :
    (k : String) (answered : Bool) (f : Store → Option Store)
    → Keeps (sub_at k) f
    → Keeps (sub_at k) (λ q. query answered (f q))
query-Keeps k true f keeps q q' h = keeps q q' h
query-Keeps k false f keeps q q' h = cc

delete-Keeps : (k j : String) → (j == k) ≡ false → Keeps (sub_at k) (delete_user_subscription j)
unfolding delete_user_subscription
delete-Keeps k j other q q' h = rw (← some_inj h, lookup-remove j k q.subs, other) refl

upsert_keeps :
    (k : String) (sub : UserSubscription) (t t' : Assoc UserSubscription)
    → (sub.rkey == k) ≡ false
    → upsert_user_subscription sub t ≡ some t'
    → lookup k t' ≡ lookup k t
unfolding upsert_user_subscription
upsert_keeps k sub t t' other h =
    upsert-other (λ s. s.feed_url) k sub.rkey (inserted sub) (updated sub) t t' h other

write-Keeps :
    (k : String) (feed : FeedParams) (sub : UserSubscription)
    → (sub.rkey == k) ≡ false
    → Keeps (sub_at k) (tier2_then_tier1 feed sub)
unfolding tier2_then_tier1 with_subs
write-Keeps k feed sub other q q' h = elim (Option-cases (upsert_user_subscription sub q.subs)) [
  | inl refused ↦ let h' = rw refused at h in cc
  | inr (t', written) ↦
      ap (λ x. lookup k x.subs) (sym (some_inj (rw written at h)))
      ∙ upsert_keeps k sub q.subs t' other written
]

-- A delete by the row's rkey leaves the row at `k` alone, answered or not.
abbrev DeleteKeeps : (String → Bool) → String → UserSubscription → Type 0
DeleteKeeps answers k row =
    Keeps (sub_at k) (λ q. query (answers row.rkey) (delete_user_subscription row.rkey q))

absent_rows :
    (answers : String → Bool) (keep : UserSubscription → Bool) (k : String)
    (t : Assoc UserSubscription)
    → Keyed t
    → contains (map (λ e. e.0) t) k ≡ false
    → All (DeleteKeeps answers k) (keep_if keep (rows t))
unfolding Keyed
absent_rows answers keep k [] d a = tt
absent_rows answers keep k ((j, s) ∷ t) d a = elim (Bool-cases (j == k)) [
  | inl hit ↦ let a' = rw hit at a in cc
  | inr miss ↦ elim (Bool-cases (keep s)) [
    | inl kept ↦ rw kept (
      query-Keeps k (answers s.rkey) _ (delete-Keeps k s.rkey (ap (λ x. x == k) d.0 ∙ miss)),
      absent_rows answers keep k t d.2 (rw miss at a),
    )
    | inr gone ↦ rw gone (absent_rows answers keep k t d.2 (rw miss at a))
  ]
]

other_rows :
    (answers : String → Bool) (keep : UserSubscription → Bool) (k : String) (s : UserSubscription)
    (t : Assoc UserSubscription)
    → Keyed t
    → lookup k t ≡ some s
    → keep s ≡ false
    → All (DeleteKeeps answers k) (keep_if keep (rows t))
unfolding lookup Keyed
other_rows answers keep k s [] d at dropped = tt
other_rows answers keep k s ((j, v) ∷ t) d at dropped = elim (Bool-cases (j == k)) [
  | inl hit ↦
      let gone = ap keep (some_inj (rw hit at at)) ∙ dropped in
      rw gone (absent_rows answers keep k t d.2 (rw ((eq_iff j k).0 hit) at d.1))
  | inr miss ↦ elim (Bool-cases (keep v)) [
    | inl kept ↦ rw kept (
      query-Keeps k (answers v.rkey) _ (delete-Keeps k v.rkey (ap (λ x. x == k) d.0 ∙ miss)),
      other_rows answers keep k s t d.2 (rw miss at at) dropped,
    )
    | inr gone ↦ rw gone (other_rows answers keep k s t d.2 (rw miss at at) dropped)
  ]
]

answered_rows :
    (db : Answers) (k : String) (t : Assoc UserSubscription) (answered : Bool)
    (local : List UserSubscription)
    → All (DeleteKeeps db.deletes k) (keep_if is_rss (rows t))
    → query answered (some (keep_if is_rss (rows t))) ≡ some local
    → All (DeleteKeeps db.deletes k) local
answered_rows db k t true local h read = rw (← some_inj read) h
answered_rows db k t false local h read = cc

module _ (to_json : List String → String) (did now : String) (db : Answers) where
  rss_writes :
      (k : String) (rs : List PdsSubscription)
      → contains (map (λ r. r.rkey) rs) k ≡ false
      → All (λ d. Keeps (sub_at k) d.write) (map (desired_rss to_json did now db) rs)
  unfolding desired_rss
  rss_writes k [] a = tt
  rss_writes k (r ∷ rs) a = elim (Bool-cases (r.rkey == k)) [
    | inl hit ↦ let a' = ap (λ b. b || contains (map (λ x. x.rkey) rs) k) (sym hit) ∙ a in cc
    | inr miss ↦ (
      query-Keeps k (db.writes r.rkey) _ (write-Keeps k _ _ miss),
      rss_writes k rs (ap (λ b. b || contains (map (λ x. x.rkey) rs) k) (sym miss) ∙ a),
    )
  ]

  -- The RSS pass never touches a publication's row: whatever was read before the listing, whatever
  -- is listed, and however the database answers and the transaction ends, the row is what it was, unless an RSS record
  -- that the pass wants has that row's rkey. (Each row stands under its rkey, once.)
  pub rss_keeps_publications :
      (parse : String → Option ℕ) (tx : Tx) (snapshot_at : ℕ) (snapshot : List UserSubscription)
      (remote : List PdsSubscription) (q : Store) (k : String) (s : UserSubscription)
      → Keyed q.subs
      → lookup k q.subs ≡ some s
      → is_standardfeed s ≡ true
      → contains (map (λ r. r.rkey) (rss_records remote)) k ≡ false
      → lookup k (reconcile_rss to_json did now parse tx db snapshot_at snapshot remote q).1.subs
        ≡ some s
  unfolding reconcile_rss rss_pass
  rss_keeps_publications parse tx snapshot_at snapshot remote q k s keyed at pub_row fresh =
      pass-Keeps (sub_at k) parse (rss_pass to_json did now db snapshot_at snapshot remote) tx q
        (λ local read.
          answered_rows db k q.subs db.reads local
            (other_rows db.deletes is_rss k s q.subs keyed at (ap not pub_row)) read)
        (rss_writes k (rss_records remote) fresh)
      ∙ at
