-- ===== src/Websource/Poll/Write/Once.antt =====
-- A poll stores every post once: storePoll of app/internal/websource/service.go.
use morgenblau.Common.{
  ℕ, ◌≡◌, refl, ap, sym, ◌∙◌, Option, none, some, some_inj, Bool, true, false, List, Bool-cases,
  inl, inr, ◌&&◌, ◌||◌, any,
}
use morgenblau.Sync.Collection.{Tx}
use morgenblau.Websource.{Item, Library, WebSource, PollOutcome, RepairReport, Fingerprint}
use morgenblau.Websource.Store.{
  Store, Statement, update_poll, ◌>>=◌, when_works, record_spend, insert_repair, prune_repairs,
  list_known, oldest_date, insert_poll, prune_polls, insert_items, insert_from, record_poll,
  is_known_of, oldest_of,
}
use morgenblau.Websource.Store.Frame.{bind-some, when_works-some, record_spend-Same}
use morgenblau.Websource.Poll.{Schedule, PollUpdate, poll_update, publishes, is_polled_row}
use morgenblau.Websource.Poll.State.{PollState, Decoding, Read}
use morgenblau.Websource.Poll.Write.{
  Answer, store_poll, note_repairs, write_poll, rest_of_poll, publish, publish_sorted, oldest_known,
  store_repair, poll_one, spend_repair,
}
use morgenblau.Websource.Poll.Write.Keeps.{poll_one_keeps}
use morgenblau.Websource.Poll.Write.Steps.{spent-Same}
use morgenblau.Websource.Items.{unpublished, dedupe_items}
use morgenblau.Websource.Items.Gate.{has_key}
use morgenblau.Websource.Items.Apart.{apart, apart_mono, unpublished-apart}
use morgenblau.Websource.Store.Distinct.{
  has_post, posts_distinct, known_key_has_post, insert_from_adds,
}

module _ (lib : Library) (works : Statement → Bool) where
  publish_sorted_once :
      (src : WebSource) (now : ℕ) (items fresh moved : List Item) (fp : Fingerprint) (q r : Store)
      → posts_distinct lib src.id q.items ≡ true
      → apart lib (has_post lib src.id q.items) fresh ≡ true
      → apart lib (λ k. has_key lib k fresh || has_post lib src.id q.items k) moved ≡ true
      → publish_sorted lib works src now items fp q (fresh, moved) ≡ some r
      → posts_distinct lib src.id r.items ≡ true
  unfolding publish_sorted insert_items record_poll
  publish_sorted_once src now items fresh moved fp q r distinct a b h =
      let (q2, h2, h3) =
        bind-some
          (insert_items lib works src.id now false fresh q
            >>= insert_items lib works src.id now true moved)
          _ r h in
      let (q1, h4, h5) = bind-some (insert_items lib works src.id now false fresh q) _ q2 h2 in
      let (rows1, ins1, e1) =
        bind-some (insert_from lib works 0 src.id now false fresh q.items) _ q1 h4 in
      let (distinct1, keys1) =
        insert_from_adds lib works 0 src.id now false fresh q.items rows1 distinct a ins1 in
      let items1 : q1.items ≡ rows1 = sym (ap (λ s. s.items) (some_inj e1)) in
      let (rows2, ins2, e2) =
        bind-some (insert_from lib works 0 src.id now true moved q1.items) _ q2 h5 in
      let (distinct2, keys2) =
        insert_from_adds lib works 0 src.id now true moved rows1 rows2 distinct1
          (apart_mono lib _ (has_post lib src.id rows1) moved (λ k f. keys1 k ∙ f) b)
          (rw items1 at ins2) in
      let items2 : q2.items ≡ rows2 = sym (ap (λ s. s.items) (some_inj e2)) in
      let e3 = when_works-some (works insert_poll && works prune_polls) _ r h3 in
      rw (← e3, items2) distinct2

  publish_once :
      (src : WebSource) (now : ℕ) (out : PollOutcome) (q r : Store)
      → posts_distinct lib src.id q.items ≡ true
      → publish lib works src now out q ≡ some r
      → posts_distinct lib src.id r.items ≡ true
  unfolding publish
  publish_once src now out q r distinct h =
      let (oldest, read, h1) =
        bind-some
          (when_works (works list_known && works oldest_date) (oldest_of src.id q.items)
            >>= oldest_known lib works)
          _ r h in
      let known = is_known_of src.id q.items in
      let sorted = unpublished lib known oldest (dedupe_items lib out.items) in
      let (a, b) = unpublished-apart lib known oldest out.items in
      publish_sorted_once src now (dedupe_items lib out.items) sorted.0 sorted.1 out.fingerprint q r
        distinct
        (apart_mono lib _ _ sorted.0 (λ k f. sym (known_key_has_post lib src.id k q.items) ∙ f) a)
        (apart_mono lib _ _ sorted.1
          (λ k f.
            ap (λ t. has_key lib k sorted.0 || t) (sym (known_key_has_post lib src.id k q.items))
            ∙ f)
          b)
        h1

  store_repair_items :
      (src : WebSource) (now : ℕ) (repair : Option RepairReport) (q r : Store)
      → store_repair lib works src now repair q ≡ some r
      → r.items ≡ q.items
  unfolding store_repair
  store_repair_items src now none q r h = rw (← some_inj h) refl
  store_repair_items src now (some report) q r h =
      rw (← when_works-some (works insert_repair && works prune_repairs) _ r h) refl

  rest_of_poll_once :
      (src : WebSource) (now : ℕ) (out : PollOutcome) (published : Bool) (q r : Store)
      → posts_distinct lib src.id q.items ≡ true
      → rest_of_poll lib works src now out published q ≡ some r
      → posts_distinct lib src.id r.items ≡ true
  unfolding rest_of_poll
  rest_of_poll_once src now out true q r distinct h =
      let (a, repaired, h1) = bind-some (store_repair lib works src now out.repair q) _ r h in
      let e = store_repair_items src now out.repair q a repaired in
      publish_once src now out a r (rw e distinct) h1
  rest_of_poll_once src now out false q r distinct h =
      let (a, repaired, h1) = bind-some (store_repair lib works src now out.repair q) _ r h in
      rw (← some_inj h1, store_repair_items src now out.repair q a repaired) distinct

  write_poll_once :
      (src : WebSource) (now : ℕ) (out : PollOutcome) (published : Bool) (q r : Store)
      (update : PollUpdate)
      → posts_distinct lib src.id q.items ≡ true
      → write_poll lib works src now out published q update ≡ some r
      → posts_distinct lib src.id r.items ≡ true
  unfolding write_poll
  write_poll_once src now out published q r update distinct h =
      elim (Bool-cases (any (is_polled_row update) q.sources)) [
        | inr gone ↦ rw (← when_works-some (works update_poll) q r (rw gone at h)) distinct
        | inl there ↦
            let (a, updated, h1) =
              bind-some (when_works (works update_poll) _) _ r (rw there at h) in
            let e = when_works-some (works update_poll) _ a updated in
            rest_of_poll_once src now out published a r (rw (← e) distinct) h1
      ]

  store_poll_once :
      (src : WebSource) (now : ℕ) (out : PollOutcome) (update : PollUpdate) (published : Bool)
      (q r : Store)
      → posts_distinct lib src.id q.items ≡ true
      → store_poll lib works src now out update published q ≡ some r
      → posts_distinct lib src.id r.items ≡ true
  unfolding store_poll
  store_poll_once src now out update published q r distinct h =
      let spend = record_spend lib works now "check" out.check_usd q in
      let (b, spent', h2) = bind-some (spend >>= spend_repair lib works now out.repair) _ r h in
      let (a, checked, repaired) = bind-some spend _ b spent' in
      let (update', noted', h3) =
        bind-some (note_repairs lib works src now out.repair update b) _ r h2 in
      let spent = spent-Same lib works now out q a b checked repaired in
      write_poll_once src now out published b r update' (rw spent.2 distinct) h3

-- If no two stored posts of a source have the same key, then none have after a poll of the source,
-- whatever it reads and finds and whichever statements fail.
pub poll_stores_posts_once :
    (lib : Library) (cfg : Schedule) (dec : Decoding) (reads : Read → Bool)
    (works : Statement → Bool) (tx : Tx) (src : WebSource) (now : ℕ) (poll : PollState → Answer)
    (before q : Store)
    → posts_distinct lib src.id q.items ≡ true
    → posts_distinct lib src.id (poll_one lib cfg dec reads works tx src now poll before q).1.items
      ≡ true
poll_stores_posts_once lib cfg dec reads works tx src now poll before q distinct =
    poll_one_keeps lib cfg dec reads works tx (λ r. posts_distinct lib src.id r.items ≡ true) src
      now q poll before distinct
      (λ heard r.
        store_poll_once lib works src now heard (poll_update lib cfg src heard now)
          (publishes heard) q r distinct)
      (λ usd r h. rw (record_spend-Same lib works now "repair" usd q r h).2 distinct)
