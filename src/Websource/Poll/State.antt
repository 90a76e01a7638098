-- ===== src/Websource/Poll/State.antt =====
-- What a poll is told of the earlier ones: pollState, weeklyAlarmOpen and modelBudgetLeft of
-- app/internal/websource/service.go. A read that fails is `none`.
use morgenblau.Common.{
  ℕ, zero, suc, ◌*◌, Option, none, some, Bool, true, false, ◌&&◌, not, List, [], ◌∷◌, String, ◌==◌,
  str_lt, if◌then◌else◌, keep_if, map, add_time, sub_time, ℤ, pos, negsuc, leb,
}
use morgenblau.Websource.{
  Item, Fingerprint, WebSource, Library, RepairCause, weekly_check, detector, RepairOutcome,
  unresolved,
}
use morgenblau.Websource.Store.{
  ItemRow, PollRow, RepairRow, SpendRow, Store, ◌>>=◌, when_works, find_row, hours,
}

pub record PollRecord : Type 0 where
  pub urls : List String
  pub titles : List String
  pub fingerprint : Fingerprint

pub record PollState : Type 0 where
  pub etag : String
  pub last_modified : String
  pub link_set_hash : String
  pub history : List PollRecord
  pub known : List Item
  pub allow_model_repair : Bool
  pub check_due : Bool
  pub weekly_alarm : Bool

pub data Read : Type 0 where
  read_polls read_known read_spend read_model_repair read_weekly_repair : Read

-- What the state needs beside the library: JSON lists, and the test that the summed spend reaches
-- the daily budget.
pub record Decoding : Type 0 where
  pub from_json : String → Option (List String)
  pub reaches_budget : List ℕ → Bool

abbrev pub deref : Option String → String
deref none = ""
deref (some s) = s

abbrev pub first_rows : ℕ → List PollRow → List PollRow
first_rows zero rows = []
first_rows (suc n) [] = []
first_rows (suc n) (row ∷ rows) = row ∷ first_rows n rows

abbrev pub is_weekly : RepairCause → Bool
is_weekly weekly_check = true
is_weekly detector = false

abbrev pub is_unresolved : RepairOutcome → Bool
is_unresolved unresolved = true
is_unresolved _ = false

-- `d` is at least `n` hours.
abbrev pub lasts : ℤ → ℕ → Bool
lasts (pos d) n = leb (n * 3600000000000) d
lasts (negsuc d) n = false

abbrev pub later : Option String → String → Option String
later none b = some b
later (some a) b = if str_lt a b then some b else some a

-- GetLastModelRepairAt
unfoldable pub last_model_repair : String → List RepairRow → Option String
last_model_repair id [] = none
last_model_repair id (row ∷ rows) =
    let rest = last_model_repair id rows in
    if row.source_id == id && row.report.used_model then later rest row.attempted_at else rest

-- GetLastWeeklyRepair
unfoldable pub last_weekly_repair : String → List RepairRow → Option RepairRow
last_weekly_repair id rows =
    find_row (λ row. row.source_id == id && is_weekly row.report.cause) rows

-- A weekly alarm that no later healthy check, accepted repair or fresh setup has answered.
unfoldable pub weekly_alarm_open : WebSource → List RepairRow → Bool
unfolding last_weekly_repair
weekly_alarm_open src repairs = elim (last_weekly_repair src.id repairs) [
  | none ↦ false
  | some last ↦ elim src.last_checked_at [
    | none ↦ false
    | some checked_at ↦
        is_unresolved last.report.outcome
        && not (str_lt last.attempted_at checked_at)
        && not (str_lt last.attempted_at src.setup_at)
  ]
]

module _ (lib : Library) (dec : Decoding) (works : Read → Bool) where
  -- Fails on a stored list that is no JSON list.
  unfoldable pub decode_polls : List PollRow → Option (List PollRecord)
  decode_polls [] = some []
  decode_polls (row ∷ rows) =
      let rest = decode_polls rows in
      dec.from_json row.urls >>= λ urls. dec.from_json row.titles >>= λ titles. rest >>= λ more.
      some (record { urls = urls; titles = titles; fingerprint = row.fingerprint } ∷ more)

  abbrev date_or_zero : Option String → Option ℕ
  date_or_zero none = some 0
  date_or_zero (some raw) = lib.parse_time raw

  unfoldable pub known_items : String → List ItemRow → Option (List Item)
  known_items id [] = some []
  known_items id (row ∷ rows) =
      let rest = known_items id rows in
      if row.source_id == id
      then (date_or_zero row.published_at >>= λ date. rest >>= λ more.
          some (record { url = row.url; title = row.title; date = date; excerpt = "" } ∷ more))
      else rest

  unfoldable pub model_budget_left : ℕ → List SpendRow → Bool
  model_budget_left now spend =
      let since = lib.format_time (add_time now (hours 24)) in
      not (
        dec.reaches_budget
          (map (λ row. row.usd) (keep_if (λ row. not (str_lt row.spent_at since)) spend)))

  -- One model repair a day, while the budget lasts.
  may_repair : Bool → Option String → ℕ → Bool
  may_repair left none now = left
  may_repair left (some raw) now = elim (lib.parse_time raw) [
    | none ↦ false
    | some at ↦ left && lasts (sub_time now at) 24
  ]

  -- The weekly check, and a day after an open alarm.
  is_check_due : WebSource → Bool → Bool → ℕ → Bool
  is_check_due src alarm left now =
      elim (lib.parse_time (elim src.last_checked_at [ none ↦ src.setup_at | some at ↦ at ])) [
        | none ↦ false
        | some at ↦ left && lasts (sub_time now at) (if alarm then 24 else 168)
      ]

  unfoldable pub poll_state : WebSource → ℕ → Store → Option PollState
  unfolding decode_polls known_items model_budget_left may_repair is_check_due weekly_alarm_open
  poll_state src now q =
      let polls = first_rows 6 (keep_if (λ row. row.source_id == src.id) q.polls) in
      let left = model_budget_left now q.spend in
      let alarm = weekly_alarm_open src q.repairs in
      when_works (works read_polls) polls >>= decode_polls >>= λ history.
      when_works (works read_known) q.items >>= known_items src.id >>= λ known.
      when_works (works read_spend && works read_model_repair && works read_weekly_repair) (record {
        etag = deref src.etag;
        last_modified = deref src.last_modified;
        link_set_hash = deref src.link_set_hash;
        history = history;
        known = known;
        allow_model_repair = may_repair left (last_model_repair src.id q.repairs) now;
        check_due = is_check_due src alarm left now;
        weekly_alarm = alarm;
      })
