-- ===== src/Sync/Engine/Histories.antt =====
-- What syncuser.go promises over a whole history of triggers and passes.
use morgenblau.Common.{
  ℕ, ◌≡◌, refl, Option, none, some, Bool, true, false, ◌||◌, List, [], ◌∷◌, String, ◌==◌,
  if◌then◌else◌, lookup, any, Bool-cases, eq_iff, eq_refl, arith, some_inj, ap, sym, ◌∙◌, inl, inr,
}
use morgenblau.Jobs.{Tracker, manual}
use morgenblau.Sync.Engine.{
  UserRun, Engine, SyncReceipt, Event, triggered, began, ended, step, after, request_sync, coalesce,
}
use morgenblau.Sync.Engine.Runs.{
  begins, shuts_down, nameless, owed, sound_run, triggered_run, next, step_view, trigger_view,
  next-owed, next_sound,
}

some-step :
    (o : Option Engine) (ev : Event) (e' : Engine)
    → elim o [ none ↦ none | some e ↦ step ev e ] ≡ some e'
    → (e : Engine) × (o ≡ some e) × (step ev e ≡ some e')
some-step none ev e' h = cc
some-step (some e) ev e' h = (e, refl, h)

left_false : (a b : Bool) → a || b ≡ false → a ≡ false
left_false a b h = ground arith

right_false : (a b : Bool) → a || b ≡ false → b ≡ false
right_false a b h = ground arith

history_owed :
    (j : String) (later : List Event) (e e' : Engine)
    → after e later ≡ some e'
    → any (begins j) later ≡ false
    → any shuts_down later ≡ false
    → owed (lookup j e.active) ≡ true
    → owed (lookup j e'.active) ≡ true
unfolding after
history_owed j [] e e' h b c w = rw (← some_inj h) w
history_owed j (ev ∷ later) e e' h b c w =
    let (e1, h1, h2) = some-step (after e later) ev e' h in
    next-owed j ev _ _ (step_view j ev e1 e' h2) (left_false _ _ b) (left_false _ _ c)
      (history_owed j later e e1 h1 (right_false _ _ b) (right_false _ _ c) w)

history_sound :
    (j : String) (events : List Event) (e e' : Engine)
    → after e events ≡ some e'
    → any nameless events ≡ false
    → sound_run (lookup j e.active) ≡ true
    → sound_run (lookup j e'.active) ≡ true
unfolding after
history_sound j [] e e' h b w = rw (← some_inj h) w
history_sound j (ev ∷ events) e e' h b w =
    let (e1, h1, h2) = some-step (after e events) ev e' h in
    next_sound j ev _ _ (step_view j ev e1 e' h2) (left_false _ _ b)
      (history_sound j events e e1 h1 (right_false _ _ b) w)

trigger_owed :
    (o : Option UserRun) (did s : String) (now : ℕ) (new_id : String) (e : Engine)
    → lookup did e.active ≡ o
    → sound_run o ≡ true
    → owed (lookup did (request_sync did s manual now new_id e).1.active) ≡ true
unfolding triggered_run coalesce
trigger_owed none did s now new_id e at w =
    rw (trigger_view did did s manual now new_id e none at, eq_refl did) refl
trigger_owed (some run) did s now new_id e at w =
    rw (trigger_view did did s manual now new_id e (some run) at, eq_refl did) (ground arith)

-- The session of the newest trigger of a user.
abbrev pub newest_session : String → List Event → Option String
newest_session did [] = none
newest_session did (triggered d s t now new_id ∷ earlier) =
    if d == did then some s else newest_session did earlier
newest_session did (_ ∷ earlier) = newest_session did earlier

abbrev pub start : Tracker → Engine
start t = record { active = []; jobs = t }

-- Whatever the engine did before, a manual trigger is followed by the start of a pass of its user
-- before the user's run is gone, unless a pass ends in a shutdown. (Sessions have names.)
pub manual_trigger_served :
    (t : Tracker) (earlier later : List Event) (e e' : Engine) (did s : String) (now : ℕ)
    (new_id : String)
    → after (start t) earlier ≡ some e
    → any nameless earlier ≡ false
    → after (request_sync did s manual now new_id e).1 later ≡ some e'
    → any shuts_down later ≡ false
    → lookup did e'.active ≡ none
    → any (begins did) later ≡ true
unfolding lookup
manual_trigger_served t earlier later e e' did s now new_id h named h' up gone =
    elim (Bool-cases (any (begins did) later)) [
      | inl found ↦ found
      | inr never ↦
          let o = history_owed did later _ e' h' never up (
            trigger_owed _ did s now new_id e refl
              (history_sound did earlier (start t) e h named refl)) in
          cc
    ]

next_newest :
    (j : String) (ev : Event) (earlier : List Event) (o : Option UserRun) (run' : UserRun)
    → next j ev o ≡ some (some run')
    → ((run : UserRun) → o ≡ some run → newest_session j earlier ≡ some run.session_id)
    → newest_session j (ev ∷ earlier) ≡ some run'.session_id
unfolding next triggered_run coalesce
next_newest j (triggered d s t now new_id) earlier none run' h n = ground arith
next_newest j (triggered d s t now new_id) earlier (some run) run' h n = ground (arith, n run refl)
next_newest j (began d) earlier none run' h n = ground arith
next_newest j (began d) earlier (some run) run' h n = ground (arith, n run refl)
next_newest j (ended d alive r failed now) earlier none run' h n = ground arith
next_newest j (ended d alive r failed now) earlier (some run) run' h n = ground (arith, n run refl)

history_newest :
    (j : String) (events : List Event) (t : Tracker) (e : Engine) (run : UserRun)
    → after (start t) events ≡ some e
    → lookup j e.active ≡ some run
    → newest_session j events ≡ some run.session_id
unfolding after lookup
history_newest j [] t e run h at = let same = ap (λ x. lookup j x.active) (some_inj h) in cc
history_newest j (ev ∷ events) t e run h at =
    let (e1, h1, h2) = some-step (after (start t) events) ev e h in
    next_newest j ev events (lookup j e1.active) run (step_view j ev e1 e h2 ∙ ap some at)
      (λ run1 at1. history_newest j events t e1 run1 h1 at1)

last_pass :
    (did : String) (r : SyncReceipt) (failed : Bool) (now : ℕ) (run : UserRun)
    → next did (ended did true r failed now) (some run) ≡ some none
    → sound_run (some run) ≡ true
    → run.pass_session_id ≡ run.session_id
unfolding next
last_pass did r failed now run h w =
    ground (arith, eq_refl did, eq_iff run.pass_session_id run.session_id)

-- When a run ends while the server is up, its last pass was made with the session of the newest
-- trigger of its user. (Sessions have names.)
pub last_pass_is_newest :
    (t : Tracker) (events : List Event) (e e' : Engine) (did : String) (r : SyncReceipt)
    (failed : Bool) (now : ℕ) (run : UserRun)
    → after (start t) events ≡ some e
    → any nameless events ≡ false
    → lookup did e.active ≡ some run
    → step (ended did true r failed now) e ≡ some e'
    → lookup did e'.active ≡ none
    → newest_session did events ≡ some run.pass_session_id
unfolding lookup
last_pass_is_newest t events e e' did r failed now run h named at h' gone =
    history_newest did events t e run h at
    ∙ ap some (
        sym (
          last_pass did r failed now run
            (ap (next did (ended did true r failed now)) (sym at)
              ∙ step_view did _ e e' h'
              ∙ ap some gone)
            (ap sound_run (sym at) ∙ history_sound did events (start t) e h named refl)))
