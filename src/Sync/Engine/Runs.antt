-- ===== src/Sync/Engine/Runs.antt =====
-- What syncuser.go promises a trigger: a pass that begins after it, with its session.
use morgenblau.Common.{
  ℕ, ◌≡◌, refl, Option, none, some, Bool, true, false, ◌&&◌, ◌||◌, not, String, ◌==◌, if◌then◌else◌,
  Assoc, lookup, lookup-insert, lookup-remove, Bool-cases, eq_iff, arith, some_inj, inl, inr,
}
use morgenblau.Jobs.{Trigger}
use morgenblau.Sync.Engine.{
  UserRun, Engine, SyncReceipt, Event, begin_pass, end_pass, triggered, began, ended, step,
  request_sync, coalesce,
}

-- A pass for the user begins.
abbrev pub begins : String → Event → Bool
begins did (began d) = d == did
begins did _ = false

-- The event ends a pass while the server shuts down.
abbrev pub shuts_down : Event → Bool
shuts_down (ended d alive r failed now) = not alive
shuts_down _ = false

-- A trigger without a session.
abbrev pub nameless : Event → Bool
nameless (triggered d s t now new_id) = s == ""
nameless _ = false

abbrev pub owed : Option UserRun → Bool
owed none = false
owed (some run) = run.at_top || run.rerun

abbrev pub sound_run : Option UserRun → Bool
sound_run none = true
sound_run (some run) =
    not (run.session_id == "")
    && (run.at_top
        || (not (run.pass_session_id == "")
            && (run.rerun || (run.pass_session_id == run.session_id))))

unfoldable pub triggered_run : String → String → Trigger → String → Option UserRun → UserRun
unfolding coalesce
triggered_run did session_id trigger new_id none = record {
  id = new_id;
  did = did;
  session_id = session_id;
  pass_session_id = "";
  rerun = false;
  at_top = true;
}
triggered_run did session_id trigger new_id (some run) = coalesce session_id trigger run

begun_run : Option UserRun → Option (Option UserRun)
begun_run none = none
begun_run (some run) =
    if run.at_top
    then some (some (record run { pass_session_id = run.session_id; at_top = false }))
    else none

ended_run : Bool → Option UserRun → Option (Option UserRun)
ended_run alive none = none
ended_run alive (some run) =
    if run.at_top
    then none
    else (if run.rerun && alive
        then some (some (record run { rerun = false; pass_session_id = ""; at_top = true }))
        else some none)

-- What an event does to one user's run.
unfoldable pub next : String → Event → Option UserRun → Option (Option UserRun)
unfolding triggered_run begun_run ended_run
next j (triggered d s t now new_id) o =
    if d == j then some (some (triggered_run d s t new_id o)) else some o
next j (began d) o = if d == j then begun_run o else some o
next j (ended d alive r failed now) o = if d == j then ended_run alive o else some o

pub trigger_view :
    (j d s : String) (t : Trigger) (now : ℕ) (new_id : String) (e : Engine) (o : Option UserRun)
    → lookup d e.active ≡ o
    → lookup j (request_sync d s t now new_id e).1.active
      ≡ (if d == j then some (triggered_run d s t new_id o) else lookup j e.active)
unfolding request_sync triggered_run
trigger_view j d s t now new_id e none h = rw h (lookup-insert d j _ e.active)
trigger_view j d s t now new_id e (some run) h = rw h (lookup-insert d j _ e.active)

same_user :
    (d j : String) (m : Assoc UserRun) (f : Option UserRun → Option UserRun)
    → (if d == j then some (f (lookup j m)) else some (lookup j m))
      ≡ some (if d == j then f (lookup d m) else lookup j m)
same_user d j m f = elim (Bool-cases (d == j)) [
  | inl e ↦ rw (e, (eq_iff d j).0 e) refl
  | inr e ↦ rw e refl
]

begin_view :
    (j d : String) (e e' : Engine) (o : Option UserRun)
    → lookup d e.active ≡ o
    → begin_pass d o e ≡ some e'
    → (if d == j then begun_run (lookup j e.active) else some (lookup j e.active))
      ≡ some (lookup j e'.active)
unfolding begin_pass begun_run
begin_view j d e e' none at h = cc
begin_view j d e e' (some run) at h = ground (
  arith,
  eq_iff d j,
  lookup-insert d j (record run { pass_session_id = run.session_id; at_top = false }) e.active,
)

end_view :
    (j d : String) (alive : Bool) (r : SyncReceipt) (failed : Bool) (now : ℕ) (e e' : Engine)
    (o : Option UserRun)
    → lookup d e.active ≡ o
    → end_pass d alive r failed now o e ≡ some e'
    → (if d == j then ended_run alive (lookup j e.active) else some (lookup j e.active))
      ≡ some (lookup j e'.active)
unfolding end_pass ended_run
end_view j d alive r failed now e e' none at h = cc
end_view j d alive r failed now e e' (some run) at h = ground (
  arith,
  eq_iff d j,
  lookup-remove d j e.active,
  lookup-insert d j (record run { rerun = false; pass_session_id = ""; at_top = true }) e.active,
)

pub step_view :
    (j : String) (ev : Event) (e e' : Engine)
    → step ev e ≡ some e'
    → next j ev (lookup j e.active) ≡ some (lookup j e'.active)
unfolding step next
step_view j (triggered d s t now new_id) e e' h =
    rw (← some_inj h, trigger_view j d s t now new_id e (lookup d e.active) refl)
      (same_user d j e.active (λ o. some (triggered_run d s t new_id o)))
step_view j (began d) e e' h = begin_view j d e e' (lookup d e.active) refl h
step_view j (ended d alive r failed now) e e' h =
    end_view j d alive r failed now e e' (lookup d e.active) refl h

pub next-owed :
    (j : String) (ev : Event) (o o' : Option UserRun)
    → next j ev o ≡ some o'
    → begins j ev ≡ false
    → shuts_down ev ≡ false
    → owed o ≡ true
    → owed o' ≡ true
unfolding next coalesce
next-owed j (triggered d s t now new_id) none o' h b c w = cc
next-owed j (triggered d s t now new_id) (some run) o' h b c w = ground arith
next-owed j (began d) o o' h b c w = ground arith
next-owed j (ended d alive r failed now) none o' h b c w = cc
next-owed j (ended d alive r failed now) (some run) o' h b c w = ground arith

pub next_sound :
    (j : String) (ev : Event) (o o' : Option UserRun)
    → next j ev o ≡ some o'
    → nameless ev ≡ false
    → sound_run o ≡ true
    → sound_run o' ≡ true
unfolding next coalesce
next_sound j (triggered d s t now new_id) none o' h b w = ground arith
next_sound j (triggered d s t now new_id) (some run) o' h b w = ground (
  arith,
  eq_iff run.session_id s,
  eq_iff run.pass_session_id s,
  eq_iff run.pass_session_id run.session_id,
)
next_sound j (began d) none o' h b w = ground arith
next_sound j (began d) (some run) o' h b w = ground (arith, eq_iff run.session_id run.session_id)
next_sound j (ended d alive r failed now) none o' h b w = ground arith
next_sound j (ended d alive r failed now) (some run) o' h b w = ground arith
