-- ===== src/Pool/Tests.antt =====
-- The theorems about the pool at concrete values.
use qoderwork2api.Common.{
  ℕ, ◌≡◌, ◌≢◌, refl, true, List, [], ◌∷◌, Option, none, some, arith, map, In, ltb, inr,
}
use qoderwork2api.Common.Int.{pos}
use qoderwork2api.Common.Eq.{Text, codes, text_instance, text_eq}
use qoderwork2api.Common.Dict.{Dict, lookup, insert}
use qoderwork2api.Common.Sort.{IsSorted}
use qoderwork2api.Cred.{Cred, blank}
use qoderwork2api.Pool.{
  Pool, Env, Entry, Account, hard, new, new_entry, pick_excluding, cooldown, save_state,
  sync_to_dir, note_error, note_success, reenable_if_credits, cred_of, pick, is_seen, add, put,
  account_of, auth_by_uid,
}
use qoderwork2api.Pool.Shape.{IsWellFormed, run, adds, reenables, succeeds, step, disables, Call}
use qoderwork2api.Pool.Pick.{pick_excluding_best, Chooses}
use qoderwork2api.Pool.Disk.{new-save_state, sync_to_dir_erases, SurvivesOption}
use qoderwork2api.Pool.Resting.{cooldown_not_picked, picked_found}
use qoderwork2api.Pool.Disabling.{After, step-IsOff}
use qoderwork2api.Pool.Errors.{note_errors, note_errors_threshold}
use qoderwork2api.Pool.View.{view, replay, Allows, run_refines}
use qoderwork2api.Pool.Listing.{Status, list, list-IsSorted}

abbrev cred_a : Cred
cred_a = record blank { uid = codes "a"; dt = codes "dt-a"; machine_id = codes "m" }

abbrev cred_b : Cred
cred_b = record blank { uid = codes "b"; dt = codes "dt-b" }

abbrev entry_a : Entry
entry_a = record (new_entry cred_a) { credits = pos 10 }

abbrev entry_b : Entry
entry_b = record (new_entry cred_b) { credits = pos 20; disabled = true }

abbrev two : Pool
two = record {
  by_uid = (codes "b", entry_b) ∷ (codes "a", entry_a) ∷ [];
  stored = true;
  disk = none;
}

abbrev at : ℕ → Env
at t = record { now = t; writes = true }

-- The disabled account has more credits, and the other one is given out.
picks_the_healthy_one : pick (at 5) two ≡ some cred_a
unfolding pick
picks_the_healthy_one = refl

two-IsWellFormed : IsWellFormed two
unfolding lookup text_eq
two-IsWellFormed = record { unique = (refl, (refl, tt)); keyed = (refl, (refl, tt)) }

-- The state file knows the account `a`, and the account `b` is added.
abbrev saved : Dict Text Account
saved = (codes "a", account_of entry_a) ∷ []

picked_found_example :
    auth_by_uid (codes "a") (run (new true (some saved)) ((at 5, adds cred_b) ∷ []))
    ≡ some (record blank { uid = codes "a"; machine_id = codes "m" })
unfolding lookup text_eq new run step add put insert pick_excluding account_of
picked_found_example =
    picked_found true saved ((at 5, adds cred_b) ∷ []) (at 6) []
      (record blank { uid = codes "a"; machine_id = codes "m" }) (refl, tt) refl

pick_excluding_best_example :
    (best : Option Entry) × (pick_excluding (at 5) [] two ≡ cred_of best)
    × Chooses [] 5 two.by_uid best
pick_excluding_best_example = pick_excluding_best (at 5) [] two

new-save_state_example :
    SurvivesOption
      (codes "a")
      (lookup (codes "a") two.by_uid)
      (lookup (codes "a") (new true (save_state (at 5) two).disk).by_uid)
new-save_state_example = new-save_state (at 5) two (codes "a") refl refl

sync_to_dir_erases_example :
    (accounts : Dict Text Account) × ((save_state (at 5) (sync_to_dir (cred_a ∷ []) two)).disk
      ≡ some accounts)
    × (lookup (codes "b") accounts ≡ none)
unfolding text_eq is_seen
sync_to_dir_erases_example = sync_to_dir_erases (at 5) (cred_a ∷ []) two (codes "b") refl refl refl

cooldown_not_picked_example : cred_a.uid ≢ codes "b"
unfolding pick_excluding cooldown step run text_eq lookup note_success reenable_if_credits
cooldown_not_picked_example =
    cooldown_not_picked (at 5) (at 40) [] two (codes "b") hard (pos 60) []
      ((at 6, succeeds (codes "b")) ∷ (at 7, reenables (codes "b") (pos 0)) ∷ []) {e = entry_b}
      two-IsWellFormed refl (tt, (inr (omega arith), tt)) (omega arith) refl

step-IsOff_example :
    After
      (codes "b")
      (reenables (codes "b") (pos 9))
      (lookup (codes "b") (step (at 5) (reenables (codes "b") (pos 9)) two).by_uid)
unfolding lookup text_eq
step-IsOff_example =
    step-IsOff (at 5) (reenables (codes "b") (pos 9)) two (codes "b") {e = entry_b} refl refl

note_errors_threshold_example :
    (lookup (codes "a") (note_errors (at 5 ∷ at 6 ∷ []) (codes "a") (pos 3) (pos 60) two).by_uid
      ≡ some (record entry_a { err_count = 2 }))
    × (lookup
          (codes "a")
          (note_error
            (at 7)
            (codes "a")
            (pos 3)
            (pos 60)
            (note_errors (at 5 ∷ at 6 ∷ []) (codes "a") (pos 3) (pos 60) two)).by_uid
        ≡ some (record entry_a { until = 67; reason = codes "consecutive errors" }))
unfolding lookup text_eq
note_errors_threshold_example =
    note_errors_threshold (at 5 ∷ at 6 ∷ []) (at 7) (codes "a") 3 (pos 60) two entry_a refl refl
      refl

abbrev shown : Text → Entry → Status
shown uid e = record {
  uid = uid;
  nickname = e.cred.nickname;
  credits = e.credits;
  cooling = ltb 5 e.until;
  until = e.until;
  reason = e.reason;
  disabled = e.disabled;
  err_count = e.err_count;
}

list-IsSorted_example :
    IsSorted (map (λ (s : Status). s.uid) (list (at 5) two))
    × ((uid : Text) (e : Entry)
        → lookup uid two.by_uid ≡ some e
        → In (shown uid e) (list (at 5) two))
list-IsSorted_example = list-IsSorted (at 5) two

abbrev history : List (Env × Call)
history = (at 5, disables (codes "a") (codes "out")) ∷ (at 6, adds cred_b) ∷ []

run_refines_example :
    (view (run two history) ≡ replay history (view two))
    × Allows 7 [] (replay history (view two)) (pick_excluding (at 7) [] (run two history))
run_refines_example = run_refines two history (at 7) [] two-IsWellFormed
