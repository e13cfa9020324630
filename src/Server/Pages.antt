-- ===== src/Server/Pages.antt =====
-- The account pages of internal/server/user_api.go, over the pool that `userPool` chooses; there
-- may be none.
pub mod Kept
mod Tests
use qoderwork2api.Common.{
  ℕ, zero, suc, ◌+◌, ◌*◌, Bool, true, false, ◌&&◌, not, List, [], ◌∷◌, ◌++◌, Option, none, some,
  if◌then◌else◌, map, length,
}
use qoderwork2api.Common.Int.{ℤ, pos}
use qoderwork2api.Common.Eq.{Text, codes, text_instance, ◌==◌, is_empty}
use qoderwork2api.Common.Dict.{Dict, delete}
use qoderwork2api.Common.Strings.{trim_prefix}
use qoderwork2api.Cred.{Cred}
use qoderwork2api.Cred.Load.{Nested}
use qoderwork2api.Pool.{Pool, Env, hard, auth_by_uid, cooldown, reenable_if_credits}
use qoderwork2api.Pool.Shape.{Call, run}
use qoderwork2api.Pool.Listing.{Status, list}
use qoderwork2api.Upstream.Client.{Result, success, failure}
use qoderwork2api.User.{User, role_admin}
use qoderwork2api.User.Pools.{PoolManager, get_user_auth_dir}
use qoderwork2api.Server.Login.{Site, admin_id, file_name}

pub record AccountItem : Type 0 where
  pub uid : Text
  pub nickname : Text
  pub credits : ℤ
  pub cooling : Bool
  pub disabled : Bool
  pub reason : Text

abbrev item_of : Status → AccountItem
item_of acc = record {
  uid = acc.uid;
  nickname = acc.nickname;
  credits = acc.credits;
  cooling = acc.cooling;
  disabled = acc.disabled;
  reason = acc.reason;
}

-- The accounts and their number.
pub handle_status : Env → Option Pool → List AccountItem × ℕ
handle_status env none = ([], 0)
handle_status env (some p) = let items = map item_of (list env p) in (items, length items)

-- What the page shows beside the stored credits: nothing, the answer of the service, or its error.
pub data Realtime : Type 0 where
  unasked : Realtime
  asked : ℤ → Bool → Realtime
  unanswered : Text → Realtime

pub record QuotaItem : Type 0 where
  pub uid : Text
  pub nickname : Text
  pub credits : ℤ
  pub disabled : Bool
  pub realtime : Realtime

abbrev realtime_of : Result (ℤ × Bool) → Realtime
realtime_of (success (remain, exceeded)) = asked remain exceeded
realtime_of (failure text) = unanswered text

abbrev has_dt : Option Cred → Bool
has_dt none = false
has_dt (some c) = not (is_empty c.dt)

-- `answers` are the answers of the service, by the number of the account in the list.
pub quota_items : (ℕ → Result (ℤ × Bool)) → ℕ → Pool → List Status → List QuotaItem
unfolding auth_by_uid
quota_items answers i p [] = []
quota_items answers i p (acc ∷ accs) =
    record {
      uid = acc.uid;
      nickname = acc.nickname;
      credits = acc.credits;
      disabled = acc.disabled;
      realtime =
          if not acc.disabled && has_dt (auth_by_uid acc.uid p)
          then realtime_of (answers i)
          else unasked;
    }
    ∷ quota_items answers (suc i) p accs

pub handle_quota : Env → (ℕ → Result (ℤ × Bool)) → Option Pool → List QuotaItem
unfolding quota_items
handle_quota env answers none = []
handle_quota env answers (some p) = quota_items answers 0 p (list env p)

-- The pool, the number of accounts that were updated, and the errors.
pub record Refreshed : Type 0 where
  pub pool : Pool
  pub updated : ℕ
  pub errs : List Text

-- An account without tokens is passed over. The token is not refreshed here.
abbrev has_token : Option Cred → Bool
has_token none = false
has_token (some c) = not (is_empty c.dt && is_empty c.drt)

abbrev pub note_quota : Env → Status → Result (ℤ × Bool) → Refreshed → Refreshed
note_quota env acc (failure text) r = record r {
  errs = r.errs ++ (acc.nickname ++ (codes ": " ++ text)) ∷ [];
}
note_quota env acc (success (remain, true)) r = record r {
  pool = cooldown env acc.uid hard (pos (12 * 3_600_000_000_000)) (codes "quota exceeded") r.pool;
  updated = r.updated + 1;
}
note_quota env acc (success (remain, false)) r = record r {
  pool = reenable_if_credits env acc.uid remain r.pool;
  updated = r.updated + 1;
}

pub refresh_account : Env → Status → Result (ℤ × Bool) → Refreshed → Refreshed
unfolding auth_by_uid
refresh_account env acc answer r =
    if acc.disabled
    then r
    else if has_token (auth_by_uid acc.uid r.pool)
    then note_quota env acc answer r
    else r

-- The loop over the list, with what runs beside it before each account.
pub refresh_loop :
    (ℕ → Env × Result (ℤ × Bool))
    → (ℕ → List (Env × Call))
    → ℕ
    → List Status
    → Refreshed
    → Refreshed
unfolding refresh_account run
refresh_loop world others i [] r = r
refresh_loop world others i (acc ∷ accs) r =
    refresh_loop world others (suc i) accs
      (refresh_account (world i).0 acc (world i).1 (record r { pool = run r.pool (others i) }))

pub handle_quota_refresh :
    Env → (ℕ → Env × Result (ℤ × Bool)) → (ℕ → List (Env × Call)) → Pool → Refreshed
unfolding refresh_loop
handle_quota_refresh env world others p =
    refresh_loop world others 0 (list env p) (record { pool = p; updated = 0; errs = [] })

-- The answer to a deletion, with its status.
pub data Deleted : Type 0 where
  refused : ℕ → Text → Deleted
  deleted : Text → Deleted

-- The directory for the deletion: the administrator has none.
abbrev delete_dir : User → Site → Text
delete_dir u s =
    if u.role == role_admin && u.id == admin_id then [] else get_user_auth_dir u.id s.manager

-- `problem` is an error of the file system other than that the file is missing.
pub handle_delete_account : (List Text → Text) → Option Text → User → Text → Site → Site × Deleted
unfolding trim_prefix delete
handle_delete_account join problem u path s =
    let uid = trim_prefix path (codes "/accounts/") in
    let dir = delete_dir u s in
    if is_empty uid
    then (s, refused 400 (codes "uid required"))
    else if is_empty dir
    then (s, refused 500 (codes "user pool not found"))
    else elim problem [
      | some text ↦ (s, refused 500 text)
      | none ↦ (record s { files = delete (join (dir ∷ file_name uid ∷ [])) s.files }, deleted uid)
    ]
