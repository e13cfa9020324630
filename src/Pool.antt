-- ===== src/Pool.antt =====
-- internal/pool/pool.go: the accounts, their cooling and disabling, and the state file.
pub mod Disk
pub mod Pick
pub mod Shape
pub mod Cooling
pub mod Resting
pub mod Disabling
pub mod Errors
pub mod Listing
pub mod View
mod Tests
use qoderwork2api.Common.{
  ℕ, suc, ◌+◌, ◌-◌, Bool, true, false, ◌&&◌, ◌||◌, not, List, [], ◌∷◌, ◌++◌, Option, none, some,
  if◌then◌else◌, nat_eq, ltb, map,
}
use qoderwork2api.Common.Int.{ℤ, pos, pos_part, neg_part, ltb_ℤ, leb_ℤ}
use qoderwork2api.Common.Eq.{Text, codes, is_empty, text_instance, text_eq, ◌==◌}
use qoderwork2api.Common.Dict.{Dict, lookup, insert, delete, modify}
use qoderwork2api.Cred.{Cred, blank}

pub data CoolKind : Type 0 where
  hard soft errors : CoolKind

-- Instants are nanoseconds since the zero time.Time, which is 0; durations are time.Duration.
pub record Entry : Type 0 where
  pub cred : Cred
  pub credits : ℤ
  pub disabled : Bool
  pub reason : Text
  pub until : ℕ
  pub err_count : ℕ

-- An account in the state file.
pub record Account : Type 0 where
  pub credits : ℤ
  pub disabled : Bool
  pub reason : Text
  pub until : ℕ
  pub machine_id : Text
  pub machine_token : Text
  pub machine_type : Text

-- `stored` says that the path of the state file is not empty; `disk` is what the file decodes to,
-- `none` if it is missing or no JSON. The lock has no counterpart: each method is one step.
pub record Pool : Type 0 where
  pub by_uid : Dict Text Entry
  pub stored : Bool
  pub disk : Option (Dict Text Account)

-- What a method meets: the clock, and whether the file can be written and renamed.
pub record Env : Type 0 where
  pub now : ℕ
  pub writes : Bool

-- `t.Add(d)`, where the sum is not before the zero time.
abbrev pub add_time : ℕ → ℤ → ℕ
add_time t d = t + pos_part d - neg_part d

-- `!t.IsZero() && now.Before(t)`
abbrev pub is_before : ℕ → ℕ → Bool
is_before now t = not (nat_eq t 0) && ltb now t

unfoldable pub healthy : Entry → ℕ → Bool
healthy e now = if e.disabled then false else if is_before now e.until then false else true

abbrev pub new_entry : Cred → Entry
new_entry c = record {
  cred = c;
  credits = pos 0;
  disabled = false;
  reason = [];
  until = 0;
  err_count = 0;
}

pub account_of : Entry → Account
account_of e = record {
  credits = e.credits;
  disabled = e.disabled;
  reason = e.reason;
  until = e.until;
  machine_id = e.cred.machine_id;
  machine_token = e.cred.machine_token;
  machine_type = e.cred.machine_type;
}

pub snapshot : Dict Text Entry → Dict Text Account
snapshot [] = []
snapshot ((uid, e) ∷ m) = (uid, account_of e) ∷ snapshot m

pub save_locked : Env → Pool → Pool
unfolding snapshot account_of
save_locked env p =
    if p.stored && env.writes then record p { disk = some (snapshot p.by_uid) } else p

pub entry_of : Text → Account → Entry
entry_of uid s = record {
  cred = record blank {
    uid = uid;
    machine_id = s.machine_id;
    machine_token = s.machine_token;
    machine_type = s.machine_type;
  };
  credits = s.credits;
  disabled = s.disabled;
  reason = s.reason;
  until = s.until;
  err_count = 0;
}

pub load_accounts : Dict Text Account → Dict Text Entry
load_accounts [] = []
load_accounts ((uid, s) ∷ m) = (uid, entry_of uid s) ∷ load_accounts m

abbrev load : Option (Dict Text Account) → Dict Text Entry
load none = []
load (some accounts) = load_accounts accounts

unfoldable pub new : Bool → Option (Dict Text Account) → Pool
unfolding load_accounts entry_of
new stored disk = record { by_uid = if stored then load disk else []; stored = stored; disk = disk }

-- An account that is there keeps its fingerprint.
pub keep_fingerprint : Cred → Cred → Cred
keep_fingerprint old c = if is_empty old.machine_id then c else record c {
  machine_id = old.machine_id;
  machine_token = old.machine_token;
  machine_type = old.machine_type;
}

abbrev pub replace_cred : Cred → Entry → Entry
replace_cred c e = record e { cred = keep_fingerprint e.cred c }

-- The common part of `Add` and of the loop in `SyncToDir`.
pub put : Cred → Dict Text Entry → Dict Text Entry
unfolding lookup insert modify keep_fingerprint
put c m = elim (lookup c.uid m) [
  | some e ↦ modify c.uid (replace_cred c) m
  | none ↦ insert c.uid (new_entry c) m
]

pub add : Cred → Pool → Pool
unfolding put
add c p = record p { by_uid = put c p.by_uid }

pub put_all : List Cred → Dict Text Entry → Dict Text Entry
unfolding put
put_all [] m = m
put_all (c ∷ cs) m = put_all cs (put c m)

pub is_seen : Text → List Cred → Bool
is_seen uid [] = false
is_seen uid (c ∷ cs) = c.uid == uid || is_seen uid cs

pub keep_seen : List Cred → Dict Text Entry → Dict Text Entry
unfolding is_seen
keep_seen cs [] = []
keep_seen cs ((uid, e) ∷ m) =
    let rest = keep_seen cs m in if is_seen uid cs then (uid, e) ∷ rest else rest

pub sync_to_dir : List Cred → Pool → Pool
unfolding put_all keep_seen
sync_to_dir cs p = record p { by_uid = keep_seen cs (put_all cs p.by_uid) }

unfoldable pub is_tried : Text → List Text → Bool
is_tried uid [] = false
is_tried uid (t ∷ ts) = t == uid || is_tried uid ts

-- One round of the loop of `PickExcluding`.
pub better : List Text → ℕ → Option Entry → Text → Entry → Option Entry
unfolding is_tried healthy
better tried now best uid e =
    if is_tried uid tried
    then best
    else if not (healthy e now)
    then best
    else elim best [ none ↦ some e | some b ↦ if ltb_ℤ b.credits e.credits then some e else some b ]

pub pick_loop : List Text → ℕ → Option Entry → Dict Text Entry → Option Entry
unfolding better
pick_loop tried now best [] = best
pick_loop tried now best ((uid, e) ∷ m) = pick_loop tried now (better tried now best uid e) m

abbrev pub cred_of : Option Entry → Option Cred
cred_of none = none
cred_of (some e) = some e.cred

unfoldable pub pick_excluding : Env → List Text → Pool → Option Cred
unfolding pick_loop
pick_excluding env tried p = cred_of (pick_loop tried env.now none p.by_uid)

pub pick : Env → Pool → Option Cred
unfolding pick_excluding
pick env p = pick_excluding env [] p

-- A method that changes one entry, if it is there, and saves.
unfoldable pub update : Env → Text → (Entry → Entry) → Pool → Pool
unfolding save_locked modify
update env uid f p = save_locked env (record p { by_uid = modify uid f p.by_uid })

pub set_credits : Env → Text → ℤ → Pool → Pool
unfolding update
set_credits env uid credits p = update env uid (λ e. record e { credits = credits }) p

unfoldable pub cooldown : Env → Text → CoolKind → ℤ → Text → Pool → Pool
unfolding update
cooldown env uid kind d reason p =
    update env uid (λ e. record e { until = add_time env.now d; reason = reason; err_count = 0 }) p

unfoldable pub disable : Env → Text → Text → Pool → Pool
unfolding update
disable env uid reason p = update env uid (λ e. record e { disabled = true; reason = reason }) p

unfoldable pub reenabled : ℤ → Entry → Entry
reenabled remain e =
    if ltb_ℤ (pos 0) remain && not e.disabled
    then record e { credits = remain; until = 0; reason = []; err_count = 0 }
    else record e { credits = remain }

unfoldable pub reenable_if_credits : Env → Text → ℤ → Pool → Pool
unfolding update reenabled
reenable_if_credits env uid remain p = update env uid (reenabled remain) p

unfoldable pub noted : ℕ → ℤ → ℤ → Entry → Entry
noted now threshold d e =
    if leb_ℤ threshold (pos (e.err_count + 1))
    then record e { until = add_time now d; reason = codes "consecutive errors"; err_count = 0 }
    else record e { err_count = e.err_count + 1 }

unfoldable pub note_error : Env → Text → ℤ → ℤ → Pool → Pool
unfolding update noted
note_error env uid threshold d p = update env uid (noted env.now threshold d) p

-- The one change that is not saved: the file has no count of errors.
pub note_success : Text → Pool → Pool
unfolding modify
note_success uid p = record p { by_uid = modify uid (λ e. record e { err_count = 0 }) p.by_uid }

unfoldable pub auth_by_uid : Text → Pool → Option Cred
unfolding lookup
auth_by_uid uid p = cred_of (lookup uid p.by_uid)

pub save_state : Env → Pool → Pool
unfolding save_locked
save_state env p = save_locked env p

-- A credential that a caller changes through the pointer that the pool gave out.
unfoldable pub change_cred : Text → (Cred → Cred) → Pool → Pool
unfolding modify
change_cred uid f p = record p { by_uid = modify uid (λ e. record e { cred = f e.cred }) p.by_uid }
