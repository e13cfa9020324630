-- ===== src/Cred/Load.antt =====
-- `LoadFile` and `LoadDir`. What json.Unmarshal reads from a file is data of the model.
use qoderwork2api.Common.{
  ◌≡◌, refl, inl, inr, All, arith, Bool-cases, Bool, false, ◌&&◌, List, [], ◌∷◌, Option, none, some,
  if◌then◌else◌,
}
use qoderwork2api.Common.Int.{ℤ}
use qoderwork2api.Common.Eq.{Text, codes, is_empty}
use qoderwork2api.Common.Strings.{has_prefix, has_suffix, trim_prefix, trim_suffix}
use qoderwork2api.Cred.{Cred, blank}

-- The two shapes of an auth file, as their fields are decoded.
pub record Nested : Type 0 where
  pub access_token : Text
  pub refresh_token : Text
  pub expires_at : ℤ
  pub uid : Text
  pub nickname : Text

pub record Flat : Type 0 where
  pub token : Text
  pub access_token : Text
  pub refresh_token : Text
  pub expires_at : ℤ
  pub uid : Text
  pub user_id : Text
  pub nickname : Text

-- A file as `LoadFile` meets it: it cannot be read, is no JSON object, has the key "auth", or
-- has it not; `none` where a field is of another type.
pub data AuthFile : Type 0 where
  unreadable unparsable : AuthFile
  nested : Option Nested → AuthFile
  flat : Option Flat → AuthFile

pub data LoadError : Type 0 where
  read_failed parse_failed missing_tokens missing_uid : LoadError

pub data Loaded : Type 0 where
  ok : Cred → Loaded
  err : LoadError → Loaded

abbrev pub or_else : Text → Text → Text
or_else [] d = d
or_else (c ∷ s) d = c ∷ s

from_nested : Nested → Cred
from_nested n = record blank {
  dt = n.access_token;
  drt = n.refresh_token;
  dt_expires_at = n.expires_at;
  uid = n.uid;
  nickname = n.nickname;
}

from_flat : Flat → Cred
from_flat f = record blank {
  dt = or_else f.token f.access_token;
  drt = f.refresh_token;
  dt_expires_at = f.expires_at;
  uid = or_else f.uid f.user_id;
  nickname = f.nickname;
}

abbrev prefix : Text
prefix = codes "qoderwork-"

abbrev suffix : Text
suffix = codes ".json"

-- The uid that the name of the file gives where the file has none.
uid_of_name : Text → Text
unfolding has_prefix has_suffix trim_prefix trim_suffix
uid_of_name base =
    if has_prefix base prefix && has_suffix base suffix
    then trim_suffix (trim_prefix base prefix) suffix
    else []

-- The checks after decoding.
complete : Text → Cred → Loaded
complete base c =
    if is_empty c.dt && is_empty c.drt
    then err missing_tokens
    else let uid = or_else c.uid (uid_of_name base) in
      if is_empty uid then err missing_uid else ok (record c { uid = uid })

-- `base` is the last element of the path.
pub load_file : Text → AuthFile → Loaded
load_file base unreadable = err read_failed
load_file base unparsable = err parse_failed
load_file base (nested none) = err parse_failed
load_file base (nested (some n)) = complete base (from_nested n)
load_file base (flat none) = err parse_failed
load_file base (flat (some f)) = complete base (from_flat f)

-- The names that the pattern qoderwork*.json takes.
glob_matches : Text → Bool
unfolding has_prefix has_suffix
glob_matches name = has_prefix name (codes "qoderwork") && has_suffix name suffix

abbrev keep_ok : Loaded → List Cred → List Cred
keep_ok (ok c) cs = c ∷ cs
keep_ok (err e) cs = cs

-- A directory is its files in the order in which Glob lists them.
pub load_dir : List (Text × AuthFile) → List Cred
load_dir [] = []
load_dir ((name, file) ∷ files) =
    let rest = load_dir files in
    if glob_matches name then keep_ok (load_file name file) rest else rest

-- A credential that was loaded has a uid and at least one token, and no machine fingerprint yet.
pub record IsLoaded (c : Cred) : Type 0 where
  pub uid_set : is_empty c.uid ≡ false
  pub token_set : (is_empty c.dt && is_empty c.drt) ≡ false
  pub no_machine : (c.machine_id ≡ []) × (c.machine_token ≡ []) × (c.machine_type ≡ [])

complete-IsLoaded :
    (base : Text) (c d : Cred)
    → (c.machine_id ≡ []) × (c.machine_token ≡ []) × (c.machine_type ≡ [])
    → complete base c ≡ ok d
    → IsLoaded d
unfolding complete
complete-IsLoaded base c d bare h = ground arith

load_file-IsLoaded : (base : Text) (f : AuthFile) {c : Cred} → load_file base f ≡ ok c → IsLoaded c
unfolding load_file from_nested from_flat
load_file-IsLoaded base unreadable h = cc
load_file-IsLoaded base unparsable h = cc
load_file-IsLoaded base (nested none) h = cc
load_file-IsLoaded base (nested (some n)) {c} h =
    complete-IsLoaded base (from_nested n) c (refl, refl, refl) h
load_file-IsLoaded base (flat none) h = cc
load_file-IsLoaded base (flat (some f)) {c} h =
    complete-IsLoaded base (from_flat f) c (refl, refl, refl) h

keep_ok-IsLoaded :
    (l : Loaded) (cs : List Cred)
    → ((c : Cred) → l ≡ ok c → IsLoaded c)
    → All IsLoaded cs
    → All IsLoaded (keep_ok l cs)
keep_ok-IsLoaded (ok c) cs h hs = (h c refl, hs)
keep_ok-IsLoaded (err e) cs h hs = hs

-- Whatever the directory holds, every credential that is loaded from it has a uid and a token.
pub load_dir-IsLoaded : (files : List (Text × AuthFile)) → All IsLoaded (load_dir files)
unfolding load_dir
load_dir-IsLoaded [] = tt
load_dir-IsLoaded ((name, file) ∷ files) = elim (Bool-cases (glob_matches name)) [
  | inl e ↦ rw e (
      keep_ok-IsLoaded (load_file name file) (load_dir files)
        (λ c h. load_file-IsLoaded name file h) (load_dir-IsLoaded files))
  | inr e ↦ rw e (load_dir-IsLoaded files)
]
