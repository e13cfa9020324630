-- ===== src/Server/Login.antt =====
-- The OAuth login of internal/server/user_api.go: a login is started, asked for until the service
-- has a token, cancelled, or forgotten after ten minutes.
pub mod Isolation
mod Tests
use qoderwork2api.Common.{
  ℕ, zero, suc, ◌+◌, ◌%◌, Bool, true, false, ◌&&◌, ◌||◌, not, List, [], ◌∷◌, ◌++◌, Option, none,
  some, if◌then◌else◌, nat_eq, leb, ltb, take, map, length,
}
use qoderwork2api.Common.Int.{ℤ, pos, ◌+ℤ◌}
use qoderwork2api.Common.Eq.{Text, codes, text_instance, ◌==◌, is_empty}
use qoderwork2api.Common.Dict.{Dict, lookup, insert, delete}
use qoderwork2api.Common.Strings.{decimal}
use qoderwork2api.Cred.Load.{Nested, nested, or_else, load_file, Loaded, ok, err}
use qoderwork2api.Cred.Refresh.{unix, millis}
use qoderwork2api.Cred.Fingerprint.{Draws, uuid4, encode_raw_url, ensure_machine_fingerprint}
use qoderwork2api.Pool.{Pool, Env, add, save_state}
use qoderwork2api.User.{User}
use qoderwork2api.User.Pools.{PoolManager, get_pool, set_pool, get_user_auth_dir}

abbrev website : Text
website = codes "https://qoder.com.cn"

abbrev client_id : Text
client_id = codes "1c5e33e1-364d-4ce6-b02c-acaa81274a5c"

abbrev redirect_uri : Text
redirect_uri = codes "qoder-work-cn://"

pub record Session : Type 0 where
  pub user_id : Text
  pub verifier : Text
  pub nonce : Text
  pub machine_id : Text
  pub auth_url : Text
  pub created_at : ℕ

-- The sessions, the pools, and the auth files that the server has written.
pub record Site : Type 0 where
  pub sessions : Dict Text Session
  pub manager : PoolManager
  pub admin_pool : Pool
  pub admin_dir : Text
  pub files : Dict Text Nested

abbrev verifier_letters : Text
verifier_letters = codes "ABCDEFGHIJKLMNOPQRSTUVWXYZabcdefghijklmnopqrstuvwxyz0123456789-._~"

letter_at : Text → ℕ → ℕ
letter_at [] i = 0
letter_at (c ∷ s) zero = c
letter_at (c ∷ s) (suc i) = letter_at s i

pub make_verifier : List ℕ → Text
unfolding letter_at
make_verifier bytes = map (λ b. letter_at verifier_letters (b % length verifier_letters)) bytes

-- What the start of a login draws: 64 bytes for the verifier, and three times 16 bytes.
pub record LoginDraws : Type 0 where
  pub verifier : List ℕ
  pub nonce : ℕ → ℕ
  pub machine : ℕ → ℕ
  pub session : ℕ → ℕ

-- What the answer of the token service is: no response, a status with a body that is no JSON
-- object, or a status with the fields that the assertions read.
pub record Token : Type 0 where
  pub token : Option Text
  pub device_token : Option Text
  pub refresh_token : Option Text
  pub user_id : Option Text
  pub expires_in : Option ℤ

pub data PollReply : Type 0 where
  broken : Text → PollReply
  garbled : ℕ → Text → Text → PollReply
  answered : ℕ → Text → Token → PollReply

pub data Polled : Type 0 where
  poll_failed : Text → Polled
  poll_pending : Polled
  polled : Token → Polled

abbrev pub text_of : Option Text → Text
text_of none = []
text_of (some s) = s

abbrev number_of : Option ℤ → ℤ
number_of none = pos 0
number_of (some n) = n

abbrev pub access_token : Token → Text
access_token t = or_else (text_of t.token) (text_of t.device_token)

abbrev by_status : ℕ → Text → Polled → Polled
by_status status raw rest =
    if nat_eq status 404 || nat_eq status 202
    then poll_pending
    else if leb 400 status
    then poll_failed (codes "http " ++ (decimal status ++ (codes ": " ++ raw)))
    else rest

pub device_token_poll : PollReply → Polled
device_token_poll (broken text) = poll_failed text
device_token_poll (garbled status raw text) =
    by_status status raw (poll_failed (codes "parse: " ++ text))
device_token_poll (answered status raw t) =
    by_status status raw (if is_empty (access_token t) then poll_pending else polled t)

-- The answer of the user service: a name and a user name, both empty where there is none.
pub fetch_nickname : Text × Text → Text
fetch_nickname (name, username) = or_else name username

-- What the client receives.
pub data Page : Type 0 where
  failure : ℕ → Text → Page
  panicked : Page
  login_started : Text → Text → Page
  pending : Page
  logged_in : Text → Text → Page
  cancelled : Page

-- What a poll meets: the answers of the two services, the clock in nanoseconds since 1970, the
-- bytes for a fingerprint, whether the auth file can be written, and the file system; and what other
-- requests do while each of the services is asked, since no lock is held then.
pub record PollWorld : Type 0 where
  pub reply : PollReply
  pub during_poll : Site → Site
  pub during_profile : Site → Site
  pub profile : Text × Text
  pub now : ℕ
  pub draws : Draws
  pub writes : Option Text
  pub env : Env

abbrev pub forget : Text → Site → Site
forget id s = record s { sessions = delete id s.sessions }

abbrev pub admin_id : Text
admin_id = codes "admin"

abbrev pub file_name : Text → Text
file_name uid = codes "qoderwork-" ++ (uid ++ codes ".json")

abbrev pub auth_of : PollWorld → Token → Text → Nested
auth_of w t nickname = record {
  access_token = access_token t;
  refresh_token = text_of t.refresh_token;
  expires_at = unix (pos w.now +ℤ millis (number_of t.expires_in));
  uid = text_of t.user_id;
  nickname = nickname;
}

-- The directory for the auth file; empty if there is none.
abbrev pub auth_dir_of : Text → Site → Text
auth_dir_of user_id s =
    let dir = get_user_auth_dir user_id s.manager in
    if is_empty dir && not (is_empty s.admin_dir) && user_id == admin_id then s.admin_dir else dir

abbrev pub add_loaded : PollWorld → Loaded → Pool → Pool
add_loaded w (err e) p = p
add_loaded w (ok c) p = save_state w.env (add (ensure_machine_fingerprint w.draws c) p)

-- The pool of the session's user takes the account up.
pub add_account : PollWorld → Text → Loaded → Site → Site
add_account w user_id c s = elim (get_pool user_id s.manager) [
  | some p ↦ record s { manager = set_pool user_id (add_loaded w c p) s.manager }
  | none ↦ if user_id == admin_id then record s { admin_pool = add_loaded w c s.admin_pool } else s
]

-- `sha` is sha256.Sum256, `join` filepath.Join, and `base` filepath.Base.
module _ (sha : Text → Text) (join : List Text → Text) (base : Text → Text) where
  pub handle_login_url : LoginDraws → ℕ → User → Site → Site × Page
  unfolding make_verifier insert
  handle_login_url d now u s =
      let verifier = make_verifier d.verifier in
      let challenge = encode_raw_url (sha verifier) in
      let nonce = uuid4 d.nonce in
      let machine = uuid4 d.machine in
      let url =
        website
        ++ (codes "/device/selectAccounts?challenge="
            ++ (challenge
                ++ (codes "&challenge_method=S256&nonce="
                    ++ (nonce
                        ++ (codes "&machine_id="
                            ++ (machine
                                ++ (codes "&client_id="
                                    ++ (client_id
                                        ++ (codes "&redirect_uri=" ++ redirect_uri))))))))) in
      let id = uuid4 d.session in
      let session : Session = record {
        user_id = u.id;
        verifier = verifier;
        nonce = nonce;
        machine_id = machine;
        auth_url = url;
        created_at = now;
      } in
      (record s { sessions = insert id session s.sessions }, login_started id url)

  -- The timer that `handleLoginURL` starts, when it fires.
  pub expire : Text → Site → Site
  unfolding delete
  expire id s = record s { sessions = delete id s.sessions }

  -- `none` is a body that is not decoded; it leaves the id empty.
  pub handle_login_cancel : Option Text → Site → Site × Page
  unfolding delete
  handle_login_cancel id s = (record s { sessions = delete (text_of id) s.sessions }, cancelled)

  -- The part of a poll behind the choice of the nickname.
  abbrev pub finish_login : PollWorld → Text → Token → Text → Site → Site × Page
  finish_login w user_id t nickname s =
      let uid = text_of t.user_id in
      let dir = auth_dir_of user_id s in
      if is_empty dir
      then (s, failure 500 (codes "user pool not found"))
      else let path = join (dir ∷ file_name uid ∷ []) in
        let auth = auth_of w t nickname in
        elim w.writes [
          | some text ↦ (s, failure 500 (codes "save failed: " ++ text))
          | none ↦ (
            add_account w user_id (load_file (base path) (nested (some auth)))
                (record s { files = insert path auth s.files }),
            logged_in uid nickname,
          )
        ]

  -- The part of a poll behind the token, after the user service was asked. The slice `uid[:8]` panics on a shorter uid.
  abbrev pub take_login : PollWorld → Text → Token → Site → Site × Page
  take_login w user_id t s =
      let uid = text_of t.user_id in
      let name = fetch_nickname w.profile in
      if not (is_empty name)
      then finish_login w user_id t name s
      else if ltb (length uid) 8
      then (s, panicked)
      else finish_login w user_id t (codes "user_" ++ take 8 uid) s

  -- The session is deleted under the lock; then the user service is asked.
  abbrev pub poll_session : PollWorld → Text → Session → Polled → Site → Site × Page
  poll_session w id session (poll_failed text) s = (s, failure 500 text)
  poll_session w id session poll_pending s = (s, pending)
  poll_session w id session (polled t) s =
      take_login w session.user_id t (w.during_profile (forget id s))

  -- `none` is a body that is not decoded. The session is looked up under the lock, which is released
  -- before the token service is asked.
  pub handle_login_poll : PollWorld → Option Text → Site → Site × Page
  unfolding lookup delete device_token_poll insert fetch_nickname add_account
  handle_login_poll w none s = (s, failure 400 (codes "invalid request"))
  handle_login_poll w (some id) s = elim (lookup id s.sessions) [
    | none ↦ (s, failure 404 (codes "session not found or expired"))
    | some session ↦ poll_session w id session (device_token_poll w.reply) (w.during_poll s)
  ]
