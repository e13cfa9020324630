-- ===== src/Start.antt =====
-- cmd/server/main.go: what the server starts with, and the reload of the administrator's accounts.
pub mod Sound
mod Tests
use qoderwork2api.Common.{
  ℕ, zero, suc, Bool, true, false, not, List, [], ◌∷◌, Option, none, some, if◌then◌else◌,
}
use qoderwork2api.Common.Int.{ℤ, pos}
use qoderwork2api.Common.Eq.{Text, codes, is_empty}
use qoderwork2api.Config.{Config, ConfigError, ConfigFile, no_path, Loaded, loaded, refused, load}
use qoderwork2api.Cred.{Cred}
use qoderwork2api.Cred.Load.{AuthFile, load_dir}
use qoderwork2api.Cred.Fingerprint.{Draws, ensure_machine_fingerprint}
use qoderwork2api.Pool.{Pool, Env, new, save_state, sync_to_dir}
use qoderwork2api.User.{User, Store, UsersFile, new_store, all_users}
use qoderwork2api.User.Pools.{PoolManager, Directory, new_pool_manager, add_all, register_user}
use qoderwork2api.Scheduler.{Hours, new_hours}
use qoderwork2api.Server.Chat.{new_handler}
use qoderwork2api.Server.Handler.{Gateway}

-- What the start meets: the file of the settings, the state and the auth files of the
-- administrator, the file of the users, the directories of the users by their ids, and the file
-- system.
pub record World : Type 0 where
  pub config : ConfigFile
  pub admin : Directory
  pub users : UsersFile
  pub directories : Text → Directory
  pub env : Env

-- What is running: the pools and the cache, the users, and the settings of the handler and of the
-- scheduler.
pub record Server : Type 0 where
  pub gateway : Gateway
  pub store : Store
  pub settings : qoderwork2api.Server.Chat.Config
  pub hours : Hours

pub data Started : Type 0 where
  fatal : Started
  running : Server → Started

-- The loop that registers the users.
pub register_all :
    (List Text → Text) → Env → (Text → Directory) → List User → PoolManager → PoolManager
unfolding register_user
register_all join env directories [] pm = pm
register_all join env directories (u ∷ us) pm =
    register_all join env directories us (register_user join env (directories u.id) u.id pm).0

-- The pool of the administrator; it is saved even if there is nothing in it.
pub admin_pool : Env → Bool → Directory → List (Text × AuthFile) → Pool
admin_pool env stored dir files =
    save_state env (add_all dir.draws 0 (load_dir files) (new stored dir.state))

abbrev fingerprinted : (ℕ → Draws) → ℕ → List Cred → List Cred
fingerprinted draws i [] = []
fingerprinted draws i (c ∷ cs) =
    ensure_machine_fingerprint (draws i) c ∷ fingerprinted draws (suc i) cs

-- `onReload`; `none` is a directory that is not read.
pub on_reload : Env → (ℕ → Draws) → Option (List (Text × AuthFile)) → Pool → Pool
on_reload env draws none p = p
on_reload env draws (some files) p =
    save_state env (sync_to_dir (fingerprinted draws 0 (load_dir files)) p)

-- `atoi` is strconv.Atoi, `getenv` os.Getenv, `lower` unicode.ToLower, `parse_duration`
-- time.ParseDuration, `is_not_exist` os.IsNotExist, `abs_dir` filepath.Abs of filepath.Dir, and
-- `join` filepath.Join.
module _ (atoi parse_duration : Text → Option ℤ) (getenv : Text → Text) (lower : ℕ → ℕ)
    (is_not_exist : ConfigError → Bool) (abs_dir : Text → Text) (join : List Text → Text) where
  abbrev without_file : Loaded → Loaded
  without_file (loaded c) = loaded c
  without_file (refused e) =
      if is_not_exist e then load atoi parse_duration getenv lower no_path else refused e

  abbrev pub serving : World → Config → List (Text × AuthFile) → Store → Server
  serving w c files store = record {
    gateway = record {
      shared = admin_pool w.env (not (is_empty c.state_file)) w.admin files;
      manager =
          register_all join w.env w.directories (all_users store.users)
            (new_pool_manager (abs_dir c.state_file));
      cache = record { models = []; names = []; at = 0 };
    };
    store = store;
    settings = new_handler (record {
      max_rotate = pos 0;
      hard_cooldown = c.hard_credit_dur;
      soft_cooldown = c.soft_rate_dur;
      err_threshold = c.err_thresh;
      err_cooldown = c.err_cooldown_dur;
    });
    hours = new_hours (record { checkin = c.checkin_hours; keepalive = c.keepalive_hours });
  }

  abbrev pub with_users : World → Config → List (Text × AuthFile) → Option Store → Started
  with_users w c files none = fatal
  with_users w c files (some store) = running (serving w c files store)

  abbrev pub with_files : World → Config → Option (List (Text × AuthFile)) → Started
  with_files w c none = fatal
  with_files w c (some files) = with_users w c files (new_store w.users)

  abbrev pub with_config : World → Loaded → Started
  with_config w (refused e) = fatal
  with_config w (loaded c) = with_files w c w.admin.files

  pub main : World → Started
  unfolding register_all admin_pool
  main w = with_config w (without_file (load atoi parse_duration getenv lower w.config))
