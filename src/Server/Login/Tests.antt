-- ===== src/Server/Login/Tests.antt =====
-- The theorem about a login at concrete values.
use qoderwork2api.Common.{◌≡◌, refl, true, false, List, [], ◌∷◌, ◌++◌, none, some, map}
use qoderwork2api.Common.Int.{pos}
use qoderwork2api.Common.Eq.{Text, codes, text_instance, text_eq}
use qoderwork2api.Common.Dict.{lookup, insert}
use qoderwork2api.Pool.{Pool}
use qoderwork2api.Server.Login.{
  Session, Site, Token, PollWorld, answered, device_token_poll, handle_login_poll,
  handle_login_cancel, expire, handle_login_url,
}
use qoderwork2api.Server.Login.Isolation.{Leaves, handle_login_poll-IsIsolated}

abbrev digest : Text → Text
digest s = s

abbrev joined : List Text → Text
joined [] = []
joined (s ∷ ss) = s ++ codes "/" ++ joined ss

abbrev empty_pool : Pool
empty_pool = record { by_uid = []; stored = false; disk = none }

abbrev session : Session
session = record {
  user_id = codes "u_1";
  verifier = codes "v";
  nonce = codes "n";
  machine_id = codes "m";
  auth_url = codes "url";
  created_at = 1;
}

abbrev site : Site
site = record {
  sessions = (codes "s", session) ∷ [];
  manager = record {
    pools = (codes "u_1", empty_pool) ∷ [];
    auth_dirs = (codes "u_1", codes "data/pools/u_1") ∷ [];
    state_dirs = [];
    base_dir = codes "data";
  };
  admin_pool = empty_pool;
  admin_dir = codes "auth";
  files = [];
}

abbrev token : Token
token = record {
  token = some (codes "dt-1");
  device_token = none;
  refresh_token = some (codes "drt-1");
  user_id = some (codes "12345678-9");
  expires_in = some (pos 1000);
}

abbrev world : PollWorld
world = record {
  reply = answered 200 [] token;
  during_poll = λ s. s;
  during_profile = λ s. s;
  profile = (codes "ann", []);
  now = 7;
  draws = record { id = λ j. 0; seed_left = λ j. 0; seed_right = λ j. 0; kind = λ j. 0 };
  writes = none;
  env = record { now = 7; writes = true };
}

handle_login_poll-IsIsolated_example :
    let after = (handle_login_poll digest joined digest world (some (codes "s")) site).0 in
    Leaves digest joined digest
      (codes "s")
      (codes "u_1")
      world
      site
      after
      (device_token_poll world.reply)
unfolding lookup text_eq
handle_login_poll-IsIsolated_example =
    handle_login_poll-IsIsolated digest joined digest world (codes "s") session site refl
      (λ s none_yet. none_yet)

cancels : (handle_login_cancel digest joined digest (some (codes "s")) site).0.sessions ≡ []
unfolding handle_login_cancel text_eq
cancels = refl

-- The timer of a login forgets its session.
expires : (expire digest joined digest (codes "s") site).sessions ≡ []
unfolding expire text_eq
expires = refl

keeps_the_user :
    map
      (λ (kv : Text × Session). kv.1.user_id)
      (handle_login_url digest joined digest
        (record { verifier = []; nonce = λ i. 0; machine = λ i. 0; session = λ i. 0 })
        5
        (record {
          id = codes "u_2";
          name = [];
          api_key = [];
          password_hash = [];
          role = [];
          created_at = 0;
        })
        (record site { sessions = [] })).0.sessions
    ≡ codes "u_2" ∷ []
unfolding handle_login_url insert
keeps_the_user = refl
