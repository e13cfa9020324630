-- ===== src/Cred.antt =====
-- internal/cred/cred.go: the credentials of one account.
pub mod Load
pub mod Refresh
pub mod Fingerprint
mod Tests
use qoderwork2api.Common.{[]}
use qoderwork2api.Common.Int.{ℤ, pos}
use qoderwork2api.Common.Eq.{Text}

-- The mutex has no counterpart: each operation is one step.
pub record Cred : Type 0 where
  pub uid : Text
  pub nickname : Text
  pub dt : Text
  pub drt : Text
  pub dt_expires_at : ℤ
  pub machine_id : Text
  pub machine_token : Text
  pub machine_type : Text

-- A value of which nothing is set.
abbrev pub blank : Cred
blank = record {
  uid = [];
  nickname = [];
  dt = [];
  drt = [];
  dt_expires_at = pos 0;
  machine_id = [];
  machine_token = [];
  machine_type = [];
}
