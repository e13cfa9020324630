-- ===== src/Server/Chat/Tests.antt =====
-- The theorem about the rotation that succeeds, at concrete values.
use qoderwork2api.Common.{
  ℕ, ◌≡◌, refl, ap, true, false, List, [], ◌∷◌, Option, none, arith, inl, inr, if◌then◌else◌,
}
use qoderwork2api.Common.Int.{ℤ, pos, wrap64, ◌-ℤ◌}
use qoderwork2api.Common.Eq.{Text, codes, text_instance, text_eq, ◌==◌}
use qoderwork2api.Common.Dict.{lookup, In-lookup}
use qoderwork2api.Cred.{blank}
use qoderwork2api.Cred.Refresh.{failed, ensure_dt, is_fresh}
use qoderwork2api.Cred.Fingerprint.{ensure_machine_fingerprint}
use qoderwork2api.Pool.{Pool, Env, Entry, new_entry, healthy}
use qoderwork2api.Pool.Shape.{IsWellFormed, Call, run}
use qoderwork2api.Server.Chat.{
  Config, new_handler, rotations, Round, response, streamed, rotate, try_account, chat_forward,
  has_fingerprint,
}
use qoderwork2api.Server.Chat.Liveness.{Covers, IsServing, rotate-IsServing}

abbrev no_time : Text → Option ℤ
no_time text = none

abbrev same_letter : ℕ → ℕ
same_letter c = c

abbrev whole : Text → Text
whole s = s

abbrev zeros : ℕ → ℕ
zeros i = 0

abbrev rounds : ℕ → Round
rounds i = record {
  at_pick = record { now = 5; writes = true };
  ensure_now = 5;
  ensure_later = 6;
  refresh = λ uid. failed (codes "no route");
  draws = record { id = zeros; seed_left = zeros; seed_right = zeros; kind = zeros };
  wire = λ uid. response (if uid == codes "b" then 200 else 429) (codes "data");
  at_end = record { now = 7; writes = true };
}

abbrev nobody : ℕ → List (Env × Call)
nobody i = []

abbrev raw : Config
raw = record {
  max_rotate = pos 0;
  hard_cooldown = pos 0;
  soft_cooldown = pos 0;
  err_threshold = pos 0;
  err_cooldown = pos 0;
}

-- The account with more credits is asked first, and its answer is 429.
abbrev tired : Entry
tired =
    record (new_entry (record blank {
      uid = codes "a";
      dt = codes "dt-a";
      dt_expires_at = pos 100_000;
      machine_id = codes "m";
      machine_token = codes "t";
      machine_type = codes "x";
    })) { credits = pos 9 }

abbrev ready : Entry
ready = new_entry (record blank {
  uid = codes "b";
  dt = codes "dt-b";
  dt_expires_at = pos 100_000;
  machine_id = codes "m";
  machine_token = codes "t";
  machine_type = codes "x";
})

abbrev two : Pool
two = record { by_uid = (codes "a", tired) ∷ (codes "b", ready) ∷ []; stored = false; disk = none }

two-IsWellFormed : IsWellFormed two
unfolding lookup text_eq
two-IsWellFormed = record { unique = (refl, (refl, tt)); keyed = (refl, (refl, tt)) }

abbrev uids : List Text
uids = codes "a" ∷ codes "b" ∷ []

two-Covers : Covers uids two
two-Covers j e h = elim (In-lookup j e two.by_uid h) [
  | inl p ↦ inl (ap (λ (kv : Text × Entry). kv.0) p)
  | inr (inl p) ↦ inr (inl (ap (λ (kv : Text × Entry). kv.0) p))
  | inr (inr p) ↦ elim p [ ]
]

serving : IsServing no_time same_letter whole raw rounds nobody (codes "b") ready uids
unfolding run try_account ensure_dt is_fresh wrap64 ◌-ℤ◌ chat_forward has_fingerprint healthy
    ensure_machine_fingerprint text_eq
serving = record {
  healthy = λ i. refl;
  serves = λ i p. (codes "data", refl);
  keeps = λ i p. refl;
  adds_none = λ i p covers. covers;
}

rotate-IsServing_example :
    (uid : Text) × (body : Text) × ((rotate no_time same_letter whole
        (new_handler raw)
        rounds
        nobody
        (rotations (new_handler raw))
        0
        []
        none
        two).answer
      ≡ streamed uid body)
unfolding lookup text_eq new_handler
rotate-IsServing_example =
    rotate-IsServing no_time same_letter whole raw rounds nobody (codes "b") ready uids two
      two-IsWellFormed refl two-Covers (omega arith) serving
