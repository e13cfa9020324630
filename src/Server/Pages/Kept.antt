-- ===== src/Server/Pages/Kept.antt =====
-- What the refresh of the credits keeps.
use qoderwork2api.Common.{
  ℕ, suc, ◌+◌, ◌*◌, ◌≤◌, inl, inr, Bool, true, false, List, [], ◌∷◌, ◌++◌, arith, Bool-cases,
  length, length-append,
}
use qoderwork2api.Common.Int.{ℤ, pos}
use qoderwork2api.Common.Eq.{codes}
use qoderwork2api.Pool.{Pool, Env, hard, auth_by_uid}
use qoderwork2api.Pool.Shape.{
  IsWellFormed, Call, run, run-IsWellFormed, step, step-IsWellFormed, cools, reenables,
}
use qoderwork2api.Pool.Listing.{Status, list}
use qoderwork2api.Upstream.Client.{Result, success, failure}
use qoderwork2api.Server.Pages.{
  Refreshed, has_token, note_quota, refresh_account, refresh_loop, handle_quota_refresh,
}

-- The pool is in shape, and at most `n` accounts were updated or have an error.
abbrev pub IsTallied : ℕ → Refreshed → Type 0
IsTallied n r = IsWellFormed r.pool × (r.updated + length r.errs ≤ n)

note_quota-IsTallied :
    (env : Env) (acc : Status) (answer : Result (ℤ × Bool)) (n : ℕ) (r : Refreshed)
    → IsTallied n r
    → IsTallied (suc n) (note_quota env acc answer r)
unfolding step
note_quota-IsTallied env acc (failure text) n r (w, fits) =
    (w, omega (arith, fits, length-append r.errs ((acc.nickname ++ (codes ": " ++ text)) ∷ [])))
note_quota-IsTallied env acc (success (remain, true)) n r (w, fits) = (
  step-IsWellFormed env (cools acc.uid hard (pos (12 * 3_600_000_000_000)) (codes "quota exceeded"))
      r.pool w,
  omega (arith, fits),
)
note_quota-IsTallied env acc (success (remain, false)) n r (w, fits) =
    (step-IsWellFormed env (reenables acc.uid remain) r.pool w, omega (arith, fits))

refresh_account-IsTallied :
    (env : Env) (acc : Status) (answer : Result (ℤ × Bool)) (n : ℕ) (r : Refreshed)
    → IsTallied n r
    → IsTallied (suc n) (refresh_account env acc answer r)
unfolding refresh_account
refresh_account-IsTallied env acc answer n r (w, fits) = elim (Bool-cases acc.disabled) [
  | inl e ↦ rw (e, refresh_account) (w, omega (arith, fits))
  | inr e ↦ elim (Bool-cases (has_token (auth_by_uid acc.uid r.pool))) [
    | inl t ↦ rw (e, t, refresh_account) (note_quota-IsTallied env acc answer n r (w, fits))
    | inr t ↦ rw (e, t, refresh_account) (w, omega (arith, fits))
  ]
]

refresh_loop-IsTallied :
    (world : ℕ → Env × Result (ℤ × Bool)) (others : ℕ → List (Env × Call)) (i : ℕ)
    (accs : List Status) (n : ℕ) (r : Refreshed)
    → IsTallied n r
    → IsTallied (n + length accs) (refresh_loop world others i accs r)
unfolding refresh_loop
refresh_loop-IsTallied world others i [] n r (w, fits) = (w, omega (arith, fits))
refresh_loop-IsTallied world others i (acc ∷ accs) n r (w, fits) =
    let (shape, size) = refresh_loop-IsTallied world others (suc i) accs (suc n) _ (
      refresh_account-IsTallied (world i).0 acc (world i).1 n
        (record r { pool = run r.pool (others i) }) (run-IsWellFormed r.pool (others i) w, fits)) in
    (shape, omega (arith, size))

-- The refresh of the credits leaves the pool in shape, whatever the service answers and whatever
-- runs beside it, and it counts or reports each account of the list once at most.
pub handle_quota_refresh-IsTallied :
    (env : Env) (world : ℕ → Env × Result (ℤ × Bool)) (others : ℕ → List (Env × Call)) (p : Pool)
    → IsWellFormed p
    → IsTallied (length (list env p)) (handle_quota_refresh env world others p)
unfolding handle_quota_refresh
handle_quota_refresh-IsTallied env world others p w =
    let (shape, size) =
      refresh_loop-IsTallied world others 0 (list env p) 0
        (record { pool = p; updated = 0; errs = [] }) (w, omega arith) in
    (shape, omega (arith, size))
