-- ===== src/Pool/Errors.antt =====
-- Errors in a row add up to a rest.
use qoderwork2api.Common.{
  ℕ, suc, length, ◌+◌, ◌≤◌, ◌<◌, ap, ◌≡◌, refl, ◌∙◌, List, [], ◌∷◌, some, arith,
}
use qoderwork2api.Common.Int.{ℤ, pos}
use qoderwork2api.Common.Eq.{Text, codes, text_instance}
use qoderwork2api.Common.Dict.{lookup}
use qoderwork2api.Pool.{Pool, Env, Entry, add_time, note_error, noted}
use qoderwork2api.Pool.Cooling.{lookup-update_self}

-- Calls of `NoteError` for one account, at one instant after the other.
pub note_errors : List Env → Text → ℤ → ℤ → Pool → Pool
note_errors [] uid threshold d p = p
note_errors (env ∷ envs) uid threshold d p =
    note_errors envs uid threshold d (note_error env uid threshold d p)

noted_below :
    (now t : ℕ) (d : ℤ) (e : Entry)
    → e.err_count + 1 < t
    → noted now (pos t) d e ≡ record e { err_count = e.err_count + 1 }
unfolding noted
noted_below now t d e h = ground arith

-- Below the threshold the errors are counted and nothing else changes.
note_errors_below :
    (envs : List Env) (uid : Text) (t : ℕ) (d : ℤ) (p : Pool) (e : Entry)
    → lookup uid p.by_uid ≡ some e
    → e.err_count + length envs < t
    → lookup uid (note_errors envs uid (pos t) d p).by_uid
      ≡ some (record e { err_count = e.err_count + length envs })
unfolding note_errors note_error
note_errors_below [] uid t d p e at h =
    let same : e.err_count ≡ e.err_count + 0 = omega arith in
    at ∙ ap (λ (n : ℕ). some (record e { err_count = n })) same
note_errors_below (env ∷ envs) uid t d p e at h =
    let next : Entry = record e { err_count = e.err_count + 1 } in
    let once : lookup uid (note_error env uid (pos t) d p).by_uid ≡ some next =
      lookup-update_self env uid (noted env.now (pos t) d) p
      ∙ rw (at, noted_below env.now t d e (omega arith)) refl in
    let same : e.err_count + 1 + length envs ≡ e.err_count + suc (length envs) = omega arith in
    note_errors_below envs uid t d (note_error env uid (pos t) d p) next once (omega arith)
    ∙ ap (λ (n : ℕ). some (record e { err_count = n })) same

noted_at :
    (now t : ℕ) (d : ℤ) (e : Entry)
    → t ≤ e.err_count + 1
    → noted now (pos t) d e
      ≡ record e { until = add_time now d; reason = codes "consecutive errors"; err_count = 0 }
unfolding noted
noted_at now t d e h = ground arith

-- Starting from a count of zero, fewer errors in a row than the threshold only count up; the one
-- that reaches it sends the account to rest for `d` from that instant and clears the count.
pub note_errors_threshold :
    (envs : List Env) (last : Env) (uid : Text) (t : ℕ) (d : ℤ) (p : Pool) (e : Entry)
    → lookup uid p.by_uid ≡ some e
    → e.err_count ≡ 0
    → length envs + 1 ≡ t
    → (lookup uid (note_errors envs uid (pos t) d p).by_uid
        ≡ some (record e { err_count = length envs }))
      × (lookup uid (note_error last uid (pos t) d (note_errors envs uid (pos t) d p)).by_uid
          ≡ some (record e {
            until = add_time last.now d;
            reason = codes "consecutive errors";
            err_count = 0;
          }))
unfolding note_error
note_errors_threshold envs last uid t d p e at zero_count size =
    let same : e.err_count + length envs ≡ length envs = omega arith in
    let before =
      note_errors_below envs uid t d p e at (omega arith)
      ∙ ap (λ (n : ℕ). some (record e { err_count = n })) same in
    (
      before,
      lookup-update_self last uid (noted last.now (pos t) d) (note_errors envs uid (pos t) d p)
          ∙ rw (before, noted_at last.now t d (record e { err_count = length envs }) (omega arith))
              refl,
    )
