-- ===== src/Server/Login/Isolation.antt =====
-- What a poll changes, and what it leaves alone.
use qoderwork2api.Common.{
  ap, subst, ◌≡◌, ◌≢◌, refl, sym, ◌∙◌, inl, inr, List, [], none, some, arith, if◌then◌else◌,
  Bool-cases, Option-cases, ltb, length,
}
use qoderwork2api.Common.Eq.{Text, codes, text_instance, ◌==◌, is_empty}
use qoderwork2api.Common.Dict.{lookup, delete, lookup-delete}
use qoderwork2api.Cred.Load.{Loaded, ok, err}
use qoderwork2api.Cred.Fingerprint.{ensure_machine_fingerprint}
use qoderwork2api.Pool.{Pool, add}
use qoderwork2api.Pool.Shape.{step, adds, saves}
use qoderwork2api.Pool.View.{view, view-step, change_view}
use qoderwork2api.User.Pools.{get_pool, set_pool, get_pool-set_pool}
use qoderwork2api.Server.Login.{
  Site, Session, Token, failure, PollWorld, Polled, poll_failed, poll_pending, polled,
  device_token_poll, add_loaded, add_account, finish_login, take_login, poll_session,
  handle_login_poll, fetch_nickname, admin_id, auth_dir_of, text_of, forget,
}

-- At most one account of the pool is another one.
abbrev pub OneChanged : Pool → Pool → Type 0
OneChanged p q = (uid : Text) × ((j : Text) → j ≢ uid → lookup j q.by_uid ≡ lookup j p.by_uid)

-- Every pool but that of the user is the same, and of that at most one account is not.
pub record IsIsolated (user_id : Text) (s t : Site) : Type 0 where
  pub others : (j : Text) → j ≢ user_id → get_pool j t.manager ≡ get_pool j s.manager
  pub admin : user_id ≢ admin_id → t.admin_pool ≡ s.admin_pool
  pub mine :
      (p : Pool)
      → get_pool user_id s.manager ≡ some p
      → (q : Pool) × (get_pool user_id t.manager ≡ some q) × OneChanged p q
  pub global : OneChanged s.admin_pool t.admin_pool

OneChanged-refl : (p : Pool) → OneChanged p p
OneChanged-refl p = ([], λ j ne. refl)

add_loaded-OneChanged : (w : PollWorld) (c : Loaded) (p : Pool) → OneChanged p (add_loaded w c p)
unfolding view change_view step
add_loaded-OneChanged w (err e) p = OneChanged-refl p
add_loaded-OneChanged w (ok c) p =
    let d = ensure_machine_fingerprint w.draws c in
    (
      d.uid,
      λ j ne.
          ap (λ v. v j) (view-step w.env saves (add d p))
          ∙ ap (λ v. v j) (view-step w.env (adds d) p)
          ∙ ground (arith, text_instance.agrees_iff d.uid j),
    )

IsIsolated-same :
    (user_id : Text) (s t : Site)
    → t.manager ≡ s.manager
    → t.admin_pool ≡ s.admin_pool
    → IsIsolated user_id s t
IsIsolated-same user_id s t m a = record {
  others = λ j ne. ap (get_pool j) m;
  admin = λ ne. a;
  mine = λ p at. (p, ap (get_pool user_id) m ∙ at, OneChanged-refl p);
  global = rw a (OneChanged-refl s.admin_pool);
}

add_account_mine :
    (w : PollWorld) (user_id : Text) (c : Loaded) (s : Site) (p : Pool)
    → get_pool user_id s.manager ≡ some p
    → add_account w user_id c s
      ≡ record s { manager = set_pool user_id (add_loaded w c p) s.manager }
unfolding add_account
add_account_mine w user_id c s p at = rw (at, add_account) refl

add_account-none :
    (w : PollWorld) (user_id : Text) (c : Loaded) (s : Site)
    → get_pool user_id s.manager ≡ none
    → add_account w user_id c s
      ≡ (if user_id == admin_id then record s { admin_pool = add_loaded w c s.admin_pool } else s)
unfolding add_account
add_account-none w user_id c s gone = rw (gone, add_account) refl

set_pool-IsIsolated :
    (w : PollWorld) (user_id : Text) (c : Loaded) (s : Site) (p : Pool)
    → get_pool user_id s.manager ≡ some p
    → IsIsolated user_id s (record s { manager = set_pool user_id (add_loaded w c p) s.manager })
set_pool-IsIsolated w user_id c s p at = record {
  others = λ j ne. ground (
    arith,
    get_pool-set_pool user_id j (add_loaded w c p) s.manager,
    text_instance.agrees_iff user_id j,
  );
  admin = λ ne. refl;
  mine = λ p' at'.
      let same : p ≡ p' = cc (at, at') in
      (
        add_loaded w c p,
        get_pool-set_pool user_id user_id (add_loaded w c p) s.manager
            ∙ rw ((text_instance.agrees_iff user_id user_id).1 refl) refl,
        subst (λ (o : Pool). OneChanged o (add_loaded w c p)) same (add_loaded-OneChanged w c p),
      );
  global = OneChanged-refl s.admin_pool;
}

add_admin-IsIsolated :
    (w : PollWorld) (c : Loaded) (s : Site)
    → get_pool admin_id s.manager ≡ none
    → IsIsolated admin_id s (record s { admin_pool = add_loaded w c s.admin_pool })
add_admin-IsIsolated w c s gone = record {
  others = λ j ne. refl;
  admin = λ ne. absurd (ne refl);
  mine = λ p at. absurd (cc (at, gone));
  global = add_loaded-OneChanged w c s.admin_pool;
}

add_account-IsIsolated :
    (w : PollWorld) (user_id : Text) (c : Loaded) (s : Site)
    → IsIsolated user_id s (add_account w user_id c s)
add_account-IsIsolated w user_id c s = elim (Option-cases (get_pool user_id s.manager)) [
  | inr (p, at) ↦ rw (add_account_mine w user_id c s p at) (set_pool-IsIsolated w user_id c s p at)
  | inl gone ↦ elim (Bool-cases (user_id == admin_id)) [
    | inl e ↦
        let same : admin_id ≡ user_id = sym ((text_instance.agrees_iff user_id admin_id).0 e) in
        rw (add_account-none w user_id c s gone, e)
          (subst
            (λ (u : Text). IsIsolated u s (record s { admin_pool = add_loaded w c s.admin_pool }))
            same (add_admin-IsIsolated w c s (ap (λ (u : Text). get_pool u s.manager) same ∙ gone)))
    | inr e ↦ rw (add_account-none w user_id c s gone, e) (IsIsolated-same user_id s s refl refl)
  ]
]

IsIsolated-trans_same :
    (user_id : Text) (s t u : Site)
    → t.manager ≡ s.manager
    → t.admin_pool ≡ s.admin_pool
    → IsIsolated user_id t u
    → IsIsolated user_id s u
IsIsolated-trans_same user_id s t u m a i = record {
  others = λ j ne. i.others j ne ∙ ap (get_pool j) m;
  admin = λ ne. i.admin ne ∙ a;
  mine = λ p at. i.mine p (ap (get_pool user_id) m ∙ at);
  global = subst (λ (p : Pool). OneChanged p u.admin_pool) a i.global;
}

module _ (sha : Text → Text) (join : List Text → Text) (base : Text → Text) where
  finish_login-IsIsolated :
      (w : PollWorld) (user_id : Text) (t : Token) (nickname : Text) (s : Site)
      → IsIsolated user_id s (finish_login sha join base w user_id t nickname s).0
  finish_login-IsIsolated w user_id t nickname s =
      elim (Bool-cases (is_empty (auth_dir_of user_id s))) [
        | inl e ↦ rw e (IsIsolated-same user_id s s refl refl)
        | inr e ↦ elim (Option-cases w.writes) [
          | inr (text, f) ↦ rw (e, f) (IsIsolated-same user_id s s refl refl)
          | inl f ↦
              rw (e, f)
                (IsIsolated-trans_same user_id s _ _ refl refl
                  (add_account-IsIsolated w user_id _ _))
        ]
      ]

  take_login-IsIsolated :
      (w : PollWorld) (user_id : Text) (t : Token) (s : Site)
      → IsIsolated user_id s (take_login sha join base w user_id t s).0
  take_login-IsIsolated w user_id t s = elim (Bool-cases (is_empty (fetch_nickname w.profile))) [
    | inr named ↦ rw named (finish_login-IsIsolated w user_id t (fetch_nickname w.profile) s)
    | inl bare ↦ elim (Bool-cases (ltb (length (text_of t.user_id)) 8)) [
      | inl short ↦ rw (bare, short) (IsIsolated-same user_id s s refl refl)
      | inr long ↦ rw (bare, long) (finish_login-IsIsolated w user_id t _ s)
    ]
  ]

  add_account-sessions :
      (w : PollWorld) (user_id : Text) (c : Loaded) (s : Site)
      → (add_account w user_id c s).sessions ≡ s.sessions
  unfolding add_account
  add_account-sessions w user_id c s = ground (arith, Option-cases (get_pool user_id s.manager))

  finish_login-sessions :
      (w : PollWorld) (user_id : Text) (t : Token) (nickname : Text) (s : Site)
      → (finish_login sha join base w user_id t nickname s).0.sessions ≡ s.sessions
  finish_login-sessions w user_id t nickname s =
      elim (Bool-cases (is_empty (auth_dir_of user_id s))) [
        | inl e ↦ rw e refl
        | inr e ↦ elim (Option-cases w.writes) [
          | inr (text, f) ↦ rw (e, f) refl
          | inl f ↦ rw (e, f) (add_account-sessions w user_id _ _)
        ]
      ]

  take_login-sessions :
      (w : PollWorld) (user_id : Text) (t : Token) (s : Site)
      → (take_login sha join base w user_id t s).0.sessions ≡ s.sessions
  take_login-sessions w user_id t s = elim (Bool-cases (is_empty (fetch_nickname w.profile))) [
    | inr named ↦ rw named (finish_login-sessions w user_id t (fetch_nickname w.profile) s)
    | inl bare ↦ elim (Bool-cases (ltb (length (text_of t.user_id)) 8)) [
      | inl short ↦ rw (bare, short) refl
      | inr long ↦ rw (bare, long) (finish_login-sessions w user_id t _ s)
    ]
  ]

  -- What a poll of a session leaves, when `s` is the site after the token service has answered:
  -- without a token that site; with a token the pools are those that the poll found, but for one
  -- account, and the session is used up, so that no poll that begins later finds it.
  abbrev pub Leaves : Text → Text → PollWorld → Site → Site → Polled → Type 0
  Leaves id user_id w s t (poll_failed text) = t ≡ s
  Leaves id user_id w s t poll_pending = t ≡ s
  Leaves id user_id w s t (polled tok) =
      IsIsolated user_id (w.during_profile (forget id s)) t
      × ((again : PollWorld)
          → handle_login_poll sha join base again (some id) t
            ≡ (t, failure 404 (codes "session not found or expired")))

  poll_unknown :
      (w : PollWorld) (id : Text) (s : Site)
      → lookup id s.sessions ≡ none
      → handle_login_poll sha join base w (some id) s
        ≡ (s, failure 404 (codes "session not found or expired"))
  unfolding handle_login_poll
  poll_unknown w id s h = rw (h, handle_login_poll) refl

  -- No request that runs beside the poll starts a login under the same id.
  abbrev pub IsNotReused : Text → PollWorld → Type 0
  IsNotReused id w =
      (s : Site) → lookup id s.sessions ≡ none → lookup id (w.during_profile s).sessions ≡ none

  poll_session_lem :
      (w : PollWorld) (id : Text) (session : Session) (s : Site) (r : Polled)
      → IsNotReused id w
      → Leaves id session.user_id w s (poll_session sha join base w id session r s).0 r
  poll_session_lem w id session s (poll_failed text) once = refl
  poll_session_lem w id session s poll_pending once = refl
  poll_session_lem w id session s (polled tok) once =
      let rest : Site = w.during_profile (forget id s) in
      let deleted : lookup id (delete id s.sessions) ≡ none =
        lookup-delete id id s.sessions ∙ rw ((text_instance.agrees_iff id id).1 refl) refl in
      let gone : lookup id (take_login sha join base w session.user_id tok rest).0.sessions ≡ none =
        ap (lookup id) (take_login-sessions w session.user_id tok rest)
        ∙ once (forget id s) deleted in
      (take_login-IsIsolated w session.user_id tok rest, λ again. poll_unknown again id _ gone)

  pub handle_login_poll-IsIsolated :
      (w : PollWorld) (id : Text) (session : Session) (s : Site)
      → lookup id s.sessions ≡ some session
      → IsNotReused id w
      → Leaves id session.user_id w
          (w.during_poll s)
          (handle_login_poll sha join base w (some id) s).0
          (device_token_poll w.reply)
  unfolding handle_login_poll
  handle_login_poll-IsIsolated w id session s at once =
      let e : handle_login_poll sha join base w (some id) s
          ≡ poll_session sha join base w id session (device_token_poll w.reply) (w.during_poll s) =
        rw (at, handle_login_poll) refl in
      rw e (poll_session_lem w id session (w.during_poll s) (device_token_poll w.reply) once)
