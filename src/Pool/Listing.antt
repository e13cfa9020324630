-- ===== src/Pool/Listing.antt =====
-- `Status`, `List` and `statusOf`: what a pool shows of its accounts.
use qoderwork2api.Common.{
  ℕ, ◌≡◌, refl, inl, inr, ap, Bool, List, [], ◌∷◌, Option, none, some, arith, In, map, Bool-cases,
  ltb, subst,
}
use qoderwork2api.Common.Int.{ℤ}
use qoderwork2api.Common.Eq.{Text, text_instance}
use qoderwork2api.Common.Dict.{Dict, lookup}
use qoderwork2api.Common.Sort.{
  sort_texts, IsSorted, sort_texts-IsSorted, In-sort_texts, sort_texts-In,
}
use qoderwork2api.Pool.{Pool, Env, Entry, is_before}

pub record Status : Type 0 where
  pub uid : Text
  pub nickname : Text
  pub credits : ℤ
  pub cooling : Bool
  pub until : ℕ
  pub reason : Text
  pub disabled : Bool
  pub err_count : ℕ

pub status_of : ℕ → Text → Entry → Status
status_of now uid e = record {
  uid = uid;
  nickname = e.cred.nickname;
  credits = e.credits;
  cooling = is_before now e.until;
  until = e.until;
  reason = e.reason;
  disabled = e.disabled;
  err_count = e.err_count;
}

abbrev status_option : ℕ → Text → Option Entry → Option Status
status_option now uid none = none
status_option now uid (some e) = some (status_of now uid e)

pub status : Env → Text → Pool → Option Status
unfolding status_of lookup
status env uid p = status_option env.now uid (lookup uid p.by_uid)

pub uids : Dict Text Entry → List Text
uids [] = []
uids ((uid, e) ∷ m) = uid ∷ uids m

abbrev add_status : Option Status → List Status → List Status
add_status none out = out
add_status (some s) out = s ∷ out

-- The second loop of `List`; a uid that it takes from the map is in the map.
pub statuses : ℕ → Dict Text Entry → List Text → List Status
unfolding status_of lookup
statuses now m [] = []
statuses now m (uid ∷ rest) =
    add_status (status_option now uid (lookup uid m)) (statuses now m rest)

pub list : Env → Pool → List Status
unfolding statuses uids sort_texts
list env p = statuses env.now p.by_uid (sort_texts (uids p.by_uid))

In-uids :
    (uid : Text) (m : Dict Text Entry) → In uid (uids m) → (e : Entry) × (lookup uid m ≡ some e)
unfolding uids lookup
In-uids uid [] i = elim i [ ]
In-uids uid ((j, w) ∷ m) (inl e) = (w, rw ((text_instance.agrees_iff j uid).1 e) refl)
In-uids uid ((j, w) ∷ m) (inr i) = elim (Bool-cases (text_instance.agrees j uid)) [
  | inl hit ↦ (w, rw hit refl)
  | inr miss ↦ let (e, found) = In-uids uid m i in (e, rw miss found)
]

lookup-uids :
    (uid : Text) (m : Dict Text Entry) (e : Entry) → lookup uid m ≡ some e → In uid (uids m)
unfolding uids lookup
lookup-uids uid [] e h = cc
lookup-uids uid ((j, w) ∷ m) e h = elim (Bool-cases (text_instance.agrees j uid)) [
  | inl hit ↦ inl ((text_instance.agrees_iff j uid).0 hit)
  | inr miss ↦ inr (lookup-uids uid m e (ground arith))
]

-- Where every uid is in the map, a status is made for each, in order.
statuses-uids :
    (now : ℕ) (m : Dict Text Entry) (us : List Text)
    → ((u : Text) → In u us → (e : Entry) × (lookup u m ≡ some e))
    → map (λ (s : Status). s.uid) (statuses now m us) ≡ us
unfolding statuses status_of
statuses-uids now m [] h = refl
statuses-uids now m (u ∷ us) h =
    let (e, found) = h u (inl refl) in
    rw found (ap (◌∷◌ u) (statuses-uids now m us (λ v i. h v (inr i))))

In-add_status :
    (o : Option Status) (s : Status) (ss : List Status) → In s ss → In s (add_status o ss)
In-add_status none s ss i = i
In-add_status (some t) s ss i = inr i

In-statuses :
    (now : ℕ) (m : Dict Text Entry) (us : List Text) (u : Text) (e : Entry)
    → In u us
    → lookup u m ≡ some e
    → In (status_of now u e) (statuses now m us)
unfolding statuses
In-statuses now m [] u e i found = elim i [ ]
In-statuses now m (v ∷ us) u e (inl same) found = rw (same, found) (inl refl)
In-statuses now m (v ∷ us) u e (inr i) found =
    In-add_status (status_option now v (lookup v m)) (status_of now u e) (statuses now m us)
      (In-statuses now m us u e i found)

-- An account is cooling as long as the end of its rest is ahead.
status_of_lem :
    (now : ℕ) (uid : Text) (e : Entry)
    → status_of now uid e ≡ record {
      uid = uid;
      nickname = e.cred.nickname;
      credits = e.credits;
      cooling = ltb now e.until;
      until = e.until;
      reason = e.reason;
      disabled = e.disabled;
      err_count = e.err_count;
    }
unfolding status_of
status_of_lem now uid e = ground arith

-- The list shows every account of the pool with its name, its credits, whether it is cooling at
-- that instant and until when, whether it is disabled, the reason and the errors counted, and it is
-- in the order of the uids.
pub list-IsSorted :
    (env : Env) (p : Pool)
    → IsSorted (map (λ (s : Status). s.uid) (list env p))
      × ((uid : Text) (e : Entry)
          → lookup uid p.by_uid ≡ some e
          → In
              (record {
                uid = uid;
                nickname = e.cred.nickname;
                credits = e.credits;
                cooling = ltb env.now e.until;
                until = e.until;
                reason = e.reason;
                disabled = e.disabled;
                err_count = e.err_count;
              })
              (list env p))
unfolding list
list-IsSorted env p =
    let us = sort_texts (uids p.by_uid) in
    (
      rw
          (statuses-uids env.now p.by_uid us
            (λ u i. In-uids u p.by_uid (In-sort_texts u (uids p.by_uid) i)))
          (sort_texts-IsSorted (uids p.by_uid)),
      λ uid e found.
          subst (λ (s : Status). In s (list env p)) (status_of_lem env.now uid e)
            (In-statuses env.now p.by_uid us uid e
              (sort_texts-In uid (uids p.by_uid) (lookup-uids uid p.by_uid e found)) found),
    )
