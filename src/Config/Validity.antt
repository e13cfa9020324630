-- ===== src/Config/Validity.antt =====
-- What holds of every configuration that the server starts with.
use qoderwork2api.Common.{
  ℕ, ◌≡◌, refl, inl, inr, true, [], ◌∷◌, Option, some, map, arith, if◌then◌else◌, Bool-cases,
  Option-cases,
}
use qoderwork2api.Common.Int.{ℤ, pos, ◌<ℤ◌}
use qoderwork2api.Common.Eq.{Text, codes, text_instance, ◌==◌, is_empty}
use qoderwork2api.Common.Strings.{has_prefix, contains_text}
use qoderwork2api.Config.{
  Config, default, Loaded, loaded, refused, ConfigFile, no_path, unreadable, unparsable, writes,
  apply_env, normalize_rest, normalize, load,
}

module _ (atoi parse_duration : Text → Option ℤ) (getenv : Text → Text) (lower : ℕ → ℕ) where
  pub record IsValid (c : Config) : Type 0 where
    pub threshold : pos 0 <ℤ c.err_thresh
    pub timeout : pos 0 <ℤ c.timeout_seconds
    pub region : c.region ≡ codes "cn"
    pub listens : contains_text c.listen (codes ":") ≡ true
    pub hard : parse_duration c.hard_credit ≡ some c.hard_credit_dur
    pub soft : parse_duration c.soft_rate ≡ some c.soft_rate_dur
    pub cool : parse_duration c.err_cooldown ≡ some c.err_cooldown_dur

  abbrev pub IsLoaded : Loaded → Type 0
  IsLoaded (refused e) = Unit
  IsLoaded (loaded c) = IsValid c

  with_colon : (s : Text) → contains_text (b':' ∷ s) (codes ":") ≡ true
  unfolding contains_text has_prefix
  with_colon [] = refl
  with_colon (c ∷ s) = refl

  prefix_contained : (s p : Text) → has_prefix s p ≡ true → contains_text s p ≡ true
  unfolding contains_text
  prefix_contained [] p h = h
  prefix_contained (c ∷ s) p h = ground arith

  normalize_rest-IsLoaded :
      (c : Config)
      → parse_duration c.hard_credit ≡ some c.hard_credit_dur
      → parse_duration c.soft_rate ≡ some c.soft_rate_dur
      → parse_duration c.err_cooldown ≡ some c.err_cooldown_dur
      → IsLoaded (normalize_rest atoi parse_duration getenv lower c)
  unfolding normalize_rest
  normalize_rest-IsLoaded c hard soft cool =
      let region = map lower (if is_empty c.region then codes "cn" else c.region) in
      elim (Bool-cases (region == codes "cn")) [
        | inr other ↦ rw (other, normalize_rest) tt
        | inl same ↦
            rw (same, normalize_rest)
              (record {
                threshold = ground arith;
                timeout = ground arith;
                region = (text_instance.agrees_iff region (codes "cn")).0 same;
                listens =
                    ground (arith, with_colon c.listen, prefix_contained c.listen (codes ":"));
                hard = hard;
                soft = soft;
                cool = cool;
              })
      ]

  normalize-IsLoaded : (c : Config) → IsLoaded (normalize atoi parse_duration getenv lower c)
  unfolding normalize
  normalize-IsLoaded c = elim (Option-cases (parse_duration c.hard_credit)) [
    | inl e ↦ rw (e, normalize) tt
    | inr (hard, e) ↦ elim (Option-cases (parse_duration c.soft_rate)) [
      | inl f ↦ rw (e, f, normalize) tt
      | inr (soft, f) ↦ elim (Option-cases (parse_duration c.err_cooldown)) [
        | inl g ↦ rw (e, f, g, normalize) tt
        | inr (cool, g) ↦
            rw (e, f, g, normalize)
              (normalize_rest-IsLoaded
                (record c { hard_credit_dur = hard; soft_rate_dur = soft; err_cooldown_dur = cool })
                e f g)
      ]
    ]
  ]

  -- Whatever the file and the environment hold, a configuration that is loaded has a positive
  -- threshold and timeout, the region cn, an address with a colon, and durations that are those
  -- of its texts.
  pub load-IsLoaded : (file : ConfigFile) → IsLoaded (load atoi parse_duration getenv lower file)
  unfolding load
  load-IsLoaded no_path = normalize-IsLoaded (apply_env atoi parse_duration getenv lower default)
  load-IsLoaded unreadable = tt
  load-IsLoaded unparsable = tt
  load-IsLoaded (writes over) =
      normalize-IsLoaded (apply_env atoi parse_duration getenv lower (over default))
