-- ===== src/Config/Loaded.antt =====
-- What `Load` of internal/config/config.go answers, and the causes of its errors.
use shard_dns.Config.{
  ConfigError, bad_cache_ttl, no_database_url, bad_cache_max_entries, Config, atoi, not_positive,
  variable, getenv, getenv_int, read_config, ttl_setting, sized, load,
}
use shard_dns.Prelude.Int.{ℤ, pos, negsuc, is_negative}
use shard_dns.Prelude.Text.{GoRuntime}
use shard_dns.Prelude.{
  ℕ, zero, suc, ◌*◌, ◌≤◌, true, false, ltb, if◌then◌else◌, Option, none, some, [], ◌∷◌, ◌≡◌, refl,
  sym, ◌∙◌, arith, Bytes, codes, is_empty, Bool-cases, inl, inr, ◌⊎◌, Outcome, ok, err,
}

-- Settings that the parts of the server can run on.
pub record IsUsable (c : Config) : Type 0 where
  pub has_database : is_empty c.database_url ≡ false
  pub has_workers : not_positive c.workers ≡ false
  pub has_conns : not_positive c.db_max_conns ≡ false
  pub has_entries : not_positive c.cache_max_entries ≡ false
  pub ttl_fits : is_negative c.cache_ttl ≡ false

-- The variable is set to a text that is not empty, and the text is at fault.
abbrev IsCause : (Bytes → Option Bytes) → Bytes → (Bytes → Type 0) → Type 0
IsCause env k fault = (v : Bytes) × (env k ≡ some v) × (is_empty v ≡ false) × fault v

-- A text that is no duration, or a negative one.
abbrev IsBadTtl : (Bytes → Option ℤ) → Bytes → Type 0
IsBadTtl parse_duration v =
    (parse_duration v ≡ none) ⊎ ((n : ℕ) × (parse_duration v ≡ some (negsuc n)))

-- What `load` answers: usable settings, or an error whose cause is in the environment.
abbrev pub IsLoaded :
    (Bytes → Option Bytes) → (Bytes → Option ℤ) → Outcome ConfigError Config → Type 0
IsLoaded env parse_duration (ok c) = IsUsable c
IsLoaded env parse_duration (err bad_cache_ttl) =
    IsCause env (codes "CACHE_TTL") (IsBadTtl parse_duration)
IsLoaded env parse_duration (err no_database_url) =
    (env (codes "DATABASE_URL") ≡ none) ⊎ (env (codes "DATABASE_URL") ≡ some [])
IsLoaded env parse_duration (err bad_cache_max_entries) =
    IsCause env (codes "CACHE_MAX_ENTRIES")
      (λ v. (atoi v ≡ some (pos 0)) ⊎ ((n : ℕ) × (atoi v ≡ some (negsuc n))))

not_positive-pos : (n : ℕ) → 1 ≤ n → not_positive (pos n) ≡ false
not_positive-pos zero h = absurd (omega arith)
not_positive-pos (suc n) h = refl

-- A variable that reads as empty is not set, or set to nothing.
variable_empty :
    (env : Bytes → Option Bytes) (k : Bytes)
    → is_empty (variable env k) ≡ true
    → (env k ≡ none) ⊎ (env k ≡ some [])
unfolding variable
variable_empty env k h = by_value (env k) refl h
  where
    by_value :
        (o : Option Bytes)
        → env k ≡ o
        → is_empty (elim o as (λ _. Bytes) [ none ↦ [] | some v ↦ v ]) ≡ true
        → (env k ≡ none) ⊎ (env k ≡ some [])
    by_value none e h = inl e
    by_value (some []) e h = inr e
    by_value (some (c ∷ v)) e h = absurd cc

-- A number of entries that is refused stands in the environment.
entries_cause :
    (env : Bytes → Option Bytes) (k : Bytes) (def : ℕ)
    → not_positive (pos def) ≡ false
    → not_positive (getenv_int env k (pos def)) ≡ true
    → IsCause env k (λ v. (atoi v ≡ some (pos 0)) ⊎ ((n : ℕ) × (atoi v ≡ some (negsuc n))))
unfolding getenv_int variable atoi
entries_cause env k def good h = by_value (env k) refl h
  where
    by_number :
        (v : Bytes) (n : Option ℤ)
        → atoi v ≡ n
        → not_positive (elim n as (λ _. ℤ) [ none ↦ pos def | some m ↦ m ]) ≡ true
        → (atoi v ≡ some (pos 0)) ⊎ ((m : ℕ) × (atoi v ≡ some (negsuc m)))
    by_number v none e h = absurd cc
    by_number v (some (pos zero)) e h = inl e
    by_number v (some (pos (suc m))) e h = absurd cc
    by_number v (some (negsuc m)) e h = inr (m, e)

    by_value :
        (o : Option Bytes)
        → env k ≡ o
        → not_positive
            (elim (atoi (elim o as (λ _. Bytes) [ none ↦ [] | some v ↦ v ])) as (λ _. ℤ) [
              | none ↦ pos def
              | some m ↦ m
            ])
          ≡ true
        → IsCause env k (λ v. (atoi v ≡ some (pos 0)) ⊎ ((m : ℕ) × (atoi v ≡ some (negsuc m))))
    by_value none e h = absurd cc
    by_value (some []) e h = absurd cc
    by_value (some (c ∷ v)) e h = (c ∷ v, e, refl, by_number (c ∷ v) (atoi (c ∷ v)) refl h)

-- A duration is taken, or is at fault.
ttl_setting-cases :
    (parse_duration : Bytes → Option ℤ) (text : Bytes)
    → ((ttl : ℤ) × (ttl_setting parse_duration text ≡ ok ttl) × (is_negative ttl ≡ false))
      ⊎ ((ttl_setting parse_duration text ≡ err bad_cache_ttl) × IsBadTtl parse_duration text)
unfolding ttl_setting
ttl_setting-cases parse_duration text = by_duration (parse_duration text) refl
  where
    by_duration :
        (o : Option ℤ)
        → parse_duration text ≡ o
        → ((ttl : ℤ) × (ttl_setting parse_duration text ≡ ok ttl) × (is_negative ttl ≡ false))
          ⊎ ((ttl_setting parse_duration text ≡ err bad_cache_ttl) × IsBadTtl parse_duration text)
    by_duration none e = inr (rw (ttl_setting, e) refl, inl e)
    by_duration (some (pos n)) e = inl (pos n, rw (ttl_setting, e) refl, refl)
    by_duration (some (negsuc n)) e = inr (rw (ttl_setting, e) refl, inr (n, e))

-- A duration at fault stands in the environment, since the default is none.
ttl_cause :
    (env : Bytes → Option Bytes) (parse_duration : Bytes → Option ℤ)
    → parse_duration (codes "0") ≡ some (pos 0)
    → IsBadTtl parse_duration (getenv env (codes "CACHE_TTL") (codes "0"))
    → IsCause env (codes "CACHE_TTL") (IsBadTtl parse_duration)
unfolding getenv
ttl_cause env parse_duration zero_reads h = by_value (env (codes "CACHE_TTL")) refl h
  where
    good :
        IsBadTtl parse_duration (codes "0")
        → IsCause env (codes "CACHE_TTL") (IsBadTtl parse_duration)
    good (inl e) = absurd cc
    good (inr (n, e)) =
        absurd (let same : pos 0 ≡ negsuc n = (let both = sym zero_reads ∙ e in cc) in cc)

    by_value :
        (o : Option Bytes)
        → env (codes "CACHE_TTL") ≡ o
        → IsBadTtl parse_duration (elim o as (λ _. Bytes) [
          | none ↦ codes "0"
          | some v ↦ if is_empty v then codes "0" else v
        ])
        → IsCause env (codes "CACHE_TTL") (IsBadTtl parse_duration)
    by_value none e h = good h
    by_value (some []) e h = good h
    by_value (some (c ∷ v)) e h = (c ∷ v, e, refl, h)

sized_workers : (cpus : ℕ) (c : Config) → 1 ≤ cpus → not_positive (sized cpus c).workers ≡ false
unfolding sized
sized_workers cpus c h = elim (Bool-cases (not_positive c.workers)) [
  | inl e ↦ rw e (not_positive-pos (4 * cpus) (omega arith))
  | inr e ↦ rw e e
]

sized_conns : (cpus : ℕ) (c : Config) → not_positive (sized cpus c).db_max_conns ≡ false
unfolding sized
sized_conns cpus c = elim (Bool-cases (not_positive c.db_max_conns)) [
  | inl e ↦ elim (Bool-cases (ltb 8 (2 * cpus))) [
    | inl l ↦ rw (e, l) (not_positive-pos (2 * cpus) (ground arith))
    | inr l ↦ rw (e, l) refl
  ]
  | inr e ↦ rw e e
]

sized-IsUsable :
    (cpus : ℕ) (c : Config)
    → 1 ≤ cpus
    → is_empty c.database_url ≡ false
    → not_positive c.cache_max_entries ≡ false
    → is_negative c.cache_ttl ≡ false
    → IsUsable (sized cpus c)
unfolding sized
sized-IsUsable cpus c h url entries ttl = record {
  has_database = url;
  has_workers = sized_workers cpus c h;
  has_conns = sized_conns cpus c;
  has_entries = entries;
  ttl_fits = ttl;
}

-- On a machine with a processor, where "0" reads as no time, `load` answers settings with a database,
-- workers, connections, room in the caches and no negative time to live, or an error with its cause
-- in the environment: CACHE_TTL is set to a text that is no duration or a negative one, DATABASE_URL
-- is not set or empty, or CACHE_MAX_ENTRIES is set to a number that is zero or negative.
pub load-IsLoaded :
    ⦃u : GoRuntime⦄
    → (env : Bytes → Option Bytes) (cpus : ℕ) (parse_duration : Bytes → Option ℤ) → 1 ≤ cpus
    → parse_duration (codes "0") ≡ some (pos 0)
    → IsLoaded env parse_duration (load env cpus parse_duration)
unfolding load read_config
load-IsLoaded env cpus parse_duration h zero_reads =
    elim (ttl_setting-cases parse_duration (getenv env (codes "CACHE_TTL") (codes "0"))) [
      | inr (e, bad) ↦ rw e (ttl_cause env parse_duration zero_reads bad)
      | inl (ttl, e, fits) ↦
          let url = variable env (codes "DATABASE_URL") in
          let entries = getenv_int env (codes "CACHE_MAX_ENTRIES") (pos 100000) in
          elim (Bool-cases (is_empty url)) [
            | inl f ↦ rw (e, f) (variable_empty env (codes "DATABASE_URL") f)
            | inr f ↦ elim (Bool-cases (not_positive entries)) [
              | inl g ↦ rw (e, f, g) (entries_cause env (codes "CACHE_MAX_ENTRIES") 100000 refl g)
              | inr g ↦ rw (e, f, g) (sized-IsUsable cpus (read_config env ttl) h f g fits)
            ]
          ]
    ]
