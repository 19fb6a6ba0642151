-- ===== src/Daemon/Released.antt =====
-- What a run of cmd/sharddnsd/main.go acquires, and in which order it is released.
use shard_dns.Config.{Config, ConfigError}
use shard_dns.Daemon.{
  Resource, pool, connection, lock, bus, Act, acquire, release, check_schema, apply_schema,
  subscribe, listen_dns, listen_api, serve_all, RunError, Opening, bad_url, no_pool, no_ping,
  opened, Migration, no_connection, no_lock, no_check, present, no_schema, applied, is_opened,
  World, Run, and_then, defer, step, open_trace, migrate, connect_loop, connect_store, run_servers,
  run_bus, run, no_dns, no_api, no_bus, not_subscribed, max_attempts,
}
use shard_dns.Prelude.{
  ℕ, zero, suc, ◌+◌, Bool, true, false, if◌then◌else◌, Option, none, some, List, [], ◌∷◌, ◌++◌, ◌≡◌,
  refl, ap, ◌∙◌, is_empty, Bool-cases, Option-cases, inl, inr, Outcome, ok, err,
}

abbrev same_resource : Resource → Resource → Bool
same_resource pool pool = true
same_resource connection connection = true
same_resource lock lock = true
same_resource bus bus = true
same_resource _ _ = false

-- A release of the resource acquired last, and of no other.
abbrev released : Resource → List Resource → Option (List Resource)
released r [] = none
released r (q ∷ held) = if same_resource r q then some held else none

-- What is held after a trace, the latest first; none when it releases what is not the latest.
abbrev after_act : Act → List Resource → Option (List Resource)
after_act (acquire r) held = some (r ∷ held)
after_act (release r) held = released r held
after_act check_schema held = some held
after_act apply_schema held = some held
after_act subscribe held = some held
after_act listen_dns held = some held
after_act listen_api held = some held
after_act serve_all held = some held

unfoldable pub held_after : List Act → List Resource → Option (List Resource)
held_after [] held = some held
held_after (a ∷ t) held = elim (after_act a held) [ none ↦ none | some held' ↦ held_after t held' ]

-- A trace that leaves what is held as it was, and one that adds a resource to it.
IsNeutral : List Act → Type 0
IsNeutral t = (held : List Resource) → held_after t held ≡ some held

Takes : Resource → List Act → Type 0
Takes r t = (held : List Resource) → held_after t held ≡ some (r ∷ held)

held_after-append :
    (t v : List Act) (held : List Resource) {held' : List Resource}
    → held_after t held ≡ some held'
    → held_after (t ++ v) held ≡ held_after v held'
unfolding held_after
held_after-append [] v held e = ap (λ o. elim o [ none ↦ none | some k ↦ held_after v k ]) e
held_after-append (a ∷ t) v held {held'} e = elim (Option-cases (after_act a held)) [
  | inl k ↦ absurd (let f : none ≡ some held' = rw (held_after, k) at e in cc)
  | inr (next, k) ↦ rw (held_after, k) (held_after-append t v next (rw (held_after, k) at e))
]

append-IsNeutral : (t v : List Act) → IsNeutral t → IsNeutral v → IsNeutral (t ++ v)
unfolding IsNeutral
append-IsNeutral t v h k held = held_after-append t v held (h held) ∙ k held

-- What is taken and released at the end leaves the rest as it was.
release-IsNeutral :
    (r : Resource) (t v : List Act)
    → Takes r t
    → IsNeutral v
    → IsNeutral (t ++ (v ++ release r ∷ []))
unfolding IsNeutral Takes held_after
release-IsNeutral r t v h k held =
    held_after-append t (v ++ release r ∷ []) held (h held)
    ∙ held_after-append v (release r ∷ []) (r ∷ held) (k (r ∷ held))
    ∙ last r
  where
    last : (r : Resource) → held_after (release r ∷ []) (r ∷ held) ≡ some held
    last pool = refl
    last connection = refl
    last lock = refl
    last bus = refl

-- A run that takes a resource when it goes well, and nothing when it does not.
abbrev TakesIf : Resource → Run → Type 0
TakesIf r (t, ok _) = Takes r t
TakesIf r (t, err e) = IsNeutral t

and_then-IsNeutral : (j k : Run) → IsNeutral j.0 → IsNeutral k.0 → IsNeutral (and_then j k).0
unfolding and_then
and_then-IsNeutral (t, ok _) k h g = append-IsNeutral t k.0 h g
and_then-IsNeutral (t, err e) k h g = h

and_then-defer :
    (r : Resource) (j k : Run) → TakesIf r j → IsNeutral k.0 → IsNeutral (and_then j (defer r k)).0
unfolding and_then defer
and_then-defer r (t, ok _) k h g = release-IsNeutral r t k.0 h g
and_then-defer r (t, err e) k h g = h

if-IsNeutral :
    (b : Bool) (j k : Run) → IsNeutral j.0 → IsNeutral k.0 → IsNeutral (if b then j else k).0
if-IsNeutral true j k h g = h
if-IsNeutral false j k h g = g

migrate-IsNeutral : (m : Migration) → IsNeutral (migrate m).0
unfolding IsNeutral migrate held_after
migrate-IsNeutral no_connection held = refl
migrate-IsNeutral no_lock held = refl
migrate-IsNeutral no_check held = refl
migrate-IsNeutral present held = refl
migrate-IsNeutral no_schema held = refl
migrate-IsNeutral applied held = refl

-- An act that takes nothing, if it works.
step-IsNeutral :
    (works : Bool) (act : Act) (e : RunError)
    → IsNeutral (act ∷ [])
    → IsNeutral (step works act e).0
unfolding IsNeutral step held_after
step-IsNeutral true act e h = h
step-IsNeutral false act e h = λ held. refl

step-TakesIf : (works : Bool) (r : Resource) (e : RunError) → TakesIf r (step works (acquire r) e)
unfolding IsNeutral Takes step held_after
step-TakesIf true r e = λ held. refl
step-TakesIf false r e = λ held. refl

-- What an attempt that fails leaves behind: nothing.
open_trace-IsNeutral : (o : Opening) → is_opened o ≡ false → IsNeutral (open_trace o)
unfolding IsNeutral open_trace held_after
open_trace-IsNeutral bad_url h held = refl
open_trace-IsNeutral no_pool h held = refl
open_trace-IsNeutral no_ping h held = refl
open_trace-IsNeutral opened h held = absurd cc

open_trace-Takes : (o : Opening) → is_opened o ≡ true → Takes pool (open_trace o)
unfolding Takes open_trace held_after
open_trace-Takes opened h held = refl
open_trace-Takes bad_url h held = absurd cc
open_trace-Takes no_pool h held = absurd cc
open_trace-Takes no_ping h held = absurd cc

module _ (w : World) where
  connect_loop-TakesIf : (left attempt : ℕ) → TakesIf pool (connect_loop w left attempt)
  unfolding connect_loop IsNeutral Takes held_after
  connect_loop-TakesIf zero attempt = λ held. refl
  connect_loop-TakesIf (suc left) attempt =
      let further = connect_loop-TakesIf left (attempt + 1) in
      elim (Bool-cases (is_opened (w.opening attempt))) [
        | inl e ↦ rw (connect_loop, e) (open_trace-Takes (w.opening attempt) e)
        | inr e ↦ elim (Bool-cases (w.is_over attempt)) [
          | inl f ↦ rw (connect_loop, e, f) (open_trace-IsNeutral (w.opening attempt) e)
          | inr f ↦
              rw (connect_loop, e, f)
                (joined (open_trace (w.opening attempt)) (connect_loop w left (attempt + 1))
                  (open_trace-IsNeutral (w.opening attempt) e) further)
        ]
      ]
    where
      joined :
          (t : List Act) (k : Run) → IsNeutral t → TakesIf pool k → TakesIf pool (t ++ k.0, k.1)
      joined t (v, ok _) h g = λ held. held_after-append t v held (h held) ∙ g held
      joined t (v, err e) h g = λ held. held_after-append t v held (h held) ∙ g held

  run_servers-IsNeutral : IsNeutral (run_servers w).0
  unfolding run_servers IsNeutral held_after
  run_servers-IsNeutral =
      and_then-IsNeutral (step w.has_dns listen_dns no_dns) _
        (step-IsNeutral w.has_dns listen_dns no_dns (λ held. refl))
        (and_then-IsNeutral (step w.has_api listen_api no_api) _
          (step-IsNeutral w.has_api listen_api no_api (λ held. refl)) (λ held. refl))

  run_bus-IsNeutral : (cfg : Config) → IsNeutral (run_bus w cfg).0
  unfolding run_bus IsNeutral held_after
  run_bus-IsNeutral cfg =
      let subscribed =
        and_then (step w.has_subscription subscribe not_subscribed) (run_servers w) in
      let with_bus = if cfg.cache_enabled then subscribed else run_servers w in
      if-IsNeutral (is_empty cfg.nats_url) (run_servers w)
        (and_then (step w.has_bus (acquire bus) no_bus) (defer bus with_bus)) run_servers-IsNeutral
        (and_then-defer bus (step w.has_bus (acquire bus) no_bus) with_bus
          (step-TakesIf w.has_bus bus no_bus)
          (if-IsNeutral cfg.cache_enabled subscribed (run_servers w)
            (and_then-IsNeutral (step w.has_subscription subscribe not_subscribed) (run_servers w)
              (step-IsNeutral w.has_subscription subscribe not_subscribed (λ held. refl))
              run_servers-IsNeutral)
            run_servers-IsNeutral))

  -- Whatever fails, `run` releases every pool, connection, lock and bus that it acquires, each once
  -- and always the one acquired last.
  pub held_after-run :
      (loaded : Outcome ConfigError Config) → held_after (run w loaded).0 [] ≡ some []
  unfolding run connect_store held_after IsNeutral
  held_after-run (err e) = refl
  held_after-run (ok cfg) =
      and_then-defer pool (connect_store w) (and_then (migrate w.migration) (run_bus w cfg))
        (connect_loop-TakesIf max_attempts 1)
        (and_then-IsNeutral (migrate w.migration) (run_bus w cfg) (migrate-IsNeutral w.migration)
          (run_bus-IsNeutral cfg))
        []
