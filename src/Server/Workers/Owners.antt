-- ===== src/Server/Workers/Owners.antt =====
-- The owners of the buffers of internal/dns/server.go, and the bounds of its channels.
use shard_dns.Prelude.Text.{GoRuntime}
use shard_dns.Server.Workers.{
  Job, Reader, at_start, reading, received, stopped, Serving, Step, get_pooled, get_new, receive,
  read_error, read_closed, enqueue, drop_job, take_job, serve, accept_pooled, accept_new,
  conn_write, conn_end, accept_closed, forget, cancel, close_jobs, Reach, here, next, start,
  queue_size, max_tcp_conns,
}
use shard_dns.Zones.{Resolver}
use shard_dns.Prelude.{
  ℕ, ◌+◌, ◌≤◌, true, ◌==◌, if◌then◌else◌, List, [], ◌∷◌, ◌++◌, ◌≡◌, ◌≢◌, refl, sym, ap, ◌∙◌, arith,
  length, length-append, Bool-cases, inl, inr, ==_iff,
}

-- How often a number stands in a list, and how many of the jobs have a buffer.
unfoldable pub count : ℕ → List ℕ → ℕ
count b [] = 0
count b (x ∷ xs) = (if x == b then 1 else 0) + count b xs

unfoldable pub jobs_with : ℕ → List Job → ℕ
jobs_with b [] = 0
jobs_with b (j ∷ js) = (if j.buf == b then 1 else 0) + jobs_with b js

unfoldable pub held : ℕ → Reader → ℕ
held b at_start = 0
held b (reading c) = if c == b then 1 else 0
held b (received j) = if j.buf == b then 1 else 0
held b stopped = 0

-- The places where a buffer is.
abbrev pub owners : ℕ → Serving → ℕ
owners b s =
    count b s.pool + held b s.reader + jobs_with b s.jobs + jobs_with b s.busy + count b s.conns

-- No buffer is in two places, and none is anywhere before it is made; the channel, the workers and
-- the slots for connections keep their bounds; and a closed channel has no sender.
pub record IsOwned (workers : ℕ) (s : Serving) : Type 0 where
  pub one_owner : (b : ℕ) → owners b s ≤ 1
  pub unmade : (b : ℕ) → s.fresh ≤ b → owners b s ≡ 0
  pub jobs_fit : length s.jobs ≤ queue_size workers
  pub busy_fit : length s.busy ≤ workers
  pub conns_fit : length s.conns ≤ max_tcp_conns
  pub no_sender : s.jobs_closed ≡ true → s.reader ≡ stopped

count-append : (b : ℕ) (xs ys : List ℕ) → count b (xs ++ ys) ≡ count b xs + count b ys
unfolding count
count-append b [] ys = omega arith
count-append b (x ∷ xs) ys = omega (arith, count-append b xs ys)

jobs_with-append :
    (b : ℕ) (xs ys : List Job) → jobs_with b (xs ++ ys) ≡ jobs_with b xs + jobs_with b ys
unfolding jobs_with
jobs_with-append b [] ys = omega arith
jobs_with-append b (x ∷ xs) ys = omega (arith, jobs_with-append b xs ys)

-- Taking an element out of a list.
pub count_out :
    (b c : ℕ) (front back : List ℕ)
    → count b (front ++ c ∷ back) ≡ (if c == b then 1 else 0) + count b (front ++ back)
unfolding count
count_out b c front back = omega (arith, count-append b front (c ∷ back), count-append b front back)

pub jobs_with_out :
    (b : ℕ) (j : Job) (front back : List Job)
    → jobs_with b (front ++ j ∷ back) ≡ (if j.buf == b then 1 else 0) + jobs_with b (front ++ back)
unfolding jobs_with
jobs_with_out b j front back =
    omega (arith, jobs_with-append b front (j ∷ back), jobs_with-append b front back)

-- A change that leaves every buffer in as many places as it was, and the bounds alone.
moved-IsOwned :
    (workers : ℕ) (s t : Serving)
    → ((b : ℕ) → owners b t ≤ owners b s)
    → t.fresh ≡ s.fresh
    → length t.jobs ≤ queue_size workers
    → length t.busy ≤ workers
    → length t.conns ≤ max_tcp_conns
    → (t.jobs_closed ≡ true → t.reader ≡ stopped)
    → IsOwned workers s
    → IsOwned workers t
moved-IsOwned workers s t fewer same jobs busy conns closed h = record {
  one_owner = λ b. let f = fewer b in let o = h.one_owner b in omega arith;
  unmade = λ b le. let f = fewer b in let o = h.unmade b (omega arith) in omega arith;
  jobs_fit = jobs;
  busy_fit = busy;
  conns_fit = conns;
  no_sender = closed;
}

-- A new buffer.
made-IsOwned :
    (workers : ℕ) (s t : Serving)
    → ((b : ℕ) → owners b t ≤ (if s.fresh == b then 1 else 0) + owners b s)
    → t.fresh ≡ s.fresh + 1
    → length t.jobs ≤ queue_size workers
    → length t.busy ≤ workers
    → length t.conns ≤ max_tcp_conns
    → (t.jobs_closed ≡ true → t.reader ≡ stopped)
    → IsOwned workers s
    → IsOwned workers t
made-IsOwned workers s t made same jobs busy conns closed h = record {
  one_owner = λ b. elim (Bool-cases (s.fresh == b)) [
    | inl e ↦
        let m = rw e at (made b) in
        let o = h.unmade b (let at_b = (==_iff s.fresh b).0 e in omega arith) in omega arith
    | inr e ↦ let m = rw e at (made b) in let o = h.one_owner b in omega arith
  ];
  unmade = λ b le. elim (Bool-cases (s.fresh == b)) [
    | inl e ↦ let at_b = (==_iff s.fresh b).0 e in absurd (omega arith)
    | inr e ↦ let m = rw e at (made b) in let o = h.unmade b (omega arith) in omega arith
  ];
  jobs_fit = jobs;
  busy_fit = busy;
  conns_fit = conns;
  no_sender = closed;
}

module _ ⦃u : GoRuntime⦄ (r : Resolver) (workers : ℕ) where
  -- While the reader is at work the channel is open.
  still_open :
      (s : Serving) (at_work : Reader)
      → IsOwned workers s
      → s.reader ≡ at_work
      → at_work ≢ stopped
      → (after : Reader) → s.jobs_closed ≡ true
      → after ≡ stopped
  still_open s at_work h e working after closed = absurd (working (sym e ∙ h.no_sender closed))

  pub Step-IsOwned : {s t : Serving} → Step r workers s t → IsOwned workers s → IsOwned workers t
  unfolding count jobs_with held
  Step-IsOwned {s} (get_pooled front back b e p) h =
      moved-IsOwned workers s _
        (λ c.
          let a = ap (held c) e in let o = ap (count c) p ∙ count_out c b front back in omega arith)
        refl h.jobs_fit h.busy_fit h.conns_fit (still_open s at_start h e (λ q. cc) (reading b)) h
  Step-IsOwned {s} (get_new e) h =
      made-IsOwned workers s _ (λ c. let a = ap (held c) e in omega arith) refl h.jobs_fit
        h.busy_fit h.conns_fit (still_open s at_start h e (λ q. cc) _) h
  Step-IsOwned {s} (receive b addr datagram e live) h =
      moved-IsOwned workers s _ (λ c. let a = ap (held c) e in omega arith) refl h.jobs_fit
        h.busy_fit h.conns_fit (still_open s (reading b) h e (λ q. cc) _) h
  Step-IsOwned {s} (read_error b e live) h =
      moved-IsOwned workers s _ (λ c. let a = ap (held c) e in omega arith) refl h.jobs_fit
        h.busy_fit h.conns_fit (still_open s (reading b) h e (λ q. cc) _) h
  Step-IsOwned {s} (read_closed b e ended) h =
      moved-IsOwned workers s _ (λ c. let a = ap (held c) e in omega arith) refl h.jobs_fit
        h.busy_fit h.conns_fit (λ _. refl) h
  Step-IsOwned {s} (enqueue j e room) h =
      moved-IsOwned workers s _
        (λ c. let a = ap (held c) e in let o = jobs_with-append c s.jobs (j ∷ []) in omega arith)
        refl (omega (arith, length-append s.jobs (j ∷ []), room)) h.busy_fit h.conns_fit
        (still_open s (received j) h e (λ q. cc) _) h
  Step-IsOwned {s} (drop_job j e full) h =
      moved-IsOwned workers s _ (λ c. let a = ap (held c) e in omega arith) refl h.jobs_fit
        h.busy_fit h.conns_fit (still_open s (received j) h e (λ q. cc) _) h
  Step-IsOwned {s} (take_job j rest e room) h =
      moved-IsOwned workers s _ (λ c. let a = ap (jobs_with c) e in omega arith) refl
        (let a = ap length e in let f = h.jobs_fit in omega arith) (omega arith) h.conns_fit
        h.no_sender h
  Step-IsOwned {s} (serve front back j packed e) h =
      moved-IsOwned workers s _
        (λ c. let a = ap (jobs_with c) e ∙ jobs_with_out c j front back in omega arith) refl
        h.jobs_fit
        (let a = ap length e in
          let f = h.busy_fit in
          omega (arith, length-append front (j ∷ back), length-append front back))
        h.conns_fit h.no_sender h
  Step-IsOwned {s} (accept_pooled front back b ac live room p) h =
      moved-IsOwned workers s _
        (λ c. let o = ap (count c) p ∙ count_out c b front back in omega arith) refl h.jobs_fit
        h.busy_fit (omega arith) h.no_sender h
  Step-IsOwned {s} (accept_new ac live room) h =
      made-IsOwned workers s _ (λ c. omega arith) refl h.jobs_fit h.busy_fit (omega arith)
        h.no_sender h
  Step-IsOwned {s} (conn_write b front back frame e) h =
      moved-IsOwned workers s _ (λ c. omega arith) refl h.jobs_fit h.busy_fit h.conns_fit
        h.no_sender h
  Step-IsOwned {s} (conn_end front back b e) h =
      moved-IsOwned workers s _
        (λ c. let o = ap (count c) e ∙ count_out c b front back in omega arith) refl h.jobs_fit
        h.busy_fit
        (let a = ap length e in
          let f = h.conns_fit in
          omega (arith, length-append front (b ∷ back), length-append front back))
        h.no_sender h
  Step-IsOwned {s} (accept_closed ac ended) h =
      moved-IsOwned workers s _ (λ c. omega arith) refl h.jobs_fit h.busy_fit h.conns_fit
        h.no_sender h
  Step-IsOwned {s} (forget front back b p) h =
      moved-IsOwned workers s _
        (λ c. let o = ap (count c) p ∙ count_out c b front back in omega arith) refl h.jobs_fit
        h.busy_fit h.conns_fit h.no_sender h
  Step-IsOwned {s} (cancel live) h =
      moved-IsOwned workers s _ (λ c. omega arith) refl h.jobs_fit h.busy_fit h.conns_fit
        h.no_sender h
  Step-IsOwned {s} (close_jobs ended st ac op) h =
      moved-IsOwned workers s _ (λ c. omega arith) refl h.jobs_fit h.busy_fit h.conns_fit (λ _. st)
        h

  -- In every state that `Serve` reaches, no buffer is in two places (the pool, the reader, a job, a
  -- worker, a connection) and none is in any place before it is made; the channel has sixteen jobs
  -- for each worker at most, each worker one job, and there are 4096 connections at most; and the
  -- channel is closed only when its one sender has stopped.
  pub Reach-IsOwned :
      (rotate : ℕ) {t : Serving} → Reach r workers (start rotate) t → IsOwned workers t
  unfolding count jobs_with held
  Reach-IsOwned rotate here = record {
    one_owner = λ b. omega arith;
    unmade = λ b le. refl;
    jobs_fit = omega arith;
    busy_fit = omega arith;
    conns_fit = omega arith;
    no_sender = λ closed. absurd cc;
  }
  Reach-IsOwned rotate (next run st) = Step-IsOwned st (Reach-IsOwned rotate run)
