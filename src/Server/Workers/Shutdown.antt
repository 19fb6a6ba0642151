-- ===== src/Server/Workers/Shutdown.antt =====
-- How `Serve` of internal/dns/server.go comes to its end once its context is done.
use mathlib.Core.Path.{subst}
use shard_dns.Prelude.Text.{GoRuntime}
use shard_dns.Server.Workers.{
  Job, Reader, at_start, reading, received, stopped, Serving, Step, get_pooled, get_new, receive,
  read_error, read_closed, enqueue, drop_job, take_job, serve, accept_pooled, accept_new,
  conn_write, conn_end, accept_closed, forget, cancel, close_jobs, Reach, here, next, queue_size,
  write_at, workers_of, HasReturned,
}
use shard_dns.Zones.{Resolver}
use shard_dns.Prelude.{
  ℕ, zero, suc, ◌+◌, ◌*◌, ◌≤◌, ◌<◌, Bool, true, ltb, if◌then◌else◌, List, [], ◌∷◌, ◌++◌, ◌≡◌, refl,
  sym, ap, Bytes, IsIn, arith, length, length-append, Bool-cases, inl, inr, ◌⊎◌,
}

-- The steps that are left to the reader, and to the server as a whole.
unfoldable pub reader_left : Reader → ℕ
reader_left stopped = 0
reader_left (reading b) = 1
reader_left at_start = 2
reader_left (received j) = 5

abbrev pub one_if : Bool → ℕ
one_if b = if b then 1 else 0

abbrev pub one_unless : Bool → ℕ
one_unless b = if b then 0 else 1

unfoldable pub remaining : Serving → ℕ
remaining s =
    reader_left s.reader
    + 2 * length s.jobs
    + length s.busy
    + length s.conns
    + one_if s.accepting
    + one_unless s.jobs_closed

-- The collector takes one free buffer, and all else stays.
abbrev pub IsForgotten : Serving → Serving → Type 0
IsForgotten s t =
    (front : List ℕ) × (back : List ℕ) × (b : ℕ) × (s.pool ≡ front ++ b ∷ back)
    × (t ≡ record s { pool = front ++ back })

-- An open connection writes into its own buffer, and all else stays.
abbrev pub IsWritten : Serving → Serving → Type 0
IsWritten s t =
    (b : ℕ) × (frame : Bytes) × IsIn b s.conns × (t ≡ record s { mem = write_at s.mem b frame })

IsIn-middle : (front : List ℕ) (b : ℕ) (back : List ℕ) → IsIn b (front ++ b ∷ back)
IsIn-middle [] b back = inl refl
IsIn-middle (c ∷ front) b back = inr (IsIn-middle front b back)

module _ ⦃u : GoRuntime⦄ (r : Resolver) (workers : ℕ) where
  -- Once the context is done it stays so, and each step brings the end nearer, save one in which
  -- nothing changes but that the collector takes a free buffer, or a connection writes into its own.
  pub Step-remaining :
      {s t : Serving}
      → Step r workers s t
      → s.is_done ≡ true
      → (t.is_done ≡ true) × ((remaining t < remaining s) ⊎ (IsForgotten s t ⊎ IsWritten s t))
  unfolding remaining reader_left
  Step-remaining (get_pooled front back b e p) d =
      (d, inl (let a = ap reader_left e in omega arith))
  Step-remaining (get_new e) d = (d, inl (let a = ap reader_left e in omega arith))
  Step-remaining (receive b addr datagram e live) d = absurd cc
  Step-remaining (read_error b e live) d = absurd cc
  Step-remaining (read_closed b e ended) d = (d, inl (let a = ap reader_left e in omega arith))
  Step-remaining {s} (enqueue j e room) d =
      (d, inl (let a = ap reader_left e in omega (arith, length-append s.jobs (j ∷ []))))
  Step-remaining (drop_job j e full) d = (d, inl (let a = ap reader_left e in omega arith))
  Step-remaining (take_job j rest e room) d = (d, inl (let a = ap length e in omega arith))
  Step-remaining (serve front back j packed e) d = (
    d,
    inl (
        let a = ap length e in
        omega (arith, length-append front (j ∷ back), length-append front back)),
  )
  Step-remaining (accept_pooled front back b ac live room p) d = absurd cc
  Step-remaining (accept_new ac live room) d = absurd cc
  Step-remaining {s} (conn_write b front back frame e) d =
      (d, inr (inr (b, frame, subst (IsIn b) (sym e) (IsIn-middle front b back), refl)))
  Step-remaining (conn_end front back b e) d = (
    d,
    inl (
        let a = ap length e in
        omega (arith, length-append front (b ∷ back), length-append front back)),
  )
  Step-remaining {s} (accept_closed ac ended) d =
      (d, inl (let a : one_if s.accepting ≡ 1 = ap one_if ac in omega arith))
  Step-remaining (forget front back b p) d = (d, inr (inl (front, back, b, p, refl)))
  Step-remaining (cancel live) d = absurd cc
  Step-remaining {s} (close_jobs ended st ac op) d =
      (d, inl (let a : one_unless s.jobs_closed ≡ 1 = ap one_unless op in omega arith))

  abbrev CanStep : Serving → Type 0
  CanStep s = (t : Serving) × Step r workers s t × (remaining t < remaining s)

  -- The reader has stopped: a worker, a connection or `Serve` itself goes on.
  drained :
      (s : Serving) (busy jobs : List Job) (conns : List ℕ)
      → 1 ≤ workers
      → s.is_done ≡ true
      → s.reader ≡ stopped
      → s.busy ≡ busy
      → s.jobs ≡ jobs
      → s.conns ≡ conns
      → HasReturned s ⊎ CanStep s
  unfolding remaining
  drained s (j ∷ back) jobs conns w d rd e f g =
      inr (_, serve [] back j [] e, (let a = ap length e in omega arith))
  drained s [] (j ∷ rest) conns w d rd e f g = inr (
    _,
    take_job j rest f (let a = ap length e in omega arith),
    (let a = ap length f in omega arith),
  )
  drained s [] [] (b ∷ back) w d rd e f g =
      inr (_, conn_end [] back b g, (let a = ap length g in omega arith))
  drained s [] [] [] w d rd e f g = elim (Bool-cases s.accepting) [
    | inl ac ↦
        inr (_, accept_closed ac d, (let a : one_if s.accepting ≡ 1 = ap one_if ac in omega arith))
    | inr ac ↦ elim (Bool-cases s.jobs_closed) [
      | inl closed ↦ inl (record {
        has_stopped = rd;
        not_accepting = ac;
        is_closed = closed;
        no_jobs = f;
        no_busy = e;
        no_conns = g;
      })
      | inr open_yet ↦ inr (
        _,
        close_jobs d rd ac open_yet,
        (let a : one_unless s.jobs_closed ≡ 1 = ap one_unless open_yet in omega arith),
      )
    ]
  ]

  progress :
      (s : Serving) (rd : Reader)
      → 1 ≤ workers
      → s.is_done ≡ true
      → s.reader ≡ rd
      → HasReturned s ⊎ CanStep s
  unfolding remaining reader_left
  progress s at_start w d e = inr (_, get_new e, (let a = ap reader_left e in omega arith))
  progress s (reading b) w d e =
      inr (_, read_closed b e d, (let a = ap reader_left e in omega arith))
  progress s (received j) w d e = elim (Bool-cases (ltb (length s.jobs) (queue_size workers))) [
    | inl room ↦ inr (
      _,
      enqueue j e (ground arith),
      (let a = ap reader_left e in omega (arith, length-append s.jobs (j ∷ []))),
    )
    | inr full ↦ inr (_, drop_job j e (ground arith), (let a = ap reader_left e in omega arith))
  ]
  progress s stopped w d e = drained s s.busy s.jobs s.conns w d e refl refl refl

  Reach-append : {s t v : Serving} → Reach r workers s t → Reach r workers t v → Reach r workers s v
  Reach-append run here = run
  Reach-append run (next more st) = next (Reach-append run more) st

  returns_in :
      (n : ℕ) (s : Serving)
      → remaining s ≤ n
      → 1 ≤ workers
      → s.is_done ≡ true
      → (t : Serving) × Reach r workers s t × HasReturned t
  returns_in zero s le w d = elim (progress s s.reader w d refl) [
    | inl ended ↦ (s, here, ended)
    | inr (t, st, less) ↦ absurd (omega arith)
  ]
  returns_in (suc n) s le w d = elim (progress s s.reader w d refl) [
    | inl ended ↦ (s, here, ended)
    | inr (t, st, less) ↦
        let (still, _) = Step-remaining st d in
        let (v, run, ended) = returns_in n t (omega arith) w still in
        (v, Reach-append (next here st) run, ended)
  ]

-- Whatever state the server is in, with the workers that `New` gives it, it can run to its end once
-- the context is done: the reader, the acceptor and the workers have ended, the channel of jobs is
-- closed, and no job and no connection is left.
pub serve_returns :
    ⦃u : GoRuntime⦄
    → (r : Resolver) (workers : ℕ) (s : Serving) → s.is_done ≡ true
    → (t : Serving) × Reach r (workers_of workers) s t × HasReturned t
unfolding workers_of
serve_returns r workers s d =
    returns_in r (workers_of workers) (remaining s) s (omega arith) (ground arith) d
