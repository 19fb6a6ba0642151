-- ===== src/Server/Workers/Replied.antt =====
-- What the workers of internal/dns/server.go send, against what the reader received.
use shard_dns.Prelude.Text.{GoRuntime}
use shard_dns.Server.{serve_udp}
use shard_dns.Server.Workers.{
  Job, Reader, at_start, reading, received, stopped, Packet, got, sent, Serving, Step, get_pooled,
  get_new, receive, read_error, read_closed, enqueue, drop_job, take_job, serve, accept_pooled,
  accept_new, conn_write, conn_end, accept_closed, forget, cancel, close_jobs, Reach, here, next,
  start, write_at, answer_to, buf_size,
}
use shard_dns.Server.Workers.Owners.{
  count, jobs_with, held, count_out, jobs_with_out, IsOwned, Step-IsOwned, Reach-IsOwned,
}
use shard_dns.Zones.{Resolver}
use shard_dns.Prelude.{
  ℕ, ◌+◌, true, false, ◌==◌, ==_iff, some, Option-cases, List, [], ◌∷◌, ◌++◌, ◌≡◌, refl, ap, ◌∙◌,
  arith, Bytes, length, take, drop, All, All-append, IsIn, take-append_length, Bool-cases, inl, inr,
}

-- The bytes of a job are a datagram that came from the job's address.
abbrev pub IsGenuine : (ℕ → Bytes) → List Packet → Job → Type 0
IsGenuine mem log j = IsIn (got j.addr (take j.n (mem j.buf))) log

abbrev IsGenuineAt : (ℕ → Bytes) → List Packet → Reader → Type 0
IsGenuineAt mem log (received j) = IsGenuine mem log j
IsGenuineAt mem log at_start = Unit
IsGenuineAt mem log (reading b) = Unit
IsGenuineAt mem log stopped = Unit

-- What is added to a log keeps what it has.
abbrev Grows : List Packet → List Packet → Type 0
Grows log log' = (p : Packet) → IsIn p log → IsIn p log'

write_at_other :
    (mem : ℕ → Bytes) (b i : ℕ) (bytes : Bytes) → (i == b) ≡ false → write_at mem b bytes i ≡ mem i
unfolding write_at
write_at_other mem b i bytes h = rw h refl

module _ (mem : ℕ → Bytes) (b : ℕ) (bytes : Bytes) (log log' : List Packet)
    (grows : Grows log log') where
  -- A write to another buffer leaves a job's bytes alone.
  IsGenuine-write_at :
      (j : Job)
      → (j.buf == b) ≡ false
      → IsGenuine mem log j
      → IsGenuine (write_at mem b bytes) log' j
  IsGenuine-write_at j other h = rw (write_at_other mem b j.buf bytes other) (grows _ h)

  All-write_at :
      (js : List Job)
      → jobs_with b js ≡ 0
      → All (IsGenuine mem log) js
      → All (IsGenuine (write_at mem b bytes) log') js
  unfolding jobs_with
  All-write_at [] none_there h = tt
  All-write_at (j ∷ js) none_there h = elim (Bool-cases (j.buf == b)) [
    | inl e ↦ absurd (let n = rw e at none_there in omega arith)
    | inr e ↦ (IsGenuine-write_at j e h.0, All-write_at js (omega arith) h.1)
  ]

  IsGenuineAt-write_at :
      (rd : Reader)
      → held b rd ≡ 0
      → IsGenuineAt mem log rd
      → IsGenuineAt (write_at mem b bytes) log' rd
  unfolding held
  IsGenuineAt-write_at at_start h g = tt
  IsGenuineAt-write_at (reading c) h g = tt
  IsGenuineAt-write_at stopped h g = tt
  IsGenuineAt-write_at (received j) h g = elim (Bool-cases (j.buf == b)) [
    | inl e ↦ absurd (let n = rw e at h in omega arith)
    | inr e ↦ IsGenuine-write_at j e g
  ]

All-out :
    (P : Job → Type 0) (front back : List Job) (j : Job)
    → All P (front ++ j ∷ back)
    → P j × All P (front ++ back)
All-out P [] back j h = h
All-out P (k ∷ front) back j h =
    let (this, rest) = All-out P front back j h.1 in (this, (h.0, rest))

module _ ⦃u : GoRuntime⦄ (r : Resolver) where
  -- Each packet sent is what the server answers to a packet received before from the same address.
  abbrev pub IsReplied : List Packet → Type 0
  IsReplied [] = Unit
  IsReplied (got addr bytes ∷ log) = IsReplied log
  IsReplied (sent addr out ∷ log) =
      ((bytes : Bytes) × (rotate : ℕ) × IsIn (got addr bytes) log
        × ((serve_udp r bytes rotate).0 ≡ some out))
      × IsReplied log

module _ ⦃u : GoRuntime⦄ (r : Resolver) (workers : ℕ) where
  record IsFaithful (s : Serving) : Type 0 where
    owned : IsOwned workers s
    replied : IsReplied r s.packets
    jobs_genuine : All (IsGenuine s.mem s.packets) s.jobs
    busy_genuine : All (IsGenuine s.mem s.packets) s.busy
    reader_genuine : IsGenuineAt s.mem s.packets s.reader

  -- The answer that a worker sends.
  answer_to-IsReplied :
      (addr bytes : Bytes) (rotate : ℕ) (log : List Packet)
      → IsIn (got addr bytes) log
      → IsReplied r log
      → IsReplied r (answer_to addr (serve_udp r bytes rotate).0 log)
        × Grows log (answer_to addr (serve_udp r bytes rotate).0 log)
  unfolding answer_to
  answer_to-IsReplied addr bytes rotate log h k = elim (Option-cases (serve_udp r bytes rotate).0) [
    | inl e ↦ rw e (k, λ p i. i)
    | inr (out, e) ↦ rw (answer_to, e) (((bytes, rotate, h, e), k), λ p i. inr i)
  ]

  -- A step that leaves the buffers' bytes and the packets alone.
  quiet-IsFaithful :
      (s t : Serving)
      → IsOwned workers t
      → t.mem ≡ s.mem
      → t.packets ≡ s.packets
      → All (IsGenuine s.mem s.packets) t.jobs
      → All (IsGenuine s.mem s.packets) t.busy
      → IsGenuineAt s.mem s.packets t.reader
      → IsFaithful s
      → IsFaithful t
  quiet-IsFaithful s t owned m p jobs busy rd h = record {
    owned = owned;
    replied = rw p h.replied;
    jobs_genuine = rw (m, p) jobs;
    busy_genuine = rw (m, p) busy;
    reader_genuine = rw (m, p) rd;
  }

  -- A step that writes into a buffer that no job and not the reader has.
  written-IsFaithful :
      (s t : Serving) (b : ℕ) (bytes : Bytes)
      → IsOwned workers t
      → t.mem ≡ write_at s.mem b bytes
      → Grows s.packets t.packets
      → IsReplied r t.packets
      → (jobs_with b t.jobs ≡ 0) × All (IsGenuine s.mem s.packets) t.jobs
      → (jobs_with b t.busy ≡ 0) × All (IsGenuine s.mem s.packets) t.busy
      → IsGenuineAt (write_at s.mem b bytes) t.packets t.reader
      → IsFaithful t
  written-IsFaithful s t b bytes owned m grows replied (free, jobs) (idle, busy) rd = record {
    owned = owned;
    replied = replied;
    jobs_genuine = rw m (All-write_at s.mem b bytes s.packets t.packets grows t.jobs free jobs);
    busy_genuine = rw m (All-write_at s.mem b bytes s.packets t.packets grows t.busy idle busy);
    reader_genuine = rw m rd;
  }

  abbrev after_receive : Serving → ℕ → Bytes → Bytes → Serving
  after_receive s b addr bytes = record s {
    reader = received (record { buf = b; n = length bytes; addr = addr });
    mem = write_at s.mem b bytes;
    packets = got addr bytes ∷ s.packets;
  }

  receive-IsFaithful :
      (s : Serving) (b : ℕ) (addr bytes : Bytes)
      → s.reader ≡ reading b
      → IsOwned workers (after_receive s b addr bytes)
      → IsFaithful s
      → IsFaithful (after_receive s b addr bytes)
  unfolding held write_at
  receive-IsFaithful s b addr bytes e owned h =
      let self : (b == b) ≡ true = (==_iff b b).1 refl in
      let mine : held b s.reader ≡ 1 = ap (held b) e ∙ rw self refl in
      let o = h.owned.one_owner b in
      let back : take (length bytes) (write_at s.mem b bytes b) ≡ bytes =
        rw self (take-append_length bytes (drop (length bytes) (s.mem b))) in
      written-IsFaithful s (after_receive s b addr bytes) b bytes owned refl (λ p i. inr i)
        h.replied (omega arith, h.jobs_genuine) (omega arith, h.busy_genuine)
        (inl (ap (got addr) back))

  abbrev after_serve : Serving → List Job → List Job → Job → Bytes → Serving
  after_serve s front back j packed = record s {
    busy = front ++ back;
    pool = j.buf ∷ s.pool;
    mem = write_at s.mem j.buf packed;
    rotate = (serve_udp r (take j.n (s.mem j.buf)) s.rotate).1;
    packets = answer_to j.addr (serve_udp r (take j.n (s.mem j.buf)) s.rotate).0 s.packets;
  }

  serve-IsFaithful :
      (s : Serving) (front back : List Job) (j : Job) (packed : Bytes)
      → s.busy ≡ front ++ j ∷ back
      → IsOwned workers (after_serve s front back j packed)
      → IsFaithful s
      → IsFaithful (after_serve s front back j packed)
  serve-IsFaithful s front back j packed e owned h =
      let self : (j.buf == j.buf) ≡ true = (==_iff j.buf j.buf).1 refl in
      let mine : jobs_with j.buf s.busy ≡ 1 + jobs_with j.buf (front ++ back) =
        ap (jobs_with j.buf) e ∙ jobs_with_out j.buf j front back ∙ rw self refl in
      let o = h.owned.one_owner j.buf in
      let (this, others) =
        All-out (IsGenuine s.mem s.packets) front back j (rw e at h.busy_genuine) in
      let (replied, grows) =
        answer_to-IsReplied j.addr (take j.n (s.mem j.buf)) s.rotate s.packets this h.replied in
      let log = answer_to j.addr (serve_udp r (take j.n (s.mem j.buf)) s.rotate).0 s.packets in
      written-IsFaithful s (after_serve s front back j packed) j.buf packed owned refl grows replied
        (omega arith, h.jobs_genuine) (omega arith, others)
        (IsGenuineAt-write_at s.mem j.buf packed s.packets log grows s.reader (omega arith)
          h.reader_genuine)

  conn_write-IsFaithful :
      (s : Serving) (b : ℕ) (front back : List ℕ) (frame : Bytes)
      → s.conns ≡ front ++ b ∷ back
      → IsOwned workers (record s { mem = write_at s.mem b frame })
      → IsFaithful s
      → IsFaithful (record s { mem = write_at s.mem b frame })
  conn_write-IsFaithful s b front back frame e owned h =
      let self : (b == b) ≡ true = (==_iff b b).1 refl in
      let mine : count b s.conns ≡ 1 + count b (front ++ back) =
        ap (count b) e ∙ count_out b b front back ∙ rw self refl in
      let o = h.owned.one_owner b in
      written-IsFaithful s (record s { mem = write_at s.mem b frame }) b frame owned refl (λ p i. i)
        h.replied (omega arith, h.jobs_genuine) (omega arith, h.busy_genuine)
        (IsGenuineAt-write_at s.mem b frame s.packets s.packets (λ p i. i) s.reader (omega arith)
          h.reader_genuine)

  Step-IsFaithful : {s t : Serving} → Step r workers s t → IsFaithful s → IsFaithful t
  Step-IsFaithful {s} {t} st h = kept st (Step-IsOwned r workers st h.owned)
    where
      quiet :
          (t : Serving)
          → IsOwned workers t
          → t.mem ≡ s.mem
          → t.packets ≡ s.packets
          → All (IsGenuine s.mem s.packets) t.jobs
          → All (IsGenuine s.mem s.packets) t.busy
          → IsGenuineAt s.mem s.packets t.reader
          → IsFaithful t
      quiet t o m p jobs busy rd = quiet-IsFaithful s t o m p jobs busy rd h

      kept : {v : Serving} → Step r workers s v → IsOwned workers v → IsFaithful v
      kept (get_pooled front back b e p) o = quiet _ o refl refl h.jobs_genuine h.busy_genuine tt
      kept (get_new e) o = quiet _ o refl refl h.jobs_genuine h.busy_genuine tt
      kept (receive b addr datagram e live) o =
          receive-IsFaithful s b addr (take buf_size datagram) e o h
      kept (read_error b e live) o = quiet _ o refl refl h.jobs_genuine h.busy_genuine tt
      kept (read_closed b e ended) o = quiet _ o refl refl h.jobs_genuine h.busy_genuine tt
      kept (enqueue j e room) o =
          quiet _ o refl refl
            (All-append (IsGenuine s.mem s.packets) s.jobs (j ∷ []) h.jobs_genuine
              (rw e at h.reader_genuine, tt))
            h.busy_genuine tt
      kept (drop_job j e full) o = quiet _ o refl refl h.jobs_genuine h.busy_genuine tt
      kept (take_job j rest e room) o =
          let waiting = rw e at h.jobs_genuine in
          quiet _ o refl refl waiting.1 (waiting.0, h.busy_genuine) h.reader_genuine
      kept (serve front back j packed e) o = serve-IsFaithful s front back j packed e o h
      kept (accept_pooled front back b ac live room p) o =
          quiet _ o refl refl h.jobs_genuine h.busy_genuine h.reader_genuine
      kept (accept_new ac live room) o =
          quiet _ o refl refl h.jobs_genuine h.busy_genuine h.reader_genuine
      kept (conn_write b front back frame e) o = conn_write-IsFaithful s b front back frame e o h
      kept (conn_end front back b e) o =
          quiet _ o refl refl h.jobs_genuine h.busy_genuine h.reader_genuine
      kept (accept_closed ac ended) o =
          quiet _ o refl refl h.jobs_genuine h.busy_genuine h.reader_genuine
      kept (forget front back b p) o =
          quiet _ o refl refl h.jobs_genuine h.busy_genuine h.reader_genuine
      kept (cancel live) o = quiet _ o refl refl h.jobs_genuine h.busy_genuine h.reader_genuine
      kept (close_jobs ended st ac op) o =
          quiet _ o refl refl h.jobs_genuine h.busy_genuine h.reader_genuine

  Reach-IsFaithful : (rotate : ℕ) {t : Serving} → Reach r workers (start rotate) t → IsFaithful t
  Reach-IsFaithful rotate here = record {
    owned = Reach-IsOwned r workers rotate here;
    replied = tt;
    jobs_genuine = tt;
    busy_genuine = tt;
    reader_genuine = tt;
  }
  Reach-IsFaithful rotate (next run st) = Step-IsFaithful st (Reach-IsFaithful rotate run)

  -- However the goroutines of the server take turns, each datagram that it sends over UDP is what
  -- `serve_udp` answers, at some value of the rotation counter, to the bytes of a datagram that it
  -- received before from the same address, cut at 4096 bytes.
  pub Reach-IsReplied :
      (rotate : ℕ) {t : Serving} → Reach r workers (start rotate) t → IsReplied r t.packets
  Reach-IsReplied rotate run = (Reach-IsFaithful rotate run).replied
