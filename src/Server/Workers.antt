-- ===== src/Server/Workers.antt =====
-- internal/dns/server.go: the goroutines of `Serve`, their channel of jobs and the pool of buffers.
-- A step is what one goroutine does between two points where another may go on. `sync.Pool` hands out
-- any buffer that it has or a new one, and may drop what it has. Cancelling the context and closing
-- the sockets is one step. A connection is known by its buffer: what it reads and answers is that of
-- `tcp_conn`, and here it writes into its buffer whatever it likes.
pub mod Owners
pub mod Replied
pub mod Shutdown
use shard_dns.Prelude.Text.{GoRuntime}
use shard_dns.Server.{serve_udp}
use shard_dns.Zones.{Resolver}
use shard_dns.Prelude.{
  ℕ, ◌+◌, ◌*◌, ◌≤◌, ◌<◌, Bool, true, false, ltb, ◌==◌, if◌then◌else◌, Option, none, some, List, [],
  ◌∷◌, ◌++◌, ◌≡◌, Bytes, length, take, drop,
}

abbrev pub buf_size : ℕ
buf_size = 4096

abbrev pub max_tcp_conns : ℕ
max_tcp_conns = 4096

-- The type `job`; a buffer is its number, an address is a text.
pub record Job : Type 0 where
  pub buf : ℕ
  pub n : ℕ
  pub addr : Bytes

-- Where `udpReadLoop` stands.
pub data Reader : Type 0 where
  at_start : Reader  -- before `s.pool.Get`
  reading : (buf : ℕ) → Reader  -- in `ReadFromUDPAddrPort`
  received : (j : Job) → Reader  -- before the `select`
  stopped : Reader

-- What passes through the UDP socket.
pub data Packet : Type 0 where
  got : (addr bytes : Bytes) → Packet
  sent : (addr bytes : Bytes) → Packet

pub record Serving : Type 0 where
  pub pool : List ℕ
  pub fresh : ℕ  -- no buffer has a number from here on
  pub mem : ℕ → Bytes
  pub reader : Reader
  pub jobs : List Job
  pub busy : List Job  -- what the workers are at, one job each
  pub conns : List ℕ  -- the buffers of the open connections, which hold a slot each
  pub accepting : Bool
  pub is_done : Bool  -- the context is done and the sockets are closed
  pub jobs_closed : Bool
  pub rotate : ℕ
  pub packets : List Packet  -- the latest first

-- `New`: one worker at least, and a channel with sixteen places for each.
unfoldable pub workers_of : ℕ → ℕ
workers_of workers = if ltb workers 1 then 1 else workers

abbrev pub queue_size : ℕ → ℕ
queue_size workers = workers * 16

-- `Serve` when its goroutines have started.
abbrev pub start : ℕ → Serving
start rotate = record {
  pool = [];
  fresh = 0;
  mem = λ b. [];
  reader = at_start;
  jobs = [];
  busy = [];
  conns = [];
  accepting = true;
  is_done = false;
  jobs_closed = false;
  rotate = rotate;
  packets = [];
}

-- The bytes of one buffer after a write at its start.
unfoldable pub write_at : (ℕ → Bytes) → ℕ → Bytes → ℕ → Bytes
write_at mem b bytes i = if i == b then bytes ++ drop (length bytes) (mem i) else mem i

-- The packet that an answer sends, if any.
unfoldable pub answer_to : Bytes → Option Bytes → List Packet → List Packet
answer_to addr none log = log
answer_to addr (some out) log = sent addr out ∷ log

module _ ⦃u : GoRuntime⦄ (r : Resolver) (workers : ℕ) where
  pub data Step (s : Serving) : Serving → Type 0 where
    -- `udpReadLoop`
    get_pooled :
        (front back : List ℕ) (b : ℕ)
        → s.reader ≡ at_start
        → s.pool ≡ front ++ b ∷ back
        → Step s (record s { reader = reading b; pool = front ++ back })
    get_new :
        s.reader ≡ at_start → Step s (record s { reader = reading s.fresh; fresh = s.fresh + 1 })
    receive :
        (b : ℕ) (addr datagram : Bytes)
        → s.reader ≡ reading b
        → s.is_done ≡ false
        → Step s (record s {
          reader = received (record { buf = b; n = length (take buf_size datagram); addr = addr });
          mem = write_at s.mem b (take buf_size datagram);
          packets = got addr (take buf_size datagram) ∷ s.packets;
        })
    read_error :
        (b : ℕ)
        → s.reader ≡ reading b
        → s.is_done ≡ false
        → Step s (record s { reader = at_start; pool = b ∷ s.pool })
    read_closed :
        (b : ℕ)
        → s.reader ≡ reading b
        → s.is_done ≡ true
        → Step s (record s { reader = stopped; pool = b ∷ s.pool })
    enqueue :
        (j : Job)
        → s.reader ≡ received j
        → length s.jobs < queue_size workers
        → Step s (record s { reader = at_start; jobs = s.jobs ++ j ∷ [] })
    drop_job :
        (j : Job)
        → s.reader ≡ received j
        → queue_size workers ≤ length s.jobs
        → Step s (record s { reader = at_start; pool = j.buf ∷ s.pool })
    -- a worker: `for j := range s.jobs { s.serveUDP(ctx, j) }`
    take_job :
        (j : Job) (rest : List Job)
        → s.jobs ≡ j ∷ rest
        → length s.busy < workers
        → Step s (record s { jobs = rest; busy = j ∷ s.busy })
    serve :
        (front back : List Job) (j : Job) (packed : Bytes)
        → s.busy ≡ front ++ j ∷ back
        → Step s (record s {
          busy = front ++ back;
          pool = j.buf ∷ s.pool;
          mem = write_at s.mem j.buf packed;
          rotate = (serve_udp r (take j.n (s.mem j.buf)) s.rotate).1;
          packets = answer_to j.addr (serve_udp r (take j.n (s.mem j.buf)) s.rotate).0 s.packets;
        })
    -- `tcpAcceptLoop` and its connections
    accept_pooled :
        (front back : List ℕ) (b : ℕ)
        → s.accepting ≡ true
        → s.is_done ≡ false
        → length s.conns < max_tcp_conns
        → s.pool ≡ front ++ b ∷ back
        → Step s (record s { conns = b ∷ s.conns; pool = front ++ back })
    accept_new :
        s.accepting ≡ true
        → s.is_done ≡ false
        → length s.conns < max_tcp_conns
        → Step s (record s { conns = s.fresh ∷ s.conns; fresh = s.fresh + 1 })
    conn_write :
        (b : ℕ) (front back : List ℕ) (frame : Bytes)
        → s.conns ≡ front ++ b ∷ back
        → Step s (record s { mem = write_at s.mem b frame })
    conn_end :
        (front back : List ℕ) (b : ℕ)
        → s.conns ≡ front ++ b ∷ back
        → Step s (record s { conns = front ++ back; pool = b ∷ s.pool })
    accept_closed : s.accepting ≡ true → s.is_done ≡ true → Step s (record s { accepting = false })
    -- the collector may empty the pool
    forget :
        (front back : List ℕ) (b : ℕ)
        → s.pool ≡ front ++ b ∷ back
        → Step s (record s { pool = front ++ back })
    -- `Serve` itself: the end of the context, and `close(s.jobs)` behind `readers.Wait()`
    cancel : s.is_done ≡ false → Step s (record s { is_done = true })
    close_jobs :
        s.is_done ≡ true
        → s.reader ≡ stopped
        → s.accepting ≡ false
        → s.jobs_closed ≡ false
        → Step s (record s { jobs_closed = true })

  pub data Reach (s : Serving) : Serving → Type 0 where
    here : Reach s s
    next : {t v : Serving} → Reach s t → Step t v → Reach s v

-- `Serve` returns: the reader and the acceptor have stopped, the jobs are closed, the workers have
-- ended, and so have the connections.
pub record HasReturned (s : Serving) : Type 0 where
  pub has_stopped : s.reader ≡ stopped
  pub not_accepting : s.accepting ≡ false
  pub is_closed : s.jobs_closed ≡ true
  pub no_jobs : s.jobs ≡ []
  pub no_busy : s.busy ≡ []
  pub no_conns : s.conns ≡ []
