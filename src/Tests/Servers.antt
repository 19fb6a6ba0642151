-- ===== src/Tests/Servers.antt =====
-- The theorems of Server/Workers and Server/Frames at concrete inputs: one datagram, from the socket
-- to its answer.
use shard_dns.Server.Frames.{stream, answers_to, tcp_conn-stream}
use shard_dns.Server.Workers.Owners.{IsOwned, Reach-IsOwned}
use shard_dns.Server.Workers.Replied.{IsReplied, Reach-IsReplied}
use shard_dns.Server.Workers.Shutdown.{
  remaining, IsForgotten, IsWritten, Step-remaining, serve_returns,
}
use shard_dns.Server.Workers.{
  buf_size, workers_of, Job, reading, received, at_start, got, Serving, start, write_at, answer_to,
  get_new, receive, enqueue, take_job, serve, Reach, here, next, HasReturned,
}
use shard_dns.Server.{serve_udp, read_message, read_full, read_body, tcp_conn}
use shard_dns.Tests.Answers.{ascii, example_resolver}
use shard_dns.Prelude.{
  ◌+◌, ◌<◌, true, none, [], ◌∷◌, ◌≡◌, refl, arith, Bytes, codes, length, take, ◌⊎◌,
}

-- A header that promises nine questions, and none of them.
abbrev broken : Bytes
broken = 1 ∷ 2 ∷ 1 ∷ 0 ∷ 0 ∷ 9 ∷ 0 ∷ 0 ∷ 0 ∷ 0 ∷ 0 ∷ 0 ∷ []

abbrev client : Bytes
client = codes "192.0.2.7:5300"

abbrev job : Job
job = record { buf = 0; n = length (take buf_size broken); addr = client }

abbrev waiting : Serving
waiting = record (start 3) { reader = reading 0; fresh = 1 }

abbrev arrived : Serving
arrived = record waiting {
  reader = received job;
  mem = write_at waiting.mem 0 (take buf_size broken);
  packets = got client (take buf_size broken) ∷ [];
}

abbrev queued : Serving
queued = record arrived { reader = at_start; jobs = job ∷ [] }

abbrev at_work : Serving
at_work = record queued { jobs = []; busy = job ∷ [] }

abbrev answered : Serving
answered = record at_work {
  busy = [];
  pool = 0 ∷ [];
  mem = write_at at_work.mem 0 [];
  rotate = (serve_udp ⦃u = ascii⦄ example_resolver (take job.n (at_work.mem 0)) 3).1;
  packets =
      answer_to client (serve_udp ⦃u = ascii⦄ example_resolver (take job.n (at_work.mem 0)) 3).0
        at_work.packets;
}

run : Reach ⦃u = ascii⦄ example_resolver 1 (start 3) answered
run =
    next
      (next
        (next (next (next here (get_new refl)) (receive 0 client broken refl refl))
          (enqueue job refl (omega arith)))
        (take_job job [] refl (omega arith)))
      (serve [] [] job [] refl)

Reach-IsOwned_example : IsOwned 1 answered
Reach-IsOwned_example = Reach-IsOwned ⦃u = ascii⦄ example_resolver 1 3 run

Reach-IsReplied_example : IsReplied ⦃u = ascii⦄ example_resolver answered.packets
Reach-IsReplied_example = Reach-IsReplied ⦃u = ascii⦄ example_resolver 1 3 run

abbrev ending : Serving
ending = record at_work { is_done = true }

abbrev read_on : Serving
read_on = record ending { reader = reading ending.fresh; fresh = ending.fresh + 1 }

Step-remaining_example :
    (read_on.is_done ≡ true)
    × ((remaining read_on < remaining ending)
        ⊎ (IsForgotten ending read_on ⊎ IsWritten ending read_on))
Step-remaining_example = Step-remaining ⦃u = ascii⦄ example_resolver 1 (get_new refl) refl

serve_returns_example :
    (t : Serving) × Reach ⦃u = ascii⦄ example_resolver (workers_of 0) ending t × HasReturned t
serve_returns_example = serve_returns ⦃u = ascii⦄ example_resolver 0 ending refl

nothing_more : read_message [] ≡ none
unfolding read_message read_full read_body
nothing_more = refl

tcp_conn-stream_example :
    tcp_conn ⦃u = ascii⦄ example_resolver (stream (broken ∷ broken ∷ []) []) 3
    ≡ answers_to ⦃u = ascii⦄ example_resolver (broken ∷ broken ∷ []) 3
tcp_conn-stream_example =
    tcp_conn-stream ⦃u = ascii⦄ example_resolver (broken ∷ broken ∷ []) [] 3
      ((omega arith, omega arith), ((omega arith, omega arith), tt)) nothing_more
