-- ===== src/Server/Frames.antt =====
-- A connection of internal/dns/server.go on which messages follow each other.
use mathlib.Core.Path.{subst}
use shard_dns.Prelude.Text.{GoRuntime}
use shard_dns.Codec.{parse_message}
use shard_dns.Server.{
  Turn, hang_up, write_frame, frame, read_full, read_body, read_message, after_parse_tcp, next_turn,
  tcp_conn_loop, tcp_conn,
}
use shard_dns.Zones.{Resolver}
use shard_dns.Prelude.{
  ℕ, zero, suc, ◌+◌, ◌*◌, ◌%◌, ◌≤◌, ◌<◌, true, false, ltb, leb, none, some, List, [], ◌∷◌, ◌++◌,
  ◌≡◌, refl, sym, ap, arith, Bytes, put_u16, get_or, length, length-append, take-append_length,
  drop-append_length, All,
}

-- The messages that fit in a frame and that the server reads.
abbrev pub IsFramed : Bytes → Type 0
IsFramed msg = (12 ≤ length msg) × (length msg < 65536)

read_full-append : (xs ys : Bytes) → read_full (length xs) (xs ++ ys) ≡ some (xs, ys)
unfolding read_full
read_full-append xs ys =
    let fits : leb (length xs) (length (xs ++ ys)) ≡ true = ground (arith, length-append xs ys) in
    rw (fits, take-append_length xs ys, drop-append_length xs ys) refl

read_body_message :
    (len_buf msg rest : Bytes)
    → IsFramed msg
    → get_or len_buf 0 0 * 256 + get_or len_buf 1 0 ≡ length msg
    → read_body (some (len_buf, msg ++ rest)) ≡ some (msg, rest)
unfolding read_body
read_body_message len_buf msg rest (least, most) e =
    let enough : ltb (length msg) 12 ≡ false = ground arith in
    rw (e, enough) (read_full-append msg rest)

-- The framed message comes back, with what stands behind it.
read_message-frame :
    (msg rest : Bytes) → IsFramed msg → read_message (frame msg ++ rest) ≡ some (msg, rest)
unfolding read_message frame
read_message-frame msg rest h =
    let len_buf = put_u16 (length msg % 65536) in
    let n = h.1 in
    rw (read_full-append len_buf (msg ++ rest)) (read_body_message len_buf msg rest h (omega arith))

-- The messages one after the other, each in its frame.
unfoldable pub stream : List Bytes → Bytes → Bytes
stream [] tail = tail
stream (msg ∷ msgs) tail = frame msg ++ stream msgs tail

length-frame : (msg : Bytes) → length (frame msg) ≡ length msg + 2
unfolding frame
length-frame msg = omega arith

module _ ⦃u : GoRuntime⦄ (r : Resolver) where
  -- The answers to messages, in their order, up to one that makes the server hang up.
  unfoldable pub answers_to : List Bytes → ℕ → List Bytes
  answers_to [] rotate = []
  answers_to (msg ∷ msgs) rotate = elim (after_parse_tcp r msg rotate (parse_message msg)) [
    | hang_up ↦ []
    | write_frame out rotate' ↦ out ∷ answers_to msgs rotate'
  ]

  tcp_conn_loop-stream :
      (fuel : ℕ) (msgs : List Bytes) (tail : Bytes) (rotate : ℕ)
      → length (stream msgs tail) ≤ fuel
      → All IsFramed msgs
      → read_message tail ≡ none
      → tcp_conn_loop r fuel (stream msgs tail) rotate ≡ answers_to msgs rotate
  unfolding tcp_conn_loop stream answers_to
  tcp_conn_loop-stream zero [] tail rotate le h ended = refl
  tcp_conn_loop-stream (suc fuel) [] tail rotate le h ended = rw (tcp_conn_loop, ended) refl
  tcp_conn_loop-stream zero (msg ∷ msgs) tail rotate le h ended =
      absurd (omega (arith, length-append (frame msg) (stream msgs tail), length-frame msg))
  tcp_conn_loop-stream (suc fuel) (msg ∷ msgs) tail rotate le h ended =
      let rest = tcp_conn_loop-stream fuel msgs tail in
      let shorter : length (stream msgs tail) ≤ fuel =
        omega (arith, length-append (frame msg) (stream msgs tail), length-frame msg) in
      subst
        (λ (nt : Turn × Bytes).
          elim nt.0 [ hang_up ↦ [] | write_frame out k ↦ out ∷ tcp_conn_loop r fuel nt.1 k ]
          ≡ answers_to (msg ∷ msgs) rotate)
        (sym (ap (λ m. next_turn r m rotate) (read_message-frame msg (stream msgs tail) h.0)))
        (turned (after_parse_tcp r msg rotate (parse_message msg)) (λ k. rest k shorter h.1 ended))
    where
      turned :
          (turn : Turn)
          → ((k : ℕ) → tcp_conn_loop r fuel (stream msgs tail) k ≡ answers_to msgs k)
          → (elim turn [
            | hang_up ↦ []
            | write_frame out k ↦ out ∷ tcp_conn_loop r fuel (stream msgs tail) k
          ])
            ≡ (elim turn [ hang_up ↦ [] | write_frame out k ↦ out ∷ answers_to msgs k ])
      turned hang_up f = refl
      turned (write_frame out k) f = ap (λ t. out ∷ t) (f k)

  -- On a connection that delivers messages of 12 to 65535 bytes, each behind its length, and then
  -- nothing that is such a message, the server writes the answers to the messages in their order, up
  -- to the first that makes it hang up.
  pub tcp_conn-stream :
      (msgs : List Bytes) (tail : Bytes) (rotate : ℕ)
      → All IsFramed msgs
      → read_message tail ≡ none
      → tcp_conn r (stream msgs tail) rotate ≡ answers_to msgs rotate
  unfolding tcp_conn
  tcp_conn-stream msgs tail rotate h ended =
      tcp_conn_loop-stream (length (stream msgs tail)) msgs tail rotate (omega arith) h ended
