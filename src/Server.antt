-- ===== src/Server.antt =====
-- internal/dns/server.go: what the server answers to a datagram, and on a TCP connection.
-- The bytes that a connection delivers are a list, its end included; a write always succeeds.
pub mod Replies
pub mod Workers
pub mod Frames
use shard_dns.Codec.{MessageError, LengthError, parse_message, pack, pack_udp}
use shard_dns.Handler.Resolve.{handle}
use shard_dns.Handler.Response.{Work}
use shard_dns.Prelude.Text.{GoRuntime}
use shard_dns.Wire.{Message, flag_qr, rcode_format_error}
use shard_dns.Zones.{Resolver}
use shard_dns.Prelude.{
  ℕ, zero, suc, ◌+◌, ◌*◌, ◌/◌, ◌%◌, Bool, true, false, not, ◌&&◌, ltb, leb, ◌==◌, if◌then◌else◌,
  Option, none, some, List, [], ◌∷◌, ◌++◌, Bytes, bit_and, bit_or, get_or, take, drop, length,
  put_u16, Outcome, ok, err,
}

-- The answer to a request that does not parse.
unfoldable pub form_err : Bytes → Bytes
form_err req =
    get_or req 0 0
    ∷ get_or req 1 0
    ∷ bit_or 0x80 (bit_and (get_or req 2 0) 0x79)
    ∷ rcode_format_error
    ∷ 0
    ∷ 0
    ∷ 0
    ∷ 0
    ∷ 0
    ∷ 0
    ∷ 0
    ∷ 0
    ∷ []

-- `data[2]&0x80 == 0`
unfoldable pub is_request : Bytes → Bool
is_request msg = bit_and (get_or msg 2 0) 0x80 == 0

-- The bytes of a response that packs; one that does not is not sent.
abbrev pub packed : Outcome LengthError Bytes → Option Bytes
packed (ok out) = some out
packed (err e) = none

-- One turn of the loop of a connection: the frame to write, if the connection goes on.
pub data Turn : Type 0 where
  hang_up : Turn
  write_frame : Bytes → ℕ → Turn

-- The two bytes of length, and the message.
unfoldable pub frame : Bytes → Bytes
frame msg = put_u16 (length msg % 65536) ++ msg

-- `io.ReadFull`: the bytes, and what is left.
unfoldable pub read_full : ℕ → Bytes → Option (Bytes × Bytes)
read_full n stream = if leb n (length stream) then some (take n stream, drop n stream) else none

-- The length, and the message of that many bytes; none when the connection is to be closed.
unfoldable pub read_body : Option (Bytes × Bytes) → Option (Bytes × Bytes)
read_body none = none
read_body (some (len_buf, rest)) =
    let n = get_or len_buf 0 0 * 256 + get_or len_buf 1 0 in
    if ltb n 12 then none else read_full n rest

unfoldable pub read_message : Bytes → Option (Bytes × Bytes)
read_message stream = read_body (read_full 2 stream)

module _ ⦃u : GoRuntime⦄ (r : Resolver) where
  unfoldable pub reply_udp : Message → ℕ → Option Bytes × ℕ
  reply_udp req rotate =
      if not (bit_and req.header.flags flag_qr == 0)
      then (none, rotate)
      else let done = handle r req rotate in (packed (pack_udp done.resp).1, done.rotate)

  unfoldable pub after_parse_udp : Bytes → ℕ → Outcome MessageError Message → Option Bytes × ℕ
  after_parse_udp msg rotate (ok req) = reply_udp req rotate
  after_parse_udp msg rotate (err e) =
      (if leb 12 (length msg) && is_request msg then some (form_err msg) else none, rotate)

  -- `serveUDP`: the datagram that is sent back, and the handler's counter.
  unfoldable pub serve_udp : Bytes → ℕ → Option Bytes × ℕ
  serve_udp msg rotate = after_parse_udp msg rotate (parse_message msg)

  abbrev pub framed : Outcome LengthError Bytes → ℕ → Turn
  framed (ok out) rotate =
      if ltb 65535 (length out) then hang_up else write_frame (frame out) rotate
  framed (err e) rotate = hang_up

  unfoldable pub reply_tcp : Message → ℕ → Turn
  reply_tcp req rotate =
      if not (bit_and req.header.flags flag_qr == 0)
      then hang_up
      else let done = handle r req rotate in framed (pack done.resp).1 done.rotate

  unfoldable pub after_parse_tcp : Bytes → ℕ → Outcome MessageError Message → Turn
  after_parse_tcp msg rotate (ok req) = reply_tcp req rotate
  after_parse_tcp msg rotate (err e) =
      if is_request msg then write_frame (frame (form_err msg)) rotate else hang_up

  abbrev pub next_turn : Option (Bytes × Bytes) → ℕ → Turn × Bytes
  next_turn none rotate = (hang_up, [])
  next_turn (some (msg, rest)) rotate = (after_parse_tcp msg rotate (parse_message msg), rest)

  -- `tcpConnLoop`, with the rounds left: the frames written until the connection is closed. Each
  -- round takes fourteen bytes at least, so that the length of the stream is enough.
  unfoldable pub tcp_conn_loop : ℕ → Bytes → ℕ → List Bytes
  tcp_conn_loop zero stream rotate = []
  tcp_conn_loop (suc fuel) stream rotate =
      let turn = next_turn (read_message stream) rotate in
      elim turn.0 [
        | hang_up ↦ []
        | write_frame out rotate' ↦ out ∷ tcp_conn_loop fuel turn.1 rotate'
      ]

  unfoldable pub tcp_conn : Bytes → ℕ → List Bytes
  tcp_conn stream rotate = tcp_conn_loop (length stream) stream rotate
