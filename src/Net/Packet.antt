-- ===== src/Net/Packet.antt =====
-- `zrecv_packet` of src/socket.c, which takes packets with a mark at both ends out of a stream.
pub mod Parts
mod Tests
use zinfo_tech.Base.{
  ℕ, zero, suc, ◌+◌, ◌-◌, Bool, true, false, Option, none, some, ltb, ◌==◌, if◌then◌else◌,
}
use zinfo_tech.Base.Bytes.{Memory, least}
use zinfo_tech.Net.Buffered.{copied, moved}

-- What `zrecv` gives: as many of the bytes as the buffer takes, the end of the stream, or an error.
pub data Received (A : Type 0) : Type 0 where
  arrived : Memory A → ℕ → Received A
  closed try_again failed : Received A

-- The length of a packet, or what `zrecv` returned, or `ZAGAIN` when the packet has no end.
pub data Answer : Type 0 where
  packet : ℕ → Answer
  ended none_yet broke : Answer

-- The arguments `buf`, `offset` and `len`, which the caller keeps between the calls.
pub record Stream (A : Type 0) : Type 0 where
  pub buf : Memory A
  pub offset : ℕ
  pub len : ℕ

-- `memmove(buf, buf + p, n)`: the bytes behind the `n` moved ones stay.
abbrev pub moved_head : {A : Type 0} → Memory A → ℕ → ℕ → Memory A
moved_head buf p n = copied buf 0 (moved buf p) n

module _ {A : Type 0} (marks : A → Bool) where
  -- The first mark at `i` or behind it, among so many bytes.
  unfoldable pub find_mark : ℕ → Memory A → ℕ → Option ℕ
  find_mark zero buf i = none
  find_mark (suc n) buf i =
      let rest = find_mark n buf (suc i) in if marks (buf i) then some i else rest

  module _ (maxlen : ℕ) where
    -- The search for the end also looks at the byte behind the last one.
    abbrev pub after_recv : Stream A → Option ℕ → Answer × Stream A
    after_recv s none = (none_yet, record s { offset = s.len })
    after_recv s (some p) = (packet (p + 1), record s { offset = p + 1 })

    abbrev pub recv_end : Stream A → Answer × Stream A
    recv_end s = after_recv s (find_mark (s.len - s.offset) s.buf (s.offset + 1))

    abbrev pub receive : Stream A → Received A → Answer × Stream A
    receive s (arrived d n) =
        let k = least n (maxlen - s.len) in
        if k == 0
        then (ended, s)
        else recv_end (record s { buf = copied s.buf s.len d k; len = s.len + k })
    receive s closed = (ended, s)
    receive s try_again = (none_yet, s)
    receive s failed = (broke, s)

    abbrev pub reset : Stream A → Stream A
    reset s = record s { offset = 0; len = 0 }

    -- The packet that stands in the buffer already.
    abbrev pub next_packet : Stream A → Received A → Option ℕ → Answer × Stream A
    next_packet s r none = receive (reset s) r
    next_packet s r (some p) = (packet (p + 1), record s { offset = p + 1 })

    -- What is left of the last packet goes, up to the next mark.
    abbrev pub drop_old : Stream A → Received A → Option ℕ → Answer × Stream A
    drop_old s r none = receive (reset s) r
    drop_old s r (some p) =
        let t = record s { buf = moved_head s.buf p (s.len - p); offset = 0; len = s.len - p } in
        next_packet t r (find_mark (t.len - 1) t.buf 1)

    -- An offset behind the bytes that were read makes the search leave the buffer.
    unfoldable pub zrecv_packet : Stream A → Received A → Option (Answer × Stream A)
    zrecv_packet s r =
        if s.offset == 0
        then some (receive s r)
        else (if s.offset == s.len
            then some (receive (reset s) r)
            else (if ltb s.len s.offset
                then none
                else some (drop_old s r (find_mark (s.len - s.offset) s.buf s.offset))))
