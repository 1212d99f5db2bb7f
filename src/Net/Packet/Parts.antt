-- ===== src/Net/Packet/Parts.antt =====
-- What `zrecv_packet` does with whole packets, and with parts of them.
use zinfo_tech.Base.{
  ℕ, zero, suc, ◌+◌, ◌-◌, ◌≤◌, ◌<◌, ◌≡◌, refl, sym, ap, ◌∙◌, Bool, true, false, none, some, ltb,
  ◌==◌, arith,
}
use native.Mathlib.Decide.{dec_lt}
use zinfo_tech.Base.{leb, ◌&&◌}
use zinfo_tech.Base.Bytes.{Memory, least}
use zinfo_tech.Net.Buffered.{copied, moved}
use zinfo_tech.Net.Packet.{
  Received, arrived, packet, none_yet, Stream, find_mark, moved_head, zrecv_packet,
}

module _ {A : Type 0} (marks : A → Bool) where
  find_mark-found :
      (n : ℕ) (buf : Memory A) (i k j : ℕ)
      → i + k ≡ j
      → k < n
      → ((d : ℕ) → i ≤ d → d < j → marks (buf d) ≡ false)
      → marks (buf j) ≡ true
      → find_mark marks n buf i ≡ some j
  unfolding find_mark
  find_mark-found zero buf i k j e lt clear m = absurd (omega arith)
  find_mark-found (suc n) buf i zero j e lt clear m =
      let ij : j ≡ i = omega arith in
      let m' : marks (buf i) ≡ true = ap (λ d. marks (buf d)) (sym ij) ∙ m in
      rw m' (ap (λ d. some d) (sym ij))
  find_mark-found (suc n) buf i (suc k) j e lt clear m = rw (clear i (omega arith) (omega arith)) (
      find_mark-found n buf (suc i) k j (omega arith) (omega arith)
        (λ d a b. clear d (omega arith) b) m)

  find_mark-none :
      (n : ℕ) (buf : Memory A) (i : ℕ)
      → ((d : ℕ) → i ≤ d → d < i + n → marks (buf d) ≡ false)
      → find_mark marks n buf i ≡ none
  unfolding find_mark
  find_mark-none zero buf i clear = refl
  find_mark-none (suc n) buf i clear =
      rw (clear i (omega arith) (omega arith))
        (find_mark-none n buf (suc i) (λ d a b. clear d (omega arith) (omega arith)))

  module _ (maxlen : ℕ) where
    marks-copied : (buf d : Memory A) (n i : ℕ) → i < n → marks (copied buf 0 d n i) ≡ marks (d i)
    marks-copied buf d n i lt =
        let t : (leb 0 i && ltb i (0 + n)) ≡ true = ground arith in
        let z : i - 0 ≡ i = omega arith in rw (t, z) refl

    none_marked :
        (buf d : Memory A) (n : ℕ)
        → ((i : ℕ) → 0 < i → i < n → marks (d i) ≡ false)
        → marks (buf n) ≡ false
        → (i : ℕ) → 0 < i
        → i ≤ n
        → marks (copied buf 0 d n i) ≡ false
    none_marked buf d n clear stale i pos le = elim (dec_lt i n) [
      | yes lt ↦ marks-copied buf d n i lt ∙ clear i pos lt
      | no ge ↦
          let t : (leb 0 i && ltb i (0 + n)) ≡ false = ground arith in
          let z : i ≡ n = omega arith in rw t (ap (λ j. marks (buf j)) z ∙ stale)
    ]

    -- When the bytes that come into an empty buffer have a mark behind the first byte, the packet up to
    -- the first such mark is the answer, and the bytes behind it stay for the next call.
    pub first_packet-found :
        (buf d : Memory A) (n p : ℕ)
        → 0 < p
        → p < n
        → n ≤ maxlen
        → marks (d p) ≡ true
        → ((i : ℕ) → 0 < i → i < p → marks (d i) ≡ false)
        → zrecv_packet marks maxlen (record { buf = buf; offset = 0; len = 0 }) (arrived d n)
          ≡ some (packet (p + 1), record { buf = copied buf 0 d n; offset = p + 1; len = n })
    unfolding zrecv_packet
    first_packet-found buf d n p hp lt le last inside =
        let e : least n (maxlen - 0) ≡ n = ground arith in
        let t : (n == 0) ≡ false = ground arith in
        let z : 0 + n ≡ n = omega arith in
        let z' : n - 0 ≡ n = omega arith in
        let f : find_mark marks n (copied buf 0 d n) 1 ≡ some p =
          find_mark-found n (copied buf 0 d n) 1 (p - 1) p (omega arith) (omega arith)
            (λ i a b. marks-copied buf d n i (omega arith) ∙ inside i (omega arith) b)
            (marks-copied buf d n p lt ∙ last) in
        rw (e, t, z, z', f) refl

    -- When a whole packet stands in the buffer behind the last one, between a mark and the next mark, it
    -- is the answer, it is moved to the start of the buffer with the bytes behind it that were received,
    -- the rest of the buffer stays, and nothing is received.
    pub next_packet-found :
        (s : Stream A) (k : ℕ) (r : Received A)
        → 0 < s.offset
        → 0 < k
        → s.offset + k < s.len
        → marks (s.buf s.offset) ≡ true
        → marks (s.buf (s.offset + k)) ≡ true
        → ((d : ℕ) → s.offset < d → d < s.offset + k → marks (s.buf d) ≡ false)
        → zrecv_packet marks maxlen s r
          ≡ some (
            packet (k + 1),
            record {
              buf = moved_head s.buf s.offset (s.len - s.offset);
              offset = k + 1;
              len = s.len - s.offset;
            },
          )
    unfolding zrecv_packet
    next_packet-found s k r ho hk fit first last inside =
        let t1 : (s.offset == 0) ≡ false = ground arith in
        let t2 : (s.offset == s.len) ≡ false = ground arith in
        let t3 : ltb s.len s.offset ≡ false = ground arith in
        let f1 : find_mark marks (s.len - s.offset) s.buf s.offset ≡ some s.offset =
          find_mark-found (s.len - s.offset) s.buf s.offset 0 s.offset (omega arith) (omega arith)
            (λ d a b. absurd (omega arith)) first in
        let f2 : find_mark marks (s.len - s.offset - 1)
              (moved_head s.buf s.offset (s.len - s.offset)) 1
            ≡ some k =
          find_mark-found (s.len - s.offset - 1) (moved_head s.buf s.offset (s.len - s.offset)) 1
            (k - 1) k (omega arith) (omega arith)
            (λ d a b.
              marks-copied s.buf (moved s.buf s.offset) (s.len - s.offset) d (omega arith)
              ∙ inside (s.offset + d) (omega arith) (omega arith))
            (marks-copied s.buf (moved s.buf s.offset) (s.len - s.offset) k (omega arith) ∙ last) in
        rw (t1, t2, t3, f1, f2) refl

    first_part :
        (buf d : Memory A) (n : ℕ)
        → 0 < n
        → n ≤ maxlen
        → ((i : ℕ) → 0 < i → i < n → marks (d i) ≡ false)
        → marks (buf n) ≡ false
        → zrecv_packet marks maxlen (record { buf = buf; offset = 0; len = 0 }) (arrived d n)
          ≡ some (none_yet, record { buf = copied buf 0 d n; offset = n; len = n })
    unfolding zrecv_packet
    first_part buf d n hn le clear stale =
        let e : least n (maxlen - 0) ≡ n = ground arith in
        let t : (n == 0) ≡ false = ground arith in
        let z : 0 + n ≡ n = omega arith in
        let z' : n - 0 ≡ n = omega arith in
        let f : find_mark marks n (copied buf 0 d n) 1 ≡ none =
          find_mark-none n (copied buf 0 d n) 1
            (λ i a b. none_marked buf d n clear stale i (omega arith) (omega arith)) in
        rw (e, t, z, z', f) refl

    -- A packet that comes in two parts is lost: when the bytes that come into an empty buffer have no
    -- mark behind the first byte, nor has the byte behind them, the answer is `ZAGAIN`, and the next call
    -- does what it would do if none of them had come.
    pub split_lost :
        (buf d : Memory A) (n : ℕ) (r : Received A)
        → 0 < n
        → n ≤ maxlen
        → ((i : ℕ) → 0 < i → i < n → marks (d i) ≡ false)
        → marks (buf n) ≡ false
        → (s : Stream A) × (zrecv_packet marks maxlen
              (record { buf = buf; offset = 0; len = 0 })
              (arrived d n)
            ≡ some (none_yet, s))
          × (zrecv_packet marks maxlen s r
              ≡ zrecv_packet marks maxlen (record { buf = s.buf; offset = 0; len = 0 }) r)
    unfolding zrecv_packet
    split_lost buf d n r hn le clear stale =
        let t : (n == 0) ≡ false = ground arith in
        let t' : (n == n) ≡ true = ground arith in
        (
          record { buf = copied buf 0 d n; offset = n; len = n },
          first_part buf d n hn le clear stale,
          rw (t, t') refl,
        )
