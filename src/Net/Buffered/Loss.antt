-- ===== src/Net/Buffered/Loss.antt =====
-- What `zemq_sendn` and `zemq_send` do when the kernel takes a part of the bytes.
use zinfo_tech.Base.{
  ℕ, zero, suc, ◌+◌, ◌-◌, ◌≤◌, ◌<◌, ◌≡◌, refl, sym, ap, ◌∙◌, ◌≢◌, Option, none, some, List, [], ◌∷◌,
  ◌++◌, append-nil, append_assoc, arith, ◌==◌, Bool, true, false, by_test, ◌&&◌, leb,
}
use mathlib.Core.Path.{subst}
use zinfo_tech.Net.{
  Reply, room, again, interrupted, broken, Memory, bytes, least, Outcome, done, failed, waiting,
  try_again, Sent, stop, sendn_loop, sendn,
}
use zinfo_tech.Base.Bytes.{bytes-next}
use zinfo_tech.Net.Buffered.{Session, Ended, copied, end_call, zemq_send}
use zinfo_tech.Net.Buffered.Copies.{inside-copied}
use zinfo_tech.Net.Buffered.Stream.{pending}

module _ {A : Type 0} (buf : Memory A) (size : ℕ) where
  -- The bytes on the wire go on from `wire`, and the call is not done.
  pub record Lost (wire : List A) (r : Sent A) : Type 0 where
    pub not_done : r.outcome ≢ done
    pub more : List A
    pub goes_on : r.wire ≡ wire ++ more

  lost :
      (o : Outcome) (s : ℕ) (wire : List A) (rs : List Reply)
      → o ≢ done
      → Lost wire (stop o s wire rs)
  lost o s wire rs h = record { not_done = h; more = []; goes_on = sym (append-nil wire) }

  Lost-longer : (wire part : List A) (r : Sent A) → Lost (wire ++ part) r → Lost wire r
  Lost-longer wire part r h = record {
    not_done = h.not_done;
    more = part ++ h.more;
    goes_on = h.goes_on ∙ append_assoc wire part h.more;
  }

  sendn_loop-Lost :
      (rs : List Reply) (s : ℕ) (wire : List A)
      → size < s
      → Lost wire (sendn_loop buf size rs s wire)
  unfolding sendn_loop
  sendn_loop-Lost [] s wire h =
      let t : (s == size) ≡ false = ground arith in rw t (lost waiting s wire [] (ground arith))
  sendn_loop-Lost (room k ∷ rs) s wire h =
      by_test (Lost wire) (s == size) _ _ (λ t. absurd (ground arith))
        (λ t. Lost-longer wire (bytes buf s (least k size)) _ (
          sendn_loop-Lost rs (s + least k size) (wire ++ bytes buf s (least k size)) (omega arith)))
  sendn_loop-Lost (again ∷ rs) s wire h =
      let t : (s == size) ≡ false = ground arith in rw t (lost try_again s wire rs (ground arith))
  sendn_loop-Lost (interrupted ∷ rs) s wire h =
      by_test (Lost wire) (s == size) _ _ (λ t. absurd (ground arith))
        (λ t. sendn_loop-Lost rs s wire h)
  sendn_loop-Lost (broken ∷ rs) s wire h =
      let t : (s == size) ≡ false = ground arith in rw t (lost failed s wire rs (ground arith))

  -- After the kernel took `k` bytes, fewer than asked for, and then has room for `size` bytes, it gets
  -- bytes from behind the end of the buffer, and `zemq_sendn` never returns `ZEOK`.
  pub sendn_overruns :
      (k j : ℕ) (rs : List Reply) (w : List A)
      → 0 < k
      → k < size
      → size ≤ j
      → Lost (w ++ bytes buf 0 (k + size)) (sendn buf size (room k ∷ room j ∷ rs) w)
  unfolding sendn_loop
  sendn_overruns k j rs w hk lt hj =
      let W = w ++ bytes buf 0 (k + size) in
      let e : least k size ≡ k = ground arith in
      let e' : least j size ≡ size = ground arith in
      by_test (Lost W) (0 == size) _ _ (λ t. absurd (ground arith))
        (λ t. rw e (
          by_test (Lost W) ((0 + k) == size) _ _ (λ t'. absurd (ground arith))
            (λ t'. rw e' (
              subst
                (λ v. Lost v (
                  sendn_loop buf size rs (0 + k + size)
                    ((w ++ bytes buf 0 k) ++ bytes buf (0 + k) size)))
                (bytes-next buf w (w ++ bytes buf 0 k) (0 + k) size
                    (ap (λ i. w ++ bytes buf 0 i) (omega arith))
                  ∙ ap (λ i. w ++ bytes buf 0 i) (omega arith))
                (sendn_loop-Lost rs (0 + k + size) _ (omega arith))))))

bytes-first :
    {A : Type 0} (m : Memory A) (o p n : ℕ) → 0 < n → bytes m o n ≡ bytes m p n → m o ≡ m p
bytes-first m o p zero h e = absurd (omega arith)
bytes-first m o p (suc n) h e = cc (e)

module _ {A : Type 0} (block buf_size : ℕ) (d m : Memory A) (len : ℕ) where
  -- The state after a partial send.
  pub record Repeats (k : ℕ) (w : List A) (o : Option (Ended A)) : Type 0 where
    pub ended : Ended A
    pub returned : o ≡ some ended
    pub code : ended.outcome ≡ try_again
    pub wire_has : ended.wire ≡ w ++ bytes m 0 k
    pub head_kept : pending ended.ssn ≡ bytes m 0 (len - k)
    pub rest_lost : m 0 ≢ m k → pending ended.ssn ≢ bytes m k (len - k)

  sendn_partial :
      (k : ℕ) (rs : List Reply) (w : List A)
      → 0 < k
      → k < len
      → sendn m len (room k ∷ again ∷ rs) w ≡ stop try_again k (w ++ bytes m 0 k) rs
  unfolding sendn_loop
  sendn_partial k rs w hk lt =
      let t : (0 == len) ≡ false = ground arith in
      let e : least k len ≡ k = ground arith in
      let t' : ((0 + k) == len) ≡ false = ground arith in
      rw (t, e, t') (ap (λ i. stop try_again i (w ++ bytes m 0 k) rs) (omega arith))

  module _ (rb : Option (Memory A)) (rl n : ℕ) (po : Bool) where
    -- A session with no bytes that wait.
    abbrev pub clear : Session A
    clear = record {
      recv_buf = rb;
      recv_buf_len = rl;
      send_buf = none;
      send_buf_len = n;
      poll_out = po;
    }

    kept :
        (k : ℕ) (rs : List Reply) (w : List A)
        → 0 < k
        → k < len
        → Repeats k w (
            some (
              end_call try_again
                (record clear {
                  send_buf = some (copied d 0 m (len - k));
                  send_buf_len = len - k;
                  poll_out = true;
                })
                (stop try_again k (w ++ bytes m 0 k) rs)))
    kept k rs w hk lt = record {
      ended = _;
      returned = refl;
      code = refl;
      wire_has = refl;
      head_kept = inside-copied d m 0 (len - k);
      rest_lost = λ ne e.
          ne (bytes-first m 0 k (len - k) (omega arith) (sym (inside-copied d m 0 (len - k)) ∙ e));
    }

    -- When the kernel takes the first `k` bytes only and is full then, `zemq_send` returns `ZAGAIN` and the
    -- session keeps the first `len - k` bytes of the buffer for later: where the buffer's first byte is
    -- not that at `k`, these are not the bytes that were left.
    pub zemq_send-Repeats :
        (k : ℕ) (rs : List Reply) (w : List A)
        → 0 < k
        → k < len
        → len ≤ block
        → Repeats k w (zemq_send block buf_size (some d) (some m) len clear (room k ∷ again ∷ rs) w)
    unfolding zemq_send
    zemq_send-Repeats k rs w hk lt hb = rw (sendn_partial k rs w hk lt) (
        by_test (Repeats k w) (leb k len && leb (len - k) block) _ _ (λ t. kept k rs w hk lt)
          (λ t. absurd (ground arith)))
