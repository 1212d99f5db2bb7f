-- ===== src/Net/Buffered/Stream.antt =====
-- The stream of bytes that calls of `zemq_send` make, while the kernel takes all or nothing.
use zinfo_tech.Base.{
  ℕ, ◌+◌, ◌-◌, ◌≤◌, ◌≡◌, refl, sym, ap, ◌∙◌, Option, none, some, List, [], ◌++◌, append-nil,
  append_assoc, arith, ◌&&◌, leb, ltb, Bool, false,
}
use zinfo_tech.Base.{by_test}
use zinfo_tech.Net.{
  Reply, Memory, bytes, Outcome, done, try_again, insufficient, failed, waiting, Sent, stop, sendn,
}
use zinfo_tech.Net.Buffered.Whole.{
  IsRoomy, AllOrNothing, all_sent, retry, broke, blocked, sendn-AllOrNothing,
}
use zinfo_tech.Net.Buffered.Copies.{bytes_same, inside-copied, bytes-copied}
use zinfo_tech.Net.Buffered.{
  Session, Ended, copied, moved, end_call, after_direct, send_direct, append_buf, pull_out,
  after_flush, flush, zemq_send,
}

-- The bytes that wait in the session for the kernel to have room.
abbrev pub waits_in : {A : Type 0} → ℕ → Option (Memory A) → List A
waits_in n none = []
waits_in n (some p) = bytes p 0 n

abbrev pub pending : {A : Type 0} → Session A → List A
pending ssn = waits_in ssn.send_buf_len ssn.send_buf

-- What a call takes over from its caller.
abbrev pub accepted : {A : Type 0} → Option (Memory A) → ℕ → Outcome → List A
accepted none len o = []
accepted (some m) len done = bytes m 0 len
accepted (some m) len try_again = bytes m 0 len
accepted (some m) len o = []

module _ {A : Type 0} (len : ℕ) where
  failed-nothing : (b : Option (Memory A)) → accepted b len failed ≡ []
  failed-nothing none = refl
  failed-nothing (some m) = refl

  waiting-nothing : (b : Option (Memory A)) → accepted b len waiting ≡ []
  waiting-nothing none = refl
  waiting-nothing (some m) = refl

  insufficient-nothing : (b : Option (Memory A)) → accepted b len insufficient ≡ []
  insufficient-nothing none = refl
  insufficient-nothing (some m) = refl

module _ {A : Type 0} (block buf_size : ℕ) (d : Memory A) (buf : Option (Memory A)) (len : ℕ) where
  pub record InOrder (ssn : Session A) (wire : List A) (e : Ended A) : Type 0 where
    pub kept : e.wire ++ pending e.ssn ≡ (wire ++ pending ssn) ++ accepted buf len e.outcome
    pub fits : e.ssn.send_buf_len ≤ buf_size

  -- The call returns, and as `InOrder` says.
  abbrev pub SendsInOrder : Session A → List A → Option (Ended A) → Type 0
  SendsInOrder ssn wire none = ⊥
  SendsInOrder ssn wire (some e) = InOrder ssn wire e

  unchanged :
      (ssn : Session A) (wire : List A) (o : Outcome) (s : Sent A)
      → s.wire ≡ wire
      → accepted buf len o ≡ []
      → ssn.send_buf_len ≤ buf_size
      → InOrder ssn wire (end_call o ssn s)
  unchanged ssn wire o s e r fits = record {
    kept =
        ap (λ t. t ++ pending ssn) e
        ∙ sym (append-nil (wire ++ pending ssn))
        ∙ ap (λ t. (wire ++ pending ssn) ++ t) (sym r);
    fits = fits;
  }

  SendsInOrder-from :
      (ssn ssn' : Session A) (wire wire' : List A) (o : Option (Ended A))
      → wire' ++ pending ssn' ≡ wire ++ pending ssn
      → SendsInOrder ssn' wire' o
      → SendsInOrder ssn wire o
  SendsInOrder-from ssn ssn' wire wire' none e h = h
  SendsInOrder-from ssn ssn' wire wire' (some r) e h = record {
    kept = h.kept ∙ ap (λ t. t ++ accepted buf len r.outcome) e;
    fits = h.fits;
  }

  module _ (fit : len ≤ buf_size) (room_for : buf_size ≤ block) where
    module _ (rb : Option (Memory A)) (rl : ℕ) (po : Bool) where
      abbrev session : Option (Memory A) → ℕ → Session A
      session sb n = record {
        recv_buf = rb;
        recv_buf_len = rl;
        send_buf = sb;
        send_buf_len = n;
        poll_out = po;
      }

      module _ (wire : List A) (n : ℕ) (small : n ≤ buf_size) where
        kept_rest :
            (m : Memory A)
            → wire ++ bytes (copied d 0 m (len - 0)) 0 (len - 0) ≡ (wire ++ []) ++ bytes m 0 len
        kept_rest m =
            ap (λ t. wire ++ t) (inside-copied d m 0 (len - 0))
            ∙ ap (λ t. wire ++ bytes m 0 t) (omega arith)
            ∙ ap (λ t. t ++ bytes m 0 len) (sym (append-nil wire))

        after_direct-InOrder :
            (m : Memory A) (s : Sent A)
            → buf ≡ some m
            → AllOrNothing buf_size m len wire s
            → SendsInOrder
                (session none n)
                wire
                (after_direct block buf_size (some d) buf len m (session none n) s s.outcome)
        after_direct-InOrder m s eb (all_sent k w rs e roomy) = rw eb (record {
          kept = append-nil w ∙ e ∙ ap (λ t. t ++ bytes m 0 len) (sym (append-nil wire));
          fits = small;
        })
        after_direct-InOrder m s eb (retry rs) =
            by_test (SendsInOrder (session none n) wire) (leb 0 len && leb (len - 0) block) _ _
              (λ t. rw eb (record { kept = kept_rest m; fits = omega arith }))
              (λ t. absurd (ground arith))
        after_direct-InOrder m s eb (broke rs) =
            unchanged (session none n) wire failed (stop failed 0 wire rs) refl
              (failed-nothing len buf) small
        after_direct-InOrder m s eb (blocked rs) =
            unchanged (session none n) wire waiting (stop waiting 0 wire rs) refl
              (waiting-nothing len buf) small

        direct-InOrder :
            (rs : List Reply) (b : Option (Memory A))
            → buf ≡ b
            → IsRoomy buf_size rs
            → SendsInOrder
                (session none n)
                wire
                (send_direct block buf_size (some d) buf len (session none n) rs wire b)
        direct-InOrder rs none eb roomy =
            unchanged (session none n) wire done (stop done 0 wire rs) refl
              (ap (λ t. accepted t len done) eb) small
        direct-InOrder rs (some m) eb roomy =
            after_direct-InOrder m (sendn m len rs wire) eb
              (sendn-AllOrNothing buf_size m len wire rs fit roomy)

        module _ (p : Memory A) where
          append-InOrder :
              (s : Sent A) (b : Option (Memory A))
              → s.wire ≡ wire
              → buf ≡ b
              → n + len ≤ buf_size
              → SendsInOrder
                  (session (some p) n)
                  wire
                  (append_buf block buf_size (some d) buf len p (session (some p) n) s b)
          append-InOrder s none e eb le =
              unchanged (session (some p) n) wire try_again s e
                (ap (λ t. accepted t len try_again) eb) small
          append-InOrder s (some m) e eb le =
              by_test (SendsInOrder (session (some p) n) wire) (leb (n + len) block) _ _
                (λ t. rw eb (record {
                  kept =
                      ap (λ t. t ++ bytes (copied p n m len) 0 (n + len)) e
                      ∙ ap (λ t. wire ++ t) (bytes-copied p m n len)
                      ∙ sym (append_assoc wire (bytes p 0 n) (bytes m 0 len));
                  fits = le;
                }))
                (λ t. absurd (ground arith))

          pull_out-InOrder :
              (s : Sent A)
              → s.wire ≡ wire
              → SendsInOrder
                  (session (some p) n)
                  wire
                  (pull_out block buf_size (some d) buf len p (session (some p) n) s)
          pull_out-InOrder s e =
              by_test (SendsInOrder (session (some p) n) wire) (ltb buf_size (len + n)) _ _
                (λ t.
                  unchanged (session (some p) n) wire insufficient s e
                    (insufficient-nothing len buf) small)
                (λ t. append-InOrder s buf e refl (ground arith))

    module _ (rb : Option (Memory A)) (rl : ℕ) (po : Bool) (wire : List A) (n : ℕ)
        (small : n ≤ buf_size) where
      after_flush-InOrder :
          (p : Memory A) (s : Sent A)
          → AllOrNothing buf_size p n wire s
          → SendsInOrder (session rb rl po (some p) n) wire (
              after_flush block buf_size
                (some d)
                buf
                len
                p
                (session rb rl po (some p) n)
                s
                s.outcome)
      after_flush-InOrder p s (all_sent k w rs e roomy) =
          SendsInOrder-from (session rb rl po (some p) n) (session rb rl false none 0) wire w _
            (append-nil w ∙ e) (direct-InOrder rb rl false w 0 (omega arith) rs buf refl roomy)
      after_flush-InOrder p s (retry rs) =
          by_test (SendsInOrder (session rb rl po (some p) n) wire) (leb 0 n) _ _
            (λ t.
              SendsInOrder-from (session rb rl po (some p) n)
                (session rb rl po (some (moved p 0)) (n - 0)) wire wire _
                (ap (λ t. wire ++ t)
                  (bytes_same (moved p 0) p 0 0 (n - 0) (λ i j k lt e e'. ground arith)
                    ∙ ap (λ t. bytes p 0 t) (omega arith)))
                (pull_out-InOrder rb rl po wire (n - 0) (omega arith) (moved p 0) s refl))
            (λ t. absurd (ground arith))
      after_flush-InOrder p s (broke rs) =
          unchanged (session rb rl po (some p) n) wire failed s refl (failed-nothing len buf) small
      after_flush-InOrder p s (blocked rs) =
          unchanged (session rb rl po (some p) n) wire waiting s refl (waiting-nothing len buf)
            small

      flush-InOrder :
          (rs : List Reply) (b : Option (Memory A))
          → IsRoomy buf_size rs
          → SendsInOrder
              (session rb rl po b n)
              wire
              (flush block buf_size (some d) buf len (session rb rl po b n) rs wire b)
      flush-InOrder rs none roomy = direct-InOrder rb rl po wire n small rs buf refl roomy
      flush-InOrder rs (some p) roomy =
          after_flush-InOrder p (sendn p n rs wire)
            (sendn-AllOrNothing buf_size p n wire rs small roomy)

    -- While the kernel takes all or nothing, `zemq_send` ends without a fault, and what was sent with what
    -- waits in the session is what there was before, followed by the new bytes: all of them when it
    -- returns `ZEOK` or `ZAGAIN`, and none of them otherwise.
    pub zemq_send-SendsInOrder :
        (ssn : Session A) (rs : List Reply) (wire : List A)
        → ssn.send_buf_len ≤ buf_size
        → IsRoomy buf_size rs
        → SendsInOrder ssn wire (zemq_send block buf_size (some d) buf len ssn rs wire)
    unfolding zemq_send
    zemq_send-SendsInOrder ssn rs wire small roomy =
        flush-InOrder ssn.recv_buf ssn.recv_buf_len ssn.poll_out wire ssn.send_buf_len small rs
          ssn.send_buf roomy
