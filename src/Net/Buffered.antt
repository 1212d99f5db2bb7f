-- ===== src/Net/Buffered.antt =====
-- `zemq_send` of src/epoll.c, with `zemq_get_buf` and `zemq_push_buf`. A session is under its lock
-- `spin_send` all the while. A copy that leaves its block, or is to or from NULL, is none.
pub mod Calls
pub mod Copies
pub mod Loss
pub mod Stream
mod Tests
pub mod Whole
use zinfo_tech.Base.{
  ℕ, ◌+◌, ◌-◌, Bool, true, false, Option, none, some, List, [], ◌++◌, ltb, leb, ◌&&◌, if◌then◌else◌,
}
use zinfo_tech.Net.{
  Memory, Reply, Outcome, done, try_again, insufficient, failed, waiting, Sent, sendn,
}

-- The fields of `zssn_t` for its buffers, and whether epoll reports when it can be written to.
pub record Session (A : Type 0) : Type 0 where
  pub recv_buf : Option (Memory A)
  pub recv_buf_len : ℕ
  pub send_buf : Option (Memory A)
  pub send_buf_len : ℕ
  pub poll_out : Bool

-- How a call of `zemq_send` ends.
pub record Ended (A : Type 0) : Type 0 where
  pub outcome : Outcome
  pub ssn : Session A
  pub wire : List A
  pub left : List Reply

-- `memcpy(dst + off, src, n)` and what `memmove(m, m + k, n)` leaves in the first `n` bytes
abbrev pub copied : {A : Type 0} → Memory A → ℕ → Memory A → ℕ → Memory A
copied dst off src n i = if leb off i && ltb i (off + n) then src (i - off) else dst i

abbrev pub moved : {A : Type 0} → Memory A → ℕ → Memory A
moved m k i = m (k + i)

module _ {A : Type 0} where
  -- `spare` is what the allocator of buffers gives, none for NULL.
  abbrev pub get_buf : Option (Memory A) → Session A → Bool → Session A
  get_buf spare ssn true = elim ssn.recv_buf [
    | none ↦ record ssn { recv_buf = spare }
    | some m ↦ ssn
  ]
  get_buf spare ssn false = elim ssn.send_buf [
    | none ↦ record ssn { send_buf = spare }
    | some m ↦ ssn
  ]

  abbrev pub push_buf : Session A → Bool → Session A
  push_buf ssn true = record ssn { recv_buf_len = 0; recv_buf = none }
  push_buf ssn false = record ssn { send_buf_len = 0; send_buf = none }

  abbrev pub end_call : Outcome → Session A → Sent A → Ended A
  end_call o ssn s = record { outcome = o; ssn = ssn; wire = s.wire; left = s.left }

-- A block of the allocator has `block` bytes; `buf_size` is the field of `zemq_t`.
module _ {A : Type 0} (block buf_size : ℕ) (spare : Option (Memory A)) (buf : Option (Memory A))
    (len : ℕ) where
  abbrev pub keep_rest : Memory A → Session A → Sent A → Option (Memory A) → Option (Ended A)
  keep_rest m ssn s none = none
  keep_rest m ssn s (some d) =
      if leb s.sended len && leb (len - s.sended) block
      then some (
          end_call try_again
            (record ssn {
              send_buf = some (copied d 0 m (len - s.sended));
              send_buf_len = len - s.sended;
              poll_out = true;
            })
            s)
      else none

  abbrev pub after_direct : Memory A → Session A → Sent A → Outcome → Option (Ended A)
  after_direct m ssn s try_again =
      keep_rest m (get_buf spare ssn false) s (get_buf spare ssn false).send_buf
  after_direct m ssn s o = some (end_call o ssn s)

  abbrev pub send_direct : Session A → List Reply → List A → Option (Memory A) → Option (Ended A)
  send_direct ssn rs wire none = some (record { outcome = done; ssn = ssn; wire = wire; left = rs })
  send_direct ssn rs wire (some m) = let s = sendn m len rs wire in after_direct m ssn s s.outcome

  abbrev pub append_buf : Memory A → Session A → Sent A → Option (Memory A) → Option (Ended A)
  append_buf p ssn s none = some (end_call try_again ssn s)
  append_buf p ssn s (some m) =
      if leb (ssn.send_buf_len + len) block
      then some (
          end_call try_again
            (record ssn {
              send_buf = some (copied p ssn.send_buf_len m len);
              send_buf_len = ssn.send_buf_len + len;
            })
            s)
      else none

  abbrev pub pull_out : Memory A → Session A → Sent A → Option (Ended A)
  pull_out p ssn s =
      if ltb buf_size (len + ssn.send_buf_len)
      then some (end_call insufficient ssn s)
      else append_buf p ssn s buf

  abbrev pub after_flush : Memory A → Session A → Sent A → Outcome → Option (Ended A)
  after_flush p ssn s done =
      send_direct (record (push_buf ssn false) { poll_out = false }) s.left s.wire buf
  after_flush p ssn s try_again =
      if leb s.sended ssn.send_buf_len
      then pull_out (moved p s.sended)
          (record ssn {
            send_buf = some (moved p s.sended);
            send_buf_len = ssn.send_buf_len - s.sended;
          })
          s
      else none
  after_flush p ssn s o = some (end_call o ssn s)

  abbrev pub flush : Session A → List Reply → List A → Option (Memory A) → Option (Ended A)
  flush ssn rs wire none = send_direct ssn rs wire buf
  flush ssn rs wire (some p) =
      let s = sendn p ssn.send_buf_len rs wire in after_flush p ssn s s.outcome

  unfoldable pub zemq_send : Session A → List Reply → List A → Option (Ended A)
  zemq_send ssn rs wire = flush ssn rs wire ssn.send_buf
