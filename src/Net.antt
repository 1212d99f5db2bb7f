-- ===== src/Net.antt =====
-- The sockets of src/socket.c and the sessions of src/epoll.c: sending the bytes of a buffer, packets
-- out of a stream, and the threads that serve sessions. What the kernel answers to the calls of `send`
-- is a list, one answer for each call, in order.
pub mod Packet
pub mod Send
pub mod Buffered
pub mod Sessions
mod Tests
pub use zinfo_tech.Base.Bytes.{Memory, bytes, least}
use zinfo_tech.Base.{
  ℕ, zero, suc, ◌+◌, ◌-◌, Bool, true, false, Option, none, some, List, [], ◌∷◌, ◌++◌, ltb, ◌==◌,
  if◌then◌else◌,
}

-- `room k` takes as many of the bytes as there are, `k` at most. The others are -1 with `EAGAIN`
-- (the same number as `EWOULDBLOCK`), with `EINTR`, and with any other error.
pub data Reply : Type 0 where
  room : ℕ → Reply
  again interrupted broken : Reply

-- How a call ends: `ZEOK`, `ZAGAIN`, `ZEMEM_INSUFFICIENT`, another error; or it is not ended when
-- the kernel has given all the answers.
pub data Outcome : Type 0 where
  done try_again insufficient failed waiting : Outcome

-- `wire` is no part of the program: all the bytes that the kernel took.
pub record Sent (A : Type 0) : Type 0 where
  pub outcome : Outcome
  pub sended : ℕ
  pub wire : List A
  pub left : List Reply

abbrev pub stop : {A : Type 0} → Outcome → ℕ → List A → List Reply → Sent A
stop o n w rs = record { outcome = o; sended = n; wire = w; left = rs }

module _ {A : Type 0} (buf : Memory A) (len : ℕ) where
  -- The loop of `zsend`, which returns `len` when it is done.
  unfoldable pub zsend_loop : List Reply → ℕ → List A → Sent A
  zsend_loop [] sended wire = stop (if sended == len then done else waiting) sended wire []
  zsend_loop (room k ∷ rs) sended wire =
      let n = least k (len - sended) in
      let rest = zsend_loop rs (sended + n) (wire ++ bytes buf sended n) in
      if sended == len then stop done sended wire (room k ∷ rs) else rest
  zsend_loop (again ∷ rs) sended wire =
      let rest = zsend_loop rs sended wire in
      if sended == len then stop done sended wire (again ∷ rs) else rest
  zsend_loop (interrupted ∷ rs) sended wire =
      let rest = zsend_loop rs sended wire in
      if sended == len then stop done sended wire (interrupted ∷ rs) else rest
  zsend_loop (broken ∷ rs) sended wire =
      if sended == len then stop done sended wire (broken ∷ rs) else stop failed sended wire rs

  abbrev pub zsend : List Reply → List A → Sent A
  zsend rs wire = zsend_loop rs 0 wire

  -- The loop of `zemq_sendn`, which asks for all of `len` in every round.
  unfoldable pub sendn_loop : List Reply → ℕ → List A → Sent A
  sendn_loop [] sended wire = stop (if sended == len then done else waiting) sended wire []
  sendn_loop (room k ∷ rs) sended wire =
      let n = least k len in
      let rest = sendn_loop rs (sended + n) (wire ++ bytes buf sended n) in
      if sended == len then stop done sended wire (room k ∷ rs) else rest
  sendn_loop (again ∷ rs) sended wire =
      if sended == len then stop done sended wire (again ∷ rs) else stop try_again sended wire rs
  sendn_loop (interrupted ∷ rs) sended wire =
      let rest = sendn_loop rs sended wire in
      if sended == len then stop done sended wire (interrupted ∷ rs) else rest
  sendn_loop (broken ∷ rs) sended wire =
      if sended == len then stop done sended wire (broken ∷ rs) else stop failed sended wire rs

  abbrev pub sendn : List Reply → List A → Sent A
  sendn rs wire = sendn_loop rs 0 wire
