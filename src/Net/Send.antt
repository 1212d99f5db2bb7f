-- ===== src/Net/Send.antt =====
-- `zsend` of src/socket.c against the bytes of its buffer.
use zinfo_tech.Base.{
  ℕ, ◌+◌, ◌-◌, ◌≤◌, ◌≡◌, refl, sym, ap, ◌∙◌, ◌↔◌, ◌≢◌, List, [], ◌∷◌, ◌++◌, append-nil, arith, ◌==◌,
  true, false,
}
use zinfo_tech.Base.{by_test}
use native.Mathlib.Decide.{ℕ_discrete}
use zinfo_tech.Base.Bytes.{bytes-next}
use zinfo_tech.Net.{
  Reply, room, again, interrupted, broken, Memory, bytes, least, Outcome, done, failed, waiting,
  try_again, Sent, stop, zsend_loop, zsend,
}

-- The kernel keeps no connection from sending, and has room for `n` bytes in the end.
abbrev pub IsPatient : List Reply → Type 0
IsPatient [] = Unit {0}
IsPatient (room k ∷ rs) = IsPatient rs
IsPatient (again ∷ rs) = IsPatient rs
IsPatient (interrupted ∷ rs) = IsPatient rs
IsPatient (broken ∷ rs) = ⊥

abbrev pub rooms : List Reply → ℕ
rooms [] = 0
rooms (room k ∷ rs) = k + rooms rs
rooms (again ∷ rs) = rooms rs
rooms (interrupted ∷ rs) = rooms rs
rooms (broken ∷ rs) = rooms rs

module _ {A : Type 0} (buf : Memory A) (len : ℕ) (w : List A) where
  pub record Delivered (r : Sent A) : Type 0 where
    pub is_done : r.outcome ≡ done
    pub all : r.sended ≡ len
    pub carried : r.wire ≡ w ++ bytes buf 0 len

  ended :
      (s : ℕ) (wire : List A) (rs : List Reply)
      → wire ≡ w ++ bytes buf 0 s
      → s ≡ len
      → Delivered (stop done s wire rs)
  ended s wire rs e h = record {
    is_done = refl;
    all = h;
    carried = e ∙ ap (λ t. w ++ bytes buf 0 t) h;
  }

  loop-Delivered :
      (rs : List Reply) (s : ℕ) (wire : List A)
      → s ≤ len
      → wire ≡ w ++ bytes buf 0 s
      → IsPatient rs
      → len ≤ s + rooms rs
      → Delivered (zsend_loop buf len rs s wire)
  unfolding zsend_loop
  loop-Delivered [] s wire h e pat enough =
      let here : (s == len) ≡ true = ground arith in rw here (ended s wire [] e (omega arith))
  loop-Delivered (room k ∷ rs) s wire h e pat enough =
      by_test Delivered (s == len) _ _ (λ t. ended s wire _ e (ground arith))
        (λ t.
          loop-Delivered rs (s + least k (len - s)) (wire ++ bytes buf s (least k (len - s)))
            (ground arith) (bytes-next buf w wire s (least k (len - s)) e) pat (ground arith))
  loop-Delivered (again ∷ rs) s wire h e pat enough =
      by_test Delivered (s == len) _ _ (λ t. ended s wire _ e (ground arith))
        (λ t. loop-Delivered rs s wire h e pat enough)
  loop-Delivered (interrupted ∷ rs) s wire h e pat enough =
      by_test Delivered (s == len) _ _ (λ t. ended s wire _ e (ground arith))
        (λ t. loop-Delivered rs s wire h e pat enough)
  loop-Delivered (broken ∷ rs) s wire h e pat enough = absurd pat

  -- When the kernel has room for the whole buffer in the end, `zsend` returns its length, and the kernel
  -- has taken exactly the bytes of the buffer, in order.
  pub zsend-Delivered :
      (rs : List Reply) → IsPatient rs → len ≤ rooms rs → Delivered (zsend buf len rs w)
  zsend-Delivered rs pat enough =
      loop-Delivered rs 0 w (omega arith) (sym (append-nil w)) pat (omega arith)

  -- What the kernel has got, whatever it answers.
  pub record Began (r : Sent A) : Type 0 where
    pub within : r.sended ≤ len
    pub carried : r.wire ≡ w ++ bytes buf 0 r.sended
    pub done_iff : (r.outcome ≡ done) ↔ (r.sended ≡ len)
    pub never_again : r.outcome ≢ try_again

  module _ (s : ℕ) (wire : List A) (h : s ≤ len) (e : wire ≡ w ++ bytes buf 0 s) where
    sent_all : (rs : List Reply) → s ≡ len → Began (stop done s wire rs)
    sent_all rs a = record {
      within = h;
      carried = e;
      done_iff = ground arith;
      never_again = ground arith;
    }

    sent_part :
        (o : Outcome) (rs : List Reply)
        → s ≢ len
        → o ≢ done
        → o ≢ try_again
        → Began (stop o s wire rs)
    sent_part o rs a d t = record {
      within = h;
      carried = e;
      done_iff = ground arith;
      never_again = t;
    }

  loop-Began :
      (rs : List Reply) (s : ℕ) (wire : List A)
      → s ≤ len
      → wire ≡ w ++ bytes buf 0 s
      → Began (zsend_loop buf len rs s wire)
  unfolding zsend_loop
  loop-Began [] s wire h e = elim (ℕ_discrete s len) [
    | yes a ↦ let t : (s == len) ≡ true = ground arith in rw t (sent_all s wire h e [] a)
    | no a ↦
        let t : (s == len) ≡ false = ground arith in
        rw t (sent_part s wire h e waiting [] a (ground arith) (ground arith))
  ]
  loop-Began (room k ∷ rs) s wire h e =
      by_test Began (s == len) _ _ (λ t. sent_all s wire h e _ (ground arith))
        (λ t.
          loop-Began rs (s + least k (len - s)) (wire ++ bytes buf s (least k (len - s)))
            (ground arith) (bytes-next buf w wire s (least k (len - s)) e))
  loop-Began (again ∷ rs) s wire h e =
      by_test Began (s == len) _ _ (λ t. sent_all s wire h e _ (ground arith))
        (λ t. loop-Began rs s wire h e)
  loop-Began (interrupted ∷ rs) s wire h e =
      by_test Began (s == len) _ _ (λ t. sent_all s wire h e _ (ground arith))
        (λ t. loop-Began rs s wire h e)
  loop-Began (broken ∷ rs) s wire h e =
      by_test Began (s == len) _ _ (λ t. sent_all s wire h e _ (ground arith))
        (λ t. sent_part s wire h e failed rs (ground arith) (ground arith) (ground arith))

  -- Whatever the kernel answers, it has got the first bytes of the buffer in order and no others, all of
  -- them exactly when `zsend` returns the length; and `zsend` never tells its caller to try again.
  pub zsend-Began : (rs : List Reply) → Began (zsend buf len rs w)
  zsend-Began rs = loop-Began rs 0 w (omega arith) (sym (append-nil w))
