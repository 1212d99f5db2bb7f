-- ===== src/Net/Buffered/Calls.antt =====
-- Sequences of calls of `zemq_send` on one session.
use zinfo_tech.Base.{ℕ, ◌≤◌, ◌≡◌, Option, none, some, List, [], ◌∷◌, ◌++◌, false, ◌>>=◌}
use zinfo_tech.Net.{Memory, Reply}
use zinfo_tech.Net.Buffered.{Session, Ended, zemq_send}
use zinfo_tech.Net.Buffered.Whole.{IsRoomy}
use zinfo_tech.Net.Buffered.Stream.{pending, accepted}

-- A call, the buffer that the allocator gives while it runs, and what the kernel answers.
pub record Call (A : Type 0) : Type 0 where
  pub buf : Option (Memory A)
  pub len : ℕ
  pub spare : Memory A
  pub replies : List Reply

-- `taken` is all that the calls took over from their callers.
pub record Stream (A : Type 0) : Type 0 where
  pub ssn : Session A
  pub wire : List A
  pub taken : List A

module _ {A : Type 0} (block buf_size : ℕ) where
  abbrev pub call : Stream A → Call A → Option (Ended A)
  call t c = zemq_send block buf_size (some c.spare) c.buf c.len t.ssn c.replies t.wire

  abbrev pub after_call : Stream A → Call A → Option (Ended A) → Option (Stream A)
  after_call t c none = none
  after_call t c (some e) =
      some
        (record { ssn = e.ssn; wire = e.wire; taken = t.taken ++ accepted c.buf c.len e.outcome })

  unfoldable pub sends : Stream A → List (Call A) → Option (Stream A)
  sends t [] = some t
  sends t (c ∷ cs) = after_call t c (call t c) >>= λ u. sends u cs

  -- No call has more bytes than a buffer, and the kernel has room for a buffer whenever it has any.
  abbrev pub IsSmooth : List (Call A) → Type 0
  IsSmooth [] = Unit {0}
  IsSmooth (c ∷ cs) = (c.len ≤ buf_size) × IsRoomy buf_size c.replies × IsSmooth cs

  pub record Orderly (t : Stream A) : Type 0 where
    pub in_order : t.wire ++ pending t.ssn ≡ t.taken
    pub fits : t.ssn.send_buf_len ≤ buf_size

  abbrev pub EndsOrderly : Option (Stream A) → Type 0
  EndsOrderly none = ⊥
  EndsOrderly (some t) = Orderly t

  abbrev pub new_stream : Stream A
  new_stream = record {
    ssn = record {
      recv_buf = none;
      recv_buf_len = 0;
      send_buf = none;
      send_buf_len = 0;
      poll_out = false;
    };
    wire = [];
    taken = [];
  }
