-- ===== src/Queue/Steps.antt =====
-- The parts of the queue operations, at a state whose positions lie at slots.
use zinfo_tech.Base.{
  ℕ, suc, ◌+◌, ◌*◌, ◌≤◌, ◌<◌, ◌≡◌, refl, ap, ◌∙◌, true, false, Option, none, some, List, [], ◌∷◌,
  ◌++◌, arith, ok, mem_insufficient, inc32, ==_refl,
}
use zinfo_tech.Base.Int.{
  pos, ltb_ℤ, leb_ℤ, eqb_ℤ, ◌+ℤ◌, ◌-ℤ◌, add_pos, sub_pos, sub_pos_neg, eqb_pos,
}
use zinfo_tech.Queue.{
  Chunk, Queue, read, store_end, store_begin, advance_end, retreat_begin, step_begin, retreat_end,
  take_chunk, write_end, write_begin, drop_last, last_chunk, drop_begin_chunk, drop_end_chunk,
}
use zinfo_tech.Queue.Slots.{mul_lt, mul_le, mul_ne}

-- The state with the values at slots `i` to `j`, of chunks with `n` slots of `w` bytes.
abbrev pub state : {A : Type 0} → ℕ → ℕ → List (Chunk A) → Option (Chunk A) → ℕ → ℕ → ℕ → Queue A
state n w cs spare size i j = record {
  chunks = cs;
  spare_chunk = spare;
  size = size;
  begin_pos = pos (i * w);
  end_pos = pos (j * w);
  chunk_size = n;
  value_size = w;
  chunk_length = n * w;
}

-- A slot's bytes lie within the chunk.
pub slot_low : (j w : ℕ) → leb_ℤ (pos 0) (pos (j * w)) ≡ true
slot_low j w = ground arith

slot_high : (j n w : ℕ) → j < n → leb_ℤ (pos (j * w) +ℤ pos w) (pos (n * w)) ≡ true
slot_high j n w h = let k : (j + 1) * w ≤ n * w = mul_le (j + 1) n w (omega arith) in ground arith

slot_next : (j w : ℕ) → pos (j * w) +ℤ pos w ≡ pos ((j + 1) * w)
slot_next j w = add_pos (j * w) w ∙ ap pos (omega arith)

slot_prev : (j w : ℕ) → pos (suc j * w) -ℤ pos w ≡ pos (j * w)
slot_prev j w = sub_pos (suc j * w) w (omega arith) ∙ ap pos (omega arith)

pub slot_zero : (w : ℕ) → pos (0 * w) ≡ pos 0
slot_zero w = ap pos (omega arith)

slot_before_zero : (w : ℕ) → 0 < w → ltb_ℤ (pos (0 * w) -ℤ pos w) (pos 0) ≡ true
slot_before_zero w h = sub_pos_neg (0 * w) w (omega arith)

module _ {A : Type 0} (n w : ℕ) (cs : List (Chunk A)) (spare : Option (Chunk A)) (s : ℕ) where
  pub read-slot :
      (c : Chunk A) (i j k : ℕ)
      → k < n
      → read (state n w cs spare s i j) (some c) (pos (k * w)) ≡ some (c.value (k * w))
  unfolding read
  read-slot c i j k h = rw (slot_low k w, slot_high k n w h)

  pub store_end-slot :
      (i j : ℕ) (v : A)
      → j < n
      → store_end (state n w cs spare s i j) v
        ≡ some (state n w (write_end cs (j * w) v) spare s i j)
  unfolding store_end
  store_end-slot i j v h = rw (slot_low j w, slot_high j n w h)

  pub store_begin-slot :
      (i j : ℕ) (v : A)
      → i < n
      → store_begin (state n w cs spare s i j) v
        ≡ some (state n w (write_begin cs (i * w) v) spare s i j)
  unfolding store_begin
  store_begin-slot i j v h = rw (slot_low i w, slot_high i n w h)

  module _ (zeros : A) (mem : Option ℕ) where
    pub advance_end-room :
        (i j : ℕ)
        → 0 < w
        → j + 1 < n
        → advance_end zeros mem (state n w cs spare s i j)
          ≡ (ok, state n w cs spare (inc32 s) i (j + 1))
    unfolding advance_end
    advance_end-room i j hw h =
        let k : (j + 1) * w < n * w = mul_lt (j + 1) n w hw h in
        let t : ltb_ℤ (pos ((j + 1) * w)) (pos (n * w)) ≡ true = ground arith in rw (slot_next, t)

    full_test : (j : ℕ) → j + 1 ≡ n → ltb_ℤ (pos ((j + 1) * w)) (pos (n * w)) ≡ false
    full_test j h = rw (← h) (ground arith)

    pub advance_end-full :
        (i j : ℕ) {c : Chunk A}
        → j + 1 ≡ n
        → take_chunk zeros mem (state n w cs spare s i j) ≡ some c
        → advance_end zeros mem (state n w cs spare s i j)
          ≡ (ok, state n w (cs ++ (c ∷ [])) none (inc32 s) i 0)
    unfolding advance_end
    advance_end-full i j h t = rw (slot_next, full_test j h, t, slot_zero)

    -- Without a chunk the position stays at the end of the full chunk.
    pub advance_end-fail :
        (i j : ℕ)
        → j + 1 ≡ n
        → take_chunk zeros mem (state n w cs spare s i j) ≡ none
        → advance_end zeros mem (state n w cs spare s i j)
          ≡ (mem_insufficient, state n w cs none s i (j + 1))
    unfolding advance_end
    advance_end-fail i j h t = rw (slot_next, full_test j h, t, slot_next)

    pub retreat_begin-room :
        (i j : ℕ)
        → retreat_begin zeros mem (state n w cs spare s (suc i) j) ≡ (ok, state n w cs spare s i j)
    unfolding retreat_begin
    retreat_begin-room i j =
        let t : ltb_ℤ (pos (i * w)) (pos 0) ≡ false = ground arith in rw (slot_prev, t)

    pub retreat_begin-grow :
        (i j : ℕ) {c : Chunk A}
        → 0 < w
        → suc i ≡ n
        → take_chunk zeros mem (state n w cs spare s 0 j) ≡ some c
        → retreat_begin zeros mem (state n w cs spare s 0 j) ≡ (ok, state n w (c ∷ cs) none s i j)
    unfolding retreat_begin
    retreat_begin-grow i j hw h t =
        let e : pos (n * w) -ℤ pos w ≡ pos (i * w) = rw (← h) (slot_prev i w) in
        rw (slot_before_zero w hw, t, e)

  pub step_begin-room :
      (i j : ℕ)
      → 0 < w
      → i + 1 < n
      → step_begin (state n w cs spare s i j) ≡ some (state n w cs spare s (i + 1) j)
  unfolding step_begin
  step_begin-room i j hw h =
      let t : eqb_ℤ (pos ((i + 1) * w)) (pos (n * w)) ≡ false =
        eqb_pos _ _ ∙ mul_ne (i + 1) n w hw h in
      rw (slot_next, t)

  pub retreat_end-room :
      (i j : ℕ) → retreat_end (state n w cs spare s i (suc j)) ≡ some (state n w cs spare s i j)
  unfolding retreat_end
  retreat_end-room i j =
      let t : ltb_ℤ (pos (j * w)) (pos 0) ≡ false = ground arith in rw (slot_prev, t)

module _ {A : Type 0} where
  pub some-last_chunk :
      (d : Chunk A) (r : List (Chunk A)) → (e : Chunk A) × (last_chunk (d ∷ r) ≡ some e)
  unfolding last_chunk
  some-last_chunk d [] = (d, refl)
  some-last_chunk d (e ∷ r) = some-last_chunk e r

  pub some-last-drop :
      (c d : Chunk A) (r : List (Chunk A))
      → (e : Chunk A) × (last_chunk (drop_last (c ∷ d ∷ r)) ≡ some e)
  unfolding drop_last
  some-last-drop c d [] = some-last_chunk c []
  some-last-drop c d (e ∷ r) = some-last_chunk c (drop_last (d ∷ e ∷ r))

module _ {A : Type 0} (n w : ℕ) (c d : Chunk A) (r : List (Chunk A)) (spare : Option (Chunk A))
    (s : ℕ) where
  pub step_begin-drop :
      (i j : ℕ)
      → i + 1 ≡ n
      → step_begin (state n w (c ∷ d ∷ r) spare s i j) ≡ some (state n w (d ∷ r) (some c) s 0 j)
  unfolding step_begin drop_begin_chunk
  step_begin-drop i j h =
      let t : eqb_ℤ (pos ((i + 1) * w)) (pos (n * w)) ≡ true = rw (← h) (eqb_pos _ _ ∙ ==_refl _) in
      rw (slot_next, t, slot_zero)

  pub retreat_end-drop :
      (i j : ℕ)
      → 0 < w
      → suc j ≡ n
      → retreat_end (state n w (c ∷ d ∷ r) spare s i 0)
        ≡ some (state n w (drop_last (c ∷ d ∷ r)) (last_chunk (d ∷ r)) s i j)
  unfolding retreat_end drop_end_chunk last_chunk
  retreat_end-drop i j hw h =
      let e : pos (n * w) -ℤ pos w ≡ pos (j * w) = rw (← h) (slot_prev j w) in
      rw (slot_before_zero w hw, (some-last-drop c d r).1, e)
