-- ===== src/Files/Io/Complete.antt =====
-- What `zfwrite` and `zfreadx` transfer when no call of the system fails.
use zinfo_tech.Base.{
  ℕ, suc, ◌+◌, ◌-◌, ◌≤◌, ◌<◌, ◌≡◌, refl, sym, ap, ◌∙◌, Option, none, some, List, [], ◌∷◌, ◌++◌,
  append-nil, append_assoc, ◌==◌, ◌&&◌, ltb, leb, if◌then◌else◌, by_test, arith,
}
use zinfo_tech.Base.Bytes.{Memory, bytes, least, bytes-next}
use zinfo_tech.Base.Lists.{length, length-append, length-take, take, drop, take-drop}
use zinfo_tech.Files.Io.{ok, eof, Written, Got, zfwrite_loop, zfwrite, zfreadx_loop, zfreadx}

abbrev pub IsFine : List (Option ℕ) → Type 0
IsFine [] = Unit {0}
IsFine (none ∷ rs) = ⊥
IsFine (some k ∷ rs) = IsFine rs

abbrev pub total : List (Option ℕ) → ℕ
total [] = 0
total (none ∷ rs) = total rs
total (some k ∷ rs) = k + total rs

total-positive : (rs : List (Option ℕ)) → 0 < total rs → 0 < length rs
total-positive [] h = absurd (omega arith)
total-positive (r ∷ rs) h = omega arith

module _ {A : Type 0} (buf : Memory A) (nbytes : ℕ) (out : List A) where
  pub record Complete (r : Written A) : Type 0 where
    pub is_ok : r.code ≡ ok
    pub none_remain : r.remain ≡ 0
    pub written : r.output ≡ out ++ bytes buf 0 nbytes

  loop-Complete :
      (rs : List (Option ℕ)) (remain : ℕ) (output : List A)
      → remain ≤ nbytes
      → output ≡ out ++ bytes buf 0 (nbytes - remain)
      → IsFine rs
      → 0 < length rs
      → remain ≤ total rs
      → Complete (zfwrite_loop buf nbytes rs remain output)
  unfolding zfwrite_loop
  loop-Complete [] remain output le e fine ne enough = absurd (omega arith)
  loop-Complete (none ∷ rs) remain output le e fine ne enough = absurd fine
  loop-Complete (some k ∷ rs) remain output le e fine ne enough =
      let next = bytes-next buf out output (nbytes - remain) (least k remain) e in
      by_test Complete ((remain - least k remain) == 0) _ _
        (λ t.
          let all : nbytes - remain + least k remain ≡ nbytes = ground arith in
          record {
            is_ok = refl;
            none_remain = ground arith;
            written = next ∙ ap (λ n. out ++ bytes buf 0 n) all;
          })
        (λ t.
          let left : nbytes - remain + least k remain ≡ nbytes - (remain - least k remain) =
            ground arith in
          let some_left : 0 < total rs = ground arith in
          loop-Complete rs (remain - least k remain) _ (ground arith)
            (next ∙ ap (λ n. out ++ bytes buf 0 n) left) fine (total-positive rs some_left)
            (ground arith))

  -- When no call of `write` fails and they take `nbytes` bytes in all, `zfwrite` ends and returns
  -- `nbytes`, and the file has got exactly the bytes of the buffer behind what it had, in order.
  pub zfwrite-Complete :
      (rs : List (Option ℕ))
      → IsFine rs
      → 0 < length rs
      → nbytes ≤ total rs
      → Complete (zfwrite buf nbytes rs out)
  zfwrite-Complete rs fine ne enough =
      let z : 0 ≡ nbytes - nbytes = omega arith in
      loop-Complete rs nbytes out (omega arith)
        (sym (append-nil out) ∙ ap (λ n. out ++ bytes buf 0 n) z) fine ne enough

module _ {A : Type 0} (nbytes : ℕ) (content : List A) where
  -- As many bytes as were asked for, or as there are; and nothing else has left the file.
  pub record Filled (r : Got A) : Type 0 where
    pub answer : r.code ≡ (if ltb 0 nbytes && leb nbytes (length content) then ok else eof)
    pub amount : length r.got ≡ least nbytes (length content)
    pub parted : r.got ++ r.input ≡ content

  loop-Filled :
      (rs : List (Option ℕ)) (remain : ℕ) (got input : List A)
      → length got + remain ≡ nbytes
      → (0 < nbytes → 0 < remain)
      → got ++ input ≡ content
      → IsFine rs
      → 0 < length rs
      → remain ≤ length rs
      → Filled (zfreadx_loop rs remain got input)
  unfolding zfreadx_loop
  loop-Filled [] remain got input e pos parts fine ne enough = absurd (omega arith)
  loop-Filled (none ∷ rs) remain got input e pos parts fine ne enough = absurd fine
  loop-Filled (some k ∷ rs) remain got input e pos parts fine ne enough =
      let n = least (suc k) (least remain (length input)) in
      let len : length got + length input ≡ length content =
        omega (arith, length-append got input, ap (λ (l : List A). length l) parts) in
      let le : n ≤ length input = ground arith in
      let parts' : (got ++ take n input) ++ drop n input ≡ content =
        append_assoc got (take n input) (drop n input)
        ∙ ap (λ l. got ++ l) (take-drop n input)
        ∙ parts in
      let len' : length (got ++ take n input) ≡ length got + n =
        omega (arith, length-append got (take n input), length-take n input le) in
      by_test Filled (n == 0) _ _
        (λ t. record { answer = ground arith; amount = ground arith; parted = parts })
        (λ t.
          by_test Filled ((remain - n) == 0) _ _
            (λ u. record { answer = ground arith; amount = ground arith; parted = parts' })
            (λ u.
              loop-Filled rs (remain - n) (got ++ take n input) (drop n input) (ground arith)
                (λ _. ground arith) parts' fine (ground arith) (ground arith)))

  -- When no call of `read` fails, `zfreadx` ends within `nbytes` calls, or one; it fills the buffer with
  -- the next bytes of the file, in order, as many as were asked for or as there are, and leaves the
  -- others. It returns their number when it got all of one byte or more, and `ZEOF` otherwise.
  pub zfreadx-Filled :
      (rs : List (Option ℕ))
      → IsFine rs
      → 0 < length rs
      → nbytes ≤ length rs
      → Filled (zfreadx rs nbytes content)
  zfreadx-Filled rs fine ne enough =
      loop-Filled rs nbytes [] content (omega arith) (λ h. h) refl fine ne enough
