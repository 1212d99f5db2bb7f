-- ===== src/Trace/Bounds.antt =====
-- How much of their buffers `zdump_bin` and `zdump_mix` touch, and what text they leave there.
use zinfo_tech.Base.{ℕ, ◌+◌, ◌≤◌, ◌<◌, ◌%◌, ◌≡◌, List, [], ◌∷◌, ◌++◌, ltb, ◌==◌, by_test, arith}
use zinfo_tech.Base.Lists.{length, length-append, length-take}
use zinfo_tech.Trace.{
  Dump, print, count_byte, dump, nothing, hex, zdump_bin, printable, mixed, zdump_mix,
}

-- At the head of the loop four bytes are left, and what was touched lies in the buffer.
record HasRoom (size extra : ℕ) (d : Dump) : Type 0 where
  four_left : length d.text + 4 ≤ size
  inside : d.touched ≤ size + extra
  counted : d.len ≤ length d.text

module _ (shown : ℕ → List ℕ) (line size extra : ℕ) (some_text : (c : ℕ) → 0 < length (shown c))
    (short : (c : ℕ) → length (shown c) ≤ 3 + extra) where
  record Fits (d : Dump) : Type 0 where
    inside : d.touched ≤ size + extra
    counted : d.len ≤ length d.text
    ended : length d.text + 1 ≤ size + extra

  count_byte-HasRoom :
      (d : Dump)
      → length d.text + 5 ≤ size
      → d.touched ≤ size + extra
      → d.len + 1 ≤ length d.text
      → HasRoom size extra (count_byte line d)
  count_byte-HasRoom d h i l =
      by_test (HasRoom size extra) ((d.len + 1) % line == 0) _ _
        (λ t. record {
          four_left = omega (arith, length-append d.text (10 ∷ []));
          inside = ground arith;
          counted = omega (arith, length-append d.text (10 ∷ []));
        })
        (λ t. record { four_left = omega arith; inside = i; counted = l })

  dump-Fits : (cs : List ℕ) (d : Dump) → HasRoom size extra d → Fits (dump shown line size cs d)
  dump-Fits [] d h = record {
    inside = h.inside;
    counted = h.counted;
    ended = omega (arith, h.four_left);
  }
  dump-Fits (c ∷ cs) d h =
      let len = length-append d.text (shown c) in
      let i : (print (shown c) d).touched ≤ size + extra =
        ground (arith, short c, h.four_left, h.inside) in
      by_test Fits (ltb size (length (d.text ++ shown c) + 5)) _ _
        (λ t. record {
          inside = i;
          counted = omega (arith, len, h.counted);
          ended = omega (arith, len, h.four_left, short c);
        })
        (λ t. dump-Fits cs (count_byte line (print (shown c) d)) (
          count_byte-HasRoom (print (shown c) d) (ground arith) i
            (omega (arith, len, h.counted, some_text c))))

nothing-HasRoom : (size extra : ℕ) → 4 ≤ size → HasRoom size extra nothing
nothing-HasRoom size extra h = record { four_left = h; inside = omega arith; counted = omega arith }

mixed-some : (c : ℕ) → 0 < length (mixed c)
mixed-some c = by_test (λ t. 0 < length t) (printable c) _ _ (λ t. omega arith) (λ t. omega arith)

mixed-short : (c : ℕ) → length (mixed c) ≤ 4
mixed-short c = by_test (λ t. length t ≤ 4) (printable c) _ _ (λ t. omega arith) (λ t. omega arith)

-- In a buffer of at least four bytes `zdump_bin` touches nothing behind the end, whatever it is given.
-- `zdump_mix` may touch one byte behind it, and leaves a text of as many characters as bytes are
-- counted: where a byte is shown by more than one character, the end of the text is cut off.
pub dump_bounds :
    (size : ℕ) (bin : List ℕ)
    → 4 ≤ size
    → ((zdump_bin size bin).touched ≤ size)
      × ((zdump_mix size bin).touched ≤ size + 1)
      × (length (zdump_mix size bin).text ≡ (zdump_mix size bin).len)
unfolding zdump_bin zdump_mix
dump_bounds size bin h =
    let b =
      dump-Fits hex 32 size 0 (λ c. omega arith) (λ c. omega arith) bin nothing
        (nothing-HasRoom size 0 h) in
    let m =
      dump-Fits mixed 64 size 1 mixed-some mixed-short bin nothing (nothing-HasRoom size 1 h) in
    let d = dump mixed 64 size bin nothing in
    (
      omega (arith, b.inside),
      by_test (λ t. t ≤ size + 1) (ltb d.touched (d.len + 1)) _ _
          (λ t. omega (arith, m.counted, m.ended)) (λ t. m.inside),
      length-take d.len d.text m.counted,
    )
