-- ===== src/Trace.antt =====
-- `zdump_bin` and `zdump_mix` of src/trace.c: bytes written as text into a buffer of `size` bytes.
pub mod Bounds
mod Tests
use zinfo_tech.Base.{
  ℕ, ◌+◌, ◌-◌, ◌/◌, ◌%◌, Bool, true, false, List, [], ◌∷◌, ◌++◌, ltb, ◌==◌, ◌&&◌, ◌||◌,
  if◌then◌else◌,
}
use zinfo_tech.Base.Lists.{length, take}

-- What `sprintf` has written, and the length of the part of the buffer that was touched, with the
-- zeros at the ends of the texts. `len` is what `*len` becomes.
pub record Dump : Type 0 where
  pub text : List ℕ
  pub len : ℕ
  pub touched : ℕ

abbrev pub digit : ℕ → ℕ
digit d = if ltb d 10 then 48 + d else 87 + d

-- "%02x "
abbrev pub hex : ℕ → List ℕ
hex c = digit (c / 16) ∷ digit (c % 16) ∷ 32 ∷ []

abbrev pub greatest : ℕ → ℕ → ℕ
greatest a b = if ltb a b then b else a

-- One `sprintf` at the end of the text.
abbrev pub print : List ℕ → Dump → Dump
print s d = record d {
  text = d.text ++ s;
  touched = greatest d.touched (length d.text + length s + 1);
}

-- `++idx`, with a line break after each `line` bytes
abbrev pub count_byte : ℕ → Dump → Dump
count_byte line d =
    let d' = record d { len = d.len + 1 } in
    if (d.len + 1) % line == 0 then print (10 ∷ []) d' else d'

-- The loop, which ends when there is no room for another five bytes.
module _ (shown : ℕ → List ℕ) (line size : ℕ) where
  abbrev pub dump : List ℕ → Dump → Dump
  dump [] d = d
  dump (c ∷ cs) d =
      let rest = dump cs (count_byte line (print (shown c) d)) in
      if ltb size (length (print (shown c) d).text + 5) then print (shown c) d else rest

abbrev pub nothing : Dump
nothing = record { text = []; len = 0; touched = 0 }

unfoldable pub zdump_bin : ℕ → List ℕ → Dump
zdump_bin size bin = dump hex 32 size bin nothing

-- "%c" or "[%02x]"
abbrev pub printable : ℕ → Bool
printable c = (ltb 31 c && ltb c 127) || (ltb 7 c && ltb c 14)

abbrev pub mixed : ℕ → List ℕ
mixed c = if printable c then c ∷ [] else 91 ∷ digit (c / 16) ∷ digit (c % 16) ∷ 93 ∷ []

-- `out[idx] = 0` at the end
abbrev pub cut_at : Dump → Dump
cut_at d = record d { text = take d.len d.text; touched = greatest d.touched (d.len + 1) }

unfoldable pub zdump_mix : ℕ → List ℕ → Dump
zdump_mix size mix = cut_at (dump mixed 64 size mix nothing)
