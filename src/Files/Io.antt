-- ===== src/Files/Io.antt =====
-- `zfreadx` and `zfwrite` of src/filesys.c, on the bytes of a file.
pub mod Complete
mod Tests
use zinfo_tech.Base.{
  ℕ, zero, suc, ◌+◌, ◌-◌, ◌≤◌, ◌<◌, ◌≡◌, refl, sym, ap, ◌∙◌, Bool, true, false, Option, none, some,
  List, [], ◌∷◌, ◌++◌, append-nil, append_assoc, ◌==◌, if◌then◌else◌, by_test, arith,
}
use zinfo_tech.Base.Bytes.{Memory, bytes, least, bytes-next}
use zinfo_tech.Base.Lists.{length, take, drop, take-drop}

-- `ZOK`, `ZEOF`, `ZFUN_FAIL`, or not ended when the system has given all the answers.
pub data Code : Type 0 where
  ok eof fun_fail waiting : Code

-- `output` is what the file has got. On `ok` the call returns `nbytes - remain`.
pub record Written (A : Type 0) : Type 0 where
  pub code : Code
  pub remain : ℕ
  pub output : List A

-- `got` is what is in the buffer, `input` what is left of the file.
pub record Got (A : Type 0) : Type 0 where
  pub code : Code
  pub remain : ℕ
  pub got : List A
  pub input : List A

module _ {A : Type 0} (buf : Memory A) (nbytes : ℕ) where
  -- One answer for each call of `write`: at most so many bytes, or none for -1.
  unfoldable pub zfwrite_loop : List (Option ℕ) → ℕ → List A → Written A
  zfwrite_loop [] remain output = record { code = waiting; remain = remain; output = output }
  zfwrite_loop (none ∷ rs) remain output = record {
    code = fun_fail;
    remain = remain;
    output = output;
  }
  zfwrite_loop (some k ∷ rs) remain output =
      let n = least k remain in
      let output' = output ++ bytes buf (nbytes - remain) n in
      let rest = zfwrite_loop rs (remain - n) output' in
      if remain - n == 0 then record { code = ok; remain = remain - n; output = output' } else rest

  abbrev pub zfwrite : List (Option ℕ) → List A → Written A
  zfwrite rs output = zfwrite_loop rs nbytes output

-- One answer for each call of `read`: at most one byte more than that, or none for -1. It reads no
-- bytes only at the end of the file, or when it is asked for none.
unfoldable pub zfreadx_loop : {A : Type 0} → List (Option ℕ) → ℕ → List A → List A → Got A
zfreadx_loop [] remain got input = record {
  code = waiting;
  remain = remain;
  got = got;
  input = input;
}
zfreadx_loop (none ∷ rs) remain got input = record {
  code = fun_fail;
  remain = remain;
  got = got;
  input = input;
}
zfreadx_loop (some k ∷ rs) remain got input =
    let n = least (suc k) (least remain (length input)) in
    let rest = zfreadx_loop rs (remain - n) (got ++ take n input) (drop n input) in
    if n == 0
    then record { code = eof; remain = remain; got = got; input = input }
    else if remain - n == 0
    then record { code = ok; remain = remain - n; got = got ++ take n input; input = drop n input }
    else rest

abbrev pub zfreadx : {A : Type 0} → List (Option ℕ) → ℕ → List A → Got A
zfreadx rs nbytes input = zfreadx_loop rs nbytes [] input
