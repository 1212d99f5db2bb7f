-- ===== src/Time/Decimal.antt =====
-- The numbers that src/time.c prints, read again.
use zinfo_tech.Base.{
  ℕ, zero, suc, ◌+◌, ◌-◌, ◌*◌, ◌/◌, ◌%◌, ◌<◌, ◌≡◌, refl, ap, ◌∙◌, Bool, true, false, some, [], ◌∷◌,
  ◌++◌, arith, if◌then◌else◌, ◌==◌, ltb, Bool-cases, ==_refl, inl, inr,
}
use zinfo_tech.Base.Int.{pos}
use zinfo_tech.Time.{Text, digits, decimal, pad2, cut, value, atoi, is_digit, is_space}

abbrev pub AllDigits : Text → Type 0
AllDigits [] = Unit
AllDigits (c ∷ cs) = (is_digit c ≡ true) × AllDigits cs

-- The text begins with a digit.
abbrev pub Leads : Text → Type 0
Leads [] = ⊥
Leads (c ∷ cs) = is_digit c ≡ true

-- What prints the number `n` before any text: digits, at least one, that read as `n`.
pub record Prints (n : ℕ) (print : Text → Text) : Type 0 where
  pub before : (rest : Text) → print rest ≡ print [] ++ rest
  pub all : AllDigits (print [])
  pub leads : (rest : Text) → Leads (print rest)
  pub reads : (rest : Text) → value 0 (print rest) ≡ value n rest

last_digit : (n : ℕ) → is_digit (48 + n % 10) ≡ true
last_digit n = ground arith

digits-append : (f n : ℕ) (xs ys : Text) → digits f n (xs ++ ys) ≡ digits f n xs ++ ys
unfolding digits
digits-append zero n xs ys = refl
digits-append (suc f) n xs ys = ground (arith, digits-append f (n / 10) ((48 + n % 10) ∷ xs) ys)

digits-AllDigits : (f n : ℕ) (rest : Text) → AllDigits rest → AllDigits (digits f n rest)
unfolding digits
digits-AllDigits zero n rest h = h
digits-AllDigits (suc f) n rest h = elim (Bool-cases (ltb n 10)) [
  | inl small ↦ rw small (ground arith, h)
  | inr large ↦ rw large (digits-AllDigits f (n / 10) ((48 + n % 10) ∷ rest) (last_digit n, h))
]

digits-Leads : (f n : ℕ) (rest : Text) → Leads rest → Leads (digits f n rest)
unfolding digits
digits-Leads zero n rest h = h
digits-Leads (suc f) n rest h = elim (Bool-cases (ltb n 10)) [
  | inl small ↦ rw small (ground arith)
  | inr large ↦ rw large (digits-Leads f (n / 10) ((48 + n % 10) ∷ rest) (last_digit n))
]

decimal-Leads : (n : ℕ) (rest : Text) → Leads (decimal n rest)
unfolding digits
decimal-Leads n rest = elim (Bool-cases (ltb n 10)) [
  | inl small ↦ rw small (ground arith)
  | inr large ↦ rw large (digits-Leads n (n / 10) ((48 + n % 10) ∷ rest) (last_digit n))
]

value_step :
    (v c : ℕ) (rest : Text)
    → is_digit c ≡ true
    → value v (c ∷ rest) ≡ value (v * 10 + (c - 48)) rest
unfolding value
value_step v c rest h = rw h refl

value-digits : (f n : ℕ) (rest : Text) → n < f → value 0 (digits f n rest) ≡ value n rest
unfolding digits
value-digits zero n rest h = absurd (omega arith)
value-digits (suc f) n rest h = elim (Bool-cases (ltb n 10)) [
  | inl small ↦
      let e : 0 * 10 + (48 + n - 48) ≡ n = omega arith in
      rw small (value_step 0 (48 + n) rest (ground arith) ∙ ap (λ v. value v rest) e)
  | inr large ↦
      let e : n / 10 * 10 + (48 + n % 10 - 48) ≡ n = omega arith in
      let smaller : n / 10 < f = ground arith in
      rw large (
        value-digits f (n / 10) ((48 + n % 10) ∷ rest) smaller
        ∙ value_step (n / 10) (48 + n % 10) rest (last_digit n)
        ∙ ap (λ v. value v rest) e)
]

pub decimal-Prints : (n : ℕ) → Prints n (decimal n)
decimal-Prints n = record {
  before = λ rest. digits-append (suc n) n [] rest;
  all = digits-AllDigits (suc n) n [] tt;
  leads = decimal-Leads n;
  reads = λ rest. value-digits (suc n) n rest (omega arith);
}

-- A zero in front.
zero-Prints : (n : ℕ) (print : Text → Text) → Prints n print → Prints n (λ rest. 48 ∷ print rest)
zero-Prints n print p = record {
  before = λ rest. ap (λ t. 48 ∷ t) (p.before rest);
  all = (refl, p.all);
  leads = λ rest. refl;
  reads = λ rest. value_step 0 48 (print rest) refl ∙ p.reads rest;
}

choose-Prints :
    (n : ℕ) (b : Bool) (f g : Text → Text)
    → Prints n f
    → Prints n g
    → Prints n (λ rest. if b then f rest else g rest)
choose-Prints n true f g p q = p
choose-Prints n false f g p q = q

pub pad2-Prints : (n : ℕ) → Prints n (pad2 n)
pad2-Prints n =
    choose-Prints n (ltb n 10) (λ rest. 48 ∷ decimal n rest) (decimal n)
      (zero-Prints n (decimal n) (decimal-Prints n)) (decimal-Prints n)

cut-append :
    (c : ℕ) (ds rest : Text)
    → is_digit c ≡ false
    → AllDigits ds
    → cut c (ds ++ (c ∷ rest)) ≡ some (ds, rest)
unfolding cut
cut-append c [] rest h d = rw (==_refl c) refl
cut-append c (x ∷ xs) rest h d =
    let other : (x == c) ≡ false = ground arith in rw (other, cut-append c xs rest h d.1)

-- A printed number is cut off at the character behind it.
pub cut-Prints :
    {n : ℕ} {print : Text → Text} (c : ℕ) (rest : Text)
    → Prints n print
    → is_digit c ≡ false
    → cut c (print (c ∷ rest)) ≡ some (print [], rest)
cut-Prints {print = print} c rest p h =
    ap (cut c) (p.before (c ∷ rest)) ∙ cut-append c (print []) rest h p.all

atoi-Leads : (t : Text) → Leads t → atoi t ≡ pos (value 0 t)
unfolding atoi
atoi-Leads [] h = absurd h
atoi-Leads (c ∷ cs) h =
    let no_space : is_space c ≡ false = ground arith in
    let no_minus : (c == b'-') ≡ false = ground arith in
    let no_plus : (c == b'+') ≡ false = ground arith in rw (no_space, no_minus, no_plus) refl

pub atoi-Prints :
    {n : ℕ} {print : Text → Text} (rest : Text)
    → Prints n print
    → atoi (print rest) ≡ pos (value n rest)
atoi-Prints {print = print} rest p = atoi-Leads (print rest) (p.leads rest) ∙ ap pos (p.reads rest)
