-- ===== src/Files/Walk.antt =====
-- `zftw` against the list of what it is to visit.
use zinfo_tech.Base.{
  ℕ, ◌<◌, ◌≡◌, refl, sym, true, false, some, List, [], ◌++◌, append-nil, ◌==◌, Bool-cases, inl, inr,
  ◌>>=◌, arith,
}
use mathlib.Core.Path.{subst}
use zinfo_tech.Base.Lists.{length}
use zinfo_tech.Files.{
  Text, Flag, ftw_f, ftw_ns, Tree, missing, file, unreadable, dir, Entries, end, entry, slashed,
  hidden, Answer, Walked, close_path, unless_stopped, zftw, walk,
}
use zinfo_tech.Files.Visits.{preorder, inside, Fits, FitsInside, visits, visits-append}
use zinfo_tech.Files.Paths.{
  Ends, Ends-returned, Ends-bind, store_lem, prefix_kept, Fits-length, called, entered, enter-Ends,
  closed, unreadable-Ends,
}

module _ {S : Type 0} (func : Text → Flag → S → Answer S) where
  after-Ends :
      (es : Entries) (us vs : List (Text × Flag)) (b : Text) (n : ℕ) (s : S) (w : Walked S)
      → w.ret ≡ (visits func us s).ret
      → w.state ≡ (visits func us s).state
      → (tail : Text) → w.path ≡ b ++ tail
      → Ends (visits func vs w.state) b (walk func es n w.path w.state)
      → Ends (visits func (us ++ vs) s) b (unless_stopped (walk func es n) w)
  after-Ends es us vs b n s w er es' tail ep h =
      rw (visits-append func us vs s) (elim (Bool-cases ((visits func us s).ret == 0)) [
        | inl e ↦
            let f : (w.ret == 0) ≡ true = ground arith in
            rw (e, f)
              (subst (λ st. Ends (visits func vs st) b (walk func es n w.path w.state)) es' h)
        | inr e ↦
            let f : (w.ret == 0) ≡ false = ground arith in
            rw (e, f) (record { same_ret = er; same_state = es'; tail = tail; starts = ep })
      ])

  mutual
    unfolding zftw

    zftw-Ends :
        (t : Tree) (b x : Text) (s : S)
        → 0 < length x
        → Fits t (b ++ x)
        → Ends (visits func (preorder t (b ++ x)) s) b (zftw func t (b ++ x) s)
    zftw-Ends missing b x s ne fit = called func b x ftw_ns s
    zftw-Ends file b x s ne fit = called func b x ftw_f s
    zftw-Ends unreadable b x s ne fit = unreadable-Ends func b x s ne fit
    zftw-Ends (dir es) b x s ne fit =
        let q = slashed (b ++ x) in
        let t = entered func b x s ne fit.0 in
        enter-Ends func b x s ne fit.0 (visits func (inside es q) t)
          (λ base t. walk func es (length base) base t >>= λ w. some (close_path (length base) w))
          (Ends-bind (visits func (inside es q) t) (visits func (inside es q) t) q b
            (λ w. some (close_path (length q) w)) (walk func es (length q) q t)
            (walk-Ends es q q [] t (sym (append-nil q)) fit.1)
            (λ w h. closed func b x s ne fit.0 (visits func (inside es q) t) w h))

    walk-Ends :
        (es : Entries) (base path tail : Text) (s : S)
        → path ≡ base ++ tail
        → FitsInside es base
        → Ends (visits func (inside es base) s) base (walk func es (length base) path s)
    walk-Ends end base path tail s e fit = record {
      same_ret = refl;
      same_state = refl;
      tail = tail;
      starts = e;
    }
    walk-Ends (entry name child es) base path tail s e (ne, fit, fits) =
        elim (Bool-cases (hidden name)) [
          | inl t ↦ rw t (walk-Ends es base path tail s e fits)
          | inr t ↦
              rw
                (
                  t,
                  prefix_kept base path tail e,
                  store_lem (base ++ name) (Fits-length child (base ++ name) fit),
                )
                (Ends-bind (visits func (preorder child (base ++ name)) s)
                  (visits func (preorder child (base ++ name) ++ inside es base) s) base base
                  (unless_stopped (walk func es (length base))) (zftw func child (base ++ name) s)
                  (zftw-Ends child base name s ne fit)
                  (λ w h.
                    after-Ends es (preorder child (base ++ name)) (inside es base) base
                      (length base) s w h.same_ret h.same_state h.tail h.starts
                      (walk-Ends es base w.path h.tail w.state h.starts fits)))
        ]

  -- `zftw` ends, for any tree of directories whose paths fit into the buffer: the callback is called for
  -- the top, and for each entry of a directory after the directory, in the order of `readdir`, with the
  -- full path of each and the flag for what is found there, up to the first call that does not return 0;
  -- what that call returned is returned, or 0 when there is none. Entries named "." and ".." are left out.
  pub zftw-visits :
      (t : Tree) (path : Text) (s : S)
      → 0 < length path
      → Fits t path
      → (w : Walked S) × (zftw func t path s ≡ some w)
        × (w.ret ≡ (visits func (preorder t path) s).ret)
        × (w.state ≡ (visits func (preorder t path) s).state)
  zftw-visits t path s ne fit =
      Ends-returned (visits func (preorder t path) s) [] (zftw func t path s)
        (zftw-Ends t [] path s ne fit)
