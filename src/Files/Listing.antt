-- ===== src/Files/Listing.antt =====
-- `zftw_nr` against the list of the entries of a directory.
use zinfo_tech.Base.{
  ◌<◌, ◌≡◌, refl, sym, some, List, [], ◌∷◌, ◌++◌, append-nil, ◌==◌, if◌then◌else◌, Bool-cases, inl,
  inr, ◌>>=◌,
}
use zinfo_tech.Base.Lists.{length}
use zinfo_tech.Files.{
  Text, Flag, ftw_f, ftw_d, ftw_ns, Tree, missing, file, unreadable, dir, Entries, end, entry,
  slashed, hidden, Answer, Walked, close_path, flag_of, list_entries, zftw_nr,
}
use zinfo_tech.Files.Visits.{preorder, Fits, FitsInside, visits}
use zinfo_tech.Files.Paths.{
  Ends, Ends-returned, Ends-bind, store_lem, prefix_kept, Fits-length, called, entered, enter-Ends,
  closed, unreadable-Ends,
}

module _ {S : Type 0} (func : Text → Flag → S → Answer S) where
  -- The entries that are not hidden, with their paths.
  abbrev pub listing : Entries → Text → List (Text × Flag)
  listing end base = []
  listing (entry name child es) base =
      if hidden name then listing es base else (base ++ name, flag_of child) ∷ listing es base

  -- The callback on all of them.
  abbrev pub calls : List (Text × Flag) → S → S
  calls [] s = s
  calls ((path, flag) ∷ vs) s = calls vs (func path flag s).state

  abbrev all_called : List (Text × Flag) → S → Answer S
  all_called vs s = record { ret = 0; state = calls vs s }

  abbrev pub reports : Tree → Text → S → Answer S
  reports (dir es) path s =
      if (func path ftw_d s).ret == 0
      then all_called (listing es (slashed path)) (func path ftw_d s).state
      else func path ftw_d s
  reports t path s = visits func (preorder t path) s

  list_entries-Ends :
      (es : Entries) (base path tail : Text) (s : S)
      → path ≡ base ++ tail
      → FitsInside es base
      → Ends (all_called (listing es base) s) base (list_entries func es (length base) path s)
  unfolding list_entries
  list_entries-Ends end base path tail s e fit = record {
    same_ret = refl;
    same_state = refl;
    tail = tail;
    starts = e;
  }
  list_entries-Ends (entry name child es) base path tail s e (ne, fit, fits) =
      elim (Bool-cases (hidden name)) [
        | inl t ↦ rw t (list_entries-Ends es base path tail s e fits)
        | inr t ↦
            rw
              (
                t,
                prefix_kept base path tail e,
                store_lem (base ++ name) (Fits-length child (base ++ name) fit),
              )
              (list_entries-Ends es base (base ++ name) name
                (func (base ++ name) (flag_of child) s).state refl fits)
      ]

  zftw_nr-Ends :
      (t : Tree) (path : Text) (s : S)
      → 0 < length path
      → Fits t path
      → Ends (reports t path s) [] (zftw_nr func t path s)
  unfolding zftw_nr
  zftw_nr-Ends missing path s ne fit = called func [] path ftw_ns s
  zftw_nr-Ends file path s ne fit = called func [] path ftw_f s
  zftw_nr-Ends unreadable path s ne fit = unreadable-Ends func [] path s ne fit
  zftw_nr-Ends (dir es) path s ne fit =
      let q = slashed path in
      let t = entered func [] path s ne fit.0 in
      let a = all_called (listing es q) t in
      enter-Ends func [] path s ne fit.0 a
        (λ base u.
          list_entries func es (length base) base u >>= λ w. some (close_path (length base) w))
        (Ends-bind a a q [] (λ w. some (close_path (length q) w))
          (list_entries func es (length q) q t)
          (list_entries-Ends es q q [] t (sym (append-nil q)) fit.1)
          (λ w h. closed func [] path s ne fit.0 a w h))

  -- `zftw_nr` ends, for any directory whose paths fit into the buffer: the callback is called for the
  -- top, and if it returns 0 there for every entry, in the order of `readdir`, with its full path and the
  -- flag for what is found there. What it returns for the entries changes nothing: 0 is returned. A top
  -- that is no directory, or cannot be read, is visited as by `zftw`.
  pub zftw_nr-reports :
      (t : Tree) (path : Text) (s : S)
      → 0 < length path
      → Fits t path
      → (w : Walked S) × (zftw_nr func t path s ≡ some w)
        × (w.ret ≡ (reports t path s).ret)
        × (w.state ≡ (reports t path s).state)
  zftw_nr-reports t path s ne fit =
      Ends-returned (reports t path s) [] (zftw_nr func t path s) (zftw_nr-Ends t path s ne fit)
