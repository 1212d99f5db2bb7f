-- ===== src/Files.antt =====
-- The walks over directories and the loops over `read` and `write` of src/filesys.c. A directory tree is
-- what the calls of the system find at a path: the status, and the entries that `readdir` gives.
pub mod Io
pub mod Listing
pub mod Paths
pub mod Visits
pub mod Walk
mod Tests
use zinfo_tech.Base.{
  ℕ, zero, suc, ◌+◌, ◌-◌, Bool, true, false, Option, none, some, List, [], ◌∷◌, ◌++◌, ltb, ◌==◌,
  ◌||◌, ◌&&◌, if◌then◌else◌, ◌>>=◌,
}
use zinfo_tech.Base.Lists.{length, take}

abbrev pub Text : Type 0
Text = List ℕ

-- `FTW_F`, `FTW_D`, `FTW_DNR` and `FTW_NS`
pub data Flag : Type 0 where
  ftw_f ftw_d ftw_dnr ftw_ns : Flag

-- `missing`: `zfstat` fails. `unreadable`: `opendir` fails.
mutual
  pub data Tree : Type 0 where
    missing file unreadable : Tree
    dir : Entries → Tree

  pub data Entries : Type 0 where
    end : Entries
    entry : Text → Tree → Entries → Entries

-- '/' and '\\' at the end of a path
abbrev pub is_slash : ℕ → Bool
is_slash c = (c == 47) || (c == 92)

abbrev pub ends_slash : Text → Bool
ends_slash [] = false
ends_slash (c ∷ []) = is_slash c
ends_slash (c ∷ d ∷ cs) = ends_slash (d ∷ cs)

abbrev pub slashed : Text → Text
slashed path = if ends_slash path then path else path ++ (47 ∷ [])

-- "." and ".."
abbrev pub hidden : Text → Bool
hidden (a ∷ []) = a == 46
hidden (a ∷ b ∷ []) = (a == 46) && (b == 46)
hidden _ = false

-- `fullpath` has 512 bytes with the end of the text.
abbrev pub store : Text → Option Text
store path = if ltb (length path) 512 then some path else none

-- What the callback returns, with the state behind `hint`.
pub record Answer (S : Type 0) : Type 0 where
  pub ret : ℕ
  pub state : S

pub record Walked (S : Type 0) : Type 0 where
  pub ret : ℕ
  pub path : Text
  pub state : S

-- `fullpath` with a slash at its end; the path "" has no last character.
abbrev pub open_path : Text → Option Text
open_path [] = none
open_path (c ∷ cs) = store (slashed (c ∷ cs))

-- `fullpath[n - 1] = 0` at the end
abbrev pub close_path : {S : Type 0} → ℕ → Walked S → Walked S
close_path n w = record w { path = take (n - 1) w.path }

abbrev pub flag_of : Tree → Flag
flag_of missing = ftw_ns
flag_of file = ftw_f
flag_of unreadable = ftw_d
flag_of (dir es) = ftw_d

module _ {S : Type 0} where
  -- The callback on the directory, and on with its path when it returns 0.
  abbrev pub enter : Text → (Text → S → Option (Walked S)) → Walked S → Option (Walked S)
  enter path inside w =
      if w.ret == 0 then open_path path >>= (λ base. inside base w.state) else some w

  abbrev pub unless_stopped : (Text → S → Option (Walked S)) → Walked S → Option (Walked S)
  unless_stopped go_on w = if w.ret == 0 then go_on w.path w.state else some w

module _ {S : Type 0} (func : Text → Flag → S → Answer S) where
  abbrev pub call : Text → Flag → S → Walked S
  call path flag s = record {
    ret = (func path flag s).ret;
    path = path;
    state = (func path flag s).state;
  }

  unfoldable mutual
    pub zftw : Tree → Text → S → Option (Walked S)
    zftw missing path s = some (call path ftw_ns s)
    zftw file path s = some (call path ftw_f s)
    zftw unreadable path s = enter path (λ base t. some (call base ftw_dnr t)) (call path ftw_d s)
    zftw (dir es) path s =
        enter path
          (λ base t. walk es (length base) base t >>= λ w. some (close_path (length base) w))
          (call path ftw_d s)

    -- The loop over `readdir`, with `n` characters of the path of the directory.
    pub walk : Entries → ℕ → Text → S → Option (Walked S)
    walk end n path s = some (record { ret = 0; path = path; state = s })
    walk (entry name child es) n path s =
        if hidden name
        then walk es n path s
        else store (take n path ++ name) >>= (λ p. zftw child p s >>= unless_stopped (walk es n))

  -- The loop of `zftw_nr`, which does not go into directories, and does not look at what the callback
  -- returns for their entries.
  unfoldable pub list_entries : Entries → ℕ → Text → S → Option (Walked S)
  list_entries end n path s = some (record { ret = 0; path = path; state = s })
  list_entries (entry name child es) n path s =
      if hidden name
      then list_entries es n path s
      else store (take n path ++ name)
        >>= (λ p. list_entries es n p (call p (flag_of child) s).state)

  unfoldable pub zftw_nr : Tree → Text → S → Option (Walked S)
  unfolding list_entries
  zftw_nr missing path s = some (call path ftw_ns s)
  zftw_nr file path s = some (call path ftw_f s)
  zftw_nr unreadable path s = enter path (λ base t. some (call base ftw_dnr t)) (call path ftw_d s)
  zftw_nr (dir es) path s =
      enter path
        (λ base t. list_entries es (length base) base t >>= λ w. some (close_path (length base) w))
        (call path ftw_d s)
