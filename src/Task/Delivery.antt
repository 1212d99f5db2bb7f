-- ===== src/Task/Delivery.antt =====
-- Who gets a posted task, and when the task's memory goes back to its pool.
use zinfo_tech.Base.{
  ℕ, zero, suc, ◌+◌, ◌-◌, ◌^◌, ◌≤◌, ◌<◌, ◌≡◌, refl, ◌∙◌, ap, none, some, List, [], ◌∷◌, ◌++◌, ok,
  not_exist, mem_insufficient, arith, append_assoc, append-nil, map,
}
use zinfo_tech.Base.Lists.{length}
use zinfo_tech.Rbtree.{Sign, Tree, Entry, find}
use zinfo_tech.Rbtree.Findx.{operate_list, on_found, operate-on_found, values}
use zinfo_tech.Task.Post.{
  Sub, compare_sub, Posting, ref_clone, ref_release, push_buddy, post, settle, svr_post,
}

unfoldable pub releases : ℕ → Posting → Posting
releases zero s = s
releases (suc n) s = releases n (ref_release s)

abbrev pub key_of : ℕ → Sub
key_of type = record { tsk_type = type; mis = 0; operate_by = 0 }

-- The task, by reference, to the subscribers one after the other.
abbrev pub posting : ℕ → List Sub → ℕ → ℕ → Posting
posting r done c m = record { ref = r; pushed = done; recycled = c; room = m }

post_last :
    (x : Sub) (r m c : ℕ) (done : List Sub)
    → 0 < m
    → post x [] (posting r done c m) ≡ (ok, posting r (done ++ (x ∷ [])) c (m - 1))
unfolding post push_buddy
post_last x r m c done room = ground arith

post_next :
    (x y : Sub) (ys : List Sub) (r m c : ℕ) (done : List Sub)
    → r + 1 < 2 ^ 32
    → 0 < m
    → post x (y ∷ ys) (posting r done c m) ≡ (ok, posting (r + 1) (done ++ (x ∷ [])) c (m - 1))
unfolding post push_buddy ref_clone
post_next x y ys r m c done small room = ground arith

abbrev pub take : ℕ → List Sub → List Sub
take zero xs = []
take (suc n) [] = []
take (suc n) (x ∷ xs) = x ∷ take n xs

module _ (overflow : ℕ → ℕ → Sign) where
  -- The task, by reference, to the subscribers one after the other.
  post_list :
      (key x : Sub) (xs : List Sub) (r m c : ℕ) (done : List Sub)
      → r + length xs < 2 ^ 32
      → length xs < m
      → operate_list (compare_sub overflow) none key post (x ∷ xs) (posting r done c m)
        ≡ (ok, posting (r + length xs) (done ++ (x ∷ xs)) c (m - suc (length xs)))
  unfolding operate_list
  post_list key x [] r m c done small room =
      rw (post_last x r m c done (omega arith)) (ground arith)
  post_list key x (y ∷ ys) r m c done small room =
      rw (post_next x y ys r m c done (omega arith) (omega arith)) (
        post_list key y ys (r + 1) (m - 1) c (done ++ (x ∷ [])) (omega arith) (omega arith)
        ∙ ground (arith, append_assoc done (x ∷ []) (y ∷ ys)))

  post_none :
      (x : Sub) (xs : List Sub) (r c : ℕ) (done : List Sub)
      → r + 1 < 2 ^ 32
      → (r' : ℕ) × (post x xs (posting r done c 0) ≡ (mem_insufficient, posting r' done c 0))
        × (r ≤ r')
        × (r' ≤ r + 1)
  unfolding post push_buddy ref_clone
  post_none x [] r c done small = (r, ground arith, omega arith, omega arith)
  post_none x (y ∷ ys) r c done small = (r + 1, ground arith, omega arith, omega arith)

  -- With memory for the first `m` pushes only.
  post_short :
      (key x : Sub) (xs : List Sub) (r m c : ℕ) (done : List Sub)
      → r + length xs + 1 < 2 ^ 32
      → m ≤ length xs
      → (r' : ℕ) × (operate_list (compare_sub overflow) none key post (x ∷ xs) (posting r done c m)
          ≡ (mem_insufficient, posting r' (done ++ take m (x ∷ xs)) c 0))
        × (r + m ≤ r')
        × (r' < 2 ^ 32)
  unfolding operate_list
  post_short key x xs r zero c done small few =
      let (r', is, low, high) = post_none x xs r c done (omega arith) in
      (r', rw is (simp append-nil), omega arith, omega arith)
  post_short key x [] r (suc m) c done small few = absurd (omega arith)
  post_short key x (y ∷ ys) r (suc m) c done small few =
      let (r', is, low, high) =
        post_short key y ys (r + 1) m c (done ++ (x ∷ [])) (omega arith) (omega arith) in
      let less : suc m - 1 ≡ m = omega arith in
      (
        r',
        rw (post_next x y ys r (suc m) c done (omega arith) (omega arith), less, is)
            (ground (arith, append_assoc done (x ∷ []) (take m (y ∷ ys)))),
        omega arith,
        high,
      )

  releases_some :
      (k r c m : ℕ) (done : List Sub)
      → k < r
      → r < 2 ^ 32
      → releases k (posting r done c m) ≡ posting (r - k) done c m
  unfolding releases ref_release
  releases_some zero r c m done lt small = ground arith
  releases_some (suc k) r c m done lt small = ground (arith, releases_some k (r - 1) c m done)

  releases_all :
      (r c m : ℕ) (done : List Sub)
      → suc r < 2 ^ 32
      → releases (suc r) (posting (suc r) done c m) ≡ posting 0 done (c + 1) m
  unfolding releases ref_release
  releases_all zero c m done small = ground arith
  releases_all (suc r) c m done small = ground (arith, releases_all r c m done)

  svr_post-on_found :
      (type : ℕ) (t : Tree (Entry Sub)) (s : Posting)
      → svr_post overflow type t s
        ≡ settle (
            on_found
              (compare_sub overflow)
              none
              (key_of type)
              post
              (find (compare_sub overflow) (key_of type) t)
              s)
  unfolding svr_post
  svr_post-on_found type t s =
      ap settle (operate-on_found (compare_sub overflow) none (key_of type) post t s)

  -- With memory for each push: a task of one reference goes to every subscriber of its type, in order;
  -- the object is given back to its pool at the release by the last of them, and not before.
  pub post_delivers :
      (type c m : ℕ) (t : Tree (Entry Sub)) (e : Entry Sub)
      → find (compare_sub overflow) (key_of type) t ≡ (ok, some e)
      → length (values e) ≤ m
      → length (values e) + 1 < 2 ^ 32
      → (out : Posting) × (svr_post overflow type t (posting 1 [] c m) ≡ out)
        × (out.pushed ≡ values e)
        × ((releases (length (values e)) out).recycled ≡ c + 1)
        × ((k : ℕ) → k < length (values e) → (releases k out).recycled ≡ c)
  unfolding settle
  post_delivers type c m t e found room small =
      let xs : List Sub = map (λ x. x.1) e.next in
      let count : 1 + length xs ≡ suc (length xs) = omega arith in
      let all = post_list (key_of type) e.item xs 1 m c [] (omega arith) (omega arith) in
      (
        posting (suc (length xs)) (values e) c (m - suc (length xs)),
        svr_post-on_found type t (posting 1 [] c m) ∙ rw (found, all, count) refl,
        refl,
        ap (λ s. s.recycled)
            (releases_all (length xs) c (m - suc (length xs)) (values e) (omega arith)),
        λ k lt.
            ap (λ s. s.recycled)
              (releases_some k (suc (length xs)) c (m - suc (length xs)) (values e) lt
                (omega arith)),
      )

  -- A task that has no subscriber is given back to its pool at once.
  pub post_unsubscribed :
      (type c m : ℕ) (t : Tree (Entry Sub))
      → find (compare_sub overflow) (key_of type) t ≡ (not_exist, none)
      → svr_post overflow type t (posting 1 [] c m) ≡ posting 0 [] (c + 1) m
  unfolding settle ref_release
  post_unsubscribed type c m t none_found =
      svr_post-on_found type t (posting 1 [] c m) ∙ rw none_found refl

  -- With memory for the pushes to the first `m` subscribers only, of more: the others do not get the
  -- task, and its object stays out of the pool when all who got it have released it.
  pub post_leaks :
      (type c m : ℕ) (t : Tree (Entry Sub)) (e : Entry Sub)
      → find (compare_sub overflow) (key_of type) t ≡ (ok, some e)
      → m < length (values e)
      → length (values e) + 1 < 2 ^ 32
      → (out : Posting) × (svr_post overflow type t (posting 1 [] c m) ≡ out)
        × (out.pushed ≡ take m (values e))
        × ((releases m out).recycled ≡ c)
  unfolding settle
  post_leaks type c m t e found few small =
      let xs : List Sub = map (λ x. x.1) e.next in
      let (r, is, low, high) =
        post_short (key_of type) e.item xs 1 m c [] (omega arith) (omega arith) in
      (
        posting r (take m (values e)) c 0,
        svr_post-on_found type t (posting 1 [] c m) ∙ rw (found, is) refl,
        refl,
        ap (λ s. s.recycled) (releases_some m r c 0 (take m (values e)) (omega arith) high),
      )
