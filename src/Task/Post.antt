-- ===== src/Task/Post.antt =====
-- `ztsk_svr_post`, `ztsk_post` and the subscriptions of src/task.c, for one task at a time, and the
-- reference count of an object by src/memory.c.
use zinfo_tech.Base.{
  leb, ℕ, ◌+◌, ◌-◌, ◌%◌, ◌^◌, Bool, true, false, ◌&&◌, Option, none, List, [], ◌∷◌, ◌++◌, Err, ok,
  not_exist, mem_insufficient, ltb, ◌==◌, if◌then◌else◌, inc32, dec32,
}
use zinfo_tech.Rbtree.{Tree, Sign, equal, great, little, Entry, insert}
use zinfo_tech.Rbtree.Erasex.{erasex}
use zinfo_tech.Rbtree.Findx.{operate}

-- `ztsk_subs_t`: the task type is the key, and stands first. A handler is known by number.
pub record Sub : Type 0 where
  pub tsk_type : ℕ
  pub mis : ℕ
  pub operate_by : ℕ

-- The keys are 32-bit words, which `zrbtree_compare_node` without a comparison takes for `int32_t`.
-- This is the signed key of a word, plus 2^31.
abbrev pub signed_key : ℕ → ℕ
signed_key a = (a + 2 ^ 31) % 2 ^ 32

-- The sign of the difference of two keys as it fits in an `int`. Where it does not, it is undefined in
-- C, and `overflow` says what comes out.
abbrev pub compare_key : (ℕ → ℕ → Sign) → ℕ → ℕ → Sign
compare_key overflow a b =
    let x = signed_key a in
    let y = signed_key b in
    if x == y
    then equal
    else if ltb y x
    then (if ltb x (y + 2 ^ 31) then great else overflow a b)
    else (if leb y (x + 2 ^ 31) then little else overflow a b)

-- `cmp_erase_sub`, true for `ZEQUAL`
abbrev pub cmp_erase_sub : Sub → Sub → Bool
cmp_erase_sub sub sub1 =
    if (sub.tsk_type == sub1.tsk_type) && (sub.mis == sub1.mis) then false else true

module _ (overflow : ℕ → ℕ → Sign) where
  abbrev pub compare_sub : Sub → Sub → Sign
  compare_sub a b = compare_key overflow a.tsk_type b.tsk_type

  unfoldable pub subscribe : Sub → Tree (Entry Sub) → Option (Err × Tree (Entry Sub))
  subscribe sub t = insert compare_sub true sub t

  unfoldable pub unsubscribe : ℕ → ℕ → Tree (Entry Sub) → Option (Err × Tree (Entry Sub))
  unsubscribe task_type mis t =
      erasex compare_sub cmp_erase_sub (record { tsk_type = task_type; mis = mis; operate_by = 0 })
        t

-- A task that is cloned by reference, the buddies that were pushed, as the subscriber of each, and
-- whether the object went back to its pool. `room` says how many more pushes find memory.
pub record Posting : Type 0 where
  pub ref : ℕ
  pub pushed : List Sub
  pub recycled : ℕ
  pub room : ℕ

-- `zobj_ref_clone`
unfoldable pub ref_clone : Posting → Err × Posting
ref_clone s = let r = inc32 s.ref in ((if ltb r 2 then not_exist else ok), record s { ref = r })

-- `zobj_ref_release`: the last release gives the object back.
unfoldable pub ref_release : Posting → Posting
ref_release s =
    let r = dec32 s.ref in
    if r == 0 then record s { ref = r; recycled = s.recycled + 1 } else record s { ref = r }

-- The push on the queue of the subscriber's mission.
unfoldable pub push_buddy : Sub → Posting → Err × Posting
push_buddy sub s =
    if s.room == 0
    then (mem_insufficient, s)
    else (ok, record s { pushed = s.pushed ++ (sub ∷ []); room = s.room - 1 })

-- `ztsk_post` for the node of a subscriber, with the nodes behind it. If cloning fails the task
-- itself is posted; by reference both are the same object. The wake-up of the mission is a part of
-- the moves of the threads.
unfoldable pub post : Sub → List Sub → Posting → Err × Posting
unfolding ref_clone push_buddy
post sub [] s = push_buddy sub s
post sub (_ ∷ _) s = push_buddy sub (ref_clone s).1

-- The end of `ztsk_svr_post`: a task without a subscriber is released.
unfoldable pub settle : Err × Posting → Posting
unfolding ref_release
settle (not_exist, s) = ref_release s
settle (ret, s) = s

module _ (overflow : ℕ → ℕ → Sign) where
  unfoldable pub svr_post : ℕ → Tree (Entry Sub) → Posting → Posting
  unfolding post settle
  svr_post type t s = settle (
      operate (compare_sub overflow) none (record { tsk_type = type; mis = 0; operate_by = 0 }) post
        t s)
