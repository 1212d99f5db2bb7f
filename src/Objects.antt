-- ===== src/Objects.antt =====
-- The object pool of src/memory.c on its fixed blocks: objects that are cloned by reference or by copy.
-- An object lies in a block of the allocator; its body is what follows the fields of `zobj_t`.
pub mod Calls
pub mod Content
pub mod Lives
pub mod Runs
mod Tests
use zinfo_tech.Base.{
  ℕ, zero, suc, ◌+◌, ◌-◌, ◌^◌, ◌<◌, ◌≡◌, Bool, true, false, Option, none, some, Err, ok, not_exist,
  ltb, ◌==◌, if◌then◌else◌, inc32, dec32, ◌>>=◌,
}
use zinfo_tech.Alloc.{Alloc, Block, same, pop, push}
use zinfo_tech.Alloc.Pop.{IsNew}

-- Which functions `clone` and `release` are; NULL before.
pub data Mode : Type 0 where
  unset by_ref by_copy : Mode

pub record Object (B : Type 0) : Type 0 where
  pub ref : ℕ
  pub mode : Mode
  pub size : ℕ
  pub body : B

abbrev pub set : {A : Type 0} → Block → A → Alloc A → Alloc A
set b x a = record a { content = λ c. if same b c then x else a.content c }

-- What a call gives: an error number, an object or none, and the allocator.
abbrev pub Result : Type 0 → Type 0
Result B = Option (Err × Option Block × Alloc (Object B))

module _ {B : Type 0} (empty : B) where
  abbrev pub zeros : Object B
  zeros = record { ref = 0; mode = unset; size = 0; body = empty }

  -- `zobj_pool_pop`; the reference count is set in the reference mode only.
  abbrev pub made : Mode → ℕ → Object B → Object B
  made by_copy size o = record o { mode = by_copy; size = size }
  made m size o = record o { ref = 1; mode = by_ref; size = size }

  abbrev pub dress : Mode → ℕ → Err × Option Block × Alloc (Object B) → Result B
  dress m size (e, none, a) = some (e, none, a)
  dress m size (e, some b, a) = some (e, some b, set b (made m size (a.content b)) a)

  unfoldable pub pool_pop : Option ℕ → Mode → ℕ → Alloc (Object B) → Result B
  pool_pop mem m size a = pop zeros mem a >>= dress m size

  -- `zobj_mem_clone`
  abbrev pub copy_of : Block → Err × Option Block × Alloc (Object B) → Result B
  copy_of b (e, none, a) = some (e, none, a)
  copy_of b (e, some c, a) = some (e, some c, set c (a.content b) a)

  abbrev pub mem_clone : Option ℕ → Block → Alloc (Object B) → Result B
  mem_clone mem b a = pop zeros mem a >>= copy_of b

  -- `zobj_ref_clone`
  abbrev pub ref_clone : Block → Alloc (Object B) → Result B
  ref_clone b a =
      let o = a.content b in
      some (
        (if ltb (inc32 o.ref) 2 then not_exist else ok),
        some b,
        set b (record o { ref = inc32 o.ref }) a,
      )

  -- `zobj_ref_release`
  abbrev pub ref_release : Option ℕ → Block → Alloc (Object B) → Option (Err × Alloc (Object B))
  ref_release mem b a =
      let o = a.content b in
      let a' = set b (record o { ref = dec32 o.ref }) a in
      if dec32 o.ref == 0 then push zeros mem b a' else some (ok, a')

  -- `obj->clone` and `obj->release`
  abbrev pub clone_by : Mode → Option ℕ → Block → Alloc (Object B) → Result B
  clone_by unset mem b a = none
  clone_by by_ref mem b a = ref_clone b a
  clone_by by_copy mem b a = mem_clone mem b a

  abbrev pub release_by :
      Mode → Option ℕ → Block → Alloc (Object B) → Option (Err × Alloc (Object B))
  release_by unset mem b a = none
  release_by by_ref mem b a = ref_release mem b a
  release_by by_copy mem b a = push zeros mem b a

  unfoldable pub clone : Option ℕ → Block → Alloc (Object B) → Result B
  clone mem b a = clone_by (a.content b).mode mem b a

  unfoldable pub release : Option ℕ → Block → Alloc (Object B) → Option (Err × Alloc (Object B))
  release mem b a = release_by (a.content b).mode mem b a

-- `holds` is no part of the program: how many references to the object in a block its users have.
pub record Users (B : Type 0) : Type 0 where
  pub alloc : Alloc (Object B)
  pub holds : Block → ℕ

abbrev pub add : Option Block → (Block → ℕ) → Block → ℕ
add none h c = h c
add (some b) h c = if same b c then h c + 1 else h c

abbrev pub remove : Block → (Block → ℕ) → Block → ℕ
remove b h c = if same b c then h c - 1 else h c

-- A call of a user on an object to which it has a reference, or on the pool. The allocator may find no
-- memory for a new object. A release is one that answers ZEOK: when the last release of an object finds
-- no memory for the queue of recycled blocks, the block is lost and the queue unsound.
module _ {B : Type 0} (empty : B) (u : Users B) where
  pub data Use : Users B → Type 0 where
    makes :
        {e : Err} {b : Option Block} {a : Alloc (Object B)} (m : Mode) (size : ℕ) (mem : Option ℕ)
        → IsNew u.alloc.chunks mem
        → pool_pop empty mem m size u.alloc ≡ some (e, b, a)
        → Use (record { alloc = a; holds = add b u.holds })
    clones :
        {e : Err} {c : Option Block} {a : Alloc (Object B)} (b : Block) (mem : Option ℕ)
        → IsNew u.alloc.chunks mem
        → 0 < u.holds b
        → u.holds b + 1 < 2 ^ 32
        → clone empty mem b u.alloc ≡ some (e, c, a)
        → Use (record { alloc = a; holds = add c u.holds })
    writes :
        (b : Block) (x : B)
        → 0 < u.holds b
        → Use (record u { alloc = set b (record (u.alloc.content b) { body = x }) u.alloc })
    releases :
        {a : Alloc (Object B)} (b : Block) (mem : Option ℕ)
        → 0 < u.holds b
        → release empty mem b u.alloc ≡ some (ok, a)
        → Use (record { alloc = a; holds = remove b u.holds })
