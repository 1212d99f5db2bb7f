-- ===== src/Dlist/Foreach.antt =====
-- The loop of zit/container/list.h over the nodes of a list.
use zinfo_tech.Base.{
  ℕ, zero, suc, ◌+◌, ◌<◌, ◌≡◌, refl, ap, ◌∙◌, some, none, List, [], ◌∷◌, ok, arith, ◌>>=◌,
}
use zinfo_tech.Base.Lists.{length}
use zinfo_tech.Dlist.{Ptr, Node, Store, Dlist, visit, foreach, pop_back}
use zinfo_tech.Dlist.Links.{Chain, first}
use zinfo_tech.Dlist.Refine.{IsList}
use zinfo_tech.Dlist.Pop.{popped_back, pop_back_linked, pop_last}

visit-Chain :
    (st : Store) (xs : List ℕ) (b : Ptr) (fuel : ℕ)
    → Chain st b xs none
    → length xs < fuel
    → visit fuel (first xs none) st ≡ some xs
unfolding visit
visit-Chain st xs b zero c small = absurd (omega arith)
visit-Chain st [] b (suc k) c small = refl
visit-Chain st (x ∷ xs) b (suc k) c small =
    ap (λ (p : Node). visit k p.next st >>= λ ys. some (x ∷ ys)) c.0
    ∙ ap (λ o. o >>= λ ys. some (x ∷ ys)) (visit-Chain st xs (some x) k c.1 (omega arith))

-- `zlist_foreach` on a list that is not empty ends, and applies the operation to every node from the
-- first to the last.
pub foreach-IsList :
    (l : Dlist) (x : ℕ) (xs : List ℕ) (fuel : ℕ)
    → IsList l (x ∷ xs)
    → length xs + 1 < fuel
    → foreach fuel l ≡ some (x ∷ xs)
unfolding foreach
foreach-IsList l x xs fuel v small =
    ap (λ p. visit fuel p l.store) v.ends.0
    ∙ visit-Chain l.store (x ∷ xs) none fuel v.chain (omega arith)

-- `zlist_pop_back` of the only node leaves `head` as it is. So `zlist_foreach` on the list, now empty,
-- still applies the operation to the node that was taken.
pub foreach-pop_back :
    (l : Dlist) (x fuel : ℕ)
    → IsList l (x ∷ [])
    → 1 < fuel
    → (l' : Dlist) × (pop_back l ≡ some (ok, some x, l'))
      × IsList l' []
      × (foreach fuel l' ≡ some (x ∷ []))
unfolding foreach
foreach-pop_back l x fuel v small = (
  popped_back l none,
  pop_back_linked l x none v.ends.1 (ap (λ (n : Node). n.prev) v.chain.0) (omega (arith, v.sized))
      (omega (arith, v.sized)),
  pop_last l x [] v (omega arith),
  ap (λ p. visit fuel p l.store) v.ends.0
      ∙ visit-Chain l.store (x ∷ []) none fuel v.chain (omega arith),
)
