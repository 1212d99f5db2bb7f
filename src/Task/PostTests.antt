-- ===== src/Task/PostTests.antt =====
-- Postings and subscriptions at concrete trees of subscribers.
use zinfo_tech.Base.{
  ltb, ◌++◌, if◌then◌else◌, ◌>>=◌, ℕ, ◌+◌, ◌<◌, ◌≡◌, refl, some, [], ◌∷◌, arith, ok,
}
use zinfo_tech.Base.Lists.{length}
use zinfo_tech.Rbtree.Shape.{inorder}
use zinfo_tech.Rbtree.{
  Sign, verify, property1, property2, property4, property5, property5_helper, black, red, Tree,
  leaf, node, great, little, Entry, find, insert, insert_case1, plug,
}
use zinfo_tech.Rbtree.Findx.{values}
use zinfo_tech.Task.Post.{Sub, Posting, svr_post, unsubscribe, subscribe}
use zinfo_tech.Task.Delivery.{posting, releases, take, post_delivers, post_leaks}
use zinfo_tech.Task.Subscribe.{unsubscribe_other}

-- What a machine gives where the difference of two keys does not fit.
abbrev wrapped : ℕ → ℕ → Sign
wrapped a b = if ltb a b then great else little

abbrev sub : ℕ → ℕ → Sub
sub type mis = record { tsk_type = type; mis = mis; operate_by = 1 }

-- Missions 1, 3 and 2 for tasks of type 5.
abbrev three_subs : Entry Sub
three_subs = record { item = sub 5 1; next = (red, sub 5 3) ∷ (red, sub 5 2) ∷ [] }

abbrev subscribers : Tree (Entry Sub)
subscribers = node black leaf three_subs leaf

subscribed :
    (subscribe wrapped (sub 5 1) leaf >>= λ r.
    subscribe wrapped (sub 5 2) r.1 >>= λ s. subscribe wrapped (sub 5 3) s.1)
    ≡ some (ok, subscribers)
unfolding subscribe insert insert_case1 plug
subscribed = refl

post_delivers_example :
    (out : Posting) × (svr_post wrapped 5 subscribers (posting 1 [] 0 10) ≡ out)
    × (out.pushed ≡ values three_subs)
    × ((releases (length (values three_subs)) out).recycled ≡ 0 + 1)
    × ((k : ℕ) → k < length (values three_subs) → (releases k out).recycled ≡ 0)
unfolding find
post_delivers_example =
    post_delivers wrapped 5 0 10 subscribers three_subs refl (omega arith) (omega arith)

post_leaks_example :
    (out : Posting) × (svr_post wrapped 5 subscribers (posting 1 [] 0 1) ≡ out)
    × (out.pushed ≡ take 1 (values three_subs))
    × ((releases 1 out).recycled ≡ 0)
unfolding find
post_leaks_example =
    post_leaks wrapped 5 0 1 subscribers three_subs refl (omega arith) (omega arith)

unsubscribe_other_example :
    (unsubscribe wrapped 5 1 (node black leaf (record { item = sub 5 1; next = [] }) leaf)
      ≡ some (ok, node black leaf (record { item = sub 5 1; next = [] }) leaf))
    × ((t : Tree (Entry Sub)) × (unsubscribe wrapped 5 2
            (node black leaf (record { item = sub 5 1; next = [] }) leaf)
          ≡ some (ok, t))
        × (inorder t ≡ inorder {E = Entry Sub} leaf ++ inorder {E = Entry Sub} leaf)
        × (verify t ≡ ok))
unfolding verify property1 property2 property4 property5 property5_helper
unsubscribe_other_example =
    unsubscribe_other wrapped black leaf leaf (sub 5 1) 2 refl (λ h. absurd (omega arith))
