-- ===== src/IntrusiveList/Contents.antt =====
-- The sequence of nodes that an intrusive list of include/coopsync_tbb/detail/intrusive_list.hpp
-- stands for is determined by the memory.
use coopsync_tbb.Base.{◌≡◌, ◌∙◌, refl, sym, subst, ap₂, List, [], ◌∷◌}
use mathlib.Core.HLevel.{Σ_prop_path}
use native.Mathlib.Nat.{ℕ_set}
use native.Mathlib.Bridge.{le_prop}
use coopsync_tbb.IntrusiveList.{Ptr, null, Next, IntrusiveList}
use coopsync_tbb.IntrusiveList.Chain.{Chain, IsList}

Chain-unique : (h : Next) (p : Ptr) (xs ys : List Ptr) → Chain h p xs → Chain h p ys → xs ≡ ys
Chain-unique h p [] [] c d = refl
Chain-unique h p [] (y ∷ ys) c d = absurd (d.1 (sym d.0 ∙ c))
Chain-unique h p (x ∷ xs) [] c d = absurd (c.1 (sym c.0 ∙ d))
Chain-unique h p (x ∷ xs) (y ∷ ys) c d =
    let same : y ≡ x = sym d.0 ∙ c.0 in
    let rest : Chain h (h x) ys = subst (λ z. Chain h (h z) ys) same d.2 in
    ap₂ ◌∷◌ (sym same) (Chain-unique h (h x) xs ys c.2 rest)

Chain-IsProp : (h : Next) (p : Ptr) (xs : List Ptr) → IsProp (Chain h p xs)
Chain-IsProp h p [] = ℕ_set p null
Chain-IsProp h p (x ∷ xs) = hlevel (ℕ_set, Chain-IsProp h (h x) xs)

IsList-IsProp : (h : Next) (l : IntrusiveList) (xs : List Ptr) → IsProp (IsList h l xs)
IsList-IsProp h l xs = hlevel (Chain-IsProp h l.head xs, ℕ_set, le_prop)

-- An intrusive list in given memory stands for at most one sequence of nodes, and in one way.
pub contents-IsProp : (h : Next) (l : IntrusiveList) → IsProp ((xs : List Ptr) × IsList h l xs)
contents-IsProp h l a b =
    Σ_prop_path (IsList-IsProp h l) (Chain-unique h l.head a.0 b.0 a.1.chain b.1.chain)
