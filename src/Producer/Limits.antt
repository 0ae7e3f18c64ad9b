-- ===== src/Producer/Limits.antt =====
-- The limit on the elements that the window loses in a round of produce.
use crash_simulator.Base.{
  ℕ, ◌≡◌, subst, arith, List, [], ◌∷◌, All, ℤ, pos, negsuc, pos_part, -ℤ_parts, ◌≤ℤ◌,
}
use crash_simulator.Py.{ok}
use crash_simulator.TraceManager.{Entry}
use crash_simulator.Producer.{limit_of, smaller, least_limit, backtrace_limit}

-- The index lies between `least` and the end of the window.
abbrev pub Inside : ℕ → ℕ → Entry → Type 0
Inside least size e = (pos least ≤ℤ e.index) × (e.index ≤ℤ pos size)

smaller_le : (a b : ℤ) → (smaller a b ≤ℤ a) × (smaller a b ≤ℤ b)
smaller_le a b = ground arith

-- The limit is at most that of each mutator.
least_limit_le :
    (b : ℕ) (limit : ℤ) (es : List Entry)
    → (least_limit b limit es ≤ℤ limit) × All (λ e. least_limit b limit es ≤ℤ limit_of b e) es
unfolding least_limit
least_limit_le b limit [] = (omega arith, tt)
least_limit_le b limit (e ∷ es) =
    let (p, q) = least_limit_le b (smaller limit (limit_of b e)) es in
    let (u, v) = smaller_le limit (limit_of b e) in (omega arith, (omega arith, q))

-- So as many elements can leave the window as the limit says, if it is positive.
limit-Inside :
    (b size : ℕ) (limit : ℤ) (e : Entry)
    → limit ≤ℤ limit_of b e
    → Inside 0 size e
    → Inside (pos_part limit) size e
limit-Inside b size (pos n) e h p = omega (arith, -ℤ_parts e.index (pos b))
limit-Inside b size (negsuc n) e h p = p

limits-Inside :
    (b size : ℕ) (limit : ℤ) (es : List Entry)
    → All (λ e. limit ≤ℤ limit_of b e) es
    → All (Inside 0 size) es
    → All (Inside (pos_part limit) size) es
limits-Inside b size limit [] q a = tt
limits-Inside b size limit (e ∷ es) q a =
    (limit-Inside b size limit e q.0 a.0, limits-Inside b size limit es q.1 a.1)

backtrace_eq :
    (b : ℕ) (e : Entry) (es : List Entry) (limit : ℤ)
    → backtrace_limit b (e ∷ es) ≡ ok limit
    → least_limit b (limit_of b e) (e ∷ es) ≡ limit
unfolding backtrace_limit
backtrace_eq b e es limit h = cc

pub backtrace-Inside :
    (b size : ℕ) (limit : ℤ) (es : List Entry)
    → backtrace_limit b es ≡ ok limit
    → All (Inside 0 size) es
    → All (Inside (pos_part limit) size) es
backtrace-Inside b size limit [] k a = tt
backtrace-Inside b size limit (e ∷ es) k a =
    limits-Inside b size limit (e ∷ es)
      (subst (λ x. All (λ e'. x ≤ℤ limit_of b e') (e ∷ es)) (backtrace_eq b e es limit k)
        (least_limit_le b (limit_of b e) (e ∷ es)).1)
      a
