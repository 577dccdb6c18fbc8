-- ===== src/Routes/Shortest.antt =====
-- parser.c, `floydMatrix`: the distances in the result and the walks of the matrix.
use tp1_so_2c.Base.{
  ℕ, zero, suc, ◌+◌, ◌≤◌, ◌<◌, ◌≡◌, ◌≢◌, refl, sym, ◌∙◌, subst, ◌⊎◌, inl, inr, Bool-cases, List, [],
  ◌∷◌, arith, length, get_or, ◌==◌, ==_iff,
}
use tp1_so_2c.Routes.{Matrix, cell, loop_i, loop_k, floyd_matrix}
use native.Mathlib.Decide.{dec_lt, ℕ_discrete}
use tp1_so_2c.Routes.Walks.{floyd_matrix-Walk, Walk, way, join, Improves-refl, loop_i-Improves}
use tp1_so_2c.Routes.Rounds.{Shorter, Done, round-Done, round_IsSquare}
use tp1_so_2c.Routes.Square.{IsSquare, AllLong}

-- A walk whose inner cities have numbers below a bound.
pub data Via (m : Matrix) (bound : ℕ) : ℕ → ℕ → ℕ → Type 0 where
  direct : {i j : ℕ} → cell m i j ≢ 0 → Via m bound i j (cell m i j)
  through :
      {i l j a b : ℕ} → l < bound → Via m bound i l a → Via m bound l j b → Via m bound i j (a + b)

-- A walk below `k + 1` can be made one below `k`, or one through `k`, that is not longer.
Split : Matrix → ℕ → ℕ → ℕ → ℕ → Type 0
Split m k i j d =
    ((d' : ℕ) × (d' ≤ d) × Via m k i j d')
    ⊎ ((a : ℕ) × (b : ℕ) × (a + b ≤ d) × Via m k i k a × Via m k k j b)

-- Two such walks that meet at a city below `k + 1`.
meet :
    (m : Matrix) (k i l j a b : ℕ)
    → l < suc k
    → Split m k i l a
    → Split m k l j b
    → Split m k i j (a + b)
unfolding Split
meet m k i l j a b h (inl (a', la, p)) (inl (b', lb, q)) = elim (Bool-cases (l == k)) [
  | inl e ↦
      let same : l ≡ k = (==_iff l k).0 e in
      inr (
        a',
        b',
        omega (arith, la, lb),
        subst (λ x. Via m k i x a') same p,
        subst (λ x. Via m k x j b') same q,
      )
  | inr n ↦ inl (a' + b', omega (arith, la, lb), through (ground arith) p q)
]
meet m k i l j a b h (inl (a', la, p)) (inr (c, d, lb, q, r)) = elim (Bool-cases (l == k)) [
  | inl e ↦
      let same : l ≡ k = (==_iff l k).0 e in
      inr (a', d, omega (arith, la, lb), subst (λ x. Via m k i x a') same p, r)
  | inr n ↦ inr (a' + c, d, omega (arith, la, lb), through (ground arith) p q, r)
]
meet m k i l j a b h (inr (c, d, la, p, q)) (inl (b', lb, r)) = elim (Bool-cases (l == k)) [
  | inl e ↦
      let same : l ≡ k = (==_iff l k).0 e in
      inr (c, b', omega (arith, la, lb), p, subst (λ x. Via m k x j b') same r)
  | inr n ↦ inr (c, d + b', omega (arith, la, lb), p, through (ground arith) q r)
]
meet m k i l j a b h (inr (c, d, la, p, q)) (inr (c', d', lb, r, s)) =
    inr (c, d', omega (arith, la, lb), p, s)

split : (m : Matrix) (k : ℕ) {i j d : ℕ} → Via m (suc k) i j d → Split m k i j d
unfolding Split
split m k (direct {i} {j} n) = inl (cell m i j, omega arith, direct n)
split m k (through {i} {l} {j} {a} {b} h p q) = meet m k i l j a b h (split m k p) (split m k q)

-- No walk below `k` between two cities is shorter than their distance in `d`.
Complete : Matrix → ℕ → Matrix → Type 0
Complete m k d = (i j w : ℕ) → i ≢ j → Via m k i j w → (cell d i j ≢ 0) × (cell d i j ≤ w)

start : (m : Matrix) {i j w : ℕ} → Via m 0 i j w → (cell m i j ≢ 0) × (cell m i j ≤ w)
start m (direct n) = (n, omega arith)
start m (through h p q) = absurd (omega arith)

get_or-past {ℓ} : {A : Type ℓ} (xs : List A) (i : ℕ) (d : A) → length xs ≤ i → get_or xs i d ≡ d
get_or-past [] i d h = refl
get_or-past (x ∷ xs) zero d h = absurd (omega arith)
get_or-past (x ∷ xs) (suc i) d h = get_or-past xs i d (omega arith)

row_within :
    (counter : ℕ) (m : Matrix) (i j : ℕ)
    → AllLong counter m
    → get_or (get_or m i []) j 0 ≢ 0
    → (i < length m) × (j < counter)
row_within counter [] i j a n = absurd (n refl)
row_within counter (r ∷ rs) zero j a n = elim (dec_lt j counter) [
  | yes h ↦ (omega arith, h)
  | no h ↦ absurd (n (get_or-past r j 0 (omega (arith, a.0))))
]
row_within counter (r ∷ rs) (suc i) j a n =
    let (hi, hj) = row_within counter rs i j a.1 n in (omega (arith, hi), hj)

-- Both ends of a walk are cities of the matrix.
Via-within :
    {counter bound : ℕ} {m : Matrix} {i j w : ℕ}
    → IsSquare counter m
    → Via m bound i j w
    → (i < counter) × (j < counter)
Via-within {counter} {m} s (direct {i} {j} n) =
    let (hi, hj) = row_within counter m i j s.columns n in (omega (arith, hi, s.rows), hj)
Via-within s (through h p q) = ((Via-within s p).0, (Via-within s q).1)

Walk-below :
    {counter : ℕ} {m : Matrix} {i j w : ℕ} → IsSquare counter m → Walk m i j w → Via m counter i j w
Walk-below s (way n) = direct n
Walk-below s (join p q) = let v = Walk-below s p in through (Via-within s v).1 v (Walk-below s q)

-- A round of the outer loop.
round_Complete :
    {counter : ℕ} (m d : Matrix) (k : ℕ)
    → IsSquare counter m
    → IsSquare counter d
    → cell d k k ≡ 0
    → Complete m k d
    → Complete m (suc k) (loop_i counter counter d k 0)
unfolding Complete Split
round_Complete {counter} m d k sm sd home h i j w differ v =
    let (hi, hj) = Via-within sm v in
    let (shorter, square, done) = round-Done k i j sd home hi hj differ in
    improved shorter done (split m k v)
  where
    kept :
        Shorter d (loop_i counter counter d k 0)
        → (u : ℕ) → u ≤ w
        → Via m k i j u
        → (cell (loop_i counter counter d k 0) i j ≢ 0)
          × (cell (loop_i counter counter d k 0) i j ≤ w)
    kept shorter u le p =
        let (some_way, bound) = h i j u differ p in
        let (still, less) = shorter.at i j some_way in (still, omega (arith, le, bound, less))

    improved :
        Shorter d (loop_i counter counter d k 0)
        → Done k d (loop_i counter counter d k 0) i j
        → Split m k i j w
        → (cell (loop_i counter counter d k 0) i j ≢ 0)
          × (cell (loop_i counter counter d k 0) i j ≤ w)
    improved shorter done (inl (u, le, p)) = kept shorter u le p
    improved shorter done (inr (a, b, le, p, q)) = elim (ℕ_discrete i k) [
      | yes e ↦ kept shorter b (omega (arith, le)) (subst (λ x. Via m k x j b) (sym e) q)
      | no n ↦ elim (ℕ_discrete k j) [
        | yes e ↦ kept shorter a (omega (arith, le)) (subst (λ x. Via m k i x a) e p)
        | no n' ↦
            let (first, bound1) = h i k a n p in
            let (second, bound2) = h k j b n' q in
            let (some_way, bound) = done.taken first second in
            (some_way, omega (arith, le, bound1, bound2, bound))
      ]
    ]

loop_k-Complete :
    {counter : ℕ} (m : Matrix) (left : ℕ) (d : Matrix) (k : ℕ)
    → IsSquare counter m
    → IsSquare counter d
    → ((a : ℕ) → cell d a a ≡ 0)
    → Complete m k d
    → Complete m (k + left) (loop_k left counter d k)
unfolding loop_k
loop_k-Complete m zero d k sm sd home h = subst (λ n. Complete m n d) (omega arith) h
loop_k-Complete {counter} m (suc left) d k sm sd home h =
    let next = loop_i counter counter d k 0 in
    subst (λ n. Complete m n (loop_k left counter next (k + 1))) (omega arith)
      (loop_k-Complete m left next (k + 1) sm (round_IsSquare k sd (home k))
        (λ a. (loop_i-Improves counter counter d k 0 (Improves-refl d)).diagonal a ∙ home a)
        (subst (λ n. Complete m n next) (omega arith) (round_Complete m d k sm sd (home k) h)))

-- On a square matrix in which no city has a way to itself, `floydMatrix` gives two different cities
-- that a walk joins a distance, and no walk between them is shorter.
pub floyd_matrix_shortest :
    (m : Matrix) (counter i j w : ℕ)
    → IsSquare counter m
    → ((a : ℕ) → cell m a a ≡ 0)
    → i ≢ j
    → Walk m i j w
    → (cell (floyd_matrix m counter) i j ≢ 0) × (cell (floyd_matrix m counter) i j ≤ w)
unfolding floyd_matrix Complete
floyd_matrix_shortest m counter i j w s home differ walk =
    loop_k-Complete m counter m 0 s s home (λ a b u n v. start m v) i j w differ
      (subst (λ n. Via m n i j w) (omega arith) (Walk-below s walk))

-- On a square matrix in which no city has a way to itself, `floydMatrix` gives two different cities
-- that a walk joins the length of a walk along the ways of the matrix, and no walk between them is
-- shorter.
pub floyd_matrix_least :
    (m : Matrix) (counter i j w : ℕ)
    → IsSquare counter m
    → ((a : ℕ) → cell m a a ≡ 0)
    → i ≢ j
    → Walk m i j w
    → Walk m i j (cell (floyd_matrix m counter) i j) × (cell (floyd_matrix m counter) i j ≤ w)
floyd_matrix_least m counter i j w s home differ walk =
    let (joined, least) = floyd_matrix_shortest m counter i j w s home differ walk in
    (floyd_matrix-Walk m counter i j joined, least)
