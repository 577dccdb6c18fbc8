-- ===== src/Routes/Walks.antt =====
-- parser.c, `floydMatrix`: every distance in the result is that of a walk, and none has grown.
use tp1_so_2c.Base.{
  ℕ, zero, suc, ◌+◌, ◌≤◌, ◌≡◌, ◌≢◌, refl, ap, sym, ◌∙◌, subst, ◌⊎◌, inl, inr, List, [], ◌∷◌, arith,
  get_or, set,
}
use tp1_so_2c.Routes.{Matrix, cell, set_cell, detour, relax, loop_j, loop_i, loop_k, floyd_matrix}

-- A walk along the ways of a matrix, with its length.
pub data Walk (m : Matrix) : ℕ → ℕ → ℕ → Type 0 where
  way : {i j : ℕ} → cell m i j ≢ 0 → Walk m i j (cell m i j)
  join : {i k j a b : ℕ} → Walk m i k a → Walk m k j b → Walk m i j (a + b)

-- What the loops keep, for a matrix `m` that comes from `m0`: a distance is that of a walk, and it has
-- replaced none that was shorter.
pub record Improves (m0 m : Matrix) : Type 0 where
  pub walks : (i j : ℕ) → cell m i j ≢ 0 → Walk m0 i j (cell m i j)
  pub shorter : (i j : ℕ) → cell m0 i j ≢ 0 → (cell m i j ≢ 0) × (cell m i j ≤ cell m0 i j)
  pub diagonal : (i : ℕ) → cell m i i ≡ cell m0 i i

pub get_or-set_cases {ℓ} :
    {A : Type ℓ} (xs : List A) (i a : ℕ) (v d : A)
    → (get_or (set xs i v) a d ≡ get_or xs a d) ⊎ ((a ≡ i) × (get_or (set xs i v) a d ≡ v))
get_or-set_cases [] i a v d = inl refl
get_or-set_cases (x ∷ xs) zero zero v d = inr (refl, refl)
get_or-set_cases (x ∷ xs) zero (suc a) v d = inl refl
get_or-set_cases (x ∷ xs) (suc i) zero v d = inl refl
get_or-set_cases (x ∷ xs) (suc i) (suc a) v d = elim (get_or-set_cases xs i a v d) [
  | inl same ↦ inl same
  | inr (e, new) ↦ inr (ap suc e, new)
]

-- A write changes at most its own cell.
pub cell-set_cases :
    (m : Matrix) (i j a b v : ℕ)
    → (cell (set_cell m i j v) a b ≡ cell m a b)
      ⊎ ((a ≡ i) × (b ≡ j) × (cell (set_cell m i j v) a b ≡ v))
cell-set_cases m i j a b v = elim (get_or-set_cases m i a (set (get_or m i []) j v) []) [
  | inl same ↦ inl (ap (λ r. get_or r b 0) same)
  | inr (ei, row) ↦ elim (get_or-set_cases (get_or m i []) j b v 0) [
    | inl same ↦
        inl (ap (λ r. get_or r b 0) row ∙ same ∙ ap (λ k. get_or (get_or m k []) b 0) (sym ei))
    | inr (ej, new) ↦ inr (ei, ej, ap (λ r. get_or r b 0) row ∙ new)
  ]
]

pub detour_lem :
    (m : Matrix) (k i j : ℕ)
    → detour m k i j ≢ 0
    → (cell m i k ≢ 0) × (cell m k j ≢ 0) × (detour m k i j ≡ cell m i k + cell m k j)
unfolding detour
detour_lem m k i j n = ground arith

-- The body of the loops leaves the matrix alone or writes a detour that is an improvement.
pub relax_cases :
    (m : Matrix) (k i j : ℕ)
    → (relax m k i j ≡ m)
      ⊎ ((relax m k i j ≡ set_cell m i j (detour m k i j))
          × (detour m k i j ≢ 0)
          × (i ≢ j)
          × ((cell m i j ≡ 0) ⊎ (detour m k i j ≤ cell m i j)))
unfolding relax
relax_cases m k i j = ground arith

detour-Walk :
    {m0 m : Matrix} (k i j : ℕ) → Improves m0 m → detour m k i j ≢ 0 → Walk m0 i j (detour m k i j)
detour-Walk {m0} {m} k i j h some_way =
    let (first, second, sum) = detour_lem m k i j some_way in
    subst (Walk m0 i j) (sym sum) (join (h.walks i k first) (h.walks k j second))

written_cell :
    {m0 m : Matrix} (k i j : ℕ)
    → Improves m0 m
    → detour m k i j ≢ 0
    → i ≢ j
    → (cell m i j ≡ 0) ⊎ (detour m k i j ≤ cell m i j)
    → Improves m0 (set_cell m i j (detour m k i j))
written_cell {m0} {m} k i j h some_way differ better = record {
  walks = λ a b n. elim (cell-set_cases m i j a b (detour m k i j)) [
    | inl same ↦ subst (Walk m0 a b) (sym same) (h.walks a b (λ z. n (same ∙ z)))
    | inr (ea, eb, new) ↦ subst (Walk m0 a b) (sym new) (
        subst (λ x. Walk m0 x b (detour m k i j)) (sym ea)
          (subst (λ y. Walk m0 i y (detour m k i j)) (sym eb) (detour-Walk k i j h some_way)))
  ];
  shorter = λ a b n. elim (cell-set_cases m i j a b (detour m k i j)) [
    | inl same ↦
        let (still, less) = h.shorter a b n in
        ((λ z. still (sym same ∙ z)), omega (arith, same, less))
    | inr (ea, eb, new) ↦
        let (still, less) = h.shorter a b n in
        let old : cell m a b ≡ cell m i j = ap (λ x. cell m x b) ea ∙ ap (λ y. cell m i y) eb in
        (
          (λ z. some_way (sym new ∙ z)),
          elim better [
            | inl none_yet ↦ absurd (still (old ∙ none_yet))
            | inr le ↦ omega (arith, new, old, le, less)
          ],
        )
  ];
  diagonal = λ a. elim (cell-set_cases m i j a a (detour m k i j)) [
    | inl same ↦ same ∙ h.diagonal a
    | inr (ea, eb, new) ↦ absurd (differ (sym ea ∙ eb))
  ];
}

relax-Improves : {m0 m : Matrix} (k i j : ℕ) → Improves m0 m → Improves m0 (relax m k i j)
relax-Improves {m0} {m} k i j h = elim (relax_cases m k i j) [
  | inl same ↦ subst (Improves m0) (sym same) h
  | inr (new, some_way, differ, better) ↦
      subst (Improves m0) (sym new) (written_cell k i j h some_way differ better)
]

loop_j-Improves :
    {m0 : Matrix} (left : ℕ) (m : Matrix) (k i j : ℕ)
    → Improves m0 m
    → Improves m0 (loop_j left m k i j)
unfolding loop_j
loop_j-Improves zero m k i j h = h
loop_j-Improves (suc left) m k i j h =
    loop_j-Improves left (relax m k i j) k i (j + 1) (relax-Improves k i j h)

pub loop_i-Improves :
    {m0 : Matrix} (left counter : ℕ) (m : Matrix) (k i : ℕ)
    → Improves m0 m
    → Improves m0 (loop_i left counter m k i)
unfolding loop_i
loop_i-Improves zero counter m k i h = h
loop_i-Improves (suc left) counter m k i h =
    loop_i-Improves left counter (loop_j counter m k i 0) k (i + 1)
      (loop_j-Improves counter m k i 0 h)

loop_k-Improves :
    {m0 : Matrix} (left counter : ℕ) (m : Matrix) (k : ℕ)
    → Improves m0 m
    → Improves m0 (loop_k left counter m k)
unfolding loop_k
loop_k-Improves zero counter m k h = h
loop_k-Improves (suc left) counter m k h =
    loop_k-Improves left counter (loop_i counter counter m k 0) (k + 1)
      (loop_i-Improves counter counter m k 0 h)

pub Improves-refl : (m : Matrix) → Improves m m
Improves-refl m = record {
  walks = λ i j n. way n;
  shorter = λ i j n. (n, omega arith);
  diagonal = λ i. refl;
}

floyd_matrix-Improves : (m : Matrix) (counter : ℕ) → Improves m (floyd_matrix m counter)
unfolding floyd_matrix
floyd_matrix-Improves m counter = loop_k-Improves counter counter m 0 (Improves-refl m)

-- A distance that `floydMatrix` gives is the length of a walk along the ways of the matrix.
pub floyd_matrix-Walk :
    (m : Matrix) (counter i j : ℕ)
    → cell (floyd_matrix m counter) i j ≢ 0
    → Walk m i j (cell (floyd_matrix m counter) i j)
floyd_matrix-Walk m counter i j n = (floyd_matrix-Improves m counter).walks i j n

-- Two cities that the matrix joins stay joined, at a distance that has not grown; and the distance of a
-- city to itself stays what it was.
pub floyd_matrix-shorter :
    (m : Matrix) (counter i j : ℕ)
    → cell m i j ≢ 0
    → (cell (floyd_matrix m counter) i j ≢ 0)
      × (cell (floyd_matrix m counter) i j ≤ cell m i j)
      × (cell (floyd_matrix m counter) i i ≡ cell m i i)
floyd_matrix-shorter m counter i j n =
    let h = floyd_matrix-Improves m counter in
    let (still, less) = h.shorter i j n in (still, less, h.diagonal i)
