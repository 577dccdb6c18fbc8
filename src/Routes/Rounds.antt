-- ===== src/Routes/Rounds.antt =====
-- parser.c, `floydMatrix`: what a round of the outer loop does to a matrix. In the round for the city
-- `k` the distances from and to `k` stay, so that every detour is one of the matrix at the start.
use tp1_so_2c.Base.{
  ℕ, zero, suc, ◌+◌, ◌≤◌, ◌<◌, ◌≡◌, ◌≢◌, refl, ap, sym, ◌∙◌, subst, inl, inr, Bool-cases, arith,
  ◌==◌, ==_iff,
}
use tp1_so_2c.Routes.{Matrix, cell, detour, relax, loop_j, loop_i}
use tp1_so_2c.Routes.Walks.{cell-set_cases, relax_cases}
use tp1_so_2c.Routes.Square.{IsSquare, set_cell-IsSquare, cell-set_self}

-- Two matrices: a distance of the first is there in the second, and has not grown.
pub record Shorter (d e : Matrix) : Type 0 where
  pub at : (a b : ℕ) → cell d a b ≢ 0 → (cell e a b ≢ 0) × (cell e a b ≤ cell d a b)

pub Shorter-refl : (d : Matrix) → Shorter d d
Shorter-refl d = record { at = λ a b n. (n, omega arith) }

pub Shorter-trans : {d e f : Matrix} → Shorter d e → Shorter e f → Shorter d f
Shorter-trans p q = record {
  at = λ a b n.
      let (still, less) = p.at a b n in
      let (still', less') = q.at a b still in (still', omega (arith, less, less'));
}

relax_shorter :
    (m : Matrix) (k i j a b : ℕ)
    → cell m a b ≢ 0
    → (cell (relax m k i j) a b ≢ 0) × (cell (relax m k i j) a b ≤ cell m a b)
relax_shorter m k i j a b n = elim (relax_cases m k i j) [
  | inl same ↦ subst (λ e. (cell e a b ≢ 0) × (cell e a b ≤ cell m a b)) (sym same) (n, omega arith)
  | inr (new, some_way, differ, better) ↦
      subst (λ e. (cell e a b ≢ 0) × (cell e a b ≤ cell m a b)) (sym new)
        (elim (cell-set_cases m i j a b (detour m k i j)) [
          | inl same ↦ (λ z. n (sym same ∙ z), omega (arith, same))
          | inr (ea, eb, now) ↦
              let old : cell m a b ≡ cell m i j =
                ap (λ x. cell m x b) ea ∙ ap (λ y. cell m i y) eb in
              (
                λ z. some_way (sym now ∙ z),
                elim better [
                  | inl none_yet ↦ absurd (n (old ∙ none_yet))
                  | inr le ↦ omega (arith, now, old, le)
                ],
              )
        ])
]

relax-Shorter : (m : Matrix) (k i j : ℕ) → Shorter m (relax m k i j)
relax-Shorter m k i j = record { at = relax_shorter m k i j }

-- The matrix `e` stands in the round for `k` that began with `d`.
pub record Round (counter k : ℕ) (d e : Matrix) : Type 0 where
  pub square : IsSquare counter e
  pub from : (a : ℕ) → cell e k a ≡ cell d k a
  pub to : (a : ℕ) → cell e a k ≡ cell d a k
  pub home : cell d k k ≡ 0

-- No detour through `k` begins or ends in `k`.
detour_home : (m : Matrix) (k j : ℕ) → cell m k k ≡ 0 → (detour m k k j ≡ 0) × (detour m k j k ≡ 0)
unfolding detour
detour_home m k j h = ground arith

relax-Round :
    {counter k : ℕ} {d e : Matrix} (i j : ℕ)
    → Round counter k d e
    → Round counter k d (relax e k i j)
relax-Round {counter} {k} {d} {e} i j h = elim (relax_cases e k i j) [
  | inl same ↦ subst (Round counter k d) (sym same) h
  | inr (new, some_way, differ, better) ↦
      let at_home : cell e k k ≡ 0 = h.from k ∙ h.home in
      subst (Round counter k d) (sym new) (record {
        square = set_cell-IsSquare i j (detour e k i j) h.square;
        from = λ a. elim (cell-set_cases e i j k a (detour e k i j)) [
          | inl same ↦ same ∙ h.from a
          | inr (ek, ea, now) ↦
              absurd (some_way (ap (λ x. detour e k x j) (sym ek) ∙ (detour_home e k j at_home).0))
        ];
        to = λ a. elim (cell-set_cases e i j a k (detour e k i j)) [
          | inl same ↦ same ∙ h.to a
          | inr (ea, ek, now) ↦
              absurd (some_way (ap (λ x. detour e k i x) (sym ek) ∙ (detour_home e k i at_home).1))
        ];
        home = h.home;
      })
]

-- A detour that there is at the start of the round has been taken into account.
pub record Done (k : ℕ) (d e : Matrix) (a b : ℕ) : Type 0 where
  pub taken :
      cell d a k ≢ 0 → cell d k b ≢ 0 → (cell e a b ≢ 0) × (cell e a b ≤ cell d a k + cell d k b)

Done-Shorter : {k a b : ℕ} {d e f : Matrix} → Done k d e a b → Shorter e f → Done k d f a b
Done-Shorter {k} {a} {b} done s = record {
  taken = λ p q.
      let (some_way, le) = done.taken p q in
      let (still, less) = s.at a b some_way in (still, omega (arith, le, less));
}

relax_gain :
    {counter : ℕ} {e : Matrix} (k i j : ℕ)
    → IsSquare counter e
    → i < counter
    → j < counter
    → i ≢ j
    → cell e i k ≢ 0
    → cell e k j ≢ 0
    → (cell (relax e k i j) i j ≢ 0) × (cell (relax e k i j) i j ≤ cell e i k + cell e k j)
unfolding relax detour
relax_gain {counter} {e} k i j s hi hj differ p q =
    ground (arith, cell-set_self i j (cell e i k + cell e k j) s hi hj)

relax-Done :
    {counter k : ℕ} {d e : Matrix} (i j : ℕ)
    → Round counter k d e
    → i < counter
    → j < counter
    → i ≢ j
    → Done k d (relax e k i j) i j
relax-Done {counter} {k} {d} {e} i j h hi hj differ = record {
  taken = λ p q.
      let (some_way, le) =
        relax_gain k i j h.square hi hj differ (λ z. p (sym (h.to i) ∙ z))
          (λ z. q (sym (h.from j) ∙ z)) in
      (some_way, omega (arith, le, h.to i, h.from j));
}

loop_j-Shorter : (left : ℕ) (e : Matrix) (k i j : ℕ) → Shorter e (loop_j left e k i j)
unfolding loop_j
loop_j-Shorter zero e k i j = Shorter-refl e
loop_j-Shorter (suc left) e k i j =
    Shorter-trans (relax-Shorter e k i j) (loop_j-Shorter left (relax e k i j) k i (j + 1))

loop_j-Round :
    {counter k : ℕ} {d : Matrix} (left : ℕ) (e : Matrix) (i j : ℕ)
    → Round counter k d e
    → Round counter k d (loop_j left e k i j)
unfolding loop_j
loop_j-Round zero e i j h = h
loop_j-Round {counter} {k} (suc left) e i j h =
    loop_j-Round left (relax e k i j) i (j + 1) (relax-Round i j h)

loop_j-Done :
    {counter k : ℕ} {d : Matrix} (left : ℕ) (e : Matrix) (i j b : ℕ)
    → Round counter k d e
    → i < counter
    → b < counter
    → i ≢ b
    → j ≤ b
    → b < j + left
    → Done k d (loop_j left e k i j) i b
unfolding loop_j
loop_j-Done zero e i j b h hi hb differ from to = absurd (omega arith)
loop_j-Done {counter} {k} {d} (suc left) e i j b h hi hb differ from to =
    elim (Bool-cases (j == b)) [
      | inl here ↦
          let same : j ≡ b = (==_iff j b).0 here in
          Done-Shorter
            (subst (λ x. Done k d (relax e k i x) i b) (sym same) (relax-Done i b h hi hb differ))
            (loop_j-Shorter left (relax e k i j) k i (j + 1))
      | inr later ↦
          loop_j-Done left (relax e k i j) i (j + 1) b (relax-Round i j h) hi hb differ
            (ground arith) (omega arith)
    ]

loop_i-Shorter : (left counter : ℕ) (e : Matrix) (k i : ℕ) → Shorter e (loop_i left counter e k i)
unfolding loop_i
loop_i-Shorter zero counter e k i = Shorter-refl e
loop_i-Shorter (suc left) counter e k i =
    Shorter-trans (loop_j-Shorter counter e k i 0)
      (loop_i-Shorter left counter (loop_j counter e k i 0) k (i + 1))

loop_i-Round :
    {counter k : ℕ} {d : Matrix} (left : ℕ) (e : Matrix) (i : ℕ)
    → Round counter k d e
    → Round counter k d (loop_i left counter e k i)
unfolding loop_i
loop_i-Round zero e i h = h
loop_i-Round {counter} {k} (suc left) e i h =
    loop_i-Round left (loop_j counter e k i 0) (i + 1) (loop_j-Round counter e i 0 h)

loop_i-Done :
    {counter k : ℕ} {d : Matrix} (left : ℕ) (e : Matrix) (i a b : ℕ)
    → Round counter k d e
    → a < counter
    → b < counter
    → a ≢ b
    → i ≤ a
    → a < i + left
    → Done k d (loop_i left counter e k i) a b
unfolding loop_i
loop_i-Done zero e i a b h ha hb differ from to = absurd (omega arith)
loop_i-Done {counter} {k} {d} (suc left) e i a b h ha hb differ from to =
    let row = loop_j counter e k i 0 in
    elim (Bool-cases (i == a)) [
      | inl here ↦
          let same : i ≡ a = (==_iff i a).0 here in
          Done-Shorter
            (subst (λ x. Done k d (loop_j counter e k x 0) a b) (sym same)
              (loop_j-Done counter e a 0 b h ha hb differ (omega arith) (omega arith)))
            (loop_i-Shorter left counter row k (i + 1))
      | inr later ↦
          loop_i-Done left row (i + 1) a b (loop_j-Round counter e i 0 h) ha hb differ
            (ground arith) (omega arith)
    ]

-- A whole round of the outer loop.
pub round-Done :
    {counter : ℕ} {d : Matrix} (k a b : ℕ)
    → IsSquare counter d
    → cell d k k ≡ 0
    → a < counter
    → b < counter
    → a ≢ b
    → Shorter d (loop_i counter counter d k 0)
      × IsSquare counter (loop_i counter counter d k 0)
      × Done k d (loop_i counter counter d k 0) a b
round-Done {counter} {d} k a b s home ha hb differ =
    let h : Round counter k d d = record {
      square = s;
      from = λ x. refl;
      to = λ x. refl;
      home = home;
    } in
    (
      loop_i-Shorter counter counter d k 0,
      (loop_i-Round counter d 0 h).square,
      loop_i-Done counter d 0 a b h ha hb differ (omega arith) (omega arith),
    )

pub round_IsSquare :
    {counter : ℕ} {d : Matrix} (k : ℕ)
    → IsSquare counter d
    → cell d k k ≡ 0
    → IsSquare counter (loop_i counter counter d k 0)
round_IsSquare {counter} {d} k s home =
    (loop_i-Round counter d 0
      (record { square = s; from = λ x. refl; to = λ x. refl; home = home })).square
