-- ===== src/Tests/Roads.antt =====
-- A run of `floydMatrix` of parser.c, and its theorems at it.
use tp1_so_2c.Base.{ℕ, zero, suc, ◌≤◌, ◌≡◌, refl, [], ◌∷◌, arith}
use tp1_so_2c.Routes.{Matrix, cell, floyd_matrix, loop_k, loop_i, loop_j, relax, detour}
use tp1_so_2c.Routes.Shortest.{floyd_matrix_least}
use tp1_so_2c.Routes.Walks.{Walk, way, join}

-- The way from the first city to the last is longer than the one through the second.
abbrev roads : Matrix
roads = (0 ∷ 10 ∷ 40 ∷ []) ∷ (10 ∷ 0 ∷ 5 ∷ []) ∷ (40 ∷ 5 ∷ 0 ∷ []) ∷ []

distance : cell (floyd_matrix roads 3) 0 2 ≡ 15
unfolding floyd_matrix loop_k loop_i loop_j relax detour
distance = refl

-- No city of the matrix has a way to itself.
no_loops : (a : ℕ) → cell roads a a ≡ 0
no_loops zero = refl
no_loops (suc zero) = refl
no_loops (suc (suc zero)) = refl
no_loops (suc (suc (suc a))) = refl

through_second : Walk roads 0 2 15
through_second =
    join (way {i = 0} {j = 1} (λ e. omega arith)) (way {i = 1} {j = 2} (λ e. omega arith))

floyd_matrix_least_example :
    Walk roads 0 2 (cell (floyd_matrix roads 3) 0 2) × (cell (floyd_matrix roads 3) 0 2 ≤ 15)
floyd_matrix_least_example =
    floyd_matrix_least roads 3 0 2 15 (record { rows = refl; columns = (refl, (refl, (refl, tt))) })
      no_loops (λ e. omega arith) through_second
