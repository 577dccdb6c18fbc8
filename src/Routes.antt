-- ===== src/Routes.antt =====
-- parser.c, `floydMatrix`: the distances between all the cities, from those between neighbours. In the
-- matrix a distance of 0 stands for no way.
pub mod Walks
pub mod Square
pub mod Rounds
pub mod Shortest
use tp1_so_2c.Base.{
  ℕ, zero, suc, ◌+◌, Bool, true, false, List, [], ◌==◌, ◌||◌, ltb, get_or, set, if◌then◌else◌,
}

abbrev pub Matrix : Type 0
Matrix = List (List ℕ)

-- `matrix[i][j]`. The loops stay inside of the matrix, which has as many rows and columns as there are
-- cities.
abbrev pub cell : Matrix → ℕ → ℕ → ℕ
cell m i j = get_or (get_or m i []) j 0

abbrev pub set_cell : Matrix → ℕ → ℕ → ℕ → Matrix
set_cell m i j d = set m i (set (get_or m i []) j d)

-- The way from `i` to `j` through `k`: `aux2`.
unfoldable pub detour : Matrix → ℕ → ℕ → ℕ → ℕ
detour m k i j =
    if cell m i k == 0 then 0 else if cell m k j == 0 then 0 else cell m i k + cell m k j

-- The body of the loops.
unfoldable pub relax : Matrix → ℕ → ℕ → ℕ → Matrix
relax m k i j =
    let aux1 = cell m i j in
    let aux2 = detour m k i j in
    if aux2 == 0
    then m
    else if i == j
    then m
    else if aux1 == 0 || ltb aux2 aux1
    then set_cell m i j aux2
    else m

-- The three loops, with the number of rounds that are left.
unfoldable pub loop_j : ℕ → Matrix → ℕ → ℕ → ℕ → Matrix
loop_j zero m k i j = m
loop_j (suc left) m k i j = loop_j left (relax m k i j) k i (j + 1)

unfoldable pub loop_i : ℕ → ℕ → Matrix → ℕ → ℕ → Matrix
loop_i zero counter m k i = m
loop_i (suc left) counter m k i = loop_i left counter (loop_j counter m k i 0) k (i + 1)

unfoldable pub loop_k : ℕ → ℕ → Matrix → ℕ → Matrix
loop_k zero counter m k = m
loop_k (suc left) counter m k = loop_k left counter (loop_i counter counter m k 0) (k + 1)

-- `floydMatrix`
unfoldable pub floyd_matrix : Matrix → ℕ → Matrix
floyd_matrix m counter = loop_k counter counter m 0
