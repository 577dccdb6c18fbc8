-- ===== src/Routes/Square.antt =====
-- parser.c, `floydMatrix`: square matrices, and a cell that is written.
use tp1_so_2c.Base.{
  ℕ, zero, suc, ◌<◌, ◌≡◌, refl, ap, ◌∙◌, List, [], ◌∷◌, arith, length, length-set, get_or, set,
}
use tp1_so_2c.Routes.{Matrix, cell, set_cell}

-- Every row has `counter` cells.
abbrev pub AllLong : ℕ → Matrix → Type 0
AllLong counter [] = Unit
AllLong counter (r ∷ rs) = (length r ≡ counter) × AllLong counter rs

-- As many rows, and as many cells in each of them.
pub record IsSquare (counter : ℕ) (m : Matrix) : Type 0 where
  pub rows : length m ≡ counter
  pub columns : AllLong counter m

pub AllLong-at :
    (counter : ℕ) (m : Matrix) (i : ℕ)
    → AllLong counter m
    → i < length m
    → length (get_or m i []) ≡ counter
AllLong-at counter [] i a h = absurd (omega arith)
AllLong-at counter (r ∷ rs) zero a h = a.0
AllLong-at counter (r ∷ rs) (suc i) a h = AllLong-at counter rs i a.1 (omega arith)

pub AllLong-set :
    (counter : ℕ) (m : Matrix) (i j d : ℕ) → AllLong counter m → AllLong counter (set_cell m i j d)
AllLong-set counter [] i j d a = tt
AllLong-set counter (r ∷ rs) zero j d a = (length-set r j d ∙ a.0, a.1)
AllLong-set counter (r ∷ rs) (suc i) j d a = (a.0, AllLong-set counter rs i j d a.1)

pub set_cell-IsSquare :
    {counter : ℕ} {m : Matrix} (i j d : ℕ)
    → IsSquare counter m
    → IsSquare counter (set_cell m i j d)
set_cell-IsSquare {counter} {m} i j d s = record {
  rows = length-set m i (set (get_or m i []) j d) ∙ s.rows;
  columns = AllLong-set counter m i j d s.columns;
}

pub get_or-set_self {ℓ} :
    {A : Type ℓ} (xs : List A) (i : ℕ) (v d : A) → i < length xs → get_or (set xs i v) i d ≡ v
get_or-set_self [] i v d h = absurd (omega arith)
get_or-set_self (x ∷ xs) zero v d h = refl
get_or-set_self (x ∷ xs) (suc i) v d h = get_or-set_self xs i v d (omega arith)

pub cell-set_self :
    {counter : ℕ} {m : Matrix} (i j d : ℕ)
    → IsSquare counter m
    → i < counter
    → j < counter
    → cell (set_cell m i j d) i j ≡ d
cell-set_self {counter} {m} i j d s hi hj =
    let row : i < length m = omega (arith, s.rows, hi) in
    ap (λ r. get_or r j 0) (get_or-set_self m i (set (get_or m i []) j d) [] row)
    ∙ get_or-set_self (get_or m i []) j d 0
        (omega (arith, AllLong-at counter m i s.columns row, hj))
