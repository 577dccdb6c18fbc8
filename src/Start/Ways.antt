-- ===== src/Start/Ways.antt =====
-- parser.c, `parseMap`: the ways of a text in the matrix, before `floydMatrix`.
use tp1_so_2c.Base.{
  ℕ, zero, suc, ◌≡◌, ◌≢◌, refl, sym, ◌∙◌, inl, inr, List, [], ◌∷◌, length, replicate, get_or,
}
use tp1_so_2c.Routes.{Matrix, cell, set_cell}
use tp1_so_2c.Routes.Walks.{cell-set_cases}
use tp1_so_2c.Parser.Scanning.{value}
use tp1_so_2c.Parser.Cities.{CityText}
use tp1_so_2c.Parser.Links.{Link, place, join_cells, link_ways}
use tp1_so_2c.Parser.World.{text_ways}

-- Each way is between two different cities.
abbrev pub AllApart : List CityText → List Link → Type 0
AllApart ts [] = Unit
AllApart ts ((from, to, digits) ∷ ls) = (place from ts 0 ≢ place to ts 0) × AllApart ts ls

set_cell-home :
    (m : Matrix) (i j d a : ℕ) → i ≢ j → cell m a a ≡ 0 → cell (set_cell m i j d) a a ≡ 0
set_cell-home m i j d a apart home = elim (cell-set_cases m i j a a d) [
  | inl same ↦ same ∙ home
  | inr (ei, ej, new) ↦ absurd (apart (sym ei ∙ ej))
]

link_ways-home :
    (ts : List CityText) (m : Matrix) (ls : List Link) (a : ℕ)
    → AllApart ts ls
    → cell m a a ≡ 0
    → cell (link_ways ts m ls) a a ≡ 0
link_ways-home ts m [] a apart home = home
link_ways-home ts m ((from, to, digits) ∷ ls) a apart home =
    let i = place from ts 0 in
    let j = place to ts 0 in
    let d = value 0 digits in
    link_ways-home ts (join_cells m i j d) ls a apart.1 (
      set_cell-home (set_cell m i j d) j i d a (λ e. apart.0 (sym e))
        (set_cell-home m i j d a apart.0 home))

get_or-zeros : (n a : ℕ) → let zeros : List ℕ = replicate n 0 in get_or zeros a 0 ≡ 0
get_or-zeros zero a = refl
get_or-zeros (suc n) zero = refl
get_or-zeros (suc n) (suc a) = get_or-zeros n a

cell-zeros : (n k a b : ℕ) → cell (replicate n (replicate k 0)) a b ≡ 0
cell-zeros zero k a b = refl
cell-zeros (suc n) k zero b = get_or-zeros k b
cell-zeros (suc n) k (suc a) b = cell-zeros n k a b

-- No city has a way to itself.
pub text_ways-home :
    (ts : List CityText) (ls : List Link) (a : ℕ) → AllApart ts ls → cell (text_ways ts ls) a a ≡ 0
text_ways-home ts ls a apart =
    link_ways-home ts (replicate (length ts) (replicate (length ts) 0)) ls a apart
      (cell-zeros (length ts) (length ts) a a)
