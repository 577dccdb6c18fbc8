-- ===== src/Parser/Links.antt =====
-- parser.c, `parseMap`: the loop over the ways, at the text of some ways.
use tp1_so_2c.Base.{
  ℕ, zero, suc, ◌+◌, ◌<◌, ◌≤◌, ◌≡◌, ap, ap₂, sym, ◌∙◌, false, Bool-cases, inl, inr, List, [], ◌∷◌,
  ◌++◌, arith, ltb, length, length-append, length-set, get_or, set, if◌then◌else◌,
}
use tp1_so_2c.Base.Int.{ℤ, pos}
use tp1_so_2c.Models.{Name, Product, City, same_name, get_city_id}
use tp1_so_2c.Routes.{Matrix, set_cell}
use tp1_so_2c.Parser.{
  scan_word, scan_pair, PairScan, pair_behind, word_at, Parsed, parsed, ◌>>=◌, city_name_max_length,
}
use tp1_so_2c.Parser.Maps.{set_way, link_at, next_link, read_links}
use tp1_so_2c.Parser.Scanning.{
  IsGap, AtName, AtText, IsName, IsNumeral, value, AtText-of_name, AtName-name, if_true, fits,
  skip_IsGap, skip_text, scan_word_lem, scan_pair_pair,
}
use tp1_so_2c.Parser.Cities.{CityText, CitiesMatch}

-- A way as the file describes it: two cities and the digits of the distance.
abbrev pub Link : Type 0
Link = Name × Name × List ℕ

abbrev pub links_text : List ℕ → List Link → List ℕ
links_text g [] = []
links_text g ((from, to, digits) ∷ ls) =
    from ++ (g ++ (to ++ (g ++ (digits ++ (g ++ links_text g ls)))))

-- The number of the first city of a name, counted from `i` on; behind the last if there is none.
abbrev pub place : Name → List CityText → ℕ → ℕ
place name [] i = i
place name ((city, is) ∷ ts) i = if same_name name city then i else place name ts (i + 1)

-- The ways are between cities of the text.
abbrev pub AreLinks : List CityText → List Link → Type 0
AreLinks ts [] = Unit
AreLinks ts ((from, to, digits) ∷ ls) =
    IsName from
    × IsName to
    × IsNumeral digits
    × (place from ts 0 < length ts)
    × (place to ts 0 < length ts)
    × AreLinks ts ls

-- A way in the matrix, in both directions.
abbrev pub join_cells : Matrix → ℕ → ℕ → ℕ → Matrix
join_cells m i j d = set_cell (set_cell m i j d) j i d

-- The ways of a text in the matrix, one after the other.
abbrev pub link_ways : List CityText → Matrix → List Link → Matrix
link_ways ts m [] = m
link_ways ts m ((from, to, digits) ∷ ls) =
    link_ways ts (join_cells m (place from ts 0) (place to ts 0) (value 0 digits)) ls

pub get_city_id-place :
    (ps : List Product) (name : Name) (i : ℕ) (ts : List CityText) (cs : List City)
    → CitiesMatch ps i ts cs
    → place name ts i < i + length ts
    → get_city_id name cs ≡ pos (place name ts i)
get_city_id-place ps name i [] cs m h = absurd (omega arith)
get_city_id-place ps name i ((city, is) ∷ ts) [] m h = absurd m
get_city_id-place ps name i ((city, is) ∷ ts) (c ∷ cs) m h =
    ap (λ (n : Name). if same_name name n then pos c.id else get_city_id name cs) m.0
    ∙ elim (Bool-cases (same_name name city)) [
      | inl e ↦ rw e (ap pos m.1)
      | inr n ↦ rw n (get_city_id-place ps name (i + 1) ts cs m.3 (further n))
    ]
  where
    further : same_name name city ≡ false → place name ts (i + 1) < i + 1 + length ts
    further n = ground (arith, h)

set_way_lem :
    (m : Matrix) (i j d : ℕ)
    → i < length m
    → j < length m
    → set_way m (pos i) (pos j) (pos d) ≡ parsed (join_cells m i j d)
unfolding set_way
set_way_lem m i j d hi hj = ground arith

length-join_cells : (m : Matrix) (i j d : ℕ) → length (join_cells m i j d) ≡ length m
length-join_cells m i j d =
    length-set (set_cell m i j d) j (set (get_or (set_cell m i j d) j []) i d)
    ∙ length-set m i (set (get_or m i []) j d)

scan_pair-gap : (g text : List ℕ) → IsGap g → AtText text → scan_pair (g ++ text) ≡ scan_pair text
unfolding scan_pair scan_word
scan_pair-gap g text h a =
    ap (λ x. pair_behind (word_at x)) (skip_IsGap g text h a ∙ sym (skip_text text a))

AtName-links :
    (g : List ℕ) (ts : List CityText) (ls : List Link) → AreLinks ts ls → AtName (links_text g ls)
AtName-links g ts [] a = tt
AtName-links g ts ((from, to, digits) ∷ ls) a =
    AtName-name from (g ++ (to ++ (g ++ (digits ++ (g ++ links_text g ls))))) a.0

-- The two names and the number of a way, behind its first name.
pub scan_link :
    (g : List ℕ) (ts : List CityText) (to digits : List ℕ) (ls : List Link)
    → IsGap g
    → IsName to
    → IsNumeral digits
    → AreLinks ts ls
    → scan_pair (to ++ (g ++ (digits ++ (g ++ links_text g ls))))
      ≡ PairScan.pair to (pos (value 0 digits)) (links_text g ls)
scan_link g ts to digits ls h n d a =
    scan_pair_pair to digits g (links_text g ls) n d h
      (AtText-of_name (links_text g ls) (AtName-links g ts ls a))

pub links-le-text :
    (g : List ℕ) (ts : List CityText) (ls : List Link)
    → AreLinks ts ls
    → length ls ≤ length (links_text g ls)
links-le-text g ts [] a = omega arith
links-le-text g ts ((from, to, digits) ∷ ls) a =
    some_byte from to digits (links_text g ls) a.0 (links-le-text g ts ls a.5)
  where
    some_byte :
        (v w ds rest : List ℕ)
        → IsName v
        → length ls ≤ length rest
        → suc (length ls) ≤ length (v ++ (g ++ (w ++ (g ++ (ds ++ (g ++ rest))))))
    some_byte [] w ds rest n le = absurd n
    some_byte (c ∷ v) w ds rest n le = omega (
      arith,
      length-append v (g ++ (w ++ (g ++ (ds ++ (g ++ rest))))),
      length-append g (w ++ (g ++ (ds ++ (g ++ rest)))),
      length-append w (g ++ (ds ++ (g ++ rest))),
      length-append g (ds ++ (g ++ rest)),
      length-append ds (g ++ rest),
      length-append g rest,
    )

way_written :
    (ps : List Product) (ts : List CityText) (cs : List City) (m : Matrix) (from to : Name) (d : ℕ)
    → CitiesMatch ps 0 ts cs
    → length m ≡ length ts
    → place from ts 0 < length ts
    → place to ts 0 < length ts
    → set_way m (get_city_id from cs) (get_city_id to cs) (pos d)
      ≡ parsed (join_cells m (place from ts 0) (place to ts 0) d)
way_written ps ts cs m from to d c sq hf ht =
    ap₂ (λ i j. set_way m i j (pos d)) (get_city_id-place ps from 0 ts cs c (omega arith))
      (get_city_id-place ps to 0 ts cs c (omega arith))
    ∙ set_way_lem m (place from ts 0) (place to ts 0) d (omega (arith, sq, hf))
        (omega (arith, sq, ht))

-- The loop over the ways, with fuel for them: it writes each way of the text into the matrix.
pub read_links_lem :
    (g : List ℕ) (ps : List Product) (ts : List CityText) (cs : List City) (fuel : ℕ) (m : Matrix)
    (from to digits : List ℕ) (ls : List Link)
    → IsGap g
    → CitiesMatch ps 0 ts cs
    → length m ≡ length ts
    → place from ts 0 < length ts
    → place to ts 0 < length ts
    → AreLinks ts ls
    → length ls < fuel
    → read_links fuel cs m from to (pos (value 0 digits)) (links_text g ls)
      ≡ parsed (link_ways ts m ((from, to, digits) ∷ ls))
unfolding read_links
read_links_lem g ps ts cs zero m from to digits ls h c sq hf ht a f = absurd (omega arith)
read_links_lem g ps ts cs (suc fuel) m from to digits [] h c sq hf ht a f =
    ap
      (λ (x : Parsed Matrix).
        x >>= λ m'. next_link (λ a b e rest. read_links fuel cs m' a b e rest) m' (scan_word []))
      (way_written ps ts cs m from to (value 0 digits) c sq hf ht)
read_links_lem g ps ts cs (suc fuel) m from to digits ((from', to', digits') ∷ ls) h c sq hf ht a
      f =
    let m1 = join_cells m (place from ts 0) (place to ts 0) (value 0 digits) in
    let next = λ (a b : Name) (e : ℤ) (rest : List ℕ). read_links fuel cs m1 a b e rest in
    let behind = to' ++ (g ++ (digits' ++ (g ++ links_text g ls))) in
    ap
      (λ (x : Parsed Matrix). x >>= λ m'.
        next_link (λ a b e rest. read_links fuel cs m' a b e rest) m'
          (scan_word (links_text g ((from', to', digits') ∷ ls))))
      (way_written ps ts cs m from to (value 0 digits) c sq hf ht)
    ∙ ap (next_link next m1) (scan_word_lem from' g behind a.0 h)
    ∙ if_true (ltb (length from') city_name_max_length) _ _ (fits from' a.0)
    ∙ ap (link_at (λ to d rest. next from' to d rest) m1) (
        scan_pair-gap g behind h
          (AtText-of_name behind (AtName-name to' (g ++ (digits' ++ (g ++ links_text g ls))) a.1))
        ∙ scan_link g ts to' digits' ls h a.1 a.2 a.5)
    ∙ if_true (ltb (length to') city_name_max_length) _ _ (fits to' a.1)
    ∙ read_links_lem g ps ts cs fuel m1 from' to' digits' ls h c
        (length-join_cells m (place from ts 0) (place to ts 0) (value 0 digits) ∙ sq) a.3 a.4 a.5
        (omega arith)
