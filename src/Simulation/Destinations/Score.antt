-- ===== src/Simulation/Destinations/Score.antt =====
-- app/map.c, `getCityScore`: what a plane could unload in a city, and what it could after unloading.
use tp1_so_2c.Base.{ℕ, ◌≡◌, refl, sym, ◌∙◌, false, List, [], ◌∷◌, some, arith, some_inj}
use tp1_so_2c.Base.Int.{ℤ, pos, parts, ◌+ℤ◌, ◌-ℤ◌, ◌≤ℤ◌, int_laws, min_ℤ}
use tp1_so_2c.Models.{Stock}
use tp1_so_2c.Simulation.Unload.{unload_all}
use tp1_so_2c.Simulation.Unload.Balance.{NonNegative, unload_all-Balanced}
use tp1_so_2c.Simulation.Unload.Needs.{amount_of, has_product, IsDistinct, Covers, unload_all-Met}
use tp1_so_2c.Simulation.Unload.Products.{unload_all-products, IsDistinct-of_products}
use tp1_so_2c.Simulation.Destinations.{stock_score, add_scores, get_city_score}

stock_score-eq :
    (c : Stock) (ps : List Stock)
    → pos 0 ≤ℤ c.amount
    → stock_score c ps ≡ min_ℤ c.amount (amount_of c.product.id ps)
unfolding stock_score amount_of min_ℤ
stock_score-eq c [] h = ground arith
stock_score-eq c (p ∷ ps) h = ground (arith, stock_score-eq c ps h)

-- The units that the plane could unload in the city, product by product.
pub unloadable : List Stock → List Stock → ℤ
unloadable [] ps = pos 0
unloadable (c ∷ cs) ps = min_ℤ c.amount (amount_of c.product.id ps) +ℤ unloadable cs ps

add_scores-eq :
    (acc : ℤ) (cs ps : List Stock) → NonNegative cs → add_scores acc cs ps ≡ acc +ℤ unloadable cs ps
unfolding add_scores unloadable
add_scores-eq acc [] ps h = omega int_laws
add_scores-eq acc (c ∷ cs) ps h = omega (
  int_laws,
  parts (add_scores-eq (acc +ℤ stock_score c ps) cs ps h.1),
  parts (stock_score-eq c ps h.0),
)

-- The score of a city with no negative amount is what the plane could unload there: the smaller of
-- need and load, summed over the stocks of the city.
pub get_city_score_lem :
    (cs ps : List Stock) → NonNegative cs → get_city_score cs ps ≡ unloadable cs ps
unfolding get_city_score
get_city_score_lem cs ps h = add_scores-eq (pos 0) cs ps h ∙ zero_add (unloadable cs ps)
  where
    zero_add : (a : ℤ) → pos 0 +ℤ a ≡ a
    zero_add a = omega int_laws

-- Each stock of `part` is the first of its product in `whole`.
abbrev AllFirst : List Stock → List Stock → Type 0
AllFirst whole [] = Unit
AllFirst whole (s ∷ ss) = (s.amount ≡ amount_of s.product.id whole) × AllFirst whole ss

AllFirst-cons :
    (x : Stock) (whole part : List Stock)
    → has_product x.product.id part ≡ false
    → AllFirst whole part
    → AllFirst (x ∷ whole) part
unfolding has_product amount_of
AllFirst-cons x whole [] h a = tt
AllFirst-cons x whole (s ∷ ss) h a =
    (ground (arith, a.0), AllFirst-cons x whole ss (ground arith) a.1)

IsDistinct-AllFirst : (ss : List Stock) → IsDistinct ss → AllFirst ss ss
unfolding amount_of
IsDistinct-AllFirst [] d = tt
IsDistinct-AllFirst (s ∷ ss) d =
    (ground arith, AllFirst-cons s ss ss d.0 (IsDistinct-AllFirst ss d.1))

unloadable-zero :
    (whole part ps : List Stock)
    → ((i : ℕ) → min_ℤ (amount_of i whole) (amount_of i ps) ≡ pos 0)
    → AllFirst whole part
    → unloadable part ps ≡ pos 0
unfolding unloadable
unloadable-zero whole [] ps none_left a = refl
unloadable-zero whole (s ∷ ss) ps none_left a =
    rw (a.0, none_left s.product.id, unloadable-zero whole ss ps none_left a.1) (omega int_laws)

min_left : (c p : ℤ) → min_ℤ (c -ℤ min_ℤ c p) (p -ℤ min_ℤ c p) ≡ pos 0
unfolding min_ℤ ◌-ℤ◌
min_left c p = ground arith

-- After a plane has unloaded in a city that lists its products, with no product listed twice and no
-- amount negative, that city has score zero for the plane: it is not offered to the plane again.
pub get_city_score-unload_all :
    (cs ps : List Stock) {out : List Stock × List Stock}
    → NonNegative cs
    → NonNegative ps
    → IsDistinct cs
    → IsDistinct ps
    → Covers cs ps
    → unload_all cs ps ≡ some out
    → get_city_score out.0 out.1 ≡ pos 0
get_city_score-unload_all cs ps {out} hc hp dc dp cov e =
    let met = unload_all-Met cs ps hc dp cov in
    let same : (met.left, met.rest) ≡ out = some_inj (sym met.runs ∙ e) in
    let kept = unload_all-products cs ps met.runs in
    let b = unload_all-Balanced cs ps hc hp met.runs in
    rw (← same) (
      get_city_score_lem met.left met.rest b.city_nonneg
      ∙ unloadable-zero met.left met.left met.rest
          (λ i. rw (met.city i, met.plane i) (min_left _ _))
          (IsDistinct-AllFirst met.left (IsDistinct-of_products met.left cs kept.0 dc)))
