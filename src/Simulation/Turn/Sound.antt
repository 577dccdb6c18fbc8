-- ===== src/Simulation/Turn/Sound.antt =====
-- app/map.c: sound maps, and the messages that fit them.
use tp1_so_2c.Base.{
  ℕ, zero, suc, ◌≤◌, ◌<◌, ◌≡◌, refl, ap, ◌∙◌, subst, inl, inr, Bool-cases, List, [], ◌∷◌, Option,
  some, ◌==◌, some_inj, length, length-set, get_elem?, set, arith, ◌>>=◌,
}
use tp1_so_2c.Base.Places.{get_elem?-exists}
use tp1_so_2c.Base.Int.{ℤ, pos, negsuc}
use tp1_so_2c.Comm.{max_stocks, StockMessagePart, PlaneMessageHeader}
use tp1_so_2c.Models.{Product, Stock, City, Map, Plane, get_distance, get_from_vector}
use tp1_so_2c.Models.Catalogue.{IsCatalogue, get_product_name-known, init_stock-known, copied-known}
use tp1_so_2c.Simulation.Receive.{init_stocks}
use tp1_so_2c.Simulation.Unload.{
  find_stock, discharge, unload_stock, unload_all, set_city, update_map,
}

-- Every city has a number below `n` and at least one stock.
abbrev pub AreStocked : ℕ → List City → Type 0
AreStocked n [] = Unit
AreStocked n (c ∷ cs) = (c.id < n) × (0 < length c.stock) × AreStocked n cs

-- The products are a catalogue, every city has a number and a stock, and the matrix has a cell for each two
-- cities.
pub record IsSound (m : Map) : Type 0 where
  pub catalogue : IsCatalogue m.product
  pub stocked : AreStocked (length m.cities) m.cities
  pub distances :
      (i j : ℕ)
      → i < length m.cities
      → j < length m.cities
      → (d : ℕ) × (get_distance m i (pos j) ≡ some d)

-- The entries of a message, as many as it says, are of products below `n`.
abbrev pub AreProducts : ℕ → ℕ → List ℕ → List ℤ → Type 0
AreProducts n zero ids quantities = Unit
AreProducts n (suc k) (id ∷ ids) (q ∷ quantities) = (id < n) × AreProducts n k ids quantities
AreProducts n (suc k) _ _ = ⊥

abbrev pub IsIndex : ℕ → ℤ → Type 0
IsIndex n (pos i) = i < n
IsIndex n (negsuc i) = ⊥

-- What a plane says of itself fits a map.
abbrev pub Fits : ℕ → Map → PlaneMessageHeader → StockMessagePart → Type 0
Fits airlines m header stocks =
    (header.airline < airlines)
    × IsIndex (length m.cities) header.city_id
    × (stocks.count ≤ max_stocks)
    × AreProducts (length m.product) stocks.count stocks.stock_id stocks.quantities

pub init_stocks-known :
    (ps : List Product) (n : ℕ) (ids : List ℕ) (quantities : List ℤ)
    → IsCatalogue ps
    → AreProducts (length ps) n ids quantities
    → (ss : List Stock) × (init_stocks n ids quantities ps ≡ some (ss, ps)) × (length ss ≡ n)
unfolding init_stocks
init_stocks-known ps zero ids quantities c a = ([], refl, refl)
init_stocks-known ps (suc n) [] quantities c a = absurd a
init_stocks-known ps (suc n) (id ∷ ids) [] c a = absurd a
init_stocks-known ps (suc n) (id ∷ ids) (q ∷ quantities) c a =
    let (p, at) = get_elem?-exists ps id a.0 in
    let (ss, runs, size) = init_stocks-known ps n ids quantities c a.1 in
    (
      record { amount = q; product = p } ∷ ss,
      rw (
        get_product_name-known ps id p at,
        copied-known id p c at,
        init_stock-known id p q c at,
        runs,
      ),
      ap suc size,
    )

-- A search through some stocks ends at one of them.
find_stock-below :
    (id : ℕ) (s : Stock) (ss : List Stock)
    → (j : ℕ) × (find_stock id (s ∷ ss) ≡ some j) × (j < length (s ∷ ss))
unfolding find_stock
find_stock-below id s [] = (0, ground arith, omega arith)
find_stock-below id s (t ∷ ss) =
    let (j, found, lt) = find_stock-below id t ss in
    elim (Bool-cases (s.product.id == id)) [
      | inl e ↦ (0, rw e, omega arith)
      | inr e ↦ (suc j, rw (e, found), omega (arith, lt))
    ]

-- One stock is unloaded, and the city keeps the number of its stocks.
abbrev Unloads : List Stock → Option (List Stock × Stock) → Type 0
Unloads cs o = (out : List Stock × Stock) × (o ≡ some out) × (length out.0 ≡ length cs)

unload_stock-runs : (cs : List Stock) (p : Stock) → 0 < length cs → Unloads cs (unload_stock cs p)
unfolding unload_stock
unload_stock-runs [] p lt = absurd (omega arith)
unload_stock-runs (c ∷ cs) p lt =
    let (j, found, below) = find_stock-below p.product.id c cs in
    let (s, at) = get_elem?-exists (c ∷ cs) j below in
    (
      (
        set (c ∷ cs) j (record s { amount = (discharge s.amount p.amount).0 }),
        record p { amount = (discharge s.amount p.amount).1 },
      ),
      rw (found, at),
      length-set (c ∷ cs) j _,
    )

unload_all-runs :
    (cs ps : List Stock)
    → 0 < length cs
    → (out : List Stock × List Stock) × (unload_all cs ps ≡ some out)
      × (length out.0 ≡ length cs)
      × (length out.1 ≡ length ps)
unfolding unload_all
unload_all-runs cs [] lt = ((cs, []), refl, refl, refl)
unload_all-runs cs (p ∷ ps) lt =
    let (one, run, size) = unload_stock-runs cs p lt in
    let (all, runs, city, plane) = unload_all-runs one.0 ps (omega (arith, lt, size)) in
    ((all.0, one.1 ∷ all.1), rw (run, runs), city ∙ size, ap suc plane)

AreStocked-at :
    (n : ℕ) (cs : List City) (i : ℕ) (c : City)
    → AreStocked n cs
    → get_elem? cs i ≡ some c
    → (c.id < n) × (0 < length c.stock)
AreStocked-at n [] i c a e = cc
AreStocked-at n (x ∷ cs) zero c a e =
    subst (λ (x : City). (x.id < n) × (0 < length x.stock)) (some_inj e) (a.0, a.1)
AreStocked-at n (x ∷ cs) (suc i) c a e = AreStocked-at n cs i c a.2 e

AreStocked-set :
    (n : ℕ) (cs : List City) (i : ℕ) (c : City)
    → AreStocked n cs
    → c.id < n
    → 0 < length c.stock
    → AreStocked n (set cs i c)
AreStocked-set n [] i c a lt st = tt
AreStocked-set n (x ∷ cs) zero c a lt st = (lt, st, a.2)
AreStocked-set n (x ∷ cs) (suc i) c a lt st = (a.0, a.1, AreStocked-set n cs i c a.2 lt st)

-- A map with other amounts.
pub record IsLike (m m' : Map) : Type 0 where
  pub products : m'.product ≡ m.product
  pub cities : length m'.cities ≡ length m.cities

pub IsLike-refl : (m : Map) → IsLike m m
IsLike-refl m = record { products = refl; cities = refl }

pub IsLike-trans : {a b c : Map} → IsLike a b → IsLike b c → IsLike a c
IsLike-trans x y = record { products = y.products ∙ x.products; cities = y.cities ∙ x.cities }

-- `updateMap` on a plane in a city of the map.
pub update_map-runs :
    (m : Map) (plane : Plane)
    → IsSound m
    → IsIndex (length m.cities) plane.city_id
    → (out : Map × Plane) × (update_map m plane ≡ some out)
      × IsSound out.0
      × IsLike m out.0
      × (length out.1.stocks ≡ length plane.stocks)
unfolding update_map
update_map-runs m plane s at = in_city plane.city_id at
  where
    in_city :
        (id : ℤ)
        → IsIndex (length m.cities) id
        → (out : Map × Plane) × ((get_from_vector m.cities id >>= λ city.
              unload_all city.stock plane.stocks >>= λ r. some (
                record m { cities = set_city m.cities id (record city { stock = r.0 }) },
                record plane { stocks = r.1 },
              ))
            ≡ some out)
          × IsSound out.0
          × IsLike m out.0
          × (length out.1.stocks ≡ length plane.stocks)
    in_city (negsuc i) lt = absurd lt
    in_city (pos i) lt =
        let (city, found) = get_elem?-exists m.cities i lt in
        let (low, stocked) = AreStocked-at (length m.cities) m.cities i city s.stocked found in
        let (r, runs, kept, left) = unload_all-runs city.stock plane.stocks stocked in
        let cities = set m.cities i (record city { stock = r.0 }) in
        let same : length cities ≡ length m.cities =
          length-set m.cities i (record city { stock = r.0 }) in
        (
          (record m { cities = cities }, record plane { stocks = r.1 }),
          rw (found, runs),
          record {
            catalogue = s.catalogue;
            stocked = rw same (
                AreStocked-set (length m.cities) m.cities i (record city { stock = r.0 }) s.stocked
                  low (omega (arith, stocked, kept)));
            distances =
                λ a b x y. s.distances a b (omega (arith, x, same)) (omega (arith, y, same));
          },
          record { products = refl; cities = same },
          left,
        )
