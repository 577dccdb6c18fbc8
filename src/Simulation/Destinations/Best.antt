-- ===== src/Simulation/Destinations/Best.antt =====
-- app/map.c, `insertScore` and the loop of `app_give_destinations`: of the cities that need something
-- of the plane's load, the ten with the best scores are kept.
use tp1_so_2c.Base.{
  ℕ, suc, ◌+◌, ◌≤◌, ◌<◌, ◌≡◌, refl, subst, ◌⊎◌, inl, inr, Bool-cases, List, [], ◌∷◌, ◌++◌, none,
  some, arith, get_elem?, length, if◌then◌else◌,
}
use mathlib.Core.List.{Perm}
use tp1_so_2c.Base.Int.{ℤ, ◌≤ℤ◌, ltb_ℤ, is_zero_ℤ}
use tp1_so_2c.Base.Places.{lt-length}
use tp1_so_2c.Comm.{max_destinations}
use tp1_so_2c.Models.{City, Map, Plane, get_distance}
use tp1_so_2c.Simulation.Destinations.{CityInfo, get_city_score, min_score}

-- The entry of a city, with distance 0 where the matrix has none.
unfoldable pub info : Map → Plane → City → CityInfo
info map plane c = record {
  city_id = c.id;
  distance = elim (get_distance map c.id plane.city_id) [ none ↦ 0 | some d ↦ d ];
  score = get_city_score c.stock plane.stocks;
}

-- The entries of all the cities with a score.
unfoldable pub candidates : Map → Plane → List City → List CityInfo
candidates map plane [] = []
candidates map plane (c ∷ cs) =
    let rest = candidates map plane cs in
    if is_zero_ℤ (get_city_score c.stock plane.stocks) then rest else info map plane c ∷ rest

-- No entry has a score above `s`.
abbrev pub AllBelow : ℤ → List CityInfo → Type 0
AllBelow s [] = Unit
AllBelow s (c ∷ cs) = (c.score ≤ℤ s) × AllBelow s cs

-- The entries kept and those rejected: together they are the candidates; ten at most are kept; a
-- rejected one never has a better score than a kept one; and none is rejected before ten are kept.
pub record Selected (kept rejected cands : List CityInfo) : Type 0 where
  pub split : Perm (kept ++ rejected) cands
  pub bound : length kept ≤ max_destinations
  pub top : (k : ℕ) (x : CityInfo) → get_elem? kept k ≡ some x → AllBelow x.score rejected
  pub full : (rejected ≡ []) ⊎ (length kept ≡ max_destinations)

-- An entry with the least score of a list.
pub record Least (infos : List CityInfo) (j : ℕ) : Type 0 where
  pub old : CityInfo
  pub at : get_elem? infos j ≡ some old
  pub least : (k : ℕ) (x : CityInfo) → get_elem? infos k ≡ some x → old.score ≤ℤ x.score

-- What the loop of `insertScore` knows before it reads the entry `i`.
record Scanned (whole rest : List CityInfo) (i : ℕ) (min : ℤ) (j : ℕ) : Type 0 where
  size : length whole ≡ i + length rest
  ahead : (k : ℕ) (x : CityInfo) → get_elem? rest k ≡ some x → get_elem? whole (i + k) ≡ some x
  best : (m : CityInfo) × (get_elem? whole j ≡ some m) × (m.score ≡ min)
  least : (k : ℕ) (x : CityInfo) → k < i → get_elem? whole k ≡ some x → min ≤ℤ x.score

min_score-Least :
    (whole rest : List CityInfo) (i : ℕ) (min : ℤ) (j : ℕ)
    → Scanned whole rest i min j
    → Least whole (min_score rest i min j)
unfolding min_score
min_score-Least whole [] i min j s =
    let (m, at, e) = s.best in
    record {
      old = m;
      at = at;
      least = λ k x p. rw e (s.least k x (omega (arith, lt-length whole k p, s.size)) p);
    }
min_score-Least whole (c ∷ rest) i min j s =
    let here : get_elem? whole i ≡ some c =
      subst (λ n. get_elem? whole n ≡ some c) (omega arith) (s.ahead 0 c refl) in
    min_score-Least whole rest (i + 1) (if ltb_ℤ c.score min then c.score else min)
      (if ltb_ℤ c.score min then i else j)
      (record {
        size = omega (arith, s.size);
        ahead =
            λ k x p. subst (λ n. get_elem? whole n ≡ some x) (omega arith) (s.ahead (suc k) x p);
        best = elim (Bool-cases (ltb_ℤ c.score min)) [
          | inl e ↦ rw e (c, here, refl)
          | inr e ↦ rw e s.best
        ];
        least = λ k x h p. ground (arith, s.least k x, here);
      })

-- The entry at which `insertScore` puts a score into a full array.
pub insertion_entry :
    (first : CityInfo) (others : List CityInfo)
    → Least (first ∷ others) (min_score (first ∷ others) 0 first.score 0)
insertion_entry first others =
    min_score-Least (first ∷ others) (first ∷ others) 0 first.score 0 (record {
      size = omega arith;
      ahead = λ k x p. subst (λ n. get_elem? (first ∷ others) n ≡ some x) (omega arith) p;
      best = (first, refl, refl);
      least = λ k x h p. absurd (omega arith);
    })

pub AllBelow-le : (s t : ℤ) (cs : List CityInfo) → s ≤ℤ t → AllBelow s cs → AllBelow t cs
AllBelow-le s t [] h a = tt
AllBelow-le s t (c ∷ cs) h a = (omega (arith, a.0), AllBelow-le s t cs h a.1)
