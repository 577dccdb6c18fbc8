-- ===== src/Simulation/Destinations/Loop.antt =====
-- app/map.c, the loop of `app_give_destinations`: each round keeps the best entries so far.
use tp1_so_2c.Base.{
  ℕ, ◌≤◌, ◌<◌, ◌≡◌, refl, sym, subst, ◌∙◌, inl, inr, true, false, Bool-cases, Option-cases, List,
  [], ◌∷◌, ◌++◌, Option, none, some, arith, get_elem?, set, length, length-set, length-append,
  some_inj, >>=-eq-some, ◌==◌, if◌then◌else◌, ltb,
}
use mathlib.Core.List.{Perm, append-nil, append_assoc, perm_middle}
use mathlib.Core.List.Perm
use tp1_so_2c.Base.Int.{ℤ, ◌≤ℤ◌, ltb_ℤ, is_zero_ℤ}
use tp1_so_2c.Base.Places.{get_elem?-set, set-last, set-set, set-perm}
use tp1_so_2c.Comm.{max_destinations}
use tp1_so_2c.Models.{City, Map, Plane, get_distance}
use tp1_so_2c.Simulation.Destinations.Best.{
  info, candidates, AllBelow, AllBelow-le, Selected, insertion_entry,
}
use tp1_so_2c.Simulation.Destinations.{
  scored, CityInfo, get_city_score, insert_score, offer_city, offer_cities,
}

module _ {kept rejected cands : List CityInfo} (sel : Selected kept rejected cands)
    (x : CityInfo) where
  open sel use {split, bound, top, full}

  -- There is room: nothing has been rejected yet.
  Selected-add : length kept < max_destinations → Selected (kept ++ x ∷ []) rejected (x ∷ cands)
  Selected-add room = elim full [
    | inl e ↦ record {
      split =
          rw (append_assoc kept (x ∷ []) rejected)
            (Perm.trans (perm_middle kept rejected) (Perm.cons x split));
      bound = omega (arith, length-append kept (x ∷ []));
      top = λ k y p. rw e tt;
      full = inl e;
    }
    | inr e ↦ absurd (omega arith)
  ]

  -- The least entry makes place for a better one.
  Selected-replace :
      (j : ℕ) (old : CityInfo)
      → get_elem? kept j ≡ some old
      → ((k : ℕ) (y : CityInfo) → get_elem? kept k ≡ some y → old.score ≤ℤ y.score)
      → old.score ≤ℤ x.score
      → length kept ≡ max_destinations
      → Selected (set kept j x) (old ∷ rejected) (x ∷ cands)
  Selected-replace j old at least better size = record {
    split =
        Perm.trans (perm_middle (set kept j x) rejected)
          (Perm.trans (Perm.append_right rejected (set-perm kept j old x at)) (Perm.cons x split));
    bound = omega (arith, length-set kept j x);
    top = λ k y p. replaced_top k y (sym (get_elem?-set kept j k old x at) ∙ p);
    full = inr (length-set kept j x ∙ size);
  }
    where
      replaced_top :
          (k : ℕ) (y : CityInfo)
          → (if k == j then some x else get_elem? kept k) ≡ some y
          → AllBelow y.score (old ∷ rejected)
      replaced_top k y p = elim (Bool-cases (k == j)) [
        | inl e ↦
            let same : x ≡ y = some_inj (rw e at p) in
            subst (λ (z : CityInfo). AllBelow z.score (old ∷ rejected)) same
              (better, AllBelow-le old.score x.score rejected better (top j old at))
        | inr e ↦ let p' : get_elem? kept k ≡ some y = rw e at p in (least k y p', top k y p')
      ]

  -- No entry is worse than the new one.
  Selected-reject :
      ((k : ℕ) (y : CityInfo) → get_elem? kept k ≡ some y → x.score ≤ℤ y.score)
      → length kept ≡ max_destinations
      → Selected kept (x ∷ rejected) (x ∷ cands)
  Selected-reject worse size = record {
    split = Perm.trans (perm_middle kept rejected) (Perm.cons x split);
    bound = bound;
    top = λ k y p. (worse k y p, top k y p);
    full = inr size;
  }

Selected-perm :
    {kept rejected cands cands' : List CityInfo}
    → Selected kept rejected cands
    → Perm cands cands'
    → Selected kept rejected cands'
Selected-perm s p = record {
  split = Perm.trans s.split p;
  bound = s.bound;
  top = s.top;
  full = s.full;
}

-- The three ways in which `insertScore` ends on an array of ten.
data Insertion (infos : List CityInfo) (score : ℤ) (out : Option (ℕ × List CityInfo)) : Type 0 where
  added :
      length infos < max_destinations
      → out ≡ some (length infos, infos ++ scored score ∷ [])
      → Insertion infos score out
  replaced :
      (j : ℕ) (old : CityInfo)
      → length infos ≡ max_destinations
      → get_elem? infos j ≡ some old
      → ((k : ℕ) (y : CityInfo) → get_elem? infos k ≡ some y → old.score ≤ℤ y.score)
      → old.score ≤ℤ score
      → out ≡ some (j, set infos j (record old { score = score }))
      → Insertion infos score out
  refused :
      length infos ≡ max_destinations
      → ((k : ℕ) (y : CityInfo) → get_elem? infos k ≡ some y → score ≤ℤ y.score)
      → out ≡ none
      → Insertion infos score out

insert_score_lem :
    (infos : List CityInfo) (score : ℤ)
    → length infos ≤ max_destinations
    → Insertion infos score (insert_score infos max_destinations score)
unfolding insert_score
insert_score_lem [] score h = added (omega arith) refl
insert_score_lem (first ∷ others) score h =
    elim (Bool-cases (ltb (length (first ∷ others)) max_destinations)) [
      | inl e ↦ added (ground arith) (rw e)
      | inr e ↦
          let l = insertion_entry first others in
          elim (Bool-cases (ltb_ℤ l.old.score score)) [
            | inl better ↦
                replaced _ l.old (ground arith) l.at l.least (ground arith) (rw (e, l.at, better))
            | inr worse ↦
                refused (ground arith) (λ k y p. ground (arith, l.least k y p))
                  (rw (e, l.at, worse))
          ]
    ]

module _ (map : Map) (plane : Plane) where
  -- The candidates after a city has been looked at.
  with_city : City → List CityInfo → List CityInfo
  with_city c cands =
      if is_zero_ℤ (get_city_score c.stock plane.stocks) then cands else info map plane c ∷ cands

  -- A round that puts the entry of the city at index `j` of `placed`.
  module _ (c : City) (infos : List CityInfo)
      (scores : is_zero_ℤ (get_city_score c.stock plane.stocks) ≡ false) where
    offer_refused :
        insert_score infos max_destinations (get_city_score c.stock plane.stocks) ≡ none
        → offer_city map plane c infos ≡ some infos
    unfolding offer_city
    offer_refused e = rw (scores, e)

    offer_placed :
        (j : ℕ) (placed : List CityInfo) {out : List CityInfo}
        → insert_score infos max_destinations (get_city_score c.stock plane.stocks)
          ≡ some (j, placed)
        → offer_city map plane c infos ≡ some out
        → out ≡ set placed j (info map plane c)
    unfolding offer_city info
    offer_placed j placed e run = ground (arith, e, scores)

    offer_city-scored :
        {rejected cands out : List CityInfo}
        → Selected infos rejected cands
        → offer_city map plane c infos ≡ some out
        → (rejected' : List CityInfo) × Selected out rejected' (info map plane c ∷ cands)
    unfolding info
    offer_city-scored {rejected} sel run =
        elim (insert_score_lem infos (get_city_score c.stock plane.stocks) sel.bound) [
          | added room e ↦ (
            rejected,
            rw (offer_placed _ _ e run, set-last infos (scored _) (info map plane c))
                (Selected-add sel (info map plane c) room),
          )
          | replaced j old size at least better e ↦ (
            old ∷ rejected,
            rw (offer_placed _ _ e run, set-set infos j _ (info map plane c))
                (Selected-replace sel (info map plane c) j old at least better size),
          )
          | refused size worse e ↦ (
            info map plane c ∷ rejected,
            rw (some_inj (sym (offer_refused e) ∙ run)) at
                (Selected-reject sel (info map plane c) worse size),
          )
        ]

  offer_city_unscored :
      (c : City) (infos : List CityInfo)
      → is_zero_ℤ (get_city_score c.stock plane.stocks) ≡ true
      → offer_city map plane c infos ≡ some infos
  unfolding offer_city
  offer_city_unscored c infos e = rw e

  offer_city-Selected :
      (c : City) {infos rejected cands out : List CityInfo}
      → Selected infos rejected cands
      → offer_city map plane c infos ≡ some out
      → (rejected' : List CityInfo) × Selected out rejected' (with_city c cands)
  unfolding with_city
  offer_city-Selected c {infos} {rejected} sel run =
      elim (Bool-cases (is_zero_ℤ (get_city_score c.stock plane.stocks))) [
        | inl e ↦
            (rejected, rw e (rw (some_inj (sym (offer_city_unscored c infos e) ∙ run)) at sel))
        | inr e ↦ rw e (offer_city-scored c infos e sel run)
      ]

  candidates-cons :
      (c : City) (cs : List City) (cands : List CityInfo)
      → Perm (candidates map plane cs ++ with_city c cands) (candidates map plane (c ∷ cs) ++ cands)
  unfolding candidates with_city
  candidates-cons c cs cands = elim (Bool-cases (is_zero_ℤ (get_city_score c.stock plane.stocks))) [
    | inl e ↦ rw e (Perm.refl _)
    | inr e ↦ rw e (perm_middle (candidates map plane cs) cands)
  ]

  offer_cities-Selected :
      (cs : List City) {infos rejected cands out : List CityInfo}
      → Selected infos rejected cands
      → offer_cities map plane cs infos ≡ some out
      → (rejected' : List CityInfo) × Selected out rejected' (candidates map plane cs ++ cands)
  unfolding offer_cities candidates
  offer_cities-Selected [] {infos} {rejected} sel run = (rejected, rw (some_inj run) at sel)
  offer_cities-Selected (c ∷ cs) {infos} {cands = cands} sel run =
      let (mid, first, rest) = >>=-eq-some (offer_city map plane c infos) _ run in
      let (rejected', sel') = offer_city-Selected c sel first in
      let (rejected'', sel'') = offer_cities-Selected cs sel' rest in
      (rejected'', Selected-perm sel'' (candidates-cons c cs cands))

  -- The matrix has a distance from each of the cities to the city of the plane.
  abbrev pub HasDistances : List City → Type 0
  HasDistances [] = Unit
  HasDistances (c ∷ cs) =
      ((d : ℕ) × (get_distance map c.id plane.city_id ≡ some d)) × HasDistances cs

  offer_city-ne-none :
      (c : City) (infos : List CityInfo) (d : ℕ)
      → get_distance map c.id plane.city_id ≡ some d
      → offer_city map plane c infos ≡ none
      → ⊥
  unfolding offer_city
  offer_city-ne-none c infos d e absent = ground (arith, e, absent)

  offer_cities-runs :
      (cs : List City) (infos : List CityInfo)
      → HasDistances cs
      → (out : List CityInfo) × (offer_cities map plane cs infos ≡ some out)
  unfolding offer_cities
  offer_cities-runs [] infos h = (infos, refl)
  offer_cities-runs (c ∷ cs) infos h = elim (Option-cases (offer_city map plane c infos)) [
    | inl e ↦ absurd (offer_city-ne-none c infos h.0.0 h.0.1 e)
    | inr (mid, e) ↦ rw e (offer_cities-runs cs mid h.1)
  ]

  -- When the matrix has the distances, the loop over the cities finishes, and of all the cities that
  -- need something of the plane's load it keeps the ten with the best scores, or all of them if
  -- they are at most ten.
  pub offer_cities_lem :
      HasDistances map.cities
      → (kept rejected : List CityInfo) × (offer_cities map plane map.cities [] ≡ some kept)
        × Selected kept rejected (candidates map plane map.cities)
  offer_cities_lem h =
      let (kept, run) = offer_cities-runs map.cities [] h in
      let (rejected, sel) = offer_cities-Selected map.cities empty run in
      (kept, rejected, run, rw (append-nil (candidates map plane map.cities)) at sel)
    where
      empty : Selected [] [] []
      empty = record {
        split = Perm.refl [];
        bound = omega arith;
        top = λ k x p. tt;
        full = inl refl;
      }
