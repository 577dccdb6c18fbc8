-- ===== src/Tests/Turns.antt =====
-- Turns of the simulation of app/map.c, and its theorems at them.
use tp1_so_2c.Base.{
  ◌≡◌, refl, false, List, [], ◌∷◌, some, arith, leb, leb→le, not_leb, if◌then◌else◌, Bool-cases,
  inl, inr,
}
use mathlib.Core.List.{Perm}
use mathlib.Core.List.Perm
use tp1_so_2c.Base.Int.{pos, ◌≤ℤ◌, int_laws}
use tp1_so_2c.Comm.{MessageType, DestinationsMessage}
use tp1_so_2c.Simulation.Destinations.{CityInfo}
use tp1_so_2c.Simulation.Offer.{
  city_info_comparator, AllAfter, IsOrdered, QSort, app_give_destinations,
}
use tp1_so_2c.Simulation.Offer.Nearest.{Offered, app_give_destinations_lem}
use tp1_so_2c.Simulation.Turn.{PlaneMessage, airline_done, unload_stock}
use tp1_so_2c.Simulation.Turn.Run.{ExitState, EndsWell, run_map, run_map-EndsWell}
use tp1_so_2c.Tests.{world, plane}

-- Insertion sort stands in for `qsort`.
insert_info : CityInfo → List CityInfo → List CityInfo
insert_info a [] = a ∷ []
insert_info a (b ∷ bs) = if leb a.distance b.distance then a ∷ b ∷ bs else b ∷ insert_info a bs

sort_infos : List CityInfo → List CityInfo
sort_infos [] = []
sort_infos (a ∷ infos) = insert_info a (sort_infos infos)

insert_info-perm : (a : CityInfo) (bs : List CityInfo) → Perm (insert_info a bs) (a ∷ bs)
unfolding insert_info
insert_info-perm a [] = Perm.refl (a ∷ [])
insert_info-perm a (b ∷ bs) = elim (Bool-cases (leb a.distance b.distance)) [
  | inl e ↦ rw e (Perm.refl (a ∷ b ∷ bs))
  | inr e ↦ rw e (Perm.trans (Perm.cons b (insert_info-perm a bs)) (Perm.swap a b bs))
]

sort_infos-perm : (infos : List CityInfo) → Perm (sort_infos infos) infos
unfolding sort_infos
sort_infos-perm [] = Perm.refl []
sort_infos-perm (a ∷ infos) =
    Perm.trans (insert_info-perm a (sort_infos infos)) (Perm.cons a (sort_infos-perm infos))

AllAfter-le :
    (a b : CityInfo) (cs : List CityInfo)
    → city_info_comparator a b ≤ℤ pos 0
    → AllAfter city_info_comparator b cs
    → AllAfter city_info_comparator a cs
unfolding city_info_comparator
AllAfter-le a b [] h k = tt
AllAfter-le a b (c ∷ cs) h k = (omega (int_laws, k.0), AllAfter-le a b cs h k.1)

AllAfter-insert :
    (b a : CityInfo) (cs : List CityInfo)
    → city_info_comparator b a ≤ℤ pos 0
    → AllAfter city_info_comparator b cs
    → AllAfter city_info_comparator b (insert_info a cs)
unfolding insert_info
AllAfter-insert b a [] h k = (h, tt)
AllAfter-insert b a (c ∷ cs) h k = elim (Bool-cases (leb a.distance c.distance)) [
  | inl e ↦ rw e (h, k)
  | inr e ↦ rw e (k.0, AllAfter-insert b a cs h k.1)
]

insert_info-IsOrdered :
    (a : CityInfo) (bs : List CityInfo)
    → IsOrdered city_info_comparator bs
    → IsOrdered city_info_comparator (insert_info a bs)
unfolding insert_info city_info_comparator
insert_info-IsOrdered a [] h = (tt, tt)
insert_info-IsOrdered a (b ∷ bs) h = elim (Bool-cases (leb a.distance b.distance)) [
  | inl e ↦
      let le : city_info_comparator a b ≤ℤ pos 0 = omega (int_laws, leb→le _ _ e) in
      rw e ((le, AllAfter-le a b bs le h.0), h)
  | inr e ↦
      let le : city_info_comparator b a ≤ℤ pos 0 = omega (int_laws, not_leb _ _ e) in
      rw e (AllAfter-insert b a bs le h.0, insert_info-IsOrdered a bs h.1)
]

sort_infos-IsOrdered : (infos : List CityInfo) → IsOrdered city_info_comparator (sort_infos infos)
unfolding sort_infos
sort_infos-IsOrdered [] = tt
sort_infos-IsOrdered (a ∷ infos) =
    insert_info-IsOrdered a (sort_infos infos) (sort_infos-IsOrdered infos)

pub qsort : QSort city_info_comparator
qsort = record { sort = sort_infos; permutes = sort_infos-perm; orders = sort_infos-IsOrdered }

app_give_destinations_lem_example :
    (msg : DestinationsMessage) × (app_give_destinations qsort world plane ≡ some msg)
    × Offered world plane msg
app_give_destinations_lem_example =
    app_give_destinations_lem qsort world plane ((0, refl), ((10, refl), tt))

-- A plane with 30 units of aspirin unloads in Rosario.
abbrev pub inbox : List PlaneMessage
inbox =
    unload_stock (record {
      header = record { type = MessageType.unload_stock; airline = 0; id = 3; city_id = pos 0 };
      stocks = record { count = 1; stock_id = 0 ∷ []; quantities = pos 30 ∷ [] };
    })
    ∷ airline_done
    ∷ []

abbrev pub no_exit : ExitState
no_exit = record { at_loop = λ t. false; at_wait = λ t. false }

run_map-EndsWell_example : EndsWell world (run_map qsort no_exit 1 world inbox)
run_map-EndsWell_example = run_map-EndsWell qsort no_exit 1 world inbox (omega arith) (omega arith)
