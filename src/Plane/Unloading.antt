-- ===== src/Plane/Unloading.antt =====
-- app/plane.c with app/map.c: a plane hears from the map what it has unloaded.
use tp1_so_2c.Base.{
  ℕ, suc, ◌≤◌, ◌≡◌, refl, ap, ap₂, sym, ◌∙◌, Bool, true, false, List, [], ◌∷◌, Option, none, some,
  arith, length, map, take, leb, if◌then◌else◌,
}
use mathlib.Core.List.{head-eq_of_cons-eq, tail-eq_of_cons-eq}
use tp1_so_2c.Base.Int.{ℤ, pos, ltb_ℤ, ◌≤ℤ◌}
use tp1_so_2c.Comm.{MessageType, StockStateMessage, Payload, max_stocks}
use tp1_so_2c.Models.{Product, Stock}
use tp1_so_2c.Marshall.{marshall_change_stock}
use tp1_so_2c.Marshall.RoundTrip.{marshall_change_stock-quantities}
use tp1_so_2c.Simulation.Unload.{unload_all}
use tp1_so_2c.Simulation.Unload.Balance.{NonNegative, unload_all-Balanced}
use tp1_so_2c.Simulation.Unload.Products.{products, unload_all-products}
use tp1_so_2c.Airline.{stock_message}
use tp1_so_2c.Plane.{
  PlaneThread, returned, at_stock, at_continue, Act, ready, assigned, set_amounts, copy_amounts,
  after_amounts, acting, stop_at, fault, on_message,
}
use tp1_so_2c.Plane.Flight.{no_end}

abbrev pub amounts : List Stock → List ℤ
amounts = map (λ s. s.amount)

-- Whether no stock has an amount above zero.
abbrev pub is_empty : List Stock → Bool
is_empty [] = true
is_empty (s ∷ ss) = if ltb_ℤ (pos 0) s.amount then false else is_empty ss

not_negative : (a : ℤ) → pos 0 ≤ℤ a → ltb_ℤ a (pos 0) ≡ false
not_negative a h = ground arith

set_amounts_lem :
    (ss ts : List Stock)
    → products ts ≡ products ss
    → NonNegative ts
    → set_amounts ss (amounts ts) ≡ assigned ts (is_empty ts)
unfolding set_amounts
set_amounts_lem [] [] e n = refl
set_amounts_lem [] (t ∷ ts) e n = cc
set_amounts_lem (s ∷ ss) [] e n = cc
set_amounts_lem (s ∷ ss) (t ∷ ts) e n =
    rw (not_negative t.amount n.0, set_amounts_lem ss ts (tail-eq_of_cons-eq e) n.1)
      (ap
        (λ (p : Product).
          assigned (record { amount = t.amount; product = p } ∷ ts) (is_empty (t ∷ ts)))
        (sym (head-eq_of_cons-eq e)))

length_of_products : (ss ts : List Stock) → products ts ≡ products ss → length ts ≡ length ss
length_of_products [] [] e = refl
length_of_products [] (t ∷ ts) e = cc
length_of_products (s ∷ ss) [] e = cc
length_of_products (s ∷ ss) (t ∷ ts) e = ap suc (length_of_products ss ts (tail-eq_of_cons-eq e))

take_amounts : (ts : List Stock) → take (length ts) (amounts ts) ≡ amounts ts
take_amounts [] = refl
take_amounts (t ∷ ts) = ap (λ l. t.amount ∷ l) (take_amounts ts)

leb_of_≡ : (m n : ℕ) → m ≡ n → leb m n ≡ true
leb_of_≡ m n e = ground arith

copy_amounts_lem :
    (ss ts : List Stock)
    → products ts ≡ products ss
    → copy_amounts (length ss) (Payload.stock (length ts) (amounts ts)) ≡ some (amounts ts)
copy_amounts_lem ss ts e =
    rw (leb_of_≡ (length ts) (length ss) (length_of_products ss ts e), take_amounts ts)

-- The thread after it has unloaded: it has reported itself ready, and returns if nothing is left.
abbrev pub unloaded : PlaneThread → List Stock → PlaneThread × List Act
unloaded t ts =
    let done = if is_empty ts then true else t.done in
    (
      record t {
        plane = record t.plane { stocks = ts };
        done = done;
        place = if done then returned else at_continue;
      },
      ready ∷ [],
    )

stops :
    (t : PlaneThread) (b : Bool)
    → acting ready (if b then stop_at returned t else stop_at at_continue t)
      ≡ (record t { place = if b then returned else at_continue }, ready ∷ [])
stops t true = refl
stops t false = refl

after_amounts_lem :
    (t : PlaneThread) (ts : List Stock)
    → after_amounts no_end t (assigned ts (is_empty ts)) ≡ unloaded t ts
unfolding after_amounts
after_amounts_lem t ts =
    let done = if is_empty ts then true else t.done in
    stops (record t { plane = record t.plane { stocks = ts }; done = done }) done

-- The thread reads amounts that match its stocks.
on_amounts :
    (t : PlaneThread) (ts : List Stock)
    → products ts ≡ products t.plane.stocks
    → NonNegative ts
    → on_message at_stock no_end t
        (record { type = MessageType.stock; payload = Payload.stock (length ts) (amounts ts) })
      ≡ unloaded t ts
unfolding on_message
on_amounts t ts e n =
    ap
      (λ (o : Option (List ℤ)). elim o [
        | none ↦ stop_at fault t
        | some deltas ↦ after_amounts no_end t (set_amounts t.plane.stocks deltas)
      ])
      (copy_amounts_lem t.plane.stocks ts e)
    ∙ ap (after_amounts no_end t) (set_amounts_lem t.plane.stocks ts e n)
    ∙ after_amounts_lem t ts

-- A plane with at most 50 stocks unloads in a city, no amount being negative. The map marshalls what is
-- left, the airline redirects it, and the thread that reads it, with no end message in sight, has
-- exactly the stocks that the map has for it, has reported itself ready, and is done if none of them
-- has an amount above zero.
pub unload_reply :
    (t : PlaneThread) (cs cs' ts : List Stock) (airline id : ℕ) (city_id : ℤ)
    (msg : StockStateMessage)
    → length t.plane.stocks ≤ max_stocks
    → NonNegative cs
    → NonNegative t.plane.stocks
    → unload_all cs t.plane.stocks ≡ some (cs', ts)
    → marshall_change_stock airline id city_id ts ≡ some msg
    → on_message at_stock no_end t (stock_message msg) ≡ unloaded t ts
unload_reply t cs cs' ts airline id city_id msg few nc np done sent =
    let same = (unload_all-products cs t.plane.stocks done).1 in
    let b = unload_all-Balanced cs t.plane.stocks nc np done in
    let len = length_of_products t.plane.stocks ts same in
    let (count, quantities) =
      marshall_change_stock-quantities airline id city_id ts msg (omega (arith, len, few)) sent in
    ap₂
      (λ (n : ℕ) (qs : List ℤ).
        on_message at_stock no_end t
          (record { type = MessageType.stock; payload = Payload.stock n qs }))
      count quantities
    ∙ on_amounts t ts same b.plane_nonneg
