-- ===== src/Vector/Contents.antt =====
-- utils/vector.c: a vector holds a list, as long as no call goes out of range.
use tp1_so_2c.Base.{
  ℕ, zero, suc, ◌+◌, ◌-◌, ◌%◌, ◌≤◌, ◌<◌, ◌≡◌, refl, ap, ◌∙◌, Bool, true, false, Bool-cases, inl,
  inr, List, [], ◌∷◌, ◌++◌, map, none, some, arith, length, length-append, ◌==◌, ==_iff, ◌≢◌, ltb,
  ltb→lt, set, get_elem?, replicate, if◌then◌else◌,
}
use mathlib.Core.List.{append-nil}
use tp1_so_2c.Vector.{Vector, returns, waits, growth, create, put_last, add, get}

multiple_of_growth : (n : ℕ) → (n % growth == 0) ≡ true → n % growth ≡ 0
multiple_of_growth n e = (==_iff (n % growth) 0).0 e

not_multiple : (n : ℕ) → (n % growth == 0) ≡ false → n % growth ≢ 0
not_multiple n e = ground arith

module _ {ℓ} {A : Type ℓ} where
  -- The cells in use hold the items, fewer than five are spare, and the array ends at a multiple of
  -- five cells.
  pub record Holds (v : Vector A) (items : List A) : Type ℓ where
    pub spare : ℕ
    pub cells : v.pointer ≡ map some items ++ replicate spare none
    pub size : v.size ≡ length items
    pub few : spare < growth
    pub aligned : (length items + spare) % growth ≡ 0
    pub unlocked : v.locked ≡ false

  set-spare :
      (items : List A) (k : ℕ) (x : A)
      → set (map some items ++ replicate (suc k) none) (length items) (some x)
        ≡ map some (items ++ x ∷ []) ++ replicate k none
  set-spare [] k x = refl
  set-spare (y ∷ items) k x = ap (λ l. some y ∷ l) (set-spare items k x)

  get-cells :
      (items : List A) (k i : ℕ)
      → i < length items
      → elim (get_elem? (map some items ++ replicate k none) i) [ none ↦ none | some cell ↦ cell ]
        ≡ get_elem? items i
  get-cells [] k i h = absurd (omega arith)
  get-cells (y ∷ items) k zero h = refl
  get-cells (y ∷ items) k (suc i) h = get-cells items k i (omega arith)

  pub create-Holds : Holds create []
  unfolding create
  create-Holds = record {
    spare = 0;
    cells = refl;
    size = refl;
    few = omega arith;
    aligned = refl;
    unlocked = refl;
  }

  -- `getFromVector` on a vector that holds some items gives the item at an index in range, and changes
  -- nothing; at any other index it gives the null pointer and leaves the mutex locked.
  pub get_lem :
      {v : Vector A} {items : List A} (i : ℕ)
      → Holds v items
      → get v i ≡ (
          if ltb i (length items)
          then (v, returns (get_elem? items i))
          else (record v { locked = true }, returns none))
  unfolding get
  get_lem {v} {items} i h = elim (Bool-cases (ltb i (length items))) [
    | inl e ↦
        rw (h.unlocked, h.size, e, h.cells)
          (ap
            (λ r. (
              record {
                pointer = map some items ++ replicate h.spare none;
                size = length items;
                locked = false;
              },
              returns r,
            ))
            (get-cells items h.spare i (ltb→lt i (length items) e)))
    | inr e ↦ rw (h.unlocked, h.size, e)
  ]

  -- With a spare cell the item goes behind the others.
  put_last-Holds :
      (v : Vector A) (items : List A) (k : ℕ) (x : A)
      → v.pointer ≡ map some items ++ replicate (suc k) none
      → v.size ≡ length items
      → k < growth
      → (length items + suc k) % growth ≡ 0
      → v.locked ≡ false
      → Holds (put_last v x).0 (items ++ x ∷ [])
        × ((put_last v x).1 ≡ returns (some (length items)))
  unfolding put_last
  put_last-Holds v items k x cells size few aligned unlocked = (
    record {
      spare = k;
      cells = rw (cells, size) (set-spare items k x);
      size = omega (arith, size, length-append items (x ∷ []));
      few = few;
      aligned = rw (length-append items (x ∷ [])) (omega arith);
      unlocked = unlocked;
    },
    ap (λ n. returns (some n)) size,
  )

  -- `addToVector` when `realloc` succeeds: the item is behind the others, and the result is its index.
  pub add-Holds :
      {v : Vector A} {items : List A} (x : A)
      → Holds v items
      → Holds (add true v x).0 (items ++ x ∷ [])
        × ((add true v x).1 ≡ returns (some (length items)))
  unfolding add
  add-Holds {v} {items} x h = elim (Bool-cases (v.size % growth == 0)) [
    | inl e ↦
        rw (h.unlocked, e)
          (put_last-Holds
            (record { pointer = v.pointer ++ replicate growth none; size = v.size; locked = false })
            items 4 x
            (ap (λ l. l ++ replicate growth none) (no_spare (multiple_of_growth v.size e))) h.size
            (omega arith) (omega (arith, h.size, multiple_of_growth v.size e)) refl)
    | inr e ↦
        rw (h.unlocked, e)
          (put_last-Holds (record { pointer = v.pointer; size = v.size; locked = false }) items
            (h.spare - 1) x
            (h.cells
              ∙ ap (λ k. map some items ++ replicate k none) (some_spare (not_multiple v.size e)))
            h.size (omega (arith, h.few)) (some_aligned (not_multiple v.size e)) refl)
  ]
    where
      no_spare : v.size % growth ≡ 0 → v.pointer ≡ map some items
      no_spare m =
          let none_left : h.spare ≡ 0 = omega (arith, h.size, h.few, h.aligned) in
          h.cells
          ∙ ap (λ k. map some items ++ replicate k none) none_left
          ∙ append-nil (map some items)

      some_spare : v.size % growth ≢ 0 → h.spare ≡ suc (h.spare - 1)
      some_spare m = omega (arith, h.size, h.few, h.aligned)

      some_aligned : v.size % growth ≢ 0 → (length items + suc (h.spare - 1)) % growth ≡ 0
      some_aligned m = omega (arith, h.size, h.few, h.aligned)

  -- After a call of `getFromVector` out of range, every later call of `getFromVector` or `addToVector`
  -- waits for ever.
  pub get_out_of_range :
      {v : Vector A} {items : List A} (i : ℕ)
      → Holds v items
      → length items ≤ i
      → ((get v i).1 ≡ returns none)
        × ((j : ℕ) → get (get v i).0 j ≡ ((get v i).0, waits))
        × ((realloc_ok : Bool) (x : A) → add realloc_ok (get v i).0 x ≡ ((get v i).0, waits))
  unfolding get add
  get_out_of_range {v} {items} i h out = ground (arith, h.unlocked, h.size)
