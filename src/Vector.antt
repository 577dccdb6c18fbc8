-- ===== src/Vector.antt =====
-- utils/vector.c: the growing array of pointers that a mutex guards.
pub mod Contents
use tp1_so_2c.Base.{
  ℕ, ◌+◌, ◌%◌, Bool, true, false, List, [], ◌++◌, Option, none, some, ◌==◌, ltb, set, get_elem?,
  replicate, if◌then◌else◌,
}

-- `struct Vector`: the cells that are allocated, the number of those in use, and whether the mutex is
-- held. A cell that was never written holds `none`.
pub record Vector {ℓ} (A : Type ℓ) : Type ℓ where
  pub pointer : List (Option A)
  pub size : ℕ
  pub locked : Bool

-- What a call does: it returns, or it waits for ever for a mutex that nobody will release.
pub data Outcome {ℓ} (A : Type ℓ) : Type ℓ where
  returns : A → Outcome A
  waits : Outcome A

abbrev pub growth : ℕ
growth = 5

module _ {ℓ} {A : Type ℓ} where
  -- `createVector` when `malloc` succeeds
  unfoldable pub create : Vector A
  create = record { pointer = []; size = 0; locked = false }

  -- The end of `addToVector`: the item is written behind the last one.
  pub put_last : Vector A → A → Vector A × Outcome (Option ℕ)
  put_last v item = (
    record v { pointer = set v.pointer v.size (some item); size = v.size + 1 },
    returns (some v.size),
  )

  -- `addToVector`; `realloc_ok` is whether `realloc` succeeds. The result `none` is -1: the array is
  -- lost and the mutex stays locked.
  unfoldable pub add : Bool → Vector A → A → Vector A × Outcome (Option ℕ)
  unfolding put_last
  add realloc_ok v item =
      if v.locked
      then (v, waits)
      else if v.size % growth == 0
      then if realloc_ok
        then put_last (record v { pointer = v.pointer ++ replicate growth none }) item
        else (record v { pointer = []; locked = true }, returns none)
      else put_last v item

  -- `getFromVector`. The result `none` is the null pointer. Out of range, the mutex stays locked.
  unfoldable pub get : Vector A → ℕ → Vector A × Outcome (Option A)
  get v index =
      if v.locked
      then (v, waits)
      else if ltb index v.size
      then (v, returns (elim (get_elem? v.pointer index) [ none ↦ none | some cell ↦ cell ]))
      else (record v { locked = true }, returns none)

  -- `getVectorSize`
  pub get_size : Vector A → ℕ
  get_size v = v.size
