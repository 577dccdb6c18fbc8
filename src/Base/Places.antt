-- ===== src/Base/Places.antt =====
-- What stands where in a list after a write or after an element is added at its end.
use tp1_so_2c.Base.{
  ℕ, zero, suc, ◌≡◌, ◌<◌, refl, ap, sym, ◌∙◌, List, [], ◌∷◌, ◌++◌, some, arith, get_elem?, set,
  length, ◌==◌, some_inj, if◌then◌else◌,
}
use mathlib.Core.List
use mathlib.Core.List.{Perm}
use native.Mathlib.Bridge.{from_ℕ}
use mathlib.Core.List.Perm

module _ {ℓ} {A : Type ℓ} where
  pub get_elem?-set :
      (xs : List A) (j k : ℕ) (old new : A)
      → get_elem? xs j ≡ some old
      → get_elem? (set xs j new) k ≡ (if k == j then some new else get_elem? xs k)
  get_elem?-set [] j k old new e = cc
  get_elem?-set (x ∷ xs) zero zero old new e = ground arith
  get_elem?-set (x ∷ xs) zero (suc k) old new e = ground arith
  get_elem?-set (x ∷ xs) (suc j) zero old new e = ground arith
  get_elem?-set (x ∷ xs) (suc j) (suc k) old new e = ground (arith, get_elem?-set xs j k old new e)

  pub get_elem?-add :
      (xs : List A) (new : A) (i : ℕ)
      → get_elem? (xs ++ new ∷ []) i ≡ (if i == length xs then some new else get_elem? xs i)
  get_elem?-add [] new zero = refl
  get_elem?-add [] new (suc i) = ground arith
  get_elem?-add (x ∷ xs) new zero = ground arith
  get_elem?-add (x ∷ xs) new (suc i) = ground (arith, get_elem?-add xs new i)

  pub set-last :
      (xs : List A) (last new : A) → set (xs ++ last ∷ []) (length xs) new ≡ xs ++ new ∷ []
  set-last [] last new = refl
  set-last (x ∷ xs) last new = ap (λ l. x ∷ l) (set-last xs last new)

  pub get_elem?-last :
      (xs : List A) (last : A) → get_elem? (xs ++ last ∷ []) (length xs) ≡ some last
  get_elem?-last [] last = refl
  get_elem?-last (x ∷ xs) last = get_elem?-last xs last

  pub set-set : (xs : List A) (j : ℕ) (a b : A) → set (set xs j a) j b ≡ set xs j b
  set-set [] j a b = refl
  set-set (x ∷ xs) zero a b = refl
  set-set (x ∷ xs) (suc j) a b = ap (λ l. x ∷ l) (set-set xs j a b)

  pub lt-length : (xs : List A) (j : ℕ) {a : A} → get_elem? xs j ≡ some a → j < length xs
  lt-length [] j e = cc
  lt-length (x ∷ xs) zero e = omega arith
  lt-length (x ∷ xs) (suc j) e = omega (arith, lt-length xs j e)

  pub get_elem?-exists : (xs : List A) (j : ℕ) → j < length xs → (a : A) × (get_elem? xs j ≡ some a)
  get_elem?-exists [] j h = absurd (omega arith)
  get_elem?-exists (x ∷ xs) zero h = (x, refl)
  get_elem?-exists (x ∷ xs) (suc j) h = get_elem?-exists xs j (omega arith)

  -- A write takes one element out and puts one in.
  pub set-perm :
      (xs : List A) (j : ℕ) (old new : A)
      → get_elem? xs j ≡ some old
      → Perm (old ∷ set xs j new) (new ∷ xs)
  set-perm [] j old new e = cc
  set-perm (x ∷ xs) zero old new e =
      let same : x ≡ old = some_inj e in rw (← same) (Perm.swap new x xs)
  set-perm (x ∷ xs) (suc j) old new e =
      Perm.trans (Perm.swap x old (set xs j new))
        (Perm.trans (Perm.cons x (set-perm xs j old new e)) (Perm.swap new x xs))

  length-from_ℕ : (xs : List A) → length xs ≡ from_ℕ (List.length xs)
  unfolding from_ℕ List.length
  length-from_ℕ [] = refl
  length-from_ℕ (x ∷ xs) = ap suc (length-from_ℕ xs)

  pub length-perm : {xs ys : List A} → Perm xs ys → length xs ≡ length ys
  length-perm {xs} {ys} p = length-from_ℕ xs ∙ ap from_ℕ (Perm.length-eq p) ∙ sym (length-from_ℕ ys)
