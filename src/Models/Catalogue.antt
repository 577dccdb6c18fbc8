-- ===== src/Models/Catalogue.antt =====
-- models/product.c: a vector of products is a catalogue, in which a name and an id stand for the
-- same product, and `getProduct` keeps it one.
use tp1_so_2c.Base.{
  ℕ, zero, suc, ◌≤◌, ◌<◌, ◌≡◌, refl, ap, sym, ◌∙◌, ◌⊎◌, inl, inr, true, false, List, [], ◌∷◌, ◌++◌,
  Option, none, some, arith, length, get_elem?, Bool-cases,
}
use tp1_so_2c.Base.Places.{get_elem?-add}
use tp1_so_2c.Base.Int.{ℤ, pos}
use tp1_so_2c.Models.{
  Name, city_name_max_length, copied, same_name, Product, Stock, minus_one, get_product_id,
  get_product_name, get_product, add_product, init_stock,
}

-- Every product stands at the index that its id says, no two have the same name, and each name goes, with
-- the zero behind it, into one of the buffers of 30 bytes.
pub record IsCatalogue (ps : List Product) : Type 0 where
  pub ids : (i : ℕ) (p : Product) → get_elem? ps i ≡ some p → p.id ≡ i
  pub names :
      (i j : ℕ) (p q : Product)
      → get_elem? ps i ≡ some p
      → get_elem? ps j ≡ some q
      → p.name ≡ q.name
      → i ≡ j
  pub short : (i : ℕ) (p : Product) → get_elem? ps i ≡ some p → length p.name < city_name_max_length

pub empty-IsCatalogue : IsCatalogue []
empty-IsCatalogue = record { ids = λ i p e. cc; names = λ i j p q e f n. cc; short = λ i p e. cc }

same_name_sound : (a b : Name) → same_name a b ≡ true → a ≡ b
same_name_sound [] [] e = refl
same_name_sound [] (y ∷ ys) e = cc
same_name_sound (x ∷ xs) [] e = cc
same_name_sound (x ∷ xs) (y ∷ ys) e = ground (arith, same_name_sound xs ys)

same_name_self : (a : Name) → same_name a a ≡ true
same_name_self [] = refl
same_name_self (x ∷ xs) = ground (arith, same_name_self xs)

-- What a search by name finds: a product of that name in the vector, or none has it.
Found : Name → List Product → Type 0
Found name ps =
    ((i : ℕ) × (p : Product) × (get_elem? ps i ≡ some p)
      × (p.name ≡ name)
      × (get_product_id name ps ≡ pos p.id))
    ⊎ ((get_product_id name ps ≡ minus_one)
        × ((i : ℕ) (p : Product) → get_elem? ps i ≡ some p → p.name ≡ name → ⊥))

not_head :
    (name : Name) (p q : Product)
    → same_name name p.name ≡ false
    → some p ≡ some q
    → q.name ≡ name
    → ⊥
not_head name p q e at n = ground (arith, same_name_self name)

search_by_name : (name : Name) (ps : List Product) → Found name ps
unfolding Found
search_by_name name [] = inr (refl, λ i p e n. cc)
search_by_name name (p ∷ ps) = elim (Bool-cases (same_name name p.name)) [
  | inl e ↦ inl (0, p, refl, sym (same_name_sound name p.name e), rw e)
  | inr e ↦ elim (search_by_name name ps) [
    | inl (i, q, at, n, f) ↦ inl (suc i, q, at, n, rw e f)
    | inr (f, absent) ↦
        inr (rw e f, elim [ zero ↦ λ q at n. not_head name p q e at n | suc i ↦ absent i ])
  ]
]

get_elem?-past : (ps : List Product) (i : ℕ) → length ps ≤ i → get_elem? ps i ≡ none
get_elem?-past [] i h = refl
get_elem?-past (p ∷ ps) zero h = absurd (omega arith)
get_elem?-past (p ∷ ps) (suc i) h = get_elem?-past ps i (omega arith)

-- The search by the name of a product of a catalogue gives its index.
pub get_product_id-name :
    {ps : List Product} (i : ℕ) (p : Product)
    → IsCatalogue ps
    → get_elem? ps i ≡ some p
    → get_product_id p.name ps ≡ pos i
unfolding Found
get_product_id-name {ps} i p c at = elim (search_by_name p.name ps) [
  | inl (k, q, at_k, n, f) ↦ f ∙ ap pos (c.ids k q at_k ∙ c.names k i q p at_k at n)
  | inr (f, absent) ↦ absurd (absent i p at refl)
]

get_product_found :
    (name : Name) (ps : List Product) {i : ℕ}
    → get_product_id name ps ≡ pos i
    → get_product name ps ≡ (get_elem? ps i, ps)
unfolding get_product
get_product_found name ps e = rw (e, get_product)

get_product_missing :
    (name : Name) (ps : List Product)
    → get_product_id name ps ≡ minus_one
    → get_product name ps ≡ add_product name ps
unfolding get_product
get_product_missing name ps e = rw (e, get_product)

-- In a catalogue, `getProduct` by the name of a product gives that product and adds nothing.
pub get_product-known :
    {ps : List Product} (i : ℕ) (p : Product)
    → IsCatalogue ps
    → get_elem? ps i ≡ some p
    → get_product p.name ps ≡ (some p, ps)
get_product-known {ps} i p c at =
    get_product_found p.name ps (get_product_id-name i p c at) ∙ ap (λ o. (o, ps)) at

add_product-IsCatalogue :
    (name : Name) (ps : List Product)
    → IsCatalogue ps
    → length name < city_name_max_length
    → ((i : ℕ) (p : Product) → get_elem? ps i ≡ some p → p.name ≡ name → ⊥)
    → IsCatalogue (ps ++ record { id = length ps; name = name } ∷ [])
add_product-IsCatalogue name ps c fits absent = record {
  ids = λ i p at. ground (arith, get_elem?-add ps new i, c.ids i p);
  names = λ i j p q at at' n. ground (
    arith,
    get_elem?-add ps new i,
    get_elem?-add ps new j,
    c.names i j p q,
    absent i p,
    absent j q,
  );
  short = λ i p at. ground (arith, get_elem?-add ps new i, c.short i p, fits);
}
  where
    new : Product
    new = record { id = length ps; name = name }

-- What `getProduct` gives: a product of the name asked for, which stands at its id in the vector that
-- is left; that vector is a catalogue, and has every product of the old one where it was.
pub record Interned (name : Name) (ps : List Product) (out : Option Product × List Product)
    : Type 0 where
  pub product : Product
  pub found : out.0 ≡ some product
  pub named : product.name ≡ name
  pub placed : get_elem? out.1 product.id ≡ some product
  pub catalogue : IsCatalogue out.1
  pub kept : (i : ℕ) (p : Product) → get_elem? ps i ≡ some p → get_elem? out.1 i ≡ some p

-- `getProduct` on a catalogue, for a short name that is in it and for one that is not.
pub get_product_lem :
    {ps : List Product} (name : Name)
    → IsCatalogue ps
    → length name < city_name_max_length
    → Interned name ps (get_product name ps)
unfolding Found
get_product_lem {ps} name c fits = elim (search_by_name name ps) [
  | inl (k, q, at, n, f) ↦ rw (get_product_found name ps f) (old k q at n)
  | inr (f, absent) ↦ rw (get_product_missing name ps f) (new absent)
]
  where
    old :
        (k : ℕ) (q : Product)
        → get_elem? ps k ≡ some q
        → q.name ≡ name
        → Interned name ps (get_elem? ps q.id, ps)
    old k q at n = record {
      product = q;
      found = ap (get_elem? ps) (c.ids k q at) ∙ at;
      named = n;
      placed = ap (get_elem? ps) (c.ids k q at) ∙ at;
      catalogue = c;
      kept = λ i p e. e;
    }

    new :
        ((i : ℕ) (p : Product) → get_elem? ps i ≡ some p → p.name ≡ name → ⊥)
        → Interned name ps (add_product name ps)
    new absent = record {
      product = record { id = length ps; name = name };
      found = refl;
      named = refl;
      placed =
          ground (arith, get_elem?-add ps (record { id = length ps; name = name }) (length ps));
      catalogue = add_product-IsCatalogue name ps c fits absent;
      kept = λ i p e.
          ground (
            arith,
            get_elem?-add ps (record { id = length ps; name = name }) i,
            get_elem?-past ps i,
          );
    }

-- A stock made by the name of a product of a catalogue is of that product, and adds no product.
pub init_stock-known :
    {ps : List Product} (i : ℕ) (p : Product) (amount : ℤ)
    → IsCatalogue ps
    → get_elem? ps i ≡ some p
    → init_stock p.name amount ps ≡ (some (record { amount = amount; product = p }), ps)
unfolding init_stock
init_stock-known i p amount c at = rw (get_product-known i p c at)

-- The name of a product of a catalogue goes into the buffer.
pub copied-known :
    {ps : List Product} (i : ℕ) (p : Product)
    → IsCatalogue ps
    → get_elem? ps i ≡ some p
    → copied p.name ≡ some p.name
copied-known i p c at = ground (arith, c.short i p at)

pub get_product_name-known :
    (ps : List Product) (i : ℕ) (p : Product)
    → get_elem? ps i ≡ some p
    → get_product_name i ps ≡ some p.name
get_product_name-known ps i p at = rw (at, get_product_name)

pub init_stock-amount :
    (name : Name) (amount : ℤ) (ps : List Product) (s : Stock)
    → (init_stock name amount ps).0 ≡ some s
    → s.amount ≡ amount
unfolding init_stock
init_stock-amount name amount ps s e = ground arith
