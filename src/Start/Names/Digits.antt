-- ===== src/Start/Names/Digits.antt =====
-- app/main.c: the names of the airlines have their numbers for their digits.
use tp1_so_2c.Base.{
  ℕ, zero, suc, ◌+◌, ◌-◌, ◌*◌, ◌/◌, ◌%◌, ◌<◌, ◌≤◌, ◌≡◌, refl, ap, sym, ◌∙◌, ◌≢◌, Bool, true, false,
  List, [], ◌∷◌, ◌++◌, arith, length, length-append, ltb, leb, if◌then◌else◌, Bool-cases, ltb→lt,
  inl, inr,
}
use mathlib.Core.Bool.{false≢true}
use tp1_so_2c.Parser.Scanning.{if_true}
use tp1_so_2c.Start.Names.{decimal, name_end, parent_name, air_name}

-- The number at the start of a text, behind the digits that are read.
abbrev number_at : ℕ → List ℕ → ℕ
number_at n [] = n
number_at n (b ∷ bs) =
    let rest = number_at (10 * n + (b - b'0')) bs in
    if leb b'0' b then if leb b b'9' then rest else n else n

abbrev AllDigits : List ℕ → Type 0
AllDigits [] = Unit
AllDigits (b ∷ bs) = (b'0' ≤ b) × (b ≤ b'9') × AllDigits bs

abbrev value : ℕ → List ℕ → ℕ
value n [] = n
value n (b ∷ bs) = value (10 * n + (b - b'0')) bs

value-append : (n b : ℕ) (bs : List ℕ) → value n (bs ++ b ∷ []) ≡ 10 * value n bs + (b - b'0')
value-append n b [] = refl
value-append n b (c ∷ bs) = value-append (10 * n + (c - b'0')) b bs

digits-append :
    (b : ℕ) (bs : List ℕ) → AllDigits bs → b'0' ≤ b → b ≤ b'9' → AllDigits (bs ++ b ∷ [])
digits-append b [] d l h = (l, h, tt)
digits-append b (c ∷ bs) (x, y, d) l h = (x, y, digits-append b bs d l h)

abbrev Spells : ℕ → List ℕ → Type 0
Spells n bs = AllDigits bs × (value 0 bs ≡ n)

one_digit : (n : ℕ) → n < 10 → Spells n ((b'0' + n) ∷ [])
one_digit n h = ((omega arith, omega arith, tt), omega arith)

more_digits : (n : ℕ) (bs : List ℕ) → Spells (n / 10) bs → Spells n (bs ++ (b'0' + n % 10) ∷ [])
more_digits n bs (d, v) = (
  digits-append (b'0' + n % 10) bs d (omega arith) (omega arith),
  omega (arith, value-append 0 (b'0' + n % 10) bs, v),
)

not_few : (n : ℕ) → ltb n 10 ≡ false → 10 ≤ n
not_few n e = ground arith

-- The digits of a number give it back.
decimal_lem : (fuel n : ℕ) → n < fuel → Spells n (decimal fuel n)
unfolding decimal
decimal_lem zero n h = absurd (omega arith)
decimal_lem (suc fuel) n h = elim (Bool-cases (ltb n 10)) [
  | inl few ↦ rw few (one_digit n (ltb→lt n 10 few))
  | inr many ↦ rw many (
      more_digits n (decimal fuel (n / 10))
        (decimal_lem fuel (n / 10) (omega (arith, h, not_few n many))))
]

number_at-value :
    (n : ℕ) (bs rest : List ℕ) → AllDigits bs → number_at n (bs ++ b'_' ∷ rest) ≡ value n bs
number_at-value n [] rest d = refl
number_at-value n (b ∷ bs) rest (l, h, d) =
    if_true (leb b'0' b) _ n (ground arith)
    ∙ if_true (leb b b'9') _ n (ground arith)
    ∙ number_at-value (10 * n + (b - b'0')) bs rest d

air_name-number : (i : ℕ) → number_at 0 (air_name i) ≡ i
unfolding air_name
air_name-number i =
    let (d, v) = decimal_lem (suc i) i (omega arith) in
    number_at-value 0 (decimal (suc i) i) (b'a' ∷ b'i' ∷ b'r' ∷ []) d ∙ v

pub air_name-injective : (i j : ℕ) → air_name i ≡ air_name j → i ≡ j
air_name-injective i j e = sym (air_name-number i) ∙ ap (number_at 0) e ∙ air_name-number j

-- A name that begins with a byte up to '9'.
abbrev starts_low : List ℕ → Bool
starts_low [] = false
starts_low (b ∷ bs) = leb b b'9'

decimal_not_empty : (fuel n : ℕ) → 0 < length (decimal (suc fuel) n)
unfolding decimal
decimal_not_empty fuel n = elim (Bool-cases (ltb n 10)) [
  | inl few ↦ rw few (omega arith)
  | inr many ↦ rw many (omega (arith, length-append (decimal fuel (n / 10)) ((b'0' + n % 10) ∷ [])))
]

low_start : (bs rest : List ℕ) → AllDigits bs → 0 < length bs → starts_low (bs ++ rest) ≡ true
low_start [] rest d some_digit = absurd (omega arith)
low_start (b ∷ bs) rest (l, h, d) some_digit = ground arith

pub not_parent : (i : ℕ) → parent_name ≢ air_name i
unfolding air_name
not_parent i e =
    let (d, _) = decimal_lem (suc i) i (omega arith) in
    absurd (
      false≢true
        (ap starts_low e ∙ low_start (decimal (suc i) i) name_end d (decimal_not_empty i i)))
