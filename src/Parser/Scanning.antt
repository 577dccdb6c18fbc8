-- ===== src/Parser/Scanning.antt =====
-- parser.c: what `fscanf` reads of a text that is made of words, numerals and gaps.
use tp1_so_2c.Base.{
  ℕ, ◌+◌, ◌-◌, ◌*◌, ◌<◌, ◌≡◌, ◌≢◌, refl, ap, ◌∙◌, ltb, Bool, true, false, if◌then◌else◌, List, [],
  ◌∷◌, ◌++◌, none, some, arith, length,
}
use tp1_so_2c.Base.Int.{pos}
use tp1_so_2c.Parser.{
  city_name_max_length, is_space, is_digit, skip_space, read_word, word_at, scan_word,
  number_behind, pair_behind, read_digits, read_number, scan_number, no_word, one_word, pair,
  scan_pair,
}

-- White space, at least one byte of it.
abbrev pub AllSpace : List ℕ → Type 0
AllSpace [] = Unit
AllSpace (c ∷ cs) = (is_space c ≡ true) × AllSpace cs

abbrev pub IsGap : List ℕ → Type 0
IsGap [] = ⊥
IsGap (c ∷ cs) = (is_space c ≡ true) × AllSpace cs

abbrev pub NoSpace : List ℕ → Type 0
NoSpace [] = Unit
NoSpace (c ∷ cs) = (is_space c ≡ false) × NoSpace cs

-- The text is at its end, or at a byte that `%d` cannot read.
abbrev pub AtName : List ℕ → Type 0
AtName [] = Unit
AtName (c ∷ cs) = (is_space c ≡ false) × (is_digit c ≡ false) × (c ≢ b'-') × (c ≢ b'+')

-- The text is at its end, or at a byte that is no white space.
abbrev pub AtText : List ℕ → Type 0
AtText [] = Unit
AtText (c ∷ cs) = is_space c ≡ false

-- A name of a city or of a product: it does not look like a number, and goes into a buffer.
abbrev pub IsName : List ℕ → Type 0
IsName [] = ⊥
IsName (c ∷ cs) = AtName (c ∷ cs) × NoSpace cs × (length (c ∷ cs) < city_name_max_length)

abbrev pub AllDigits : List ℕ → Type 0
AllDigits [] = Unit
AllDigits (c ∷ cs) = (is_digit c ≡ true) × AllDigits cs

-- Some digits, at least one.
abbrev pub IsNumeral : List ℕ → Type 0
IsNumeral [] = ⊥
IsNumeral (c ∷ cs) = (is_digit c ≡ true) × AllDigits cs

-- The number that digits stand for, behind a number `n`.
abbrev pub value : ℕ → List ℕ → ℕ
value n [] = n
value n (c ∷ cs) = value (n * 10 + (c - b'0')) cs

pub AtText-of_name : (rest : List ℕ) → AtName rest → AtText rest
AtText-of_name [] a = tt
AtText-of_name (c ∷ cs) a = a.0

pub skip_text : (rest : List ℕ) → AtText rest → skip_space rest ≡ rest
unfolding skip_space
skip_text [] a = refl
skip_text (c ∷ cs) a = rw a

pub skip_gap : (g rest : List ℕ) → AllSpace g → AtText rest → skip_space (g ++ rest) ≡ rest
unfolding skip_space
skip_gap [] rest s a = skip_text rest a
skip_gap (c ∷ g) rest s a = rw s.0 (skip_gap g rest s.1 a)

IsGap-AllSpace : (g : List ℕ) → IsGap g → AllSpace g
IsGap-AllSpace [] h = tt
IsGap-AllSpace (c ∷ g) h = h

pub skip_IsGap : (g rest : List ℕ) → IsGap g → AtText rest → skip_space (g ++ rest) ≡ rest
skip_IsGap g rest h a = skip_gap g rest (IsGap-AllSpace g h) a

read_word-append :
    (w g rest : List ℕ) → NoSpace w → IsGap g → read_word (w ++ (g ++ rest)) ≡ (w, g ++ rest)
unfolding read_word
read_word-append [] [] rest n h = absurd h
read_word-append [] (c ∷ g) rest n h = rw h.0
read_word-append (c ∷ w) g rest n h = rw (n.0, read_word-append w g rest n.1 h)

pub scan_word_lem :
    (w g rest : List ℕ) → IsName w → IsGap g → scan_word (w ++ (g ++ rest)) ≡ some (w, g ++ rest)
unfolding scan_word
scan_word_lem [] g rest n h = absurd n
scan_word_lem (c ∷ w) g rest n h =
    ap word_at (skip_text (c ∷ (w ++ (g ++ rest))) n.0.0)
    ∙ ap some (read_word-append (c ∷ w) g rest (n.0.0, n.1) h)

digit_no_space : (c : ℕ) → is_digit c ≡ true → is_space c ≡ false
digit_no_space c h = ground arith

space_no_digit : (c : ℕ) → is_space c ≡ true → is_digit c ≡ false
space_no_digit c h = ground arith

read_digits-append :
    (n : ℕ) (ds g rest : List ℕ)
    → AllDigits ds
    → IsGap g
    → read_digits n (ds ++ (g ++ rest)) ≡ (value n ds, g ++ rest)
unfolding read_digits
read_digits-append n [] [] rest d h = absurd h
read_digits-append n [] (c ∷ g) rest d h = rw (space_no_digit c h.0)
read_digits-append n (c ∷ ds) g rest d h =
    rw (d.0) (read_digits-append (n * 10 + (c - b'0')) ds g rest d.1 h)

pub if_true {ℓ} : {A : Type ℓ} (b : Bool) (x y : A) → b ≡ true → (if b then x else y) ≡ x
if_true true x y e = refl
if_true false x y e = cc

read_number_numeral :
    (ds g rest : List ℕ)
    → IsNumeral ds
    → IsGap g
    → read_number (ds ++ (g ++ rest)) ≡ (some (pos (value 0 ds)), g ++ rest)
unfolding read_number
read_number_numeral [] g rest d h = absurd d
read_number_numeral (c ∷ ds) g rest d h =
    if_true (is_digit c) _ _ d.0
    ∙ ap (λ (r : ℕ × List ℕ). (some (pos r.0), r.1)) (read_digits-append 0 (c ∷ ds) g rest d h)

read_number_name : (rest : List ℕ) → AtName rest → read_number rest ≡ (none, rest)
unfolding read_number
read_number_name [] a = refl
read_number_name (c ∷ cs) a = ground arith

pub AtText-numeral : (ds rest : List ℕ) → IsNumeral ds → AtText (ds ++ rest)
AtText-numeral [] rest d = absurd d
AtText-numeral (c ∷ ds) rest d = digit_no_space c d.0

-- A number behind white space that may be empty.
pub scan_number_numeral :
    (g0 ds g rest : List ℕ)
    → AllSpace g0
    → IsNumeral ds
    → IsGap g
    → scan_number (g0 ++ (ds ++ (g ++ rest))) ≡ (some (pos (value 0 ds)), g ++ rest)
unfolding scan_number
scan_number_numeral g0 ds g rest s d h =
    ap read_number (skip_gap g0 (ds ++ (g ++ rest)) s (AtText-numeral ds (g ++ rest) d))
    ∙ read_number_numeral ds g rest d h

scan_number_name :
    (g rest : List ℕ) → IsGap g → AtName rest → scan_number (g ++ rest) ≡ (none, rest)
unfolding scan_number
scan_number_name g rest h a =
    ap read_number (skip_IsGap g rest h (AtText-of_name rest a)) ∙ read_number_name rest a

-- A name and a number.
pub scan_pair_pair :
    (w ds g rest : List ℕ)
    → IsName w
    → IsNumeral ds
    → IsGap g
    → AtText rest
    → scan_pair (w ++ (g ++ (ds ++ (g ++ rest)))) ≡ pair w (pos (value 0 ds)) rest
unfolding scan_pair
scan_pair_pair w ds g rest n d h a =
    ap pair_behind (scan_word_lem w g (ds ++ (g ++ rest)) n h)
    ∙ ap (number_behind w) (scan_number_numeral g ds g rest (IsGap-AllSpace g h) d h)
    ∙ ap (pair w (pos (value 0 ds))) (skip_IsGap g rest h a)

-- A name with no number behind it.
pub scan_pair_word :
    (w g rest : List ℕ)
    → IsName w
    → IsGap g
    → AtName rest
    → scan_pair (w ++ (g ++ rest)) ≡ one_word w rest
unfolding scan_pair
scan_pair_word w g rest n h a =
    ap pair_behind (scan_word_lem w g rest n h) ∙ ap (number_behind w) (scan_number_name g rest h a)

pub scan_pair_end : scan_pair [] ≡ no_word
unfolding scan_pair
scan_pair_end = refl

-- The same of a word behind a gap.
pub scan_word-gap :
    (w g rest : List ℕ)
    → IsName w
    → IsGap g
    → scan_word (g ++ (w ++ (g ++ rest))) ≡ some (w, g ++ rest)
unfolding scan_word
scan_word-gap [] g rest n h = absurd n
scan_word-gap (c ∷ w) g rest n h =
    ap word_at (skip_IsGap g (c ∷ (w ++ (g ++ rest))) h n.0.0)
    ∙ ap some (read_word-append (c ∷ w) g rest (n.0.0, n.1) h)

pub AtName-name : (w rest : List ℕ) → IsName w → AtName (w ++ rest)
AtName-name [] rest n = absurd n
AtName-name (c ∷ w) rest n = n.0

pub short_name : (w : List ℕ) → IsName w → length w < city_name_max_length
short_name [] n = absurd n
short_name (c ∷ cs) n = n.2

pub fits : (w : List ℕ) → IsName w → ltb (length w) city_name_max_length ≡ true
fits [] n = absurd n
fits (c ∷ w) n = ground arith
