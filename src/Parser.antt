-- ===== src/Parser.antt =====
-- parser.c: the two parsers of the configuration, which read a file through `fscanf`. A file is the list
-- of its bytes.
pub mod Scanning
pub mod Stocks
pub mod Fleet
pub mod Airlines
pub mod Maps
pub mod Cities
pub mod Links
pub mod World
pub mod Wayless
use tp1_so_2c.Base.{
  ℕ, zero, suc, ◌+◌, ◌-◌, ◌*◌, Bool, true, false, ◌&&◌, ◌||◌, List, [], ◌∷◌, ◌++◌, Option, none,
  some, ◌==◌, ltb, leb, length, get_elem?, set, replicate, if◌then◌else◌,
}
use tp1_so_2c.Base.Int.{ℤ, pos, negsuc}
pub use tp1_so_2c.Models.{city_name_max_length}
use tp1_so_2c.Models.{Name, Product, Stock, City, Map, Plane, get_city_id, init_stock}
use tp1_so_2c.Routes.{Matrix, floyd_matrix}

abbrev pub is_space : ℕ → Bool
is_space c = c == 32 || (leb 9 c && leb c 13)

abbrev pub is_digit : ℕ → Bool
is_digit c = leb b'0' c && leb c b'9'

-- What `fscanf` does at white space in its format, and before a conversion.
unfoldable pub skip_space : List ℕ → List ℕ
skip_space [] = []
skip_space (c ∷ cs) = let rest = skip_space cs in if is_space c then rest else c ∷ cs

-- The bytes up to the next white space, and those from there on.
unfoldable pub read_word : List ℕ → List ℕ × List ℕ
read_word [] = ([], [])
read_word (c ∷ cs) =
    let (word, rest) = read_word cs in if is_space c then ([], c ∷ cs) else (c ∷ word, rest)

-- The word here, unless the text is at its end.
unfoldable pub word_at : List ℕ → Option (List ℕ × List ℕ)
unfolding read_word
word_at [] = none
word_at (c ∷ cs) = some (read_word (c ∷ cs))

-- The conversion `%s`. `none`: the end of the file comes first.
unfoldable pub scan_word : List ℕ → Option (List ℕ × List ℕ)
unfolding skip_space word_at
scan_word input = word_at (skip_space input)

-- The digits from here on, behind a number that is read so far.
unfoldable pub read_digits : ℕ → List ℕ → ℕ × List ℕ
read_digits n [] = (n, [])
read_digits n (c ∷ cs) =
    let rest = read_digits (n * 10 + (c - b'0')) cs in if is_digit c then rest else (n, c ∷ cs)

-- Whether there is a digit here.
abbrev pub at_digit : List ℕ → Bool
at_digit [] = false
at_digit (c ∷ cs) = is_digit c

abbrev pub negated : ℕ → ℤ
negated zero = pos zero
negated (suc n) = negsuc n

-- What `%d` gives at its place behind white space: the number, if there is one, and the bytes that are
-- left. The overflow of an `int` is not modelled.
unfoldable pub read_number : List ℕ → Option ℤ × List ℕ
unfolding read_digits
read_number [] = (none, [])
read_number (c ∷ cs) =
    if is_digit c
    then (let (n, rest) = read_digits 0 (c ∷ cs) in (some (pos n), rest))
    else if c == b'-'
    then if at_digit cs
      then (let (n, rest) = read_digits 0 cs in (some (negated n), rest))
      else (none, cs)
    else if c == b'+'
    then if at_digit cs
      then (let (n, rest) = read_digits 0 cs in (some (pos n), rest))
      else (none, cs)
    else (none, c ∷ cs)

-- The conversion `%d`.
unfoldable pub scan_number : List ℕ → Option ℤ × List ℕ
unfolding skip_space read_number
scan_number input = read_number (skip_space input)

-- What `fscanf(file, "%s %d\n", …)` makes of the input: the results -1, 1 and 2.
pub data PairScan : Type 0 where
  no_word : PairScan
  one_word : (word rest : List ℕ) → PairScan
  pair : (word : List ℕ) → (number : ℤ) → (rest : List ℕ) → PairScan

-- The second conversion and what follows it.
abbrev pub number_behind : List ℕ → Option ℤ × List ℕ → PairScan
number_behind word (none, rest) = one_word word rest
number_behind word (some n, rest) = pair word n (skip_space rest)

abbrev pub pair_behind : Option (List ℕ × List ℕ) → PairScan
pair_behind none = no_word
pair_behind (some (word, after)) = number_behind word (scan_number after)

unfoldable pub scan_pair : List ℕ → PairScan
unfolding scan_word scan_number
scan_pair input = pair_behind (scan_word input)

-- Whether a word goes, with the zero behind it, into one of the buffers of 30 bytes.
abbrev pub fits_buffer : List ℕ → Bool
fits_buffer word = ltb (length word) city_name_max_length

-- How the parsers end otherwise than well: by a write past a buffer, by the use of a value that is never
-- set or of a null pointer, or outside of the matrix. `unset_word from` is the use of the second name of a
-- way that was never set, behind the first name `from`. `failed` is the null pointer as the result.
-- `negative_way` is a distance below zero, and `out_of_fuel` no end of the source.
pub data Parsed {ℓ} (A : Type ℓ) : Type ℓ where
  parsed : A → Parsed A
  fault failed negative_way out_of_fuel : Parsed A
  unset_word : (from : Name) → Parsed A

infixl 5 ◌>>=◌
abbrev pub ◌>>=◌ {ℓ κ} : {A : Type ℓ} {B : Type κ} → Parsed A → (A → Parsed B) → Parsed B
parsed a >>= f = f a
fault >>= f = fault
failed >>= f = failed
negative_way >>= f = negative_way
out_of_fuel >>= f = out_of_fuel
unset_word from >>= f = unset_word from

-- A word that goes into a buffer.
abbrev pub into_buffer {ℓ} : {A : Type ℓ} → List ℕ → Parsed A → Parsed A
into_buffer word next = if fits_buffer word then next else fault

-- What the loop over the stocks of a city or of a plane leaves: the stocks, the vector of products, what
-- is in `buffer` and the number that is read last, if the loop has read any, the word at which it
-- stopped if `fscanf` has found one, and the rest of the file.
pub record StocksRead : Type 0 where
  pub stocks : List Stock
  pub products : List Product
  pub buffer : Option Name
  pub aux : Option ℤ
  pub last_word : Option Name
  pub rest : List ℕ

-- A stock that is read, and how the loop goes on behind it.
abbrev pub add_stock : Option Stock → Parsed StocksRead → Parsed StocksRead
add_stock none next = fault
add_stock (some s) next = next >>= λ r. parsed (record r { stocks = s ∷ r.stocks })

-- The loop over the stocks, in both parsers, when `fscanf` has read something; `next` is the next round.
abbrev pub stocks_at :
    (List ℕ → List Product → Option Name → Option ℤ → Parsed StocksRead)
    → List Product
    → Option Name
    → Option ℤ
    → PairScan
    → Parsed StocksRead
stocks_at next ps buffer aux no_word =
    parsed (record {
      stocks = [];
      products = ps;
      buffer = buffer;
      aux = aux;
      last_word = none;
      rest = [];
    })
stocks_at next ps buffer aux (one_word word rest) = into_buffer word (
    parsed (record {
      stocks = [];
      products = ps;
      buffer = some word;
      aux = aux;
      last_word = some word;
      rest = rest;
    }))
stocks_at next ps buffer aux (pair word n rest) =
    into_buffer word
      (add_stock (init_stock word n ps).0 (next rest (init_stock word n ps).1 (some word) (some n)))

-- The loop itself, with fuel for the bytes of the file.
unfoldable pub read_stocks : ℕ → List ℕ → List Product → Option Name → Option ℤ → Parsed StocksRead
unfolding scan_pair
read_stocks zero input ps buffer aux = out_of_fuel
read_stocks (suc fuel) input ps buffer aux =
    stocks_at (λ rest ps' b a. read_stocks fuel rest ps' b a) ps buffer aux (scan_pair input)
