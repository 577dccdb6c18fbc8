-- ===== src/Parser/Stocks.antt =====
-- parser.c: the loop over the stocks, at the text of some stocks.
use tp1_so_2c.Base.{
  ℕ, zero, suc, ◌<◌, ◌≡◌, refl, ap, sym, ◌∙◌, subst, List, [], ◌∷◌, ◌++◌, Option, none, some, arith,
  ltb, length, get_elem?,
}
use tp1_so_2c.Base.Int.{ℤ, pos}
use tp1_so_2c.Models.{Name, Product, Stock, get_product, init_stock}
use tp1_so_2c.Models.Catalogue.{IsCatalogue, get_product_lem}
use tp1_so_2c.Parser.{
  scan_pair, Parsed, parsed, StocksRead, add_stock, stocks_at, read_stocks, city_name_max_length,
}
use tp1_so_2c.Parser.Scanning.{
  IsGap, AtName, IsName, IsNumeral, value, AtText-of_name, AtName-name, scan_pair_pair,
  scan_pair_word, scan_pair_end, if_true, fits, short_name,
}

-- A line of a configuration: the name of a product, and the digits of the amount.
abbrev pub Item : Type 0
Item = Name × List ℕ

abbrev pub AreItems : List Item → Type 0
AreItems [] = Unit
AreItems ((name, digits) ∷ is) = IsName name × IsNumeral digits × AreItems is

-- The text of some stocks, in front of another text.
abbrev pub stocks_text : List ℕ → List Item → List ℕ → List ℕ
stocks_text g [] tail = tail
stocks_text g ((name, digits) ∷ is) tail = name ++ (g ++ (digits ++ (g ++ stocks_text g is tail)))

-- The text behind the stocks: the end of the file, or a word with no number behind it.
abbrev pub StopsAt : List ℕ → List ℕ → Option Name → List ℕ → Type 0
StopsAt g tail none rest = (tail ≡ []) × (rest ≡ [])
StopsAt g tail (some word) rest = (tail ≡ word ++ (g ++ rest)) × IsName word × AtName rest

-- The stocks are those of the text: their amounts, and products of the names which stand at their ids
-- among some products.
abbrev pub Match : List Product → List Item → List Stock → Type 0
Match ps [] [] = Unit
Match ps ((name, digits) ∷ is) (s ∷ ss) =
    (s.product.name ≡ name)
    × (s.amount ≡ pos (value 0 digits))
    × (get_elem? ps s.product.id ≡ some s.product)
    × Match ps is ss
Match ps _ _ = ⊥

-- Every product of the first vector stands in the second where it was.
pub record Keeps (ps qs : List Product) : Type 0 where
  pub at : (i : ℕ) (p : Product) → get_elem? ps i ≡ some p → get_elem? qs i ≡ some p

pub Keeps-trans : {ps qs rs : List Product} → Keeps ps qs → Keeps qs rs → Keeps ps rs
Keeps-trans k l = record { at = λ i p e. l.at i p (k.at i p e) }

pub Match-Keeps :
    {ps qs : List Product} (is : List Item) (ss : List Stock)
    → Keeps ps qs
    → Match ps is ss
    → Match qs is ss
Match-Keeps [] [] k m = tt
Match-Keeps [] (s ∷ ss) k m = absurd m
Match-Keeps (i ∷ is) [] k m = absurd m
Match-Keeps ((name, digits) ∷ is) (s ∷ ss) k m =
    (m.0, m.1, k.at s.product.id s.product m.2, Match-Keeps is ss k m.3)

pub AtName-stocks :
    (g : List ℕ) (is : List Item) (tail : List ℕ)
    → AreItems is
    → AtName tail
    → AtName (stocks_text g is tail)
AtName-stocks g [] tail a t = t
AtName-stocks g ((name, digits) ∷ is) tail a t =
    AtName-name name (g ++ (digits ++ (g ++ stocks_text g is tail))) a.0

-- What is in `buffer` after some stocks and the word at which they end, if there is one.
abbrev pub final_buffer : List Item → Option Name → Option Name → Option Name
final_buffer is (some word) buffer = some word
final_buffer [] none buffer = buffer
final_buffer ((name, digits) ∷ is) none buffer = final_buffer is none (some name)

final_buffer_step :
    (name digits : List ℕ) (is : List Item) (last buffer : Option Name)
    → final_buffer is last (some name) ≡ final_buffer ((name, digits) ∷ is) last buffer
final_buffer_step name digits is none buffer = refl
final_buffer_step name digits is (some word) buffer = refl

-- What the loop leaves.
pub record Reads (is : List Item) (ps : List Product) (last : Option Name) (rest : List ℕ)
    (buffer0 : Option Name) (result : Parsed StocksRead) : Type 0 where
  pub stocks : List Stock
  pub products : List Product
  pub buffer : Option Name
  pub aux : Option ℤ
  pub reads :
      result
      ≡ parsed (record {
        stocks = stocks;
        products = products;
        buffer = buffer;
        aux = aux;
        last_word = last;
        rest = rest;
      })
  pub match : Match products is stocks
  pub catalogue : IsCatalogue products
  pub keeps : Keeps ps products
  pub in_buffer : buffer ≡ final_buffer is last buffer0

stop :
    (g tail : List ℕ) (last : Option Name) (rest : List ℕ) (fuel : ℕ) (ps : List Product)
    (buffer : Option Name) (aux : Option ℤ)
    → IsGap g
    → IsCatalogue ps
    → StopsAt g tail last rest
    → Reads [] ps last rest buffer (read_stocks (suc fuel) tail ps buffer aux)
unfolding read_stocks
stop g tail none rest fuel ps buffer aux h c s = record {
  stocks = [];
  products = ps;
  buffer = buffer;
  aux = aux;
  reads =
      ap (stocks_at (λ rest ps' b a. read_stocks fuel rest ps' b a) ps buffer aux)
        (ap scan_pair s.0 ∙ scan_pair_end)
      ∙ ap
          (λ r. parsed (record {
            stocks = [];
            products = ps;
            buffer = buffer;
            aux = aux;
            last_word = none;
            rest = r;
          }))
          (sym s.1);
  match = tt;
  catalogue = c;
  keeps = record { at = λ i p e. e };
  in_buffer = refl;
}
stop g tail (some word) rest fuel ps buffer aux h c s = record {
  stocks = [];
  products = ps;
  buffer = some word;
  aux = aux;
  reads =
      ap (stocks_at (λ rest ps' b a. read_stocks fuel rest ps' b a) ps buffer aux)
        (ap scan_pair s.0 ∙ scan_pair_word word g rest s.1 h s.2)
      ∙ if_true (ltb (length word) city_name_max_length) _ _ (fits word s.1);
  match = tt;
  catalogue = c;
  keeps = record { at = λ i p e. e };
  in_buffer = refl;
}

-- A stock that is read, in front of others.
add_item :
    {is : List Item} {ps qs : List Product} {last : Option Name} {rest : List ℕ}
    {next : Parsed StocksRead} (name digits : List ℕ) (p : Product) (buffer0 : Option Name)
    → p.name ≡ name
    → get_elem? qs p.id ≡ some p
    → Keeps ps qs
    → Reads is qs last rest (some name) next
    → Reads
        ((name, digits) ∷ is)
        ps
        last
        rest
        buffer0
        (add_stock (some (record { amount = pos (value 0 digits); product = p })) next)
add_item {is} {ps} {qs} {last} {rest} {next} name digits p buffer0 named placed kept r = record {
  stocks = record { amount = pos (value 0 digits); product = p } ∷ r.stocks;
  products = r.products;
  buffer = r.buffer;
  aux = r.aux;
  reads = ap (add_stock (some (record { amount = pos (value 0 digits); product = p }))) r.reads;
  match = (named, refl, r.keeps.at p.id p placed, r.match);
  catalogue = r.catalogue;
  keeps = Keeps-trans kept r.keeps;
  in_buffer = r.in_buffer ∙ final_buffer_step name digits is last buffer0;
}

init_stock_lem :
    (name : Name) (n : ℤ) (ps : List Product) (p : Product)
    → (get_product name ps).0 ≡ some p
    → init_stock name n ps ≡ (some (record { amount = n; product = p }), (get_product name ps).1)
unfolding init_stock
init_stock_lem name n ps p e =
    ap
      (λ (o : Option Product). (
        elim o [ none ↦ none | some q ↦ some (record { amount = n; product = q }) ],
        (get_product name ps).1,
      ))
      e

-- The loop over the text of some stocks, with fuel for them: it gives the stocks that the text
-- describes, for a catalogue of products, and leaves a catalogue.
pub read_stocks_lem :
    (g : List ℕ) (is : List Item) (tail : List ℕ) (last : Option Name) (rest : List ℕ) (fuel : ℕ)
    (ps : List Product) (buffer : Option Name) (aux : Option ℤ)
    → IsGap g
    → AreItems is
    → AtName tail
    → StopsAt g tail last rest
    → IsCatalogue ps
    → length is < fuel
    → Reads is ps last rest buffer (read_stocks fuel (stocks_text g is tail) ps buffer aux)
unfolding read_stocks
read_stocks_lem g is tail last rest zero ps buffer aux h a t s c f = absurd (omega arith)
read_stocks_lem g [] tail last rest (suc fuel) ps buffer aux h a t s c f =
    stop g tail last rest fuel ps buffer aux h c s
read_stocks_lem g ((name, digits) ∷ is) tail last rest (suc fuel) ps buffer aux h a t s c f =
    let interned = get_product_lem name c (short_name name a.0) in
    let ps' = (get_product name ps).1 in
    let made = init_stock_lem name (pos (value 0 digits)) ps interned.product interned.found in
    let more =
      read_stocks_lem g is tail last rest fuel ps' (some name) (some (pos (value 0 digits))) h a.2 t
        s interned.catalogue (omega arith) in
    let after = stocks_text g is tail in
    subst (Reads ((name, digits) ∷ is) ps last rest buffer)
      (sym (
        ap (stocks_at (λ r ps' b x. read_stocks fuel r ps' b x) ps buffer aux) (
          scan_pair_pair name digits g after a.0 a.1 h
            (AtText-of_name after (AtName-stocks g is tail a.2 t)))
        ∙ if_true (ltb (length name) city_name_max_length) _ _ (fits name a.0)
        ∙ ap
            (λ (r : Option Stock × List Product).
              add_stock r.0 (read_stocks fuel after r.1 (some name) (some (pos (value 0 digits)))))
            made))
      (add_item name digits interned.product buffer interned.named interned.placed
        (record { at = interned.kept }) more)
