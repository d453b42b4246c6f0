-- ===== src/App/Range/Header.antt =====
-- The Range header of the form that browsers send, `bytes=<first>-<last>`.
use cloud_storge_system.Common.{
  ℕ, ◌-◌, ◌<◌, ◌^◌, ◌≡◌, ◌≢◌, refl, sym, ap, ◌∙◌, true, false, Bytes, bytes, Option, none, some, [],
  ◌∷◌, ◌++◌, if◌then◌else◌, ltb, leb, is_digit, is_prefix, is_space, to_string, read_digits,
  skip_space, Digits, digits_of-Digits, digits_of-ne-nil, read_digits-digits_of, append-nil, arith,
}
use cloud_storge_system.App.Number.{stoull, read_number, small_size}
use cloud_storge_system.App.Range.{
  part, unsatisfiable, span_digits, range_groups, match_range, search_range, parse_range,
}

span_digits-append :
    (ds : Bytes) (c : ℕ) (rest : Bytes)
    → Digits ds
    → is_digit c ≡ false
    → span_digits (ds ++ c ∷ rest) ≡ (ds, c ∷ rest)
unfolding span_digits
span_digits-append [] c rest d n = rw n refl
span_digits-append (x ∷ xs) c rest d n =
    let y : is_digit x ≡ true = ground (arith, d.0.0, d.0.1) in
    rw (span_digits-append xs c rest d.1 n, y) refl

span_digits-all : (ds : Bytes) → Digits ds → span_digits ds ≡ (ds, [])
unfolding span_digits
span_digits-all [] d = refl
span_digits-all (x ∷ xs) d =
    let y : is_digit x ≡ true = ground (arith, d.0.0, d.0.1) in rw (span_digits-all xs d.1, y) refl

-- A numeral begins with a digit.
pub Numeral : Bytes → Type 0
Numeral [] = ⊥
Numeral (c ∷ cs) = Digits (c ∷ cs)

to_string-Numeral : (n : ℕ) → Numeral (to_string n)
unfolding to_string Numeral
to_string-Numeral n = by_text (to_string n) (digits_of-Digits 20 n) (digits_of-ne-nil 19 n)
  where
    by_text : (s : Bytes) → Digits s → s ≢ [] → Numeral s
    by_text [] d h = h refl
    by_text (c ∷ cs) d h = d

read_number-digit :
    (c : ℕ) (cs : Bytes) (n : ℕ)
    → is_digit c ≡ true
    → read_digits 0 (c ∷ cs) ≡ n
    → read_number (c ∷ cs) ≡ some n
read_number-digit c cs n d e = rw d (ap some e)

stoull-Numeral :
    (s : Bytes) (n : ℕ) → Numeral s → read_digits 0 s ≡ n → n < 2 ^ 64 → stoull s ≡ some n
unfolding stoull Numeral skip_space
stoull-Numeral [] n d e h = absurd d
stoull-Numeral (c ∷ cs) n d e h =
    let digit : is_digit c ≡ true = ground (arith, d.0.0, d.0.1) in
    let plain : is_space c ≡ false = ground (arith, d.0.0, d.0.1) in
    let small : ltb n (2 ^ 64) ≡ true = ground (arith, h) in
    let known : read_number (c ∷ cs) ≡ some n = read_number-digit c cs n digit e in
    rw plain (ap small_size known ∙ kept small)
  where
    kept : ltb n (2 ^ 64) ≡ true → small_size (some n) ≡ some n
    kept small = rw small refl

stoull-to_string : (n : ℕ) → n < 2 ^ 64 → stoull (to_string n) ≡ some n
unfolding to_string read_digits
stoull-to_string n h =
    stoull-Numeral (to_string n) n (to_string-Numeral n)
      (ap (read_digits 0) (sym (append-nil (to_string n)))
        ∙ read_digits-digits_of 20 n [] (omega (arith, h)))
      h

match_range-numerals :
    (s t : Bytes)
    → Numeral s
    → Digits t
    → match_range (bytes "bytes=" ++ (s ++ 45 ∷ t)) ≡ some (s, t)
unfolding match_range Numeral is_prefix
match_range-numerals [] t d e = absurd d
match_range-numerals (c ∷ cs) t d e =
    rw (span_digits-append (c ∷ cs) 45 t d refl, span_digits-all t e) refl

search_range-front :
    (c : ℕ) (cs : Bytes) (g : Bytes × Bytes)
    → match_range (c ∷ cs) ≡ some g
    → search_range (c ∷ cs) ≡ some g
unfolding search_range
search_range-front c cs g h =
    ap (λ (o : Option (Bytes × Bytes)). elim o [ none ↦ search_range cs | some x ↦ some x ]) h

parse_range-found :
    (c : ℕ) (cs : Bytes) (size : ℕ) (g : Bytes × Bytes)
    → search_range (c ∷ cs) ≡ some g
    → parse_range (c ∷ cs) size ≡ range_groups size (some g)
unfolding parse_range
parse_range-found c cs size g h = ap (range_groups size) h

range_groups-numerals :
    (s t : Bytes) (first last size : ℕ)
    → stoull s ≡ some first
    → stoull t ≡ some last
    → Numeral t
    → range_groups size (some (s, t)) ≡ (
        if leb size first
        then unsatisfiable
        else part first (if leb size last then size - 1 else last))
unfolding Numeral
range_groups-numerals s [] first last size a b d = absurd d
range_groups-numerals s (c ∷ cs) first last size a b d = rw (a, b) refl

Numeral-Digits : (s : Bytes) → Numeral s → Digits s
unfolding Numeral
Numeral-Digits [] d = tt
Numeral-Digits (c ∷ cs) d = d

-- A header `bytes=<first>-<last>` with positions below 2 ^ 64: 416 where the first is not in the
-- file, and else the part from the first position to the last, or to the end of the file where the
-- last is not in it. A last position before the first is taken as it is.
pub parse_range-positions :
    (first last size : ℕ)
    → first < 2 ^ 64
    → last < 2 ^ 64
    → parse_range (bytes "bytes=" ++ (to_string first ++ 45 ∷ to_string last)) size ≡ (
        if leb size first
        then unsatisfiable
        else part first (if leb size last then size - 1 else last))
parse_range-positions first last size a b =
    let s = to_string first in
    let t = to_string last in
    let n = to_string-Numeral last in
    let m = match_range-numerals s t (to_string-Numeral first) (Numeral-Digits t n) in
    parse_range-found b'b' (bytes "ytes=" ++ (s ++ 45 ∷ t)) size (s, t)
      (search_range-front b'b' (bytes "ytes=" ++ (s ++ 45 ∷ t)) (s, t) m)
    ∙ range_groups-numerals s t first last size (stoull-to_string first a) (stoull-to_string last b)
        n
