-- ===== src/Base/LogStream/Whole.antt =====
-- Writing into the stream: a text is written whole or left out, and never beyond the array.
use cloud_storge_system.Common.{
  ℕ, zero, suc, ◌+◌, ◌/◌, ◌%◌, ◌^◌, ◌<◌, ◌≤◌, ◌==◌, ◌≡◌, ◌∙◌, ◌⊎◌, sym, ap, refl, inl, inr, Bool,
  Bool-cases, true, false, Bytes, bytes, Option, some, [], ◌∷◌, ◌++◌, length, length-append, ltb,
  leb, if◌then◌else◌, arith, digits_of, to_string,
}
use cloud_storge_system.Base.LogStream.{
  Stream, small_buffer, avail, int_below, put, append, reverse, sign, convert_hex_loop, convert_hex,
  max_numeric_size, format_integer, format_address, Item, flag, integer, address, character,
  null_text, text, write,
}
use cloud_storge_system.Base.LogStream.Digits.{convert-to_string}

-- What an item looks like.
abbrev pub shown : Item → Bytes
shown (flag true) = bytes "1"
shown (flag false) = bytes "0"
shown (integer negative value) = sign negative ++ to_string value
shown (address value) = bytes "0x" ++ convert_hex value
shown (character c) = c ∷ []
shown null_text = bytes "(null)"
shown (text t) = t

-- The stream is within its array.
abbrev pub Within : Stream → Type 0
Within s = length s.text ≤ small_buffer

-- The call succeeds, stays within the array, and writes `t` whole or not at all: it is written when
-- there is more room than it takes and room for a number.
abbrev pub Whole : Bytes → Stream → Option Stream → Type 0
Whole t s o =
    (s' : Stream) × (o ≡ some s')
    × Within s'
    × ((s'.text ≡ s.text ++ t) ⊎ (s'.text ≡ s.text))
    × (length t < avail s → max_numeric_size ≤ avail s → s'.text ≡ s.text ++ t)

put-Whole : (t : Bytes) (s : Stream) → Within s → length t ≤ avail s → Whole t s (put t s)
put-Whole t s w h =
    let room : leb (length t) (avail s) ≡ true = ground arith in
    rw room (
      record s { text = s.text ++ t },
      refl,
      omega (arith, length-append s.text t, w, h),
      inl refl,
      λ a b. refl,
    )

-- The cast changes no length below 2 ^ 31.
cast-small : (n : ℕ) → n < 2 ^ 31 → n % 2 ^ 32 ≡ n
cast-small n h = omega arith

below-small : (n room : ℕ) → n < 2 ^ 31 → int_below n room ≡ ltb n room
below-small n room h =
    ap (λ m. if ltb m (2 ^ 31) then ltb m room else true) (cast-small n h)
    ∙ ap (λ b. if b then ltb n room else true) (small n h)
  where
    small : (n : ℕ) → n < 2 ^ 31 → ltb n (2 ^ 31) ≡ true
    small n h = ground arith

below-true : (n room : ℕ) → n < 2 ^ 31 → int_below n room ≡ true → n ≤ room
below-true n room h e =
    let q : ltb n room ≡ true = sym (below-small n room h) ∙ e in ground (arith, q)

below-false : (n room : ℕ) → n < 2 ^ 31 → int_below n room ≡ false → n < room → ⊥
below-false n room h e a =
    let q : ltb n room ≡ false = sym (below-small n room h) ∙ e in ground (arith, q)

append-Whole : (t : Bytes) (s : Stream) → Within s → length t < 2 ^ 31 → Whole t s (append t s)
unfolding append
append-Whole t s w small = elim (Bool-cases (int_below (length t) (avail s))) [
  | inl e ↦ rw e (put-Whole t s w (below-true (length t) (avail s) small e))
  | inr e ↦
      rw e (s, refl, w, inr refl, λ a b. elim (below-false (length t) (avail s) small e a) [ ])
]

number-Whole :
    (t : Bytes) (s : Stream)
    → Within s
    → length t ≤ max_numeric_size
    → Whole t s (if leb max_numeric_size (avail s) then put t s else some s)
number-Whole t s w small = elim (Bool-cases (leb max_numeric_size (avail s))) [
  | inl e ↦ rw e (put-Whole t s w (ground arith))
  | inr e ↦ rw e (s, refl, w, inr refl, λ a b. ground arith)
]

length-digits_of : (f n : ℕ) → length (digits_of f n) ≤ f
unfolding digits_of
length-digits_of zero n = omega arith
length-digits_of (suc f) n = elim (Bool-cases (ltb n 10)) [
  | inl e ↦ rw e (omega arith)
  | inr e ↦ rw e (
      omega (
        arith,
        length-append (digits_of f (n / 10)) ((48 + n % 10) ∷ []),
        length-digits_of f (n / 10),
      ))
]

length-reverse : (xs : Bytes) → length (reverse xs) ≡ length xs
length-reverse [] = refl
length-reverse (x ∷ xs) = omega (arith, length-append (reverse xs) (x ∷ []), length-reverse xs)

length-convert_hex_loop : (f n : ℕ) → length (convert_hex_loop f n) ≤ f
length-convert_hex_loop zero n = omega arith
length-convert_hex_loop (suc f) n = elim (Bool-cases (n / 16 == 0)) [
  | inl e ↦ rw e (omega arith)
  | inr e ↦ rw e (omega (arith, length-convert_hex_loop f (n / 16)))
]

short-hex : (f n : ℕ) → length (reverse (convert_hex_loop f n)) ≤ f
short-hex f n = omega (arith, length-reverse (convert_hex_loop f n), length-convert_hex_loop f n)

length-convert_hex : (n : ℕ) → length (convert_hex n) ≤ 16
unfolding convert_hex
length-convert_hex n = short-hex 16 n

length-to_string : (n : ℕ) → length (to_string n) ≤ 20
unfolding to_string
length-to_string n = length-digits_of 20 n

length-number : (negative : Bool) (n : ℕ) → length (sign negative ++ to_string n) ≤ max_numeric_size
length-number true n = omega (arith, length-to_string n)
length-number false n = omega (arith, length-to_string n)

-- From a stream within its array, an item whose text is shorter than 2 ^ 31 bytes is written whole,
-- an integer as its sign and decimal numeral, or not at all; the write stays within the array; and
-- it is made when there is more room than the text takes and room for a number of 48 bytes.
pub write-Whole :
    (i : Item) (s : Stream) → Within s → length (shown i) < 2 ^ 31 → Whole (shown i) s (write i s)
unfolding write format_integer format_address
write-Whole (flag true) s w h = append-Whole _ s w h
write-Whole (flag false) s w h = append-Whole _ s w h
write-Whole (character c) s w h = append-Whole _ s w h
write-Whole null_text s w h = append-Whole _ s w h
write-Whole (text t) s w h = append-Whole _ s w h
write-Whole (address value) s w h =
    number-Whole (bytes "0x" ++ convert_hex value) s w (omega (arith, length-convert_hex value))
write-Whole (integer negative value) s w h =
    rw (convert-to_string negative value)
      (number-Whole (sign negative ++ to_string value) s w (length-number negative value))
