-- ===== src/Net/Request/Decode.antt =====
-- `urlDecode` undoes percent encoding.
use cloud_storge_system.Common.{
  ℕ, zero, suc, ◌+◌, ◌/◌, ◌%◌, ◌<◌, ◌≡◌, refl, ap, ◌∙◌, inl, inr, Bytes, Option, none, some, [],
  ◌∷◌, length, arith, Bool, true, false, ◌&&◌, ◌||◌, Bool-cases, if◌then◌else◌, leb, ltb, ◌==◌,
  ==_iff, All, is_digit,
}
use cloud_storge_system.Net.Request.{url_decode, scan_hex, or_junk}

-- The upper-case hexadecimal digit of a number below 16.
abbrev hex_char : ℕ → ℕ
hex_char n = if ltb n 10 then 48 + n else 55 + n

-- The characters that encodeURIComponent of the web page leaves alone.
abbrev pub is_unreserved : ℕ → Bool
is_unreserved c =
    (leb 97 c && leb c 122)
    || (leb 65 c && leb c 90)
    || is_digit c
    || c == 45
    || c == 95
    || c == 46
    || c == 33
    || c == 126
    || c == 42
    || c == 39
    || c == 40
    || c == 41

-- Percent encoding, as encodeURIComponent defines it on the bytes of a text.
pub url_encode : Bytes → Bytes
url_encode [] = []
url_encode (c ∷ cs) =
    let rest = url_encode cs in
    if is_unreserved c then c ∷ rest else b'%' ∷ hex_char (c / 16) ∷ hex_char (c % 16) ∷ rest

abbrev is_some_of : ℕ → Option ℕ → Bool
is_some_of c none = false
is_some_of c (some x) = x == c

-- The two hexadecimal digits of a byte are scanned as that byte.
abbrev scans_back : ℕ → Bool
scans_back c = is_some_of c (scan_hex (hex_char (c / 16) ∷ hex_char (c % 16) ∷ []))

-- So it is for all bytes from 0 on, as many as the count says.
table_holds : ℕ → Bool
unfolding scan_hex
table_holds zero = true
table_holds (suc count) = let rest = table_holds count in if scans_back count then rest else false

table_holds-scans_back : (c count : ℕ) → c < count → table_holds count ≡ true → scans_back c ≡ true
unfolding table_holds
table_holds-scans_back c zero less h = absurd (omega (arith, less))
table_holds-scans_back c (suc count) less h = elim (Bool-cases (scans_back count)) [
  | inl here ↦ elim (Bool-cases (c == count)) [
    | inl same ↦ ap scans_back ((==_iff c count).0 same) ∙ here
    | inr apart ↦
        let rest : table_holds count ≡ true = ground (arith, here, h) in
        table_holds-scans_back c count (ground (arith, less, apart)) rest
  ]
  | inr here ↦ absurd (ground (arith, here, h))
]

all_bytes : table_holds 256 ≡ true
unfolding table_holds scan_hex
all_bytes = refl

or_junk_of : (c j : ℕ) (o : Option ℕ) → is_some_of c o ≡ true → or_junk j o ≡ c
or_junk_of c j none h = cc
or_junk_of c j (some x) h = (==_iff x c).0 h

scan_hex-hex_char :
    (c j : ℕ) → c < 256 → or_junk j (scan_hex (hex_char (c / 16) ∷ hex_char (c % 16) ∷ [])) ≡ c
scan_hex-hex_char c j h = or_junk_of c j _ (table_holds-scans_back c 256 h all_bytes)

url_decode-plain :
    (junk : ℕ → ℕ) (c : ℕ) (cs : Bytes)
    → is_unreserved c ≡ true
    → url_decode junk (c ∷ cs) ≡ c ∷ url_decode junk cs
unfolding url_decode
url_decode-plain junk c [] h = ground arith
url_decode-plain junk c (a ∷ []) h = ground arith
url_decode-plain junk c (a ∷ b ∷ cs) h = ground arith

url_decode-escaped :
    (junk : ℕ → ℕ) (a b : ℕ) (cs : Bytes)
    → url_decode junk (b'%' ∷ a ∷ b ∷ cs)
      ≡ or_junk (junk (length cs)) (scan_hex (a ∷ b ∷ [])) ∷ url_decode junk cs
unfolding url_decode
url_decode-escaped junk a b cs = refl

-- Decoding gives back every byte string that was percent encoded, whatever stands in the variable
-- that sscanf may leave alone.
pub url_decode-url_encode :
    (junk : ℕ → ℕ) (s : Bytes) → All (λ c. c < 256) s → url_decode junk (url_encode s) ≡ s
unfolding url_encode
url_decode-url_encode junk [] h = unfold url_decode in refl
url_decode-url_encode junk (c ∷ cs) h =
    let ih = url_decode-url_encode junk cs h.1 in
    elim (Bool-cases (is_unreserved c)) [
      | inl keep ↦ rw keep (url_decode-plain junk c (url_encode cs) keep ∙ ap (λ t. c ∷ t) ih)
      | inr escape ↦ rw escape (
          url_decode-escaped junk (hex_char (c / 16)) (hex_char (c % 16)) (url_encode cs)
          ∙ ap (λ d. d ∷ url_decode junk (url_encode cs)) (scan_hex-hex_char c _ h.0)
          ∙ ap (λ t. c ∷ t) ih)
    ]
