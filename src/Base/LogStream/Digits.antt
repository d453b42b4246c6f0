-- ===== src/Base/LogStream/Digits.antt =====
-- The conversion of an integer, and the numeral that `std::to_string` gives.
use cloud_storge_system.Common.{
  ℕ, zero, suc, ◌+◌, ◌/◌, ◌%◌, ◌<◌, ◌==◌, ◌≡◌, ◌∙◌, sym, ap, refl, inl, inr, Bool, Bool-cases, true,
  false, Bytes, [], ◌∷◌, ◌++◌, ltb, arith, append_assoc, append-nil, digits_of, to_string,
}
use cloud_storge_system.Base.LogStream.{reverse, digit, convert_loop, sign, convert}

-- The table of digits reads the same in both directions.
both_signs : (d : ℕ) → d < 10 → (digit true d ≡ 48 + d) × (digit false d ≡ 48 + d)
both_signs zero h = (refl, refl)
both_signs (suc zero) h = (refl, refl)
both_signs (suc (suc zero)) h = (refl, refl)
both_signs (suc (suc (suc zero))) h = (refl, refl)
both_signs (suc (suc (suc (suc zero)))) h = (refl, refl)
both_signs (suc (suc (suc (suc (suc zero))))) h = (refl, refl)
both_signs (suc (suc (suc (suc (suc (suc zero)))))) h = (refl, refl)
both_signs (suc (suc (suc (suc (suc (suc (suc zero))))))) h = (refl, refl)
both_signs (suc (suc (suc (suc (suc (suc (suc (suc zero)))))))) h = (refl, refl)
both_signs (suc (suc (suc (suc (suc (suc (suc (suc (suc zero))))))))) h = (refl, refl)
both_signs (suc (suc (suc (suc (suc (suc (suc (suc (suc (suc n)))))))))) h = omega (arith, h)

digit-decimal : (d : ℕ) → d < 10 → (negative : Bool) → digit negative d ≡ 48 + d
digit-decimal d h true = (both_signs d h).0
digit-decimal d h false = (both_signs d h).1

reverse-append : (xs ys : Bytes) → reverse (xs ++ ys) ≡ reverse ys ++ reverse xs
reverse-append [] ys = sym (append-nil _)
reverse-append (x ∷ xs) ys =
    ap (λ l. l ++ (x ∷ [])) (reverse-append xs ys) ∙ append_assoc (reverse ys) (reverse xs) (x ∷ [])

reverse-convert_loop :
    (f : ℕ) (negative : Bool) (n : ℕ) → reverse (convert_loop f negative n) ≡ digits_of f n
unfolding digits_of
reverse-convert_loop zero negative n = refl
reverse-convert_loop (suc f) negative n = elim (Bool-cases (ltb n 10)) [
  | inl small ↦
      let last : (n / 10 == 0) ≡ true = ground arith in
      let all : n % 10 ≡ n = ground arith in
      rw (small, last)
        (ap (λ d. d ∷ []) (digit-decimal (n % 10) (omega arith) negative ∙ ap (λ d. 48 + d) all))
  | inr big ↦
      let more : (n / 10 == 0) ≡ false = ground arith in
      rw (big, more)
        (ap (λ l. l ++ (digit negative (n % 10) ∷ [])) (reverse-convert_loop f negative (n / 10))
          ∙ ap (λ d. digits_of f (n / 10) ++ (d ∷ []))
              (digit-decimal (n % 10) (omega arith) negative))
]

-- The conversion gives the sign and the decimal numeral.
pub convert-to_string :
    (negative : Bool) (n : ℕ) → convert negative n ≡ sign negative ++ to_string n
unfolding convert to_string
convert-to_string true n =
    reverse-append (convert_loop 20 true n) (sign true)
    ∙ ap (λ l. sign true ++ l) (reverse-convert_loop 20 true n)
convert-to_string false n =
    reverse-append (convert_loop 20 false n) [] ∙ reverse-convert_loop 20 false n
