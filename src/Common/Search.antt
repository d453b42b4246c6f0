-- ===== src/Common/Search.antt =====
-- What the searches on text find, and the decimal numerals.
use Prim.Native.Nat.{ℕ, zero, suc, ◌+◌, ◌-◌, ◌*◌, ◌/◌, ◌%◌, ◌^◌, ◌<◌, ◌≤◌}
use mathlib.Core.Path.{◌≡◌, refl, ap, ◌∙◌, sym}
use mathlib.Core.Logic.{◌≢◌, inl, inr}
use mathlib.Core.Bool.{true, false, ◌&&◌}
use mathlib.Core.Option.{Option, none, some}
use mathlib.Core.List.{List, [], ◌∷◌, ◌++◌, append_assoc}
use native.Mathlib.Omega.{arith}
use native.Mathlib.Nat.{pow-suc}
use cloud_storge_system.Common.Tests.{ltb, ◌==◌, if◌then◌else◌, Bool-cases}
use cloud_storge_system.Common.Lists.{length}
use cloud_storge_system.Common.Text.{Bytes, split_at, find, read_digits, digits_of}

abbrev pub All {ℓ κ} : {A : Type ℓ} → (A → Type κ) → List A → Type κ
All P [] = Unit
All P (x ∷ xs) = P x × All P xs

-- The byte `c` does not stand in the text.
abbrev pub NoByte : ℕ → Bytes → Type 0
NoByte c = All (λ x. x ≢ c)

pub NoByte-append : (c : ℕ) (xs ys : Bytes) → NoByte c xs → NoByte c ys → NoByte c (xs ++ ys)
NoByte-append c [] ys h k = k
NoByte-append c (x ∷ xs) ys h k = (h.0, NoByte-append c xs ys h.1 k)

pub split_at-append :
    (c : ℕ) (xs ys : Bytes) → NoByte c xs → split_at c (xs ++ c ∷ ys) ≡ some (xs, c ∷ ys)
unfolding split_at
split_at-append c [] ys h = ground arith
split_at-append c (x ∷ xs) ys h = ground (arith, split_at-append c xs ys h.1, h.0)

pub split_at-eq-none : (c : ℕ) (xs : Bytes) → NoByte c xs → split_at c xs ≡ none
unfolding split_at
split_at-eq-none c [] h = refl
split_at-eq-none c (x ∷ xs) h = ground (arith, split_at-eq-none c xs h.1, h.0)

pub find-crlf :
    (xs ys : Bytes) → NoByte 13 xs → find (13 ∷ 10 ∷ []) (xs ++ 13 ∷ 10 ∷ ys) ≡ some (length xs)
unfolding find
find-crlf [] ys h = refl
find-crlf (x ∷ xs) ys h = ground (arith, find-crlf xs ys h.1, h.0)

-- A match leaves at least the pattern behind its position.
pub find-crlf-le : (xs : Bytes) (i : ℕ) → find (13 ∷ 10 ∷ []) xs ≡ some i → i + 2 ≤ length xs
unfolding find
find-crlf-le [] i e = ground arith
find-crlf-le (x ∷ []) i e = ground arith
find-crlf-le (x ∷ y ∷ ys) i e = elim (Bool-cases (13 == x && (10 == y && true))) [
  | inl here ↦ ground (arith, here)
  | inr later ↦ step (λ j. find-crlf-le (y ∷ ys) j) (find (13 ∷ 10 ∷ []) (y ∷ ys)) refl later
]
  where
    step :
        ((j : ℕ) → find (13 ∷ 10 ∷ []) (y ∷ ys) ≡ some j → j + 2 ≤ length (y ∷ ys))
        → (o : Option ℕ) → find (13 ∷ 10 ∷ []) (y ∷ ys) ≡ o
        → (13 == x && (10 == y && true)) ≡ false
        → i + 2 ≤ length (x ∷ y ∷ ys)
    step ih none eo later = ground arith
    step ih (some j) eo later = ground (arith, ih j eo)

-- Reading one more digit.
read_digits-cons :
    (k d : ℕ) (s : Bytes) → d < 10 → read_digits k ((48 + d) ∷ s) ≡ read_digits (k * 10 + d) s
unfolding read_digits
read_digits-cons k d s h =
    let e : k * 10 + (48 + d - 48) ≡ k * 10 + d = omega arith in
    ground (arith, ap (λ m. read_digits m s) e)

digits_of-suc :
    (f n : ℕ)
    → digits_of (suc f) n
      ≡ (if ltb n 10 then (48 + n) ∷ [] else digits_of f (n / 10) ++ (48 + n % 10) ∷ [])
unfolding digits_of
digits_of-suc f n = refl

-- A numeral reads back as its number, and reading goes on behind it.
pub read_digits-digits_of :
    (f n : ℕ) (s : Bytes) → n < 10 ^ f → read_digits 0 (digits_of f n ++ s) ≡ read_digits n s
unfolding digits_of
read_digits-digits_of zero n s h = let e : n ≡ 0 = omega arith in ap (λ k. read_digits k s) (sym e)
read_digits-digits_of (suc f) n s h = elim (Bool-cases (ltb n 10)) [
  | inl small ↦
      let e : 0 * 10 + n ≡ n = omega arith in
      rw small (read_digits-cons 0 n s (ground arith) ∙ ap (λ k. read_digits k s) e)
  | inr big ↦
      let shorter : n / 10 < 10 ^ f = omega (arith, pow-suc 10 f) in
      let e : n / 10 * 10 + n % 10 ≡ n = omega arith in
      let ih = read_digits-digits_of f (n / 10) ((48 + n % 10) ∷ s) shorter in
      rw (big, append_assoc (digits_of f (n / 10)) ((48 + n % 10) ∷ []) s)
        (ih ∙ read_digits-cons (n / 10) (n % 10) s (omega arith) ∙ ap (λ k. read_digits k s) e)
]

abbrev pub Digits : Bytes → Type 0
Digits = All (λ c. (48 ≤ c) × (c ≤ 57))

All-append {ℓ κ} :
    {A : Type ℓ} (P : A → Type κ) (xs ys : List A) → All P xs → All P ys → All P (xs ++ ys)
All-append P [] ys h k = k
All-append P (x ∷ xs) ys h k = (h.0, All-append P xs ys h.1 k)

pub digits_of-Digits : (f n : ℕ) → Digits (digits_of f n)
unfolding digits_of
digits_of-Digits zero n = tt
digits_of-Digits (suc f) n = elim (Bool-cases (ltb n 10)) [
  | inl small ↦ rw small ((omega arith, ground arith), tt)
  | inr big ↦ rw big (
      All-append _ (digits_of f (n / 10)) ((48 + n % 10) ∷ []) (digits_of-Digits f (n / 10))
        ((omega arith, omega arith), tt))
]

pub digits_of-ne-nil : (f n : ℕ) → digits_of (suc f) n ≢ []
unfolding digits_of
digits_of-ne-nil f n e = elim (Bool-cases (ltb n 10)) [
  | inl small ↦ cc (rw small at e)
  | inr big ↦ nonempty (digits_of f (n / 10)) _ (rw big at e)
]
  where
    nonempty : (xs : Bytes) (d : ℕ) → xs ++ d ∷ [] ≡ [] → ⊥
    nonempty [] d h = cc
    nonempty (x ∷ xs) d h = cc
