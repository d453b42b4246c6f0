-- ===== src/App/Number.antt =====
-- The C++ `int` of the identifiers: its values, their text, and std::stoi and std::stoull.
use cloud_storge_system.Common.{
  ℕ, suc, ◌-◌, ◌^◌, ◌≡◌, ◌↔◌, arith, Bool, true, false, Bytes, Option, none, some, [], ◌∷◌, ltb,
  leb, ◌==◌, if◌then◌else◌, skip_space, read_digits, is_digit, to_string,
}

-- `negsuc n` is -(n + 1).
pub data ℤ : Type 0 where
  pos : ℕ → ℤ
  negsuc : ℕ → ℤ

unfoldable pub int_eqb : ℤ → ℤ → Bool
int_eqb (pos a) (pos b) = a == b
int_eqb (negsuc a) (negsuc b) = a == b
int_eqb _ _ = false

pub int_eqb_iff : (a b : ℤ) → (int_eqb a b ≡ true) ↔ (a ≡ b)
unfolding int_eqb
int_eqb_iff (pos a) (pos b) = ground arith
int_eqb_iff (pos a) (negsuc b) = ground arith
int_eqb_iff (negsuc a) (pos b) = ground arith
int_eqb_iff (negsuc a) (negsuc b) = ground arith

-- `std::to_string(int)`.
unfoldable pub int_text : ℤ → Bytes
unfolding to_string
int_text (pos n) = to_string n
int_text (negsuc n) = b'-' ∷ to_string (suc n)

-- The digits at the front as a number; `none` where there is none.
abbrev pub read_number : Bytes → Option ℕ
read_number [] = none
read_number (c ∷ cs) = if is_digit c then some (read_digits 0 (c ∷ cs)) else none

abbrev positive_int : Option ℕ → Option ℤ
positive_int none = none
positive_int (some n) = if ltb n (2 ^ 31) then some (pos n) else none

abbrev negative_int : Option ℕ → Option ℤ
negative_int none = none
negative_int (some n) =
    if n == 0 then some (pos 0) else if leb n (2 ^ 31) then some (negsuc (n - 1)) else none

abbrev signed_int : Bytes → Option ℤ
signed_int [] = none
signed_int (c ∷ cs) =
    if c == b'-'
    then negative_int (read_number cs)
    else if c == b'+'
    then positive_int (read_number cs)
    else positive_int (read_number (c ∷ cs))

-- `std::stoi`; `none` is std::invalid_argument or std::out_of_range.
unfoldable pub stoi : Bytes → Option ℤ
unfolding skip_space read_digits
stoi text = signed_int (skip_space text)

abbrev pub small_size : Option ℕ → Option ℕ
small_size none = none
small_size (some n) = if ltb n (2 ^ 64) then some n else none

-- `std::stoull` on text without a sign.
unfoldable pub stoull : Bytes → Option ℕ
unfolding skip_space read_digits
stoull text = small_size (read_number (skip_space text))
