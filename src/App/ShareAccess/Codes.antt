-- ===== src/App/ShareAccess/Codes.antt =====
-- Share codes: what `generateShareCode` makes and what `handleShareAccess` takes.
use cloud_storge_system.Common.{
  ℕ, zero, suc, ◌+◌, ◌%◌, ◌<◌, ◌≡◌, refl, Bool, true, Bytes, [], ◌∷◌, length, get_elem?, arith,
}
use cloud_storge_system.App.World.{Env, World, done}
use cloud_storge_system.App.Session.{random_text, lower_alphabet, byte_or, generate_share_code}
use cloud_storge_system.App.ShareAccess.{all_of, code_char, code_length_ok, code_chars_ok}

all_of-at :
    (p : ℕ → Bool) (xs : Bytes) (i : ℕ)
    → all_of p xs ≡ true
    → i < length xs
    → p (byte_or 0 (get_elem? xs i)) ≡ true
all_of-at p [] i h l = absurd (omega (arith, l))
all_of-at p (x ∷ xs) zero h l = ground (arith, h)
all_of-at p (x ∷ xs) (suc i) h l = all_of-at p xs i (ground (arith, h)) (omega (arith, l))

random_text-length :
    (draw : ℕ → ℕ) (alphabet : Bytes) (first n : ℕ) → length (random_text draw alphabet first n) ≡ n
unfolding random_text
random_text-length draw alphabet first zero = refl
random_text-length draw alphabet first (suc n) =
    omega (arith, random_text-length draw alphabet (first + 1) n)

lower_alphabet-code : all_of code_char lower_alphabet ≡ true
lower_alphabet-code = refl

random_text-code :
    (draw : ℕ → ℕ) (first n : ℕ) → all_of code_char (random_text draw lower_alphabet first n) ≡ true
unfolding random_text
random_text-code draw first zero = refl
random_text-code draw first (suc n) =
    let i = draw first % 36 in
    let c =
      all_of-at code_char lower_alphabet (draw first % 36) lower_alphabet-code (omega arith) in
    ground (arith, c, random_text-code draw (first + 1) n)

length_ok : (code : Bytes) → length code ≡ 32 → code_length_ok code ≡ true
unfolding code_length_ok
length_ok [] h = absurd (omega (arith, h))
length_ok (c ∷ cs) h = ground (arith, h)

-- Whatever the random device draws, the code that `generateShareCode` makes passes both checks of
-- `handleShareAccess`.
pub generate_share_code-accepted :
    (env : Env) (w : World)
    → (code : Bytes) × (w' : World) × (generate_share_code env w ≡ (done code, w'))
      × (code_length_ok code ≡ true)
      × (code_chars_ok code ≡ true)
unfolding generate_share_code code_length_ok code_chars_ok
generate_share_code-accepted env w = (
  random_text env.draw lower_alphabet w.draws 32,
  _,
  refl,
  length_ok (random_text env.draw lower_alphabet w.draws 32)
      (random_text-length env.draw lower_alphabet w.draws 32),
  random_text-code env.draw w.draws 32,
)
