-- ===== src/Net/TcpServer/Names.antt =====
-- The names of connections, and the map that they are the keys of.
use cloud_storge_system.Common.{
  ℕ, ◌+◌, ◌^◌, ◌≤◌, ◌<◌, ◌≡◌, ◌≢◌, inl, inr, ◌∙◌, sym, ap, refl, Bool-cases, Bytes, bytes, List, [],
  ◌∷◌, ◌++◌, length, drop, eqb, eqb_iff, to_string, digits_of, read_digits, read_digits-digits_of,
  drop-append_left, if◌then◌else◌, if-cases, arith,
}
use cloud_storge_system.Net.TcpServer.{Conn, Server, conn_name, assign, erase}

-- The numbers of an `int` have different numerals.
to_string-injective : (m n : ℕ) → m < 2 ^ 31 → n < 2 ^ 31 → to_string m ≡ to_string n → m ≡ n
unfolding to_string read_digits
to_string-injective m n h k e = sym (reads m h) ∙ ap (λ t. read_digits 0 (t ++ [])) e ∙ reads n k
  where
    reads : (m : ℕ) → m < 2 ^ 31 → read_digits 0 (digits_of 20 m ++ []) ≡ m
    reads m h = read_digits-digits_of 20 m [] (omega (arith, h))

append-injective : (xs ys zs : Bytes) → xs ++ ys ≡ xs ++ zs → ys ≡ zs
append-injective xs ys zs e =
    sym (drop-append_left xs ys) ∙ ap (drop (length xs)) e ∙ drop-append_left xs zs

abbrev pub occurs : Bytes → List (Bytes × Conn) → ℕ
occurs k [] = 0
occurs k ((j, c) ∷ m) = (if eqb j k then 1 else 0) + occurs k m

abbrev pub one : Bytes → Bytes → ℕ
one j k = if eqb j k then 1 else 0

-- A name that is no key is added.
pub occurs-assign :
    (j k : Bytes) (c : Conn) (m : List (Bytes × Conn))
    → occurs k m ≡ 0
    → occurs j (assign k c m) ≡ occurs j m + one k j
occurs-assign j k c [] h = omega arith
occurs-assign j k c ((i, d) ∷ m) h =
    if-cases (λ l. occurs j l ≡ one i j + occurs j m + one k j) (eqb i k) ((i, c) ∷ m)
      ((i, d) ∷ assign k c m)
      (λ e. let z = ap (λ b. (if b then 1 else 0) + occurs k m) (sym e) in omega (arith, z, h))
      (λ e.
        let z = ap (λ b. (if b then 1 else 0) + occurs k m) (sym e) in
        let r = occurs-assign j k c m (omega (arith, z, h)) in omega (arith, r))

-- A key is taken away once.
pub occurs-erase :
    (j k : Bytes) (m : List (Bytes × Conn))
    → 1 ≤ occurs k m
    → occurs j m ≡ occurs j (erase k m) + one k j
occurs-erase j k [] h = ground (arith, h)
occurs-erase j k ((i, d) ∷ m) h =
    if-cases (λ l. one i j + occurs j m ≡ occurs j l + one k j) (eqb i k) m ((i, d) ∷ erase k m)
      (λ e. let z : i ≡ k = (eqb_iff i k).0 e in let w = ap (λ i. one i j) z in omega (arith, w))
      (λ e.
        let z = ap (λ b. (if b then 1 else 0) + occurs k m) (sym e) in
        let r = occurs-erase j k m (omega (arith, z, h)) in omega (arith, r))

-- Two connections of a server have different names.
pub conn_name-ne :
    (s : Server) (m n : ℕ)
    → m < 2 ^ 31
    → n < 2 ^ 31
    → m ≢ n
    → one (conn_name s m) (conn_name s n) ≡ 0
conn_name-ne s m n h k d = elim (Bool-cases (eqb (conn_name s m) (conn_name s n))) [
  | inl e ↦
      let a = (eqb_iff (conn_name s m) (conn_name s n)).0 e in
      let b = append-injective s.name _ _ a in
      let c = append-injective (bytes "-") _ _ b in
      let f = append-injective s.ip_port _ _ c in
      let g = append-injective (bytes "#") _ _ f in elim (d (to_string-injective m n h k g)) [ ]
  | inr e ↦ ap (λ b. if b then 1 else 0) e
]

abbrev pub Keyed : List (Bytes × Conn) → Type 0
Keyed [] = Unit
Keyed ((j, c) ∷ m) = (j ≡ c.name) × Keyed m

pub Keyed-assign : (c : Conn) (m : List (Bytes × Conn)) → Keyed m → Keyed (assign c.name c m)
Keyed-assign c [] v = (refl, tt)
Keyed-assign c ((j, d) ∷ m) (e, v) =
    if-cases Keyed (eqb j c.name) ((j, c) ∷ m) ((j, d) ∷ assign c.name c m)
      (λ h. ((eqb_iff j c.name).0 h, v)) (λ h. (e, Keyed-assign c m v))

pub Keyed-erase : (k : Bytes) (m : List (Bytes × Conn)) → Keyed m → Keyed (erase k m)
Keyed-erase k [] v = tt
Keyed-erase k ((j, d) ∷ m) (e, v) =
    if-cases Keyed (eqb j k) m ((j, d) ∷ erase k m) (λ h. v) (λ h. (e, Keyed-erase k m v))
