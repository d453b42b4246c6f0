-- ===== src/Base/LogStream.antt =====
-- base/LogStream.h and base/LogStream.cc: the text of one line of the log, in an array of fixed size.
-- A number is its sign and its magnitude; `none` is a write beyond the array.
pub mod Digits
pub mod Whole
use cloud_storge_system.Common.{
  ℕ, zero, suc, ◌+◌, ◌-◌, ◌/◌, ◌%◌, ◌^◌, ◌==◌, Bool, true, false, Bytes, bytes, Option, none, some,
  List, [], ◌∷◌, ◌++◌, length, drop, ltb, leb, if◌then◌else◌,
}

-- FixedBuffer<kSmallBuffer>: what has been written.
pub record Stream : Type 0 where
  pub text : Bytes

abbrev pub small_buffer : ℕ
small_buffer = 4000

abbrev pub avail : Stream → ℕ
avail s = small_buffer - length s.text

-- A length as the `int` of the test, which is below any number when its high bit is set.
abbrev pub int_below : ℕ → ℕ → Bool
int_below len room = if ltb (len % 2 ^ 32) (2 ^ 31) then ltb (len % 2 ^ 32) room else true

-- `add` and the write before it.
abbrev pub put : Bytes → Stream → Option Stream
put bytes_in s =
    if leb (length bytes_in) (avail s) then some (record s { text = s.text ++ bytes_in }) else none

-- `FixedBuffer::append`.
unfoldable pub append : Bytes → Stream → Option Stream
append bytes_in s = if int_below (length bytes_in) (avail s) then put bytes_in s else some s

abbrev pub reverse : Bytes → Bytes
reverse [] = []
reverse (x ∷ xs) = reverse xs ++ (x ∷ [])

abbrev pub char_at : Bytes → ℕ
char_at [] = 0
char_at (c ∷ cs) = c

-- `zero[lsd]`, where the remainder has the sign of the number.
abbrev pub digit : Bool → ℕ → ℕ
digit negative d = char_at (drop (if negative then 9 - d else 9 + d) (bytes "9876543210123456789"))

abbrev digit_hex : ℕ → ℕ
digit_hex d = char_at (drop d (bytes "0123456789ABCDEF"))

-- The loop of `convert`: the digits from the last one on, by fuel.
abbrev pub convert_loop : ℕ → Bool → ℕ → Bytes
convert_loop zero negative i = []
convert_loop (suc f) negative i =
    let rest = convert_loop f negative (i / 10) in
    digit negative (i % 10) ∷ (if i / 10 == 0 then [] else rest)

abbrev pub sign : Bool → Bytes
sign true = bytes "-"
sign false = []

-- `convert`: twenty digits hold every 64-bit number.
unfoldable pub convert : Bool → ℕ → Bytes
convert negative value = reverse (convert_loop 20 negative value ++ sign negative)

abbrev pub convert_hex_loop : ℕ → ℕ → Bytes
convert_hex_loop zero i = []
convert_hex_loop (suc f) i =
    let rest = convert_hex_loop f (i / 16) in
    digit_hex (i % 16) ∷ (if i / 16 == 0 then [] else rest)

-- `convertHex`: sixteen digits hold every 64-bit number.
unfoldable pub convert_hex : ℕ → Bytes
convert_hex value = reverse (convert_hex_loop 16 value)

abbrev pub max_numeric_size : ℕ
max_numeric_size = 48

-- `formatInteger`.
unfoldable pub format_integer : Bool → ℕ → Stream → Option Stream
unfolding convert
format_integer negative value s =
    if leb max_numeric_size (avail s) then put (convert negative value) s else some s

-- `operator<<` of a pointer.
unfoldable pub format_address : ℕ → Stream → Option Stream
unfolding convert_hex
format_address value s =
    if leb max_numeric_size (avail s) then put (bytes "0x" ++ convert_hex value) s else some s

-- What is written into a stream: a Boolean, an integer, a pointer, a character, a C string or a null
-- pointer to one, or a string.
pub data Item : Type 0 where
  flag : Bool → Item
  integer : Bool → ℕ → Item
  address character : ℕ → Item
  null_text : Item
  text : Bytes → Item

-- `operator<<`.
unfoldable pub write : Item → Stream → Option Stream
unfolding append format_integer format_address
write (flag true) s = append (bytes "1") s
write (flag false) s = append (bytes "0") s
write (integer negative value) s = format_integer negative value s
write (address value) s = format_address value s
write (character c) s = append (c ∷ []) s
write null_text s = append (bytes "(null)") s
write (text t) s = append t s
