-- ===== src/Lan/Mac.antt =====
-- opensand-core/src/common/MacAddress.cpp. A string is the list of its character codes.
pub mod Text
use opensand.Prelude.{
  ℕ, ◌+◌, ◌-◌, ◌*◌, ◌/◌, ◌%◌, ◌^◌, Bool, true, false, Option, none, some, List, [], ◌∷◌, ◌++◌, ltb,
  leb, ◌==◌, ◌&&◌, ◌||◌, if◌then◌else◌, u8, u64_mod,
}

-- A byte, and whether it matches every value.
pub record Byte : Type 0 where
  pub value : ℕ
  pub generic : Bool

-- The arrays `mac` and `generic_bytes`: six bytes.
abbrev pub MacAddress : Type 0
MacAddress = List Byte

abbrev pub exact_byte : ℕ → Byte
exact_byte b = record { value = b; generic = false }

unfoldable pub of_bytes : ℕ → ℕ → ℕ → ℕ → ℕ → ℕ → MacAddress
of_bytes b0 b1 b2 b3 b4 b5 =
    exact_byte b0
    ∷ exact_byte b1
    ∷ exact_byte b2
    ∷ exact_byte b3
    ∷ exact_byte b4
    ∷ exact_byte b5
    ∷ []

-- A byte as two digits, in lower case.
unfoldable pub digit : ℕ → ℕ
digit n = if ltb n 10 then 48 + n else 87 + n

unfoldable pub hex : ℕ → List ℕ
hex b = digit (b / 16) ∷ digit (b % 16) ∷ []

abbrev pub colon : ℕ
colon = 58

unfoldable pub str : MacAddress → List ℕ
unfolding hex
str [] = []
str (b ∷ []) = hex b.value
str (b ∷ b' ∷ bs) = hex b.value ++ colon ∷ str (b' ∷ bs)

-- The tokens that `std::getline` reads up to each colon.
unfoldable pub extend : ℕ → List (List ℕ) → List (List ℕ)
extend c [] = (c ∷ []) ∷ []
extend c (t ∷ ts) = (c ∷ t) ∷ ts

unfoldable pub tokens : List ℕ → List (List ℕ)
unfolding extend
tokens [] = []
tokens (c ∷ cs) = if c == colon then [] ∷ tokens cs else extend c (tokens cs)

-- `strtoul` in base 16: white space, a sign, `0x`, and then digits.
unfoldable pub hex_value : ℕ → Option ℕ
hex_value c =
    if leb 48 c && leb c 57
    then some (c - 48)
    else if leb 97 c && leb c 102
    then some (c - 87)
    else if leb 65 c && leb c 70
    then some (c - 55)
    else none

unfoldable pub digits : ℕ → List ℕ → ℕ
unfolding hex_value
digits acc [] = acc
digits acc (c ∷ cs) = elim (hex_value c) [ none ↦ acc | some v ↦ digits (acc * 16 + v) cs ]

abbrev pub is_space : ℕ → Bool
is_space c = c == 32 || (leb 9 c && leb c 13)

unfoldable pub skip_spaces : List ℕ → List ℕ
skip_spaces [] = []
skip_spaces (c ∷ cs) = if is_space c then skip_spaces cs else c ∷ cs

unfoldable pub skip_prefix : List ℕ → List ℕ
unfolding hex_value
skip_prefix (c ∷ x ∷ d ∷ cs) =
    let hex_digit : Bool = elim (hex_value d) [ none ↦ false | some v ↦ true ] in
    if c == 48 && ((x == 120 || x == 88) && hex_digit) then d ∷ cs else c ∷ x ∷ d ∷ cs
skip_prefix cs = cs

-- Too large a number reads as the largest one; a negative one wraps.
abbrev pub saturate : Bool → ℕ → ℕ
saturate negative v =
    if leb u64_mod v then u64_mod - 1 else if negative then (u64_mod - v) % u64_mod else v

unfoldable pub unsigned : Bool → List ℕ → ℕ
unfolding digits skip_prefix
unsigned negative cs = saturate negative (digits 0 (skip_prefix cs))

unfoldable pub signed : List ℕ → ℕ
unfolding unsigned
signed [] = 0
signed (c ∷ cs) =
    if c == 45
    then unsigned true cs
    else if c == 43
    then unsigned false cs
    else unsigned false (c ∷ cs)

unfoldable pub strtoul : List ℕ → ℕ
unfolding skip_spaces signed
strtoul cs = signed (skip_spaces cs)

-- `token == "**"`.
unfoldable pub is_stars : List ℕ → Bool
is_stars (a ∷ b ∷ []) = a == 42 && b == 42
is_stars _ = false

unfoldable pub byte_of : List ℕ → Byte
unfolding strtoul is_stars
byte_of token = record { value = u8 (strtoul token); generic = is_stars token }

-- The bytes for which there is a token; the others keep what the memory held.
unfoldable pub fill : List (List ℕ) → MacAddress → MacAddress
unfolding byte_of
fill [] bs = bs
fill (t ∷ ts) [] = []
fill (t ∷ ts) (b ∷ bs) = byte_of t ∷ fill ts bs

-- The constructor from a string, in a memory.
unfoldable pub of_string : MacAddress → List ℕ → MacAddress
unfolding tokens fill
of_string memory s = fill (tokens s) memory

-- Whether an address fits this one, which may have generic bytes.
unfoldable pub matches : MacAddress → MacAddress → Bool
matches [] addr = true
matches (b ∷ bs) [] = true
matches (b ∷ bs) (a ∷ as') = if b.generic || b.value == a.value then matches bs as' else false
