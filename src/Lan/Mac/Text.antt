-- ===== src/Lan/Mac/Text.antt =====
-- Printing an address and reading it back.
use opensand.Prelude.{
  ℕ, ◌/◌, ◌%◌, ◌<◌, ◌≡◌, refl, ap, ap₂, ◌∙◌, false, some, List, [], ◌∷◌, ◌++◌, ◌==◌, length, arith,
  u8,
}
use opensand.Lan.Mac.{
  MacAddress, exact_byte, digit, hex, colon, str, extend, tokens, hex_value, digits, skip_spaces,
  skip_prefix, unsigned, signed, strtoul, is_stars, byte_of, fill, of_string,
}

-- Every byte is below 256.
abbrev pub Bytes : MacAddress → Type 0
Bytes [] = Unit {0}
Bytes (b ∷ bs) = (b.value < 256) × Bytes bs

-- The address without its generic bytes.
unfoldable pub plain : MacAddress → MacAddress
plain [] = []
plain (b ∷ bs) = exact_byte b.value ∷ plain bs

hex_value-digit : (n : ℕ) → n < 16 → hex_value (digit n) ≡ some n
unfolding hex_value digit
hex_value-digit n h = ground arith

strtoul-hex : (b : ℕ) → b < 256 → strtoul (hex b) ≡ b
unfolding strtoul skip_spaces signed unsigned skip_prefix digits hex digit hex_value
strtoul-hex b h = ground arith

is_stars-hex : (b : ℕ) → b < 256 → is_stars (hex b) ≡ false
unfolding is_stars hex digit
is_stars-hex b h = ground arith

digit-colon : (n : ℕ) → n < 16 → (digit n == colon) ≡ false
unfolding digit
digit-colon n h = ground arith

tokens-last : (b : ℕ) → b < 256 → tokens (hex b) ≡ hex b ∷ []
unfolding tokens hex extend
tokens-last b h = rw (digit-colon (b / 16) (omega arith), digit-colon (b % 16) (omega arith)) refl

tokens-more : (b : ℕ) (cs : List ℕ) → b < 256 → tokens (hex b ++ colon ∷ cs) ≡ hex b ∷ tokens cs
unfolding tokens hex extend
tokens-more b cs h =
    rw (digit-colon (b / 16) (omega arith), digit-colon (b % 16) (omega arith)) refl

byte_of-hex : (b : ℕ) → b < 256 → byte_of (hex b) ≡ exact_byte b
unfolding byte_of
byte_of-hex b h =
    ap₂ (λ v g. record { value = u8 v; generic = g }) (strtoul-hex b h) (is_stars-hex b h)
    ∙ ap exact_byte small
  where
    small : u8 b ≡ b
    small = omega arith

fill-str :
    (bs memory : MacAddress)
    → Bytes bs
    → length memory ≡ length bs
    → fill (tokens (str bs)) memory ≡ plain bs
unfolding fill str plain
fill-str [] [] v h = unfold tokens in refl
fill-str [] (m ∷ ms) v h = absurd (omega arith)
fill-str (b ∷ bs) [] v h = absurd (omega arith)
fill-str (b ∷ []) (m ∷ ms) v h =
    rw (tokens-last b.value v.0, byte_of-hex b.value v.0)
      (ap (◌∷◌ (exact_byte b.value)) (none_left ms (omega arith)))
  where
    none_left : (ms : MacAddress) → length ms ≡ 0 → ms ≡ []
    none_left [] h = refl
    none_left (m ∷ ms) h = absurd (omega arith)
fill-str (b ∷ b' ∷ bs) (m ∷ ms) v h =
    rw (tokens-more b.value (str (b' ∷ bs)) v.0, byte_of-hex b.value v.0)
      (ap (◌∷◌ (exact_byte b.value)) (fill-str (b' ∷ bs) ms v.1 (omega arith)))

-- An address that is printed and read back has its bytes, and none of them is generic any more,
-- whatever the memory held.
pub of_string-str :
    (mac memory : MacAddress)
    → Bytes mac
    → length memory ≡ length mac
    → of_string memory (str mac) ≡ plain mac
unfolding of_string
of_string-str mac memory v h = fill-str mac memory v h
