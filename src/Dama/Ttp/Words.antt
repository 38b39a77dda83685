-- ===== src/Dama/Ttp/Words.antt =====
-- Words and their bytes: a word that is swapped twice, or taken apart and put together, is itself.
use opensand.Prelude.{ℕ, ◌<◌, ◌≡◌, arith}
use opensand.Dama.Ttp.{byte0, byte1, byte2, byte3, word16, word32, htons, htonl}

pub word16_bytes : (x : ℕ) → x < 65536 → word16 (byte0 x) (byte1 x) ≡ x
word16_bytes x h = omega arith

pub word32_bytes : (x : ℕ) → x < 4294967296 → word32 (byte0 x) (byte1 x) (byte2 x) (byte3 x) ≡ x
word32_bytes x h = omega arith

pub htons_bound : (x : ℕ) → htons x < 65536
unfolding htons
htons_bound x = omega arith

pub htonl_bound : (x : ℕ) → htonl x < 4294967296
unfolding htonl
htonl_bound x = omega arith

pub htons_swapped : (x : ℕ) → x < 65536 → htons (htons x) ≡ x
unfolding htons
htons_swapped x h = omega arith

module _ (a b c d : ℕ) (la : a < 256) (lb : b < 256) (lc : c < 256) (ld : d < 256) where
  byte0-word32 : byte0 (word32 a b c d) ≡ a
  byte0-word32 = omega arith

  byte1-word32 : byte1 (word32 a b c d) ≡ b
  byte1-word32 = omega arith

  byte2-word32 : byte2 (word32 a b c d) ≡ c
  byte2-word32 = omega arith

  byte3-word32 : byte3 (word32 a b c d) ≡ d
  byte3-word32 = omega arith

pub htonl_swapped : (x : ℕ) → x < 4294967296 → htonl (htonl x) ≡ x
unfolding htonl
htonl_swapped x h =
    let a = byte3 x in
    let b = byte2 x in
    let c = byte1 x in
    let d = byte0 x in
    let la : a < 256 = omega arith in
    let lb : b < 256 = omega arith in
    let lc : c < 256 = omega arith in
    let ld : d < 256 = omega arith in
    rw
      (
        byte0-word32 a b c d la lb lc ld,
        byte1-word32 a b c d la lb lc ld,
        byte2-word32 a b c d la lb lc ld,
        byte3-word32 a b c d la lb lc ld,
      )
      (word32_bytes x h)
