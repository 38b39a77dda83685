-- ===== src/Dama/Sac/Codec.antt =====
-- What the two-byte coding of a request keeps of its value.
use opensand.Prelude.{ℕ, ◌+◌, ◌≤◌, ◌≡◌, refl, arith}
use opensand.Access.{ReturnAccess, dama_vbdc, dama_rbdc}
use opensand.Dama.Sac.{CrInfo, scale_and_value, decoded_value, emu_cr, cr_info}

-- What the receiver reads of a request that the sender codes.
unfoldable pub received : ℕ → ReturnAccess → ℕ → CrInfo
unfolding emu_cr scale_and_value cr_info decoded_value
received prio access value = cr_info (emu_cr prio access (scale_and_value access value))

-- `a` and `b` differ by at most `d`.
abbrev pub Within : ℕ → ℕ → ℕ → Type 0
Within d a b = (a ≤ b + d) × (b ≤ a + d)

-- A volume request up to the agent's limit of 4080 kbits arrives exactly up to 255, and within half a
-- step of 16 above; the coded value is a byte.
pub received-vbdc :
    (prio v : ℕ)
    → v ≤ 4080
    → ((received prio dama_vbdc v).access ≡ dama_vbdc)
      × (v ≤ 255 → (received prio dama_vbdc v).value ≡ v)
      × Within 8 (received prio dama_vbdc v).value v
unfolding received
received-vbdc prio v h = (refl, ground arith, (ground arith, ground arith))

-- A rate request up to the agent's limit of 16320 kbits/s arrives within 1 up to 510, within 16 up to
-- 8160, and within 32 above.
pub received-rbdc :
    (prio v : ℕ)
    → v ≤ 16320
    → ((received prio dama_rbdc v).access ≡ dama_rbdc)
      × (v ≤ 510 → Within 1 (received prio dama_rbdc v).value v)
      × (v ≤ 8160 → Within 16 (received prio dama_rbdc v).value v)
      × Within 32 (received prio dama_rbdc v).value v
unfolding received
received-rbdc prio v h = (
  refl,
  λ k. (ground arith, ground arith),
  λ k. (ground arith, ground arith),
  (ground arith, ground arith),
)

-- Beyond the limit the coded byte wraps: a volume from 4088 to 4095 kbits arrives as none.
received-vbdc_wraps : (prio v : ℕ) → 4088 ≤ v → v ≤ 4095 → (received prio dama_vbdc v).value ≡ 0
unfolding received
received-vbdc_wraps prio v h k = ground arith
