-- ===== src/Dama/Sac.antt =====
-- opensand-core/src/dvb/utils/Sac.cpp and Sac.h: the capacity requests of a terminal and the coding
-- of a request in two bytes. The C/N field is kept as the word that travels; its conversion from a
-- floating-point number is left out.
pub mod Codec
pub mod Message
mod Tests
use opensand.Prelude.{
  ℕ, zero, suc, ◌+◌, ◌*◌, ◌/◌, ◌%◌, Bool, true, false, Option, none, some, List, [], ◌∷◌, ◌++◌, ltb,
  leb, ◌==◌, get_elem?, if◌then◌else◌, u8, u16, u32,
}
use opensand.Access.{ReturnAccess, dama_vbdc, dama_rbdc}

-- `emu_cr_t`. `prio` and `scale` are fields of two bits, `value` of eight.
pub record EmuCr : Type 0 where
  pub access : ReturnAccess
  pub prio : ℕ
  pub scale : ℕ
  pub value : ℕ

-- `cr_info_t`
pub record CrInfo : Type 0 where
  pub prio : ℕ
  pub access : ReturnAccess
  pub value : ℕ

-- `getEncodedRequestValue`. Its argument is a 16-bit word, its quotient and remainder are bytes.
unfoldable pub encoded_value : ℕ → ℕ → ℕ
encoded_value value step =
    let div_quot = u8 (u16 value / step) in
    let div_rem = u8 (u16 value % step) in
    if ltb div_rem (step / 2) then div_quot else u8 (div_quot + 1)

-- `getScaleAndValue`
unfoldable pub scale_and_value : ReturnAccess → ℕ → ℕ × ℕ
unfolding encoded_value
scale_and_value dama_vbdc value =
    if leb value 255 then (0, u8 value) else (1, encoded_value value 16)
scale_and_value dama_rbdc value =
    if leb value 510
    then (0, encoded_value value 2)
    else if leb value (510 * 16)
    then (1, encoded_value value (2 * 16))
    else (2, encoded_value value (2 * 32))
scale_and_value _ value = (0, 0)

-- `getDecodedCrValue`
unfoldable pub decoded_value : EmuCr → ℕ
decoded_value cr = by_access cr.access cr.scale cr.value
  where
    by_access : ReturnAccess → ℕ → ℕ → ℕ
    by_access dama_vbdc scale value = if scale == 0 then value else u16 (value * 16)
    by_access dama_rbdc scale value =
        if scale == 0
        then u16 (value * 2)
        else if scale == 1
        then u16 (value * 2 * 16)
        else u16 (value * 2 * 32)
    by_access _ scale value = 0

-- The message: `cr` is what follows the header, and the length counts it with the header.
pub record Sac : Type 0 where
  pub tal_id : ℕ
  pub group_id : ℕ
  pub cni : ℕ
  pub cr_number : ℕ
  pub cr : List EmuCr
  pub message_length : ℕ
  pub request_nbr : ℕ

abbrev pub nbr_max_cr : ℕ
nbr_max_cr = 2

-- `sizeof(T_DVB_SAC)` and `sizeof(emu_cr_t)`
abbrev pub sac_size : ℕ
sac_size = 12

abbrev pub cr_size : ℕ
cr_size = 2

-- The constructor. `lowest` is the word of the C/N -100.
unfoldable pub new_sac : ℕ → ℕ → ℕ → Sac
new_sac lowest tal_id group_id = record {
  tal_id = tal_id;
  group_id = group_id;
  cni = lowest;
  cr_number = 0;
  cr = [];
  message_length = sac_size;
  request_nbr = 0;
}

unfoldable pub emu_cr : ℕ → ReturnAccess → ℕ × ℕ → EmuCr
emu_cr prio access (scale, value) = record {
  access = access;
  prio = prio % 4;
  scale = scale % 4;
  value = value;
}

unfoldable pub add_request : ℕ → ReturnAccess → ℕ → Sac → Bool × Sac
unfolding emu_cr scale_and_value
add_request prio access value s = if leb nbr_max_cr (s.request_nbr + 1) then (false, s) else (
  true,
  record s {
    request_nbr = u8 (s.request_nbr + 1);
    cr = s.cr ++ emu_cr prio access (scale_and_value access value) ∷ [];
    cr_number = u8 (s.cr_number + 1);
    message_length = u16 (s.message_length + cr_size);
  },
)

unfoldable pub cr_info : EmuCr → CrInfo
unfolding decoded_value
cr_info c = record { prio = c.prio; access = c.access; value = decoded_value c }

-- The loop of `getRequests` from index `i`, with the rounds left. `none` is a read past the message.
unfoldable pub read_requests : ℕ → ℕ → List EmuCr → Option (List CrInfo)
unfolding cr_info
read_requests zero i cr = some []
read_requests (suc n) i cr =
    let more = read_requests n (i + 1) cr in
    elim (get_elem? cr i) [
      | none ↦ none
      | some c ↦ elim more [ none ↦ none | some infos ↦ some (cr_info c ∷ infos) ]
    ]

unfoldable pub get_requests : Sac → Option (List CrInfo)
unfolding read_requests
get_requests s = read_requests s.cr_number 0 s.cr

pub set_acm : ℕ → Sac → Sac
set_acm cni s = record s { cni = u32 cni }
