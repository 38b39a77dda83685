-- ===== src/Dama/Ttp.antt =====
-- opensand-core/src/dvb/utils/Ttp.cpp and Ttp.h: the message by which the controller tells each
-- terminal what it may send in a superframe. The part after the message's header is a list of bytes,
-- which `build` writes and `getTp` reads at the same offsets as the code; words stand in it in the
-- order of a little-endian host, except where the code swaps them. The maximum size that the
-- constructor reserves and logging are left out.
pub mod Words
pub mod Stream
pub mod Single
mod Tests
use opensand.Prelude.{
  ℕ, zero, suc, ◌+◌, ◌-◌, ◌*◌, ◌/◌, ◌%◌, Bool, true, false, Option, none, some, List, [], ◌∷◌, ◌++◌,
  ltb, ◌==◌, set, drop, if◌then◌else◌, u8, u16, u32,
}

-- `emu_tp_t`, each field as the host reads it from the memory.
pub record EmuTp : Type 0 where
  pub tal_id : ℕ
  pub offset : ℕ
  pub assignment_count : ℕ
  pub fmt_id : ℕ
  pub priority : ℕ

-- The byte of a word at each weight, and the words of bytes, the lowest weight first.
abbrev pub byte0 : ℕ → ℕ
byte0 x = x % 256

abbrev pub byte1 : ℕ → ℕ
byte1 x = x / 256 % 256

abbrev pub byte2 : ℕ → ℕ
byte2 x = x / 65536 % 256

abbrev pub byte3 : ℕ → ℕ
byte3 x = x / 16777216 % 256

abbrev pub word16 : ℕ → ℕ → ℕ
word16 a b = a + 256 * b

abbrev pub word32 : ℕ → ℕ → ℕ → ℕ → ℕ
word32 a b c d = a + 256 * b + 65536 * c + 16777216 * d

-- `htons` and `ntohs`, `htonl` and `ntohl`
unfoldable pub htons : ℕ → ℕ
htons x = word16 (byte1 x) (byte0 x)

unfoldable pub htonl : ℕ → ℕ
htonl x = word32 (byte3 x) (byte2 x) (byte1 x) (byte0 x)

-- `sizeof(T_DVB_HDR)`, `sizeof(ttp_info_t)`, `sizeof(emu_frame_t)` and `sizeof(emu_tp_t)`
abbrev pub hdr_size : ℕ
hdr_size = 3

abbrev pub ttp_info_size : ℕ
ttp_info_size = 5

abbrev pub frame_info_size : ℕ
frame_info_size = 3

abbrev pub tp_size : ℕ
tp_size = 10

-- The memory of an `emu_tp_t`.
unfoldable pub tp_bytes : EmuTp → List ℕ
tp_bytes tp =
    byte0 tp.tal_id
    ∷ byte1 tp.tal_id
    ∷ byte0 tp.offset
    ∷ byte1 tp.offset
    ∷ byte2 tp.offset
    ∷ byte3 tp.offset
    ∷ byte0 tp.assignment_count
    ∷ byte1 tp.assignment_count
    ∷ byte0 tp.fmt_id
    ∷ byte0 tp.priority
    ∷ []

-- The message with the plans that are not built yet: `frames` is the map of the plans of each frame,
-- in the order of the frames; `data` is what follows the header.
pub record Ttp : Type 0 where
  pub frames : List (ℕ × List EmuTp)
  pub data_after : List ℕ
  pub message_length : ℕ
  pub group_id : ℕ
  pub superframe_count : ℕ
  pub frame_loop_count : ℕ

-- The constructor. The message's memory is cleared.
unfoldable pub new_ttp : ℕ → ℕ → Ttp
unfolding htons
new_ttp group_id sf_id = record {
  frames = [];
  data_after = [];
  message_length = hdr_size + ttp_info_size;
  group_id = group_id;
  superframe_count = htons sf_id;
  frame_loop_count = 0;
}

-- `frames[frame_id].push_back(tp)`, with an entry created in its place where there is none.
unfoldable pub push_plan : ℕ → EmuTp → List (ℕ × List EmuTp) → List (ℕ × List EmuTp)
push_plan frame_id tp [] = (frame_id, tp ∷ []) ∷ []
push_plan frame_id tp ((id, tps) ∷ frames) =
    let later = push_plan frame_id tp frames in
    if frame_id == id
    then (id, tps ++ tp ∷ []) ∷ frames
    else if ltb frame_id id
    then (frame_id, tp ∷ []) ∷ (id, tps) ∷ frames
    else (id, tps) ∷ later

-- `addTimePlan`, for a frame, a terminal, an offset, a count, a format and a priority. The last two
-- are 8-bit words: the format id of the controller, an `unsigned int`, is cut at the call.
unfoldable pub add_time_plan : ℕ → ℕ → ℕ → ℕ → ℕ → ℕ → Ttp → Bool × Ttp
unfolding htons htonl push_plan
add_time_plan frame_id tal_id offset assignment_count fmt_id priority ttp =
    let tp : EmuTp = record {
      tal_id = htons tal_id;
      offset = htonl offset;
      assignment_count = htons assignment_count;
      fmt_id = u8 fmt_id;
      priority = u8 priority;
    } in
    (true, record ttp { frames = push_plan frame_id tp ttp.frames })

-- The plans of one frame, appended in order, with their total size.
unfoldable pub append_plans : List EmuTp → List ℕ
unfolding tp_bytes
append_plans [] = []
append_plans (tp ∷ tps) = tp_bytes tp ++ append_plans tps

abbrev pub put16 : ℕ → ℕ → List ℕ → List ℕ
put16 i x memory = set (set memory i (byte0 x)) (i + 1) (byte1 x)

abbrev pub count_plans : List EmuTp → ℕ
count_plans [] = 0
count_plans (tp ∷ tps) = suc (count_plans tps)

-- The loop of `build` over the frames, with `frame_count` and `ttp_length`. The count that a frame's
-- header is appended with is uninitialized: `garbage` is its value. The count is then written at
-- `frames[frame_count]`, that is after `frame_count` headers without their plans.
unfoldable pub build_frames : ℕ → List (ℕ × List EmuTp) → ℕ → ℕ → List ℕ → ℕ × ℕ × List ℕ
unfolding append_plans
build_frames garbage [] frame_count ttp_length memory = (frame_count, ttp_length, memory)
build_frames garbage ((id, tps) ∷ frames) frame_count ttp_length memory =
    build_frames garbage frames (frame_count + 1)
      (ttp_length + frame_info_size + tp_size * count_plans tps)
      (put16 (frame_info_size * frame_count + 1) (count_plans tps)
        (memory ++ (u8 id ∷ byte0 garbage ∷ byte1 garbage ∷ append_plans tps)))

unfoldable pub build : ℕ → Ttp → Bool × Ttp
unfolding build_frames
build garbage ttp =
    let (frame_count, ttp_length, memory) =
      build_frames garbage ttp.frames 0 (hdr_size + ttp_info_size) ttp.data_after in
    (
      true,
      record ttp {
        data_after = memory;
        frame_loop_count = u8 frame_count;
        message_length = u16 ttp_length;
      },
    )

unfoldable pub read_tp_here : List ℕ → Option EmuTp
read_tp_here (a ∷ b ∷ c ∷ d ∷ e ∷ f ∷ g ∷ h ∷ i ∷ j ∷ rest) = some record {
  tal_id = word16 a b;
  offset = word32 c d e f;
  assignment_count = word16 g h;
  fmt_id = i;
  priority = j;
}
read_tp_here _ = none

-- The `emu_tp_t` at an address. `none` is a read past the memory.
unfoldable pub read_tp : ℕ → List ℕ → Option EmuTp
unfolding read_tp_here
read_tp i memory = read_tp_here (drop i memory)

unfoldable pub write_here : List ℕ → List ℕ → List ℕ
write_here [] memory = memory
write_here (x ∷ xs) [] = []
write_here (x ∷ xs) (y ∷ ys) = x ∷ write_here xs ys

unfoldable pub write : ℕ → List ℕ → List ℕ → List ℕ
unfolding write_here
write zero xs memory = write_here xs memory
write (suc i) xs [] = []
write (suc i) xs (y ∷ ys) = y ∷ write i xs ys

unfoldable pub read_header_here : List ℕ → Option (ℕ × ℕ)
read_header_here (a ∷ b ∷ c ∷ rest) = some (a, word16 b c)
read_header_here _ = none

-- The number and the count of the `frame_info_t` at an address.
unfoldable pub read_header : ℕ → List ℕ → Option (ℕ × ℕ)
unfolding read_header_here
read_header i memory = read_header_here (drop i memory)

-- `tps[frame_number] = *tp`
unfoldable pub set_plan : ℕ → EmuTp → List (ℕ × EmuTp) → List (ℕ × EmuTp)
set_plan frame tp [] = (frame, tp) ∷ []
set_plan frame tp ((id, old) ∷ tps) =
    let later = set_plan frame tp tps in
    if frame == id
    then (id, tp) ∷ tps
    else if ltb frame id
    then (frame, tp) ∷ (id, old) ∷ tps
    else (id, old) ∷ later

-- The fields that `getTp` swaps in place.
unfoldable pub to_host : EmuTp → EmuTp
unfolding htons htonl
to_host tp = record tp { offset = htonl tp.offset; assignment_count = htons tp.assignment_count }

-- The inner loop, with the plans left, at the address of the next one.
unfoldable pub read_plans :
    ℕ → ℕ → ℕ → ℕ → List ℕ → List (ℕ × EmuTp) → Option (List ℕ × List (ℕ × EmuTp))
unfolding htons read_tp write tp_bytes set_plan to_host
read_plans zero tal_id frame i memory tps = some (memory, tps)
read_plans (suc n) tal_id frame i memory tps = elim (read_tp i memory) [
  | none ↦ none
  | some tp ↦
      let mine = htons tp.tal_id == tal_id in
      read_plans n tal_id frame (i + tp_size)
        (if mine then write i (tp_bytes (to_host tp)) memory else memory)
        (if mine then set_plan frame (to_host tp) tps else tps)
]

-- The outer loop, with the frames left, at the address `frame_start`.
unfoldable pub read_frames :
    ℕ → ℕ → ℕ → ℕ → List ℕ → List (ℕ × EmuTp) → Option (Bool × List (ℕ × EmuTp))
unfolding read_header read_plans
read_frames zero tal_id frame_start len memory tps = some (true, tps)
read_frames (suc n) tal_id frame_start len memory tps = elim (read_header frame_start memory) [
  | none ↦ none
  | some (frame, count) ↦
      if ltb len (frame_info_size + count * tp_size)
      then some (false, tps)
      else elim (read_plans count tal_id frame (frame_start + frame_info_size) memory tps) [
        | none ↦ none
        | some (memory', tps') ↦
            read_frames n tal_id (frame_start + count * tp_size)
              (len - frame_info_size - count * tp_size) memory' tps'
      ]
]

-- `getTp`, on an empty map. `none` is a read past the memory.
unfoldable pub get_tp : ℕ → Ttp → Option (Bool × List (ℕ × EmuTp))
unfolding read_frames
get_tp tal_id ttp =
    if ltb ttp.message_length (hdr_size + ttp_info_size)
    then some (false, [])
    else read_frames ttp.frame_loop_count tal_id 0 (ttp.message_length - hdr_size - ttp_info_size)
        ttp.data_after []
