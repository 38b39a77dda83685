-- ===== src/Scheduling/Rcs2/Limits.antt =====
-- What `macSchedule` keeps to: the size of a frame, and the allocation, which is passed by less than
-- what a frame holds.
pub mod Steps
use opensand.Prelude.{
  ℕ, zero, suc, ◌+◌, ◌-◌, ◌*◌, ◌/◌, ◌%◌, ◌≤◌, ◌<◌, ◌≡◌, ◌≢◌, refl, sym, ap, ◌∙◌, subst, Bool, true,
  false, Option, none, some, List, [], ◌∷◌, ◌++◌, append_assoc, append-nil, ltb, leb, length,
  length-append, ◌==◌, if◌then◌else◌, arith, Bool-cases, Option-cases, inl, inr, All, add16, u16,
  u32, u64_mod, add32, sub32, min,
}
use opensand.Fifo.Element.{Element}
use opensand.Fifo.Dvb.{DvbFifo, current_size, pop, pop_from}
use opensand.Access.{return, saloha, access_eq}
use opensand.Scheduling.Frame.{
  Packet, DvbRcsFrame, get_elem, free_space, add_packet, new_frame, header_length,
  msg_dvb_rcs_size_max,
}
use opensand.Scheduling.Rcs2.{
  Handler, Phase, next_fifo, next_encap_pkt, finalize_frame, ended_at_limit, failed, get_chunk,
  add_data, get_fifo, ended, allocate_frame, left_of, Sched, in_get_fifo, popped_to,
  in_next_encap_pkt, with_data, put_remaining, encapsulated_to, in_get_chunk, full, added_to,
  in_add_data, store_frame, in_finalize_frame, step, is_last, run, finish,
}

-- The plug-in never fails, the data fits the free space and is not empty, and a new frame with at least
-- `least` bytes always takes some.
pub record Filling (H : Handler) : Type 0 where
  pub least : ℕ
  pub succeeds :
      (p : Packet) (space : ℕ) (new_burst : Bool) (c c' : H.Context)
      → H.encap_next_packet p space new_burst c ≢ (none, c')
  pub fits :
      (p : Packet) (space : ℕ) (new_burst : Bool) (c : H.Context) (packed : Packet)
      (r : Option Packet) (c' : H.Context)
      → H.encap_next_packet p space new_burst c ≡ (some (some packed, r), c')
      → (1 ≤ packed.total_length) × (packed.total_length ≤ space)
  pub starts :
      (p : Packet) (space : ℕ) (c : H.Context) (r : Option Packet) (c' : H.Context)
      → least ≤ space
      → H.encap_next_packet p space true c ≢ (some (none, r), c')

abbrev pub bytes_of : List Packet → ℕ
bytes_of [] = 0
bytes_of (p ∷ ps) = p.total_length + bytes_of ps

-- The bytes that the frames carry.
abbrev pub carried : List DvbRcsFrame → ℕ
carried [] = 0
carried (f ∷ fs) = bytes_of f.packets + carried fs

pub bytes_of-snoc :
    (ps : List Packet) (p : Packet) → bytes_of (ps ++ p ∷ []) ≡ bytes_of ps + p.total_length
bytes_of-snoc [] p = omega arith
bytes_of-snoc (q ∷ ps) p = omega (arith, bytes_of-snoc ps p)

pub carried-snoc :
    (fs : List DvbRcsFrame) (f : DvbRcsFrame)
    → carried (fs ++ f ∷ []) ≡ carried fs + bytes_of f.packets
carried-snoc [] f = omega arith
carried-snoc (g ∷ fs) f = omega (arith, carried-snoc fs f)

pub All-snoc :
    (P : DvbRcsFrame → Type 0) (fs : List DvbRcsFrame) (f : DvbRcsFrame)
    → All P fs
    → P f
    → All P (fs ++ f ∷ [])
All-snoc P [] f h k = (k, tt)
All-snoc P (g ∷ fs) f h k = (h.0, All-snoc P fs f h.1 k)

bytes_of-nil : (ps : List Packet) → length ps ≡ 0 → bytes_of ps ≡ 0
bytes_of-nil [] h = refl
bytes_of-nil (p ∷ ps) h = absurd (omega arith)

-- The payload that a frame holds at most, in bytes.
abbrev pub room : ℕ → ℕ
room burst = min (burst / 8) 1198

-- A frame that stays within its size: its length and its count are those of its packets.
pub record Sized (burst : ℕ) (f : DvbRcsFrame) : Type 0 where
  pub most : f.max_size ≡ room burst + 6
  pub total : f.total_length ≡ bytes_of f.packets + 6
  pub within : bytes_of f.packets ≤ room burst
  pub number : f.num_packets ≡ length f.packets
  pub few : length f.packets ≤ bytes_of f.packets

pub allocate_frame-Sized :
    (burst : ℕ)
    → 8 ≤ burst
    → burst < 4294967296
    → (f : DvbRcsFrame) × (allocate_frame burst ≡ some f) × Sized burst f × (f.packets ≡ [])
unfolding allocate_frame
allocate_frame-Sized burst h k =
    elim (Bool-cases (ltb msg_dvb_rcs_size_max (u32 (burst / 8 + header_length)))) [
      | inl e ↦ (
        new_frame msg_dvb_rcs_size_max,
        ground arith,
        record {
          most = ground arith;
          total = omega arith;
          within = omega arith;
          number = refl;
          few = omega arith;
        },
        refl,
      )
      | inr e ↦ (
        new_frame (u32 (burst / 8 + header_length)),
        ground arith,
        record {
          most = ground arith;
          total = omega arith;
          within = omega arith;
          number = refl;
          few = omega arith;
        },
        refl,
      )
    ]

pub free_space-Sized :
    (burst : ℕ) (f : DvbRcsFrame) → Sized burst f → free_space f + bytes_of f.packets ≡ room burst
free_space-Sized burst f z =
    let most = z.most in let total = z.total in let within = z.within in ground arith

pub new_frame-free :
    (burst least : ℕ) (f : DvbRcsFrame)
    → least ≤ room burst
    → Sized burst f
    → f.num_packets ≡ 0
    → least ≤ free_space f
new_frame-free burst least f h z e =
    let number = z.number in
    let free = free_space-Sized burst f z in
    let empty = bytes_of-nil f.packets (omega (arith, number, e)) in omega (arith, free, empty)

pub left_of-sub : (a b : ℕ) → a < 2147483648 → b < 2147483648 → left_of a b ≡ a - b
unfolding left_of
left_of-sub a b h k = ground arith

pub add_packet-Sized :
    (burst : ℕ) (p : Packet) (f : DvbRcsFrame)
    → Sized burst f
    → 1 ≤ p.total_length
    → p.total_length ≤ free_space f
    → (f' : DvbRcsFrame) × (add_packet p f ≡ (true, f'))
      × Sized burst f'
      × (f'.packets ≡ f.packets ++ p ∷ [])
unfolding add_packet
add_packet-Sized burst p f z h k =
    let free = free_space-Sized burst f z in
    let most = z.most in
    let total = z.total in
    let within = z.within in
    let number = z.number in
    let few = z.few in
    let b = bytes_of-snoc f.packets p in
    let l = length-append f.packets (p ∷ []) in
    elim (Bool-cases (ltb (free_space f) p.total_length)) [
      | inl e ↦ absurd (ground arith)
      | inr e ↦ rw e (
        _,
        refl,
        record {
          most = most;
          total = omega (arith, b, total);
          within = omega (arith, b, free, k);
          number = omega (arith, l, number, few, within);
          few = omega (arith, b, l, few, h);
        },
        refl,
      )
    ]
