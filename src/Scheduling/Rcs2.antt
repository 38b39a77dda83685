-- ===== src/Scheduling/Rcs2.antt =====
-- opensand-core/src/dvb/dama/ReturnSchedulingRcs2.cpp: a terminal fills DVB-RCS2 frames from its FIFOs
-- within its allocation, by a state machine.
--
-- The plug-in that encapsulates packets is a parameter, since the plug-ins of the repository leave the
-- cutting of packets to the GSE and RLE libraries, which are not part of it. A queued element always
-- holds a packet, and memory for a frame is always found. Logs, and the counters that only they read, are left out.
pub mod Delivery
pub mod Ends
pub mod Limits
pub mod Order
mod Tests
use opensand.Prelude.{
  ℕ, zero, suc, ◌+◌, ◌-◌, ◌*◌, ◌/◌, Bool, true, false, Option, none, some, List, [], ◌∷◌, ◌++◌, ltb,
  leb, ◌==◌, if◌then◌else◌, add32, sub32, u32,
}
use opensand.Access.{return, saloha, access_eq}
use opensand.Fifo.Element.{Element}
use opensand.Fifo.Dvb.{DvbFifo, current_size, pop, push_front}
use opensand.Scheduling.Frame.{
  Packet, get_elem, set_elem, header_length, msg_dvb_rcs_size_max, DvbRcsFrame, new_frame,
  free_space, add_packet,
}

-- `EncapPacketHandler::encapNextPacket`, for a packet, the free space and whether the frame is new: the
-- encapsulated data and what remains of the packet, each of which may be missing, or `none` where it
-- fails.
pub record Handler : Type 1 where
  pub Context : Type 0
  pub encap_next_packet :
      Packet → ℕ → Bool → Context → Option (Option Packet × Option Packet) × Context

-- The states of the machine, with the FIFO, and the element or the data, that the next one reads.
-- `ended_at_limit` has no incomplete frame.
pub data Phase : Type 0 where
  next_fifo next_encap_pkt finalize_frame ended_at_limit failed : DvbFifo → Phase
  get_chunk : DvbFifo → Element → Phase
  add_data : DvbFifo → Packet → Phase
  get_fifo ended : Phase

-- `allocateDvbRcsFrame`
unfoldable pub allocate_frame : ℕ → Option DvbRcsFrame
allocate_frame max_burst_length_b =
    let length_bytes = max_burst_length_b / 8 in
    let size = u32 (length_bytes + header_length) in
    if length_bytes == 0
    then none
    else some (new_frame (if ltb msg_dvb_rcs_size_max size then msg_dvb_rcs_size_max else size))

-- `(vol_b_t)std::max((int)(remaining - length), 0)`
unfoldable pub left_of : ℕ → ℕ → ℕ
left_of remaining len =
    let difference = sub32 remaining len in if ltb difference 2147483648 then difference else 0

-- The data, if any, goes on to the frame.
unfoldable pub with_data : Option Packet → DvbFifo → Phase
with_data none f = finalize_frame f
with_data (some p) f = add_data f p

-- What remains of the packet goes back to the FIFO.
unfoldable pub put_remaining : Option Packet → Element → DvbFifo → DvbFifo
unfolding push_front
put_remaining none e f = f
put_remaining (some p) e f = (push_front (set_elem p e) f).1

-- `state_end` and `state_error`
abbrev pub is_last : Phase → Bool
is_last ended = true
is_last (ended_at_limit f) = true
is_last (failed f) = true
is_last _ = false

module _ (H : Handler) where
  open H use {Context, encap_next_packet}

  -- The variables of `macSchedule`: the FIFOs that the iterator has passed and those at and after it,
  -- the incomplete frame, and the frames that are complete.
  pub record Sched : Type 0 where
    pub before : List DvbFifo
    pub fifos : List DvbFifo
    pub frame : DvbRcsFrame
    pub frame_length_b : ℕ
    pub complete_dvb_frames : List DvbRcsFrame
    pub remaining_allocation_b : ℕ
    pub context : Context

  unfoldable pub in_get_fifo : List DvbFifo → Sched → Phase × Sched
  in_get_fifo [] s = (ended, s)
  in_get_fifo (f ∷ fs) s = (
    (if access_eq f.access_type (return saloha) then next_fifo f else next_encap_pkt f),
    record s { fifos = fs },
  )

  -- `pop` finds an element, since the size is not 0.
  unfoldable pub popped_to : Option Element × DvbFifo → Sched → Phase × Sched
  popped_to (none, f) s = (next_fifo f, s)
  popped_to (some e, f) s = (get_chunk f e, s)

  unfoldable pub in_next_encap_pkt : DvbFifo → Sched → Phase × Sched
  unfolding current_size pop popped_to
  in_next_encap_pkt f s = if current_size f == 0 then (next_fifo f, s) else popped_to (pop f) s

  unfoldable pub encapsulated_to :
      DvbFifo → Element → Option (Option Packet × Option Packet) × Context → Sched → Phase × Sched
  unfolding with_data put_remaining
  encapsulated_to f e (none, context) s = (next_encap_pkt f, record s { context = context })
  encapsulated_to f e (some (packed, remaining), context) s =
      (with_data packed (put_remaining remaining e f), record s { context = context })

  unfoldable pub in_get_chunk : DvbFifo → Element → Sched → Phase × Sched
  unfolding encapsulated_to
  in_get_chunk f e s =
      encapsulated_to f e
        (encap_next_packet (get_elem e) (free_space s.frame) (s.frame.num_packets == 0) s.context) s

  -- After the data is added.
  unfoldable pub full : Sched → Bool
  full s = if free_space s.frame == 0 then true else leb s.remaining_allocation_b s.frame_length_b

  unfoldable pub added_to : DvbFifo → ℕ → Bool × DvbRcsFrame → Sched → Phase × Sched
  unfolding full
  added_to f len (false, frame) s = (failed f, s)
  added_to f len (true, frame) s =
      let s' = record s {
        frame = frame;
        frame_length_b = add32 s.frame_length_b (u32 (len * 8));
      } in
      ((if full s' then finalize_frame f else next_encap_pkt f), s')

  unfoldable pub in_add_data : DvbFifo → Packet → Sched → Phase × Sched
  unfolding add_packet added_to
  in_add_data f p s = added_to f p.total_length (add_packet p s.frame) s

  -- The frame is complete.
  unfoldable pub store_frame : Sched → Sched
  unfolding left_of
  store_frame s = record s {
    complete_dvb_frames = s.complete_dvb_frames ++ s.frame ∷ [];
    remaining_allocation_b = left_of s.remaining_allocation_b s.frame_length_b;
  }

  module _ (max_burst_length_b : ℕ) where
    unfoldable pub in_finalize_frame : DvbFifo → Sched → Phase × Sched
    unfolding store_frame allocate_frame
    in_finalize_frame f s =
        if s.frame.num_packets == 0
        then (failed f, record s { frame_length_b = 0 })
        else let s' = store_frame s in
          if s'.remaining_allocation_b == 0
          then (ended_at_limit f, s')
          else elim (allocate_frame max_burst_length_b) [
            | none ↦ (failed f, s')
            | some frame ↦ (next_encap_pkt f, record s' { frame = frame; frame_length_b = 0 })
          ]

    -- One round of the `while` loop.
    unfoldable pub step : Phase → Sched → Phase × Sched
    unfolding in_get_fifo in_next_encap_pkt in_get_chunk in_add_data in_finalize_frame
    step (next_fifo f) s = (get_fifo, record s { before = s.before ++ f ∷ [] })
    step get_fifo s = in_get_fifo s.fifos s
    step (next_encap_pkt f) s = in_next_encap_pkt f s
    step (get_chunk f e) s = in_get_chunk f e s
    step (add_data f p) s = in_add_data f p s
    step (finalize_frame f) s = in_finalize_frame f s
    step (ended_at_limit f) s = (ended_at_limit f, s)
    step (failed f) s = (failed f, s)
    step ended s = (ended, s)

    -- The loop, with fuel. `none` means that it ran out.
    unfoldable pub run : ℕ → Phase → Sched → Option (Phase × Sched)
    unfolding step
    run zero phase s = none
    run (suc fuel) phase s = elim (is_last phase) [
      | true ↦ some (phase, s)
      | false ↦ let (phase', s') = step phase s in run fuel phase' s'
    ]

    -- After the loop: an incomplete frame that is not empty is complete too.
    unfoldable pub finish : Phase → Sched → Bool × Sched
    unfolding store_frame
    finish ended s = if s.frame.num_packets == 0 then (true, s) else (true, store_frame s)
    finish (ended_at_limit f) s = (true, record s { fifos = f ∷ s.fifos })
    finish (failed f) s = (false, record s { fifos = f ∷ s.fifos })
    finish _ s = (false, s)

    -- `macSchedule`. The loop starts at the first FIFO.
    unfoldable pub mac_schedule :
        ℕ → List DvbFifo → List DvbRcsFrame → ℕ → Context → Option (Bool × Option Sched)
    unfolding allocate_frame run finish
    mac_schedule fuel dvb_fifos complete remaining context =
        elim (allocate_frame max_burst_length_b) [
          | none ↦ some (false, none)
          | some frame ↦
              elim (run fuel get_fifo record {
                before = [];
                fifos = dvb_fifos;
                frame = frame;
                frame_length_b = 0;
                complete_dvb_frames = complete;
                remaining_allocation_b = remaining;
                context = context;
              }) [
                | none ↦ none
                | some (phase, s) ↦ let (ok, s') = finish phase s in some (ok, some s')
              ]
        ]

    -- `schedule`
    unfoldable pub schedule :
        ℕ → List DvbFifo → List DvbRcsFrame → ℕ → Context → Option (Bool × Option Sched)
    unfolding mac_schedule
    schedule fuel dvb_fifos complete remaining context =
        if max_burst_length_b == 0
        then some (true, none)
        else mac_schedule fuel dvb_fifos complete remaining context
