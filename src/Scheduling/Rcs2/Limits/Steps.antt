-- ===== src/Scheduling/Rcs2/Limits/Steps.antt =====
-- Each round of the loop keeps the sizes of the frames and the account of the allocation.
use opensand.Prelude.{
  ℕ, ◌+◌, ◌-◌, ◌*◌, ◌≤◌, ◌<◌, ◌≡◌, refl, ap, ◌∙◌, subst, false, Option, none, some, List, [], ◌∷◌,
  ◌++◌, append_assoc, length, length-append, ◌==◌, arith, Bool-cases, inl, inr, All, add32, u32,
}
use opensand.Fifo.Element.{Element}
use opensand.Fifo.Dvb.{DvbFifo, current_size, pop, pop_from}
use opensand.Access.{return, saloha, access_eq}
use opensand.Scheduling.Frame.{Packet, DvbRcsFrame, get_elem, free_space}
use opensand.Scheduling.Rcs2.{
  Handler, Phase, next_fifo, next_encap_pkt, finalize_frame, ended_at_limit, failed, get_chunk,
  add_data, get_fifo, ended, Sched, in_get_fifo, popped_to, in_next_encap_pkt, with_data,
  encapsulated_to, in_get_chunk, full, added_to, in_add_data, store_frame, in_finalize_frame, step,
}
use opensand.Scheduling.Rcs2.Limits.{
  Filling, bytes_of, carried, bytes_of-snoc, carried-snoc, All-snoc, room, Sized,
  allocate_frame-Sized, new_frame-free, left_of-sub, add_packet-Sized,
}

module _ (H : Handler) (burst allocation : ℕ) (before : List DvbRcsFrame) where
  -- The frames that are complete are those from before and the new ones, and what they carry is taken
  -- off the allocation.
  pub record Core (s : Sched H) (new : List DvbRcsFrame) : Type 0 where
    pub complete : s.complete_dvb_frames ≡ before ++ new
    pub sized : All (Sized burst) new
    pub now : Sized burst s.frame
    pub len : s.frame_length_b ≡ 8 * bytes_of s.frame.packets
    pub left : s.remaining_allocation_b ≡ allocation - 8 * carried new

  -- What holds in a state besides. The error state is not reached.
  abbrev pub At : Phase → Sched H → List DvbRcsFrame → Type 0
  At (add_data f p) s new =
      (1 ≤ p.total_length) × (p.total_length ≤ free_space s.frame) × (8 * carried new ≤ allocation)
  At (finalize_frame f) s new = (1 ≤ length s.frame.packets) × (8 * carried new ≤ allocation)
  At (ended_at_limit f) s new =
      (8 * carried new ≤ allocation + 8 * room burst) × (allocation ≤ 8 * carried new)
  At (failed f) s new = ⊥
  At _ s new = 8 * carried new ≤ allocation

  abbrev pub Kept : Phase × Sched H → Type 0
  Kept (phase, s) = (new : List DvbRcsFrame) × Core s new × At phase s new

  -- The FIFOs and the context of the plug-in play no part.
  moved :
      (passed fs : List DvbFifo) (c : H.Context) (s : Sched H) (new : List DvbRcsFrame)
      → Core s new
      → Core (record s { before = passed; fifos = fs; context = c }) new
  moved passed fs c s new k = record {
    complete = k.complete;
    sized = k.sized;
    now = k.now;
    len = k.len;
    left = k.left;
  }

  in_get_fifo-Kept :
      (fs : List DvbFifo) (s : Sched H) → Kept (get_fifo, s) → Kept (in_get_fifo H fs s)
  unfolding in_get_fifo
  in_get_fifo-Kept [] s k = k
  in_get_fifo-Kept (f ∷ fs) s (new, core, at) =
      let core' = moved s.before fs s.context s new core in
      elim (Bool-cases (access_eq f.access_type (return saloha))) [
        | inl a ↦ rw a (new, core', at)
        | inr a ↦ rw a (new, core', at)
      ]

  popped_to-Kept :
      (es : List Element) (f : DvbFifo) (s : Sched H)
      → Kept (next_encap_pkt f, s)
      → Kept (popped_to H (pop_from es f) s)
  unfolding popped_to pop_from
  popped_to-Kept [] f s k = k
  popped_to-Kept (e ∷ es) f s k = k

  in_next_encap_pkt-Kept :
      (f : DvbFifo) (s : Sched H) → Kept (next_encap_pkt f, s) → Kept (in_next_encap_pkt H f s)
  unfolding in_next_encap_pkt pop
  in_next_encap_pkt-Kept f s k = elim (Bool-cases (current_size f == 0)) [
    | inl e ↦ rw e k
    | inr e ↦ rw e (popped_to-Kept f.queue f s k)
  ]

  encapsulated_to-Kept :
      (F : Filling H) (roomy : F.least ≤ room burst) (f : DvbFifo) (e : Element) (s : Sched H)
      (result : Option (Option Packet × Option Packet)) (c' : H.Context)
      → H.encap_next_packet (get_elem e) (free_space s.frame) (s.frame.num_packets == 0) s.context
        ≡ (result, c')
      → Kept (get_chunk f e, s)
      → Kept (encapsulated_to H f e (result, c') s)
  unfolding encapsulated_to with_data
  encapsulated_to-Kept F roomy f e s none c' h k = absurd (F.succeeds _ _ _ _ c' h)
  encapsulated_to-Kept F roomy f e s (some (none, r)) c' h (new, core, at) =
      let core' = moved s.before s.fifos c' s new core in
      let number = core.now.number in
      elim (Bool-cases (s.frame.num_packets == 0)) [
        | inl z ↦ absurd (
            F.starts (get_elem e) (free_space s.frame) s.context r c'
              (new_frame-free burst F.least s.frame roomy core.now (ground arith))
              (subst
                (λ b.
                  H.encap_next_packet (get_elem e) (free_space s.frame) b s.context
                  ≡ (some (none, r), c'))
                z h))
        | inr z ↦ (new, core', (ground arith, at))
      ]
  encapsulated_to-Kept F roomy f e s (some (some p, r)) c' h (new, core, at) =
      let core' = moved s.before s.fifos c' s new core in
      let (long, fits) = F.fits _ _ _ _ p r c' h in (new, core', (long, fits, at))

  added_to-Kept :
      (f : DvbFifo) (p : Packet) (s : Sched H)
      → burst < 4294967296
      → Kept (add_data f p, s)
      → Kept (in_add_data H f p s)
  unfolding in_add_data added_to
  added_to-Kept f p s small (new, core, (long, fits, at)) =
      let (frame, added, sized, packets) = add_packet-Sized burst p s.frame core.now long fits in
      let b = ap bytes_of packets ∙ bytes_of-snoc s.frame.packets p in
      let l = ap length packets ∙ length-append s.frame.packets (p ∷ []) in
      let len = core.len in
      let within = sized.within in
      let s' : Sched H = record s {
        frame = frame;
        frame_length_b = add32 s.frame_length_b (u32 (p.total_length * 8));
      } in
      let core' : Core s' new = record {
        complete = core.complete;
        sized = core.sized;
        now = sized;
        len = omega (arith, b, len, within);
        left = core.left;
      } in
      rw added (elim (Bool-cases (full H s')) [
        | inl e ↦ rw e (new, core', (omega (arith, l), at))
        | inr e ↦ rw e (new, core', at)
      ])

  pub store_frame-Core :
      (s : Sched H) (new : List DvbRcsFrame)
      → allocation < 2147483648
      → Core s new
      → Core (store_frame H s) (new ++ s.frame ∷ [])
        × (carried (new ++ s.frame ∷ []) ≡ carried new + bytes_of s.frame.packets)
  unfolding store_frame
  store_frame-Core s new small core =
      let more = carried-snoc new s.frame in
      let len = core.len in
      let left = core.left in
      let within = core.now.within in
      let sub =
        left_of-sub s.remaining_allocation_b s.frame_length_b (omega (arith, left))
          (omega (arith, len, within)) in
      (
        record {
          complete =
              ap (λ fs. fs ++ s.frame ∷ []) core.complete ∙ append_assoc before new (s.frame ∷ []);
          sized = All-snoc (Sized burst) new s.frame core.sized core.now;
          now = core.now;
          len = core.len;
          left = omega (arith, sub, more, len, left);
        },
        more,
      )

  in_finalize_frame-Kept :
      (f : DvbFifo) (s : Sched H)
      → 8 ≤ burst
      → burst < 4294967296
      → allocation < 2147483648
      → Kept (finalize_frame f, s)
      → Kept (in_finalize_frame H burst f s)
  unfolding in_finalize_frame
  in_finalize_frame-Kept f s large small few (new, core, (filled, at)) =
      let (core', more) = store_frame-Core s new few core in
      let (frame, made, sized, empty) = allocate_frame-Sized burst large small in
      let number = core.now.number in
      let within = core.now.within in
      let some_there : (s.frame.num_packets == 0) ≡ false = ground arith in
      let left = core'.left in
      elim (Bool-cases ((store_frame H s).remaining_allocation_b == 0)) [
        | inl z ↦
            rw (some_there, z)
              (new ++ s.frame ∷ [], core', (omega (arith, more, within, at), ground (arith, left)))
        | inr z ↦
            rw (some_there, z, made)
              (
                new ++ s.frame ∷ [],
                record {
                  complete = core'.complete;
                  sized = core'.sized;
                  now = sized;
                  len = rw (ap bytes_of empty) (omega arith);
                  left = core'.left;
                },
                ground (arith, left),
              )
      ]

  pub step-Kept :
      (F : Filling H) (phase : Phase) (s : Sched H)
      → 8 ≤ burst
      → F.least ≤ room burst
      → burst < 4294967296
      → allocation < 2147483648
      → Kept (phase, s)
      → Kept (step H burst phase s)
  unfolding step in_get_chunk
  step-Kept F (next_fifo f) s large roomy small few (new, core, at) =
      (new, moved (s.before ++ f ∷ []) s.fifos s.context s new core, at)
  step-Kept F get_fifo s large roomy small few k = in_get_fifo-Kept s.fifos s k
  step-Kept F (next_encap_pkt f) s large roomy small few k = in_next_encap_pkt-Kept f s k
  step-Kept F (get_chunk f e) s large roomy small few k =
      encapsulated_to-Kept F roomy f e s _ _ refl k
  step-Kept F (add_data f p) s large roomy small few k = added_to-Kept f p s small k
  step-Kept F (finalize_frame f) s large roomy small few k =
      in_finalize_frame-Kept f s large small few k
  step-Kept F (ended_at_limit f) s large roomy small few k = k
  step-Kept F (failed f) s large roomy small few k = k
  step-Kept F ended s large roomy small few k = k
