-- ===== src/Scheduling/Rcs2/Delivery.antt =====
-- The whole of a scheduling: what is sent, in which frames, and what is left.
use opensand.Prelude.{
  ℕ, ◌+◌, ◌-◌, ◌*◌, ◌≤◌, ◌<◌, ◌≡◌, refl, sym, ap, ◌∙◌, true, false, some, List, [], ◌∷◌, ◌++◌,
  append-nil, append_assoc, length, ◌==◌, arith, Bool-cases, inl, inr, ◌⊎◌, All,
}
use opensand.Fifo.Dvb.{DvbFifo}
use opensand.Scheduling.Frame.{Packet, DvbRcsFrame}
use opensand.Scheduling.Rcs2.{
  Handler, Phase, next_fifo, next_encap_pkt, finalize_frame, ended_at_limit, failed, get_chunk,
  add_data, get_fifo, ended, allocate_frame, Sched, store_frame, is_last, run, finish, mac_schedule,
  schedule,
}
use opensand.Scheduling.Rcs2.Ends.{Shrinking, work, run-ends}
use opensand.Scheduling.Rcs2.Limits.{Filling, carried, room, Sized, allocate_frame-Sized}
use opensand.Scheduling.Rcs2.Limits.Steps.{Kept, step-Kept, store_frame-Core}
use opensand.Scheduling.Rcs2.Order.{
  Faithful, all_queued, packets_content, frames_content, frames_content-snoc, Fits, Holds,
}
use opensand.Scheduling.Rcs2.Order.Steps.{step-Holds}

module _ (content packed_content : Packet → List ℕ) (H : Handler) (burst allocation : ℕ)
    (before : List DvbRcsFrame) (fifos : List DvbFifo) where
  abbrev sent : List DvbRcsFrame → List ℕ
  sent fs = frames_content content packed_content fs

  abbrev waiting : List DvbFifo → List ℕ
  waiting fs = all_queued content packed_content fs

  -- The new frames keep to the size of a burst. What they carry is taken off the allocation, which they
  -- pass by no more than one frame holds. What all frames carry, followed by what waits, is what it was.
  -- The allocation is used up, or nothing waits.
  pub record Delivered (s : Sched H) : Type 0 where
    pub new : List DvbRcsFrame
    pub complete : s.complete_dvb_frames ≡ before ++ new
    pub sized : All (Sized burst) new
    pub bounded : 8 * carried new ≤ allocation + 8 * room burst
    pub left : s.remaining_allocation_b ≡ allocation - 8 * carried new
    pub order : sent s.complete_dvb_frames ++ waiting s.fifos ≡ sent before ++ waiting fifos
    pub passed : waiting s.before ≡ []
    pub used : (allocation ≤ 8 * carried new) ⊎ (waiting s.fifos ≡ [])

  abbrev Both : Phase × Sched H → Type 0
  Both r =
      Kept H burst allocation before r
      × Holds content packed_content H (sent before ++ waiting fifos) r

  no_packets : (ps : List Packet) → length ps ≡ 0 → ps ≡ []
  no_packets [] h = refl
  no_packets (p ∷ ps) h = absurd (omega arith)

  finish-Delivered :
      (phase : Phase) (s : Sched H)
      → allocation < 2147483648
      → is_last phase ≡ true
      → Both (phase, s)
      → ((finish H burst phase s).0 ≡ true) × Delivered (finish H burst phase s).1
  unfolding finish
  finish-Delivered ended s small h ((new, core, at), c) =
      let empty : waiting s.fifos ≡ [] = ap waiting c.serving in
      let number = core.now.number in
      elim (Bool-cases (s.frame.num_packets == 0)) [
        | inl z ↦
            let none_there : s.frame.packets ≡ [] = no_packets s.frame.packets (ground arith) in
            rw z (
              refl,
              record {
                new = new;
                complete = core.complete;
                sized = core.sized;
                bounded = omega (arith, at);
                left = core.left;
                order =
                    ap
                      (λ ps.
                        sent s.complete_dvb_frames
                        ++ (packets_content content packed_content ps ++ waiting s.fifos))
                      (sym none_there)
                    ∙ c.all;
                passed = c.passed;
                used = inr empty;
              },
            )
        | inr z ↦
            let (core', more) = store_frame-Core H burst allocation before s new small core in
            let within = core.now.within in
            rw z (
              refl,
              unfold store_frame in
                  record {
                    new = new ++ s.frame ∷ [];
                    complete = core'.complete;
                    sized = core'.sized;
                    bounded = omega (arith, at, more, within);
                    left = core'.left;
                    order =
                        ap (λ l. l ++ waiting s.fifos)
                          (frames_content-snoc content packed_content s.complete_dvb_frames s.frame)
                        ∙ append_assoc (sent s.complete_dvb_frames)
                            (packets_content content packed_content s.frame.packets)
                            (waiting s.fifos)
                        ∙ c.all;
                    passed = c.passed;
                    used = inr empty;
                  },
            )
      ]
  finish-Delivered (ended_at_limit f) s small h ((new, core, at), c) = (
    refl,
    record {
      new = new;
      complete = core.complete;
      sized = core.sized;
      bounded = at.0;
      left = core.left;
      order =
          ap (λ q. sent s.complete_dvb_frames ++ (q ++ waiting s.fifos)) (rw c.serving.access refl)
          ∙ c.all;
      passed = c.passed;
      used = inl at.1;
    },
  )
  finish-Delivered (failed f) s small h ((new, core, at), c) = absurd at
  finish-Delivered get_fifo s small h b = absurd cc
  finish-Delivered (next_fifo f) s small h b = absurd cc
  finish-Delivered (next_encap_pkt f) s small h b = absurd cc
  finish-Delivered (finalize_frame f) s small h b = absurd cc
  finish-Delivered (get_chunk f e) s small h b = absurd cc
  finish-Delivered (add_data f p) s small h b = absurd cc

  abbrev start : DvbRcsFrame → H.Context → Sched H
  start frame context = record {
    before = [];
    fifos = fifos;
    frame = frame;
    frame_length_b = 0;
    complete_dvb_frames = before;
    remaining_allocation_b = allocation;
    context = context;
  }

  schedule-run :
      (fuel : ℕ) (context : H.Context) (frame : DvbRcsFrame) (phase : Phase) (s : Sched H)
      → (burst == 0) ≡ false
      → allocate_frame burst ≡ some frame
      → run H burst fuel get_fifo (start frame context) ≡ some (phase, s)
      → (finish H burst phase s).0 ≡ true
      → schedule H burst fuel fifos before allocation context
        ≡ some (true, some (finish H burst phase s).1)
  unfolding schedule mac_schedule
  schedule-run fuel context frame phase s there made ran ok =
      rw (there, mac_schedule, made, ran) (ap (λ b. some (b, some (finish H burst phase s).1)) ok)

  -- Suppose that the plug-in never fails; that its data is not empty, fits into the free space, is made
  -- in a new frame with the least space that it needs, and is, before what remains, the packet; and that
  -- what remains has no more left to send than the packet, and less if there is data: as with fragments
  -- of a packet, not with a plug-in that keeps what it has sent and hands the packet back whole. With a
  -- burst of 8 to 2 ^ 32 - 1 bits whose frames have that least space, an allocation below 2 ^ 31 bits,
  -- FIFOs within their 16-bit limits, and fuel above six times the work in the FIFOs and 4, `schedule`
  -- ends and succeeds. The new frames come behind those that are there and keep to the size of a burst;
  -- what they carry is taken off the allocation, and passes it by no more than one frame holds. The
  -- content of the FIFOs that are not in slotted Aloha is sent in their order, none of it is lost or
  -- doubled, and either the allocation is used up or nothing of it is left.
  pub schedule-Delivered :
      (fuel : ℕ) (context : H.Context) (S : Shrinking H) (F : Filling H)
      → Faithful content packed_content H
      → 8 ≤ burst
      → F.least ≤ room burst
      → burst < 4294967296
      → allocation < 2147483648
      → All (Fits content packed_content) fifos
      → 6 * work S.left fifos + 4 < fuel
      → (s : Sched H) × (schedule H burst fuel fifos before allocation context
          ≡ some (true, some s))
        × Delivered s
  schedule-Delivered fuel context S F W large roomy small few fits enough =
      let (frame, made, sized, empty) = allocate_frame-Sized burst large small in
      let number = sized.number ∙ ap length empty in
      let there : (burst == 0) ≡ false = ground arith in
      let both : Both (get_fifo, start frame context) = (
        (
          [],
          record {
            complete = sym (append-nil before);
            sized = tt;
            now = sized;
            len = rw empty (omega arith);
            left = omega arith;
          },
          omega arith,
        ),
        record {
          all =
              ap (λ ps. sent before ++ (packets_content content packed_content ps ++ waiting fifos))
                empty;
          passed = refl;
          fit = fits;
          serving = tt;
        },
      ) in
      let (phase, s, ran, last, held) =
        run-ends H S burst Both
          (λ phase s b. (
            step-Kept H burst allocation before F phase s large roomy small few b.0,
            step-Holds content packed_content H (sent before ++ waiting fifos) W F burst phase s
                b.1,
          ))
          fuel get_fifo (start frame context) (ground arith) both in
      let (ok, delivered) = finish-Delivered phase s few last held in
      (
        (finish H burst phase s).1,
        schedule-run fuel context frame phase s there made ran ok,
        delivered,
      )
