-- ===== src/Saloha/Tal/Kept.antt =====
-- `schedule` as a whole: no packet is lost but those that are given up, and what is sent is sent in all
-- its slots.
use native.Mathlib.Nat.{mul-le-mul_right}
use opensand.Prelude.{
  ℕ, suc, ◌+◌, ◌-◌, ◌*◌, ◌/◌, ◌%◌, ◌≤◌, ◌<◌, ◌≡◌, ap, ◌∙◌, true, false, Option, none, some, List,
  [], ◌++◌, length, map, ◌==◌, arith, All, u16, min,
}
use opensand.Saloha.Packet.{Packet}
use opensand.Saloha.Backoff.{is_ready}
use opensand.Saloha.Slots.Ascending.{Ascending, drawn, get_time_slots-Ascending}
use opensand.Saloha.Tal.{DataPacket, SlottedAlohaFrame, SlottedAlohaTal}
use opensand.Saloha.Tal.Timeouts.{Collected, dec_all}
use opensand.Saloha.Tal.Schedule.{nb_waiting, send, expire, age, time_slots, schedule}
use opensand.Saloha.Tal.Copies.{Sized, packets_of}
use opensand.Saloha.Tal.NewPackets.{AllIdle}
use opensand.Saloha.Tal.Sends.{wait_all, Stuck, all_copies, all_slots, heft}
use opensand.Saloha.Tal.Expiry.{all_given_up, Pointers, collect_all-Sorted, collect_all-AllWaiting}
use opensand.Saloha.Tal.Waits.{waiting_heft-dec_all, dec_all-AllWaiting}
use opensand.Saloha.Tal.Delivery.{pointers_heft, pointers_heft-map, held, Ready, send-Delivery}

module _ (object : ℕ → DataPacket) where
  -- The packets that a tick gives up.
  abbrev pub lost : SlottedAlohaTal → List DataPacket
  lost tal = all_given_up tal.nb_max_retransmissions (dec_all tal.packets_wait_ack)

  expire-Ready :
      (draw : ℕ → ℕ → ℕ) (tal : SlottedAlohaTal)
      → Ready object tal
      → Ready object (expire draw (age tal))
        × ((w : Packet → ℕ)
            → held object w (expire draw (age tal)) + heft w (lost tal) ≡ held object w tal)
  unfolding expire age
  expire-Ready draw tal ready =
      let start : Collected = record {
        retransmission_packets = tal.retransmission_packets;
        nb_retransmissions = 0;
        backoff = (age tal).backoff;
        nb_lost = 0;
      } in
      let old : Pointers start = record {
        again = ready.again;
        there = ready.there;
        sendable = ready.sendable;
      } in
      let (new, number, all) =
        collect_all-Sorted (age tal) draw (dec_all tal.packets_wait_ack) start old
          (dec_all-AllWaiting tal.packets_wait_ack ready.waiting) in
      (
        record {
          again = new.again;
          there = new.there;
          sendable = new.sendable;
          waiting =
              collect_all-AllWaiting (age tal) draw (dec_all tal.packets_wait_ack) start
                (dec_all-AllWaiting tal.packets_wait_ack ready.waiting);
          queued = ready.queued;
        },
        λ w.
            let here = all w in
            let aged = waiting_heft-dec_all w tal.packets_wait_ack in
            let before = ap (pointers_heft w) ready.there ∙ pointers_heft-map w ready.again in
            let after = ap (pointers_heft w) new.there ∙ pointers_heft-map w new.again in
            omega (arith, here, aged, before, after),
      )

  schedule-run :
      (draw draw_slot draw_carrier : ℕ → ℕ → ℕ) (fuel sf_counter : ℕ)
      (complete : List SlottedAlohaFrame) (tal : SlottedAlohaTal) (slots : List ℕ)
      → 1 ≤ tal.sf_per_saframe
      → sf_counter % tal.sf_per_saframe ≡ 0
      → tal.backoff.backoff ≤ 1
      → time_slots draw_slot draw_carrier fuel (expire draw (age tal)) ≡ some slots
      → schedule object draw draw_slot draw_carrier fuel sf_counter complete tal
        ≡ send object slots complete (expire draw (age tal))
  unfolding schedule age is_ready
  schedule-run draw draw_slot draw_carrier fuel sf_counter complete tal slots some_frame ticks
        backoff ran =
      let framed : (tal.sf_per_saframe == 0) ≡ false = ground arith in
      let ready : (tal.backoff.backoff - 1 == 0) ≡ true = ground arith in
      rw (schedule, framed, ticks, ready)
        (ap
          (λ o. elim o [ none ↦ none | some ts ↦ send object ts complete (expire draw (age tal)) ])
          ran)

  slots-some :
      (draw draw_slot draw_carrier : ℕ → ℕ → ℕ) (fuel : ℕ) (tal : SlottedAlohaTal)
      → 1 ≤ tal.carriers_number
      → tal.nb_max_packets * tal.nb_replicas
        ≤ length (drawn (λ k. draw_slot k (tal.slots_number / tal.carriers_number)) fuel 0 [])
      → (slots : List ℕ) × (time_slots draw_slot draw_carrier (suc fuel) (expire draw (age tal))
          ≡ some slots)
        × Ascending slots
        × (length slots ≤ tal.nb_max_packets * tal.nb_replicas)
        × (length slots < 65536)
  unfolding time_slots expire age
  slots-some draw draw_slot draw_carrier fuel tal some_carrier enough =
      let again : List (Option DataPacket) = (expire draw (age tal)).retransmission_packets in
      let waiting : ℕ = nb_waiting tal.dvb_fifos (u16 (length again)) in
      let most : min waiting tal.nb_max_packets * tal.nb_replicas
          ≤ tal.nb_max_packets * tal.nb_replicas =
        mul-le-mul_right tal.nb_replicas (omega arith) in
      let (slots, ran, ascending, count, word) =
        get_time_slots-Ascending draw_slot draw_carrier fuel waiting tal.nb_max_packets
          tal.nb_replicas tal.slots_number tal.carriers_number some_carrier
          (omega (arith, most, enough)) in
      (slots, ran, ascending, omega (arith, most, count), word)

  -- What a tick of the slotted Aloha frame does.
  pub record Scheduled (draw : ℕ → ℕ → ℕ) (complete : List SlottedAlohaFrame) (slots : List ℕ)
      (tal : SlottedAlohaTal) (r : List SlottedAlohaFrame × SlottedAlohaTal) : Type 0 where
    pub sent : List (ℕ × DataPacket)
    pub unused : List ℕ
    pub sized : All Sized r.0
    pub packets : packets_of r.0 ≡ packets_of complete ++ all_copies sent
    pub placed : all_slots sent ++ unused ≡ slots
    pub ready : Ready object r.1
    pub waiting : r.1.packets_wait_ack ≡ wait_all sent (expire draw (age tal)).packets_wait_ack
    pub left : List DataPacket
    pub again : r.1.retransmission_packets ≡ map some left
    pub stuck : Stuck left (length unused)
    pub idle : AllIdle tal.nb_replicas r.1.dvb_fifos (length unused)
    pub kept : (w : Packet → ℕ) → held object w r.1 + heft w (lost tal) ≡ held object w tal

  -- At a tick of the slotted Aloha frame at which the backoff ends: suppose that packets fit into a frame
  -- and are not empty, that there is no null pointer, that queued packets have no more replicas than the
  -- terminal sends and are fewer than 2 ^ 16, that there is a carrier, and that among the first draws of
  -- slots, whatever they are, as many are different as the packets that may be sent have replicas. Then
  -- `schedule` returns, and what is supposed of the packets is so afterwards. The packets that the
  -- terminal holds are those from before without those given up; each that is sent is in the frames, all
  -- within their size, once in each of its slots, and waits. The slots are ascending, so that each is used
  -- by one replica at most, and no more than the replicas of the packets that may be sent. Where packets
  -- are left, the first one to send again, or one of a FIFO in slotted Aloha, wants more slots than are
  -- left over.
  pub schedule-Scheduled :
      (draw draw_slot draw_carrier : ℕ → ℕ → ℕ) (fuel sf_counter : ℕ)
      (complete : List SlottedAlohaFrame) (tal : SlottedAlohaTal)
      → Ready object tal
      → All Sized complete
      → 1 ≤ tal.sf_per_saframe
      → sf_counter % tal.sf_per_saframe ≡ 0
      → tal.backoff.backoff ≤ 1
      → 1 ≤ tal.carriers_number
      → tal.nb_max_packets * tal.nb_replicas
        ≤ length (drawn (λ k. draw_slot k (tal.slots_number / tal.carriers_number)) fuel 0 [])
      → (slots : List ℕ) × (r : List SlottedAlohaFrame × SlottedAlohaTal) × (schedule object draw
            draw_slot draw_carrier
            (suc fuel)
            sf_counter
            complete
            tal
          ≡ some r)
        × Ascending slots
        × (length slots ≤ tal.nb_max_packets * tal.nb_replicas)
        × Scheduled draw complete slots tal r
  unfolding expire age
  schedule-Scheduled draw draw_slot draw_carrier fuel sf_counter complete tal ready sized some_frame
        ticks backoff some_carrier enough =
      let (slots, drew, ascending, most, word) =
        slots-some draw draw_slot draw_carrier fuel tal some_carrier enough in
      let (expired, given) = expire-Ready draw tal ready in
      let (r, ran, delivery) =
        send-Delivery object slots complete (expire draw (age tal)) word sized expired in
      (
        slots,
        r,
        schedule-run draw draw_slot draw_carrier (suc fuel) sf_counter complete tal slots some_frame
              ticks backoff drew
            ∙ ran,
        ascending,
        most,
        record {
          sent = delivery.sent;
          unused = delivery.unused;
          sized = delivery.sized;
          packets = delivery.packets;
          placed = delivery.placed;
          ready = delivery.ready;
          waiting = delivery.waiting;
          left = delivery.left;
          again = delivery.again;
          stuck = delivery.stuck;
          idle = delivery.idle;
          kept = λ w.
              let here = given w in let others = delivery.kept w in omega (arith, here, others);
        },
      )
