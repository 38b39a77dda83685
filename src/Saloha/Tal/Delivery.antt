-- ===== src/Saloha/Tal/Delivery.antt =====
-- `schedule` from the slots on: what is sent is sent in all its slots, and no packet is lost.
use opensand.Prelude.{
  ℕ, ◌+◌, ◌<◌, ◌≤◌, ◌≡◌, refl, sym, ap, ◌∙◌, subst, Option, none, some, List, [], ◌∷◌, ◌++◌, map,
  append-nil, length, ◌==◌, arith, Bool-cases, inl, inr, All,
}
use opensand.Saloha.Packet.{Packet}
use opensand.Saloha.Tal.{DataPacket, SlottedAlohaFrame, new_frame, Frames, Sending, SlottedAlohaTal}
use opensand.Saloha.Tal.Schedule.{close, send}
use opensand.Saloha.Tal.Copies.{
  Sendable, Sized, packets_of, packets_of-snoc, All-snoc, all_packets, Good, new_frame-Sized,
}
use opensand.Saloha.Tal.Sends.{
  all_copies, all_slots, wait_all, heft, append-Progress, fewer_slots, Stuck, sent_heft-append,
  resend-Resent,
}
use opensand.Saloha.Tal.NewPackets.{fifos_heft, Aloha, AllIdle, send_fifos-Served}
use opensand.Saloha.Tal.Waits.{waiting_heft, AllWaiting, waiting_heft-wait_all, wait_all-AllWaiting}

no_packets : (ps : List DataPacket) → length ps ≡ 0 → ps ≡ []
no_packets [] h = refl
no_packets (p ∷ ps) h = absurd (omega arith)

close-Sized : (s : Frames) → Good s → All Sized (close s) × (packets_of (close s) ≡ all_packets s)
unfolding close
close-Sized s g = elim (Bool-cases (s.frame.data_length == 0)) [
  | inl e ↦
      let empty = no_packets s.frame.packets (ground (arith, g.current.number)) in
      rw (close, e)
        (
          g.complete,
          sym (append-nil (packets_of s.complete_dvb_frames))
              ∙ ap (λ l. packets_of s.complete_dvb_frames ++ l) (sym empty),
        )
  | inr e ↦
      rw (close, e)
        (
          All-snoc s.complete_dvb_frames s.frame g.complete g.current,
          packets_of-snoc s.complete_dvb_frames s.frame,
        )
]

Stuck-later : (ps : List DataPacket) (n n' : ℕ) → n' ≤ n → Stuck ps n → Stuck ps n'
Stuck-later [] n n' h k = tt
Stuck-later (p ∷ ps) n n' h k = omega arith

abbrev pub pointers_heft : (Packet → ℕ) → List (Option DataPacket) → ℕ
pointers_heft w [] = 0
pointers_heft w (none ∷ ps) = pointers_heft w ps
pointers_heft w (some p ∷ ps) = w p.packet + pointers_heft w ps

pub pointers_heft-map :
    (w : Packet → ℕ) (ps : List DataPacket) → pointers_heft w (map some ps) ≡ heft w ps
pointers_heft-map w [] = refl
pointers_heft-map w (p ∷ ps) = omega (arith, pointers_heft-map w ps)

module _ (object : ℕ → DataPacket) where
  -- What the terminal holds: the packets that wait, those to send again, and those in the FIFOs.
  abbrev pub held : (Packet → ℕ) → SlottedAlohaTal → ℕ
  held w tal =
      waiting_heft w tal.packets_wait_ack
      + pointers_heft w tal.retransmission_packets
      + fifos_heft object w tal.dvb_fifos

  -- Every packet fits into a frame, there is no null pointer, and queued packets in slotted Aloha have
  -- no more replicas than the terminal sends.
  pub record Ready (tal : SlottedAlohaTal) : Type 0 where
    pub again : List DataPacket
    pub there : tal.retransmission_packets ≡ map some again
    pub sendable : All Sendable again
    pub waiting : AllWaiting tal.packets_wait_ack
    pub queued : All (Aloha object tal.nb_replicas) tal.dvb_fifos

  -- Between the slots drawn and the end.
  pub record Delivery (complete : List SlottedAlohaFrame) (slots : List ℕ) (tal : SlottedAlohaTal)
      (r : List SlottedAlohaFrame × SlottedAlohaTal) : Type 0 where
    pub sent : List (ℕ × DataPacket)
    pub unused : List ℕ
    pub sized : All Sized r.0
    pub packets : packets_of r.0 ≡ packets_of complete ++ all_copies sent
    pub placed : all_slots sent ++ unused ≡ slots
    pub ready : Ready r.1
    pub waiting : r.1.packets_wait_ack ≡ wait_all sent tal.packets_wait_ack
    pub kept : (w : Packet → ℕ) → held w r.1 ≡ held w tal
    pub left : List DataPacket
    pub again : r.1.retransmission_packets ≡ map some left
    pub stuck : Stuck left (length unused)
    pub idle : AllIdle tal.nb_replicas r.1.dvb_fifos (length unused)

  pub send-Delivery :
      (slots : List ℕ) (complete : List SlottedAlohaFrame) (tal : SlottedAlohaTal)
      → length slots < 65536
      → All Sized complete
      → Ready tal
      → (r : List SlottedAlohaFrame × SlottedAlohaTal) × (send object slots complete tal ≡ some r)
        × Delivery complete slots tal r
  unfolding send
  send-Delivery slots complete tal small sized ready =
      let start : Sending = record {
        frames = record { complete_dvb_frames = complete; frame = new_frame };
        slots = slots;
        packets_wait_ack = tal.packets_wait_ack;
      } in
      let one =
        resend-Resent (length slots) ready.again 0 start small ready.sendable
          (record { complete = sized; current = new_frame-Sized }) (omega arith) in
      let rest =
        send_fifos-Served object tal.nb_replicas (length slots) tal.dvb_fifos one.used one.after
          small ready.queued one.progress.good one.room in
      let all =
        append-Progress one.sent rest.sent start one.after rest.after one.progress rest.progress in
      let (closed, whole) = close-Sized rest.after.frames all.good in
      (
        (
          close rest.after.frames,
          record tal {
            retransmission_packets = map some one.left;
            dvb_fifos = rest.left;
            packets_wait_ack = rest.after.packets_wait_ack;
          },
        ),
        rw (send, ready.there, one.ran, rest.ran) refl,
        record {
          sent = one.sent ++ rest.sent;
          unused = rest.after.slots;
          sized = closed;
          packets =
              whole
              ∙ all.packets
              ∙ ap (λ l. l ++ all_copies (one.sent ++ rest.sent))
                  (append-nil (packets_of complete));
          placed = all.slots;
          ready = record {
            again = one.left;
            there = refl;
            sendable = one.sendable;
            waiting = subst AllWaiting (sym all.waiting) (
                wait_all-AllWaiting (one.sent ++ rest.sent) tal.packets_wait_ack all.sendable
                  ready.waiting);
            queued = rest.queued;
          };
          waiting = all.waiting;
          left = one.left;
          again = refl;
          stuck =
              Stuck-later one.left (length one.after.slots) (length rest.after.slots)
                (fewer_slots rest.sent one.after rest.after rest.progress) one.stuck;
          idle = rest.idle;
          kept = λ w.
              let old = ap (pointers_heft w) ready.there in
              let before = pointers_heft-map w ready.again in
              let after = pointers_heft-map w one.left in
              let here = one.all w in
              let others = rest.all w in
              let both = sent_heft-append w one.sent rest.sent in
              let waiting = ap (waiting_heft w) all.waiting in
              let more = waiting_heft-wait_all w (one.sent ++ rest.sent) tal.packets_wait_ack in
              omega (arith, old, before, after, here, others, both, waiting, more);
        },
      )
