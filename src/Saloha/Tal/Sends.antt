-- ===== src/Saloha/Tal/Sends.antt =====
-- What `schedule` sends, of the packets to send again and of the FIFOs.
use opensand.Prelude.{
  ℕ, ◌+◌, ◌≤◌, ◌<◌, ◌≡◌, refl, sym, ap, ◌∙◌, Option, some, List, [], ◌∷◌, ◌++◌, map, append_assoc,
  append-nil, leb, length, length-append, arith, Bool-cases, inl, inr, All, add16, u16,
}
use opensand.Saloha.Packet.{Packet}
use opensand.Saloha.Tal.{DataPacket, Waiting, wait_ack, Sending, resend}
use opensand.Saloha.Tal.Copies.{
  Sendable, all_packets, copies, Good, Sent, add_packet_in_frames-Sent,
}

-- All copies of the packets sent, all slots they took, and all of them waiting.
abbrev pub all_copies : List (ℕ × DataPacket) → List DataPacket
all_copies [] = []
all_copies ((qos, p) ∷ ps) = copies p.replicas p ++ all_copies ps

abbrev pub all_slots : List (ℕ × DataPacket) → List ℕ
all_slots [] = []
all_slots ((qos, p) ∷ ps) = p.replicas ++ all_slots ps

abbrev pub wait_all : List (ℕ × DataPacket) → Waiting → Waiting
wait_all [] m = m
wait_all ((qos, p) ∷ ps) m = wait_all ps (wait_ack qos p m)

-- What packets weigh, for any weight of what identifies them.
abbrev pub heft : (Packet → ℕ) → List DataPacket → ℕ
heft w [] = 0
heft w (p ∷ ps) = w p.packet + heft w ps

abbrev pub sent_heft : (Packet → ℕ) → List (ℕ × DataPacket) → ℕ
sent_heft w [] = 0
sent_heft w ((qos, p) ∷ ps) = w p.packet + sent_heft w ps

pub record Progress (sent : List (ℕ × DataPacket)) (s : Sending) (s' : Sending) : Type 0 where
  pub packets : all_packets s'.frames ≡ all_packets s.frames ++ all_copies sent
  pub slots : all_slots sent ++ s'.slots ≡ s.slots
  pub waiting : s'.packets_wait_ack ≡ wait_all sent s.packets_wait_ack
  pub good : Good s'.frames
  pub sendable : All (λ e. Sendable e.1) sent

pub still : (s : Sending) → Good s.frames → Progress [] s s
still s g = record {
  packets = sym (append-nil (all_packets s.frames));
  slots = refl;
  waiting = refl;
  good = g;
  sendable = tt;
}

pub step-Progress :
    (p : DataPacket) (qos : ℕ) (sent : List (ℕ × DataPacket)) (s s' s'' : Sending)
    → (one : Sent p qos s s') → Progress sent s' s''
    → Progress ((qos, one.q) ∷ sent) s s''
step-Progress p qos sent s s' s'' one rest = record {
  packets =
      rest.packets
      ∙ ap (λ l. l ++ all_copies sent) one.packets
      ∙ append_assoc (all_packets s.frames) (copies one.q.replicas one.q) (all_copies sent);
  slots =
      append_assoc one.q.replicas (all_slots sent) s''.slots
      ∙ ap (λ l. one.q.replicas ++ l) rest.slots
      ∙ one.slots;
  waiting = rest.waiting ∙ ap (wait_all sent) one.waiting;
  good = rest.good;
  sendable = (one.sendable, rest.sendable);
}

all_copies-append :
    (ps qs : List (ℕ × DataPacket)) → all_copies (ps ++ qs) ≡ all_copies ps ++ all_copies qs
all_copies-append [] qs = refl
all_copies-append ((qos, p) ∷ ps) qs =
    ap (λ l. copies p.replicas p ++ l) (all_copies-append ps qs)
    ∙ sym (append_assoc (copies p.replicas p) (all_copies ps) (all_copies qs))

all_slots-append :
    (ps qs : List (ℕ × DataPacket)) → all_slots (ps ++ qs) ≡ all_slots ps ++ all_slots qs
all_slots-append [] qs = refl
all_slots-append ((qos, p) ∷ ps) qs =
    ap (λ l. p.replicas ++ l) (all_slots-append ps qs)
    ∙ sym (append_assoc p.replicas (all_slots ps) (all_slots qs))

wait_all-append :
    (ps qs : List (ℕ × DataPacket)) (m : Waiting)
    → wait_all (ps ++ qs) m ≡ wait_all qs (wait_all ps m)
wait_all-append [] qs m = refl
wait_all-append ((qos, p) ∷ ps) qs m = wait_all-append ps qs (wait_ack qos p m)

pub sent_heft-append :
    (w : Packet → ℕ) (ps qs : List (ℕ × DataPacket))
    → sent_heft w (ps ++ qs) ≡ sent_heft w ps + sent_heft w qs
sent_heft-append w [] qs = omega arith
sent_heft-append w ((qos, p) ∷ ps) qs = omega (arith, sent_heft-append w ps qs)

All-both :
    (ps qs : List (ℕ × DataPacket))
    → All (λ e. Sendable e.1) ps
    → All (λ e. Sendable e.1) qs
    → All (λ e. Sendable e.1) (ps ++ qs)
All-both [] qs h k = k
All-both (p ∷ ps) qs h k = (h.0, All-both ps qs h.1 k)

pub append-Progress :
    (ps qs : List (ℕ × DataPacket)) (s s' s'' : Sending)
    → Progress ps s s'
    → Progress qs s' s''
    → Progress (ps ++ qs) s s''
append-Progress ps qs s s' s'' a b = record {
  packets =
      b.packets
      ∙ ap (λ l. l ++ all_copies qs) a.packets
      ∙ append_assoc (all_packets s.frames) (all_copies ps) (all_copies qs)
      ∙ ap (λ l. all_packets s.frames ++ l) (sym (all_copies-append ps qs));
  slots =
      ap (λ l. l ++ s''.slots) (all_slots-append ps qs)
      ∙ append_assoc (all_slots ps) (all_slots qs) s''.slots
      ∙ ap (λ l. all_slots ps ++ l) b.slots
      ∙ a.slots;
  waiting = b.waiting ∙ ap (wait_all qs) a.waiting ∙ sym (wait_all-append ps qs s.packets_wait_ack);
  good = b.good;
  sendable = All-both ps qs a.sendable b.sendable;
}

pub fewer_slots :
    (sent : List (ℕ × DataPacket)) (s s' : Sending)
    → Progress sent s s'
    → length s'.slots ≤ length s.slots
fewer_slots sent s s' done =
    let split = length-append (all_slots sent) s'.slots in
    let all = ap length done.slots in omega (arith, split, all)

-- The first packet left wants more slots than there are.
abbrev pub Stuck : List DataPacket → ℕ → Type 0
Stuck [] n = Unit
Stuck (p ∷ ps) n = n < length p.replicas

-- The slots that are left, where a packet took its own.
pub slots_left :
    (p : DataPacket) (qos size used : ℕ) (s s' : Sending)
    → Sent p qos s s'
    → size < 65536
    → used + length s.slots ≡ size
    → add16 used (u16 (length p.replicas)) + length s'.slots ≡ size
slots_left p qos size used s s' one small room =
    let split = length-append one.q.replicas s'.slots in
    let all = ap length one.slots in let same = one.number in omega (arith, split, all, same)

-- The packets to send again: those sent, and those left.
pub record Resent (size : ℕ) (ps : List DataPacket) (s : Sending)
    (r : Option (List (Option DataPacket) × ℕ × Sending)) : Type 0 where
  pub left : List DataPacket
  pub used : ℕ
  pub after : Sending
  pub sent : List (ℕ × DataPacket)
  pub ran : r ≡ some (map some left, used, after)
  pub progress : Progress sent s after
  pub room : used + length after.slots ≡ size
  pub sendable : All Sendable left
  pub stuck : Stuck left (length after.slots)
  pub all : (w : Packet → ℕ) → sent_heft w sent + heft w left ≡ heft w ps

pub resend-Resent :
    (size : ℕ) (ps : List DataPacket) (used : ℕ) (s : Sending)
    → size < 65536
    → All Sendable ps
    → Good s.frames
    → used + length s.slots ≡ size
    → Resent size ps s (resend size (map some ps) used s)
unfolding resend
resend-Resent size [] used s small h g room = record {
  left = [];
  used = used;
  after = s;
  sent = [];
  ran = refl;
  progress = still s g;
  room = room;
  sendable = tt;
  stuck = tt;
  all = λ w. refl;
}
resend-Resent size (p ∷ ps) used s small h g room =
    elim (Bool-cases (leb (used + length p.replicas) size)) [
      | inr e ↦ record {
        left = p ∷ ps;
        used = used;
        after = s;
        sent = [];
        ran = rw (resend, e) refl;
        progress = still s g;
        room = room;
        sendable = h;
        stuck = ground arith;
        all = λ w. omega arith;
      }
      | inl e ↦
          let (s', ran, one) = add_packet_in_frames-Sent p p.packet.qos s h.0 g (ground arith) in
          let rest =
            resend-Resent size ps (add16 used (u16 (length p.replicas))) s' small h.1 one.good
              (slots_left p p.packet.qos size used s s' one small room) in
          record {
            left = rest.left;
            used = rest.used;
            after = rest.after;
            sent = (p.packet.qos, one.q) ∷ rest.sent;
            ran = rw (resend, e, ran) rest.ran;
            progress = step-Progress p p.packet.qos rest.sent s s' rest.after one rest.progress;
            room = rest.room;
            sendable = rest.sendable;
            stuck = rest.stuck;
            all = λ w.
                let same = ap w one.same in let others = rest.all w in omega (arith, same, others);
          }
    ]
