-- ===== src/Saloha/Tal/Copies.antt =====
-- What `addPacketInFrames` puts into the frames, and which slots it takes.
use opensand.Prelude.{
  ℕ, ◌+◌, ◌-◌, ◌≤◌, ◌≡◌, refl, sym, ap, ◌∙◌, Bool, true, false, some, List, [], ◌∷◌, ◌++◌,
  append_assoc, append-nil, ltb, length, length-append, arith, Bool-cases, inl, inr, All,
}
use opensand.Saloha.Tal.{
  DataPacket, set_ts, set_replicas, SlottedAlohaFrame, new_frame, free_space, add_packet, Frames,
  make_room, add_replicas, next_slots, wait_ack, Sending, sent_to, add_packet_in_frames,
}

-- A packet that a frame can hold.
pub record Sendable (p : DataPacket) : Type 0 where
  pub some_byte : 1 ≤ p.total_length
  pub fits : p.total_length ≤ 1199

abbrev pub bytes : List DataPacket → ℕ
bytes [] = 0
bytes (p ∷ ps) = p.total_length + bytes ps

-- A frame within its size, which counts its packets.
pub record Sized (f : SlottedAlohaFrame) : Type 0 where
  pub total : f.total_length ≡ 5 + bytes f.packets
  pub within : f.total_length ≤ 1204
  pub number : f.data_length ≡ length f.packets
  pub few : length f.packets ≤ bytes f.packets

abbrev pub packets_of : List SlottedAlohaFrame → List DataPacket
packets_of [] = []
packets_of (f ∷ fs) = f.packets ++ packets_of fs

abbrev pub all_packets : Frames → List DataPacket
all_packets s = packets_of s.complete_dvb_frames ++ s.frame.packets

-- A packet as often as it has slots, with the slot in each copy.
abbrev pub copies : List ℕ → DataPacket → List DataPacket
copies [] p = []
copies (slot ∷ slots) p = set_ts slot p ∷ copies slots p

pub record Good (s : Frames) : Type 0 where
  pub complete : All Sized s.complete_dvb_frames
  pub current : Sized s.frame

pub packets_of-snoc :
    (fs : List SlottedAlohaFrame) (f : SlottedAlohaFrame)
    → packets_of (fs ++ f ∷ []) ≡ packets_of fs ++ f.packets
packets_of-snoc [] f = append-nil f.packets
packets_of-snoc (g ∷ fs) f =
    ap (λ l. g.packets ++ l) (packets_of-snoc fs f)
    ∙ sym (append_assoc g.packets (packets_of fs) f.packets)

pub All-snoc :
    (fs : List SlottedAlohaFrame) (f : SlottedAlohaFrame)
    → All Sized fs
    → Sized f
    → All Sized (fs ++ f ∷ [])
All-snoc [] f h k = (k, tt)
All-snoc (g ∷ fs) f h k = (h.0, All-snoc fs f h.1 k)

bytes-snoc :
    (ps : List DataPacket) (p : DataPacket) → bytes (ps ++ p ∷ []) ≡ bytes ps + p.total_length
bytes-snoc [] p = omega arith
bytes-snoc (q ∷ ps) p = omega (arith, bytes-snoc ps p)

pub new_frame-Sized : Sized new_frame
unfolding new_frame
new_frame-Sized = omega arith

add_packet-Sized :
    (p : DataPacket) (f : SlottedAlohaFrame)
    → Sendable p
    → Sized f
    → p.total_length ≤ 1204 - f.total_length
    → ((add_packet p f).0 ≡ true)
      × Sized (add_packet p f).1
      × ((add_packet p f).1.packets ≡ f.packets ++ p ∷ [])
unfolding add_packet
add_packet-Sized p f h s room =
    let more = bytes-snoc f.packets p in
    let longer = length-append f.packets (p ∷ []) in
    let space : ltb (free_space f) p.total_length ≡ false = ground (arith, s.within) in
    rw space (
      refl,
      record {
        total = omega (arith, more, s.total);
        within = omega (arith, s.within);
        number = omega (arith, longer, s.number, s.few, s.total, s.within);
        few = omega (arith, longer, more, s.few, h.some_byte);
      },
      refl,
    )

make_room-Good :
    (p : DataPacket) (s : Frames)
    → Sendable p
    → Good s
    → Good (make_room p s)
      × (all_packets (make_room p s) ≡ all_packets s)
      × (p.total_length ≤ 1204 - (make_room p s).frame.total_length)
unfolding make_room
make_room-Good p s h g = elim (Bool-cases (ltb (free_space s.frame) p.total_length)) [
  | inl e ↦ rw e (
    record {
      complete = All-snoc s.complete_dvb_frames s.frame g.complete g.current;
      current = new_frame-Sized;
    },
    append-nil (packets_of (s.complete_dvb_frames ++ s.frame ∷ []))
        ∙ packets_of-snoc s.complete_dvb_frames s.frame,
    h.fits,
  )
  | inr e ↦ rw e (g, refl, ground (arith, g.current.within))
]

set_replicas-Sendable : (rs : List ℕ) (p : DataPacket) → Sendable p → Sendable (set_replicas rs p)
unfolding set_replicas
set_replicas-Sendable rs p h = record { some_byte = h.some_byte; fits = h.fits }

copies-set_ts :
    (slots : List ℕ) (ts : ℕ) (p : DataPacket) → copies slots (set_ts ts p) ≡ copies slots p
unfolding set_ts
copies-set_ts [] ts p = refl
copies-set_ts (slot ∷ slots) ts p = ap (λ l. set_ts slot p ∷ l) (copies-set_ts slots ts p)

append_one :
    (xs bs cs : List DataPacket) (p : DataPacket)
    → (xs ++ (bs ++ p ∷ [])) ++ cs ≡ (xs ++ bs) ++ p ∷ cs
append_one xs bs cs p =
    ap (λ l. l ++ cs) (sym (append_assoc xs bs (p ∷ []))) ∙ append_assoc (xs ++ bs) (p ∷ []) cs

set_ts_self : (p : DataPacket) → p ≡ set_ts p.ts p
unfolding set_ts
set_ts_self p = refl

set_ts-Sendable : (ts : ℕ) (p : DataPacket) → Sendable p → Sendable (set_ts ts p)
unfolding set_ts
set_ts-Sendable ts p h = record { some_byte = h.some_byte; fits = h.fits }

set_ts-length : (ts : ℕ) (p : DataPacket) → (set_ts ts p).total_length ≡ p.total_length
unfolding set_ts
set_ts-length ts p = refl

set_ts_again : (ts later : ℕ) (p : DataPacket) → set_ts later (set_ts ts p) ≡ set_ts later p
unfolding set_ts
set_ts_again ts later p = refl

-- After a packet was added: it differs from `p` in its time stamp alone.
record Added (p : DataPacket) (slots : List ℕ) (s : Frames) (r : Bool × DataPacket × Frames)
    : Type 0 where
  pub added : r.0 ≡ true
  pub ts : ℕ
  pub same : r.1 ≡ set_ts ts p
  pub packets : all_packets r.2 ≡ all_packets s ++ copies slots p
  pub good : Good r.2

add_replicas-Added :
    (p : DataPacket) (slots : List ℕ) (s : Frames)
    → Sendable p
    → Good s
    → Added p slots s (add_replicas p slots s)
unfolding add_replicas
add_replicas-Added p [] s h g = record {
  added = refl;
  ts = p.ts;
  same = set_ts_self p;
  packets = sym (append-nil (all_packets s));
  good = g;
}
add_replicas-Added p (slot ∷ slots) s h g =
    let (good, same, room) = make_room-Good p s h g in
    let (added, sized, packets) =
      add_packet-Sized (set_ts slot p) (make_room p s).frame (set_ts-Sendable slot p h) good.current
        (omega (arith, room, set_ts-length slot p)) in
    let now : Frames = record (make_room p s) {
      frame = (add_packet (set_ts slot p) (make_room p s).frame).1;
    } in
    let rest =
      add_replicas-Added (set_ts slot p) slots now (set_ts-Sendable slot p h)
        (record { complete = good.complete; current = sized }) in
    rw (add_replicas, added)
      record {
        added = rest.added;
        ts = rest.ts;
        same = rest.same ∙ set_ts_again slot rest.ts p;
        packets =
            rest.packets
            ∙ ap (λ l. all_packets now ++ l) (copies-set_ts slots slot p)
            ∙ ap (λ l. (packets_of (make_room p s).complete_dvb_frames ++ l) ++ copies slots p)
                packets
            ∙ append_one (packets_of (make_room p s).complete_dvb_frames)
                (make_room p s).frame.packets (copies slots p) (set_ts slot p)
            ∙ ap (λ l. l ++ set_ts slot p ∷ copies slots p) same;
        good = rest.good;
      }

next_slots-split :
    (rs slots : List ℕ)
    → length rs ≤ length slots
    → (mine left : List ℕ) × (next_slots rs slots ≡ some (mine, left))
      × (length mine ≡ length rs)
      × (mine ++ left ≡ slots)
unfolding next_slots
next_slots-split [] slots h = ([], slots, refl, refl, refl)
next_slots-split (r ∷ rs) [] h = absurd (omega arith)
next_slots-split (r ∷ rs) (slot ∷ slots) h =
    let (mine, left, split, len, all) = next_slots-split rs slots (omega arith) in
    (slot ∷ mine, left, rw (next_slots, split) refl, omega (arith, len), ap (λ l. slot ∷ l) all)

sent_to-true :
    (qos : ℕ) (left : List ℕ) (r : Bool × DataPacket × Frames) (s : Sending) (q : DataPacket)
    → r.0 ≡ true
    → r.1 ≡ q
    → sent_to qos left r s ≡ (
      true,
      record { frames = r.2; slots = left; packets_wait_ack = wait_ack qos q s.packets_wait_ack },
    )
unfolding sent_to
sent_to-true qos left (true, p, frames) s q e same =
    ap
      (λ x. (
        true,
        record {
          frames = frames;
          slots = left;
          packets_wait_ack = wait_ack qos x s.packets_wait_ack;
        },
      ))
      same
sent_to-true qos left (false, p, frames) s q e same = absurd cc

-- One packet was sent: `q`, which has its slots and waits for its acknowledgement.
pub record Sent (p : DataPacket) (qos : ℕ) (s : Sending) (s' : Sending) : Type 0 where
  pub q : DataPacket
  pub same : q.packet ≡ p.packet
  pub sendable : Sendable q
  pub number : length q.replicas ≡ length p.replicas
  pub slots : q.replicas ++ s'.slots ≡ s.slots
  pub packets : all_packets s'.frames ≡ all_packets s.frames ++ copies q.replicas q
  pub waiting : s'.packets_wait_ack ≡ wait_ack qos q s.packets_wait_ack
  pub good : Good s'.frames

pub add_packet_in_frames-Sent :
    (p : DataPacket) (qos : ℕ) (s : Sending)
    → Sendable p
    → Good s.frames
    → length p.replicas ≤ length s.slots
    → (s' : Sending) × (add_packet_in_frames p qos s ≡ some (true, s')) × Sent p qos s s'
unfolding add_packet_in_frames set_ts set_replicas
add_packet_in_frames-Sent p qos s h g room =
    let (mine, left, split, len, all) = next_slots-split p.replicas s.slots room in
    let added =
      add_replicas-Added (set_replicas mine p) mine s.frames (set_replicas-Sendable mine p h) g in
    let q : DataPacket = set_ts added.ts (set_replicas mine p) in
    let s' : Sending = record {
      frames = (add_replicas (set_replicas mine p) mine s.frames).2;
      slots = left;
      packets_wait_ack = wait_ack qos q s.packets_wait_ack;
    } in
    (
      s',
      rw (add_packet_in_frames, split)
          (ap (λ x. some x)
            (sent_to-true qos left (add_replicas (set_replicas mine p) mine s.frames) s q
              added.added added.same)),
      record {
        q = q;
        same = refl;
        sendable = record { some_byte = h.some_byte; fits = h.fits };
        number = len;
        slots = all;
        packets =
            added.packets
            ∙ ap (λ l. all_packets s.frames ++ l)
                (sym (copies-set_ts mine added.ts (set_replicas mine p)));
        waiting = refl;
        good = added.good;
      },
    )
