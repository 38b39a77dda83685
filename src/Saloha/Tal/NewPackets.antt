-- ===== src/Saloha/Tal/NewPackets.antt =====
-- What `schedule` sends of the FIFOs, and all that it sends.
use opensand.Prelude.{
  ℕ, ◌+◌, ◌≤◌, ◌<◌, ◌≡◌, refl, sym, ap, ◌∙◌, subst, true, Option, some, List, [], ◌∷◌, ◌++◌, leb,
  length, ◌==◌, arith, Bool-cases, inl, inr, ◌⊎◌, ◌≢◌, max, All, add16, u16,
}
use opensand.Access.{return, saloha, access_eq}
use opensand.Fifo.Element.{Element}
use opensand.Fifo.Dvb.{DvbFifo, current_size, pop, pop_from}
use opensand.Saloha.Packet.{Packet}
use opensand.Saloha.Tal.{DataPacket, Sending}
use opensand.Saloha.Tal.Copies.{Sendable, Good, add_packet_in_frames-Sent}
use opensand.Saloha.Tal.Sends.{
  sent_heft, Progress, still, step-Progress, sent_heft-append, append-Progress, fewer_slots,
  slots_left,
}
use opensand.Saloha.Tal.Schedule.{send_fifo, send_fifos}

module _ (object : ℕ → DataPacket) where
  abbrev pub queue_heft : (Packet → ℕ) → List Element → ℕ
  queue_heft w [] = 0
  queue_heft w (e ∷ es) = w (object e.ident).packet + queue_heft w es

  abbrev pub fifos_heft : (Packet → ℕ) → List (ℕ × DvbFifo) → ℕ
  fifos_heft w [] = 0
  fifos_heft w ((qos, f) ∷ fs) = queue_heft w f.queue + fifos_heft w fs

  module _ (nb_replicas : ℕ) where
    -- A queued packet that a frame can hold, with no more replicas than the terminal sends.
    pub record Queued (e : Element) : Type 0 where
      pub sendable : Sendable (object e.ident)
      pub number : length (object e.ident).replicas ≤ nb_replicas

    -- What is required of the FIFOs in slotted Aloha.
    pub record Aloha (entry : ℕ × DvbFifo) : Type 0 where
      pub word : length entry.1.queue < 65536
      pub queued : access_eq entry.1.access_type (return saloha) ≡ true → All Queued entry.1.queue

-- Nothing is left, or too few slots for a packet.
abbrev pub Idle : ℕ → List Element → ℕ → Type 0
Idle nb_replicas q n = (q ≡ []) ⊎ (n < max 1 nb_replicas)

abbrev pub AllIdle : ℕ → List (ℕ × DvbFifo) → ℕ → Type 0
AllIdle nb_replicas [] n = Unit
AllIdle nb_replicas ((qos, f) ∷ fs) n =
    (access_eq f.access_type (return saloha) ≡ true → Idle nb_replicas f.queue n)
    × AllIdle nb_replicas fs n

Idle-later :
    (nb_replicas : ℕ) (q : List Element) (n n' : ℕ)
    → n' ≤ n
    → Idle nb_replicas q n
    → Idle nb_replicas q n'
Idle-later nb_replicas q n n' h (inl e) = inl e
Idle-later nb_replicas q n n' h (inr l) = inr (omega arith)

no_slots : (nb_replicas : ℕ) (fs : List (ℕ × DvbFifo)) → AllIdle nb_replicas fs 0
no_slots nb_replicas [] = tt
no_slots nb_replicas ((qos, f) ∷ fs) = ((λ a. inr (omega arith)), no_slots nb_replicas fs)

module _ (object : ℕ → DataPacket) (nb_replicas size : ℕ) where
  record Emptied (f : DvbFifo) (q : List Element) (s : Sending) (r : Option (DvbFifo × ℕ × Sending))
      : Type 0 where
    pub left : DvbFifo
    pub used : ℕ
    pub after : Sending
    pub sent : List (ℕ × DataPacket)
    pub ran : r ≡ some (left, used, after)
    pub progress : Progress sent s after
    pub room : used + length after.slots ≡ size
    pub access : left.access_type ≡ f.access_type
    pub idle : Idle nb_replicas left.queue (length after.slots)
    pub shorter : length left.queue ≤ length q
    pub queued : All (Queued object nb_replicas) left.queue
    pub all :
        (w : Packet → ℕ) → sent_heft w sent + queue_heft object w left.queue ≡ queue_heft object w q

  stopped :
      (q : List Element) (f : DvbFifo) (used : ℕ) (s : Sending)
      → f.queue ≡ q
      → All (Queued object nb_replicas) q
      → Good s.frames
      → used + length s.slots ≡ size
      → Idle nb_replicas q (length s.slots)
      → Emptied f q s (some (f, used, s))
  stopped q f used s e k g room idle = record {
    left = f;
    used = used;
    after = s;
    sent = [];
    ran = refl;
    progress = still s g;
    room = room;
    access = refl;
    idle = subst (λ l. Idle nb_replicas l (length s.slots)) (sym e) idle;
    shorter = let same = ap length e in omega (arith, same);
    queued = subst (All (Queued object nb_replicas)) (sym e) k;
    all = λ w. let same = ap (queue_heft object w) e in omega (arith, same);
  }

  popped :
      (e : Element) (es : List Element) (f : DvbFifo)
      → f.queue ≡ e ∷ es
      → ((pop f).0 ≡ some e) × ((pop f).1.queue ≡ es) × ((pop f).1.access_type ≡ f.access_type)
  unfolding pop pop_from
  popped e es f h = rw h (refl, refl, refl)

  not_empty :
      (e : Element) (es : List Element) (f : DvbFifo)
      → length (e ∷ es) < 65536
      → f.queue ≡ e ∷ es
      → (current_size f == 0) ≢ true
  unfolding current_size
  not_empty e es f word h z = let len = ap length h in ground (arith, len)

  send_fifo-Emptied :
      (qos : ℕ) (q : List Element) (f : DvbFifo) (used : ℕ) (s : Sending)
      → size < 65536
      → length q < 65536
      → f.queue ≡ q
      → All (Queued object nb_replicas) q
      → Good s.frames
      → used + length s.slots ≡ size
      → Emptied f q s (send_fifo object nb_replicas size (length q) qos f used s)
  unfolding send_fifo
  send_fifo-Emptied qos [] f used s small word h k g room =
      stopped [] f used s h k g room (inl refl)
  send_fifo-Emptied qos (e ∷ es) f used s small word h k g room =
      elim (Bool-cases (current_size f == 0)) [
        | inl z ↦ absurd (not_empty e es f word h z)
        | inr z ↦ elim (Bool-cases (leb (used + nb_replicas) size)) [
          | inr l ↦ rw (send_fifo, z, l) (stopped (e ∷ es) f used s h k g room (inr (ground arith)))
          | inl l ↦
              let (taken, left, access) = popped e es f h in
              let p : DataPacket = object e.ident in
              let number = k.0.number in
              let (s', ran, one) =
                add_packet_in_frames-Sent p qos s k.0.sendable g (ground arith) in
              let rest =
                send_fifo-Emptied qos es (pop f).1 (add16 used (u16 (length p.replicas))) s' small
                  (omega arith) left k.1 one.good
                  (slots_left p qos size used s s' one small room) in
              record {
                left = rest.left;
                used = rest.used;
                after = rest.after;
                sent = (qos, one.q) ∷ rest.sent;
                ran = rw (send_fifo, z, l, taken, ran) rest.ran;
                progress = step-Progress p qos rest.sent s s' rest.after one rest.progress;
                room = rest.room;
                access = rest.access ∙ access;
                idle = rest.idle;
                shorter = omega (arith, rest.shorter);
                queued = rest.queued;
                all = λ w.
                    let same = ap w one.same in
                    let others = rest.all w in omega (arith, same, others);
              }
        ]
      ]

  pub record Served (fs : List (ℕ × DvbFifo)) (s : Sending)
      (r : Option (List (ℕ × DvbFifo) × Sending)) : Type 0 where
    pub left : List (ℕ × DvbFifo)
    pub after : Sending
    pub sent : List (ℕ × DataPacket)
    pub ran : r ≡ some (left, after)
    pub progress : Progress sent s after
    pub queued : All (Aloha object nb_replicas) left
    pub idle : AllIdle nb_replicas left (length after.slots)
    pub all :
        (w : Packet → ℕ) → sent_heft w sent + fifos_heft object w left ≡ fifos_heft object w fs

  pub send_fifos-Served :
      (fs : List (ℕ × DvbFifo)) (used : ℕ) (s : Sending)
      → size < 65536
      → All (Aloha object nb_replicas) fs
      → Good s.frames
      → used + length s.slots ≡ size
      → Served fs s (send_fifos object nb_replicas size fs used s)
  unfolding send_fifos
  send_fifos-Served [] used s small h g room = record {
    left = [];
    after = s;
    sent = [];
    ran = refl;
    progress = still s g;
    queued = tt;
    idle = tt;
    all = λ w. refl;
  }
  send_fifos-Served ((qos, f) ∷ fs) used s small h g room = elim (Bool-cases (leb size used)) [
    | inl e ↦ record {
      left = (qos, f) ∷ fs;
      after = s;
      sent = [];
      ran = rw (send_fifos, e) refl;
      progress = still s g;
      queued = h;
      idle =
          subst (AllIdle nb_replicas ((qos, f) ∷ fs)) (ground arith)
            (no_slots nb_replicas ((qos, f) ∷ fs));
      all = λ w. omega arith;
    }
    | inr e ↦ elim (Bool-cases (access_eq f.access_type (return saloha))) [
      | inr a ↦
          let rest = send_fifos-Served fs used s small h.1 g room in
          record {
            left = (qos, f) ∷ rest.left;
            after = rest.after;
            sent = rest.sent;
            ran = rw (send_fifos, e, a, rest.ran) refl;
            progress = rest.progress;
            queued = (h.0, rest.queued);
            idle = ((λ a'. absurd cc), rest.idle);
            all = λ w. let others = rest.all w in omega (arith, others);
          }
      | inl a ↦
          let one =
            send_fifo-Emptied qos f.queue f used s small h.0.word refl (h.0.queued a) g room in
          let rest = send_fifos-Served fs one.used one.after small h.1 one.progress.good one.room in
          record {
            left = (qos, one.left) ∷ rest.left;
            after = rest.after;
            sent = one.sent ++ rest.sent;
            ran = rw (send_fifos, e, a, one.ran, rest.ran) refl;
            progress =
                append-Progress one.sent rest.sent s one.after rest.after one.progress
                  rest.progress;
            queued = (
              record { word = omega (arith, one.shorter, h.0.word); queued = λ e'. one.queued },
              rest.queued,
            );
            idle = (
              (λ a'.
                  Idle-later nb_replicas one.left.queue (length one.after.slots)
                    (length rest.after.slots)
                    (fewer_slots rest.sent one.after rest.after rest.progress) one.idle),
              rest.idle,
            );
            all = λ w.
                let here = one.all w in
                let others = rest.all w in
                let both = sent_heft-append w one.sent rest.sent in
                omega (arith, here, others, both);
          }
    ]
  ]
