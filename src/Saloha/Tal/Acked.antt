-- ===== src/Saloha/Tal/Acked.antt =====
-- What acknowledgements do to the packets of a terminal.
use opensand.Prelude.{
  ℕ, ◌+◌, ◌/◌, min, ◌≤◌, ◌<◌, ◌≡◌, refl, ◌∙◌, subst, true, false, some, List, [], ◌∷◌, ◌++◌, length,
  length-append, none, ◌==◌, ◌&&◌, arith, Bool-cases, Option-cases, inl, inr, All, add16, u16,
}
use opensand.Maps.{find, insert, change}
use opensand.Saloha.Packet.{Packet}
use opensand.Saloha.Backoff.{Kind, beb, eied, mimd, Backoff, randomize, set_ready}
use opensand.Saloha.Tal.{DataPacket, Waiting, SlottedAlohaTal}
use opensand.Saloha.Tal.Acks.{
  Control, acknowledges, take_acked, waiting_at, settle, here_is_ack, converted_qos, on_rcv_frame,
}
use opensand.Saloha.Tal.Sends.{heft}
use opensand.Saloha.Tal.Waits.{heft-append}
use opensand.Saloha.Tal.Delivery.{held, Ready}
use opensand.Saloha.Tal.Taken.{
  Free, Taken, Took, take_acked-Took, insert-Free, change-Free, waiting_heft-insert,
  insert-AllWaiting, find-All, change-AllWaiting, waiting_heft-change, there, nothing_there,
}
use opensand.Saloha.Tal.Settled.{
  is_acknowledged, or_left, or_right, takes_left, Settled, Settled-later, All-both, later,
}

-- A draw gives a backoff unless it divides by zero.
set_ready-some :
    (kind : Kind) (draw : ℕ → ℕ) (b : Backoff)
    → 1 ≤ b.multiple
    → (b' : Backoff) × (set_ready kind draw b ≡ some b') × (b'.multiple ≡ b.multiple)
unfolding set_ready randomize
set_ready-some beb draw b h = (_, refl, refl)
set_ready-some eied draw b h = (_, refl, refl)
set_ready-some mimd draw b h =
    let there : (b.multiple == 0) ≡ false = ground arith in
    (
      randomize draw (record b { cw = u16 (min (b.cw / b.multiple) b.cw_max) }),
      rw (set_ready, there) refl,
      refl,
    )

-- The numbers of an identifier are words of 16 bits.
pub record Narrow (c : Control) : Type 0 where
  pub id : c.id < 65536
  pub seq : c.seq < 65536
  pub pdu_nb : c.pdu_nb < 65536
  pub qos : c.qos < 65536

converted_qos-Narrow : (garbage : ℕ) (c : Control) → Narrow c → converted_qos garbage c ≡ c.qos
unfolding converted_qos
converted_qos-Narrow garbage c n = ground (arith, n.id, n.seq, n.pdu_nb, n.qos)

module _ (object : ℕ → DataPacket) where
  -- What acknowledgements leave: `acked` are the packets that they took.
  pub record Answered (cs : List Control) (tal tal' : SlottedAlohaTal) (acked : List DataPacket)
      : Type 0 where
    pub kept : (w : Packet → ℕ) → held object w tal' + heft w acked ≡ held object w tal
    pub success : tal'.nb_success ≡ u16 (tal.nb_success + length acked)
    pub ready : Ready object tal'
    pub multiple : tal'.backoff.multiple ≡ tal.backoff.multiple
    pub same : tal'.tal_id ≡ tal.tal_id
    pub shrinks :
        (d : Control) (q : ℕ)
        → Free d (waiting_at q tal.packets_wait_ack)
        → Free d (waiting_at q tal'.packets_wait_ack)
    pub settled : All (Settled tal.tal_id tal'.packets_wait_ack acked) cs
    pub acknowledged : All (λ p. is_acknowledged tal.tal_id cs p ≡ true) acked

  -- Without a packet for it, an acknowledgement at most makes room for its quality of service.
  unanswered :
      (draw : ℕ → ℕ) (c : Control) (tal : SlottedAlohaTal)
      → Ready object tal
      → tal.nb_success < 65536
      → take_acked c (waiting_at c.qos (insert c.qos [] tal.packets_wait_ack)) ≡ none
      → (tal' : SlottedAlohaTal) × (acked : List DataPacket) × (settle draw c.qos c tal ≡ some tal')
        × Answered (c ∷ []) tal tal' acked
  unfolding settle waiting_at
  unanswered draw c tal ready word e =
      let waiting : Waiting = insert c.qos [] tal.packets_wait_ack in
      let none_left : Free c (waiting_at c.qos waiting) =
        subst (Took c (waiting_at c.qos waiting)) e
          (take_acked-Took c (waiting_at c.qos waiting)) in
      (
        record tal { packets_wait_ack = waiting },
        [],
        rw (settle, e) refl,
        record {
          kept = λ w.
              let same = waiting_heft-insert w c.qos tal.packets_wait_ack in omega (arith, same);
          success = omega arith;
          ready = record {
            again = ready.again;
            there = ready.there;
            sendable = ready.sendable;
            waiting = insert-AllWaiting c.qos tal.packets_wait_ack ready.waiting;
            queued = ready.queued;
          };
          multiple = refl;
          same = refl;
          shrinks = λ d q h. insert-Free d q c.qos tal.packets_wait_ack h;
          settled = ((λ m. inr none_left), tt);
          acknowledged = tt;
        },
      )

  -- The packet that it is for is taken.
  answered :
      (draw : ℕ → ℕ) (c : Control) (tal : SlottedAlohaTal) (ps left : List DataPacket)
      → Ready object tal
      → 1 ≤ tal.backoff.multiple
      → (c.terminal_id == tal.tal_id && c.is_ack) ≡ true
      → find c.qos (insert c.qos [] tal.packets_wait_ack) ≡ some ps
      → take_acked c (waiting_at c.qos (insert c.qos [] tal.packets_wait_ack)) ≡ some left
      → (tal' : SlottedAlohaTal) × (acked : List DataPacket) × (settle draw c.qos c tal ≡ some tal')
        × Answered (c ∷ []) tal tal' acked
  unfolding settle waiting_at
  answered draw c tal ps left ready pos mine f e =
      let waiting : Waiting = insert c.qos [] tal.packets_wait_ack in
      let all = insert-AllWaiting c.qos tal.packets_wait_ack ready.waiting in
      let taken : Taken c ps left =
        subst (Took c ps) (there c waiting ps left f e) (take_acked-Took c ps) in
      let (backoff, drew, multiple) = set_ready-some tal.backoff.kind draw tal.backoff pos in
      (
        record tal {
          nb_success = add16 tal.nb_success 1;
          backoff = backoff;
          packets_wait_ack = change c.qos (λ qs. left) waiting;
        },
        taken.packet ∷ [],
        rw (settle, e, drew) refl,
        record {
          kept = λ w.
              let same = waiting_heft-insert w c.qos tal.packets_wait_ack in
              let changed = waiting_heft-change w c.qos left waiting ps f in
              let one = taken.kept w in omega (arith, same, changed, one);
          success = refl;
          ready = record {
            again = ready.again;
            there = ready.there;
            sendable = ready.sendable;
            waiting =
                change-AllWaiting c.qos left waiting
                  (taken.sendable (find-All c.qos waiting ps all f)) all;
            queued = ready.queued;
          };
          multiple = multiple;
          same = refl;
          shrinks = λ d q h.
              change-Free d q c.qos waiting ps left f (taken.part d)
                (insert-Free d q c.qos tal.packets_wait_ack h);
          settled = ((λ m. inl (rw taken.acked refl)), tt);
          acknowledged = (rw (mine, taken.acked) refl, tt);
        },
      )

  settle-Answered :
      (draw : ℕ → ℕ) (c : Control) (tal : SlottedAlohaTal)
      → Ready object tal
      → 1 ≤ tal.backoff.multiple
      → tal.nb_success < 65536
      → (c.terminal_id == tal.tal_id && c.is_ack) ≡ true
      → (tal' : SlottedAlohaTal) × (acked : List DataPacket) × (settle draw c.qos c tal ≡ some tal')
        × Answered (c ∷ []) tal tal' acked
  settle-Answered draw c tal ready pos word mine =
      let waiting : Waiting = insert c.qos [] tal.packets_wait_ack in
      elim (Option-cases (take_acked c (waiting_at c.qos waiting))) [
        | inl e ↦ unanswered draw c tal ready word e
        | inr (left, e) ↦ elim (Option-cases (find c.qos waiting)) [
          | inl f ↦ absurd (nothing_there c waiting left f e)
          | inr (ps, f) ↦ answered draw c tal ps left ready pos mine f e
        ]
      ]

  here_is_ack-Answered :
      (draw : ℕ → ℕ) (garbage : ℕ) (c : Control) (tal : SlottedAlohaTal)
      → Ready object tal
      → 1 ≤ tal.backoff.multiple
      → tal.nb_success < 65536
      → Narrow c
      → (c.terminal_id == tal.tal_id && c.is_ack) ≡ true
      → (tal' : SlottedAlohaTal) × (acked : List DataPacket) × (here_is_ack draw garbage c tal
          ≡ some tal')
        × Answered (c ∷ []) tal tal' acked
  unfolding here_is_ack
  here_is_ack-Answered draw garbage c tal ready pos word narrow mine =
      rw (converted_qos-Narrow garbage c narrow) (settle-Answered draw c tal ready pos word mine)

  -- A control packet for another terminal, or of another type.
  passed_over :
      (c : Control) (cs : List Control) (tal tal' : SlottedAlohaTal) (acked : List DataPacket)
      → (c.terminal_id == tal.tal_id && c.is_ack) ≡ false
      → Answered cs tal tal' acked
      → Answered (c ∷ cs) tal tal' acked
  passed_over c cs tal tal' acked e a = record {
    kept = a.kept;
    success = a.success;
    ready = a.ready;
    multiple = a.multiple;
    same = a.same;
    shrinks = a.shrinks;
    settled = ((λ m. absurd cc), a.settled);
    acknowledged =
        later (λ p. is_acknowledged tal.tal_id cs p) (λ p. is_acknowledged tal.tal_id (c ∷ cs) p)
          (λ p h. or_right ((c.terminal_id == tal.tal_id && c.is_ack) && acknowledges c p) _ h)
          acked a.acknowledged;
  }

  both :
      (c : Control) (cs : List Control) (tal tal₁ tal' : SlottedAlohaTal)
      (one acked : List DataPacket)
      → Answered (c ∷ []) tal tal₁ one
      → Answered cs tal₁ tal' acked
      → Answered (c ∷ cs) tal tal' (one ++ acked)
  both c cs tal tal₁ tal' one acked a b = record {
    kept = λ w.
        let here = a.kept w in
        let others = b.kept w in
        let split = heft-append w one acked in omega (arith, here, others, split);
    success =
        let here = a.success in
        let others = b.success in
        let split = length-append one acked in omega (arith, here, others, split);
    ready = b.ready;
    multiple = b.multiple ∙ a.multiple;
    same = b.same ∙ a.same;
    shrinks = λ d q h. b.shrinks d q (a.shrinks d q h);
    settled = (
      (λ m. elim (a.settled.0 m) [
        | inl t ↦ inl (takes_left c one acked t)
        | inr free ↦ inr (b.shrinks c c.qos free)
      ]),
      Settled-later tal.tal_id tal'.packets_wait_ack one acked cs
          (subst (λ i. All (Settled i tal'.packets_wait_ack acked) cs) a.same b.settled),
    );
    acknowledged =
        All-both (λ p. is_acknowledged tal.tal_id (c ∷ cs) p) one acked
          (later (λ p. is_acknowledged tal.tal_id (c ∷ []) p)
            (λ p. is_acknowledged tal.tal_id (c ∷ cs) p)
            (λ p h. or_left ((c.terminal_id == tal.tal_id && c.is_ack) && acknowledges c p) _ h) one
            a.acknowledged)
          (later (λ p. is_acknowledged tal.tal_id cs p) (λ p. is_acknowledged tal.tal_id (c ∷ cs) p)
            (λ p h. or_right ((c.terminal_id == tal.tal_id && c.is_ack) && acknowledges c p) _ h)
            acked
            (subst (λ i. All (λ p. is_acknowledged i cs p ≡ true) acked) a.same b.acknowledged));
  }

  -- Where the backoff can be divided by its factor, no packet that waits is too long or empty, there is
  -- no null pointer, the count of successes is a 16-bit word and so is each number of the identifiers that
  -- are acknowledged, `onRcvFrame` returns, and no packet that waits is too long or empty and there is no
  -- null pointer afterwards. The packets that the terminal holds are those from before without some that
  -- are acknowledged to it, one more success for each. Each acknowledgement for the terminal is of one of
  -- these, or of none that waits with its quality of service.
  pub on_rcv_frame-Answered :
      (draw : ℕ → ℕ → ℕ) (garbage : ℕ → ℕ) (cs : List Control) (tal : SlottedAlohaTal)
      → Ready object tal
      → 1 ≤ tal.backoff.multiple
      → tal.nb_success < 65536
      → All Narrow cs
      → (tal' : SlottedAlohaTal) × (acked : List DataPacket) × (on_rcv_frame draw garbage cs tal
          ≡ some tal')
        × Answered cs tal tal' acked
  unfolding on_rcv_frame
  on_rcv_frame-Answered draw garbage [] tal ready pos word narrow = (
    tal,
    [],
    refl,
    record {
      kept = λ w. omega arith;
      success = omega arith;
      ready = ready;
      multiple = refl;
      same = refl;
      shrinks = λ d q h. h;
      settled = tt;
      acknowledged = tt;
    },
  )
  on_rcv_frame-Answered draw garbage (c ∷ cs) tal ready pos word narrow =
      elim (Bool-cases (c.terminal_id == tal.tal_id && c.is_ack)) [
        | inr e ↦
            let (tal', acked, ran, rest) =
              on_rcv_frame-Answered draw garbage cs tal ready pos word narrow.1 in
            (tal', acked, rw (on_rcv_frame, e) ran, passed_over c cs tal tal' acked e rest)
        | inl e ↦
            let (tal₁, one, ran₁, here) =
              here_is_ack-Answered (draw 0) (garbage 0) c tal ready pos word narrow.0 e in
            let success = here.success in
            let multiple = here.multiple in
            let (tal', acked, ran, rest) =
              on_rcv_frame-Answered (λ k. draw (k + 1)) (λ k. garbage (k + 1)) cs tal₁ here.ready
                (omega (arith, multiple, pos)) (omega (arith, success)) narrow.1 in
            (
              tal',
              one ++ acked,
              rw (on_rcv_frame, e, ran₁) ran,
              both c cs tal tal₁ tal' one acked here rest,
            )
      ]
