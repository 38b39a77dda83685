-- ===== src/Saloha/Tal/Taken.antt =====
-- What an acknowledgement takes of the packets that wait.
use opensand.Prelude.{
  ℕ, ◌+◌, ◌≡◌, ◌≢◌, refl, subst, true, false, Option, none, some, List, [], ◌∷◌, ltb, ◌==◌, arith,
  Bool-cases, Option-cases, inl, inr, All,
}
use opensand.Maps.{find, insert, change, total}
use opensand.Maps.Laws.{total-change}
use opensand.Saloha.Packet.{Packet}
use opensand.Saloha.Tal.{DataPacket, Waiting}
use opensand.Saloha.Tal.Acks.{Control, acknowledges, take_acked, waiting_at}
use opensand.Saloha.Tal.Copies.{Sendable}
use opensand.Saloha.Tal.Sends.{heft}
use opensand.Saloha.Tal.Waits.{waiting_heft, AllWaiting}

-- It acknowledges none of the packets.
abbrev pub Free : Control → List DataPacket → Type 0
Free c ps = All (λ p. acknowledges c p ≡ false) ps

-- The packet taken is acknowledged, and was one of them.
pub record Taken (c : Control) (ps left : List DataPacket) : Type 0 where
  pub packet : DataPacket
  pub acked : acknowledges c packet ≡ true
  pub kept : (w : Packet → ℕ) → heft w left + w packet.packet ≡ heft w ps
  pub sendable : All Sendable ps → All Sendable left
  pub part : (d : Control) → Free d ps → Free d left

abbrev pub Took : Control → List DataPacket → Option (List DataPacket) → Type 0
Took c ps none = Free c ps
Took c ps (some left) = Taken c ps left

pub take_acked-Took : (c : Control) (ps : List DataPacket) → Took c ps (take_acked c ps)
unfolding take_acked
take_acked-Took c [] = tt
take_acked-Took c (p ∷ ps) = elim (Bool-cases (acknowledges c p)) [
  | inl a ↦
      rw (take_acked, a)
        record {
          packet = p;
          acked = a;
          kept = λ w. omega arith;
          sendable = λ h. h.1;
          part = λ d h. h.1;
        }
  | inr a ↦ elim (Option-cases (take_acked c ps)) [
    | inl e ↦
        let others = subst (Took c ps) e (take_acked-Took c ps) in rw (take_acked, a, e) (a, others)
    | inr (left, e) ↦
        let ih : Taken c ps left = subst (Took c ps) e (take_acked-Took c ps) in
        rw (take_acked, a, e)
          record {
            packet = ih.packet;
            acked = ih.acked;
            kept = λ w. let others = ih.kept w in omega (arith, others);
            sendable = λ h. (h.0, ih.sendable h.1);
            part = λ d h. (h.0, ih.part d h.1);
          }
  ]
]

pub waiting_heft-insert :
    (w : Packet → ℕ) (qos : ℕ) (m : Waiting) → waiting_heft w (insert qos [] m) ≡ waiting_heft w m
unfolding insert
waiting_heft-insert w qos [] = refl
waiting_heft-insert w qos ((k, ps) ∷ m) =
    let ih = waiting_heft-insert w qos m in
    elim (Bool-cases (k == qos)) [
      | inl e ↦ rw (insert, e) refl
      | inr e ↦ elim (Bool-cases (ltb qos k)) [
        | inl l ↦ rw (insert, e, l) (omega arith)
        | inr l ↦ rw (insert, e, l) (omega (arith, ih))
      ]
    ]

pub insert-AllWaiting : (qos : ℕ) (m : Waiting) → AllWaiting m → AllWaiting (insert qos [] m)
unfolding insert
insert-AllWaiting qos [] h = (tt, tt)
insert-AllWaiting qos ((k, ps) ∷ m) h =
    let ih = insert-AllWaiting qos m h.1 in
    elim (Bool-cases (k == qos)) [
      | inl e ↦ rw (insert, e) h
      | inr e ↦ elim (Bool-cases (ltb qos k)) [
        | inl l ↦ rw (insert, e, l) (tt, h)
        | inr l ↦ rw (insert, e, l) (h.0, ih)
      ]
    ]

waiting_heft-total : (w : Packet → ℕ) (m : Waiting) → waiting_heft w m ≡ total (heft w) m
unfolding total
waiting_heft-total w [] = refl
waiting_heft-total w ((k, ps) ∷ m) = omega (arith, waiting_heft-total w m)

pub find-All :
    (qos : ℕ) (m : Waiting) (ps : List DataPacket)
    → AllWaiting m
    → find qos m ≡ some ps
    → All Sendable ps
unfolding find
find-All qos [] ps h e = absurd cc
find-All qos ((k, qs) ∷ m) ps h e = elim (Bool-cases (k == qos)) [
  | inl l ↦ subst (λ o. elim o [ none ↦ Unit | some x ↦ All Sendable x ]) (rw l at e) h.0
  | inr l ↦ find-All qos m ps h.1 (rw l at e)
]

pub insert-Free :
    (d : Control) (q qos : ℕ) (m : Waiting)
    → Free d (waiting_at q m)
    → Free d (waiting_at q (insert qos [] m))
unfolding waiting_at find insert
insert-Free d q qos [] h = elim (Bool-cases (qos == q)) [
  | inl e ↦ rw (waiting_at, e) tt
  | inr e ↦ rw (waiting_at, e) tt
]
insert-Free d q qos ((k, ps) ∷ m) h = elim (Bool-cases (k == qos)) [
  | inl e ↦ rw (insert, e) h
  | inr e ↦ elim (Bool-cases (ltb qos k)) [
    | inl l ↦ elim (Bool-cases (qos == q)) [
      | inl s ↦ rw (insert, e, l, waiting_at, find, s) tt
      | inr s ↦ rw (insert, e, l, waiting_at, find, s) h
    ]
    | inr l ↦ elim (Bool-cases (k == q)) [
      | inl s ↦ rw (insert, e, l, waiting_at, find, s) (rw (waiting_at, find, s) at h)
      | inr s ↦
          rw (insert, e, l, waiting_at, find, s)
            (insert-Free d q qos m (rw (waiting_at, find, s) at h))
    ]
  ]
]

pub change-Free :
    (d : Control) (q qos : ℕ) (m : Waiting) (ps left : List DataPacket)
    → find qos m ≡ some ps
    → (Free d ps → Free d left)
    → Free d (waiting_at q m)
    → Free d (waiting_at q (change qos (λ qs. left) m))
unfolding waiting_at find change
change-Free d q qos [] ps left f sub h = h
change-Free d q qos ((k, qs) ∷ m) ps left f sub h = elim (Bool-cases (k == qos)) [
  | inl e ↦
      let same : some qs ≡ some ps = rw (find, e) at f in
      elim (Bool-cases (k == q)) [
        | inl s ↦
            let had : Free d ps =
              subst (λ o. elim o [ none ↦ Unit | some x ↦ Free d x ]) same
                (rw (waiting_at, find, s) at h) in
            rw (change, e, waiting_at, find, s) (sub had)
        | inr s ↦ rw (change, e, waiting_at, find, s) (rw (waiting_at, find, s) at h)
      ]
  | inr e ↦ elim (Bool-cases (k == q)) [
    | inl s ↦ rw (change, e, waiting_at, find, s) (rw (waiting_at, find, s) at h)
    | inr s ↦
        rw (change, e, waiting_at, find, s)
          (change-Free d q qos m ps left (rw (find, e) at f) sub (rw (waiting_at, find, s) at h))
  ]
]

pub change-AllWaiting :
    (qos : ℕ) (left : List DataPacket) (m : Waiting)
    → All Sendable left
    → AllWaiting m
    → AllWaiting (change qos (λ ps. left) m)
unfolding change
change-AllWaiting qos left [] h k = tt
change-AllWaiting qos left ((key, ps) ∷ m) h k =
    let ih = change-AllWaiting qos left m h k.1 in
    elim (Bool-cases (key == qos)) [
      | inl e ↦ rw (change, e) (h, k.1)
      | inr e ↦ rw (change, e) (k.0, ih)
    ]

pub waiting_heft-change :
    (w : Packet → ℕ) (qos : ℕ) (left : List DataPacket) (m : Waiting) (ps : List DataPacket)
    → find qos m ≡ some ps
    → waiting_heft w (change qos (λ qs. left) m) + heft w ps ≡ waiting_heft w m + heft w left
waiting_heft-change w qos left m ps f =
    let sums = total-change (heft w) (λ qs. left) qos ps m f in
    let before = waiting_heft-total w m in
    let after = waiting_heft-total w (change qos (λ qs. left) m) in
    omega (arith, sums, before, after)

pub there :
    (c : Control) (m : Waiting) (ps left : List DataPacket)
    → find c.qos m ≡ some ps
    → take_acked c (waiting_at c.qos m) ≡ some left
    → take_acked c ps ≡ some left
unfolding waiting_at
there c m ps left f e =
    subst (λ o. take_acked c (elim o [ none ↦ [] | some x ↦ x ]) ≡ some left) f e

pub nothing_there :
    (c : Control) (m : Waiting) (left : List DataPacket)
    → find c.qos m ≡ none
    → take_acked c (waiting_at c.qos m) ≢ some left
unfolding waiting_at take_acked
nothing_there c m left f e =
    let stuck : none ≡ some left =
      subst (λ o. take_acked c (elim o [ none ↦ [] | some x ↦ x ]) ≡ some left) f e in
    cc
