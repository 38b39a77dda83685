-- ===== src/Saloha/Tal/Expiry.antt =====
-- What becomes of the packets that wait for an acknowledgement when they are in time-out.
use opensand.Prelude.{
  ℕ, zero, suc, ◌+◌, ◌≡◌, refl, sym, ap, ◌∙◌, subst, true, not, some, List, [], ◌∷◌, ◌++◌, map,
  length, length-append, insert_at, ◌==◌, ◌&&◌, if◌then◌else◌, arith, Bool-cases, inl, inr, All,
  ltb,
}
use opensand.Saloha.Packet.{Packet}
use opensand.Saloha.Tal.{
  DataPacket, is_timeout, can_be_retransmitted, try_again, Waiting, SlottedAlohaTal,
}
use opensand.Saloha.Tal.Timeouts.{Collected, timed_out, collect, collect_all}
use opensand.Saloha.Tal.Copies.{Sendable}
use opensand.Saloha.Tal.Sends.{heft}
use opensand.Saloha.Tal.Waits.{waiting_heft, AllWaiting, heft-append}

-- The packets that are given up: in time-out, and sent again as often as allowed.
abbrev pub lost_one : ℕ → DataPacket → List DataPacket
lost_one max p = if p.timeout_saf == 0 && not (ltb p.nb_retransmissions max) then p ∷ [] else []

abbrev pub given_up : ℕ → List DataPacket → List DataPacket
given_up max [] = []
given_up max (p ∷ ps) = lost_one max p ++ given_up max ps

abbrev pub all_given_up : ℕ → Waiting → List DataPacket
all_given_up max [] = []
all_given_up max ((qos, ps) ∷ m) = given_up max ps ++ all_given_up max m

heft-insert_at :
    (w : Packet → ℕ) (n : ℕ) (p : DataPacket) (ps : List DataPacket)
    → heft w (insert_at n p ps) ≡ w p.packet + heft w ps
heft-insert_at w zero p ps = refl
heft-insert_at w (suc n) p [] = refl
heft-insert_at w (suc n) p (q ∷ qs) = omega (arith, heft-insert_at w n p qs)

insert_at-map :
    (n : ℕ) (p : DataPacket) (ps : List DataPacket)
    → insert_at n (some p) (map some ps) ≡ map some (insert_at n p ps)
insert_at-map zero p ps = refl
insert_at-map (suc n) p [] = refl
insert_at-map (suc n) p (q ∷ qs) = ap (λ l. some q ∷ l) (insert_at-map n p qs)

insert_at-All :
    (n : ℕ) (p : DataPacket) (ps : List DataPacket)
    → Sendable p
    → All Sendable ps
    → All Sendable (insert_at n p ps)
insert_at-All zero p ps h k = (h, k)
insert_at-All (suc n) p [] h k = (h, tt)
insert_at-All (suc n) p (q ∷ qs) h k = (k.0, insert_at-All n p qs h k.1)

-- The packets to send again, without a null pointer.
pub record Pointers (c : Collected) : Type 0 where
  pub again : List DataPacket
  pub there : c.retransmission_packets ≡ map some again
  pub sendable : All Sendable again

-- What was looked at, and what of it still waits or is given up.
record Sorted (c : Collected) (old : Pointers c) (looked kept lost : List DataPacket)
    (c' : Collected) : Type 0 where
  pub new : Pointers c'
  pub number : c'.nb_lost ≡ c.nb_lost + length lost
  pub all :
      (w : Packet → ℕ)
      → heft w kept + heft w new.again + heft w lost ≡ heft w looked + heft w old.again

module _ (tal : SlottedAlohaTal) (draw : ℕ → ℕ → ℕ) where
  timed_out-Sorted :
      (p : DataPacket) (c : Collected)
      → (old : Pointers c) → Sendable p
      → (p.timeout_saf == 0) ≡ true
      → Sorted c old (p ∷ []) [] (lost_one tal.nb_max_retransmissions p) (timed_out tal draw p c)
  unfolding timed_out can_be_retransmitted try_again
  timed_out-Sorted p c old h z =
      elim (Bool-cases (ltb p.nb_retransmissions tal.nb_max_retransmissions)) [
        | inl e ↦
            let q : DataPacket = try_again tal.timeout_saf p in
            rw (timed_out, z, e)
              record {
                new = record {
                  again = insert_at c.nb_retransmissions q old.again;
                  there =
                      ap (insert_at c.nb_retransmissions (some q)) old.there
                      ∙ insert_at-map c.nb_retransmissions q old.again;
                  sendable =
                      insert_at-All c.nb_retransmissions q old.again
                        (record { some_byte = h.some_byte; fits = h.fits }) old.sendable;
                };
                number = omega arith;
                all = λ w.
                    let more = heft-insert_at w c.nb_retransmissions q old.again in
                    omega (arith, more);
              }
        | inr e ↦
            rw (timed_out, z, e)
              record {
                new = record { again = old.again; there = old.there; sendable = old.sendable };
                number = omega arith;
                all = λ w. omega arith;
              }
      ]

  collect-out :
      (p : DataPacket) (ps : List DataPacket) (c : Collected)
      → (p.timeout_saf == 0) ≡ true
      → collect tal draw (p ∷ ps) c ≡ collect tal draw ps (timed_out tal draw p c)
  unfolding collect is_timeout
  collect-out p ps c z = rw (collect, z) refl

  collect-Sorted :
      (ps : List DataPacket) (c : Collected)
      → (old : Pointers c) → All Sendable ps
      → Sorted c old ps
          (collect tal draw ps c).0
          (given_up tal.nb_max_retransmissions ps)
          (collect tal draw ps c).1
  unfolding collect is_timeout
  collect-Sorted [] c old h = record { new = old; number = omega arith; all = λ w. omega arith }
  collect-Sorted (p ∷ ps) c old h = elim (Bool-cases (p.timeout_saf == 0)) [
    | inr z ↦
        let rest = collect-Sorted ps c old h.1 in
        rw (collect, z)
          record {
            new = rest.new;
            number = rest.number;
            all = λ w. let others = rest.all w in omega (arith, others);
          }
    | inl z ↦
        let lost : List DataPacket = lost_one tal.nb_max_retransmissions p in
        let one = timed_out-Sorted p c old h.0 z in
        let rest = collect-Sorted ps (timed_out tal draw p c) one.new h.1 in
        let longer = length-append lost (given_up tal.nb_max_retransmissions ps) in
        subst (λ r. Sorted c old (p ∷ ps) r.0 (given_up tal.nb_max_retransmissions (p ∷ ps)) r.1)
          (sym (collect-out p ps c z))
          record {
            new = rest.new;
            number = omega (arith, one.number, rest.number, longer);
            all = λ w.
                let here = one.all w in
                let others = rest.all w in
                let both = heft-append w lost (given_up tal.nb_max_retransmissions ps) in
                omega (arith, here, others, both);
          }
  ]

  pub collect_all-Sorted :
      (m : Waiting) (c : Collected)
      → (old : Pointers c) → AllWaiting m
      → (new : Pointers (collect_all tal draw m c).1) × ((collect_all tal draw m c).1.nb_lost
          ≡ c.nb_lost + length (all_given_up tal.nb_max_retransmissions m))
        × ((w : Packet → ℕ)
            → waiting_heft w (collect_all tal draw m c).0
                + heft w new.again
                + heft w (all_given_up tal.nb_max_retransmissions m)
              ≡ waiting_heft w m + heft w old.again)
  unfolding collect_all
  collect_all-Sorted [] c old h = (old, omega arith, λ w. omega arith)
  collect_all-Sorted ((qos, ps) ∷ m) c old h =
      let lost : List DataPacket = given_up tal.nb_max_retransmissions ps in
      let later : List DataPacket = all_given_up tal.nb_max_retransmissions m in
      let one = collect-Sorted ps c old h.0 in
      let (new, number, all) = collect_all-Sorted m (collect tal draw ps c).1 one.new h.1 in
      let longer = length-append lost later in
      (
        new,
        omega (arith, one.number, number, longer),
        λ w.
            let here = one.all w in
            let others = all w in
            let both = heft-append w lost later in omega (arith, here, others, both),
      )

  collect-All :
      (ps : List DataPacket) (c : Collected)
      → All Sendable ps
      → All Sendable (collect tal draw ps c).0
  unfolding collect is_timeout
  collect-All [] c h = tt
  collect-All (p ∷ ps) c h = elim (Bool-cases (p.timeout_saf == 0)) [
    | inl z ↦
        subst (λ r. All Sendable r.0) (sym (collect-out p ps c z))
          (collect-All ps (timed_out tal draw p c) h.1)
    | inr z ↦ let rest = collect-All ps c h.1 in rw (collect, z) (h.0, rest)
  ]

  pub collect_all-AllWaiting :
      (m : Waiting) (c : Collected) → AllWaiting m → AllWaiting (collect_all tal draw m c).0
  unfolding collect_all
  collect_all-AllWaiting [] c h = tt
  collect_all-AllWaiting ((qos, ps) ∷ m) c h =
      (collect-All ps c h.0, collect_all-AllWaiting m (collect tal draw ps c).1 h.1)
