-- ===== src/Dama/Agent/Alloc.antt =====
-- What is granted to a terminal, from the plans of the controller to the bits that it may send.
use opensand.Prelude.{
  ℕ, ◌+◌, ◌*◌, ◌<◌, ◌≡◌, refl, sym, ◌∙◌, ap, Bool, true, Option, none, some, List, ==_refl, arith,
  Option-cases, subst, inl, inr, All, length,
}
use opensand.Fmt.{get_definition}
use opensand.Dama.Terminal.{Fmt}
use opensand.Dama.Ttp.{new_ttp, build}
use opensand.Dama.Ttp.Single.{
  Plan, Ranged, add_plans, last_plan, Optional, last_plan-Optional, arrived, get_tp-add_plans,
  built-group_id,
}
use opensand.Dama.Agent.{
  Agent, here_is_sof, process_on_frame_tick, take_plan, take_plans, here_is_ttp,
}

-- The agent after the TTP, the next start of superframe and the next tick.
unfoldable pub next_tick : (ℕ → ℕ) → (Fmt → ℕ → ℕ) → List (ℕ × Fmt) → ℕ → Agent → Bool × Agent
unfolding here_is_sof process_on_frame_tick
next_tick packet_bits remove_fec defs superframe a =
    process_on_frame_tick packet_bits remove_fec defs (here_is_sof superframe a).1

-- What a plan is worth to the terminal, in kbits: nothing where its format is unknown.
unfoldable pub worth : List (ℕ × Fmt) → Option Plan → ℕ
worth defs none = 0
worth defs (some p) = elim (get_definition p.fmt_id defs) [
  | none ↦ 0
  | some def ↦ p.assignment_count
]

-- The format that a plan sets.
unfoldable pub format : ℕ → Option Plan → ℕ
format modcod_id none = modcod_id
format modcod_id (some p) = p.fmt_id

take_plans-arrived :
    (defs : List (ℕ × Fmt)) (a : Agent) (frame : ℕ) (found : Option Plan)
    → Optional Ranged found
    → a.allocated_kb ≡ 0
    → ((take_plans defs (arrived frame found) a).allocated_kb ≡ worth defs found)
      × ((take_plans defs (arrived frame found) a).modcod_id ≡ format a.modcod_id found)
unfolding take_plans take_plan arrived worth format
take_plans-arrived defs a frame none r h = (h, refl)
take_plans-arrived defs a frame (some p) r h =
    let small : p.assignment_count < 65536 = r.assignment_count in
    elim (Option-cases (get_definition p.fmt_id defs)) [
      | inl e ↦ rw (take_plan, worth, e) (h, refl)
      | inr (def, e) ↦ rw (take_plan, worth, e) (omega (arith, h), refl)
    ]

worth-small :
    (defs : List (ℕ × Fmt)) (found : Option Plan) → Optional Ranged found → worth defs found < 65536
unfolding worth
worth-small defs none r = omega arith
worth-small defs (some p) r = elim (Option-cases (get_definition p.fmt_id defs)) [
  | inl e ↦ rw (worth, e) (omega arith)
  | inr (def, e) ↦ rw (worth, e) r.assignment_count
]

next_tick-remaining :
    (packet_bits : ℕ → ℕ) (remove_fec : Fmt → ℕ → ℕ) (defs : List (ℕ × Fmt)) (superframe : ℕ)
    (a : Agent)
    → a.allocated_kb < 65536
    → (next_tick packet_bits remove_fec defs superframe a).1.remaining_allocation_b
      ≡ 1000 * a.allocated_kb
unfolding next_tick here_is_sof process_on_frame_tick
next_tick-remaining packet_bits remove_fec defs superframe a h =
    elim (Option-cases (get_definition a.modcod_id defs)) [
      | inl e ↦ rw (process_on_frame_tick, e) (omega arith)
      | inr (def, e) ↦ rw (process_on_frame_tick, e) (omega arith)
    ]

module _ (packet_bits : ℕ → ℕ) (remove_fec : Fmt → ℕ → ℕ) (defs : List (ℕ × Fmt))
    (garbage sf_id superframe : ℕ) where
  -- What the terminal may send once the TTP is taken in and the next superframe starts.
  pub record Granted (a : Agent) (found : Option Plan) (call : Option (Bool × Agent)) : Type 0 where
    pub agent : Agent
    pub returns : call ≡ some (true, agent)
    pub modcod_id : agent.modcod_id ≡ format a.modcod_id found
    pub volume :
        (next_tick packet_bits remove_fec defs superframe agent).1.remaining_allocation_b
        ≡ 1000 * worth defs found

  -- A terminal takes in the plan that the controller added last for it, and no other: after the next
  -- start of superframe and tick it may send that many kbits, or nothing where it has no plan or the
  -- plan's format is unknown. The message is for its group, its plans are all in one frame, its
  -- fields are in range and its length fits its field.
  pub here_is_ttp-Granted :
      (a : Agent) (frame : ℕ) (ps : List Plan)
      → All Ranged ps
      → 11 + 10 * length ps < 65536
      → frame < 256
      → Granted a
          (last_plan a.tal_id none ps)
          (here_is_ttp defs (build garbage (add_plans frame ps (new_ttp a.group_id sf_id))).1 a)
  unfolding here_is_ttp
  here_is_ttp-Granted a frame ps r h small =
      let found = last_plan a.tal_id none ps in
      let ranged = last_plan-Optional Ranged a.tal_id none ps tt r in
      let cleared : Agent = record a { allocated_kb = 0 } in
      let (amount, modcod) = take_plans-arrived defs cleared frame found ranged refl in
      let read = get_tp-add_plans garbage a.tal_id frame a.group_id sf_id ps r h small in
      record {
        agent = take_plans defs (arrived frame found) cleared;
        returns =
            rw (built-group_id garbage frame a.group_id sf_id ps, ==_refl a.group_id, read) refl;
        modcod_id = modcod;
        volume =
            next_tick-remaining packet_bits remove_fec defs superframe
              (take_plans defs (arrived frame found) cleared)
              (subst (λ n. n < 65536) (sym amount) (worth-small defs found ranged))
            ∙ ap (λ n. 1000 * n) amount;
      }
