-- ===== src/Dama/Ttp/Single.antt =====
-- A message with the plans of one frame, which is what the controller builds, from the calls of
-- `addTimePlan` to the terminal that reads it.
use opensand.Prelude.{
  ℕ, suc, ◌+◌, ◌-◌, ◌*◌, ◌%◌, ◌<◌, ◌≡◌, refl, sym, ◌∙◌, ap, Bool, true, false, Option, none, some,
  List, [], ◌∷◌, ◌++◌, map, append_assoc, append-nil, ◌==◌, ==_refl, ltb_of_le, if◌then◌else◌,
  arith, Bool-cases, inl, inr, All, u8, length,
}
use opensand.Dama.Ttp.{
  Ttp, EmuTp, htons, htonl, new_ttp, push_plan, add_time_plan, build, build_frames, get_tp,
  read_frames, read_header, read_header_here, set_plan, to_host, append_plans, count_plans, byte0,
  byte1,
}
use opensand.Dama.Ttp.Words.{word16_bytes, htons_bound, htonl_bound, htons_swapped, htonl_swapped}
use opensand.Dama.Ttp.Stream.{Words, collect, read_plans-append}

-- What the controller says of a terminal.
pub record Plan : Type 0 where
  pub tal_id : ℕ
  pub offset : ℕ
  pub assignment_count : ℕ
  pub fmt_id : ℕ
  pub priority : ℕ

-- The fields are words of the widths that the code gives them.
pub record Ranged (p : Plan) : Type 0 where
  pub tal_id : p.tal_id < 65536
  pub offset : p.offset < 4294967296
  pub assignment_count : p.assignment_count < 65536
  pub fmt_id : p.fmt_id < 256
  pub priority : p.priority < 256

unfoldable pub add_plans : ℕ → List Plan → Ttp → Ttp
unfolding add_time_plan
add_plans frame [] ttp = ttp
add_plans frame (p ∷ ps) ttp =
    add_plans frame ps
      (add_time_plan frame p.tal_id p.offset p.assignment_count p.fmt_id p.priority ttp).1

-- The plan of a terminal that was added last, after `found`.
unfoldable pub last_plan : ℕ → Option Plan → List Plan → Option Plan
last_plan tal_id found [] = found
last_plan tal_id found (p ∷ ps) = last_plan tal_id (if p.tal_id == tal_id then some p else found) ps

-- The map with the plan that arrives. Its terminal stays in the order of the network.
unfoldable pub arrived : ℕ → Option Plan → List (ℕ × EmuTp)
arrived frame none = []
arrived frame (some p) =
    (
      frame,
      record {
        tal_id = htons p.tal_id;
        offset = p.offset;
        assignment_count = p.assignment_count;
        fmt_id = p.fmt_id;
        priority = p.priority;
      },
    )
    ∷ []

sent : Plan → EmuTp
sent p = record {
  tal_id = htons p.tal_id;
  offset = htonl p.offset;
  assignment_count = htons p.assignment_count;
  fmt_id = u8 p.fmt_id;
  priority = u8 p.priority;
}

sent-Words : (ps : List Plan) → All Words (map sent ps)
unfolding sent
sent-Words [] = tt
sent-Words (p ∷ ps) = (
  record {
    tal_id = htons_bound p.tal_id;
    offset = htonl_bound p.offset;
    assignment_count = htons_bound p.assignment_count;
    fmt_id = omega arith;
    priority = omega arith;
  },
  sent-Words ps,
)

push_plan-again :
    (frame : ℕ) (tp : EmuTp) (tps : List EmuTp)
    → push_plan frame tp ((frame, tps) ∷ []) ≡ (frame, tps ++ tp ∷ []) ∷ []
unfolding push_plan
push_plan-again frame tp tps = rw (==_refl frame) refl

add_plans-frames :
    (frame : ℕ) (ps : List Plan) (tps : List EmuTp) (ttp : Ttp)
    → add_plans frame ps (record ttp { frames = (frame, tps) ∷ [] })
      ≡ record ttp { frames = (frame, tps ++ map sent ps) ∷ [] }
unfolding add_plans add_time_plan sent
add_plans-frames frame [] tps ttp =
    ap (λ l. record ttp { frames = (frame, l) ∷ [] }) (sym (append-nil tps))
add_plans-frames frame (p ∷ ps) tps ttp =
    ap (λ fs. add_plans frame ps (record ttp { frames = fs })) (push_plan-again frame (sent p) tps)
    ∙ add_plans-frames frame ps (tps ++ sent p ∷ []) ttp
    ∙ ap (λ l. record ttp { frames = (frame, l) ∷ [] })
        (append_assoc tps (sent p ∷ []) (map sent ps))

to_host-sent :
    (frame : ℕ) (p : Plan) (found : Option Plan)
    → Ranged p
    → set_plan frame (to_host (sent p)) (arrived frame found) ≡ arrived frame (some p)
unfolding set_plan to_host sent arrived
to_host-sent frame p none r =
    let fmt : p.fmt_id % 256 ≡ p.fmt_id = omega (arith, r.fmt_id) in
    let prio : p.priority % 256 ≡ p.priority = omega (arith, r.priority) in
    rw
      (
        htonl_swapped p.offset r.offset,
        htons_swapped p.assignment_count r.assignment_count,
        fmt,
        prio,
      )
      refl
to_host-sent frame p (some q) r =
    let fmt : p.fmt_id % 256 ≡ p.fmt_id = omega (arith, r.fmt_id) in
    let prio : p.priority % 256 ≡ p.priority = omega (arith, r.priority) in
    rw
      (
        ==_refl frame,
        htonl_swapped p.offset r.offset,
        htons_swapped p.assignment_count r.assignment_count,
        fmt,
        prio,
      )
      refl

choose :
    (frame : ℕ) (p : Plan) (found : Option Plan) (mine : Bool)
    → Ranged p
    → (if mine
        then set_plan frame (to_host (sent p)) (arrived frame found)
        else arrived frame found)
      ≡ arrived frame (if mine then some p else found)
choose frame p found true r = to_host-sent frame p found r
choose frame p found false r = refl

collect-arrived :
    (tal_id frame : ℕ) (ps : List Plan) (found : Option Plan)
    → All Ranged ps
    → collect tal_id frame (map sent ps) (arrived frame found)
      ≡ arrived frame (last_plan tal_id found ps)
unfolding collect last_plan
collect-arrived tal_id frame [] found r = refl
collect-arrived tal_id frame (p ∷ ps) found r =
    let own : htons (sent p).tal_id ≡ p.tal_id = unfold sent in htons_swapped p.tal_id r.0.tal_id in
    ap
      (λ id. collect tal_id frame (map sent ps) (
        if id == tal_id
        then set_plan frame (to_host (sent p)) (arrived frame found)
        else arrived frame found))
      own
    ∙ ap (collect tal_id frame (map sent ps)) (choose frame p found (p.tal_id == tal_id) r.0)
    ∙ collect-arrived tal_id frame ps (if p.tal_id == tal_id then some p else found) r.1

-- The outer loop on a message of one frame, whose length is that of its plans.
read_frames-one :
    (tal_id frame : ℕ) (tps : List EmuTp)
    → All Words tps
    → count_plans tps < 65536
    → read_frames 1 tal_id 0
        (3 + count_plans tps * 10)
        (frame ∷ byte0 (count_plans tps) ∷ byte1 (count_plans tps) ∷ append_plans tps)
        []
      ≡ some (true, collect tal_id frame tps [])
unfolding read_frames collect
read_frames-one tal_id frame tps w h =
    let n = count_plans tps in
    let header : ℕ → List ℕ = λ m. frame ∷ byte0 m ∷ byte1 m ∷ [] in
    rw
      (
        read_frames,
        read_header,
        read_header_here,
        word16_bytes n h,
        ltb_of_le (3 + n * 10) (3 + n * 10) (omega arith),
        read_plans-append tal_id frame (header n) tps [] w,
      )
      refl

-- What the terminal reads of the plans of one frame.
get_tp-build :
    (garbage tal_id frame group_id sf_id : ℕ) (tps : List EmuTp)
    → All Words tps
    → 11 + 10 * count_plans tps < 65536
    → get_tp tal_id
        (build garbage (record (new_ttp group_id sf_id) { frames = (frame, tps) ∷ [] })).1
      ≡ some (true, collect tal_id (u8 frame) tps [])
unfolding get_tp build build_frames new_ttp
get_tp-build garbage tal_id frame group_id sf_id tps w h =
    let n = count_plans tps in
    let len : (11 + 10 * n) % 65536 ≡ 11 + 10 * n = omega arith in
    let left : 11 + 10 * n - 3 - 5 ≡ 3 + n * 10 = omega arith in
    rw (len, ltb_of_le (11 + 10 * n) 8 (omega arith), left)
      (read_frames-one tal_id (u8 frame) tps w (omega arith))

count_plans-map : (ps : List Plan) → count_plans (map sent ps) ≡ length ps
count_plans-map [] = refl
count_plans-map (p ∷ ps) = ap suc (count_plans-map ps)

add_plans-new :
    (frame group_id sf_id : ℕ) (p : Plan) (ps : List Plan)
    → add_plans frame (p ∷ ps) (new_ttp group_id sf_id)
      ≡ record (new_ttp group_id sf_id) { frames = (frame, map sent (p ∷ ps)) ∷ [] }
unfolding add_plans add_time_plan sent push_plan new_ttp
add_plans-new frame group_id sf_id p ps =
    add_plans-frames frame ps (sent p ∷ []) (new_ttp group_id sf_id)

add_plans-group_id :
    (frame : ℕ) (ps : List Plan) (ttp : Ttp) → (add_plans frame ps ttp).group_id ≡ ttp.group_id
unfolding add_plans add_time_plan
add_plans-group_id frame [] ttp = refl
add_plans-group_id frame (p ∷ ps) ttp =
    add_plans-group_id frame ps
      (add_time_plan frame p.tal_id p.offset p.assignment_count p.fmt_id p.priority ttp).1

pub built-group_id :
    (garbage frame group_id sf_id : ℕ) (ps : List Plan)
    → (build garbage (add_plans frame ps (new_ttp group_id sf_id))).1.group_id ≡ group_id
unfolding build new_ttp
built-group_id garbage frame group_id sf_id ps =
    add_plans-group_id frame ps (new_ttp group_id sf_id)

-- From a message whose plans are all added to one frame, each terminal reads exactly the plan that
-- was added last for it; where there is none it reads an empty map, and the result is still `true`.
-- The plans' fields fit the widths of the message, the format id and the priority 8 bits, the frame's
-- number fits 8 bits and the message's length its 16-bit field.
pub get_tp-add_plans :
    (garbage tal_id frame group_id sf_id : ℕ) (ps : List Plan)
    → All Ranged ps
    → 11 + 10 * length ps < 65536
    → frame < 256
    → get_tp tal_id (build garbage (add_plans frame ps (new_ttp group_id sf_id))).1
      ≡ some (true, arrived frame (last_plan tal_id none ps))
get_tp-add_plans garbage tal_id frame group_id sf_id [] r h small =
    unfold get_tp build build_frames new_ttp read_frames add_plans arrived last_plan in refl
get_tp-add_plans garbage tal_id frame group_id sf_id (p ∷ ps) r h small =
    let whole : u8 frame ≡ frame = omega arith in
    let count = count_plans-map (p ∷ ps) in
    let read : collect tal_id frame (map sent (p ∷ ps)) []
        ≡ arrived frame (last_plan tal_id none (p ∷ ps)) =
      unfold arrived in collect-arrived tal_id frame (p ∷ ps) none r in
    ap (λ ttp. get_tp tal_id (build garbage ttp).1) (add_plans-new frame group_id sf_id p ps)
    ∙ get_tp-build garbage tal_id frame group_id sf_id (map sent (p ∷ ps)) (sent-Words (p ∷ ps))
        (omega (arith, count))
    ∙ ap (λ f. some (true, collect tal_id f (map sent (p ∷ ps)) [])) whole
    ∙ ap (λ tps. some (true, tps)) read

module _ (P : Plan → Type 0) where
  abbrev pub Optional : Option Plan → Type 0
  Optional none = Unit
  Optional (some p) = P p

  -- The plan that is found is one of those that were added.
  pub last_plan-Optional :
      (tal_id : ℕ) (found : Option Plan) (ps : List Plan)
      → Optional found
      → All P ps
      → Optional (last_plan tal_id found ps)
  unfolding last_plan
  last_plan-Optional tal_id found [] h v = h
  last_plan-Optional tal_id found (p ∷ ps) h v = elim (Bool-cases (p.tal_id == tal_id)) [
    | inl e ↦ rw e (last_plan-Optional tal_id (some p) ps v.0 v.1)
    | inr e ↦ rw e (last_plan-Optional tal_id found ps h v.1)
  ]
