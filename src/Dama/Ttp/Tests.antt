-- ===== src/Dama/Ttp/Tests.antt =====
-- The message of one frame, and what goes wrong with a second frame.
use opensand.Prelude.{ℕ, ◌<◌, true, false, some, List, [], ◌∷◌, ◌≡◌, refl, arith}
use opensand.Dama.Ttp.{Ttp, new_ttp, build, get_tp}
use opensand.Dama.Ttp.Single.{Plan, Ranged, add_plans, last_plan, arrived, get_tp-add_plans}

abbrev plan : ℕ → ℕ → ℕ → Plan
plan tal_id count fmt_id = record {
  tal_id = tal_id;
  offset = 0;
  assignment_count = count;
  fmt_id = fmt_id;
  priority = 0;
}

abbrev three : List Plan
three = plan 4 1500 7 ∷ plan 5 20 3 ∷ plan 4 300 9 ∷ []

abbrev of_three : Ttp
of_three = (build 513 (add_plans 0 three (new_ttp 2 40))).1

three-read :
    get_tp 5 of_three
    ≡ some (
      true,
      (0, record { tal_id = 1280; offset = 0; assignment_count = 20; fmt_id = 3; priority = 0 })
          ∷ [],
    )
unfolding get_tp build add_plans new_ttp
three-read = refl

ranged :
    (tal_id count fmt_id : ℕ)
    → tal_id < 65536
    → count < 65536
    → fmt_id < 256
    → Ranged (plan tal_id count fmt_id)
ranged tal_id count fmt_id lt lc lf = record {
  tal_id = lt;
  offset = omega arith;
  assignment_count = lc;
  fmt_id = lf;
  priority = omega arith;
}

get_tp-add_plans_example : get_tp 4 of_three ≡ some (true, arrived 0 (some (plan 4 300 9)))
unfolding last_plan
get_tp-add_plans_example =
    get_tp-add_plans 513 4 0 2 40 three
      (
        ranged 4 1500 7 (omega arith) (omega arith) (omega arith),
        (
          ranged 5 20 3 (omega arith) (omega arith) (omega arith),
          (ranged 4 300 9 (omega arith) (omega arith) (omega arith), tt),
        ),
      )
      (omega arith) (omega arith)

abbrev two_frames : Ttp
two_frames =
    (build 0 (add_plans 1 (plan 5 20 3 ∷ []) (add_plans 0 (plan 4 1500 7 ∷ []) (new_ttp 2 40)))).1

-- The count of the second frame is written over the plan of the first.
two_frames-read : get_tp 4 two_frames ≡ some (false, [])
unfolding get_tp build add_plans new_ttp
two_frames-read = refl
