-- ===== src/Dama/Ttp/Stream.antt =====
-- Reading and writing a plan at the address where its bytes stand, and the loop over the plans of a
-- frame.
use opensand.Prelude.{
  ℕ, suc, ◌+◌, ◌<◌, ◌≡◌, refl, sym, ◌∙◌, ap, ap₂, some, List, [], ◌∷◌, ◌++◌, append_assoc, length,
  length-append, drop-append, ◌==◌, if◌then◌else◌, Bool-cases, inl, inr, All, arith,
}
use opensand.Dama.Ttp.{
  EmuTp, byte0, byte1, byte2, byte3, word16, word32, htons, tp_bytes, append_plans, count_plans,
  read_tp, read_tp_here, write, write_here, to_host, set_plan, read_plans,
}
use opensand.Dama.Ttp.Words.{word16_bytes, word32_bytes, htons_bound, htonl_bound}

-- The fields are words of their widths.
pub record Words (tp : EmuTp) : Type 0 where
  pub tal_id : tp.tal_id < 65536
  pub offset : tp.offset < 4294967296
  pub assignment_count : tp.assignment_count < 65536
  pub fmt_id : tp.fmt_id < 256
  pub priority : tp.priority < 256

pub to_host-Words : (tp : EmuTp) → Words tp → Words (to_host tp)
unfolding to_host
to_host-Words tp w = record {
  tal_id = w.tal_id;
  offset = htonl_bound tp.offset;
  assignment_count = htons_bound tp.assignment_count;
  fmt_id = w.fmt_id;
  priority = w.priority;
}

-- What the bytes of a plan are read as.
read_back :
    (tp : EmuTp)
    → Words tp
    → record {
      tal_id = word16 (byte0 tp.tal_id) (byte1 tp.tal_id);
      offset = word32 (byte0 tp.offset) (byte1 tp.offset) (byte2 tp.offset) (byte3 tp.offset);
      assignment_count = word16 (byte0 tp.assignment_count) (byte1 tp.assignment_count);
      fmt_id = byte0 tp.fmt_id;
      priority = byte0 tp.priority;
    }
      ≡ tp
read_back tp w =
    let fmt : byte0 tp.fmt_id ≡ tp.fmt_id = omega (arith, w.fmt_id) in
    let prio : byte0 tp.priority ≡ tp.priority = omega (arith, w.priority) in
    λ i. record tp {
      tal_id = word16_bytes tp.tal_id w.tal_id i;
      offset = word32_bytes tp.offset w.offset i;
      assignment_count = word16_bytes tp.assignment_count w.assignment_count i;
      fmt_id = fmt i;
      priority = prio i;
    }

pub read_tp-append :
    (pre : List ℕ) (tp : EmuTp) (post : List ℕ)
    → Words tp
    → read_tp (length pre) (pre ++ (tp_bytes tp ++ post)) ≡ some tp
unfolding read_tp read_tp_here tp_bytes
read_tp-append pre tp post w =
    ap read_tp_here (drop-append pre (tp_bytes tp ++ post)) ∙ ap some (read_back tp w)

pub write-append :
    (pre : List ℕ) (old new : EmuTp) (post : List ℕ)
    → write (length pre) (tp_bytes new) (pre ++ (tp_bytes old ++ post))
      ≡ pre ++ (tp_bytes new ++ post)
unfolding write write_here tp_bytes
write-append [] old new post = refl
write-append (x ∷ xs) old new post = ap (λ ys. x ∷ ys) (write-append xs old new post)

-- The message after the plans of a terminal are swapped, and the map that they leave.
unfoldable pub swap_mine : ℕ → EmuTp → EmuTp
swap_mine tal_id tp = if htons tp.tal_id == tal_id then to_host tp else tp

unfoldable pub collect : ℕ → ℕ → List EmuTp → List (ℕ × EmuTp) → List (ℕ × EmuTp)
collect tal_id frame [] acc = acc
collect tal_id frame (tp ∷ tps) acc =
    collect tal_id frame tps
      (if htons tp.tal_id == tal_id then set_plan frame (to_host tp) acc else acc)

unfoldable pub swap_all : ℕ → List EmuTp → List EmuTp
unfolding swap_mine
swap_all tal_id [] = []
swap_all tal_id (tp ∷ tps) = swap_mine tal_id tp ∷ swap_all tal_id tps

module _ (tal_id frame : ℕ) where
  -- One round of the inner loop, at the first byte of a plan.
  read_plans-round :
      (n : ℕ) (pre : List ℕ) (tp : EmuTp) (post : List ℕ) (acc : List (ℕ × EmuTp))
      → Words tp
      → read_plans (suc n) tal_id frame (length pre) (pre ++ (tp_bytes tp ++ post)) acc
        ≡ read_plans n tal_id frame
            (length pre + 10)
            (pre ++ (tp_bytes (swap_mine tal_id tp) ++ post))
            (if htons tp.tal_id == tal_id then set_plan frame (to_host tp) acc else acc)
  unfolding read_plans swap_mine
  read_plans-round n pre tp post acc w =
      rw (read_plans, read_tp-append pre tp post w)
        (elim (Bool-cases (htons tp.tal_id == tal_id)) [
          | inl mine ↦ rw (mine, write-append pre tp (to_host tp) post) refl
          | inr other ↦ rw other refl
        ])

  -- The inner loop at the first byte of the plans.
  pub read_plans-append :
      (pre : List ℕ) (tps : List EmuTp) (acc : List (ℕ × EmuTp))
      → All Words tps
      → read_plans (count_plans tps) tal_id frame (length pre) (pre ++ append_plans tps) acc
        ≡ some (pre ++ append_plans (swap_all tal_id tps), collect tal_id frame tps acc)
  unfolding append_plans swap_all collect tp_bytes
  read_plans-append pre [] acc w = unfold read_plans in refl
  read_plans-append pre (tp ∷ tps) acc w =
      let acc' = if htons tp.tal_id == tal_id then set_plan frame (to_host tp) acc else acc in
      let tp' = swap_mine tal_id tp in
      let first = read_plans-round (count_plans tps) pre tp (append_plans tps) acc w.0 in
      let rest = read_plans-append (pre ++ tp_bytes tp') tps acc' w.1 in
      let apart = append_assoc pre (tp_bytes tp') in
      first
      ∙ ap₂ (λ i memory. read_plans (count_plans tps) tal_id frame i memory acc')
          (sym (length-append pre (tp_bytes tp'))) (sym (apart (append_plans tps)))
      ∙ rest
      ∙ ap (λ memory. some (memory, collect tal_id frame tps acc'))
          (apart (append_plans (swap_all tal_id tps)))
