-- ===== src/Fifo/Dvb/Flow.antt =====
-- What `DvbFifo`'s statistics count, against what is offered to it.
use opensand.Prelude.{ℕ, ◌+◌, ◌≡◌, List, [], ◌∷◌, arith, u16, u32}
use opensand.Fifo.Element.{Element}
use opensand.Fifo.Dvb.{
  DvbFifo, Call, pushes, pushes_front, pushes_back, pops, flushes, resets_new, gets_stats, call,
  run, pop_from,
}

-- The calls that do not reset the statistics.
abbrev pub KeepsStats : Call → Type 0
KeepsStats flushes = ⊥
KeepsStats gets_stats = ⊥
KeepsStats _ = Unit

abbrev pub AllKeepStats : List Call → Type 0
AllKeepStats [] = Unit
AllKeepStats (c ∷ cs) = KeepsStats c × AllKeepStats cs

-- The packets and bytes that a call offers to the FIFO.
abbrev pub offers_pkt : Call → ℕ
offers_pkt (pushes e) = 1
offers_pkt _ = 0

abbrev pub offers_bytes : Call → ℕ
offers_bytes (pushes e) = e.total_length
offers_bytes _ = 0

abbrev pub offered_pkt : List Call → ℕ
offered_pkt [] = 0
offered_pkt (c ∷ cs) = offers_pkt c + offered_pkt cs

abbrev pub offered_bytes : List Call → ℕ
offered_bytes [] = 0
offered_bytes (c ∷ cs) = offers_bytes c + offered_bytes cs

-- What has changed between two states, when `pkts` packets and `size` bytes were offered.
pub record Balanced (f g : DvbFifo) (pkts size : ℕ) : Type 0 where
  pub through :
      u32 (g.stats.in_length_bytes + f.stats.out_length_bytes + f.stats.current_length_bytes)
      ≡ u32 (f.stats.in_length_bytes + g.stats.out_length_bytes + g.stats.current_length_bytes)
  pub packets :
      u16 (g.stats.in_pkt_nbr + g.stats.drop_pkt_nbr)
      ≡ u16 (f.stats.in_pkt_nbr + f.stats.drop_pkt_nbr + pkts)
  pub lengths :
      u32 (g.stats.in_length_bytes + g.stats.drop_bytes)
      ≡ u32 (f.stats.in_length_bytes + f.stats.drop_bytes + size)

pop_from-Balanced : (q : List Element) (f : DvbFifo) → Balanced f (pop_from q f).1 0 0
unfolding pop_from
pop_from-Balanced [] f = omega arith
pop_from-Balanced (e ∷ es) f = omega arith

call-Balanced :
    (f : DvbFifo) (c : Call)
    → KeepsStats c
    → Balanced f (call f c).1 (offers_pkt c) (offers_bytes c)
unfolding call
call-Balanced f (pushes e) k = ground arith
call-Balanced f (pushes_front e) k = ground arith
call-Balanced f (pushes_back e) k = ground arith
call-Balanced f pops k = pop_from-Balanced f.queue f
call-Balanced f flushes k = absurd k
call-Balanced f gets_stats k = absurd k
call-Balanced f (resets_new cr_type) k = ground arith
call-Balanced f _ k = omega arith

-- Over any calls that do not reset the statistics: the bytes that came in are those that went out
-- and those that the occupancy gained; and every packet and byte offered by `push` is counted as
-- accepted or as dropped. The counters wrap, so the equations are modulo their widths.
pub run-Balanced :
    (f : DvbFifo) (cs : List Call)
    → AllKeepStats cs
    → Balanced f (run f cs).1 (offered_pkt cs) (offered_bytes cs)
unfolding run
run-Balanced f [] k = omega arith
run-Balanced f (c ∷ cs) k = omega (arith, call-Balanced f c k.0, run-Balanced (call f c).1 cs k.1)
