-- ===== src/Saloha/Backoff.antt =====
-- opensand-core/src/dvb/saloha/SlottedAlohaBackoff.cpp and SlottedAlohaBackoffBeb.cpp,
-- SlottedAlohaBackoffEied.cpp, SlottedAlohaBackoffMimd.cpp: how many slots a terminal waits before it
-- sends. The random draw is a parameter: what `(rand() / (double)RAND_MAX) * cw` is for a window.
pub mod Windows
pub mod Exponential
mod Tests
use opensand.Prelude.{
  ℕ, zero, suc, ◌+◌, ◌-◌, ◌*◌, ◌/◌, Bool, Option, none, some, List, [], ◌∷◌, leb, ltb, ◌==◌, min,
  if◌then◌else◌, u16,
}

pub data Kind : Type 0 where
  beb eied mimd : Kind

-- The fields, and which of the three classes the object has.
pub record Backoff : Type 0 where
  pub kind : Kind
  pub cw_min : ℕ
  pub cw_max : ℕ
  pub cw : ℕ
  pub backoff : ℕ
  pub multiple : ℕ

-- 2 ^ 31
abbrev pub int_limit : ℕ
int_limit = 2147483648

-- `(int)sqrt(n)`: the largest number up to `k` whose square is at most `n`, and that for `n`.
unfoldable pub root_below : ℕ → ℕ → ℕ
root_below n zero = 0
root_below n (suc k) = let below = root_below n k in if leb (suc k * suc k) n then suc k else below

unfoldable pub root : ℕ → ℕ
unfolding root_below
root n = root_below n n

unfoldable pub randomize : (ℕ → ℕ) → Backoff → Backoff
randomize draw b = record b { backoff = u16 (draw b.cw) }

-- `setReady` of each class. `none` is the division by zero.
abbrev pub ready_beb : (ℕ → ℕ) → Backoff → Option Backoff
ready_beb draw b = some (randomize draw (record b { cw = b.cw_min }))

abbrev pub ready_eied : (ℕ → ℕ) → Backoff → Option Backoff
ready_eied draw b =
    some (randomize draw (record b { cw = u16 (min (b.cw * root b.multiple) b.cw_max) }))

abbrev pub ready_mimd : (ℕ → ℕ) → Backoff → Option Backoff
ready_mimd draw b =
    if b.multiple == 0
    then none
    else some (randomize draw (record b { cw = u16 (min (b.cw / b.multiple) b.cw_max) }))

unfoldable pub set_ready : Kind → (ℕ → ℕ) → Backoff → Option Backoff
unfolding randomize root
set_ready beb draw b = ready_beb draw b
set_ready eied draw b = ready_eied draw b
set_ready mimd draw b = ready_mimd draw b

-- `std::min((int)cw * (int)multiple, (int)cw_max)`, stored in 16 bits. The product of two 16-bit words is
-- below 2^32. From 2^31 on it overflows the `int`: it is taken to wrap, so that it is negative, the
-- smaller of the two, and leaves its low 16 bits.
unfoldable pub next_window : ℕ → ℕ → ℕ → ℕ
next_window cw multiple cw_max =
    if ltb (cw * multiple) int_limit then u16 (min (cw * multiple) cw_max) else u16 (cw * multiple)

-- `setCollision`, the same in all three.
unfoldable pub set_collision : (ℕ → ℕ) → Backoff → Backoff
unfolding randomize next_window
set_collision draw b = randomize draw (record b { cw = next_window b.cw b.multiple b.cw_max })

unfoldable pub tick : Backoff → Backoff
tick b = record b { backoff = b.backoff - 1 }

unfoldable pub is_ready : Backoff → Bool
is_ready b = b.backoff == 0

-- The constructors.
unfoldable pub new_backoff : Kind → (ℕ → ℕ) → ℕ → ℕ → Option Backoff
unfolding set_ready
new_backoff kind draw max multiple =
    set_ready kind draw
      (record { kind = kind; cw_min = 1; cw_max = max; cw = 0; backoff = 0; multiple = multiple })

-- A history of calls on an object, each with its draw.
pub data Call : Type 0 where
  ready collision : (ℕ → ℕ) → Call
  ticks : Call

unfoldable pub call : Backoff → Call → Option Backoff
unfolding set_ready set_collision tick
call b (ready draw) = set_ready b.kind draw b
call b (collision draw) = some (set_collision draw b)
call b ticks = some (tick b)

unfoldable pub run : Backoff → List Call → Option Backoff
unfolding call
run b [] = some b
run b (c ∷ cs) = elim (call b c) [ none ↦ none | some b' ↦ run b' cs ]
