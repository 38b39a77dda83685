-- ===== src/Saloha/Backoff/Windows.antt =====
-- The contention windows of the three backoff algorithms.
use native.Mathlib.Nat.{zero-mul, zero-div, mul-le-mul_right}
use opensand.Prelude.{
  ℕ, ◌*◌, ◌/◌, ◌≤◌, ◌<◌, ◌≡◌, ◌≢◌, refl, ◌∙◌, true, false, some, List, [], ◌∷◌, ◌==◌, min, u16,
  u16_mod, arith,
}
use opensand.Saloha.Backoff.{
  Kind, beb, eied, mimd, Backoff, root, set_ready, set_collision, tick, is_ready, new_backoff, Call,
  ready, collision, ticks, call, run, randomize, next_window, int_limit,
}

-- A draw from a window is at most the window.
abbrev pub Draws : Call → Type 0
Draws (ready draw) = (cw : ℕ) → draw cw ≤ cw
Draws (collision draw) = (cw : ℕ) → draw cw ≤ cw
Draws ticks = Unit {0}

abbrev pub AllDraw : List Call → Type 0
AllDraw [] = Unit {0}
AllDraw (c ∷ cs) = Draws c × AllDraw cs

-- The invariant of the windows.
pub record Bounded (b : Backoff) : Type 0 where
  pub least : b.cw_min ≡ 1
  pub factor : 1 ≤ b.multiple
  pub room : 1 ≤ b.cw_max
  pub word : b.cw_max < u16_mod
  pub product : b.cw_max * b.multiple < int_limit
  pub window : b.cw ≤ b.cw_max
  pub wait : b.backoff ≤ b.cw_max

set_ready-Bounded :
    (k : Kind) (draw : ℕ → ℕ) (b : Backoff)
    → ((cw : ℕ) → draw cw ≤ cw)
    → Bounded b
    → (c : Backoff) × (set_ready k draw b ≡ some c) × Bounded c × (c.kind ≡ b.kind)
unfolding set_ready randomize
set_ready-Bounded beb draw b d v = (_, refl, ground (arith, d b.cw_min), refl)
set_ready-Bounded eied draw b d v =
    let w : ℕ = u16 (min (b.cw * root b.multiple) b.cw_max) in (_, refl, ground (arith, d w), refl)
set_ready-Bounded mimd draw b d v =
    let w : ℕ = u16 (min (b.cw / b.multiple) b.cw_max) in
    let nonzero : (b.multiple == 0) ≡ false = ground arith in
    (randomize draw (record b { cw = w }), rw nonzero refl, ground (arith, d w), refl)

next_window-bound :
    (cw multiple cw_max : ℕ) → cw * multiple < int_limit → next_window cw multiple cw_max ≤ cw_max
unfolding next_window
next_window-bound cw multiple cw_max h = ground (arith, h)

call-Bounded :
    (b : Backoff) (c : Call)
    → Draws c
    → Bounded b
    → (b' : Backoff) × (call b c ≡ some b') × Bounded b' × (b'.kind ≡ b.kind)
unfolding call set_collision tick randomize
call-Bounded b (ready draw) d v = set_ready-Bounded b.kind draw b d v
call-Bounded b (collision draw) d v =
    let below : b.cw * b.multiple ≤ b.cw_max * b.multiple = mul-le-mul_right b.multiple v.window in
    let bounded = next_window-bound b.cw b.multiple b.cw_max (omega (arith, below, v.product)) in
    let w : ℕ = next_window b.cw b.multiple b.cw_max in
    (_, refl, ground (arith, d w, bounded), refl)
call-Bounded b ticks d v = (_, refl, ground arith, refl)

run-some :
    (b b' : Backoff) (c : Call) (cs : List Call) → call b c ≡ some b' → run b (c ∷ cs) ≡ run b' cs
unfolding run
run-some b b' c cs e = rw (run, e) refl

-- Where a draw from a window is at most the window, the smallest window is 1, the factor and the maximum
-- are at least 1, the maximum is a 16-bit word whose product with the factor fits an `int`, and the window
-- and the wait are at most the maximum, no history of draws, collisions and ticks divides by zero, and all
-- this is so after it.
pub run-Bounded :
    (b : Backoff) (cs : List Call)
    → AllDraw cs
    → Bounded b
    → (b' : Backoff) × (run b cs ≡ some b') × Bounded b'
run-Bounded b [] d v = (b, unfold run in refl, v)
run-Bounded b (c ∷ cs) d v =
    let (b1, e, v1, k) = call-Bounded b c d.0 v in
    let (b2, e2, v2) = run-Bounded b1 cs d.1 v1 in (b2, run-some b b1 c cs e ∙ e2, v2)

-- The window is closed: there is no wait.
pub record Closed (b : Backoff) : Type 0 where
  pub grows : b.kind ≢ beb
  pub factor : 1 ≤ b.multiple
  pub window : b.cw ≡ 0
  pub wait : b.backoff ≡ 0

times-closed : (w r m : ℕ) → w ≡ 0 → u16 (min (w * r) m) ≡ 0
times-closed w r m h = rw h (omega (arith, zero-mul r))

next_window-closed : (w r m : ℕ) → w ≡ 0 → next_window w r m ≡ 0
unfolding next_window
next_window-closed w r m h = rw (h, zero-mul r) (omega arith)

over-closed : (w r m : ℕ) → w ≡ 0 → u16 (min (w / r) m) ≡ 0
over-closed w r m h = rw h (omega (arith, zero-div r))

randomize-Closed :
    (draw : ℕ → ℕ) (b : Backoff) (w : ℕ)
    → ((cw : ℕ) → draw cw ≤ cw)
    → w ≡ 0
    → b.kind ≢ beb
    → 1 ≤ b.multiple
    → Closed (randomize draw (record b { cw = w }))
unfolding randomize
randomize-Closed draw b w d h k f = record {
  grows = k;
  factor = f;
  window = h;
  wait = omega (arith, d w, h);
}

set_ready-Closed :
    (k : Kind) (draw : ℕ → ℕ) (b : Backoff)
    → b.kind ≡ k
    → ((cw : ℕ) → draw cw ≤ cw)
    → Closed b
    → (c : Backoff) × (set_ready k draw b ≡ some c) × Closed c
unfolding set_ready
set_ready-Closed beb draw b e d v = absurd (v.grows e)
set_ready-Closed eied draw b e d v =
    let z = times-closed b.cw (root b.multiple) b.cw_max v.window in
    (_, refl, randomize-Closed draw b _ d z v.grows v.factor)
set_ready-Closed mimd draw b e d v =
    let z = over-closed b.cw b.multiple b.cw_max v.window in
    let nonzero : (b.multiple == 0) ≡ false = ground (arith, v.factor) in
    (_, rw nonzero refl, randomize-Closed draw b _ d z v.grows v.factor)

call-Closed :
    (b : Backoff) (c : Call)
    → Draws c
    → Closed b
    → (b' : Backoff) × (call b c ≡ some b') × Closed b'
unfolding call set_collision tick
call-Closed b (ready draw) d v = set_ready-Closed b.kind draw b refl d v
call-Closed b (collision draw) d v =
    let z = next_window-closed b.cw b.multiple b.cw_max v.window in
    (_, refl, randomize-Closed draw b _ d z v.grows v.factor)
call-Closed b ticks d v = (
  _,
  refl,
  record { grows = v.grows; factor = v.factor; window = v.window; wait = omega (arith, v.wait) },
)

run-Closed :
    (b : Backoff) (cs : List Call)
    → AllDraw cs
    → Closed b
    → (b' : Backoff) × (run b cs ≡ some b') × Closed b'
run-Closed b [] d v = (b, unfold run in refl, v)
run-Closed b (c ∷ cs) d v =
    let (b1, e, v1) = call-Closed b c d.0 v in
    let (b2, e2, v2) = run-Closed b1 cs d.1 v1 in (b2, run-some b b1 c cs e ∙ e2, v2)

-- The object before its constructor draws.
abbrev pub raw : Kind → ℕ → ℕ → Backoff
raw kind max multiple = record {
  kind = kind;
  cw_min = 1;
  cw_max = max;
  cw = 0;
  backoff = 0;
  multiple = multiple;
}

-- The EIED and MIMD backoffs start with the window 0 and only multiply or divide it: after any history
-- of collisions and draws the window is still 0, and the terminal is ready at once.
pub new_backoff-Closed :
    (kind : Kind) (draw : ℕ → ℕ) (max multiple : ℕ) (cs : List Call)
    → kind ≢ beb
    → 1 ≤ multiple
    → AllDraw (ready draw ∷ cs)
    → (b b' : Backoff) × (new_backoff kind draw max multiple ≡ some b)
      × (run b cs ≡ some b')
      × (b'.cw ≡ 0)
      × (is_ready b' ≡ true)
unfolding new_backoff is_ready
new_backoff-Closed kind draw max multiple cs h f d =
    let v : Closed (raw kind max multiple) = record {
      grows = h;
      factor = f;
      window = refl;
      wait = refl;
    } in
    let (b, e, v1) = set_ready-Closed kind draw (raw kind max multiple) refl d.0 v in
    let (b', e', v2) = run-Closed b cs d.1 v1 in (b, b', e, e', v2.window, ground (arith, v2.wait))
