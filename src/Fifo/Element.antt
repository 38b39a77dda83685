-- ===== src/Fifo/Element.antt =====
-- opensand-core/src/common/FifoElement.cpp. The carried container is seen through its total length.
use opensand.Prelude.{ℕ, ◌+◌, ◌≡◌, List, [], ◌∷◌, ◌++◌, arith}

pub record Element : Type 0 where
  pub ident : ℕ
  pub total_length : ℕ
  pub tick_in : ℕ
  pub tick_out : ℕ

-- The bytes of a queue.
unfoldable pub bytes : List Element → ℕ
bytes [] = 0
bytes (e ∷ es) = e.total_length + bytes es

pub bytes-nil : bytes [] ≡ 0
unfolding bytes
bytes-nil = omega arith

pub bytes-cons : (e : Element) (es : List Element) → bytes (e ∷ es) ≡ e.total_length + bytes es
unfolding bytes
bytes-cons e es = omega arith

pub bytes-snoc :
    (es : List Element) (e : Element) → bytes (es ++ e ∷ []) ≡ bytes es + e.total_length
unfolding bytes
bytes-snoc [] e = omega arith
bytes-snoc (x ∷ es) e = omega (arith, bytes-snoc es e)
