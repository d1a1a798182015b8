-- ===== src/Hal/Uart.antt =====
-- src/hal/uart.rs: the ring of received bytes, between the interrupt handler and `take_byte`.
pub mod Queue
use bf_k61_firmware_aura.Prelude.{
  ℕ, zero, suc, ◌+◌, ◌-◌, ◌%◌, List, [], ◌∷◌, Bool, Option, none, some, get_or, set, replicate,
  ◌==◌, if◌then◌else◌,
}

abbrev pub rx_ring_cap : ℕ
rx_ring_cap = 320

pub record RxRing : Type 0 where
  pub buf : List ℕ
  pub head : ℕ
  pub tail : ℕ
  pub len : ℕ

unfoldable pub new : RxRing
new = record { buf = replicate rx_ring_cap 0; head = 0; tail = 0; len = 0 }

-- The guard of `push`: a full ring gives up its oldest byte.
unfoldable pub make_room : RxRing → RxRing
make_room r =
    if r.len == rx_ring_cap
    then record r { tail = (r.tail + 1) % rx_ring_cap; len = r.len - 1 }
    else r

unfoldable pub push : RxRing → ℕ → RxRing
unfolding make_room
push r byte =
    let q = make_room r in
    record q { buf = set q.buf q.head byte; head = (q.head + 1) % rx_ring_cap; len = q.len + 1 }

unfoldable pub pop : RxRing → RxRing × Option ℕ
pop r = if r.len == 0 then (r, none) else (
  record r { tail = (r.tail + 1) % rx_ring_cap; len = r.len - 1 },
  some (get_or r.buf r.tail 0),
)

-- What the interrupt handler finds in the status register: an overrun, and a received byte.
pub record Status : Type 0 where
  pub ore : Bool
  pub rxne : Bool

-- The handler `USART1`: the overrun flag is cleared in the hardware, and the byte is kept.
unfoldable pub usart1 : Status → ℕ → RxRing → RxRing
unfolding push
usart1 isr rdr r = if isr.rxne then push r (rdr % 256) else r

-- `take_byte`
unfoldable pub take_byte : RxRing → RxRing × Option ℕ
unfolding pop
take_byte r = pop r
