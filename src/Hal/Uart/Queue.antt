-- ===== src/Hal/Uart/Queue.antt =====
-- The ring of received bytes is a queue of the newest 320.
use bf_k61_firmware_aura.Prelude.{
  ℕ, suc, ◌+◌, ◌-◌, ◌%◌, ◌≤◌, ◌<◌, ◌≡◌, refl, sym, ap, ap₂, subst, ◌∙◌, List, [], ◌∷◌, ◌++◌, true,
  false, Option, none, some, arith, length, length-set, length-append, drop, get_or, set,
  get_or-set_self, length-replicate, ◌==◌, if◌then◌else◌, Bool-cases, inl, inr,
}
use bf_k61_firmware_aura.Prelude.Window.{
  Apart, window, length-window, window_mod, window_snoc, window-set,
}
use bf_k61_firmware_aura.Hal.Uart.{
  RxRing, rx_ring_cap, new, make_room, push, pop, Status, usart1, take_byte,
}

apart : Apart rx_ring_cap
apart s i k h below = omega arith

-- The bytes in the ring, the oldest first.
unfoldable pub view : RxRing → List ℕ
view r = window 0 rx_ring_cap r.buf r.tail r.len

pub record IsValid (r : RxRing) : Type 0 where
  pub storage : length r.buf ≡ rx_ring_cap
  pub few : r.len ≤ rx_ring_cap
  pub tail_in : r.tail < rx_ring_cap
  pub head_at : r.head ≡ (r.tail + r.len) % rx_ring_cap

pub new-IsValid : IsValid new
unfolding new
new-IsValid = record {
  storage = length-replicate {A = ℕ} rx_ring_cap 0;
  few = omega arith;
  tail_in = omega arith;
  head_at = refl;
}

-- Without its oldest byte.
abbrev dropped : RxRing → RxRing
dropped r = record r { tail = (r.tail + 1) % rx_ring_cap; len = r.len - 1 }

abbrev appended : RxRing → ℕ → RxRing
appended q byte = record q {
  buf = set q.buf q.head byte;
  head = (q.head + 1) % rx_ring_cap;
  len = q.len + 1;
}

dropped-IsValid : (r : RxRing) → 0 < r.len → IsValid r → IsValid (dropped r)
dropped-IsValid r some_byte v = record {
  storage = v.storage;
  few = omega (arith, v.few);
  tail_in = omega arith;
  head_at = omega (arith, v.head_at);
}

view-dropped :
    (r : RxRing) (n : ℕ)
    → r.tail < rx_ring_cap
    → r.len ≡ suc n
    → view r ≡ get_or r.buf r.tail 0 ∷ view (dropped r)
unfolding view window
view-dropped r n low e =
    ap (window 0 rx_ring_cap r.buf r.tail) e
    ∙ ap₂ ◌∷◌
        (ap (λ (k : ℕ). get_or r.buf k 0) {x = r.tail % rx_ring_cap} {y = r.tail} (omega arith))
        (sym (window_mod 0 rx_ring_cap r.buf (suc r.tail) n)
          ∙ ap (λ (t : ℕ). window 0 rx_ring_cap r.buf t n) {x = suc r.tail % rx_ring_cap}
              {y = (r.tail + 1) % rx_ring_cap} (omega arith)
          ∙ ap (window 0 rx_ring_cap r.buf ((r.tail + 1) % rx_ring_cap)) {x = n} {y = r.len - 1}
              (omega arith))

appended-IsValid :
    (q : RxRing) (byte : ℕ) → q.len < rx_ring_cap → IsValid q → IsValid (appended q byte)
appended-IsValid q byte room v = record {
  storage = length-set q.buf q.head byte ∙ v.storage;
  few = omega arith;
  tail_in = v.tail_in;
  head_at = omega (arith, v.head_at);
}

view-appended :
    (q : RxRing) (byte : ℕ)
    → q.len < rx_ring_cap
    → IsValid q
    → view (appended q byte) ≡ view q ++ byte ∷ []
unfolding view
view-appended q byte room v =
    let at = (q.tail + q.len) % rx_ring_cap in
    let buf = set q.buf at byte in
    ap (λ (k : ℕ). window 0 rx_ring_cap (set q.buf k byte) q.tail (q.len + 1)) v.head_at
    ∙ ap (window 0 rx_ring_cap buf q.tail) {x = q.len + 1} {y = suc q.len} (omega arith)
    ∙ window_snoc 0 rx_ring_cap buf q.tail q.len
    ∙ ap₂ (λ (xs : List ℕ) (b : ℕ). xs ++ b ∷ [])
        (window-set 0 rx_ring_cap apart q.buf q.tail q.len q.len byte (omega arith) room)
        (get_or-set_self q.buf at byte 0 (omega (arith, v.storage)))

length-view : (r : RxRing) → length (view r) ≡ r.len
unfolding view
length-view r = length-window 0 rx_ring_cap r.buf r.tail r.len

-- The newest bytes of a series, as many as fit.
unfoldable pub newest : List ℕ → List ℕ
newest xs = drop (length xs - rx_ring_cap) xs

push_full : (r : RxRing) (byte : ℕ) → r.len ≡ rx_ring_cap → push r byte ≡ appended (dropped r) byte
unfolding push make_room
push_full r byte e = let test : (r.len == rx_ring_cap) ≡ true = ground (arith, e) in simp test refl

push_spare : (r : RxRing) (byte : ℕ) → r.len < rx_ring_cap → push r byte ≡ appended r byte
unfolding push make_room
push_spare r byte h =
    let test : (r.len == rx_ring_cap) ≡ false = ground (arith, h) in simp test refl

newest_one_over : (x : ℕ) (xs : List ℕ) → length xs ≡ rx_ring_cap → newest (x ∷ xs) ≡ xs
unfolding newest
newest_one_over x xs e =
    ap (λ (k : ℕ). drop k (x ∷ xs)) {x = length (x ∷ xs) - rx_ring_cap} {y = 1} (omega arith)

newest_all : (xs : List ℕ) → length xs ≤ rx_ring_cap → newest xs ≡ xs
unfolding newest
newest_all xs h = ap (λ (k : ℕ). drop k xs) {x = length xs - rx_ring_cap} {y = 0} (omega arith)

-- What a push is for the queue.
abbrev pub Pushed : RxRing → ℕ → RxRing → Type 0
Pushed r byte q = IsValid q × (view q ≡ newest (view r ++ byte ∷ []))

push-full_lem :
    (r : RxRing) (byte : ℕ)
    → IsValid r
    → r.len ≡ rx_ring_cap
    → Pushed r byte (appended (dropped r) byte)
push-full_lem r byte v e =
    let q-IsValid = dropped-IsValid r (omega arith) v in
    let rest = view (dropped r) ++ byte ∷ [] in
    let split = view-dropped r 319 v.tail_in e in
    (
      appended-IsValid (dropped r) byte (omega arith) q-IsValid,
      view-appended (dropped r) byte (omega arith) q-IsValid
          ∙ sym (
              newest_one_over (get_or r.buf r.tail 0) rest (
                omega
                  (arith, length-append (view (dropped r)) (byte ∷ []), length-view (dropped r))))
          ∙ ap (λ (xs : List ℕ). newest (xs ++ byte ∷ [])) (sym split),
    )

push-spare_lem :
    (r : RxRing) (byte : ℕ) → IsValid r → r.len < rx_ring_cap → Pushed r byte (appended r byte)
push-spare_lem r byte v h = (
  appended-IsValid r byte h v,
  view-appended r byte h v
      ∙ sym (
          newest_all (view r ++ byte ∷ [])
            (omega (arith, length-append (view r) (byte ∷ []), length-view r))),
)

pub push_lem : (r : RxRing) (byte : ℕ) → IsValid r → Pushed r byte (push r byte)
push_lem r byte v = elim (Bool-cases (r.len == rx_ring_cap)) [
  | inl full ↦
      let e : r.len ≡ rx_ring_cap = ground (arith, full) in
      subst (Pushed r byte) (sym (push_full r byte e)) (push-full_lem r byte v e)
  | inr spare ↦
      let h : r.len < rx_ring_cap = ground (arith, spare, v.few) in
      subst (Pushed r byte) (sym (push_spare r byte h)) (push-spare_lem r byte v h)
]

-- The front of a queue, and what is left.
unfoldable pub take_front : List ℕ → List ℕ × Option ℕ
take_front [] = ([], none)
take_front (x ∷ xs) = (xs, some x)

-- What a pop is for the queue.
abbrev pub Popped : RxRing → RxRing × Option ℕ → Type 0
Popped r out = IsValid out.0 × ((view out.0, out.1) ≡ take_front (view r))

pop-empty_lem : (r : RxRing) → IsValid r → r.len ≡ 0 → Popped r (r, none)
unfolding view window take_front
pop-empty_lem r v e =
    let nothing : view r ≡ [] = ap (window 0 rx_ring_cap r.buf r.tail) e in (v, simp nothing refl)

pop-some_lem :
    (r : RxRing) → IsValid r → 0 < r.len → Popped r (dropped r, some (get_or r.buf r.tail 0))
unfolding take_front
pop-some_lem r v h = (
  dropped-IsValid r h v,
  sym (ap take_front (view-dropped r (r.len - 1) v.tail_in (omega arith))),
)

pub pop_lem : (r : RxRing) → IsValid r → Popped r (pop r)
unfolding pop
pop_lem r v = elim (Bool-cases (r.len == 0)) [
  | inl none_left ↦ rw none_left (pop-empty_lem r v (ground (arith, none_left)))
  | inr some_left ↦ rw some_left (pop-some_lem r v (ground (arith, some_left)))
]

-- What happens to the ring: a run of the interrupt handler, or of `take_byte`.
pub data Event : Type 0 where
  interrupt : Status → ℕ → Event
  taken : Event

-- What `take_byte` has answered, in order.
unfoldable pub run : RxRing → List Event → List (Option ℕ)
unfolding usart1 take_byte
run r [] = []
run r (interrupt isr rdr ∷ events) = run (usart1 isr rdr r) events
run r (taken ∷ events) = let after = take_byte r in after.1 ∷ run after.0 events

-- The same of a plain queue, which forgets its oldest bytes when there are more than 320.
unfoldable pub run_queue : List ℕ → List Event → List (Option ℕ)
unfolding newest take_front
run_queue q [] = []
run_queue q (interrupt isr rdr ∷ events) =
    run_queue (if isr.rxne then newest (q ++ rdr % 256 ∷ []) else q) events
run_queue q (taken ∷ events) = let after = take_front q in after.1 ∷ run_queue after.0 events

-- However interrupts and calls of `take_byte` follow on each other, the ring of the driver answers
-- as a queue of the newest 320 bytes does.
pub run-run_queue :
    (r : RxRing) (events : List Event) → IsValid r → run r events ≡ run_queue (view r) events
unfolding run run_queue usart1 take_byte
run-run_queue r [] v = refl
run-run_queue r (interrupt isr rdr ∷ events) v =
    let after = push_lem r (rdr % 256) v in
    elim (Bool-cases isr.rxne) [
      | inl came ↦ rw came (
          run-run_queue (push r (rdr % 256)) events after.0
          ∙ ap (λ (q : List ℕ). run_queue q events) after.1)
      | inr quiet ↦ rw quiet (run-run_queue r events v)
    ]
run-run_queue r (taken ∷ events) v =
    let out = pop_lem r v in
    ap (λ (o : List ℕ × Option ℕ). o.1 ∷ run (pop r).0 events) out.1
    ∙ ap (λ (os : List (Option ℕ)). (take_front (view r)).1 ∷ os)
        (run-run_queue (pop r).0 events out.0
          ∙ ap (λ (o : List ℕ × Option ℕ). run_queue o.0 events) out.1)
