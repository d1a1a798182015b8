-- ===== src/Cps/Frame/Valid.antt =====
-- The reader's invariant, and that a started frame ends.
use bf_k61_firmware_aura.Prelude.{
  ℕ, ◌+◌, ◌-◌, ◌≤◌, ◌<◌, ◌≡◌, ◌≢◌, refl, subst, ◌⊎◌, inl, inr, suc, List, [], ◌∷◌, arith, All,
  All-set, length, length-set, take,
}
use bf_k61_firmware_aura.Prelude.Bits.{bit_or-lt}
use bf_k61_firmware_aura.Crc.{IsByte, IsU16}
use bf_k61_firmware_aura.Cps.Frame.{State, FrameReader, max_data, feed_at, feed, run}

-- What the state says of the counters: inside the data the next index is below the length, and
-- the length fits the buffer from then on.
abbrev pub Fits : State → ℕ → ℕ → Type 0
Fits State.payload len idx = (idx < len) × (len ≤ max_data)
Fits State.crc_hi len idx = len ≤ max_data
Fits State.crc_lo len idx = len ≤ max_data
Fits State.len_lo len idx = IsU16 len
Fits _ len idx = Unit

pub record IsValid (r : FrameReader) : Type 0 where
  pub room : length r.payload ≡ max_data
  pub cmd_byte : IsByte r.cmd
  pub addr_word : IsU16 r.addr
  pub crc_byte : IsByte r.crc_hi
  pub payload_bytes : All IsByte r.payload
  pub fits : Fits r.state r.len r.idx

feed_at-IsValid :
    (s : State) (r : FrameReader) (b : ℕ)
    → r.state ≡ s
    → IsByte b
    → IsValid r
    → IsValid (feed_at s r b).0
unfolding feed_at
feed_at-IsValid State.header r b e hb v = ground arith
feed_at-IsValid State.cmd r b e hb v = ground arith
feed_at-IsValid State.addr_hi r b e hb v = ground arith
feed_at-IsValid State.addr_lo r b e hb v = ground (arith, bit_or-lt 16 r.addr b)
feed_at-IsValid State.len_hi r b e hb v = ground arith
feed_at-IsValid State.len_lo r b e hb v = ground arith
feed_at-IsValid State.payload r b e hb v =
    ground
      (arith, length-set r.payload r.idx b, All-set IsByte r.payload r.idx b hb v.payload_bytes)
feed_at-IsValid State.crc_hi r b e hb v = ground arith
feed_at-IsValid State.crc_lo r b e hb v = ground arith

-- `feed` keeps the invariant, whatever byte comes in.
pub feed-IsValid : (r : FrameReader) (b : ℕ) → IsByte b → IsValid r → IsValid (feed r b).0
unfolding feed
feed-IsValid r b hb v = feed_at-IsValid r.state r b refl hb v

pub run-IsValid :
    (r : FrameReader) (bytes : List ℕ) → All IsByte bytes → IsValid r → IsValid (run r bytes).0
unfolding run
run-IsValid r [] h v = v
run-IsValid r (b ∷ bytes) h v = run-IsValid (feed r b).0 bytes h.1 (feed-IsValid r b h.0 v)

-- In a valid reader the write `data[idx]` and the slice `data[..len]` stay in the buffer.
pub in_bounds :
    (r : FrameReader)
    → IsValid r
    → (r.state ≡ State.payload → r.idx < length r.payload)
      × (r.state ≡ State.crc_lo → r.len ≤ length r.payload)
in_bounds r v = (
  λ e.
      let f : Fits State.payload r.len r.idx = subst (λ s. Fits s r.len r.idx) e v.fits in
      omega (arith, v.room),
  λ e.
      let f : Fits State.crc_lo r.len r.idx = subst (λ s. Fits s r.len r.idx) e v.fits in
      omega (arith, v.room),
)

-- How many more bytes a frame that was begun can take at most.
abbrev pub remaining : State → ℕ → ℕ → ℕ
remaining State.header len idx = 0
remaining State.cmd len idx = 103
remaining State.addr_hi len idx = 102
remaining State.addr_lo len idx = 101
remaining State.len_hi len idx = 100
remaining State.len_lo len idx = 99
remaining State.payload len idx = 2 + (len - idx)
remaining State.crc_hi len idx = 2
remaining State.crc_lo len idx = 1

abbrev pub bytes_left : FrameReader → ℕ
bytes_left r = remaining r.state r.len r.idx

feed_at_progress :
    (s : State) (r : FrameReader) (b : ℕ)
    → r.state ≡ s
    → Fits s r.len r.idx
    → s ≢ State.header
    → bytes_left (feed_at s r b).0 < remaining s r.len r.idx
unfolding feed_at
feed_at_progress State.header r b e v ne = absurd (ne refl)
feed_at_progress State.cmd r b e v ne = omega arith
feed_at_progress State.addr_hi r b e v ne = omega arith
feed_at_progress State.addr_lo r b e v ne = omega arith
feed_at_progress State.len_hi r b e v ne = omega arith
feed_at_progress State.len_lo r b e v ne = ground arith
feed_at_progress State.payload r b e v ne = ground arith
feed_at_progress State.crc_hi r b e v ne = omega arith
feed_at_progress State.crc_lo r b e v ne = omega arith

State-cases : (s : State) → (s ≡ State.header) ⊎ (s ≢ State.header)
State-cases State.header = inl refl
State-cases State.cmd = inr (λ e. cc)
State-cases State.addr_hi = inr (λ e. cc)
State-cases State.addr_lo = inr (λ e. cc)
State-cases State.len_hi = inr (λ e. cc)
State-cases State.len_lo = inr (λ e. cc)
State-cases State.payload = inr (λ e. cc)
State-cases State.crc_hi = inr (λ e. cc)
State-cases State.crc_lo = inr (λ e. cc)

remaining-le : (s : State) (len idx : ℕ) → Fits s len idx → remaining s len idx ≤ 103
remaining-le State.header len idx v = omega arith
remaining-le State.cmd len idx v = omega arith
remaining-le State.addr_hi len idx v = omega arith
remaining-le State.addr_lo len idx v = omega arith
remaining-le State.len_hi len idx v = omega arith
remaining-le State.len_lo len idx v = omega arith
remaining-le State.payload len idx v = omega arith
remaining-le State.crc_hi len idx v = omega arith
remaining-le State.crc_lo len idx v = omega arith

resync_within :
    (r : FrameReader) (bytes : List ℕ)
    → IsValid r
    → All IsByte bytes
    → bytes_left r ≤ length bytes
    → (n : ℕ) × (n ≤ bytes_left r) × ((run r (take n bytes)).0.state ≡ State.header)
unfolding run
resync_within r [] v h room = elim (State-cases r.state) [
  | inl e ↦ (0, omega arith, e)
  | inr ne ↦ absurd (omega (arith, feed_at_progress r.state r 0 refl v.fits ne))
]
resync_within r (b ∷ bytes) v h room = elim (State-cases r.state) [
  | inl e ↦ (0, omega arith, e)
  | inr ne ↦
      let less : bytes_left (feed r b).0 < bytes_left r =
        unfold feed in feed_at_progress r.state r b refl v.fits ne in
      let (n, fits, back) =
        resync_within (feed r b).0 bytes (feed-IsValid r b h.0 v) h.1 (omega arith) in
      (suc n, omega arith, back)
]

-- However a reader got where it is, among the next 103 bytes there is a point at which it waits
-- for a header again: no input makes it hang inside a frame.
pub resync :
    (r : FrameReader) (bytes : List ℕ)
    → IsValid r
    → All IsByte bytes
    → length bytes ≡ 103
    → (n : ℕ) × (n ≤ 103) × ((run r (take n bytes)).0.state ≡ State.header)
resync r bytes v h l =
    let most : bytes_left r ≤ 103 = remaining-le r.state r.len r.idx v.fits in
    let (n, few, back) = resync_within r bytes v h (omega arith) in (n, omega arith, back)
