-- ===== src/Cps/Frame/Begun.antt =====
-- The bytes of the frame that a reader is in.
use bf_k61_firmware_aura.Prelude.{
  ℕ, suc, ◌+◌, ◌*◌, ◌/◌, ◌%◌, ◌^◌, ◌<◌, ◌≡◌, refl, sym, ap, ap₂, subst, ◌∙◌, ◌⊎◌, inl, inr, bit_or,
  List, [], ◌∷◌, ◌++◌, arith, length, set, take, take-set, ◌==◌, ==_iff, ltb, Bool-cases,
}
use mathlib.Core.List.{append_assoc}
use bf_k61_firmware_aura.Prelude.Bits.{bit_or_fields}
use bf_k61_firmware_aura.Crc.{IsByte}
use bf_k61_firmware_aura.Cps.Frame.{
  State, FrameReader, header_byte, max_data, feed_len_lo, feed_payload, feed_crc_lo, feed_at,
}
use bf_k61_firmware_aura.Cps.Frame.Valid.{Fits}

-- The fields in front of the data.
abbrev pub front : FrameReader → List ℕ
front r = header_byte ∷ r.cmd ∷ r.addr / 256 ∷ r.addr % 256 ∷ r.len / 256 ∷ r.len % 256 ∷ []

-- The bytes of the frame that a reader is in, as far as they have come in.
abbrev pub begun : State → FrameReader → List ℕ
begun State.header r = []
begun State.cmd r = header_byte ∷ []
begun State.addr_hi r = header_byte ∷ r.cmd ∷ []
begun State.addr_lo r = header_byte ∷ r.cmd ∷ r.addr / 256 ∷ []
begun State.len_hi r = header_byte ∷ r.cmd ∷ r.addr / 256 ∷ r.addr % 256 ∷ []
begun State.len_lo r = header_byte ∷ r.cmd ∷ r.addr / 256 ∷ r.addr % 256 ∷ r.len / 256 ∷ []
begun State.payload r = front r ++ take r.idx r.payload
begun State.crc_hi r = front r ++ take r.len r.payload
begun State.crc_lo r = front r ++ (take r.len r.payload ++ r.crc_hi ∷ [])

-- The low byte of a word is clear while only its high byte has come in.
abbrev pub Clear : State → FrameReader → Type 0
Clear State.addr_lo r = r.addr % 256 ≡ 0
Clear State.len_lo r = r.len % 256 ≡ 0
Clear _ r = Unit

pub feed_at-Clear :
    (s : State) (r : FrameReader) (b : ℕ)
    → r.state ≡ s
    → Clear (feed_at s r b).0.state (feed_at s r b).0
unfolding feed_at feed_len_lo feed_payload feed_crc_lo
feed_at-Clear State.header r b e = elim (Bool-cases (b == header_byte)) [
  | inl is_header ↦ rw is_header tt
  | inr noise ↦ rw noise (subst (λ s. Clear s r) (sym e) tt)
]
feed_at-Clear State.cmd r b e = tt
feed_at-Clear State.addr_hi r b e = omega arith
feed_at-Clear State.addr_lo r b e = tt
feed_at-Clear State.len_hi r b e = omega arith
feed_at-Clear State.len_lo r b e = ground arith
feed_at-Clear State.payload r b e = ground arith
feed_at-Clear State.crc_hi r b e = tt
feed_at-Clear State.crc_lo r b e = tt

whole_word : (high low : ℕ) → high % 256 ≡ 0 → low < 256 → bit_or high low ≡ high + low
whole_word high low clear small =
    ap (λ h. bit_or h low) {x = high} {y = high / 256 * 2 ^ 8} (omega (arith, clear))
    ∙ bit_or_fields 8 (high / 256) low small
    ∙ omega (arith, clear)

-- What a byte makes of a frame: it belongs to it, or the reader waits for a header.
abbrev pub Goes : State → FrameReader → ℕ → Type 0
Goes s r b =
    (begun (feed_at s r b).0.state (feed_at s r b).0 ≡ begun s r ++ b ∷ [])
    ⊎ ((feed_at s r b).0.state ≡ State.header)

len_lo_goes :
    (r : FrameReader) (b : ℕ)
    → IsByte b
    → r.len % 256 ≡ 0
    → (begun (feed_len_lo r b).state (feed_len_lo r b) ≡ begun State.len_lo r ++ b ∷ [])
      ⊎ ((feed_len_lo r b).state ≡ State.header)
unfolding feed_len_lo
len_lo_goes r b hb clear =
    let whole = whole_word r.len b clear hb in
    let high : bit_or r.len b / 256 ≡ r.len / 256 = omega (arith, whole, clear) in
    let low : bit_or r.len b % 256 ≡ b = omega (arith, whole, clear) in
    elim (Bool-cases (ltb max_data (bit_or r.len b))) [
      | inl big ↦ inr (rw big refl)
      | inr fits ↦ elim (Bool-cases (bit_or r.len b == 0)) [
        | inl none ↦
            let zero : bit_or r.len b ≡ 0 = (==_iff (bit_or r.len b) 0).0 none in
            inl (
              rw fits (
                rw none (
                  ap
                    (λ n.
                      header_byte
                      ∷ r.cmd
                      ∷ r.addr / 256
                      ∷ r.addr % 256
                      ∷ bit_or r.len b / 256
                      ∷ bit_or r.len b % 256
                      ∷ take n r.payload)
                    zero
                  ∙ ap₂ (λ h l. header_byte ∷ r.cmd ∷ r.addr / 256 ∷ r.addr % 256 ∷ h ∷ l ∷ []) high
                      low)))
        | inr some ↦ inl (
            rw fits (
              rw some (
                ap₂ (λ h l. header_byte ∷ r.cmd ∷ r.addr / 256 ∷ r.addr % 256 ∷ h ∷ l ∷ []) high
                  low)))
      ]
    ]

payload_goes :
    (r : FrameReader) (b : ℕ)
    → r.idx < length r.payload
    → begun (feed_payload r b).state (feed_payload r b) ≡ begun State.payload r ++ b ∷ []
unfolding feed_payload
payload_goes r b inside =
    let longer : take (r.idx + 1) (set r.payload r.idx b) ≡ take r.idx r.payload ++ b ∷ [] =
      ap (λ n. take n (set r.payload r.idx b)) {x = r.idx + 1} {y = suc r.idx} (omega arith)
      ∙ take-set r.payload r.idx b inside in
    elim (Bool-cases (r.idx + 1 == r.len)) [
      | inl last ↦ rw last (
          ap (λ n. front r ++ take n (set r.payload r.idx b)) {x = r.len} {y = r.idx + 1}
            (ground (arith, last))
          ∙ ap (λ t. front r ++ t) longer)
      | inr more ↦ rw more (ap (λ t. front r ++ t) longer)
    ]

pub goes :
    (s : State) (r : FrameReader) (b : ℕ)
    → r.state ≡ s
    → IsByte b
    → length r.payload ≡ max_data
    → Fits s r.len r.idx
    → Clear s r
    → Goes s r b
unfolding feed_at
goes State.header r b at hb room fits clear = elim (Bool-cases (b == header_byte)) [
  | inl e ↦ inl (rw e (ap (λ x. x ∷ []) (sym ((==_iff b header_byte).0 e))))
  | inr e ↦ inr (rw e at)
]
goes State.cmd r b at hb room fits clear = inl refl
goes State.addr_hi r b at hb room fits clear =
    inl (ap (λ h. header_byte ∷ r.cmd ∷ h ∷ []) (omega arith))
goes State.addr_lo r b at hb room fits clear =
    let whole = whole_word r.addr b clear hb in
    inl (
      ap₂ (λ h l. header_byte ∷ r.cmd ∷ h ∷ l ∷ []) (omega (arith, whole, clear))
        (omega (arith, whole, clear)))
goes State.len_hi r b at hb room fits clear =
    inl (ap (λ h. header_byte ∷ r.cmd ∷ r.addr / 256 ∷ r.addr % 256 ∷ h ∷ []) (omega arith))
goes State.len_lo r b at hb room fits clear = len_lo_goes r b hb clear
goes State.payload r b at hb room fits clear = inl (payload_goes r b (omega (arith, room)))
goes State.crc_hi r b at hb room fits clear =
    inl (sym (append_assoc (front r) (take r.len r.payload) (b ∷ [])))
goes State.crc_lo r b at hb room fits clear = inr (unfold feed_crc_lo in refl)
