-- ===== src/Cps/Frame/Sound.antt =====
-- What a reader delivers has been sent: it stands in the bytes that came in, as an encoded frame.
use bf_k61_firmware_aura.Prelude.{
  ℕ, ◌*◌, ◌/◌, ◌%◌, ◌≤◌, ◌≡◌, refl, sym, ap, ap₂, subst, ◌∙◌, inl, inr, bit_or, List, [], ◌∷◌, ◌++◌,
  arith, All, All-replicate, length, length-take, take, ◌==◌, ==_iff, Bool-cases,
}
use mathlib.Core.List.{append-nil, append_assoc}
use bf_k61_firmware_aura.Prelude.Bits.{bit_or_fields}
use bf_k61_firmware_aura.Crc.{IsByte}
use bf_k61_firmware_aura.Cps.Frame.{
  FeedResult, pending, crc_error, State, FrameReader, new, header_byte, max_data, frame_crc,
  feed_crc_lo, feed_at, feed, encode, run, collect,
}
use bf_k61_firmware_aura.Cps.Frame.Valid.{IsValid, Fits, feed-IsValid}
use bf_k61_firmware_aura.Cps.Frame.Begun.{front, begun, Clear, feed_at-Clear, goes}

-- The bytes are the encoding of a delivered frame, of at most 96 data bytes.
abbrev pub Encodes : List ℕ → FeedResult → Type 0
Encodes bytes pending = Unit
Encodes bytes (FeedResult.frame f) =
    (bytes ≡ encode f.cmd f.addr (take f.len f.payload)) × (f.len ≤ max_data)
Encodes bytes (crc_error addr) = Unit

crc_matches :
    (r : FrameReader) (b : ℕ)
    → IsByte b
    → length (take r.len r.payload) ≡ r.len
    → bit_or (r.crc_hi * 256) b ≡ frame_crc r.cmd r.addr (take r.len r.payload)
    → begun State.crc_lo r ++ b ∷ [] ≡ encode r.cmd r.addr (take r.len r.payload)
unfolding encode
crc_matches r b hb full same =
    let received = bit_or_fields 8 r.crc_hi b hb in
    let held = take r.len r.payload in
    append_assoc (front r) (held ++ r.crc_hi ∷ []) (b ∷ [])
    ∙ ap (λ t. front r ++ t) (append_assoc held (r.crc_hi ∷ []) (b ∷ []))
    ∙ ap
        (λ n.
          header_byte
          ∷ r.cmd
          ∷ r.addr / 256
          ∷ r.addr % 256
          ∷ n / 256
          ∷ n % 256
          ∷ (held ++ r.crc_hi ∷ b ∷ []))
        (sym full)
    ∙ ap₂
        (λ h l.
          header_byte
          ∷ r.cmd
          ∷ r.addr / 256
          ∷ r.addr % 256
          ∷ length held / 256
          ∷ length held % 256
          ∷ (held ++ h ∷ l ∷ []))
        (omega (arith, received, same, hb)) (omega (arith, received, same, hb))

crc_lo-Encodes :
    (r : FrameReader) (b : ℕ)
    → IsByte b
    → length r.payload ≡ max_data
    → r.len ≤ max_data
    → Encodes (begun State.crc_lo r ++ b ∷ []) (feed_crc_lo r b).1
unfolding feed_crc_lo
crc_lo-Encodes r b hb room fits =
    let held = take r.len r.payload in
    elim (Bool-cases (bit_or (r.crc_hi * 256) b == frame_crc r.cmd r.addr held)) [
      | inl same ↦ rw same (
        crc_matches r b hb (omega (arith, length-take r.len r.payload, room))
            ((==_iff (bit_or (r.crc_hi * 256) b) (frame_crc r.cmd r.addr held)).0 same),
        fits,
      )
      | inr other ↦ rw other tt
    ]

-- What a byte ends is the frame that the reader was in, with this byte.
feed_at-Encodes :
    (s : State) (r : FrameReader) (b : ℕ)
    → IsByte b
    → length r.payload ≡ max_data
    → Fits s r.len r.idx
    → Encodes (begun s r ++ b ∷ []) (feed_at s r b).1
unfolding feed_at
feed_at-Encodes State.header r b hb room fits = tt
feed_at-Encodes State.cmd r b hb room fits = tt
feed_at-Encodes State.addr_hi r b hb room fits = tt
feed_at-Encodes State.addr_lo r b hb room fits = tt
feed_at-Encodes State.len_hi r b hb room fits = tt
feed_at-Encodes State.len_lo r b hb room fits = tt
feed_at-Encodes State.payload r b hb room fits = tt
feed_at-Encodes State.crc_hi r b hb room fits = tt
feed_at-Encodes State.crc_lo r b hb room fits = crc_lo-Encodes r b hb room fits

-- A delivered frame stands, encoded, in the bytes that have come in.
abbrev pub Sent : List ℕ → FeedResult → Type 0
Sent input pending = Unit
Sent input (FeedResult.frame f) =
    (before : List ℕ) × (after : List ℕ) × (input
      ≡ before ++ (encode f.cmd f.addr (take f.len f.payload) ++ after))
    × (f.len ≤ max_data)
Sent input (crc_error addr) = Unit

Sent-within :
    (before bytes after : List ℕ) (out : FeedResult)
    → Encodes bytes out
    → Sent (before ++ (bytes ++ after)) out
Sent-within before bytes after pending e = tt
Sent-within before bytes after (FeedResult.frame f) (e, few) =
    (before, after, ap (λ t. before ++ (t ++ after)) e, few)
Sent-within before bytes after (crc_error addr) e = tt

All-collect :
    (P : FeedResult → Type 0) (out : FeedResult) (outs : List FeedResult)
    → P out
    → All P outs
    → All P (collect out outs)
All-collect P pending outs p ps = ps
All-collect P (FeedResult.frame f) outs p ps = (p, ps)
All-collect P (crc_error addr) outs p ps = (p, ps)

-- A reader that has read `input`: the frame that it is in ends it.
record Reads (input : List ℕ) (r : FrameReader) : Type 0 where
  before : List ℕ
  split : input ≡ before ++ begun r.state r
  valid : IsValid r
  clear : Clear r.state r

feed-Reads :
    (input : List ℕ) (r : FrameReader) (b : ℕ)
    → IsByte b
    → Reads input r
    → Reads (input ++ b ∷ []) (feed r b).0
unfolding feed
feed-Reads input r b hb reads =
    let valid = feed-IsValid r b hb reads.valid in
    let longer : input ++ b ∷ [] ≡ reads.before ++ (begun r.state r ++ b ∷ []) =
      ap (λ t. t ++ b ∷ []) reads.split ∙ append_assoc reads.before (begun r.state r) (b ∷ []) in
    elim (goes r.state r b refl hb reads.valid.room reads.valid.fits reads.clear) [
      | inl further ↦ record {
        before = reads.before;
        split = longer ∙ ap (λ t. reads.before ++ t) (sym further);
        valid = valid;
        clear = feed_at-Clear r.state r b refl;
      }
      | inr waits ↦ record {
        before = input ++ b ∷ [];
        split =
            sym (append-nil (input ++ b ∷ []))
            ∙ ap (λ s. (input ++ b ∷ []) ++ begun s (feed_at r.state r b).0) (sym waits);
        valid = valid;
        clear = feed_at-Clear r.state r b refl;
      }
    ]

run_from :
    (input : List ℕ) (r : FrameReader) (bytes : List ℕ)
    → All IsByte bytes
    → Reads input r
    → All (Sent (input ++ bytes)) (run r bytes).1
unfolding run
run_from input r [] h reads = tt
run_from input r (b ∷ bytes) h reads =
    let out = (feed r b).1 in
    let inside : input ++ b ∷ bytes ≡ reads.before ++ ((begun r.state r ++ b ∷ []) ++ bytes) =
      ap (λ t. t ++ b ∷ bytes) reads.split
      ∙ append_assoc reads.before (begun r.state r) (b ∷ bytes)
      ∙ ap (λ t. reads.before ++ t) (sym (append_assoc (begun r.state r) (b ∷ []) bytes)) in
    let ended : Encodes (begun r.state r ++ b ∷ []) out =
      unfold feed in feed_at-Encodes r.state r b h.0 reads.valid.room reads.valid.fits in
    let rest = run_from (input ++ b ∷ []) (feed r b).0 bytes h.1 (feed-Reads input r b h.0 reads) in
    All-collect (Sent (input ++ b ∷ bytes)) out (run (feed r b).0 bytes).1
      (subst (λ t. Sent t out) (sym inside)
        (Sent-within reads.before (begun r.state r ++ b ∷ []) bytes out ended))
      (subst (λ t. All (Sent t) (run (feed r b).0 bytes).1) (append_assoc input (b ∷ []) bytes)
        rest)

-- Nothing is made up: every frame that a new reader delivers, whatever bytes it is fed with, stands
-- in those bytes as an encoded frame, with its command, its address, its data and the right check
-- sum, and has at most 96 data bytes.
pub run-Sent : (bytes : List ℕ) → All IsByte bytes → All (Sent bytes) (run new bytes).1
run-Sent bytes h = run_from [] new bytes h (record {
  before = [];
  split = refl;
  valid = record {
    room = refl;
    cmd_byte = omega arith;
    addr_word = omega arith;
    crc_byte = omega arith;
    payload_bytes = All-replicate IsByte max_data 0 (omega arith);
    fits = tt;
  };
  clear = tt;
})
