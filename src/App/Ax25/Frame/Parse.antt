-- ===== src/App/Ax25/Frame/Parse.antt =====
-- A whole frame (src/app/ax25/frame.rs build_ui_frame) as a receiver takes it apart.
use mathlib.Core.List.{append_assoc}
use bf_k61_firmware_aura.Prelude.{
  ℕ, zero, suc, ◌+◌, ◌*◌, ◌/◌, ◌%◌, ◌<◌, ◌≤◌, ◌≡◌, refl, ap, ◌∙◌, subst, List, [], ◌∷◌, ◌++◌, Bool,
  true, false, Option, none, some, arith, length, All, take, drop,
}
use bf_k61_firmware_aura.App.Ax25.Frame.{
  encode_address, build_ui_frame, crc16_ccitt, Station, max_frame,
}
use bf_k61_firmware_aura.Crc.{IsByte}
use bf_k61_firmware_aura.App.Ax25.Frame.Address.{
  station_of, is_last, IsStation, station_of-encode_address,
}
use bf_k61_firmware_aura.App.Ax25.Frame.Builder.{
  path_bytes, body_of, body_of-IsByte, build_ui_frame_lem, crc16_ccitt-lt,
}

-- The marked address is the last one.
unfoldable read_on :
    Bool → Station → List ℕ → Option (List Station × List ℕ) → Option (List Station × List ℕ)
read_on true s bytes others = some (s ∷ [], bytes)
read_on false s bytes none = none
read_on false s bytes (some p) = some (s ∷ p.0, p.1)

-- A receiver reads addresses up to the one that is marked; `n` is how many it has room for.
unfoldable pub read_path : ℕ → List ℕ → Option (List Station × List ℕ)
unfolding read_on
read_path zero bytes = none
read_path (suc n) bytes =
    read_on (is_last (take 7 bytes)) (station_of (take 7 bytes)) (drop 7 bytes)
      (read_path n (drop 7 bytes))

take-encode_address :
    (call : List ℕ) (ssid : ℕ) (last : Bool) (rest : List ℕ)
    → (take 7 (encode_address call ssid last ++ rest) ≡ encode_address call ssid last)
      × (drop 7 (encode_address call ssid last ++ rest) ≡ rest)
unfolding encode_address
take-encode_address call ssid last rest = (refl, refl)

-- One address read, with the rest of the path.
read_path_more :
    (n : ℕ) (address others : List ℕ) (s : Station) (path : List Station) (rest : List ℕ)
    → take 7 (address ++ others) ≡ address
    → drop 7 (address ++ others) ≡ others
    → is_last address ≡ false
    → station_of address ≡ s
    → read_path n others ≡ some (path, rest)
    → read_path (suc n) (address ++ others) ≡ some (s ∷ path, rest)
unfolding read_path
read_path_more n address others s path rest t d l e r =
    (λ i. read_on (is_last (t i)) (station_of (t i)) (d i) (read_path n (d i)))
    ∙ (λ i. read_on (l i) (e i) others (r i))

read_path-path_bytes :
    (s : Station) (path : List Station) (rest : List ℕ)
    → All IsStation (s ∷ path)
    → read_path (length (s ∷ path)) (path_bytes (s ∷ path) ++ rest) ≡ some (s ∷ path, rest)
unfolding path_bytes
read_path-path_bytes s [] rest v =
    let t = take-encode_address s.call s.ssid true rest in
    let k = station_of-encode_address s true v.0 in
    unfold read_path in rw (t.0) (rw (t.1) (rw (k.1) (rw (k.0))))
read_path-path_bytes s (next ∷ path) rest v =
    let others = path_bytes (next ∷ path) ++ rest in
    let t = take-encode_address s.call s.ssid false others in
    let k = station_of-encode_address s false v.0 in
    let address = encode_address s.call s.ssid false in
    ap (read_path (suc (suc (length path)))) (append_assoc address (path_bytes (next ∷ path)) rest)
    ∙ read_path_more (suc (length path)) address others s (next ∷ path) rest (t.0) (t.1) (k.1) (k.0)
        (read_path-path_bytes next path rest v.1)

mod_small : (n : ℕ) → n < 256 → n % 256 ≡ n
mod_small n h = omega arith

-- A receiver takes the frame of `build_ui_frame` apart: it reads the two stations and the path of
-- the digipeaters, then the control bytes and the information, and the last two bytes are the check
-- sum of what stands before them, the low byte first, which is also what the builder returns. The
-- calls are six characters each, capitals, digits or spaces, and the frame fits the buffer.
pub read_path-build_ui_frame :
    (dest src : Station) (digis : List Station) (info : List ℕ)
    → All IsStation (dest ∷ src ∷ digis)
    → All IsByte info
    → 7 * (2 + length digis) + length info + 4 ≤ max_frame
    → (body : List ℕ) × (lo : ℕ) × (hi : ℕ) × ((build_ui_frame dest src digis info).0
        ≡ body ++ (lo ∷ hi ∷ []))
      × (lo + 256 * hi ≡ crc16_ccitt body)
      × ((build_ui_frame dest src digis info).1 ≡ crc16_ccitt body)
      × (read_path (2 + length digis) (build_ui_frame dest src digis info).0
          ≡ some (dest ∷ src ∷ digis, 0x03 ∷ 0xF0 ∷ (info ++ (lo ∷ hi ∷ []))))
read_path-build_ui_frame dest src digis info v b h =
    let body = body_of dest src digis info in
    let fcs = crc16_ccitt body in
    let fits : fcs < 65536 = crc16_ccitt-lt body (body_of-IsByte dest src digis info b) in
    let built = build_ui_frame_lem dest src digis info h in
    let shown : (build_ui_frame dest src digis info).0 ≡ body ++ (fcs % 256 ∷ fcs / 256 ∷ []) =
      ap (λ t. t.0) built
      ∙ (λ i. body ++ (fcs % 256 ∷ mod_small (fcs / 256) (omega (arith, fits)) i ∷ [])) in
    let sums = fcs % 256 ∷ fcs / 256 ∷ [] in
    (
      body,
      fcs % 256,
      fcs / 256,
      shown,
      omega arith,
      ap (λ t. t.1) built,
      ap (read_path (2 + length digis))
            (shown ∙ append_assoc (path_bytes (dest ∷ src ∷ digis)) (0x03 ∷ 0xF0 ∷ info) sums)
          ∙ subst
              (λ (k : ℕ).
                read_path k (path_bytes (dest ∷ src ∷ digis) ++ ((0x03 ∷ 0xF0 ∷ info) ++ sums))
                ≡ some (dest ∷ src ∷ digis, (0x03 ∷ 0xF0 ∷ info) ++ sums))
              (omega arith)
              (read_path-path_bytes dest (src ∷ digis) ((0x03 ∷ 0xF0 ∷ info) ++ sums) v),
    )
