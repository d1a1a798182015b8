-- ===== src/App/Ax25/Frame/Builder.antt =====
-- The bytes that build_ui_frame (src/app/ax25/frame.rs) puts together when they fit its buffer.
use mathlib.Core.List.{append_assoc, append-nil}
use bf_k61_firmware_aura.Prelude.{
  ℕ, zero, suc, ◌+◌, ◌*◌, ◌/◌, ◌%◌, ◌<◌, ◌≤◌, ◌≡◌, refl, sym, ap, ◌∙◌, bit_or, bit_xor, List, [],
  ◌∷◌, ◌++◌, Bool, true, false, arith, length, get_or, All, ltb, ◌==◌, if◌then◌else◌, ◌^◌, inl, inr,
  Bool-cases, All-append, length-append,
}
use bf_k61_firmware_aura.App.Ax25.Frame.{
  encode_address, push, push_slice, push_path, is_empty, build_ui_frame, finish, crc16_ccitt,
  Station, max_frame, shift_right, crc_poly_rev, crc16_from, crc16_update, call_byte,
}
use bf_k61_firmware_aura.Prelude.Bits.{bit_xor-lt, bit_or-lt}
use bf_k61_firmware_aura.Crc.{IsByte}

-- The bytes of the addresses, the last one marked.
unfoldable pub path_bytes : List Station → List ℕ
path_bytes [] = []
path_bytes (s ∷ []) = encode_address s.call s.ssid true
path_bytes (s ∷ next ∷ path) = encode_address s.call s.ssid false ++ path_bytes (next ∷ path)

push_slice-append :
    (buf bytes : List ℕ)
    → length buf + length bytes ≤ max_frame
    → push_slice buf bytes ≡ buf ++ bytes
unfolding push_slice push
push_slice-append buf [] h = sym (append-nil buf)
push_slice-append buf (b ∷ bytes) h =
    let room : ltb (length buf) max_frame ≡ true = ground (arith, h) in
    let longer : length (buf ++ b ∷ []) ≡ length buf + 1 = length-append buf (b ∷ []) in
    rw room (
      push_slice-append (buf ++ b ∷ []) bytes (omega (arith, longer))
      ∙ append_assoc buf (b ∷ []) bytes)

push-append : (buf : List ℕ) (b : ℕ) → length buf < max_frame → push buf b ≡ buf ++ b ∷ []
unfolding push
push-append buf b h = let room : ltb (length buf) max_frame ≡ true = ground (arith, h) in rw room

length-encode_address :
    (call : List ℕ) (ssid : ℕ) (last : Bool) → length (encode_address call ssid last) ≡ 7
unfolding encode_address
length-encode_address call ssid last = refl

pub length-path_bytes : (path : List Station) → length (path_bytes path) ≡ 7 * length path
unfolding path_bytes
length-path_bytes [] = refl
length-path_bytes (s ∷ []) = length-encode_address s.call s.ssid true
length-path_bytes (s ∷ next ∷ path) = omega (
  arith,
  length-append (encode_address s.call s.ssid false) (path_bytes (next ∷ path)),
  length-encode_address s.call s.ssid false,
  length-path_bytes (next ∷ path),
)

push_path-append :
    (buf : List ℕ) (path : List Station)
    → length buf + 7 * length path ≤ max_frame
    → push_path buf path ≡ buf ++ path_bytes path
unfolding push_path path_bytes
push_path-append buf [] h = sym (append-nil buf)
push_path-append buf (s ∷ []) h =
    push_slice-append buf (encode_address s.call s.ssid true)
      (omega (arith, length-encode_address s.call s.ssid true))
push_path-append buf (s ∷ next ∷ path) h =
    let address = encode_address s.call s.ssid false in
    let size : length address ≡ 7 = length-encode_address s.call s.ssid false in
    let longer = length-append buf address in
    rw (push_slice-append buf address (omega (arith, size))) (
      push_path-append (buf ++ address) (next ∷ path) (omega (arith, size, longer))
      ∙ append_assoc buf address (path_bytes (next ∷ path)))

-- The check sum is a 16-bit word.
shift_right-lt : (n crc : ℕ) → crc < 2 ^ 16 → shift_right n crc < 2 ^ 16
unfolding shift_right
shift_right-lt zero crc h = h
shift_right-lt (suc n) crc h =
    let flipped : bit_xor (crc / 2) crc_poly_rev < 2 ^ 16 =
      bit_xor-lt 16 (crc / 2) crc_poly_rev (omega arith) (omega arith) in
    elim (Bool-cases (crc % 2 == 0)) [
      | inl e ↦ rw e (shift_right-lt n (crc / 2) (omega arith))
      | inr e ↦ rw e (shift_right-lt n (bit_xor (crc / 2) crc_poly_rev) flipped)
    ]

crc16_from-lt :
    (crc : ℕ) (bytes : List ℕ) → crc < 2 ^ 16 → All IsByte bytes → crc16_from crc bytes < 2 ^ 16
unfolding crc16_from crc16_update
crc16_from-lt crc [] h v = h
crc16_from-lt crc (b ∷ bytes) h v =
    crc16_from-lt (shift_right 8 (bit_xor crc b)) bytes
      (shift_right-lt 8 (bit_xor crc b) (bit_xor-lt 16 crc b h (omega (arith, v.0)))) v.1

pub crc16_ccitt-lt : (bytes : List ℕ) → All IsByte bytes → crc16_ccitt bytes < 65536
unfolding crc16_ccitt
crc16_ccitt-lt bytes v =
    bit_xor-lt 16 (crc16_from 0xFFFF bytes) 0xFFFF (crc16_from-lt 0xFFFF bytes (omega arith) v)
      (omega arith)

call_byte-IsByte : (c : ℕ) → IsByte (call_byte c)
unfolding call_byte
call_byte-IsByte c = ground arith

encode_address-IsByte :
    (call : List ℕ) (ssid : ℕ) (last : Bool) → All IsByte (encode_address call ssid last)
unfolding encode_address
encode_address-IsByte call ssid last =
    let end : bit_or (bit_or (if last then 1 else 0) 96) (ssid % 16 * 2) < 2 ^ 8 =
      bit_or-lt 8 (bit_or (if last then 1 else 0) 96) (ssid % 16 * 2)
        (bit_or-lt 8 (if last then 1 else 0) 96 (ground arith) (omega arith)) (omega arith) in
    (
      call_byte-IsByte (get_or call 0 0),
      (
        call_byte-IsByte (get_or call 1 0),
        (
          call_byte-IsByte (get_or call 2 0),
          (
            call_byte-IsByte (get_or call 3 0),
            (call_byte-IsByte (get_or call 4 0), (call_byte-IsByte (get_or call 5 0), (end, tt))),
          ),
        ),
      ),
    )

path_bytes-IsByte : (path : List Station) → All IsByte (path_bytes path)
unfolding path_bytes
path_bytes-IsByte [] = tt
path_bytes-IsByte (s ∷ []) = encode_address-IsByte s.call s.ssid true
path_bytes-IsByte (s ∷ next ∷ path) =
    All-append IsByte (encode_address s.call s.ssid false) (path_bytes (next ∷ path))
      (encode_address-IsByte s.call s.ssid false) (path_bytes-IsByte (next ∷ path))

-- The frame up to the check sum.
abbrev pub body_of : Station → Station → List Station → List ℕ → List ℕ
body_of dest src digis info = path_bytes (dest ∷ src ∷ digis) ++ (0x03 ∷ 0xF0 ∷ info)

src_path :
    (src : Station) (digis : List Station)
    → encode_address src.call src.ssid (is_empty digis) ++ path_bytes digis
      ≡ path_bytes (src ∷ digis)
unfolding path_bytes is_empty
src_path src [] = append-nil (encode_address src.call src.ssid true)
src_path src (d ∷ digis) = refl

address_field :
    (dest src : Station) (digis : List Station)
    → 7 * (2 + length digis) ≤ max_frame
    → push_path
        (push_slice
          (push_slice [] (encode_address dest.call dest.ssid false))
          (encode_address src.call src.ssid (is_empty digis)))
        digis
      ≡ path_bytes (dest ∷ src ∷ digis)
address_field dest src digis h =
    unfold path_bytes in
    let first = encode_address dest.call dest.ssid false in
    let second = encode_address src.call src.ssid (is_empty digis) in
    let a : push_slice [] first ≡ first =
      push_slice-append [] first (omega (arith, length-encode_address dest.call dest.ssid false)) in
    let b : push_slice first second ≡ first ++ second = push_slice-append first second (
      omega (
        arith,
        length-encode_address dest.call dest.ssid false,
        length-encode_address src.call src.ssid (is_empty digis),
        h,
      )) in
    let c : push_path (first ++ second) digis ≡ (first ++ second) ++ path_bytes digis =
      push_path-append (first ++ second) digis (
        omega (
          arith,
          length-append first second,
          length-encode_address dest.call dest.ssid false,
          length-encode_address src.call src.ssid (is_empty digis),
          h,
        )) in
    rw a (
      rw b (
        c
        ∙ append_assoc first second (path_bytes digis)
        ∙ ap (λ t. first ++ t) (src_path src digis)))

body_lem :
    (dest src : Station) (digis : List Station) (info : List ℕ)
    → 7 * (2 + length digis) + length info + 4 ≤ max_frame
    → push_slice (push (push (path_bytes (dest ∷ src ∷ digis)) 0x03) 0xF0) info
      ≡ body_of dest src digis info
body_lem dest src digis info h =
    let addresses = path_bytes (dest ∷ src ∷ digis) in
    let size : length addresses ≡ 7 * (2 + length digis) =
      omega (arith, length-path_bytes (dest ∷ src ∷ digis)) in
    let control = addresses ++ 0x03 ∷ [] in
    let size_control = length-append addresses (0x03 ∷ []) in
    let protocol = control ++ 0xF0 ∷ [] in
    let size_protocol = length-append control (0xF0 ∷ []) in
    rw (push-append addresses 0x03 (omega (arith, size, h))) (
      rw (push-append control 0xF0 (omega (arith, size, size_control, h))) (
        push_slice-append protocol info (omega (arith, size, size_control, size_protocol, h))
        ∙ append_assoc control (0xF0 ∷ []) info
        ∙ append_assoc addresses (0x03 ∷ []) (0xF0 ∷ info)))

pub body_of-IsByte :
    (dest src : Station) (digis : List Station) (info : List ℕ)
    → All IsByte info
    → All IsByte (body_of dest src digis info)
body_of-IsByte dest src digis info b =
    All-append IsByte (path_bytes (dest ∷ src ∷ digis)) (0x03 ∷ 0xF0 ∷ info)
      (path_bytes-IsByte (dest ∷ src ∷ digis)) (omega arith, (omega arith, b))

finish_lem :
    (body : List ℕ)
    → length body + 2 ≤ max_frame
    → finish body
      ≡ (body ++ (crc16_ccitt body % 256 ∷ crc16_ccitt body / 256 % 256 ∷ []), crc16_ccitt body)
unfolding finish
finish_lem body h =
    let fcs = crc16_ccitt body in
    let size = length-append body (fcs % 256 ∷ []) in
    ap (λ t. (t, fcs))
      (ap (λ t. push t (fcs / 256 % 256)) (push-append body (fcs % 256) (omega arith))
        ∙ push-append (body ++ fcs % 256 ∷ []) (fcs / 256 % 256) (omega (arith, size))
        ∙ append_assoc body (fcs % 256 ∷ []) (fcs / 256 % 256 ∷ []))

pub build_ui_frame_lem :
    (dest src : Station) (digis : List Station) (info : List ℕ)
    → 7 * (2 + length digis) + length info + 4 ≤ max_frame
    → build_ui_frame dest src digis info ≡ (
      body_of dest src digis info
          ++ (crc16_ccitt (body_of dest src digis info) % 256
              ∷ crc16_ccitt (body_of dest src digis info) / 256 % 256
              ∷ []),
      crc16_ccitt (body_of dest src digis info),
    )
unfolding build_ui_frame
build_ui_frame_lem dest src digis info h =
    let body = body_of dest src digis info in
    let size = length-append (path_bytes (dest ∷ src ∷ digis)) (0x03 ∷ 0xF0 ∷ info) in
    ap (λ t. finish (push_slice (push (push t 0x03) 0xF0) info))
      (address_field dest src digis (omega arith))
    ∙ ap finish (body_lem dest src digis info h)
    ∙ finish_lem body (omega (arith, size, length-path_bytes (dest ∷ src ∷ digis)))
