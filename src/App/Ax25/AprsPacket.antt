-- ===== src/App/Ax25/AprsPacket.antt =====
-- src/app/ax25/aprs_packet.rs: coordinates as text, and the position report.
pub mod Coordinate
pub mod Report
use bf_k61_firmware_aura.Prelude.{
  ℕ, ◌+◌, ◌-◌, ◌*◌, ◌/◌, ◌%◌, ◌<◌, min, List, [], ◌∷◌, ◌++◌, Bool, true, false, take, replicate,
  ltb, if◌then◌else◌,
}
use bf_k61_firmware_aura.Prelude.Int.{ℤ, pos, negsuc, ltb_ℤ, pos_part, neg_part}
use bf_k61_firmware_aura.App.Ax25.Frame.{Station, build_ui_frame}

abbrev pub aprs_dest_call : List ℕ
aprs_dest_call = b'A' ∷ b'P' ∷ b'Z' ∷ b'K' ∷ b'6' ∷ b'X' ∷ []

-- `b'0' + (n % 10)`
abbrev pub digit : ℕ → ℕ
digit n = b'0' + n % 10

abbrev pub is_negative : ℤ → Bool
is_negative coord = ltb_ℤ coord (pos 0)

-- `if neg { -coord_i32 } else { coord_i32 }`
abbrev pub magnitude : ℤ → ℕ
magnitude coord = pos_part coord + neg_part coord

unfoldable pub hemisphere : ℤ → Bool → ℕ
hemisphere coord lat =
    if lat
    then (if is_negative coord then b'S' else b'N')
    else (if is_negative coord then b'W' else b'E')

-- The text, `out[..pos]`. A coordinate is in degrees * 100_000.
unfoldable pub format_coordinate : ℤ → Bool → List ℕ
unfolding hemisphere
format_coordinate coord lat =
    let v = magnitude coord in
    let deg = v / 100000 in
    let rest = v - deg * 100000 in
    let minutes = rest * 60 / 100000 in
    let min_frac = rest * 60 % 100000 / 1000 in
    (if lat
      then digit (deg / 10) ∷ digit deg ∷ []
      else digit (deg / 100) ∷ digit (deg / 10) ∷ digit deg ∷ [])
    ++ (digit (minutes / 10)
        ∷ digit minutes
        ∷ b'.'
        ∷ digit (min_frac / 10)
        ∷ digit min_frac
        ∷ hemisphere coord lat
        ∷ [])

pub record AprsConfig : Type 0 where
  pub src : Station
  pub dest : Station
  pub digi_path : List Station
  pub digi_count : ℕ
  pub symbol_table : ℕ
  pub symbol_code : ℕ
  pub lat : ℤ
  pub lon : ℤ
  pub comment : List ℕ
  pub comment_len : ℕ

unfoldable pub new : List ℕ → ℕ → AprsConfig
new src_call src_ssid = record {
  src = record { call = src_call; ssid = src_ssid };
  dest = record { call = aprs_dest_call; ssid = 0 };
  digi_path = replicate 4 (record { call = replicate 6 b' '; ssid = 0 });
  digi_count = 0;
  symbol_table = 0;
  symbol_code = 0;
  lat = pos 0;
  lon = pos 0;
  comment = replicate 44 0;
  comment_len = 0;
}

-- `comment.len()` is 44.
unfoldable pub build_position_info : AprsConfig → List ℕ
build_position_info cfg =
    b'!'
    ∷ (format_coordinate cfg.lat true
        ++ cfg.symbol_table
          ∷ (format_coordinate cfg.lon false
              ++ cfg.symbol_code
                ∷ (if ltb 0 cfg.comment_len
                    then take (min cfg.comment_len 44) cfg.comment
                    else [])))

unfoldable pub build_position_report : AprsConfig → List ℕ × ℕ
build_position_report cfg =
    build_ui_frame cfg.dest cfg.src (take cfg.digi_count cfg.digi_path) (build_position_info cfg)
