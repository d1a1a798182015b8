-- ===== src/App/Ax25/AprsPacket/Report.antt =====
-- The position report (src/app/ax25/aprs_packet.rs build_position_report) as a receiver reads it.
use bf_k61_firmware_aura.Prelude.{
  ℕ, ◌+◌, ◌*◌, ◌<◌, ◌≤◌, ◌≡◌, refl, min, some, List, [], ◌∷◌, ◌++◌, Bool, true, false, arith,
  length, take, All, if◌then◌else◌, length-append, All-append, length-take, All-take, ltb,
  Bool-cases, inl, inr,
}
use bf_k61_firmware_aura.Prelude.Int.{ℤ}
use bf_k61_firmware_aura.Crc.{IsByte}
use bf_k61_firmware_aura.App.Ax25.Frame.{crc16_ccitt}
use bf_k61_firmware_aura.App.Ax25.Frame.Address.{IsStation}
use bf_k61_firmware_aura.App.Ax25.Frame.Parse.{read_path, read_path-build_ui_frame}
use bf_k61_firmware_aura.App.Ax25.AprsPacket.{
  AprsConfig, format_coordinate, hemisphere, build_position_info, build_position_report,
}

pub record IsConfig (cfg : AprsConfig) : Type 0 where
  pub stations : All IsStation (cfg.dest ∷ cfg.src ∷ take cfg.digi_count cfg.digi_path)
  pub four_digis : length cfg.digi_path ≡ 4
  pub comment_size : length cfg.comment ≡ 44
  pub comment_bytes : All IsByte cfg.comment
  pub table : cfg.symbol_table < 256
  pub code : cfg.symbol_code < 256

-- The part of the comment that is sent.
abbrev comment_sent : AprsConfig → List ℕ
comment_sent cfg = if ltb 0 cfg.comment_len then take (min cfg.comment_len 44) cfg.comment else []

comment_sent-size : (cfg : AprsConfig) → IsConfig cfg → length (comment_sent cfg) ≤ 44
comment_sent-size cfg v =
    ground (arith, length-take (min cfg.comment_len 44) cfg.comment, v.comment_size)

comment_sent-IsByte : (cfg : AprsConfig) → IsConfig cfg → All IsByte (comment_sent cfg)
comment_sent-IsByte cfg v = elim (Bool-cases (ltb 0 cfg.comment_len)) [
  | inl e ↦ rw e (All-take IsByte (min cfg.comment_len 44) cfg.comment v.comment_bytes)
  | inr e ↦ rw e tt
]

length-format_coordinate :
    (coord : ℤ) (lat : Bool) → length (format_coordinate coord lat) ≡ (if lat then 8 else 9)
unfolding format_coordinate
length-format_coordinate coord true = refl
length-format_coordinate coord false = refl

hemisphere-IsByte : (coord : ℤ) (lat : Bool) → IsByte (hemisphere coord lat)
unfolding hemisphere
hemisphere-IsByte coord lat = ground arith

format_coordinate-IsByte : (coord : ℤ) (lat : Bool) → All IsByte (format_coordinate coord lat)
unfolding format_coordinate
format_coordinate-IsByte coord true = (
  omega arith,
  (
    omega arith,
    (
      omega arith,
      (
        omega arith,
        (omega arith, (omega arith, (omega arith, (hemisphere-IsByte coord true, tt)))),
      ),
    ),
  ),
)
format_coordinate-IsByte coord false = (
  omega arith,
  (
    omega arith,
    (
      omega arith,
      (
        omega arith,
        (
          omega arith,
          (omega arith, (omega arith, (omega arith, (hemisphere-IsByte coord false, tt)))),
        ),
      ),
    ),
  ),
)

info_size : (cfg : AprsConfig) → IsConfig cfg → length (build_position_info cfg) ≤ 64
unfolding build_position_info
info_size cfg v =
    let last = format_coordinate cfg.lon false ++ cfg.symbol_code ∷ comment_sent cfg in
    omega (
      arith,
      length-append (format_coordinate cfg.lat true) (cfg.symbol_table ∷ last),
      length-append (format_coordinate cfg.lon false) (cfg.symbol_code ∷ comment_sent cfg),
      length-format_coordinate cfg.lat true,
      length-format_coordinate cfg.lon false,
      comment_sent-size cfg v,
    )

info-IsByte : (cfg : AprsConfig) → IsConfig cfg → All IsByte (build_position_info cfg)
unfolding build_position_info
info-IsByte cfg v = (
  omega arith,
  All-append IsByte (format_coordinate cfg.lat true)
      (cfg.symbol_table ∷ (format_coordinate cfg.lon false ++ cfg.symbol_code ∷ comment_sent cfg))
      (format_coordinate-IsByte cfg.lat true)
      (
        v.table,
        All-append IsByte (format_coordinate cfg.lon false) (cfg.symbol_code ∷ comment_sent cfg)
            (format_coordinate-IsByte cfg.lon false) (v.code, comment_sent-IsByte cfg v),
      ),
)

-- Whatever the comment and the number of digipeaters, the report fits the frame whole: a receiver
-- reads the stations, then the control bytes and the information of the report, and the last two
-- bytes are the check sum of what stands before them. The calls are six characters each, capitals,
-- digits or spaces, and the configuration has room for four digipeaters and 44 bytes of comment.
pub read_path-build_position_report :
    (cfg : AprsConfig)
    → IsConfig cfg
    → (body : List ℕ) × (lo : ℕ) × (hi : ℕ) × ((build_position_report cfg).0
        ≡ body ++ (lo ∷ hi ∷ []))
      × (lo + 256 * hi ≡ crc16_ccitt body)
      × (read_path (2 + length (take cfg.digi_count cfg.digi_path)) (build_position_report cfg).0
          ≡ some (
            cfg.dest ∷ cfg.src ∷ take cfg.digi_count cfg.digi_path,
            0x03 ∷ 0xF0 ∷ (build_position_info cfg ++ (lo ∷ hi ∷ [])),
          ))
unfolding build_position_report
read_path-build_position_report cfg v =
    let path = take cfg.digi_count cfg.digi_path in
    let few = length-take cfg.digi_count cfg.digi_path in
    let r =
      read_path-build_ui_frame cfg.dest cfg.src path (build_position_info cfg) v.stations
        (info-IsByte cfg v) (omega (arith, info_size cfg v, few, v.four_digis)) in
    (r.0, r.1, r.2, r.3, r.4, r.6)
