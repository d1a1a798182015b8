-- ===== src/Tests/Packet.antt =====
-- AX.25 frames and APRS reports.
use bf_k61_firmware_aura.Prelude.{
  ℕ, ◌+◌, ◌*◌, ◌/◌, ◌<◌, ◌≡◌, refl, List, [], ◌∷◌, ◌++◌, true, some, arith, length, get_or,
  replicate, max, inl, inr, if◌then◌else◌,
}
use bf_k61_firmware_aura.Prelude.Int.{pos, negsuc}
use bf_k61_firmware_aura.App.Ax25.Frame.{flag, Station, line_levels, build_ui_frame, crc16_ccitt}
use bf_k61_firmware_aura.App.Ax25.Frame.Receiver.{decode_levels, no_six, unstuffed, bits, bytes_of}
use bf_k61_firmware_aura.App.Ax25.Frame.Line.{line_levels_lem}
use bf_k61_firmware_aura.App.Ax25.Frame.Address.{IsStation}
use bf_k61_firmware_aura.App.Ax25.Frame.Parse.{read_path, read_path-build_ui_frame}
use bf_k61_firmware_aura.App.Ax25.AprsPacket.{
  AprsConfig, aprs_dest_call, format_coordinate, magnitude, is_negative,
}
use bf_k61_firmware_aura.App.Ax25.AprsPacket.Coordinate.{
  degrees, minutes, hundredths, degree_digits, format_coordinate_lem,
}

abbrev raw : List ℕ
raw = 0xFF ∷ 0xFF ∷ 0x7E ∷ []

line_levels_example :
    (middle : List ℕ) × (decode_levels 1 (line_levels raw 3)
      ≡ bits (replicate 10 flag) ++ (middle ++ bits (replicate (max 3 1) flag)))
    × (no_six 0 middle ≡ true)
    × (unstuffed 0 middle ≡ bits raw)
    × (bytes_of (length raw) (unstuffed 0 middle) ≡ raw)
line_levels_example = line_levels_lem raw 3 (omega arith)

abbrev beijing : Station
beijing = record { call = b'B' ∷ b'G' ∷ b'4' ∷ b'K' ∷ b'N' ∷ b'N' ∷ []; ssid = 7 }

abbrev wide : Station
wide = record { call = b'W' ∷ b'I' ∷ b'D' ∷ b'E' ∷ b'1' ∷ 32 ∷ []; ssid = 1 }

abbrev aprs : Station
aprs = record { call = aprs_dest_call; ssid = 0 }

beijing-IsStation : IsStation beijing
beijing-IsStation = record {
  six = refl;
  chars = (inl refl, (inl refl, (inl refl, (inl refl, (inl refl, (inl refl, tt))))));
  ssid_fits = omega arith;
}

wide-IsStation : IsStation wide
wide-IsStation = record {
  six = refl;
  chars = (inl refl, (inl refl, (inl refl, (inl refl, (inl refl, (inr refl, tt))))));
  ssid_fits = omega arith;
}

aprs-IsStation : IsStation aprs
aprs-IsStation = record {
  six = refl;
  chars = (inl refl, (inl refl, (inl refl, (inl refl, (inl refl, (inl refl, tt))))));
  ssid_fits = omega arith;
}

abbrev message : List ℕ
message = b'>' ∷ b'h' ∷ b'i' ∷ []

build_ui_frame_example :
    (body : List ℕ) × (lo : ℕ) × (hi : ℕ) × ((build_ui_frame aprs beijing (wide ∷ []) message).0
      ≡ body ++ (lo ∷ hi ∷ []))
    × (lo + 256 * hi ≡ crc16_ccitt body)
    × ((build_ui_frame aprs beijing (wide ∷ []) message).1 ≡ crc16_ccitt body)
    × (read_path 3 (build_ui_frame aprs beijing (wide ∷ []) message).0
        ≡ some (aprs ∷ beijing ∷ wide ∷ [], 0x03 ∷ 0xF0 ∷ (message ++ (lo ∷ hi ∷ []))))
build_ui_frame_example =
    read_path-build_ui_frame aprs beijing (wide ∷ []) message
      (aprs-IsStation, (beijing-IsStation, (wide-IsStation, tt))) (omega arith) (omega arith)

-- 32.06125 degrees south.
format_coordinate_example :
    (degrees true (format_coordinate (negsuc 3206124) true) * 6000
        + minutes true (format_coordinate (negsuc 3206124) true) * 100
        + hundredths true (format_coordinate (negsuc 3206124) true)
      ≡ magnitude (negsuc 3206124) * 6000 / 100000)
    × (minutes true (format_coordinate (negsuc 3206124) true) < 60)
    × (hundredths true (format_coordinate (negsuc 3206124) true) < 100)
    × (length (format_coordinate (negsuc 3206124) true) ≡ degree_digits true + 6)
    × (get_or (format_coordinate (negsuc 3206124) true) (degree_digits true + 2) 0 ≡ b'.')
    × (get_or (format_coordinate (negsuc 3206124) true) (degree_digits true + 5) 0 ≡ (
        if true
        then (if is_negative (negsuc 3206124) then b'S' else b'N')
        else (if is_negative (negsuc 3206124) then b'W' else b'E')))
format_coordinate_example = format_coordinate_lem (negsuc 3206124) true (omega arith)

abbrev config : AprsConfig
config = record {
  src = beijing;
  dest = aprs;
  digi_path = wide ∷ wide ∷ wide ∷ wide ∷ [];
  digi_count = 1;
  symbol_table = b'/';
  symbol_code = b'[';
  lat = pos 3206125;
  lon = pos 11878000;
  comment = replicate 44 b'x';
  comment_len = 9;
}
