-- ===== src/App/Ax25/AprsPacket/Coordinate.antt =====
-- The text of a coordinate (src/app/ax25/aprs_packet.rs format_coordinate) read as APRS defines it:
-- degrees in two or three digits, minutes and hundredths of a minute, and the hemisphere.
use bf_k61_firmware_aura.Prelude.{
  ℕ, ◌+◌, ◌-◌, ◌*◌, ◌/◌, ◌%◌, ◌<◌, ◌≡◌, refl, List, [], ◌∷◌, Bool, true, false, arith, length,
  get_or, take, drop, if◌then◌else◌, ap, ◌∙◌, subst, sym,
}
use bf_k61_firmware_aura.Prelude.Int.{ℤ}
use bf_k61_firmware_aura.App.Ax25.AprsPacket.{
  format_coordinate, magnitude, is_negative, hemisphere, digit,
}

-- A run of decimal digits, after the number `n`.
unfoldable pub decimal : ℕ → List ℕ → ℕ
decimal n [] = n
decimal n (c ∷ cs) = decimal (10 * n + (c - b'0')) cs

abbrev pub degree_digits : Bool → ℕ
degree_digits lat = if lat then 2 else 3

unfoldable pub degrees : Bool → List ℕ → ℕ
degrees lat text = decimal 0 (take (degree_digits lat) text)

unfoldable pub minutes : Bool → List ℕ → ℕ
minutes lat text = decimal 0 (take 2 (drop (degree_digits lat) text))

unfoldable pub hundredths : Bool → List ℕ → ℕ
hundredths lat text = decimal 0 (take 2 (drop (degree_digits lat + 3) text))

two_digits : (n : ℕ) → n < 100 → decimal 0 (digit (n / 10) ∷ digit n ∷ []) ≡ n
unfolding decimal
two_digits n h = omega arith

three_digits : (n : ℕ) → n < 1000 → decimal 0 (digit (n / 100) ∷ digit (n / 10) ∷ digit n ∷ []) ≡ n
unfolding decimal
three_digits n h = omega arith

-- What is left of the degrees, in units of a hundred-thousandth.
abbrev rest_of : ℕ → ℕ
rest_of v = v - v / 100000 * 100000

rest-lt : (v : ℕ) → rest_of v < 100000
rest-lt v = omega arith

minutes-lt : (r : ℕ) → r < 100000 → r * 60 / 100000 < 60
minutes-lt r h = omega arith

hundredths-lt : (r : ℕ) → r * 60 % 100000 / 1000 < 100
hundredths-lt r = omega arith

whole : (v : ℕ) → v ≡ v / 100000 * 100000 + rest_of v
whole v = omega arith

parts_sum : (r : ℕ) → r * 60 / 100000 * 100 + r * 60 % 100000 / 1000 ≡ r * 60 / 1000
parts_sum r = omega arith

scaled : (d r : ℕ) → d * 6000 + r * 60 / 1000 ≡ (d * 100000 + r) * 6000 / 100000
scaled d r = omega arith

sum_lem :
    (v : ℕ)
    → v / 100000 * 6000 + rest_of v * 60 / 100000 * 100 + rest_of v * 60 % 100000 / 1000
      ≡ v * 6000 / 100000
sum_lem v =
    omega (arith, parts_sum (rest_of v))
    ∙ scaled (v / 100000) (rest_of v)
    ∙ ap (λ (k : ℕ). k * 6000 / 100000) (omega arith)

degrees-format_coordinate :
    (coord : ℤ) (lat : Bool)
    → magnitude coord < (if lat then 10000000 else 100000000)
    → degrees lat (format_coordinate coord lat) ≡ magnitude coord / 100000
unfolding format_coordinate degrees
degrees-format_coordinate coord true h = two_digits (magnitude coord / 100000) (omega arith)
degrees-format_coordinate coord false h = three_digits (magnitude coord / 100000) (omega arith)

minutes-format_coordinate :
    (coord : ℤ) (lat : Bool)
    → minutes lat (format_coordinate coord lat) ≡ rest_of (magnitude coord) * 60 / 100000
unfolding format_coordinate minutes
minutes-format_coordinate coord true =
    two_digits (rest_of (magnitude coord) * 60 / 100000)
      (omega (arith, minutes-lt (rest_of (magnitude coord)) (rest-lt (magnitude coord))))
minutes-format_coordinate coord false =
    two_digits (rest_of (magnitude coord) * 60 / 100000)
      (omega (arith, minutes-lt (rest_of (magnitude coord)) (rest-lt (magnitude coord))))

hundredths-format_coordinate :
    (coord : ℤ) (lat : Bool)
    → hundredths lat (format_coordinate coord lat) ≡ rest_of (magnitude coord) * 60 % 100000 / 1000
unfolding format_coordinate hundredths
hundredths-format_coordinate coord true =
    two_digits (rest_of (magnitude coord) * 60 % 100000 / 1000)
      (hundredths-lt (rest_of (magnitude coord)))
hundredths-format_coordinate coord false =
    two_digits (rest_of (magnitude coord) * 60 % 100000 / 1000)
      (hundredths-lt (rest_of (magnitude coord)))

layout :
    (coord : ℤ) (lat : Bool)
    → (length (format_coordinate coord lat) ≡ degree_digits lat + 6)
      × (get_or (format_coordinate coord lat) (degree_digits lat + 2) 0 ≡ b'.')
      × (get_or (format_coordinate coord lat) (degree_digits lat + 5) 0 ≡ (
          if lat
          then (if is_negative coord then b'S' else b'N')
          else (if is_negative coord then b'W' else b'E')))
unfolding format_coordinate hemisphere
layout coord true = (refl, refl, refl)
layout coord false = (refl, refl, refl)

-- A receiver reads the coordinate, rounded down to a hundredth of a minute, which is 100000 / 6000
-- of its unit: the minutes are below 60, the point and the letter of the hemisphere stand in
-- their places, and nothing follows.
pub format_coordinate_lem :
    (coord : ℤ) (lat : Bool)
    → magnitude coord < (if lat then 10000000 else 100000000)
    → (degrees lat (format_coordinate coord lat) * 6000
          + minutes lat (format_coordinate coord lat) * 100
          + hundredths lat (format_coordinate coord lat)
        ≡ magnitude coord * 6000 / 100000)
      × (minutes lat (format_coordinate coord lat) < 60)
      × (hundredths lat (format_coordinate coord lat) < 100)
      × (length (format_coordinate coord lat) ≡ degree_digits lat + 6)
      × (get_or (format_coordinate coord lat) (degree_digits lat + 2) 0 ≡ b'.')
      × (get_or (format_coordinate coord lat) (degree_digits lat + 5) 0 ≡ (
          if lat
          then (if is_negative coord then b'S' else b'N')
          else (if is_negative coord then b'W' else b'E')))
format_coordinate_lem coord lat h =
    let v = magnitude coord in
    let m = minutes-format_coordinate coord lat in
    let f = hundredths-format_coordinate coord lat in
    let d = degrees-format_coordinate coord lat h in
    let small = minutes-lt (rest_of v) (rest-lt v) in
    (
      rw d (rw m (rw f (sum_lem v))),
      subst (λ (k : ℕ). k < 60) (sym m) small,
      subst (λ (k : ℕ). k < 100) (sym f) (hundredths-lt (rest_of v)),
      (layout coord lat).0,
      (layout coord lat).1,
      (layout coord lat).2,
    )
