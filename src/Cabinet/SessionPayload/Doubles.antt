-- ===== src/Cabinet/SessionPayload/Doubles.antt =====
-- backend/app/cabinet/session_payload.py: figures and registers as the binary floats that `_num` makes of
-- them, for the one comparison that sees their rounding. A double is an integer in units of 2^-66,
-- the last place of 0.0001, so no figure of at most four decimals has a bit below it; infinities and
-- NaN are left out.
use Prim.Native.Nat.{◌^◌}
use erp_iot.Base.{ℕ, zero, suc, ◌*◌, ◌/◌, Bool, true, false, ltb}
use erp_iot.Base.Int.{ℤ, pos, pos_part, neg_part, sub_ℕ, ◌-ℤ◌, abs, half_even}

-- The unit in the last place of a magnitude: the least power of two from `unit` on that leaves a
-- significand of 53 bits. The largest double has 1090 bits in this scale, which the fuel covers.
abbrev pub last_place : (fuel unit m : ℕ) → ℕ
last_place zero unit m = unit
last_place (suc fuel) unit m = elim (ltb m (2 ^ 53 * unit)) [
  | true ↦ unit
  | false ↦ last_place fuel (2 * unit) m
]

-- the double nearest to the fraction `n / d`, a half to the even one
abbrev pub nearest : (n d : ℕ) → ℕ
nearest n d = let unit = last_place 1100 1 (n / d) in half_even (d * unit) n * unit

-- `float(v)`, of ten-thousandths
abbrev pub double : ℤ → ℤ
double v = sub_ℕ (nearest (pos_part v * 2 ^ 66) 10000) (nearest (neg_part v * 2 ^ 66) 10000)

-- the double nearest to an exact difference of doubles
abbrev pub rounded : ℤ → ℤ
rounded z = sub_ℕ (nearest (pos_part z) 1) (nearest (neg_part z) 1)

-- `a - b` of two doubles
abbrev pub minus : ℤ → ℤ → ℤ
minus a b = rounded (a -ℤ b)

-- `RECOMPUTE_TOLERANCE`, 0.001
abbrev pub recompute_tolerance : ℤ
recompute_tolerance = double (pos 10)

-- `abs((end - start) - figure) > RECOMPUTE_TOLERANCE`
unfoldable pub is_mismatch : (figure start end : ℤ) → Bool
is_mismatch figure start end =
    ltb (abs recompute_tolerance) (abs (minus (minus (double end) (double start)) (double figure)))
