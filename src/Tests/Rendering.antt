-- ===== src/Tests/Rendering.antt =====
-- The rendering of a short authentication string.
use bzrtp.Common.{Bytes, ok, ◌≡◌, arith, ◌/◌, ◌^◌}
use bzrtp.Sas.{base32}
use bzrtp.Sas.Reading.{base32_value, base32_value-base32}

base32_example :
    (output : Bytes) × (base32 0xDEADBEEF 5 ≡ ok output)
    × (base32_value 0 output ≡ 0xDEADBEEF / 2 ^ 12)
base32_example = base32_value-base32 0xDEADBEEF (omega arith)
