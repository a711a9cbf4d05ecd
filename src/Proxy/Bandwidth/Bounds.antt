-- ===== src/Proxy/Bandwidth/Bounds.antt =====
-- The bounds of a bandwidth with a unit (`ParseBandwidth` of translator/proxy/common.go).
use cff_core.Base.{ℕ, ◌≤◌, ◌≡◌, arith}
use cff_core.Proxy.Bandwidth.{mbps_of_bits}

-- A number of bits per second is at most `math.MaxInt32` in Mbps, and 0, which means no limit, only where it
-- is 0.
pub mbps_of_bits-bounds :
    (bits : ℕ) → (mbps_of_bits bits ≤ 2147483647) × (mbps_of_bits bits ≡ 0 → bits ≡ 0)
unfolding mbps_of_bits
mbps_of_bits-bounds bits = (ground arith, λ h. ground arith)
