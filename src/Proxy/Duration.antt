-- ===== src/Proxy/Duration.antt =====
-- `SecondsToDuration` of translator/proxy/common.go: seconds as a text such as "1h1m30s".
pub mod ReadBack
use cff_core.Base.{ℕ, ℤ, pos, negsuc, zero, suc, ◌/◌, ◌%◌, ◌<◌, String, ltb, if◌then◌else◌}
use cff_core.Base.Text.{◌+++◌}
use cff_core.Base.Text.Decimal.{itoa_ℕ}

-- `if n > 0 { fmt.Fprintf(&b, "%d<unit>", n) }`
unfoldable pub part : ℕ → String → String
unfolding itoa_ℕ
part n unit = if ltb 0 n then itoa_ℕ n +++ unit else ""

unfoldable pub seconds_to_duration : ℤ → String
unfolding part
seconds_to_duration (negsuc n) = "0s"
seconds_to_duration (pos zero) = "0s"
seconds_to_duration (pos (suc n)) =
    let seconds : ℕ = suc n in
    part (seconds / 3600) "h" +++ part (seconds % 3600 / 60) "m" +++ part (seconds % 60) "s"
