-- ===== src/Examples/Formats.antt =====
-- Texts of durations, ports and bandwidths, and the theorems at them.
use cff_core.Base.{ℕ, ◌≤◌, pos, [], ◌∷◌, some, All, ◌≡◌, refl}
use cff_core.Proxy.Duration.{seconds_to_duration}
use cff_core.Proxy.Duration.ReadBack.{read_duration, read_duration-seconds_to_duration}
use cff_core.Proxy.Ports.{parse_server_ports}
use cff_core.Proxy.Ports.Range.{IsEntry, parse_server_ports-All}
use cff_core.Proxy.Bandwidth.{mbps_of_bits}
use cff_core.Proxy.Bandwidth.Bounds.{mbps_of_bits-bounds}

read_duration-seconds_to_duration_example :
    read_duration (seconds_to_duration (pos 3661)) ≡ some 3661
read_duration-seconds_to_duration_example = read_duration-seconds_to_duration (pos 3661)

seconds_to_duration_test : seconds_to_duration (pos 3661) ≡ "1h1m1s"
unfolding seconds_to_duration
seconds_to_duration_test = refl

parse_server_ports_test : parse_server_ports "1000-2000, 3000,x" ≡ "1000:2000" ∷ "3000:3000" ∷ []
unfolding parse_server_ports
parse_server_ports_test = refl

parse_server_ports-All_example : All IsEntry (parse_server_ports "1000-2000, 3000,x")
parse_server_ports-All_example = parse_server_ports-All "1000-2000, 3000,x"

mbps_of_bits-bounds_example :
    (mbps_of_bits 1500000 ≤ 2147483647) × (mbps_of_bits 1500000 ≡ 0 → ◌≡◌ {A = ℕ} 1500000 0)
mbps_of_bits-bounds_example = mbps_of_bits-bounds 1500000
