-- ===== src/Examples/Lifecycle.antt =====
-- Concrete runs of the service and of the watchdog, and the theorems at them.
use cff_core.Base.{
  ℕ, ◌≤◌, pos, is_positive, String, true, false, List, [], ◌∷◌, Option, none, some, ◌≡◌, ◌==◌, ◌+◌,
  if◌then◌else◌, refl, arith,
}
use cff_core.Core.Service.{
  Thread, Outcome, System, run, start_translate, stop_load, destroy_load, init, host, done,
  destroyed,
}
use cff_core.Core.Service.Ownership.{
  times, new_service, init_call, start_call, stop_call, destroy_call, run-CloseLaws,
}
use cff_core.Core.Service.Alone.{alone, always, settled, start-alone, stop-alone}
use cff_core.Core.Service.Races.{stop_overtaken, is_in_init, run-stop_overtaken, run-destroyed}
use cff_core.Core.Watchdog.{HealthCheckConfig, Tick, normalize_health_config, run_ticks}
use cff_core.Core.Watchdog.Threshold.{IsEarned, run_ticks-IsEarned, normalize-is_positive}
use cff_core.Core.Watchdog.Node.{
  Outbound, IsNode, current_proxy_node, round, walk, current_proxy_node-IsNode,
}

abbrev four_calls : List Thread
four_calls = init ∷ start_translate ∷ stop_load host ∷ destroy_load ∷ []

abbrev some_schedule : List (ℕ × Outcome)
some_schedule =
    (0, true)
    ∷ (0, true)
    ∷ (1, true)
    ∷ (1, true)
    ∷ (1, true)
    ∷ (1, true)
    ∷ (1, true)
    ∷ (1, true)
    ∷ (1, true)
    ∷ (1, true)
    ∷ (2, true)
    ∷ (2, true)
    ∷ (3, true)
    ∷ (3, true)
    ∷ (3, true)
    ∷ (2, true)
    ∷ (3, true)
    ∷ []

run-CloseLaws_example :
    let s = (run some_schedule (record { service = new_service; threads = four_calls })).service in
    (times 0 s.closed ≤ 1) × (s.instance_of ≡ some 0 → times 0 s.closed ≡ 0)
run-CloseLaws_example =
    run-CloseLaws four_calls some_schedule 0
      (init_call, (start_call, (stop_call, (destroy_call, tt))))

start-alone_example :
    alone (true ∷ always true 13) (start_translate, settled (some 4) 2 5 (3 ∷ []))
    ≡ (done, settled (some 5) 3 6 (4 ∷ 3 ∷ []))
start-alone_example = start-alone true true (some 4) 2 5 (3 ∷ [])

stop-alone_example :
    (alone (always true 4) (stop_load host, settled (some 4) 2 5 [])
      ≡ (done, settled none 2 5 (4 ∷ [])))
    × (alone (always true 4) (destroy_load, settled (some 4) 2 5 [])
        ≡ (done, record (settled none 2 5 (4 ∷ [])) { state = destroyed }))
stop-alone_example = stop-alone true (some 4) 2 5 []

run-stop_overtaken_example :
    run stop_overtaken (record {
      service = settled (some 0) 1 1 [];
      threads = stop_load host ∷ start_translate ∷ [];
    })
    ≡ record {
      service = record (settled (some 0) 2 2 (1 ∷ [])) { instance_of = none };
      threads = done ∷ done ∷ [];
    }
run-stop_overtaken_example = run-stop_overtaken 0 1 1 []

abbrev destroyed_system : System
destroyed_system = record {
  service = record (settled none 0 0 []) { state = destroyed };
  threads = init ∷ start_translate ∷ stop_load host ∷ [];
}

run-destroyed_example : (run some_schedule destroyed_system).service.state ≡ destroyed
unfolding is_in_init
run-destroyed_example = run-destroyed some_schedule destroyed_system (refl, (refl, (refl, tt))) refl

abbrev health : HealthCheckConfig
health = record {
  enabled = true;
  interval = pos 1000;
  timeout = pos 0;
  fail_threshold = pos 2;
  cooldown = pos 5000;
}

abbrev failing : ℕ → Tick
failing now = record { now = now; healthy = false; restarted_at = now + 1 }

run_ticks-IsEarned_example :
    IsEarned (normalize_health_config (some health)) 0 0 (failing 1 ∷ failing 2 ∷ failing 3 ∷ []) (
      run_ticks
        (normalize_health_config (some health))
        (failing 1 ∷ failing 2 ∷ failing 3 ∷ [])
        (record { fails = 0; cooldown_until = 0 }))
run_ticks-IsEarned_example =
    run_ticks-IsEarned (some health) (failing 1 ∷ failing 2 ∷ failing 3 ∷ [])

normalize-is_positive_example :
    let w = normalize_health_config (some health) in
    (is_positive w.interval ≡ true)
    × (is_positive w.timeout ≡ true)
    × (is_positive w.cooldown ≡ true)
    × (is_positive w.fail_threshold ≡ true)
normalize-is_positive_example =
    normalize-is_positive health (omega arith) (omega arith) (omega arith)

abbrev selector : Outbound
selector = record { type = "selector"; tag = "A"; now = some "node" }

abbrev leaf_node : Outbound
leaf_node = record { type = "vless"; tag = "node"; now = none }

abbrev find_node : String → Option Outbound
find_node tag = if tag == "node" then some leaf_node else none

selector-current_proxy_node : current_proxy_node find_node (some selector) ≡ some leaf_node
unfolding current_proxy_node round walk
selector-current_proxy_node = refl

current_proxy_node-IsNode_example : IsNode find_node selector leaf_node
current_proxy_node-IsNode_example =
    current_proxy_node-IsNode find_node selector leaf_node selector-current_proxy_node
