-- ===== src/Core/Service/Ownership.antt =====
-- Who is to close an instance of core/service.go: `running` holds it, or a thread, or it is closed.
use cff_core.Base.{
  All, ℕ, zero, suc, ◌+◌, ◌≤◌, Bool, false, List, [], ◌∷◌, Option, none, some, if◌then◌else◌, eqb,
  ltb, ◌≡◌, refl, arith,
}
use cff_core.Core.Service.{
  created, Service, Thread, Outcome, System, same_state, step, step_nth, run, init, init_options,
  init_failed, start_translate, start_number, start_lock, start_swap, start_create, start_store,
  start_running, start_undo, start_close, start_failed, start_unlock, stop_load, stop_swap,
  stop_take, stop_close, destroy_load, destroy_swap, destroy_take, destroy_close, done, host,
}

abbrev one_if : Bool → ℕ
one_if b = if b then 1 else 0

-- How often an instance stands in a list.
abbrev pub times : ℕ → List ℕ → ℕ
times i [] = 0
times i (j ∷ js) = one_if (eqb j i) + times i js

abbrev held : ℕ → Option ℕ → ℕ
held i none = 0
held i (some j) = one_if (eqb j i)

-- Whether a thread is to store or to close the instance.
holds : ℕ → Thread → ℕ
holds i (start_store j) = one_if (eqb j i)
holds i (start_close old) = held i old
holds i (stop_close old caller) = held i old
holds i (destroy_close old) = held i old
holds i _ = 0

-- The same of all threads, and of the service.
all_hold : ℕ → List Thread → ℕ
unfolding holds
all_hold i [] = 0
all_hold i (th ∷ ths) = holds i th + all_hold i ths

abbrev kept : ℕ → Service → ℕ
kept i s = held i s.instance_of + times i s.closed

abbrev exists : ℕ → Service → ℕ
exists i s = one_if (ltb i s.instances)

step-holds :
    (i : ℕ) (ok : Outcome) (th : Thread) (s : Service)
    → holds i (step ok th s).0 + kept i (step ok th s).1 + exists i s
      ≤ holds i th + kept i s + exists i (step ok th s).1
unfolding step holds same_state
step-holds i ok init s = ground arith
step-holds i ok init_options s = ground arith
step-holds i ok init_failed s = ground arith
step-holds i ok start_translate s = ground arith
step-holds i ok start_number s = ground arith
step-holds i ok (start_lock n) s = ground arith
step-holds i ok start_swap s = ground arith
step-holds i ok start_create s = ground arith
step-holds i ok (start_store j) s = ground arith
step-holds i ok start_running s = ground arith
step-holds i ok start_undo s = ground arith
step-holds i ok (start_close old) s = ground arith
step-holds i ok start_failed s = ground arith
step-holds i ok start_unlock s = ground arith
step-holds i ok (stop_load caller) s = ground arith
step-holds i ok (stop_swap old caller) s = ground arith
step-holds i ok (stop_take caller) s = ground arith
step-holds i ok (stop_close old caller) s = ground arith
step-holds i ok destroy_load s = ground arith
step-holds i ok (destroy_swap old) s = ground arith
step-holds i ok destroy_take s = ground arith
step-holds i ok (destroy_close old) s = ground arith
step-holds i ok done s = ground arith

step_nth-holds :
    (i n : ℕ) (ok : Outcome) (ths : List Thread) (s : Service)
    → all_hold i (step_nth n ok ths s).0 + kept i (step_nth n ok ths s).1 + exists i s
      ≤ all_hold i ths + kept i s + exists i (step_nth n ok ths s).1
unfolding step_nth all_hold
step_nth-holds i n ok [] s = omega arith
step_nth-holds i zero ok (th ∷ ths) s = omega (arith, step-holds i ok th s)
step_nth-holds i (suc n) ok (th ∷ ths) s = omega (arith, step_nth-holds i n ok ths s)

-- One owner at most of an instance that was created, none of one that was not.
IsOwned : ℕ → System → Type 0
IsOwned i y = all_hold i y.threads + kept i y.service ≤ exists i y.service

run-IsOwned :
    (i : ℕ) (schedule : List (ℕ × Outcome)) (y : System) → IsOwned i y → IsOwned i (run schedule y)
unfolding run IsOwned
run-IsOwned i [] y h = h
run-IsOwned i ((n, ok) ∷ schedule) y h =
    let (ths, s) = step_nth n ok y.threads y.service in
    run-IsOwned i schedule (record { service = s; threads = ths })
      (omega (arith, h, step_nth-holds i n ok y.threads y.service))

-- A call that is about to begin.
pub data IsCall : Thread → Type 0 where
  init_call : IsCall init
  start_call : IsCall start_translate
  stop_call : IsCall (stop_load host)
  destroy_call : IsCall destroy_load

abbrev pub new_service : Service
new_service = record {
  state = created;
  instance_of = none;
  start_seq = 0;
  start_mu = false;
  instances = 0;
  closed = [];
}

call-holds : (i : ℕ) (th : Thread) → IsCall th → holds i th ≡ 0
unfolding holds
call-holds i th init_call = refl
call-holds i th start_call = refl
call-holds i th stop_call = refl
call-holds i th destroy_call = refl

calls-hold : (i : ℕ) (calls : List Thread) → All IsCall calls → all_hold i calls ≡ 0
unfolding all_hold
calls-hold i [] h = refl
calls-hold i (th ∷ calls) (c, h) = omega (arith, call-holds i th c, calls-hold i calls h)

-- However the calls of `InitContext`, `StartWithContent`, `Stop` and `Destroy` on a new service interleave
-- and whatever their outcomes, an instance is closed at most once, and one that is in `running` is not closed.
pub run-CloseLaws :
    (calls : List Thread) (schedule : List (ℕ × Outcome)) (i : ℕ)
    → All IsCall calls
    → let s = (run schedule (record { service = new_service; threads = calls })).service in
      (times i s.closed ≤ 1) × (s.instance_of ≡ some i → times i s.closed ≡ 0)
unfolding IsOwned
run-CloseLaws calls schedule i h =
    let y = run schedule (record { service = new_service; threads = calls }) in
    let owned =
      run-IsOwned i schedule (record { service = new_service; threads = calls })
        (omega (arith, calls-hold i calls h)) in
    (ground arith, λ e. ground arith)
