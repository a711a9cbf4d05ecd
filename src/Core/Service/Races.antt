-- ===== src/Core/Service/Races.antt =====
-- Calls of the service (core/service.go) that others interrupt.
use cff_core.Base.{
  ℕ, zero, suc, Bool, true, false, List, [], ◌∷◌, none, some, eqb, ◌≡◌, refl, arith, All,
}
use cff_core.Core.Service.{
  created, initialized, starting, running, destroyed, Service, Thread, Outcome, System, same_state,
  step, step_nth, run, init, init_options, init_failed, start_translate, start_number, start_lock,
  start_swap, start_create, start_store, start_running, start_undo, start_close, start_failed,
  start_unlock, stop_load, stop_swap, stop_take, stop_close, destroy_load, destroy_swap,
  destroy_take, destroy_close, done, host, start,
}
use cff_core.Core.Service.Alone.{settled}

-- The first thread's `Stop` swaps the state and waits; the second starts a new instance; the first takes it.
abbrev pub stop_overtaken : List (ℕ × Outcome)
stop_overtaken =
    (0, true)
    ∷ (0, true)
    ∷ (1, true)
    ∷ (1, true)
    ∷ (1, true)
    ∷ (1, true)
    ∷ (1, true)
    ∷ (1, true)
    ∷ (1, true)
    ∷ (1, true)
    ∷ (1, true)
    ∷ (0, true)
    ∷ (0, true)
    ∷ []

eqb_refl' : (n : ℕ) → eqb n n ≡ true
eqb_refl' n = ground arith

-- A `Stop` that a `StartWithContent` overtakes between its swap of the state and its swap of `running`:
-- both calls return, the service is Running without an instance, the new instance is closed, and the one that ran
-- before is neither in `running` nor closed.
pub run-stop_overtaken :
    (i seq n : ℕ) (closed : List ℕ)
    → run stop_overtaken (record {
      service = settled (some i) seq n closed;
      threads = stop_load host ∷ start_translate ∷ [];
    })
      ≡ record {
        service = record (settled (some i) (suc seq) (suc n) (n ∷ closed)) { instance_of = none };
        threads = done ∷ done ∷ [];
      }
unfolding run step_nth step same_state
run-stop_overtaken i seq n closed = rw (eqb_refl' (suc seq)) refl

-- A thread that is past the first swap of `InitContext` and has not finished it, or in a `Stop` that read
-- Destroyed, from which `Stop` does not go on.
unfoldable pub is_in_init : Thread → Bool
unfolding same_state
is_in_init init_options = true
is_in_init init_failed = true
is_in_init (stop_swap old caller) = same_state old destroyed
is_in_init _ = false

abbrev pub IsOutside : Thread → Type 0
IsOutside th = is_in_init th ≡ false

step-destroyed :
    (ok : Outcome) (th : Thread) (s : Service)
    → IsOutside th
    → s.state ≡ destroyed
    → IsOutside (step ok th s).0 × ((step ok th s).1.state ≡ destroyed)
unfolding step same_state is_in_init
step-destroyed ok init s h d = rw d (refl, refl)
step-destroyed ok init_options s h d = cc
step-destroyed ok init_failed s h d = cc
step-destroyed ok start_translate s h d = ground arith
step-destroyed ok start_number s h d = ground arith
step-destroyed ok (start_lock n) s h d = ground arith
step-destroyed ok start_swap s h d = rw d (refl, refl)
step-destroyed ok start_create s h d = ground arith
step-destroyed ok (start_store j) s h d = ground arith
step-destroyed ok start_running s h d = rw d (refl, refl)
step-destroyed ok start_undo s h d = ground arith
step-destroyed ok (start_close old) s h d = ground arith
step-destroyed ok start_failed s h d = rw d (refl, refl)
step-destroyed ok start_unlock s h d = ground arith
step-destroyed ok (stop_load host) s h d = rw d (refl, refl)
step-destroyed ok (stop_load start) s h d = rw d (refl, refl)
step-destroyed ok (stop_swap destroyed caller) s h d = cc
step-destroyed ok (stop_swap created caller) s h d = rw d (refl, refl)
step-destroyed ok (stop_swap initialized caller) s h d = rw d (refl, refl)
step-destroyed ok (stop_swap starting caller) s h d = rw d (refl, refl)
step-destroyed ok (stop_swap running caller) s h d = rw d (refl, refl)
step-destroyed ok (stop_take caller) s h d = ground arith
step-destroyed ok (stop_close old caller) s h d = ground arith
step-destroyed ok destroy_load s h d = rw d (refl, refl)
step-destroyed ok (destroy_swap old) s h d = ground arith
step-destroyed ok destroy_take s h d = ground arith
step-destroyed ok (destroy_close old) s h d = ground arith
step-destroyed ok done s h d = ground arith

step_nth-destroyed :
    (n : ℕ) (ok : Outcome) (ths : List Thread) (s : Service)
    → All IsOutside ths
    → s.state ≡ destroyed
    → All IsOutside (step_nth n ok ths s).0 × ((step_nth n ok ths s).1.state ≡ destroyed)
unfolding step_nth
step_nth-destroyed n ok [] s h d = (tt, d)
step_nth-destroyed zero ok (th ∷ ths) s (h, hs) d =
    let (h', d') = step-destroyed ok th s h d in ((h', hs), d')
step_nth-destroyed (suc n) ok (th ∷ ths) s (h, hs) d =
    let (hs', d') = step_nth-destroyed n ok ths s hs d in ((h, hs'), d')

-- A Destroyed service stays Destroyed, however other calls interleave, where no thread is inside `InitContext`
-- when it gets there.
pub run-destroyed :
    (schedule : List (ℕ × Outcome)) (y : System)
    → All IsOutside y.threads
    → y.service.state ≡ destroyed
    → (run schedule y).service.state ≡ destroyed
unfolding run
run-destroyed [] y h d = d
run-destroyed ((n, ok) ∷ schedule) y h d =
    let (h', d') = step_nth-destroyed n ok y.threads y.service h d in run-destroyed schedule _ h' d'
