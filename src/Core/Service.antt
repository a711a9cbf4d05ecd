-- ===== src/Core/Service.antt =====
-- core/service.go: the lifecycle of the service, one atomic operation a step, so that the threads
-- that call it interleave between any two of them. A host that calls back in from a state event is one
-- more thread. The sing-box instances are numbered in the order of their creation; whether a
-- translation, a `box.New` or a `Start` of one succeeds is an outcome that comes with the step.
pub mod Ownership
pub mod Races
pub mod Alone
use cff_core.Base.{
  ℕ, zero, suc, ◌+◌, Bool, true, false, not, ◌||◌, List, [], ◌∷◌, Option, none, some, if◌then◌else◌,
  eqb,
}

-- `State`
pub data State : Type 0 where
  created : State
  initialized : State
  starting : State
  running : State
  destroyed : State

-- `==` of two states, as the compare-and-swap has it.
unfoldable pub same_state : State → State → Bool
same_state created created = true
same_state initialized initialized = true
same_state starting starting = true
same_state running running = true
same_state destroyed destroyed = true
same_state _ _ = false

-- What the threads share: `state`, `running`, `startSeq` and whether `startMu` is held; the instances
-- created so far, and those closed, the latest first.
pub record Service : Type 0 where
  pub state : State
  pub instance_of : Option ℕ
  pub start_seq : ℕ
  pub start_mu : Bool
  pub instances : ℕ
  pub closed : List ℕ

-- Who called `Stop`: another thread, or `StartWithContent`, which goes on.
pub data Caller : Type 0 where
  host : Caller
  start : Caller

-- Where a thread is in `InitContext`, `StartWithContent` with `startWithJSON`, `Stop` or `Destroy`.
pub data Thread : Type 0 where
  -- `InitContext`: its swap, the options and directories, the store on failure.
  init : Thread
  init_options : Thread
  init_failed : Thread
  -- `StartWithContent`: the translation, the number taken, the lock, the swap to Starting.
  start_translate : Thread
  start_number : Thread
  start_lock : ℕ → Thread
  start_swap : Thread
  -- `startWithJSON`: the instance, its store, the swap to Running, and what follows on failure.
  start_create : Thread
  start_store : ℕ → Thread
  start_running : Thread
  start_undo : Thread
  start_close : Option ℕ → Thread
  start_failed : Thread
  start_unlock : Thread
  -- `Stop`
  stop_load : Caller → Thread
  stop_swap : State → Caller → Thread
  stop_take : Caller → Thread
  stop_close : Option ℕ → Caller → Thread
  -- `Destroy`
  destroy_load : Thread
  destroy_swap : State → Thread
  destroy_take : Thread
  destroy_close : Option ℕ → Thread
  done : Thread

abbrev pub Outcome : Type 0
Outcome = Bool

-- `casState` (its event is a step of another thread, where the host reacts to it).
abbrev cas : State → State → Thread → Thread → Service → Thread × Service
cas old new won lost s =
    if same_state s.state old then (won, record s { state = new }) else (lost, s)

-- The return of `Stop`.
abbrev after_stop : Caller → Thread
after_stop host = done
after_stop start = start_swap

-- `old.close()`, where there is one.
abbrev close : Option ℕ → Service → Service
close none s = s
close (some i) s = record s { closed = i ∷ s.closed }

-- `StartWithContent` under the lock: a newer request wins.
abbrev locked : ℕ → Service → Thread × Service
locked n s =
    if s.start_mu
    then (start_lock n, s)
    else (if eqb s.start_seq n then stop_load start else start_unlock, record s { start_mu = true })

-- `InitContext`: its swap, what fails in it, and the store that undoes the swap.
abbrev swap_init : Service → Thread × Service
swap_init s = cas created initialized init_options done s

abbrev read_options : Outcome → Service → Thread × Service
read_options ok s = (if ok then done else init_failed, s)

abbrev restore_created : Service → Thread × Service
restore_created s = (done, record s { state = created })

-- `StartWithContent` before the lock: the translation, and the number of the start.
abbrev translate_start : Outcome → Service → Thread × Service
translate_start ok s = (if ok then start_number else done, s)

abbrev number_start : Service → Thread × Service
number_start s = (start_lock (suc s.start_seq), record s { start_seq = suc s.start_seq })

abbrev swap_start : Service → Thread × Service
swap_start s = cas initialized starting start_create start_unlock s

-- `startWithJSON`: the instance, its store, the swap to Running, and the take where that is too late.
abbrev create_instance : Outcome → Service → Thread × Service
create_instance ok s =
    if ok
    then (start_store s.instances, record s { instances = suc s.instances })
    else (start_failed, s)

abbrev store_instance : ℕ → Service → Thread × Service
store_instance i s = (start_running, record s { instance_of = some i })

abbrev swap_running : Service → Thread × Service
swap_running s = cas starting running start_unlock start_undo s

abbrev take_started : Service → Thread × Service
take_started s = (start_close s.instance_of, record s { instance_of = none })

-- The swap back in `StartWithContent`, and its deferred unlock.
abbrev swap_failed : Service → Thread × Service
swap_failed s = cas starting initialized start_unlock start_unlock s

abbrev unlock_start : Service → Thread × Service
unlock_start s = (done, record s { start_mu = false })

-- One atomic operation of a thread; those of `Stop` and `Destroy` are written out here.
unfoldable pub step : Outcome → Thread → Service → Thread × Service
unfolding same_state
step ok init s = swap_init s
step ok init_options s = read_options ok s
step ok init_failed s = restore_created s
step ok start_translate s = translate_start ok s
step ok start_number s = number_start s
step ok (start_lock n) s = locked n s
step ok start_swap s = swap_start s
step ok start_create s = create_instance ok s
step ok (start_store i) s = store_instance i s
step ok start_running s = swap_running s
step ok start_undo s = take_started s
step ok (start_close old) s = (start_unlock, close old s)
step ok start_failed s = swap_failed s
step ok start_unlock s = unlock_start s
step ok (stop_load caller) s = (
  if same_state s.state running || same_state s.state starting
      then stop_swap s.state caller
      else after_stop caller,
  s,
)
step ok (stop_swap old caller) s = cas old initialized (stop_take caller) (stop_load caller) s
step ok (stop_take caller) s = (stop_close s.instance_of caller, record s { instance_of = none })
step ok (stop_close old caller) s = (after_stop caller, close old s)
step ok destroy_load s = (if same_state s.state destroyed then done else destroy_swap s.state, s)
step ok (destroy_swap old) s = cas old destroyed destroy_take destroy_load s
step ok destroy_take s = (destroy_close s.instance_of, record s { instance_of = none })
step ok (destroy_close old) s = (done, close old s)
step ok done s = (done, s)

-- The service with the threads that call it.
pub record System : Type 0 where
  pub service : Service
  pub threads : List Thread

-- The threads after one of them, by its place, made a step; none where there is no such thread.
unfoldable pub step_nth : ℕ → Outcome → List Thread → Service → List Thread × Service
unfolding step
step_nth n ok [] s = ([], s)
step_nth zero ok (th ∷ ths) s = let (th', s') = step ok th s in (th' ∷ ths, s')
step_nth (suc n) ok (th ∷ ths) s = let (ths', s') = step_nth n ok ths s in (th ∷ ths', s')

unfoldable pub run : List (ℕ × Outcome) → System → System
unfolding step_nth
run [] y = y
run ((n, ok) ∷ schedule) y =
    let (ths, s) = step_nth n ok y.threads y.service in
    run schedule (record { service = s; threads = ths })
