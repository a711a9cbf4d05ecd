-- ===== src/Core/Service/Alone.antt =====
-- A call of the service (core/service.go) that no other call interrupts.
use cff_core.Base.{
  ℕ, zero, suc, Bool, true, false, List, [], ◌∷◌, Option, none, some, is_some, if◌then◌else◌, eqb,
  ◌≡◌, refl, arith,
}
use cff_core.Core.Service.{
  initialized, running, destroyed, Service, Thread, Outcome, same_state, step, start_translate,
  stop_load, host, destroy_load, done,
}

-- The steps of one thread with their outcomes.
unfoldable pub alone : List Outcome → Thread × Service → Thread × Service
unfolding step
alone [] y = y
alone (ok ∷ oks) (th, s) = alone oks (step ok th s)

abbrev pub always : Outcome → ℕ → List Outcome
always ok zero = []
always ok (suc n) = ok ∷ always ok n

-- The service between two calls, once it is initialized: the instance that runs, if one does.
abbrev pub settled : Option ℕ → ℕ → ℕ → List ℕ → Service
settled old seq n closed = record {
  state = if is_some old then running else initialized;
  instance_of = old;
  start_seq = seq;
  start_mu = false;
  instances = n;
  closed = closed;
}

-- The instance that was running is closed.
abbrev pub with_closed : Option ℕ → List ℕ → List ℕ
with_closed none closed = closed
with_closed (some i) closed = i ∷ closed

eqb_refl : (n : ℕ) → eqb n n ≡ true
eqb_refl n = ground arith

-- `StartWithContent` that is not interrupted, on a service that is Initialized without an instance or Running with
-- one, with the lock free: where
-- the translation fails it leaves the service as it is; otherwise it takes the next number, closes the instance
-- that ran, and runs a new one, or leaves the service Initialized where the creation fails. It takes at most 14
-- steps.
pub start-alone :
    (translated created : Bool) (old : Option ℕ) (seq n : ℕ) (closed : List ℕ)
    → alone (translated ∷ always created 13) (start_translate, settled old seq n closed) ≡ (
      done,
      if translated
          then settled
              (if created then some n else none)
              (suc seq)
              (if created then suc n else n)
              (with_closed old closed)
          else settled old seq n closed,
    )
unfolding alone step same_state
start-alone false true old seq n closed = refl
start-alone false false old seq n closed = refl
start-alone true true none seq n closed = rw (eqb_refl (suc seq)) refl
start-alone true true (some i) seq n closed = rw (eqb_refl (suc seq)) refl
start-alone true false none seq n closed = rw (eqb_refl (suc seq)) refl
start-alone true false (some i) seq n closed = rw (eqb_refl (suc seq)) refl

-- `Stop` and `Destroy` that are not interrupted close the instance that ran, if one did; after `Stop` the
-- service can start again, and `Destroy` leaves it Destroyed with no instance.
pub stop-alone :
    (ok : Outcome) (old : Option ℕ) (seq n : ℕ) (closed : List ℕ)
    → (alone (always ok 4) (stop_load host, settled old seq n closed)
        ≡ (done, settled none seq n (with_closed old closed)))
      × (alone (always ok 4) (destroy_load, settled old seq n closed)
          ≡ (done, record (settled none seq n (with_closed old closed)) { state = destroyed }))
unfolding alone step same_state
stop-alone ok none seq n closed = (refl, refl)
stop-alone ok (some i) seq n closed = (refl, refl)
