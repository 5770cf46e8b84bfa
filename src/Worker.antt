-- ===== src/Worker.antt =====
-- The worker's lifecycle: internal/workerstate/runtime.go. A critical section under the mutex is
-- one function; an operation that releases the mutex to run its hooks is a function for each of its
-- sections, and the operation with nothing in between is their composition.
pub mod Lifecycle
pub mod Races
use acb_transaction_webhook.Base.{
  ℕ, Bool, true, false, List, [], ◌∷◌, ◌++◌, ◌&&◌, ◌||◌, if◌then◌else◌,
}

pub data State : Type 0 where
  starting ready quiescing quiesced draining stopping : State

pub data Failure : Type 0 where
  worker_draining worker_stopping worker_quiesced not_started : Failure
  invalid_transition : State → Failure
  quiesce_hook_failed : Failure

pub data Outcome : Type 0 where
  done : Outcome
  refused : Failure → Outcome

-- A hook is named by a number; `runs k` says whether hook k returns no error.
abbrev pub Hooks : Type 0
Hooks = ℕ → Bool

pub record Coordinator : Type 0 where
  pub state : State
  pub drain_hooks : List ℕ
  pub stop_hooks : List ℕ
  pub quiesce_hooks : List ℕ
  pub resume_hooks : List ℕ
  pub drain_done : Bool
  pub stop_done : Bool

unfoldable pub new_coordinator : Coordinator
new_coordinator = record {
  state = starting;
  drain_hooks = [];
  stop_hooks = [];
  quiesce_hooks = [];
  resume_hooks = [];
  drain_done = false;
  stop_done = false;
}

abbrev pub is_ready : State → Bool
is_ready ready = true
is_ready _ = false

abbrev pub is_draining : State → Bool
is_draining draining = true
is_draining stopping = true
is_draining _ = false

abbrev pub is_quiesced : State → Bool
is_quiesced quiescing = true
is_quiesced quiesced = true
is_quiesced _ = false

set_ready_from : State → Coordinator → Outcome × Coordinator
set_ready_from starting c = (done, record c { state = ready })
set_ready_from s c = (refused (invalid_transition s), c)

unfoldable pub set_ready : Coordinator → Outcome × Coordinator
unfolding set_ready_from
set_ready c = set_ready_from c.state c

unfoldable pub register_drain_hook : ℕ → Coordinator → Coordinator
register_drain_hook k c = record c { drain_hooks = c.drain_hooks ++ k ∷ [] }

unfoldable pub register_stop_hook : ℕ → Coordinator → Coordinator
register_stop_hook k c = record c { stop_hooks = c.stop_hooks ++ k ∷ [] }

unfoldable pub register_quiesce_hook : ℕ → Coordinator → Coordinator
register_quiesce_hook k c = record c { quiesce_hooks = c.quiesce_hooks ++ k ∷ [] }

unfoldable pub register_resume_hook : ℕ → Coordinator → Coordinator
register_resume_hook k c = record c { resume_hooks = c.resume_hooks ++ k ∷ [] }

-- What the first section of an operation decides: to return, or to go on with these hooks.
pub data Entry : Type 0 where
  returned : Outcome → Entry
  running : List ℕ → Entry

quiesce_from : State → Coordinator → Entry × Coordinator
quiesce_from quiesced c = (returned done, c)
quiesce_from draining c = (returned (refused worker_stopping), c)
quiesce_from stopping c = (returned (refused worker_stopping), c)
quiesce_from _ c = (running c.quiesce_hooks, record c { state = quiescing })

unfoldable pub quiesce_begin : Coordinator → Entry × Coordinator
unfolding quiesce_from
quiesce_begin c = quiesce_from c.state c

-- The hooks run in order up to the first that fails.
pub all_run : Hooks → List ℕ → Bool
all_run runs [] = true
all_run runs (k ∷ ks) = runs k && all_run runs ks

-- The last section sets the state, whatever it has become in the meantime.
unfoldable pub quiesce_end : Bool → Coordinator → Outcome × Coordinator
quiesce_end true c = (done, record c { state = quiesced })
quiesce_end false c = (refused quiesce_hook_failed, record c { state = ready })

unfoldable pub quiesce_rest : Hooks → Entry × Coordinator → Outcome × Coordinator
unfolding quiesce_end
quiesce_rest runs (returned o, c) = (o, c)
quiesce_rest runs (running ks, c) = quiesce_end (all_run runs ks) c

unfoldable pub quiesce : Hooks → Coordinator → Outcome × Coordinator
unfolding quiesce_begin quiesce_rest
quiesce runs c = quiesce_rest runs (quiesce_begin c)

resume_from : State → Coordinator → Entry × Coordinator
resume_from ready c = (returned done, c)
resume_from quiesced c = (running c.resume_hooks, c)
resume_from quiescing c = (running c.resume_hooks, c)
resume_from s c = (returned (refused (invalid_transition s)), c)

unfoldable pub resume_begin : Coordinator → Entry × Coordinator
unfolding resume_from
resume_begin c = resume_from c.state c

-- An error of a resume hook is only logged.
unfoldable pub resume_end : Coordinator → Outcome × Coordinator
resume_end c = (done, record c { state = ready })

unfoldable pub resume_rest : Entry × Coordinator → Outcome × Coordinator
unfolding resume_end
resume_rest (returned o, c) = (o, c)
resume_rest (running ks, c) = resume_end c

unfoldable pub resume : Coordinator → Outcome × Coordinator
unfolding resume_begin resume_rest
resume c = resume_rest (resume_begin c)

drain_from : State → Coordinator → Entry × Coordinator
drain_from draining c = (returned done, c)
drain_from stopping c = (returned (refused worker_stopping), c)
drain_from _ c = (running c.drain_hooks, record c { state = draining })

-- A second drain waits for `drainDone` and returns nil.
unfoldable pub drain_begin : Coordinator → Entry × Coordinator
unfolding drain_from
drain_begin c = drain_from c.state c

unfoldable pub drain_rest : Entry × Coordinator → Outcome × Coordinator
drain_rest (returned o, c) = (o, c)
drain_rest (running ks, c) = (done, record c { drain_done = true })

unfoldable pub drain : Coordinator → Outcome × Coordinator
unfolding drain_begin drain_rest
drain c = drain_rest (drain_begin c)

stop_from : State → Coordinator → Entry × Coordinator
stop_from stopping c = (returned done, c)
stop_from _ c = (running c.stop_hooks, record c { state = stopping })

unfoldable pub stop_begin : Coordinator → Entry × Coordinator
unfolding stop_from
stop_begin c = stop_from c.state c

unfoldable pub stop_rest : Entry × Coordinator → Outcome × Coordinator
stop_rest (returned o, c) = (o, c)
stop_rest (running ks, c) = (done, record c { stop_done = true })

unfoldable pub stop : Coordinator → Outcome × Coordinator
unfolding stop_begin stop_rest
stop c = stop_rest (stop_begin c)

check_work_from : State → Outcome
check_work_from ready = done
check_work_from quiescing = refused worker_quiesced
check_work_from quiesced = refused worker_quiesced
check_work_from draining = refused worker_draining
check_work_from stopping = refused worker_stopping
check_work_from starting = refused not_started

unfoldable pub check_work_allowed : Coordinator → Outcome
unfolding check_work_from
check_work_allowed c = check_work_from c.state
