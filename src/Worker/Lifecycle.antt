-- ===== src/Worker/Lifecycle.antt =====
-- Operations one after the other.
use acb_transaction_webhook.Base.{◌≡◌, ◌≢◌, refl, true, List, [], ◌∷◌, arith}
use acb_transaction_webhook.Worker.{
  stopping, done, Hooks, Coordinator, is_draining, set_ready, quiesce, resume, drain, stop,
  check_work_allowed,
}

pub data Operation : Type 0 where
  to_ready to_resume to_drain to_stop : Operation
  to_quiesce : Hooks → Operation

unfoldable pub operate : Operation → Coordinator → Coordinator
operate to_ready c = (set_ready c).1
operate to_resume c = (resume c).1
operate to_drain c = (drain c).1
operate to_stop c = (stop c).1
operate (to_quiesce runs) c = (quiesce runs c).1

unfoldable pub operate_all : List Operation → Coordinator → Coordinator
operate_all [] c = c
operate_all (o ∷ os) c = operate_all os (operate o c)

stays_draining :
    (o : Operation) (c : Coordinator)
    → is_draining c.state ≡ true
    → is_draining (operate o c).state ≡ true
unfolding operate set_ready resume drain stop quiesce
stays_draining to_ready c h = ground arith
stays_draining to_resume c h = ground arith
stays_draining to_drain c h = ground arith
stays_draining to_stop c h = ground arith
stays_draining (to_quiesce runs) c h = ground arith

stays_stopping : (o : Operation) (c : Coordinator) → c.state ≡ stopping → operate o c ≡ c
unfolding operate set_ready resume drain stop quiesce
stays_stopping to_ready c h = ground arith
stays_stopping to_resume c h = ground arith
stays_stopping to_drain c h = ground arith
stays_stopping to_stop c h = ground arith
stays_stopping (to_quiesce runs) c h = ground arith

all_draining :
    (os : List Operation) (c : Coordinator)
    → is_draining c.state ≡ true
    → is_draining (operate_all os c).state ≡ true
unfolding operate_all
all_draining [] c h = h
all_draining (o ∷ os) c h = all_draining os (operate o c) (stays_draining o c h)

drain_drains : (c : Coordinator) → is_draining (drain c).1.state ≡ true
unfolding drain
drain_drains c = ground arith

work_refused : (c : Coordinator) → is_draining c.state ≡ true → check_work_allowed c ≢ done
unfolding check_work_allowed
work_refused c h = ground arith

-- Whatever operations follow a drain one after the other, readying, resuming and quiescing
-- included, the worker is draining or stopping and takes no new work.
pub drained_for_good :
    (c : Coordinator) (os : List Operation)
    → (is_draining (operate_all os (drain c).1).state ≡ true)
      × (check_work_allowed (operate_all os (drain c).1) ≢ done)
drained_for_good c os =
    let d = all_draining os (drain c).1 (drain_drains c) in
    (d, work_refused (operate_all os (drain c).1) d)

stop_stops : (c : Coordinator) → (stop c).1.state ≡ stopping
unfolding stop
stop_stops c = ground arith

all_stopping : (os : List Operation) (c : Coordinator) → c.state ≡ stopping → operate_all os c ≡ c
unfolding operate_all
all_stopping [] c h = refl
all_stopping (o ∷ os) c h = rw (stays_stopping o c h) (all_stopping os c h)

-- A stopped worker is not changed by any sequence of later operations.
pub stopped_for_good :
    (c : Coordinator) (os : List Operation) → operate_all os (stop c).1 ≡ (stop c).1
stopped_for_good c os = all_stopping os (stop c).1 (stop_stops c)
