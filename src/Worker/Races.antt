-- ===== src/Worker/Races.antt =====
-- Operations whose sections interleave: the last section of a quiesce overwrites what came between.
use acb_transaction_webhook.Base.{ℕ, ◌≡◌, refl, true, false, List, arith}
use acb_transaction_webhook.Worker.{
  quiesced, stopping, done, running, Hooks, Coordinator, quiesce_begin, quiesce_end, stop,
  check_work_allowed, all_run,
}

-- A stop that runs while the hooks of a quiesce run, if it began with any, is undone by the end of the quiesce: the worker
-- is quiesced if the hooks succeed, and if one of them fails it is ready and takes new work.
pub quiesce_undoes_stop :
    (runs : Hooks) (c : Coordinator) (ks : List ℕ)
    → (quiesce_begin c).0 ≡ running ks
    → let after = quiesce_end (all_run runs ks) (stop (quiesce_begin c).1).1 in
      ((stop (quiesce_begin c).1).1.state ≡ stopping)
      × (all_run runs ks ≡ true → after.1.state ≡ quiesced)
      × (all_run runs ks ≡ false → check_work_allowed after.1 ≡ done)
unfolding quiesce_begin quiesce_end stop check_work_allowed
quiesce_undoes_stop runs c ks h = (ground arith, (λ e. rw e refl), (λ e. rw e refl))
