-- ===== src/Examples/Reconciling.antt =====
-- Runs of the reconciler's decisions.
use acb_transaction_webhook.Base.{
  ℕ, ◌*◌, ◌≤◌, ◌≡◌, refl, true, false, Option, none, some, [], ◌∷◌, ok, max, inl,
}
use acb_transaction_webhook.Base.Clock.{second, minute, stamped}
use acb_transaction_webhook.Store.{known, paid}
use acb_transaction_webhook.Outbox.{catch_up}
use acb_transaction_webhook.Reconcile.{
  PaymentLink, LinkTransaction, pos, verified_link_matches, verified_link_settlement,
  paid_link_settlement, single_transaction, settlement_of, failure_delay,
}
use acb_transaction_webhook.Reconcile.Backoff.{IsDraw, asked, failure_delay_bounds}
use acb_transaction_webhook.Reconcile.Evidence.{verified_link_accepted}
use acb_transaction_webhook.Settlement.Judge.{
  SettlementInput, terms_reason, get_matches, is_space_only,
}
use acb_transaction_webhook.Examples.{linked, payment}

abbrev transfer : LinkTransaction
transfer = record {
  reference = "FT1";
  amount = 50000;
  account_number = "0123";
  description = "DH1000000000001";
  transaction_date_time = stamped (150 * second);
  virtual_account_number = none;
}

abbrev paid_link : PaymentLink
paid_link = record {
  id = "link";
  order_code = 1000000000001;
  amount = 50000;
  amount_paid = 50000;
  amount_remaining = pos 0;
  status = known paid;
  transactions = transfer ∷ [];
}

abbrev caught_up : SettlementInput
caught_up = record payment { source = catch_up }

link_run : verified_link_settlement linked (some paid_link) ≡ ok caught_up
unfolding verified_link_settlement verified_link_matches paid_link_settlement single_transaction
    settlement_of is_space_only
link_run = refl

verified_link_accepted_example :
    (get_matches caught_up ≡ true) × (terms_reason caught_up linked false ≡ none)
verified_link_accepted_example =
    verified_link_accepted linked (some paid_link) false link_run (inl refl)

-- No jitter but the least.
abbrev no_jitter : ℕ → Option ℕ
no_jitter bound = none

no_jitter-IsDraw : IsDraw no_jitter
unfolding IsDraw
no_jitter-IsDraw bound j h = absurd (cc)

failure_delay_bounds_example :
    (30 * second ≤ failure_delay no_jitter (some (60 * second)) 3)
    × (asked (some (60 * second)) ≤ failure_delay no_jitter (some (60 * second)) 3)
    × (failure_delay no_jitter (some (60 * second)) 3
        ≤ max (asked (some (60 * second))) (18 * minute))
failure_delay_bounds_example =
    failure_delay_bounds no_jitter (some (60 * second)) 3 no_jitter-IsDraw
