-- ===== src/Reconcile/Backoff.antt =====
-- When a failed reconciliation is tried again, and what it may write.
use mathlib.Core.Path.{subst}
use acb_transaction_webhook.Base.{
  is_blank, ℕ, zero, suc, ◌+◌, ◌*◌, ◌/◌, ◌-◌, ◌≤◌, ◌<◌, ◌≡◌, refl, true, false, Bool, Option, none,
  some, arith, max, if◌then◌else◌, not, ◌&&◌,
}
use acb_transaction_webhook.Base.Clock.{Instant, second, minute}
use acb_transaction_webhook.Store.{
  is_paid, OrderStatus, StatusText, blank, known, unrecognized, PaymentOrder, creating, pending,
  processing, underpaid, paid, cancelled, expired, failed,
}
use acb_transaction_webhook.Orders.Lease.{PaymentOrderUpdate}
use acb_transaction_webhook.Orders.Lease.Overtaken.{IsAllowed}
use acb_transaction_webhook.Reconcile.{
  with_jitter, with_retry_after, is_cancel_unknown, is_pending_status, doubled, base_delay,
  failure_delay, failure_update, LinkAction, finishes, PaymentLink, apply_verified_link,
  link_of_status, open_link, closed_link, verified_link_matches,
}

doubled_least : (rounds delay : ℕ) → delay ≤ doubled rounds delay
unfolding doubled
doubled_least zero delay = omega arith
doubled_least (suc rounds) delay = ground (arith, doubled_least rounds (delay * 2))

base_delay_bounds :
    (attempt : ℕ) → (30 * second ≤ base_delay attempt) × (base_delay attempt ≤ 15 * minute)
unfolding base_delay
base_delay_bounds attempt =
    let least = doubled_least (attempt - 1) (30 * second) in (omega (arith, least), omega arith)

-- `rand.Int` draws below its bound, or fails.
unfoldable pub IsDraw : (ℕ → Option ℕ) → Type 0
IsDraw jitter = (bound j : ℕ) → jitter bound ≡ some j → j < bound

with_jitter_bounds :
    (delay : ℕ) (o : Option ℕ)
    → ((j : ℕ) → o ≡ some j → j < delay / 5 + 1)
    → (delay ≤ with_jitter o delay) × (with_jitter o delay ≤ delay + delay / 5)
with_jitter_bounds delay none h = (omega arith, omega arith)
with_jitter_bounds delay (some j) h = let below = h j refl in (omega arith, omega (arith, below))

-- What the provider asks for; 0 if it does not.
abbrev pub asked : Option ℕ → ℕ
asked none = 0
asked (some wait) = wait

with_retry_after_bounds :
    (r : Option ℕ) (delay : ℕ)
    → (delay ≤ with_retry_after r delay)
      × (asked r ≤ with_retry_after r delay)
      × (with_retry_after r delay ≤ max (asked r) delay)
with_retry_after_bounds none delay = (omega arith, omega arith, omega arith)
with_retry_after_bounds (some wait) delay = (omega arith, omega arith, omega arith)

-- The wait after a failed attempt, with a jitter that is drawn below its bound or not at all, is
-- at least 30 seconds, at least what the provider asks for, and at most 18 minutes unless the
-- provider asks for more.
pub failure_delay_bounds :
    (jitter : ℕ → Option ℕ) (retry_after : Option ℕ) (attempt : ℕ)
    → IsDraw jitter
    → (30 * second ≤ failure_delay jitter retry_after attempt)
      × (asked retry_after ≤ failure_delay jitter retry_after attempt)
      × (failure_delay jitter retry_after attempt ≤ max (asked retry_after) (18 * minute))
unfolding failure_delay IsDraw
failure_delay_bounds jitter retry_after attempt draws =
    let delay = base_delay attempt in
    let (low, high) = base_delay_bounds attempt in
    let (j_low, j_high) =
      with_jitter_bounds delay (jitter (delay / 5 + 1)) (draws (delay / 5 + 1)) in
    let (r_low, r_asked, r_high) =
      with_retry_after_bounds retry_after (with_jitter (jitter (delay / 5 + 1)) delay) in
    (omega (arith, low, j_low, r_low), r_asked, omega (arith, high, j_high, r_high))

-- A completion that the reconciler asks for, if any.
pub Finishes : LinkAction → Type 0
Finishes (finishes u) = IsAllowed u
Finishes _ = Unit

Finishes-if :
    (b : Bool) (x y : LinkAction) → Finishes x → Finishes y → Finishes (if b then x else y)
Finishes-if true x y hx hy = hx
Finishes-if false x y hx hy = hy

open_link-Finishes :
    (now : Instant) (order : PaymentOrder) (link : PaymentLink) (s : OrderStatus)
    → is_paid s ≡ false
    → Finishes (open_link now order link s)
unfolding Finishes open_link
open_link-Finishes now order link s unpaid =
    Finishes-if (is_cancel_unknown order.last_error_code) _ _ tt (
      Finishes-if (is_blank order.qr_code && is_pending_status s) _ _
        (Finishes-if order.qr_recovery_attempted _ _ tt tt) (ground (arith, unpaid)))

closed_link-Finishes :
    (now : Instant) (order : PaymentOrder) (link : PaymentLink) (s : OrderStatus)
    → is_paid s ≡ false
    → Finishes (closed_link now order link s)
unfolding Finishes closed_link
closed_link-Finishes now order link s unpaid = ground (arith, unpaid)

link_of_status-Finishes :
    (jitter : ℕ → Option ℕ) (now : Instant) (order : PaymentOrder) (link : PaymentLink)
    (s : StatusText)
    → Finishes (link_of_status jitter now order link s)
unfolding Finishes link_of_status failure_update
link_of_status-Finishes jitter now order link (known creating) = refl
link_of_status-Finishes jitter now order link (known pending) =
    open_link-Finishes now order link pending refl
link_of_status-Finishes jitter now order link (known processing) =
    open_link-Finishes now order link processing refl
link_of_status-Finishes jitter now order link (known underpaid) =
    open_link-Finishes now order link underpaid refl
link_of_status-Finishes jitter now order link (known paid) = tt
link_of_status-Finishes jitter now order link (known cancelled) =
    closed_link-Finishes now order link cancelled refl
link_of_status-Finishes jitter now order link (known expired) =
    closed_link-Finishes now order link expired refl
link_of_status-Finishes jitter now order link (known failed) =
    closed_link-Finishes now order link failed refl
link_of_status-Finishes jitter now order link blank = refl
link_of_status-Finishes jitter now order link (unrecognized t) = refl

apply-Finishes :
    (jitter : ℕ → Option ℕ) (now : Instant) (order : PaymentOrder) (link : Option PaymentLink)
    → Finishes (apply_verified_link jitter now order link)
unfolding Finishes apply_verified_link failure_update
apply-Finishes jitter now order none = refl
apply-Finishes jitter now order (some link) =
    Finishes-if (not (verified_link_matches order (some link))) _ _ refl
      (link_of_status-Finishes jitter now order link link.status)

pub link_updates-IsAllowed :
    (jitter : ℕ → Option ℕ) (now : Instant) (order : PaymentOrder) (link : Option PaymentLink)
    {u : PaymentOrderUpdate}
    → apply_verified_link jitter now order link ≡ finishes u
    → IsAllowed u
unfolding Finishes
link_updates-IsAllowed jitter now order link e =
    subst Finishes e (apply-Finishes jitter now order link)
