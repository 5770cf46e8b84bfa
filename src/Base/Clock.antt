-- ===== src/Base/Clock.antt =====
-- Instants and the texts that the store keeps of them (Go's time.Time, time.RFC3339Nano).
use acb_transaction_webhook.Base.{
  ℕ, zero, suc, ◌+◌, ◌%◌, ltb, ◌==◌, ◌&&◌, if◌then◌else◌, ◌*◌, ◌/◌, ◌^◌, Bool, true, false, Option,
  none, some,
}

-- Nanoseconds since Go's zero time, so `t.IsZero()` is `t == 0`.
abbrev pub Instant : Type 0
Instant = ℕ

abbrev pub second : ℕ
second = 10 ^ 9

abbrev pub minute : ℕ
minute = 60 * second

abbrev pub hour : ℕ
hour = 60 * minute

-- A text column that holds a time: NULL or '', a text that time.Parse refuses, or an instant.
pub data Stamp : Type 0 where
  absent : Stamp
  garbled : Stamp
  stamped : Instant → Stamp

-- `time.Parse`; the empty text is refused as well.
abbrev pub parse_stamp : Stamp → Option Instant
parse_stamp absent = none
parse_stamp garbled = none
parse_stamp (stamped t) = some t

abbrev pub is_absent : Stamp → Bool
is_absent absent = true
is_absent garbled = false
is_absent (stamped t) = false

-- `Format(time.RFC3339)` keeps whole seconds, `Format(time.RFC3339Nano)` all of the instant.
abbrev pub to_seconds : Instant → Instant
to_seconds t = t / second * second

-- SQL compares the texts of time.RFC3339Nano, which drops trailing zeros of the fraction: a digit
-- comes before the final Z, and so does the point. The key of the fraction has a digit 10 for each
-- place that is dropped.
unfoldable pub fraction_key : ℕ → Bool → ℕ → ℕ
fraction_key zero trailing f = 0
fraction_key (suc places) trailing f =
    let dropped = trailing && (f % 10 == 0) in
    let higher = fraction_key places dropped (f / 10) in
    higher * 11 + (if dropped then 10 else f % 10)

unfoldable pub text_key : Instant → ℕ
text_key t = t / second * 11 ^ 9 + fraction_key 9 true (t % second)

-- `a < b` on the texts.
abbrev pub text_before : Instant → Instant → Bool
text_before a b = ltb (text_key a) (text_key b)
