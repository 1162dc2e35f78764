-- ===== src/Retry.antt =====
-- wg-ondemand/src/main.rs: the task that retries the attachment while the interface has no address.
pub mod Backoff
use wg_ondemand.Base.{ℕ, ◌+◌, ◌*◌, Bool, Option, none, some, leb, if◌then◌else◌, Result, ok, err}

abbrev pub max_attachment_retries : ℕ
max_attachment_retries = 5

abbrev pub initial_retry_delay_secs : ℕ
initial_retry_delay_secs = 1

-- A task that sleeps: the number of its attempt, and the delay before it.
pub record RetryTask : Type 0 where
  pub attempt : ℕ
  pub delay_secs : ℕ

unfoldable pub spawned : RetryTask
spawned = record { attempt = 1; delay_secs = initial_retry_delay_secs }

-- What the task does when its sleep is over.
pub data Wake : Type 0 where
  sends : Wake
  sleeps : RetryTask → Wake
  gives_up : Wake

-- The end of the loop's body.
next_attempt : RetryTask → Wake
next_attempt t =
    if leb max_attachment_retries t.attempt
    then gives_up
    else sleeps (record { attempt = t.attempt + 1; delay_secs = t.delay_secs * 2 })

-- The body of the loop behind the sleep, given the interface's address.
unfoldable pub wake : RetryTask → Result (Option ℕ) → Wake
unfolding next_attempt
wake t (ok (some ip)) = sends
wake t (ok none) = next_attempt t
wake t (err e) = next_attempt t
