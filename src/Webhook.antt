-- ===== src/Webhook.antt =====
-- linux_net/services/rpc.py: the delivery of webhooks and its retries. What is sent, the plugin and
-- the HTTP request are not part of it: whether a delivery succeeds is an argument.
pub mod Attempts
use linux_net_x.Base.{
  ℕ, ◌+◌, Bool, true, false, Option, none, some, List, [], ◌∷◌, ◌++◌, leb, ltb, ◌==◌, if◌then◌else◌,
  length, get_elem?,
}
use linux_net_x.Nodes.{Error, index_error}

-- A delay in seconds is any value of `Delay`, and `ten` the default one.
module _ (Delay : Type 0) (ten : Delay) (Payload : Type 0) where
  -- The entries of `WebHook` (linux_net/models/common.py) that govern retries.
  pub record WebHook : Type 0 where
    pub max_retries : ℕ
    pub retry_intervals : List Delay

  -- A `dispatch_webhook` job that is put on the FIFO queue for later.
  pub record Retry : Type 0 where
    pub delay : Delay
    pub payload : Payload
    pub attempt : ℕ

  -- `intervals[-1]`
  last : List Delay → Option Delay
  last [] = none
  last (d ∷ []) = some d
  last (d ∷ e ∷ intervals) = last (e ∷ intervals)

  delay_of : List Delay → ℕ → Option Delay
  unfolding last
  delay_of intervals attempt =
      if ltb attempt (length intervals) then get_elem? intervals attempt else last intervals

  enqueue_in : Bool → Retry → List Retry → List Retry
  enqueue_in conn retry queue = if conn then queue ++ retry ∷ [] else queue

  retry_or_fail : Bool → Payload → ℕ → Option Delay → List Retry → Option Error × List Retry
  unfolding enqueue_in
  retry_or_fail conn payload next_attempt none queue = (some index_error, queue)
  retry_or_fail conn payload next_attempt (some d) queue = (
    none,
    enqueue_in conn (record { delay = d; payload = payload; attempt = next_attempt }) queue,
  )

  -- `dispatch_webhook`, with the exception that escapes, if any. `delivered` is whether the request succeeds, `conn` whether the job has a
  -- connection.
  pub dispatch_webhook :
      WebHook → Payload → Bool → Bool → ℕ → List Retry → Option Error × List Retry
  unfolding retry_or_fail delay_of
  dispatch_webhook w payload conn true attempt queue = (none, queue)
  dispatch_webhook w payload conn false attempt queue =
      if leb (attempt + 1) w.max_retries
      then retry_or_fail conn payload (attempt + 1) (delay_of w.retry_intervals attempt) queue
      else (none, queue)

  first_delay : List Delay → Delay
  first_delay [] = ten
  first_delay (d ∷ intervals) = d

  retry_of_call : Option WebHook → Option Payload → Bool → List Retry → List Retry
  unfolding first_delay enqueue_in
  retry_of_call none built conn queue = queue
  retry_of_call (some w) none conn queue = queue
  retry_of_call (some w) (some payload) conn queue =
      if w.max_retries == 0
      then queue
      else enqueue_in conn
          (record { delay = first_delay w.retry_intervals; payload = payload; attempt = 1 }) queue

  -- `_dispatch_webhook_with_retry`. `called` is whether the plugin delivers, `built` the payload
  -- that it builds, if it does.
  pub dispatch_webhook_with_retry :
      Bool → Option WebHook → Option Payload → Bool → List Retry → List Retry
  unfolding retry_of_call
  dispatch_webhook_with_retry true webhook built conn queue = queue
  dispatch_webhook_with_retry false webhook built conn queue =
      retry_of_call webhook built conn queue
