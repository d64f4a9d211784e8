-- ===== src/Webhook/Attempts.antt =====
-- How often a webhook is delivered.
use linux_net_x.Base.{
  ℕ, zero, suc, ◌+◌, ◌≤◌, ◌<◌, ◌≡◌, ◌≢◌, refl, ap, inl, inr, Bool, true, false, some, List, [], ◌∷◌,
  leb, ltb, ◌==◌, ◌∙◌, if◌then◌else◌, length, arith, Bool-cases, get_elem?-lt,
}
use linux_net_x.Webhook.{
  WebHook, Retry, last, delay_of, retry_or_fail, enqueue_in, dispatch_webhook, retry_of_call,
  first_delay, dispatch_webhook_with_retry,
}

module _ (Delay : Type 0) (ten : Delay) (Payload : Type 0) where
  module _ (w : WebHook Delay ten Payload) (payload : Payload) (delivers : ℕ → Bool) where
    -- The attempts that follow one another when each queued retry is run in its turn.
    abbrev pub chain : ℕ → List (Retry Delay ten Payload) → List ℕ
    chain fuel [] = []
    chain zero (r ∷ queue) = []
    chain (suc fuel) (r ∷ queue) =
        r.attempt
        ∷ chain fuel
            (dispatch_webhook Delay ten Payload w r.payload true (delivers r.attempt) r.attempt
              queue).1

    -- The attempts from `attempt` on: one after the other until one succeeds, `left` retries at most.
    abbrev pub tries : ℕ → ℕ → List ℕ
    tries zero attempt = attempt ∷ []
    tries (suc left) attempt =
        let rest = tries left (attempt + 1) in attempt ∷ (if delivers attempt then [] else rest)

    last-some :
        (d : Delay) (intervals : List Delay)
        → (e : Delay) × (last Delay ten Payload (d ∷ intervals) ≡ some e)
    unfolding last
    last-some d [] = (d, refl)
    last-some d (e ∷ intervals) = last-some e intervals

    delay_of-some :
        (intervals : List Delay) (attempt : ℕ)
        → intervals ≢ []
        → (e : Delay) × (delay_of Delay ten Payload intervals attempt ≡ some e)
    unfolding delay_of
    delay_of-some [] attempt ne = absurd (ne refl)
    delay_of-some (d ∷ intervals) attempt ne =
        elim (Bool-cases (ltb attempt (length (d ∷ intervals)))) [
          | inl e ↦ rw e (get_elem?-lt (d ∷ intervals) attempt (ground arith))
          | inr e ↦ rw e (last-some d intervals)
        ]

    chain_of_none :
        (fuel : ℕ) (r : Retry Delay ten Payload) → r.attempt ∷ chain fuel [] ≡ r.attempt ∷ []
    chain_of_none fuel r = refl

    -- A failed attempt with retries left queues the next attempt.
    dispatch-next :
        (p : Payload) (attempt : ℕ)
        → w.retry_intervals ≢ []
        → attempt < w.max_retries
        → (r : Retry Delay ten Payload) × ((dispatch_webhook Delay ten Payload w p true false
              attempt []).1
            ≡ r ∷ [])
          × (r.attempt ≡ attempt + 1)
    unfolding dispatch_webhook retry_or_fail enqueue_in
    dispatch-next p attempt ne lt =
        let more : leb (attempt + 1) w.max_retries ≡ true = ground arith in
        let (d, e) = delay_of-some w.retry_intervals attempt ne in
        (record { delay = d; payload = p; attempt = attempt + 1 }, rw more (rw e refl), refl)

    -- A success, or a failure at the last attempt, queues nothing.
    dispatch-last :
        (p : Payload) (delivered : Bool) (attempt : ℕ)
        → w.max_retries ≤ attempt
        → (dispatch_webhook Delay ten Payload w p true delivered attempt []).1 ≡ []
    unfolding dispatch_webhook
    dispatch-last p true attempt le = refl
    dispatch-last p false attempt le =
        let over : leb (attempt + 1) w.max_retries ≡ false = ground arith in rw over refl

    chain-tries :
        (left fuel : ℕ) (r : Retry Delay ten Payload)
        → w.retry_intervals ≢ []
        → r.attempt + left ≡ w.max_retries
        → left < fuel
        → chain fuel (r ∷ []) ≡ tries left r.attempt
    unfolding dispatch_webhook
    chain-tries zero zero r ne e enough = absurd (omega arith)
    chain-tries (suc left) zero r ne e enough = absurd (omega arith)
    chain-tries zero (suc fuel) r ne e enough =
        ap (λ q. r.attempt ∷ chain fuel q)
          (dispatch-last r.payload (delivers r.attempt) r.attempt (omega arith))
        ∙ chain_of_none fuel r
    chain-tries (suc left) (suc fuel) r ne e enough = elim (Bool-cases (delivers r.attempt)) [
      | inl yes_it ↦ rw yes_it (chain_of_none fuel r)
      | inr no_it ↦
          let (r', q, a) = dispatch-next r.payload r.attempt ne (omega arith) in
          rw (no_it, q)
            (ap (λ l. r.attempt ∷ l)
              (chain-tries left fuel r' ne (omega (arith, a)) (omega arith) ∙ ap (tries left) a))
    ]

  -- A webhook whose plugin call failed, whose payload can be built, and which has delays and allows
  -- retries, is delivered again while deliveries fail and the allowed retries last: the retries are
  -- the attempts from 1 on up to the first success, and at most `max_retries` of them. Running as
  -- many jobs as that, or more, ends the chain.
  pub retries_of_webhook :
      (w : WebHook Delay ten Payload) (payload : Payload) (delivers : ℕ → Bool) (left fuel : ℕ)
      → w.retry_intervals ≢ []
      → w.max_retries ≡ left + 1
      → w.max_retries ≤ fuel
      → chain w payload delivers fuel
          (dispatch_webhook_with_retry Delay ten Payload false (some w) (some payload) true [])
        ≡ tries w payload delivers left 1
  unfolding dispatch_webhook_with_retry retry_of_call enqueue_in
  retries_of_webhook w payload delivers left fuel ne allowed enough =
      let some_retries : (w.max_retries == 0) ≡ false = ground arith in
      rw some_retries (
        chain-tries w payload delivers left fuel
          (record {
            delay = first_delay Delay ten Payload w.retry_intervals;
            payload = payload;
            attempt = 1;
          })
          ne (omega arith) (omega arith))
