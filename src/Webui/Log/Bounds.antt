-- ===== src/Webui/Log/Bounds.antt =====
-- How much the page of webui/wasm/src/log.rs holds, and that its flusher runs.
use webshooter.Base.{
  ◌+◌, ◌-◌, ◌≡◌, ◌≤◌, refl, arith, Bool, true, false, List, [], ◌∷◌, ◌++◌, reverse, leb, length,
  take, drop, min, ◌⊎◌, inl, inr, length-append, length-take, if_intro, length-drop, leb→le,
}
use webshooter.Webui.Log.{
  max_queued, max_per_batch, Logs, no_logs, pop_front, queue_record, take_batch, push_fronts,
  after_post, LogEvent, logs, flushes, posted, flush_step, post_step, log_step, log_run,
}

module _ {R : Type 0} where
  -- The queue and the batch are within their bounds, and a flusher runs wherever a record waits.
  pub record IsSound (s : Logs R) : Type 0 where
    pub bound : length s.queue ≤ max_queued
    pub batch_bound : length s.batch ≤ max_per_batch
    pub drained : (s.running ≡ true) ⊎ ((s.queue ≡ []) × (s.batch ≡ []))

  length-push_fronts : (xs q : List R) → length (push_fronts xs q) ≡ length xs + length q
  unfolding push_fronts
  length-push_fronts [] q = omega arith
  length-push_fronts (r ∷ rs) q = omega (arith, length-push_fronts rs (r ∷ q))

  queue-IsSound : (r : R) (s : Logs R) → IsSound s → IsSound (queue_record r s)
  unfolding queue_record
  queue-IsSound r s h =
      if_intro IsSound (leb max_queued (length s.queue))
        (record s { queue = pop_front s.queue ++ r ∷ []; running = true; dropped = s.dropped + 1 })
        (record s { queue = s.queue ++ r ∷ []; running = true })
        (λ _. record {
          bound = omega (arith, length-append (pop_front s.queue) (r ∷ []), popped s.queue h.bound);
          batch_bound = h.batch_bound;
          drained = inl refl;
        })
        (λ e. record {
          bound = ground (arith, length-append s.queue (r ∷ []), e);
          batch_bound = h.batch_bound;
          drained = inl refl;
        })
    where
      popped : (q : List R) → length q ≤ 256 → length (pop_front q) ≤ 255
      popped [] k = omega arith
      popped (r ∷ q) k = omega arith

  length-zero : (xs : List R) → length xs ≡ 0 → xs ≡ []
  length-zero [] h = refl
  length-zero (r ∷ rs) h = absurd (omega arith)

  take-IsSound : (s : Logs R) → s.batch ≡ [] → s.running ≡ true → IsSound s → IsSound (take_batch s)
  unfolding take_batch
  take-IsSound s none_out run h =
      let n = min (length s.queue) max_per_batch in
      if_intro IsSound (leb (length (take n s.queue)) 0) (record s { running = false })
        (record s { queue = drop n s.queue; batch = take n s.queue })
        (λ e. record {
          bound = h.bound;
          batch_bound = h.batch_bound;
          drained = inr (
            length-zero s.queue
                (omega (arith, length-take n s.queue, leb→le (length (take n s.queue)) 0 e)),
            none_out,
          );
        })
        (λ _. record {
          bound = omega (arith, length-drop n s.queue, h.bound);
          batch_bound = omega (arith, length-take n s.queue);
          drained = inl run;
        })

  after_post-IsSound :
      (landed : Bool) (s : Logs R) → s.running ≡ true → IsSound s → IsSound (after_post landed s)
  unfolding after_post
  after_post-IsSound true s run h = record {
    bound = h.bound;
    batch_bound = omega arith;
    drained = inl run;
  }
  after_post-IsSound false s run h = record {
    bound = omega (
      arith,
      length-push_fronts (take (256 - length s.queue) (reverse s.batch)) s.queue,
      length-take (256 - length s.queue) (reverse s.batch),
      h.bound,
    );
    batch_bound = omega arith;
    drained = inl run;
  }

  flush-IsSound :
      (batch : List R) (running : Bool) (s : Logs R)
      → s.batch ≡ batch
      → s.running ≡ running
      → IsSound s
      → IsSound (flush_step batch running s)
  unfolding flush_step
  flush-IsSound [] true s b r h = take-IsSound s b r h
  flush-IsSound [] false s b r h = h
  flush-IsSound (x ∷ batch) running s b r h = h

  post-IsSound :
      (batch : List R) (landed : Bool) (s : Logs R)
      → s.batch ≡ batch
      → IsSound s
      → IsSound (post_step batch landed s)
  unfolding post_step
  post-IsSound [] landed s b h = h
  post-IsSound (x ∷ batch) landed s b h = after_post-IsSound landed s (runs h.drained) h
    where
      runs : (s.running ≡ true) ⊎ ((s.queue ≡ []) × (s.batch ≡ [])) → s.running ≡ true
      runs (inl r) = r
      runs (inr none_out) = cc

  step-IsSound : (e : LogEvent R) (s : Logs R) → IsSound s → IsSound (log_step e s)
  unfolding log_step
  step-IsSound (logs r) s h = queue-IsSound r s h
  step-IsSound flushes s h = flush-IsSound s.batch s.running s refl refl h
  step-IsSound (posted landed) s h = post-IsSound s.batch landed s refl h

  run-from : (es : List (LogEvent R)) (s : Logs R) → IsSound s → IsSound (log_run es s)
  unfolding log_run
  run-from [] s h = h
  run-from (e ∷ es) s h = run-from es (log_step e s) (step-IsSound e s h)

  -- Whatever the page logs and whichever posts land: at most 256 records wait, a request carries at
  -- most 64, and the flusher runs wherever a record waits or is under way.
  pub log_run-IsSound : (es : List (LogEvent R)) → IsSound (log_run es no_logs)
  log_run-IsSound es =
      run-from es no_logs
        (record { bound = omega arith; batch_bound = omega arith; drained = inr (refl, refl) })
