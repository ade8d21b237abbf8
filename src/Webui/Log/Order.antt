-- ===== src/Webui/Log/Order.antt =====
-- Which records the page of webui/wasm/src/log.rs holds, and in which order.
use webshooter.Base.{
  ℕ, zero, suc, ◌+◌, ◌-◌, ◌≡◌, ◌≤◌, refl, sym, ap, ◌∙◌, arith, Bool, true, false, List, [], ◌∷◌,
  ◌++◌, reverse, leb, length, take, drop, min, append-nil, append_assoc, length-append,
  take-append-drop, if_intro,
}
use mathlib.Core.List.{reverse-cons, reverse-reverse}
use webshooter.Webui.Log.{
  max_queued, max_per_batch, Logs, no_logs, pop_front, queue_record, take_batch, push_fronts,
  after_post, LogEvent, logs, flushes, posted, flush_step, post_step, log_step, log_run, logged,
  held,
}

module _ {R : Type 0} where
  push_fronts-append : (xs q : List R) → push_fronts xs q ≡ reverse xs ++ q
  unfolding push_fronts
  push_fronts-append [] q = refl
  push_fronts-append (r ∷ rs) q =
      push_fronts-append rs (r ∷ q)
      ∙ sym (append_assoc (reverse rs) (r ∷ []) q)
      ∙ ap (λ l. l ++ q) (sym (reverse-cons r rs))

  length-reverse : (xs : List R) → length (reverse xs) ≡ length xs
  length-reverse [] = refl
  length-reverse (r ∷ rs) =
      ap (length {A = R}) (reverse-cons r rs)
      ∙ omega (arith, length-append (reverse rs) (r ∷ []), length-reverse rs)

  take_all : (n : ℕ) (xs : List R) → length xs ≤ n → take n xs ≡ xs
  take_all zero [] h = refl
  take_all zero (r ∷ rs) h = absurd (omega arith)
  take_all (suc n) [] h = refl
  take_all (suc n) (r ∷ rs) h = ap (λ l. r ∷ l) (take_all n rs (omega arith))

  -- What a step adds to the records that are held, unless it drops one.
  abbrev Adds : List R → Logs R → Logs R → Type 0
  Adds new s after =
      (s.dropped ≤ after.dropped) × (after.dropped ≡ s.dropped → held after ≡ held s ++ new)

  queue-Adds : (r : R) (s : Logs R) → Adds (r ∷ []) s (queue_record r s)
  unfolding queue_record
  queue-Adds r s =
      if_intro (Adds (r ∷ []) s) (leb max_queued (length s.queue))
        (record s { queue = pop_front s.queue ++ r ∷ []; running = true; dropped = s.dropped + 1 })
        (record s { queue = s.queue ++ r ∷ []; running = true })
        (λ _. (omega arith, λ e. absurd (omega (arith, e))))
        (λ _. (omega arith, λ e. simp append_assoc))

  take-Adds : (s : Logs R) → s.batch ≡ [] → Adds [] s (take_batch s)
  unfolding take_batch
  take-Adds s none_out =
      let n = min (length s.queue) max_per_batch in
      if_intro (Adds [] s) (leb (length (take n s.queue)) 0) (record s { running = false })
        (record s { queue = drop n s.queue; batch = take n s.queue })
        (λ _. (omega arith, λ e. sym (append-nil (held s))))
        (λ _. (
          omega arith,
          λ e.
              ap (λ l. s.landed ++ l) (take-append-drop n s.queue)
              ∙ ap (λ b. s.landed ++ (b ++ s.queue)) (sym none_out)
              ∙ sym (append-nil (held s)),
        ))

  after_post-Adds : (landed : Bool) (s : Logs R) → Adds [] s (after_post landed s)
  unfolding after_post
  after_post-Adds true s = (omega arith, λ e. simp (append_assoc, append-nil))
  after_post-Adds false s = (
    omega arith,
    λ e.
        let all =
          take_all (max_queued - length s.queue) (reverse s.batch)
            (omega (arith, length-reverse s.batch, e)) in
        ap (λ l. s.landed ++ l)
          (ap (λ l. push_fronts l s.queue) all
            ∙ push_fronts-append (reverse s.batch) s.queue
            ∙ ap (λ l. l ++ s.queue) (reverse-reverse s.batch))
        ∙ sym (append-nil (held s)),
  )

  unmoved : (s : Logs R) → Adds [] s s
  unmoved s = (omega arith, λ e. sym (append-nil (held s)))

  flush-Adds :
      (batch : List R) (running : Bool) (s : Logs R)
      → s.batch ≡ batch
      → Adds [] s (flush_step batch running s)
  unfolding flush_step
  flush-Adds [] true s b = take-Adds s b
  flush-Adds [] false s b = unmoved s
  flush-Adds (x ∷ batch) running s b = unmoved s

  post-Adds : (batch : List R) (landed : Bool) (s : Logs R) → Adds [] s (post_step batch landed s)
  unfolding post_step
  post-Adds [] landed s = unmoved s
  post-Adds (x ∷ batch) landed s = after_post-Adds landed s

  step-Adds : (e : LogEvent R) (s : Logs R) → Adds (logged (e ∷ [])) s (log_step e s)
  unfolding log_step
  step-Adds (logs r) s = queue-Adds r s
  step-Adds flushes s = flush-Adds s.batch s.running s refl
  step-Adds (posted landed) s = post-Adds s.batch landed s

  logged-cons :
      (e : LogEvent R) (es : List (LogEvent R)) → logged (e ∷ es) ≡ logged (e ∷ []) ++ logged es
  logged-cons (logs r) es = refl
  logged-cons flushes es = refl
  logged-cons (posted landed) es = refl

  run-Adds : (es : List (LogEvent R)) (s : Logs R) → Adds (logged es) s (log_run es s)
  unfolding log_run
  run-Adds [] s = unmoved s
  run-Adds (e ∷ es) s =
      let first = step-Adds e s in
      let rest = run-Adds es (log_step e s) in
      (
        omega (arith, first.0, rest.0),
        λ kept.
            rest.1 (omega (arith, first.0, rest.0, kept))
            ∙ ap (λ l. l ++ logged es) (first.1 (omega (arith, first.0, rest.0, kept)))
            ∙ append_assoc (held s) (logged (e ∷ [])) (logged es)
            ∙ ap (λ l. held s ++ l) (sym (logged-cons e es)),
      )

  -- As long as no record has been dropped: the records that landed, followed by those under way and
  -- those that wait, are all that the page has logged, in order, however many posts have failed.
  pub held-logged :
      (es : List (LogEvent R))
      → (log_run es no_logs).dropped ≡ 0
      → held (log_run es no_logs) ≡ logged es
  held-logged es kept = (run-Adds es no_logs).1 kept
