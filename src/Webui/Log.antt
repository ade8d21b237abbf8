-- ===== src/Webui/Log.antt =====
-- webui/wasm/src/log.rs: the queue of the page's log records and the loop that posts them. A step is
-- what runs between two waits; whether a post landed is an argument.
pub mod Bounds
pub mod Order
use webshooter.Base.{
  ℕ, zero, suc, ◌+◌, ◌-◌, ◌≡◌, ◌≤◌, refl, sym, ap, ◌∙◌, arith, Bool, true, false, List, [], ◌∷◌,
  ◌++◌, reverse, leb, if◌then◌else◌, length, take, drop, min, ◌⊎◌, inl, inr, append-nil,
  append_assoc, length-append, length-take, take-append-drop, if_intro, length-drop, leb→le,
}
use mathlib.Core.List.{reverse-cons, reverse-reverse}

abbrev pub max_queued : ℕ
max_queued = 256

abbrev pub max_per_batch : ℕ
max_per_batch = 64

-- `running` is FLUSHER_RUNNING; `batch` is what a request carries while it is under way. `landed`
-- and `dropped` are the records that were posted and the number of those that were lost.
pub record Logs (R : Type 0) : Type 0 where
  pub queue : List R
  pub running : Bool
  pub batch : List R
  pub landed : List R
  pub dropped : ℕ

abbrev pub no_logs : {R : Type 0} → Logs R
no_logs = record { queue = []; running = false; batch = []; landed = []; dropped = 0 }

module _ {R : Type 0} where
  unfoldable pub pop_front : List R → List R
  pop_front [] = []
  pop_front (r ∷ q) = q

  -- `queue`: the oldest record makes room.
  unfoldable pub queue_record : R → Logs R → Logs R
  unfolding pop_front
  queue_record r s =
      if leb max_queued (length s.queue)
      then record s { queue = pop_front s.queue ++ r ∷ []; running = true; dropped = s.dropped + 1 }
      else record s { queue = s.queue ++ r ∷ []; running = true }

  -- The head of `flush_loop`: it ends where there is nothing to post.
  unfoldable pub take_batch : Logs R → Logs R
  take_batch s =
      let n = min (length s.queue) max_per_batch in
      if leb (length (take n s.queue)) 0
      then record s { running = false }
      else record s { queue = drop n s.queue; batch = take n s.queue }

  unfoldable pub push_fronts : List R → List R → List R
  push_fronts [] q = q
  push_fronts (r ∷ rs) q = push_fronts rs (r ∷ q)

  -- Its end: a batch that did not land goes back to the front, its newest records first.
  unfoldable pub after_post : Bool → Logs R → Logs R
  unfolding push_fronts
  after_post true s = record s { batch = []; landed = s.landed ++ s.batch }
  after_post false s =
      let room = max_queued - length s.queue in
      record s {
        batch = [];
        queue = push_fronts (take room (reverse s.batch)) s.queue;
        dropped = s.dropped + (length s.batch - room);
      }

-- The page logs a record, or the flusher, which runs, takes a step: it is between two posts, or one
-- of its posts has come back.
pub data LogEvent (R : Type 0) : Type 0 where
  logs : R → LogEvent R
  flushes : LogEvent R
  posted : Bool → LogEvent R

module _ {R : Type 0} where
  unfoldable pub flush_step : List R → Bool → Logs R → Logs R
  unfolding take_batch
  flush_step [] true s = take_batch s
  flush_step batch running s = s

  unfoldable pub post_step : List R → Bool → Logs R → Logs R
  unfolding after_post
  post_step [] landed s = s
  post_step (r ∷ batch) landed s = after_post landed s

  unfoldable pub log_step : LogEvent R → Logs R → Logs R
  unfolding queue_record flush_step post_step
  log_step (logs r) s = queue_record r s
  log_step flushes s = flush_step s.batch s.running s
  log_step (posted landed) s = post_step s.batch landed s

  unfoldable pub log_run : List (LogEvent R) → Logs R → Logs R
  unfolding log_step
  log_run [] s = s
  log_run (e ∷ es) s = log_run es (log_step e s)

  abbrev pub logged : List (LogEvent R) → List R
  logged [] = []
  logged (logs r ∷ es) = r ∷ logged es
  logged (flushes ∷ es) = logged es
  logged (posted landed ∷ es) = logged es

  -- All records, where none was dropped.
  abbrev pub held : Logs R → List R
  held s = s.landed ++ (s.batch ++ s.queue)
