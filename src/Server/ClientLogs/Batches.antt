-- ===== src/Server/ClientLogs/Batches.antt =====
-- Whether the server of server/src/main.rs takes all that a page posts.
use webshooter.Base.{suc, ◌≡◌, refl, ap, ◌∙◌, arith, List, [], ◌∷◌, map, length, take, length-take}
use webshooter.Base.Text.{Text, as_bytes}
use webshooter.Webui.Log.{LogEvent, log_run, no_logs}
use webshooter.Webui.Log.Bounds.{log_run-IsSound}
use webshooter.Server.ClientLogs.{client_log_max_message, client_logs, truncate}

length-map : {A B : Type 0} (f : A → B) (l : List A) → length (map f l) ≡ length l
length-map f [] = refl
length-map f (a ∷ l) = ap (λ n. suc n) (length-map f l)

-- Whatever the page logs and whichever of its posts land, the batch under way is within the server's
-- bound: `client_logs` leaves none of its records out, and logs a line for each.
pub batch_accepted :
    {Level : Type 0} (es : List (LogEvent (Level × Text)))
    → ((client_logs (log_run es no_logs).batch).dropped ≡ 0)
      × (length (client_logs (log_run es no_logs).batch).lines ≡ length (log_run es no_logs).batch)
unfolding client_logs
batch_accepted es =
    let b = (log_run-IsSound es).batch_bound in
    (
      omega (arith, b),
      length-map (λ r. (r.0, truncate (as_bytes r.1) client_log_max_message))
            (take 64 (log_run es no_logs).batch)
          ∙ omega (arith, b, length-take 64 (log_run es no_logs).batch),
    )
