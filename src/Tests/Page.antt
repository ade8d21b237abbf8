-- ===== src/Tests/Page.antt =====
-- A page: webui/wasm/src/throttle.rs and the resizing of webui/wasm/src/video.rs.
use webshooter.Base.{map, ◌≡◌, inl, refl, arith, true, false, List, [], ◌∷◌, some}
use webshooter.Shared.ClientDatagram.{mouse_button, touchscreen}
use webshooter.Webui.Throttle.{Throttle, sends, Event, input, timer, request, new, due, send_input}
use webshooter.Webui.Throttle.Spacing.{Spaced, send_times, send_times-Spaced}
use webshooter.Webui.Throttle.Drain.{ticks, ticks-pending}
use webshooter.Webui.Resize
use webshooter.Webui.Resize.{Size, ResizeDebounce, observe, begin_send, flush, completed}
use webshooter.Webui.Resize.Flight.{
  ResizeEvent, observes, settles, completes, Streams, OneStream, session, session-OneStream,
}

-- A burst of input, a request for a coarser spacing, and two ticks of the timer.
abbrev burst : List Event
burst =
    input 5000 5000 1 (mouse_button 0 true)
    ∷ input 5100 5100 1 (mouse_button 0 false)
    ∷ input 5200 5200 1 (touchscreen 0 4 4)
    ∷ request 10
    ∷ timer 9000 9000 2
    ∷ timer 15000 15000 3
    ∷ []

send_times-Spaced_example : Spaced 0 (send_times burst new)
send_times-Spaced_example = send_times-Spaced burst

-- A page with two entries waiting.
abbrev busy : Throttle
busy = record {
  interval = 4000;
  last_send = 5000;
  pending = mouse_button 0 false ∷ touchscreen 0 4 4 ∷ [];
  flush_id = some 1;
}

ticks-pending_example :
    ((ticks (9000 ∷ 13000 ∷ []) 2 busy).1 ≡ map (λ m. m ∷ []) busy.pending)
    × ((ticks (9000 ∷ 13000 ∷ []) 2 busy).0.pending ≡ [])
ticks-pending_example = ticks-pending (9000 ∷ 13000 ∷ []) 2 busy refl (ground arith)

-- Input that finds the spacing elapsed is sent ahead of older input that still waits.
overtakes : (send_input 9500 9500 2 (mouse_button 0 true) busy).1 ≡ sends (mouse_button 0 true) ∷ []
unfolding send_input due
overtakes = refl

abbrev small : Size
small = (800, 600)

abbrev wide : Size
wide = (1920, 1080)

abbrev tall : Size
tall = (1080, 1920)

-- A display whose first size was reported when the page loaded.
abbrev fresh : ResizeDebounce × Streams
fresh = (Resize.new (some small), [])

-- Back at the size that is on the wire while another size is queued behind it.
abbrev there_and_back : List ResizeEvent
there_and_back =
    observes wide
    ∷ settles
    ∷ observes tall
    ∷ settles
    ∷ observes wide
    ∷ settles
    ∷ completes true
    ∷ completes true
    ∷ []

session-OneStream_example : OneStream (session there_and_back fresh)
session-OneStream_example = session-OneStream there_and_back fresh (inl (refl, refl))

-- The display ends at `wide`, and the last size sent is `tall`.
stale_size : (session there_and_back fresh).0.sent ≡ some tall
unfolding observe flush completed begin_send
stale_size = refl
