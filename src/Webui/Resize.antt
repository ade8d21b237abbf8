-- ===== src/Webui/Resize.antt =====
-- `ResizeDebounce` of webui/wasm/src/video.rs: which display size is put on the wire, and when.
pub mod Flight
use webshooter.Base.{
  ℕ, Bool, true, false, ◌&&◌, List, [], ◌∷◌, Option, none, some, ◌==◌, if◌then◌else◌,
}

abbrev pub Size : Type 0
Size = ℕ × ℕ

pub data ResizeEffect : Type 0 where
  idle : ResizeEffect
  arm : ResizeEffect
  cancel : ResizeEffect
  send : Size → Option Size → ResizeEffect

pub record ResizeDebounce : Type 0 where
  pub sent : Option Size
  pub pending : Option Size
  pub in_flight : Bool
  pub queued : Option Size

abbrev pub new : Option Size → ResizeDebounce
new initial = record { sent = initial; pending = none; in_flight = false; queued = none }

-- `option == Some(size)`
abbrev pub is_size : Option Size → Size → Bool
is_size none size = false
is_size (some s) size = s.0 == size.0 && s.1 == size.1

abbrev cancelled : Option Size → ResizeEffect
cancelled none = idle
cancelled (some size) = cancel

unfoldable pub observe : Size → ResizeDebounce → ResizeDebounce × ResizeEffect
observe size r =
    if is_size r.pending size
    then (r, idle)
    else if is_size r.sent size
    then (record r { pending = none }, cancelled r.pending)
    else (record r { pending = some size }, arm)

unfoldable pub begin_send : Size → ResizeDebounce → ResizeDebounce × ResizeEffect
begin_send size r =
    if r.in_flight
    then (record r { queued = some size }, idle)
    else (record r { in_flight = true; sent = some size }, send size r.sent)

-- The size that was taken out of `pending` or `queued`.
abbrev send_new : Option Size → ResizeDebounce → ResizeDebounce × ResizeEffect
send_new none r = (r, idle)
send_new (some size) r = if is_size r.sent size then (r, idle) else begin_send size r

unfoldable pub flush : ResizeDebounce → ResizeDebounce × ResizeEffect
unfolding begin_send
flush r = send_new r.pending (record r { pending = none })

abbrev landed : Option Size → Bool → ResizeDebounce → ResizeDebounce
landed restore ok r =
    if ok
    then record r { in_flight = false; queued = none }
    else record r { in_flight = false; queued = none; sent = restore }

unfoldable pub completed : Option Size → Bool → ResizeDebounce → ResizeDebounce × ResizeEffect
unfolding begin_send
completed restore ok r = send_new r.queued (landed restore ok r)
