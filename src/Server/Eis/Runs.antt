-- ===== src/Server/Eis/Runs.antt =====
-- What a turn of the loop of server/src/pipewire/eis.rs does to the devices and the channel, a run
-- of turns does: for any relation between two states and the events sent between them.
use webshooter.Base.{ℕ, Bool, true, false, List, [], ◌∷◌, ◌++◌, Option, none, some, All}
use webshooter.Shared.ClientDatagram.{ClientDatagram}
use webshooter.Server.Eis.Task.{
  EisInputEvent, Devices, Sent, Arm, Task, Turn, dispatch_input, dispatch_all, turn, input_task,
  then_sent, and_then, before_turn, go_on, next_turn,
}

module _ (R : Devices → List EisInputEvent → Devices → Type 0) where
  abbrev pub Follows : Devices → Option Sent → Type 0
  Follows d none = Unit {0}
  Follows d (some (d', events)) = R d events d'

  abbrev pub FollowsTurn : Devices → Option Turn → Type 0
  FollowsTurn d none = Unit {0}
  FollowsTurn d (some r) = R d r.sent r.task.devices

  abbrev pub Composes : Type 0
  Composes = (c d e : Devices) (a b : List EisInputEvent) → R c a d → R d b e → R c (a ++ b) e

module _ (R : Devices → List EisInputEvent → Devices → Type 0) (composes : Composes R) where
  and_then-Follows :
      (d : Devices) (first : Option Sent) (rest : Devices → Option Sent)
      → Follows R d first
      → ((e : Devices) → Follows R e (rest e))
      → Follows R d (and_then first rest)
  and_then-Follows d none rest h k = tt
  and_then-Follows d (some (e, events)) rest h k = joined (rest e) (k e)
    where
      joined : (o : Option Sent) → Follows R e o → Follows R d (then_sent events o)
      joined none l = tt
      joined (some (f, more)) l = composes d e f events more h l

  pub dispatch_all-Follows :
      (creates : ℕ → Bool)
      → ((d : Devices) → R d [] d)
      → ((msg : ClientDatagram) (d : Devices) → Follows R d (dispatch_input creates msg d))
      → (msgs : List ClientDatagram) (d : Devices) → Follows R d (dispatch_all creates msgs d)
  unfolding dispatch_all
  dispatch_all-Follows creates stays each [] d = stays d
  dispatch_all-Follows creates stays each (msg ∷ msgs) d =
      and_then-Follows d (dispatch_input creates msg d) (dispatch_all creates msgs) (each msg d)
        (dispatch_all-Follows creates stays each msgs)

  next_turn-Follows :
      (d : Devices) (first : Option Turn) (rest : Task → Option Turn)
      → FollowsTurn R d first
      → ((t : Task) → FollowsTurn R t.devices (rest t))
      → FollowsTurn R d (next_turn first rest)
  next_turn-Follows d none rest h k = tt
  next_turn-Follows d (some r) rest h k = gone_on r.ended
    where
      joined :
          (o : Option Turn) → FollowsTurn R r.task.devices o → FollowsTurn R d (before_turn r o)
      joined none l = tt
      joined (some s) l = composes d r.task.devices s.task.devices r.sent s.sent h l

      gone_on : (b : Bool) → FollowsTurn R d (go_on b r rest)
      gone_on true = h
      gone_on false = joined (rest r.task) (k r.task)

  pub input_task-Follows :
      (creates : ℕ → Bool) (Fits : Arm → Type 0)
      → ((d : Devices) → R d [] d)
      → ((arm : Arm) (t : Task) → Fits arm → FollowsTurn R t.devices (turn creates arm t))
      → (arms : List Arm) (t : Task) → All Fits arms
      → FollowsTurn R t.devices (input_task creates arms t)
  unfolding input_task
  input_task-Follows creates Fits stays each [] t fit = stays t.devices
  input_task-Follows creates Fits stays each (arm ∷ arms) t fit =
      next_turn-Follows t.devices (turn creates arm t) (input_task creates arms) (each arm t fit.0)
        (λ u. input_task-Follows creates Fits stays each arms u fit.1)
