-- ===== src/Server/Bitrate/Govern.antt =====
-- `report_link` of server/src/wt.rs and `govern_bitrate` of server/src/pipewire/video.rs: from the counters
-- of the path to the bitrate of the encoder. The counters are 64 bits wide; what the encoder reads
-- back after a bitrate is set is an argument.
use webshooter.Base.{
  ℕ, zero, suc, ◌+◌, ◌-◌, ◌*◌, ◌%◌, ◌^◌, ◌≤◌, ◌<◌, ◌≡◌, ◌↔◌, refl, ap, ◌∙◌, arith, Bool, true,
  false, not, ◌||◌, List, [], ◌∷◌, ltb, ◌==◌, if◌then◌else◌, All, if_intro,
}
use webshooter.Server.Bitrate.{
  LinkPressure, congested, clear, next_bitrate, next_bitrate_bounds, settle, settle-clear,
}

pub record PathStats : Type 0 where
  pub lost_packets : ℕ
  pub black_holes_detected : ℕ
  pub congestion_events : ℕ

pub record LinkReport : Type 0 where
  pub primed : Bool
  pub last_lost : ℕ
  pub last_black_holes : ℕ
  pub last_congestion : ℕ

abbrev pub new_report : LinkReport
new_report = record { primed = false; last_lost = 0; last_black_holes = 0; last_congestion = 0 }

abbrev wrapping_sub : ℕ → ℕ → ℕ
wrapping_sub a b = (a + 2 ^ 64 - b) % 2 ^ 64

unfoldable pub is_degraded : PathStats → LinkReport → Bool
is_degraded path last =
    ltb 0 (wrapping_sub path.lost_packets last.last_lost)
    || ltb 0 (wrapping_sub path.black_holes_detected last.last_black_holes)
    || ltb 0 (wrapping_sub path.congestion_events last.last_congestion)

-- The new baseline, the verdict, and whether a line is logged.
pub record Report : Type 0 where
  pub last : LinkReport
  pub pressure : LinkPressure
  pub logged : Bool

unfoldable pub report_link : PathStats → LinkReport → Report
unfolding is_degraded
report_link path last =
    let degraded = is_degraded path last in
    record {
      last = record {
        primed = true;
        last_lost = path.lost_packets;
        last_black_holes = path.black_holes_detected;
        last_congestion = path.congestion_events;
      };
      pressure = if degraded then congested else clear;
      logged = degraded || not last.primed;
    }

abbrev pub bitrate_ceiling_kbps : ℕ
bitrate_ceiling_kbps = 4000

-- What the governor waits for; a change comes with what the encoder makes of a bitrate.
pub data GovernArm : Type 0 where
  cancelled : GovernArm
  sender_closed : GovernArm
  changed : LinkPressure → (ℕ → ℕ) → GovernArm

-- The current bitrate, and the bitrates that the encoder was set to, newest first.
pub record Governor : Type 0 where
  pub current : ℕ
  pub settings : List ℕ

abbrev pub new_governor : Governor
new_governor = record { current = bitrate_ceiling_kbps; settings = [] }

unfoldable pub govern : LinkPressure → (ℕ → ℕ) → Governor → Governor
govern pressure encoder g =
    let next = next_bitrate g.current bitrate_ceiling_kbps pressure in
    if next == g.current then g else record { current = encoder next; settings = next ∷ g.settings }

unfoldable pub govern_bitrate : List GovernArm → Governor → Governor
unfolding govern
govern_bitrate [] g = g
govern_bitrate (cancelled ∷ arms) g = g
govern_bitrate (sender_closed ∷ arms) g = g
govern_bitrate (changed pressure encoder ∷ arms) g = govern_bitrate arms (govern pressure encoder g)

abbrev pub InBounds : ℕ → Type 0
InBounds kbps = (1 ≤ kbps) × (kbps ≤ bitrate_ceiling_kbps)

govern-InBounds :
    (p : LinkPressure) (encoder : ℕ → ℕ) (g : Governor)
    → All InBounds g.settings
    → All InBounds (govern p encoder g).settings
unfolding govern
govern-InBounds p encoder g h =
    let next = next_bitrate g.current bitrate_ceiling_kbps p in
    let b = next_bitrate_bounds g.current bitrate_ceiling_kbps p in
    if_intro (λ (r : Governor). All InBounds r.settings) (next == g.current) g
      (record { current = encoder next; settings = next ∷ g.settings }) (λ _. h)
      (λ _. ((b.0, omega (arith, b.1)), h))

govern_bitrate-from :
    (arms : List GovernArm) (g : Governor)
    → All InBounds g.settings
    → All InBounds (govern_bitrate arms g).settings
unfolding govern_bitrate
govern_bitrate-from [] g h = h
govern_bitrate-from (cancelled ∷ arms) g h = h
govern_bitrate-from (sender_closed ∷ arms) g h = h
govern_bitrate-from (changed p encoder ∷ arms) g h =
    govern_bitrate-from arms (govern p encoder g) (govern-InBounds p encoder g h)

-- Whatever the link does and whatever the encoder reads back, the encoder is only ever set to
-- bitrates of at least 1 and at most the ceiling.
pub govern_bitrate-InBounds :
    (arms : List GovernArm) → All InBounds (govern_bitrate arms new_governor).settings
govern_bitrate-InBounds arms = govern_bitrate-from arms new_governor tt

abbrev pub IsStats : PathStats → Type 0
IsStats p =
    (p.lost_packets < 2 ^ 64) × (p.black_holes_detected < 2 ^ 64) × (p.congestion_events < 2 ^ 64)

-- The verdict on a path: congested exactly if a counter has moved since the report before.
pub pressure_iff :
    (before path : PathStats) (last : LinkReport)
    → IsStats before
    → IsStats path
    → ((report_link path (report_link before last).last).pressure ≡ clear) ↔ (
        (path.lost_packets ≡ before.lost_packets)
        × (path.black_holes_detected ≡ before.black_holes_detected)
        × (path.congestion_events ≡ before.congestion_events))
unfolding report_link
pressure_iff before path last h k = ground arith

-- The samples of a path whose counters stand still, each applied by an encoder that does what it
-- is told.
abbrev pub still : ℕ → PathStats → LinkReport → List GovernArm
still zero path last = []
still (suc n) path last =
    let r = report_link path last in changed r.pressure (λ kbps. kbps) ∷ still n path r.last

govern-honest :
    (p : LinkPressure) (g : Governor)
    → (govern p (λ kbps. kbps) g).current ≡ next_bitrate g.current bitrate_ceiling_kbps p
unfolding govern
govern-honest p g = ground arith

settled :
    (n : ℕ) (path : PathStats) (last : LinkReport) (g : Governor)
    → IsStats path
    → (govern_bitrate (still n path (report_link path last).last) g).current
      ≡ settle n bitrate_ceiling_kbps clear g.current
unfolding govern_bitrate
settled zero path last g h = refl
settled (suc n) path last g h =
    let again = (report_link path last).last in
    let p = (report_link path again).pressure in
    let quiet : p ≡ clear = (pressure_iff path path last h h).1 (refl, refl, refl) in
    settled n path again (govern p (λ kbps. kbps) g) h
    ∙ ap (settle n bitrate_ceiling_kbps clear)
        (govern-honest p g ∙ ap (next_bitrate g.current bitrate_ceiling_kbps) quiet)

-- Once the counters of the path stand still after a report, an encoder that does what it is told is
-- back at the ceiling after at most as many further reports as it takes to double its bitrate past
-- the ceiling, and stays there.
pub still-recovers :
    (n : ℕ) (path : PathStats) (last : LinkReport) (g : Governor)
    → IsStats path
    → 1 ≤ g.current
    → g.current ≤ bitrate_ceiling_kbps
    → bitrate_ceiling_kbps ≤ 2 ^ n * g.current
    → (govern_bitrate (still n path (report_link path last).last) g).current ≡ bitrate_ceiling_kbps
still-recovers n path last g h lo hi enough =
    settled n path last g h
    ∙ settle-clear n g.current bitrate_ceiling_kbps lo hi (omega arith) enough
