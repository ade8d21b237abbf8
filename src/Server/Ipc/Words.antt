-- ===== src/Server/Ipc/Words.antt =====
-- The words of each command of server/src/ipc.rs.
use webshooter.Base.{
  ℕ, ◌+◌, ◌*◌, ◌-◌, ◌^◌, ◌<◌, ◌≡◌, refl, subst, arith, List, [], ◌∷◌, map, Option, none, some,
  codes, Option-cases, inl, inr,
}
use webshooter.Base.Text.{Text}
use webshooter.Server.Ipc.{
  IpcMessage, exit, authorise, deauthorise, release_mouse, fullscreen_toggle, canonical, parse_word,
  parse_two, parse_digits, parse_usize, parse_args,
}
use webshooter.Server.Ipc.Number.{decimal, parse_usize-decimal}

abbrev with_number : Text → Option ℕ → List Text
with_number cmd none = cmd ∷ []
with_number cmd (some n) = cmd ∷ decimal 19 n ∷ []

abbrev pub words : IpcMessage → List Text
words exit = codes "exit" ∷ []
words (authorise i) = with_number (codes "authorise") i
words (deauthorise i) = with_number (codes "deauthorise") i
words release_mouse = codes "release_mouse" ∷ []
words (fullscreen_toggle i) = with_number (codes "fullscreen") i

abbrev pub Fits : Option ℕ → Type 0
Fits none = Unit {0}
Fits (some n) = n < 2 ^ 64

-- An index is a 64-bit `usize`.
abbrev pub IndexFits : IpcMessage → Type 0
IndexFits exit = Unit {0}
IndexFits (authorise i) = Fits i
IndexFits (deauthorise i) = Fits i
IndexFits release_mouse = Unit {0}
IndexFits (fullscreen_toggle i) = Fits i

-- Arguments that are in lower case the words of a command whose index fits 64 bits parse as that
-- command.
pub parse_args-words :
    (to_lowercase : Text → Text) (m : IpcMessage) (args : List Text)
    → IndexFits m
    → map to_lowercase args ≡ words m
    → parse_args to_lowercase args ≡ some m
unfolding parse_args
parse_args-words lower exit args f h = rw h refl
parse_args-words lower (authorise none) args f h = rw h refl
parse_args-words lower (authorise (some n)) args f h = rw (h, parse_usize-decimal n f) refl
parse_args-words lower (deauthorise none) args f h = rw h refl
parse_args-words lower (deauthorise (some n)) args f h = rw (h, parse_usize-decimal n f) refl
parse_args-words lower release_mouse args f h = rw h refl
parse_args-words lower (fullscreen_toggle none) args f h = rw h refl
parse_args-words lower (fullscreen_toggle (some n)) args f h = rw (h, parse_usize-decimal n f) refl

parse_digits-lt : (v : ℕ) (s : Text) (n : ℕ) → v < 2 ^ 64 → parse_digits v s ≡ some n → n < 2 ^ 64
unfolding parse_digits
parse_digits-lt v [] n k h = ground (arith, h, k)
parse_digits-lt v (c ∷ s) n k h = ground (arith, h, k, parse_digits-lt (v * 10 + (c - b'0')) s n)

parse_usize-lt : (s : Text) (n : ℕ) → parse_usize s ≡ some n → n < 2 ^ 64
unfolding parse_usize
parse_usize-lt [] n h = cc
parse_usize-lt (c ∷ []) n h = ground (arith, parse_digits-lt 0 (c ∷ []) n)
parse_usize-lt (c ∷ d ∷ s) n h =
    ground (arith, parse_digits-lt 0 (c ∷ d ∷ s) n, parse_digits-lt 0 (d ∷ s) n)

abbrev AllFit : Option IpcMessage → Type 0
AllFit none = Unit {0}
AllFit (some m) = IndexFits m

parse_word-AllFit : (cmd : Text) → AllFit (parse_word cmd)
unfolding parse_word
parse_word-AllFit cmd = ground arith

parse_two-AllFit : (cmd n : Text) → AllFit (parse_two cmd n)
unfolding parse_two
parse_two-AllFit cmd n = elim (Option-cases (parse_usize n)) [
  | inl e ↦ ground (arith, e)
  | inr (v, e) ↦ ground (arith, e, parse_usize-lt n v)
]

-- Whatever the arguments are, a command that they parse to has an index that fits 64 bits.
pub parse_args-IndexFits :
    (to_lowercase : Text → Text) (m : IpcMessage) (args : List Text)
    → parse_args to_lowercase args ≡ some m
    → IndexFits m
unfolding parse_args
parse_args-IndexFits lower m [] h = cc
parse_args-IndexFits lower m (c ∷ []) h = subst AllFit h (parse_word-AllFit (canonical (lower c)))
parse_args-IndexFits lower m (c ∷ n ∷ []) h =
    subst AllFit h (parse_two-AllFit (canonical (lower c)) (lower n))
parse_args-IndexFits lower m (c ∷ n ∷ a ∷ args) h = cc
