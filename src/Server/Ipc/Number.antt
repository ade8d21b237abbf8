-- ===== src/Server/Ipc/Number.antt =====
-- Numbers as decimal text, and back through `parse_usize` of server/src/ipc.rs.
use webshooter.Base.{
  ℕ, zero, suc, ◌+◌, ◌*◌, ◌-◌, ◌/◌, ◌%◌, ◌^◌, ◌<◌, ◌≡◌, ◌≢◌, refl, ap, ◌∙◌, arith, [], ◌∷◌, ◌++◌,
  Option, none, some, ltb, if◌then◌else◌, ltb→lt, Bool-cases, inl, inr,
}
use webshooter.Base.Text.{Text}
use native.Mathlib.Omega.{pow_step}
use webshooter.Server.Ipc.{parse_digits, parse_usize}

-- The decimal text of a number with at most `fuel` + 1 digits.
unfoldable pub decimal : ℕ → ℕ → Text
decimal zero n = (b'0' + n % 10) ∷ []
decimal (suc fuel) n =
    let front = decimal fuel (n / 10) in
    if ltb n 10 then (b'0' + n) ∷ [] else front ++ (b'0' + n % 10) ∷ []

abbrev then_digit : Option ℕ → ℕ → Option ℕ
then_digit none c = none
then_digit (some v) c = parse_digits v (c ∷ [])

parse_digits-append :
    (v : ℕ) (s : Text) (c : ℕ) → parse_digits v (s ++ c ∷ []) ≡ then_digit (parse_digits v s) c
unfolding parse_digits
parse_digits-append v [] c = refl
parse_digits-append v (d ∷ s) c = ground (arith, parse_digits-append (v * 10 + (d - b'0')) s c)

one_digit :
    (v d : ℕ) → d < 10 → v * 10 + d < 2 ^ 64 → parse_digits v ((b'0' + d) ∷ []) ≡ some (v * 10 + d)
unfolding parse_digits
one_digit v d h k = ground (arith, h, k)

fewer : (fuel n : ℕ) → n < 10 ^ suc (suc fuel) → n / 10 < 10 ^ suc fuel
fewer fuel n h = omega (arith, pow_step 10 (suc fuel), h)

parse_digits-decimal :
    (fuel n : ℕ) → n < 10 ^ suc fuel → n < 2 ^ 64 → parse_digits 0 (decimal fuel n) ≡ some n
unfolding decimal
parse_digits-decimal zero n h k =
    let small : n % 10 ≡ n = omega (arith, h) in
    rw small (one_digit 0 n (omega (arith, h)) (omega (arith, h)) ∙ ap some (omega arith))
parse_digits-decimal (suc fuel) n h k = elim (Bool-cases (ltb n 10)) [
  | inl e ↦ rw e (one_digit 0 n (ltb→lt n 10 e) (omega (arith, k)) ∙ ap some (omega arith))
  | inr e ↦
      let front = parse_digits-decimal fuel (n / 10) (fewer fuel n h) (omega (arith, k)) in
      rw (e, parse_digits-append 0 (decimal fuel (n / 10)) (b'0' + n % 10), front)
        (one_digit (n / 10) (n % 10) (omega arith) (omega (arith, k)) ∙ ap some (omega arith))
]

digit_first : (fuel n : ℕ) → (c : ℕ) × (rest : Text) × (decimal fuel n ≡ c ∷ rest) × (c ≢ b'+')
unfolding decimal
digit_first zero n = (b'0' + n % 10, [], refl, omega arith)
digit_first (suc fuel) n = elim (Bool-cases (ltb n 10)) [
  | inl e ↦ (b'0' + n, [], rw e refl, omega arith)
  | inr e ↦
      let (c, rest, p, q) = digit_first fuel (n / 10) in
      (c, rest ++ (b'0' + n % 10) ∷ [], rw (e, p) refl, q)
]

-- The decimal text of every `usize` parses as that number.
pub parse_usize-decimal : (n : ℕ) → n < 2 ^ 64 → parse_usize (decimal 19 n) ≡ some n
unfolding parse_usize
parse_usize-decimal n h =
    let (c, rest, p, q) = digit_first 19 n in
    let back = parse_digits-decimal 19 n (omega (arith, h)) h in
    rw p (ground (arith, q, rw p at back))
