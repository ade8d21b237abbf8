-- ===== src/Server/ClientLogs/Truncate.antt =====
-- What is left of a text that `truncate` of server/src/main.rs cuts.
use webshooter.Base.{
  ℕ, zero, suc, ◌-◌, ◌≡◌, ◌≤◌, refl, sym, ap, ◌∙◌, arith, Bool, true, List, [], ◌∷◌, ◌++◌, leb,
  if◌then◌else◌, length, take, All, if_intro, length-append, leb→le, Bool-cases, inl, inr,
}
use webshooter.Base.Text.{Text, IsScalar, encode_char, as_bytes}
use webshooter.Server.ClientLogs.{back_to_boundary, truncate, fitting}
use webshooter.Server.ClientLogs.Boundaries.{
  IsCharacter, encode_char-IsCharacter, Starts, as_bytes-Starts, past-length, back-behind,
  back-inside, take-past,
}

-- The bytes up to the boundary are those of the characters that fit.
cut-fitting :
    (cs : Text) (limit : ℕ)
    → All IsScalar cs
    → take (back_to_boundary limit (as_bytes cs)) (as_bytes cs) ≡ as_bytes (fitting limit cs)
unfolding as_bytes
cut-fitting [] limit h = take-nil (back_to_boundary limit [])
  where
    take-nil : (n : ℕ) → take {A = ℕ} n [] ≡ []
    take-nil zero = refl
    take-nil (suc n) = refl
cut-fitting (c ∷ cs) limit h =
    first (encode_char c) refl (encode_char-IsCharacter c h.0) (as_bytes-Starts cs h.1)
      (λ n. cut-fitting cs n h.1)
  where
    first :
        (e : List ℕ)
        → encode_char c ≡ e
        → IsCharacter e
        → Starts (as_bytes cs)
        → ((n : ℕ)
            → take (back_to_boundary n (as_bytes cs)) (as_bytes cs) ≡ as_bytes (fitting n cs))
        → take (back_to_boundary limit (e ++ as_bytes cs)) (e ++ as_bytes cs)
          ≡ as_bytes (if leb (length e) limit then c ∷ fitting (limit - length e) cs else [])
    first [] same k front ih = absurd k
    first (b ∷ e) same k front ih = elim (Bool-cases (leb (suc (length e)) limit)) [
      | inl fits ↦ rw fits (fitted fits)
      | inr over ↦ rw over (
          ap (λ n. take n (b ∷ (e ++ as_bytes cs)))
            (back-inside limit b e (as_bytes cs) k.1 (ground (arith, over))))
    ]
      where
        fitted :
            leb (suc (length e)) limit ≡ true
            → take (back_to_boundary limit (b ∷ (e ++ as_bytes cs))) (b ∷ (e ++ as_bytes cs))
              ≡ encode_char c ++ as_bytes (fitting (limit - suc (length e)) cs)
        fitted fits =
            let n = limit - suc (length e) in
            ap (λ l. take (back_to_boundary l (b ∷ (e ++ as_bytes cs))) (b ∷ (e ++ as_bytes cs)))
              (ground (arith, fits, past-length (limit - suc (length e)) e))
            ∙ ap (λ l. take l (b ∷ (e ++ as_bytes cs))) (back-behind n b e (as_bytes cs) front)
            ∙ ap (λ l. b ∷ l) (take-past (back_to_boundary n (as_bytes cs)) e (as_bytes cs))
            ∙ ap (λ l. b ∷ (e ++ l)) (ih n)
            ∙ ap (λ l. l ++ as_bytes (fitting n cs)) (sym same)

fitting_all : (cs : Text) (limit : ℕ) → length (as_bytes cs) ≤ limit → fitting limit cs ≡ cs
unfolding as_bytes
fitting_all [] limit h = refl
fitting_all (c ∷ cs) limit h =
    let whole = length-append (encode_char c) (as_bytes cs) in
    if_true (leb (length (encode_char c)) limit) (ground (arith, whole, h))
    ∙ ap (λ l. c ∷ l) (fitting_all cs (limit - length (encode_char c)) (omega (arith, whole, h)))
  where
    if_true :
        (b : Bool)
        → b ≡ true
        → (if b then c ∷ fitting (limit - length (encode_char c)) cs else [])
          ≡ c ∷ fitting (limit - length (encode_char c)) cs
    if_true b e = rw e refl

-- A text is cut to the bytes of as many of its characters, from the front, as fit the limit: no
-- character is cut in two, and none that fits is left out.
pub truncate-fitting :
    (cs : Text) (limit : ℕ)
    → All IsScalar cs
    → truncate (as_bytes cs) limit ≡ as_bytes (fitting limit cs)
unfolding truncate
truncate-fitting cs limit h =
    if_intro (λ l. l ≡ as_bytes (fitting limit cs)) (leb (length (as_bytes cs)) limit) (as_bytes cs)
      (take (back_to_boundary limit (as_bytes cs)) (as_bytes cs))
      (λ e. ap as_bytes (sym (fitting_all cs limit (leb→le (length (as_bytes cs)) limit e))))
      (λ _. cut-fitting cs limit h)
