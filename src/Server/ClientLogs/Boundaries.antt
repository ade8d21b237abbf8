-- ===== src/Server/ClientLogs/Boundaries.antt =====
-- The boundaries between the characters of a text, as `truncate` of server/src/main.rs finds them.
use webshooter.Base.{
  ℕ, zero, suc, ◌+◌, ◌/◌, ◌%◌, ◌≡◌, ◌≤◌, ◌<◌, refl, sym, ap, ◌∙◌, arith, Bool, true, false, List,
  [], ◌∷◌, ◌++◌, ltb, ◌==◌, if◌then◌else◌, length, take, drop, All, if_intro, length-append,
}
use webshooter.Base.Text.{Text, IsScalar, encode_char, as_bytes, continuation}
use webshooter.Server.ClientLogs.{starts, is_char_boundary, back_to_boundary}

-- The bytes of a character: one that starts it and up to three that continue it.
abbrev pub IsCharacter : List ℕ → Type 0
IsCharacter [] = ⊥
IsCharacter (b ∷ rest) = (continuation b ≡ false) × All (λ c. continuation c ≡ true) rest

pub encode_char-IsCharacter : (c : ℕ) → IsScalar c → IsCharacter (encode_char c)
encode_char-IsCharacter c h =
    if_intro IsCharacter (ltb c 0x80) one
      (if ltb c 0x800 then two else if ltb c 0x10000 then three else four)
      (λ e. (ground (arith, e), tt))
      (λ _.
        if_intro IsCharacter (ltb c 0x800) two (if ltb c 0x10000 then three else four)
          (λ _. (ground arith, (ground arith, tt)))
          (λ _.
            if_intro IsCharacter (ltb c 0x10000) three four
              (λ _. (ground arith, (ground arith, (ground arith, tt))))
              (λ _. (ground arith, (ground arith, (ground arith, (ground arith, tt)))))))
  where
    one : List ℕ
    one = c ∷ []

    two : List ℕ
    two = (0xc0 + c / 64) ∷ (0x80 + c % 64) ∷ []

    three : List ℕ
    three = (0xe0 + c / 4096) ∷ (0x80 + c / 64 % 64) ∷ (0x80 + c % 64) ∷ []

    four : List ℕ
    four =
        (0xf0 + c / 262144) ∷ (0x80 + c / 4096 % 64) ∷ (0x80 + c / 64 % 64) ∷ (0x80 + c % 64) ∷ []

-- A text does not begin inside a character.
abbrev pub Starts : List ℕ → Type 0
Starts [] = Unit {0}
Starts (b ∷ rest) = continuation b ≡ false

pub as_bytes-Starts : (cs : Text) → All IsScalar cs → Starts (as_bytes cs)
unfolding as_bytes
as_bytes-Starts [] h = tt
as_bytes-Starts (c ∷ cs) h = front (encode_char c) (encode_char-IsCharacter c h.0)
  where
    front : (e : List ℕ) → IsCharacter e → Starts (e ++ as_bytes cs)
    front [] k = absurd k
    front (b ∷ rest) k = k.0

-- A position that lies some way behind these bytes.
abbrev pub past : ℕ → List ℕ → ℕ
past n [] = n
past n (b ∷ e) = suc (past n e)

pub past-length : (n : ℕ) (e : List ℕ) → past n e ≡ length e + n
past-length n [] = omega arith
past-length n (b ∷ e) = omega (arith, past-length n e)

drop-append_past : (n : ℕ) (e r : List ℕ) → drop (past n e) (e ++ r) ≡ drop n r
drop-append_past n [] r = refl
drop-append_past n (b ∷ e) r = drop-append_past n e r

-- Inside a character there is no boundary.
inside :
    (n : ℕ) (e r : List ℕ) (len : ℕ) (i : ℕ)
    → All (λ c. continuation c ≡ true) e
    → n < length e
    → starts i len (drop n (e ++ r)) ≡ false
unfolding starts
inside n [] r len i h k = absurd (omega arith)
inside zero (b ∷ e) r len i h k = rw h.0 refl
inside (suc n) (b ∷ e) r len i h k = inside n e r len i h.1 (omega arith)

shifted : (k a b : ℕ) → (suc (k + a) == suc (k + b)) ≡ (a == b)
shifted k a b = ground arith

starts-same :
    (i j len len' : ℕ) (l : List ℕ) → (i == len) ≡ (j == len') → starts i len l ≡ starts j len' l
unfolding starts
starts-same i j len len' [] h = h
starts-same i j len len' (b ∷ l) h = refl

starts-whole :
    (i : ℕ) (r : List ℕ) → Starts r → (len : ℕ) → len ≡ i + length r → starts i len r ≡ true
unfolding starts
starts-whole i [] h len e = ground arith
starts-whole i (b ∷ r) h len e = rw h refl

boundary-suc :
    (i : ℕ) (m : List ℕ) → is_char_boundary (suc i) m ≡ starts (suc i) (length m) (drop (suc i) m)
unfolding is_char_boundary
boundary-suc i m = ground arith

past-suc : (n : ℕ) (e : List ℕ) → past (suc n) e ≡ suc (past n e)
past-suc n [] = refl
past-suc n (b ∷ e) = ap (λ k. suc k) (past-suc n e)

-- Behind a character the boundaries are those of the rest.
behind :
    (n : ℕ) (b : ℕ) (e r : List ℕ)
    → Starts r
    → is_char_boundary (suc (past n e)) (b ∷ (e ++ r)) ≡ is_char_boundary n r
unfolding is_char_boundary
behind zero b e r k =
    boundary-suc (past 0 e) (b ∷ (e ++ r))
    ∙ ap (starts (suc (past 0 e)) (suc (length (e ++ r)))) (drop-append_past 0 e r)
    ∙ starts-whole (suc (past 0 e)) r k (suc (length (e ++ r)))
        (omega (arith, length-append e r, past-length 0 e))
behind (suc n) b e r k =
    boundary-suc (past (suc n) e) (b ∷ (e ++ r))
    ∙ ap (starts (suc (past (suc n) e)) (suc (length (e ++ r)))) (drop-append_past (suc n) e r)
    ∙ starts-same (suc (past (suc n) e)) (suc n) (suc (length (e ++ r))) (length r) (drop (suc n) r)
        (ap (λ a. a == suc (length (e ++ r))) (ap (λ k. suc k) (past-length (suc n) e))
          ∙ ap (λ b. suc (length e + suc n) == suc b) (length-append e r)
          ∙ shifted (length e) (suc n) (length r))
    ∙ sym (boundary-suc n r)

-- From behind a character the loop ends as it does in the rest, behind that character.
pub back-behind :
    (n : ℕ) (b : ℕ) (e r : List ℕ)
    → Starts r
    → back_to_boundary (suc (past n e)) (b ∷ (e ++ r)) ≡ suc (past (back_to_boundary n r) e)
unfolding back_to_boundary is_char_boundary
back-behind zero b e r k =
    ap (λ t. if t then suc (past 0 e) else back_to_boundary (past 0 e) (b ∷ (e ++ r)))
      (behind 0 b e r k)
back-behind (suc n) b e r k =
    ap (λ t. if t then suc (past (suc n) e) else back_to_boundary (past (suc n) e) (b ∷ (e ++ r)))
      (behind (suc n) b e r k)
    ∙ pushed (is_char_boundary (suc n) r)
        (ap (λ m. back_to_boundary m (b ∷ (e ++ r))) (past-suc n e) ∙ back-behind n b e r k)
  where
    pushed :
        (t : Bool)
        → back_to_boundary (past (suc n) e) (b ∷ (e ++ r)) ≡ suc (past (back_to_boundary n r) e)
        → (if t then suc (past (suc n) e) else back_to_boundary (past (suc n) e) (b ∷ (e ++ r)))
          ≡ suc (past (if t then suc n else back_to_boundary n r) e)
    pushed true h = refl
    pushed false h = h

-- Within a character the loop goes back to its start.
pub back-inside :
    (n : ℕ) (b : ℕ) (e r : List ℕ)
    → All (λ c. continuation c ≡ true) e
    → n ≤ length e
    → back_to_boundary n (b ∷ (e ++ r)) ≡ 0
unfolding back_to_boundary
back-inside zero b e r h k = refl
back-inside (suc n) b e r h k =
    rw (boundary-suc n (b ∷ (e ++ r)), inside n e r (suc (length (e ++ r))) (suc n) h (omega arith))
      (back-inside n b e r h (omega arith))

pub take-past : (n : ℕ) (e r : List ℕ) → take (past n e) (e ++ r) ≡ e ++ take n r
take-past n [] r = refl
take-past n (b ∷ e) r = ap (λ l. b ∷ l) (take-past n e r)
