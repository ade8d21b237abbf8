-- ===== src/Server/Picking/Best.antt =====
-- Which stream `best_stream_index` of server/src/pipewire/video.rs chooses.
use webshooter.Base.{
  ℕ, zero, suc, ◌*◌, ◌≡◌, ◌≤◌, ◌<◌, ◌⊎◌, inl, inr, refl, arith, Bool, true, List, [], ◌∷◌, none,
  some, if◌then◌else◌, In, All, if_intro,
}
use native.Mathlib.Nat.{mul-le-mul_right, le_of_mul-le-mul_right}
use webshooter.Base.Int.{pos, negsuc}
use webshooter.Server.Picking.{
  Offer, same_size, enumerate, select, head, over, under, near, closer, least, min_by, exact_or,
  best_stream_index,
}

-- One offer is no farther from the request than another.
abbrev pub NoFarther : ℕ × ℕ → Offer → Offer → Type 0
NoFarther requested a b =
    over requested a * under requested b ≤ over requested b * under requested a

All-of : {A : Type 0} (Q : A → Type 0) (l : List A) → ((a : A) → In a l → Q a) → All Q l
All-of Q [] f = tt
All-of Q (a ∷ l) f = (f a (inl refl), All-of Q l (λ b h. f b (inr h)))

module _ {A : Type 0} (p : A → Bool) (P Q : A → Type 0)
    (each : (a : A) → P a → p a ≡ true → Q a) where
  select-All : (l : List A) → All P l → All Q (select p l)
  select-All [] h = tt
  select-All (a ∷ l) h =
      if_intro (All Q) (p a) (a ∷ select p l) (select p l) (λ e. (each a h.0 e, select-All l h.1))
        (λ _. select-All l h.1)

-- Whether a fraction is at most another carries over to a third.
fraction_trans : (a b c d e f : ℕ) → 0 < d → a * d ≤ c * b → c * f ≤ e * d → a * f ≤ e * b
fraction_trans a b c d e f positive h k =
    le_of_mul-le-mul_right {k = d} (scaled (mul-le-mul_right f h) (mul-le-mul_right b k)) positive
  where
    scaled : a * d * f ≤ c * b * f → c * f * b ≤ e * d * b → a * f * d ≤ e * b * d
    scaled x y = grind arith

module _ (requested : ℕ × ℕ) where
  abbrev Comparable : ℕ × Offer → Type 0
  Comparable c = 0 < under requested c.1

  abbrev Leads : ℕ × Offer → ℕ × Offer → Type 0
  Leads a b = NoFarther requested a.1 b.1

  closer-Leads :
      (best c : ℕ × Offer)
      → let winner = if closer requested c.1 best.1 then c else best in
        Leads winner best × Leads winner c
  closer-Leads best c = ground arith

  least-Leads :
      (best : ℕ × Offer) (rest : List (ℕ × Offer))
      → Comparable best
      → All Comparable rest
      → Leads (least requested best rest) best × All (Leads (least requested best rest)) rest
  unfolding least
  least-Leads best [] h k = (omega arith, tt)
  least-Leads best (c ∷ rest) h k =
      let w : ℕ × Offer = if closer requested c.1 best.1 then c else best in
      let positive : Comparable w =
        if_intro Comparable (closer requested c.1 best.1) c best (λ _. k.0) (λ _. h) in
      let later = least-Leads w rest positive k.1 in
      let r = least requested w rest in
      let front = closer-Leads best c in
      (
        fraction_trans (over requested r.1) (under requested r.1) (over requested w.1)
            (under requested w.1) (over requested best.1) (under requested best.1) positive later.0
            front.0,
        (
          fraction_trans (over requested r.1) (under requested r.1) (over requested w.1)
              (under requested w.1) (over requested c.1) (under requested c.1) positive later.0
              front.1,
          later.1,
        ),
      )

  least-All :
      (Q : ℕ × Offer → Type 0) (best : ℕ × Offer) (rest : List (ℕ × Offer))
      → Q best
      → All Q rest
      → Q (least requested best rest)
  unfolding least
  least-All Q best [] h k = h
  least-All Q best (c ∷ rest) h k =
      least-All Q (if closer requested c.1 best.1 then c else best) rest
        (if_intro Q (closer requested c.1 best.1) c best (λ _. k.0) (λ _. h)) k.1

  near-positive : (c : ℕ × Offer) → near requested c.1 ≡ true → Comparable c
  unfolding near
  near-positive (i, (w, pos zero)) h = absurd (grind arith)
  near-positive (i, (w, pos (suc h'))) h = grind arith
  near-positive (i, (w, negsuc h')) h = absurd (grind arith)

  -- The index is the exact match, or, where there is none, one that is near enough and no farther
  -- than any other that is.
  abbrev pub IsChosen : List Offer → ℕ → ℕ × Offer → Type 0
  IsChosen offered i c =
      (c.0 ≡ i)
      × In c (enumerate 0 offered)
      × ((same_size requested c.1 ≡ true)
          ⊎ ((near requested c.1 ≡ true)
              × All (Leads c) (select (λ d. near requested d.1) (enumerate 0 offered))
              × (head (select (λ d. same_size requested d.1) (enumerate 0 offered)) ≡ none)))

  chosen :
      (offered : List Offer) (i : ℕ) (exact others : List (ℕ × Offer))
      → head (select (λ d. same_size requested d.1) (enumerate 0 offered)) ≡ head exact
      → select (λ d. near requested d.1) (enumerate 0 offered) ≡ others
      → All (λ c. In c (enumerate 0 offered) × (same_size requested c.1 ≡ true)) exact
      → All (λ c. In c (enumerate 0 offered) × (near requested c.1 ≡ true)) others
      → exact_or (head exact) (min_by requested others) ≡ some i
      → (c : ℕ × Offer) × IsChosen offered i c
  unfolding exact_or min_by
  chosen offered i (c ∷ exact) others e o h k r = (c, (cc, h.0.0, inl h.0.1))
  chosen offered i [] [] e o h k r = cc
  chosen offered i [] (b ∷ rest) e o h k r =
      let near_all = select-near (b ∷ rest) k in
      let l = least-Leads b rest near_all.0 near_all.1 in
      let mine =
        least-All (λ c. In c (enumerate 0 offered) × (near requested c.1 ≡ true)) b rest k.0 k.1 in
      (least requested b rest, (cc, mine.0, inr (mine.1, rw o (l.0, l.1), e)))
    where
      select-near :
          (l : List (ℕ × Offer))
          → All (λ c. In c (enumerate 0 offered) × (near requested c.1 ≡ true)) l
          → All Comparable l
      select-near [] m = tt
      select-near (c ∷ l) m = (near-positive c m.0.1, select-near l m.1)

  -- A stream that is chosen is one of those on offer: the one of exactly the requested size, or,
  -- where there is none, one whose shape differs by 2 per cent at most and by no more than that of
  -- any other such stream.
  pub best_stream_index_best :
      (offered : List Offer) (i : ℕ)
      → best_stream_index requested offered ≡ some i
      → (c : ℕ × Offer) × IsChosen offered i c
  unfolding best_stream_index
  best_stream_index_best offered i h =
      let all = enumerate 0 offered in
      let members = All-of (λ c. In c all) all (λ c m. m) in
      chosen offered i (select (λ c. same_size requested c.1) all)
        (select (λ c. near requested c.1) all) refl refl
        (select-All (λ c. same_size requested c.1) (λ c. In c all)
          (λ c. In c all × (same_size requested c.1 ≡ true)) (λ c m e. (m, e)) all members)
        (select-All (λ c. near requested c.1) (λ c. In c all)
          (λ c. In c all × (near requested c.1 ≡ true)) (λ c m e. (m, e)) all members)
        h

  none_chosen :
      (exact others : List (ℕ × Offer))
      → exact_or (head exact) (min_by requested others) ≡ none
      → (exact ≡ []) × (others ≡ [])
  unfolding exact_or min_by
  none_chosen [] [] h = (refl, refl)
  none_chosen [] (b ∷ rest) h = cc
  none_chosen (c ∷ exact) others h = cc

  -- Where no stream is chosen, none on offer has the requested size or is near enough.
  pub best_stream_index-none :
      (offered : List Offer)
      → best_stream_index requested offered ≡ none
      → (select (λ c. same_size requested c.1) (enumerate 0 offered) ≡ [])
        × (select (λ c. near requested c.1) (enumerate 0 offered) ≡ [])
  unfolding best_stream_index
  best_stream_index-none offered h =
      none_chosen (select (λ c. same_size requested c.1) (enumerate 0 offered))
        (select (λ c. near requested c.1) (enumerate 0 offered)) h
