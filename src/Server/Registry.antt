-- ===== src/Server/Registry.antt =====
-- The ids of sessions in server/src/ipc.rs. The registry is the ids that are in use. The search
-- tries one id after another; there is always a free one among the first that are one more than
-- the entries, so that their number is fuel enough. An id is below 2 ^ 64.
pub mod Sessions
use webshooter.Base.{
  ℕ, zero, suc, ◌+◌, ◌≡◌, ◌≤◌, ◌<◌, refl, arith, Bool, true, false, List, [], ◌∷◌, ◌==◌, leb,
  if◌then◌else◌, any, length, Bool-cases, inl, inr,
}

abbrev pub contains : ℕ → List ℕ → Bool
contains id registry = any (λ i. i == id) registry

search : ℕ → ℕ → List ℕ → ℕ
search zero id registry = id
search (suc fuel) id registry =
    let later = search fuel (id + 1) registry in if contains id registry then later else id

unfoldable pub lowest_free_id : List ℕ → ℕ
unfolding search
lowest_free_id registry = search (length registry) 1 registry

-- The entries from `id` on.
abbrev above : ℕ → List ℕ → ℕ
above id [] = 0
above id (i ∷ registry) = if leb id i then 1 + above id registry else above id registry

above-length : (id : ℕ) (registry : List ℕ) → above id registry ≤ length registry
above-length id [] = omega arith
above-length id (i ∷ registry) = ground (arith, above-length id registry)

above_le : (id : ℕ) (registry : List ℕ) → above (id + 1) registry ≤ above id registry
above_le id [] = omega arith
above_le id (i ∷ registry) = ground (arith, above_le id registry)

above_lt :
    (id : ℕ) (registry : List ℕ)
    → contains id registry ≡ true
    → above (id + 1) registry < above id registry
above_lt id [] h = cc
above_lt id (i ∷ registry) h = ground (arith, h, above_le id registry, above_lt id registry)

above_none : (id : ℕ) (registry : List ℕ) → above id registry ≡ 0 → contains id registry ≡ false
above_none id [] h = refl
above_none id (i ∷ registry) h = ground (arith, h, above_none id registry)

search-free :
    (fuel id : ℕ) (registry : List ℕ)
    → above id registry ≤ fuel
    → contains (search fuel id registry) registry ≡ false
unfolding search
search-free zero id registry h = above_none id registry (omega (arith, h))
search-free (suc fuel) id registry h = elim (Bool-cases (contains id registry)) [
  | inl e ↦ rw e (search-free fuel (id + 1) registry (omega (arith, h, above_lt id registry e)))
  | inr e ↦ rw e e
]

search-bounds :
    (fuel id : ℕ) (registry : List ℕ)
    → (id ≤ search fuel id registry) × (search fuel id registry ≤ id + fuel)
unfolding search
search-bounds zero id registry = (omega arith, omega arith)
search-bounds (suc fuel) id registry = ground (arith, search-bounds fuel (id + 1) registry)

-- Whatever ids are in use, the search ends at one that is not, and that is positive and at most one
-- more than the number of sessions.
pub lowest_free_id-free :
    (registry : List ℕ)
    → (contains (lowest_free_id registry) registry ≡ false)
      × (1 ≤ lowest_free_id registry)
      × (lowest_free_id registry ≤ length registry + 1)
unfolding lowest_free_id
lowest_free_id-free registry =
    let bounds = search-bounds (length registry) 1 registry in
    (
      search-free (length registry) 1 registry (above-length 1 registry),
      bounds.0,
      omega (arith, bounds.1),
    )

search-least :
    (fuel id j : ℕ) (registry : List ℕ)
    → id ≤ j
    → j < search fuel id registry
    → contains j registry ≡ true
unfolding search
search-least zero id j registry h k = ground (arith, h, k)
search-least (suc fuel) id j registry h k =
    ground (arith, h, k, search-least fuel (id + 1) j registry)

-- Every positive id below the one that the search finds is in use.
pub lowest_free_id-least :
    (registry : List ℕ) (j : ℕ) → 1 ≤ j → j < lowest_free_id registry → contains j registry ≡ true
unfolding lowest_free_id
lowest_free_id-least registry j h k = search-least (length registry) 1 j registry h k
