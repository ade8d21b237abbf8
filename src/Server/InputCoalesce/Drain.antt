-- ===== src/Server/InputCoalesce/Drain.antt =====
-- What a drain of the buffer of server/src/pipewire/input_coalesce.rs takes and leaves.
use webshooter.Base.{ℕ, zero, suc, ◌≡◌, refl, ap, arith, [], ◌∷◌, ◌++◌, length, take, drop, min}
use webshooter.Server.InputCoalesce.{Pending, values, drain_front}
use webshooter.Server.InputCoalesce.Lookup.{Distinct}
use webshooter.Server.InputCoalesce.Sound.{Keyed, IsSound}

values-take-drop : (n : ℕ) (p : Pending) → values (take n p) ++ values (drop n p) ≡ values p
values-take-drop zero p = refl
values-take-drop (suc n) [] = refl
values-take-drop (suc n) ((k, m) ∷ p) = ap (λ l. m ∷ l) (values-take-drop n p)

length-values-take : (n : ℕ) (p : Pending) → length (values (take n p)) ≡ min n (length p)
length-values-take zero p = omega arith
length-values-take (suc n) [] = omega arith
length-values-take (suc n) ((k, m) ∷ p) = omega (arith, length-values-take n p)

drop-Distinct : (n : ℕ) (p : Pending) → Distinct p → Distinct (drop n p)
drop-Distinct zero p d = d
drop-Distinct (suc n) [] d = d
drop-Distinct (suc n) ((k, m) ∷ p) d = drop-Distinct n p d.1

drop-Keyed : (n : ℕ) (p : Pending) → Keyed p → Keyed (drop n p)
drop-Keyed zero p d = d
drop-Keyed (suc n) [] d = d
drop-Keyed (suc n) ((k, m) ∷ p) d = drop-Keyed n p d.1

-- A drain of a sound buffer takes as many datagrams as there are up to the limit, the oldest keys
-- first, loses none and leaves the rest in order in a sound buffer.
pub drain_front-values :
    (limit : ℕ) (p : Pending)
    → IsSound p
    → ((drain_front limit p).1 ++ values (drain_front limit p).0 ≡ values p)
      × (length (drain_front limit p).1 ≡ min limit (length p))
      × IsSound (drain_front limit p).0
unfolding drain_front
drain_front-values limit p h = (
  values-take-drop (min limit (length p)) p,
  omega (arith, length-values-take (min limit (length p)) p),
  record {
    distinct = drop-Distinct (min limit (length p)) p h.distinct;
    keyed = drop-Keyed (min limit (length p)) p h.keyed;
  },
)
