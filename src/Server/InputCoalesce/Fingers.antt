-- ===== src/Server/InputCoalesce/Fingers.antt =====
-- The fingers that the compositor sees through the buffer of
-- server/src/pipewire/input_coalesce.rs.
use webshooter.Base.{
  ℕ, ◌≡◌, refl, ap, ◌∙◌, arith, List, [], ◌∷◌, ◌++◌, Option, none, some, ◌==◌, if◌then◌else◌,
  Bool-cases, inl, inr,
}
use webshooter.Shared.ClientDatagram.{ClientDatagram}
use webshooter.Server.InputCoalesce.{
  InputKey, touchscreen, touchscreen_release, same_key, key_of, terminates, Pending, merge,
  shift_remove, lookup, update, remove_ended, fold_in, push_keyed, push, values,
}
use webshooter.Server.InputCoalesce.Lookup.{
  Distinct, lookup-shift_remove-same, lookup-append, lookup-shift_remove-none, lookup-update-none,
}
use webshooter.Server.InputCoalesce.Sound.{
  Keyed, IsSound, push-IsSound, lookup-push, lookup_after, merged,
}

-- Where finger `i` is after a datagram, and after a run of them.
abbrev pub apply_touch : ℕ → ClientDatagram → Option (ℕ × ℕ) → Option (ℕ × ℕ)
apply_touch i (ClientDatagram.touchscreen j x y) st = if j == i then some (x, y) else st
apply_touch i (ClientDatagram.touchscreen_release j) st = if j == i then none else st
apply_touch i m st = st

abbrev pub finger : ℕ → List ClientDatagram → Option (ℕ × ℕ) → Option (ℕ × ℕ)
finger i [] st = st
finger i (m ∷ l) st = finger i l (apply_touch i m st)

-- No lift of a finger waits behind a position of the finger.
abbrev NotLifted : InputKey → Pending → Type 0
NotLifted (touchscreen i) p = lookup (touchscreen_release i) p ≡ none
NotLifted k p = Unit {0}

abbrev pub LiftsFirst : Pending → Type 0
LiftsFirst [] = Unit {0}
LiftsFirst ((k, m) ∷ p) = NotLifted k p × LiftsFirst p

-- The finger by what its two keys hold.
abbrev position : ClientDatagram → Option (ℕ × ℕ)
position (ClientDatagram.touchscreen j x y) = some (x, y)
position m = none

abbrev by_keys : Option ClientDatagram → Option ClientDatagram → Option (ℕ × ℕ) → Option (ℕ × ℕ)
by_keys (some m) lift st = position m
by_keys none (some m) st = none
by_keys none none st = st

by_keys-lifted :
    (touch : Option ClientDatagram) (m : ClientDatagram) (st : Option (ℕ × ℕ))
    → by_keys touch (some m) st ≡ by_keys touch none none
by_keys-lifted none m st = refl
by_keys-lifted (some n) m st = refl

-- The head of a sound buffer.
finger-head :
    (i : ℕ) (k : InputKey) (m : ClientDatagram) (p : Pending) (st : Option (ℕ × ℕ))
    → key_of m ≡ some k
    → lookup k p ≡ none
    → NotLifted k p
    → by_keys (lookup (touchscreen i) p) (lookup (touchscreen_release i) p) (apply_touch i m st)
      ≡ by_keys
          (lookup (touchscreen i) ((k, m) ∷ p))
          (lookup (touchscreen_release i) ((k, m) ∷ p))
          st
unfolding key_of lookup
finger-head i k (ClientDatagram.touchscreen j x y) p st e d n = ground (arith, e, d, n)
finger-head i k (ClientDatagram.touchscreen_release j) p st e d n =
    ground (arith, e, d, n, by_keys-lifted (lookup (touchscreen i) p))
finger-head i k m p st e d n = ground (arith, e)

finger-by_keys :
    (i : ℕ) (p : Pending) (st : Option (ℕ × ℕ))
    → Distinct p
    → Keyed p
    → LiftsFirst p
    → finger i (values p) st
      ≡ by_keys (lookup (touchscreen i) p) (lookup (touchscreen_release i) p) st
unfolding lookup
finger-by_keys i [] st d k l = refl
finger-by_keys i ((k, m) ∷ p) st d h l =
    finger-by_keys i p (apply_touch i m st) d.1 h.1 l.1 ∙ finger-head i k m p st h.0 d.0 l.0

NotLifted-shift_remove :
    (k j : InputKey) (p : Pending) → NotLifted j p → NotLifted j (shift_remove k p)
NotLifted-shift_remove k (touchscreen i) p h =
    lookup-shift_remove-none (touchscreen_release i) k p h
NotLifted-shift_remove k j p h = ground (arith, h)

LiftsFirst-shift_remove :
    (k : InputKey) (p : Pending) → LiftsFirst p → LiftsFirst (shift_remove k p)
unfolding shift_remove
LiftsFirst-shift_remove k [] l = l
LiftsFirst-shift_remove k ((j, m) ∷ p) l = elim (Bool-cases (same_key j k)) [
  | inl e ↦ rw e l.1
  | inr e ↦ rw e (NotLifted-shift_remove k j p l.0, LiftsFirst-shift_remove k p l.1)
]

LiftsFirst-remove_ended :
    (ended : Option InputKey) (p : Pending) → LiftsFirst p → LiftsFirst (remove_ended ended p)
LiftsFirst-remove_ended none p l = l
LiftsFirst-remove_ended (some k) p l = LiftsFirst-shift_remove k p l

NotLifted-update :
    (k j : InputKey) (msg : ClientDatagram) (p : Pending)
    → NotLifted j p
    → NotLifted j (update k msg p)
NotLifted-update k (touchscreen i) msg p h = lookup-update-none (touchscreen_release i) k msg p h
NotLifted-update k j msg p h = ground (arith, h)

LiftsFirst-update :
    (k : InputKey) (msg : ClientDatagram) (p : Pending) → LiftsFirst p → LiftsFirst (update k msg p)
unfolding update
LiftsFirst-update k msg [] l = l
LiftsFirst-update k msg ((j, m) ∷ p) l = elim (Bool-cases (same_key j k)) [
  | inl e ↦ rw e l
  | inr e ↦ rw e (NotLifted-update k j msg p l.0, LiftsFirst-update k msg p l.1)
]

-- The key does not lift a finger that has a position in the buffer.
abbrev NoFinger : InputKey → Pending → Type 0
NoFinger (touchscreen_release i) p = lookup (touchscreen i) p ≡ none
NoFinger k p = Unit {0}

NotLifted-append :
    (j k : InputKey) (m n : ClientDatagram) (p : Pending)
    → lookup k ((j, n) ∷ p) ≡ none
    → NoFinger k ((j, n) ∷ p)
    → NotLifted j p
    → NotLifted j (p ++ (k, m) ∷ [])
unfolding lookup
NotLifted-append (touchscreen i) (touchscreen_release r) m n p e f h =
    ground (arith, e, f, h, lookup-append (touchscreen_release i) (touchscreen_release r) m p)
NotLifted-append (touchscreen i) k m n p e f h =
    ground (arith, e, f, h, lookup-append (touchscreen_release i) k m p)
NotLifted-append j k m n p e f h = ground (arith, h)

NoFinger-tail :
    (j k : InputKey) (n : ClientDatagram) (p : Pending) → NoFinger k ((j, n) ∷ p) → NoFinger k p
unfolding lookup
NoFinger-tail j (touchscreen_release r) n p f = ground (arith, f)
NoFinger-tail j k n p f = ground (arith, f)

LiftsFirst-append :
    (k : InputKey) (m : ClientDatagram) (p : Pending)
    → lookup k p ≡ none
    → NoFinger k p
    → LiftsFirst p
    → LiftsFirst (p ++ (k, m) ∷ [])
unfolding lookup
LiftsFirst-append k m [] e f l = (ground arith, tt)
LiftsFirst-append k m ((j, n) ∷ p) e f l = (
  NotLifted-append j k m n p e f l.0,
  LiftsFirst-append k m p (ground (arith, e)) (NoFinger-tail j k n p f) l.1,
)

NoFinger-remove_ended :
    (k : InputKey) (p : Pending) → Distinct p → NoFinger k (remove_ended (terminates k) p)
unfolding terminates
NoFinger-remove_ended (touchscreen_release i) p d = lookup-shift_remove-same (touchscreen i) p d
NoFinger-remove_ended k p d = ground arith

fold_in-LiftsFirst :
    (old : Option ClientDatagram) (k : InputKey) (msg : ClientDatagram) (p : Pending)
    → lookup k p ≡ old
    → NoFinger k p
    → LiftsFirst p
    → LiftsFirst (fold_in old k msg p)
fold_in-LiftsFirst none k msg p e f l = LiftsFirst-append k msg p e f l
fold_in-LiftsFirst (some old) k msg p e f l = LiftsFirst-update k msg p l

push_keyed-LiftsFirst :
    (key : Option InputKey) (msg : ClientDatagram) (p : Pending)
    → Distinct p
    → LiftsFirst p
    → LiftsFirst (push_keyed key msg p)
push_keyed-LiftsFirst none msg p d l = l
push_keyed-LiftsFirst (some k) msg p d l =
    let kept = remove_ended (terminates k) p in
    fold_in-LiftsFirst (lookup k kept) k msg kept refl (NoFinger-remove_ended k p d)
      (LiftsFirst-remove_ended (terminates k) p l)

pub push-LiftsFirst :
    (msg : ClientDatagram) (p : Pending) → IsSound p → LiftsFirst p → LiftsFirst (push msg p)
unfolding push
push-LiftsFirst msg p h l = push_keyed-LiftsFirst (key_of msg) msg p h.distinct l

merge-touch :
    (o : Option ClientDatagram) (j x y : ℕ)
    → merged o (ClientDatagram.touchscreen j x y) ≡ ClientDatagram.touchscreen j x y
unfolding merge
merge-touch none j x y = refl
merge-touch (some m) j x y = ground arith

by_keys-push :
    (i : ℕ) (msg : ClientDatagram) (p : Pending) (st : Option (ℕ × ℕ))
    → by_keys
        (lookup_after (key_of msg) msg (touchscreen i) p)
        (lookup_after (key_of msg) msg (touchscreen_release i) p)
        st
      ≡ apply_touch i msg (by_keys (lookup (touchscreen i) p) (lookup (touchscreen_release i) p) st)
unfolding key_of terminates
by_keys-push i (ClientDatagram.touchscreen j x y) p st =
    ground (arith, merge-touch (lookup (touchscreen j) p) j x y)
by_keys-push i (ClientDatagram.touchscreen_release j) p st = ground arith
by_keys-push i msg p st = ground arith

-- The buffer is what a session's datagrams leave of an empty one.
abbrev pub push_all : List ClientDatagram → Pending → Pending
push_all [] p = p
push_all (m ∷ l) p = push_all l (push m p)

pub finger-push :
    (i : ℕ) (msg : ClientDatagram) (p : Pending) (st : Option (ℕ × ℕ))
    → IsSound p
    → LiftsFirst p
    → finger i (values (push msg p)) st ≡ apply_touch i msg (finger i (values p) st)
finger-push i msg p st h l =
    let h' = push-IsSound msg p h in
    finger-by_keys i (push msg p) st h'.distinct h'.keyed (push-LiftsFirst msg p h l)
    ∙ rw
        (
          lookup-push msg (touchscreen i) p h,
          lookup-push msg (touchscreen_release i) p h,
          finger-by_keys i p st h.distinct h.keyed l,
        )
        (by_keys-push i msg p st)

finger-push_all :
    (i : ℕ) (l : List ClientDatagram) (p : Pending) (st : Option (ℕ × ℕ))
    → IsSound p
    → LiftsFirst p
    → finger i (values (push_all l p)) st ≡ finger i l (finger i (values p) st)
finger-push_all i [] p st h k = refl
finger-push_all i (m ∷ l) p st h k =
    finger-push_all i l (push m p) st (push-IsSound m p h) (push-LiftsFirst m p h k)
    ∙ ap (finger i l) (finger-push i m p st h k)

-- Whatever a session sends in one window, draining the buffer leaves each finger where the
-- datagrams themselves would leave it: at its last position, or lifted.
pub finger-values :
    (i : ℕ) (l : List ClientDatagram) (st : Option (ℕ × ℕ))
    → finger i (values (push_all l [])) st ≡ finger i l st
finger-values i l st = finger-push_all i l [] st (record { distinct = tt; keyed = tt }) tt
