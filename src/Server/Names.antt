-- ===== src/Server/Names.antt =====
-- server/src/wt.rs and `sanitise_name` of server/src/pipewire/video.rs: the name parameter of a
-- session's virtual devices, before the template renders it. Which characters are alphanumeric is a
-- parameter.
use webshooter.Base.{
  ℕ, ◌≡◌, ◌≢◌, ◌<◌, ◌≤◌, ◌^◌, refl, sym, ap, ◌∙◌, arith, Bool, true, false, ◌||◌, List, [], ◌∷◌,
  ◌++◌, map, Option, none, some, leb, ◌==◌, if◌then◌else◌, All, if_intro, ◌⊎◌, Bool-cases, inl, inr,
  ltb, ltb→lt,
}
use webshooter.Base.Text.{Text}
use webshooter.Server.Ipc.{parse_usize}
use webshooter.Server.Ipc.Number.{decimal, parse_usize-decimal}
use webshooter.Server.Registry.{contains, lowest_free_id-least, lowest_free_id-free, lowest_free_id}
use webshooter.Server.Registry.Sessions.{Registry, ids, next_client_id, lowest_client_id, least}

unfoldable pub sanitise_name : (ℕ → Bool) → Text → Text
sanitise_name is_alphanumeric user_name = map (λ c. if is_alphanumeric c then c else b'_') user_name

-- `lowest_client_id().is_none_or(|lowest| client_id <= lowest)`
unfoldable pub is_primary_of : Option ℕ → ℕ → Bool
is_primary_of none client_id = true
is_primary_of (some lowest) client_id = leb client_id lowest

-- `name_for`; the template is whether it references the id.
unfoldable pub name_for : (ℕ → Bool) → Bool → Text → ℕ → Bool → Text
unfolding sanitise_name
name_for is_alphanumeric references_client_id user_name client_id is_primary =
    let name = sanitise_name is_alphanumeric user_name in
    if references_client_id || is_primary then name else name ++ b'-' ∷ decimal 19 client_id

-- The `name` parameter of a session for a template without the id: the accept loop takes the id from
-- the registry, waits for the configuration, and `render_session_names` reads the lowest id from
-- the registry as it is then.
unfoldable pub session_name : (ℕ → Bool) → (ℕ → ℕ) → Registry → Registry → Text → Text
unfolding name_for is_primary_of
session_name is_alphanumeric id_of reserving rendering user_name =
    let client_id = next_client_id id_of reserving in
    name_for is_alphanumeric false user_name client_id
      (is_primary_of (lowest_client_id id_of rendering) client_id)

-- A name without dashes.
abbrev Plain : Text → Type 0
Plain name = All (λ c. c ≢ b'-') name

sanitise_name-Plain : (p : ℕ → Bool) (name : Text) → p b'-' ≡ false → Plain (sanitise_name p name)
unfolding sanitise_name
sanitise_name-Plain p [] h = tt
sanitise_name-Plain p (c ∷ name) h = (kept (p c) refl, sanitise_name-Plain p name h)
  where
    kept : (b : Bool) → p c ≡ b → (if b then c else b'_') ≢ b'-'
    kept true t e = cc (h, t)
    kept false f e = absurd (omega (arith, e))

Plain-ne-dashed : (a b s : Text) → Plain a → a ≢ b ++ b'-' ∷ s
Plain-ne-dashed [] [] s h e = cc
Plain-ne-dashed [] (d ∷ b) s h e = cc
Plain-ne-dashed (c ∷ a) [] s h e = h.0 (cc)
Plain-ne-dashed (c ∷ a) (d ∷ b) s h e = Plain-ne-dashed a b s h.1 (cc)

dashed-injective : (a b s t : Text) → Plain a → Plain b → a ++ b'-' ∷ s ≡ b ++ b'-' ∷ t → s ≡ t
dashed-injective [] [] s t h k e = cc
dashed-injective [] (d ∷ b) s t h k e = absurd (k.0 (cc))
dashed-injective (c ∷ a) [] s t h k e = absurd (h.0 (cc))
dashed-injective (c ∷ a) (d ∷ b) s t h k e = dashed-injective a b s t h.1 k.1 (cc)

decimal-injective : (c d : ℕ) → c < 2 ^ 64 → d < 2 ^ 64 → decimal 19 c ≡ decimal 19 d → c ≡ d
decimal-injective c d hc hd e =
    cc (parse_usize-decimal c hc, parse_usize-decimal d hd, ap parse_usize e)

abbrev LeastUpTo : ℕ → Option ℕ → Type 0
LeastUpTo j o = (k : ℕ) × (o ≡ some k) × (k ≤ j)

abbrev least_of : ℕ → Option ℕ → Option ℕ
least_of i o = elim o [ none ↦ some i | some m ↦ if leb i m then some i else some m ]

least-step : (i j : ℕ) (o : Option ℕ) → (i ≤ j) ⊎ LeastUpTo j o → LeastUpTo j (least_of i o)
least-step i j none (inl h) = (i, refl, h)
least-step i j none (inr (l, e, h)) = cc
least-step i j (some m) h = if_intro (LeastUpTo j) (leb i m) (some i) (some m) (below h) (above h)
  where
    below : (i ≤ j) ⊎ LeastUpTo j (some m) → leb i m ≡ true → LeastUpTo j (some i)
    below (inl k) t = (i, refl, k)
    below (inr (l, e, k)) t = (i, refl, ground arith)

    above : (i ≤ j) ⊎ LeastUpTo j (some m) → leb i m ≡ false → LeastUpTo j (some m)
    above (inl k) t = (m, refl, ground arith)
    above (inr k) t = k

least-contains : (j : ℕ) (r : List ℕ) → contains j r ≡ true → LeastUpTo j (least r)
least-contains j [] h = cc
least-contains j (i ∷ r) h = least-step i j (least r) (elim (Bool-cases (i == j)) [
  | inl e ↦ inl (ground arith)
  | inr e ↦ inr (least-contains j r (ground arith))
])

-- Only the id 1 is ever primary.
primary-one :
    (id_of : ℕ → ℕ) (w : Registry)
    → is_primary_of (lowest_client_id id_of w) (next_client_id id_of w) ≡ true
    → next_client_id id_of w ≡ 1
unfolding is_primary_of lowest_client_id next_client_id
primary-one id_of w h = elim (Bool-cases (ltb 1 (lowest_free_id (ids id_of w)))) [
  | inl more ↦
      second
        (least-contains 1 (ids id_of w)
          (lowest_free_id-least (ids id_of w) 1 (omega arith) (ltb→lt _ _ more)))
        (ltb→lt _ _ more)
  | inr one ↦ ground (arith, lowest_free_id-free (ids id_of w))
]
  where
    second :
        (l : ℕ) × (least (ids id_of w) ≡ some l) × (l ≤ 1)
        → 1 < lowest_free_id (ids id_of w)
        → lowest_free_id (ids id_of w) ≡ 1
    second (l, e, small) more = absurd (ground (arith, e, h))

module _ (is_alphanumeric : ℕ → Bool) (id_of : ℕ → ℕ) where
  name_apart :
      (a b : Text) (c d : ℕ) (first second : Bool)
      → is_alphanumeric b'-' ≡ false
      → c ≢ d
      → c < 2 ^ 64
      → d < 2 ^ 64
      → (first ≡ true → c ≡ 1)
      → (second ≡ true → d ≡ 1)
      → name_for is_alphanumeric false a c first ≢ name_for is_alphanumeric false b d second
  unfolding name_for
  name_apart a b c d true true no_dash ne hc hd p q e = ne (p refl ∙ sym (q refl))
  name_apart a b c d true false no_dash ne hc hd p q e =
      Plain-ne-dashed (sanitise_name is_alphanumeric a) (sanitise_name is_alphanumeric b)
        (decimal 19 d) (sanitise_name-Plain is_alphanumeric a no_dash) e
  name_apart a b c d false true no_dash ne hc hd p q e =
      Plain-ne-dashed (sanitise_name is_alphanumeric b) (sanitise_name is_alphanumeric a)
        (decimal 19 c) (sanitise_name-Plain is_alphanumeric b no_dash) (sym e)
  name_apart a b c d false false no_dash ne hc hd p q e = ne (
      decimal-injective c d hc hd (
        dashed-injective (sanitise_name is_alphanumeric a) (sanitise_name is_alphanumeric b)
          (decimal 19 c) (decimal 19 d) (sanitise_name-Plain is_alphanumeric a no_dash)
          (sanitise_name-Plain is_alphanumeric b no_dash) e))

  -- Two sessions whose ids differ get different `name` parameters for a template that does not spell
  -- the id out, where a dash is not alphanumeric and the lowest id has not changed while either of
  -- them waited for the configuration: whoever their users are, whatever else was registered when
  -- each of them began, and also while another session is torn down.
  pub session_name_apart :
      (v v' w w' : Registry) (a b : Text)
      → is_alphanumeric b'-' ≡ false
      → next_client_id id_of v ≢ next_client_id id_of w
      → next_client_id id_of v < 2 ^ 64
      → next_client_id id_of w < 2 ^ 64
      → lowest_client_id id_of v' ≡ lowest_client_id id_of v
      → lowest_client_id id_of w' ≡ lowest_client_id id_of w
      → session_name is_alphanumeric id_of v v' a ≢ session_name is_alphanumeric id_of w w' b
  unfolding session_name
  session_name_apart v v' w w' a b no_dash ne hv hw same same' =
      rw (same, same')
        (name_apart a b (next_client_id id_of v) (next_client_id id_of w)
          (is_primary_of (lowest_client_id id_of v) (next_client_id id_of v))
          (is_primary_of (lowest_client_id id_of w) (next_client_id id_of w)) no_dash ne hv hw
          (primary-one id_of v) (primary-one id_of w))
