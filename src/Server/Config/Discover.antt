-- ===== src/Server/Config/Discover.antt =====
-- The choice of the configuration file in server/src/config.rs does not depend on the order in which a
-- directory is read.
use webshooter.Base.{
  ◌≡◌, refl, sym, ap, ◌∙◌, arith, Bool, true, false, ◌&&◌, List, [], ◌∷◌, ◌++◌, Option, none, some,
  if◌then◌else◌, any, In, inl, inr, Bool-cases, codes, subst, if_intro,
}
use webshooter.Base.Text.{Text, text_eq}
use webshooter.Server.Config.{
  Entry, has_file, find_exact, config_extensions, text_le, variant, supported, least_variant,
  smaller, or_else, discover_config,
}

text_le-antisym : (s t : Text) → text_le s t ≡ true → text_le t s ≡ true → s ≡ t
unfolding text_le
text_le-antisym [] [] h k = refl
text_le-antisym [] (b ∷ t) h k = cc
text_le-antisym (a ∷ s) [] h k = cc
text_le-antisym (a ∷ s) (b ∷ t) h k = ground (arith, h, k, text_le-antisym s t)

text_le-total : (s t : Text) → text_le s t ≡ false → text_le t s ≡ true
unfolding text_le
text_le-total [] t h = cc
text_le-total (a ∷ s) [] h = refl
text_le-total (a ∷ s) (b ∷ t) h = ground (arith, h, text_le-total s t)

text_le_refl : (s : Text) → text_le s s ≡ true
unfolding text_le
text_le_refl [] = refl
text_le_refl (a ∷ s) = ground (arith, text_le_refl s)

text_le_trans : (s t u : Text) → text_le s t ≡ true → text_le t u ≡ true → text_le s u ≡ true
unfolding text_le
text_le_trans [] t u h k = refl
text_le_trans (a ∷ s) [] u h k = cc
text_le_trans (a ∷ s) (b ∷ t) [] h k = cc
text_le_trans (a ∷ s) (b ∷ t) (c ∷ u) h k = ground (arith, h, k, text_le_trans s t u)

abbrev counts : Entry → Bool
counts e = variant e.name && supported e.name && e.is_file

-- The name is that of an entry that counts, and comes first among those.
abbrev IsLeast : List Entry → Option Text → Type 0
IsLeast dir none = (e : Entry) → In e dir → counts e ≡ false
IsLeast dir (some name) =
    ((e : Entry) × In e dir × (counts e ≡ true) × (e.name ≡ name))
    × ((e : Entry) → In e dir → counts e ≡ true → text_le name e.name ≡ true)

least_variant-IsLeast : (dir : List Entry) → IsLeast dir (least_variant dir)
unfolding least_variant
least_variant-IsLeast [] = λ e m. absurd m
least_variant-IsLeast (e ∷ dir) =
    step (counts e) refl (least_variant dir) (least_variant-IsLeast dir)
  where
    step :
        (b : Bool)
        → counts e ≡ b
        → (o : Option Text) → IsLeast dir o
        → IsLeast (e ∷ dir) (if b then smaller e.name o else o)
    step false c none h = λ f m. elim m [ inl same ↦ ap counts same ∙ c | inr later ↦ h f later ]
    step false c (some n) h = (
      (h.0.0, inr h.0.1, h.0.2, h.0.3),
      λ f m k. elim m [ inl same ↦ cc (ap counts same, c, k) | inr later ↦ h.1 f later k ],
    )
    step true c none h = (
      (e, inl refl, c, refl),
      λ f m k. elim m [
        | inl same ↦
            subst (λ x. text_le e.name x ≡ true) (sym (ap (λ x. x.name) same)) (text_le_refl e.name)
        | inr later ↦ cc (h f later, k)
      ],
    )
    step true c (some n) h =
        if_intro (IsLeast (e ∷ dir)) (text_le e.name n) (some e.name) (some n)
          (λ first. (
            (e, inl refl, c, refl),
            λ f m k. elim m [
              | inl same ↦
                  subst (λ x. text_le e.name x ≡ true) (sym (ap (λ x. x.name) same))
                    (text_le_refl e.name)
              | inr later ↦ text_le_trans e.name n f.name first (h.1 f later k)
            ],
          ))
          (λ second. (
            (h.0.0, inr h.0.1, h.0.2, h.0.3),
            λ f m k. elim m [
              | inl same ↦
                  subst (λ x. text_le n x ≡ true) (sym (ap (λ x. x.name) same))
                    (text_le-total e.name n second)
              | inr later ↦ h.1 f later k
            ],
          ))

any-In : {A : Type 0} (p : A → Bool) (l : List A) → any p l ≡ true → (a : A) × In a l × (p a ≡ true)
any-In {A} p [] h = cc
any-In {A} p (a ∷ l) h = elim (Bool-cases (p a)) [
  | inl e ↦ (a, inl refl, e)
  | inr e ↦ further (any-In p l (ground (arith, e, h)))
]
  where
    further : (b : A) × In b l × (p b ≡ true) → (b : A) × In b (a ∷ l) × (p b ≡ true)
    further (b, m, k) = (b, inr m, k)

In-any : {A : Type 0} (p : A → Bool) (a : A) (l : List A) → In a l → p a ≡ true → any p l ≡ true
In-any p a [] m h = absurd m
In-any p a (b ∷ l) (inl e) h = ground (arith, ap p e, h)
In-any p a (b ∷ l) (inr m) h = ground (arith, In-any p a l m h)

abbrev pub Within : List Entry → List Entry → Type 0
Within d d' = (e : Entry) → In e d → In e d'

has_file_mono :
    (name : Text) (d d' : List Entry)
    → Within d d'
    → has_file name d ≡ true
    → has_file name d' ≡ true
unfolding has_file
has_file_mono name d d' sub h =
    let test = λ (e : Entry). text_eq e.name name && e.is_file in
    let found = any-In test d h in In-any test found.0 d' (sub found.0 found.1) found.2

has_file-same :
    (name : Text) (d d' : List Entry)
    → Within d d'
    → Within d' d
    → has_file name d ≡ has_file name d'
has_file-same name d d' sub sup = same (has_file name d) (has_file name d') refl refl
  where
    same : (a b : Bool) → has_file name d ≡ a → has_file name d' ≡ b → a ≡ b
    same true true h k = refl
    same false false h k = refl
    same true false h k = cc (has_file_mono name d d' sub h, k)
    same false true h k = cc (has_file_mono name d' d sup k, h)

find_exact-same :
    (exts : List Text) (d d' : List Entry)
    → Within d d'
    → Within d' d
    → find_exact exts d ≡ find_exact exts d'
unfolding find_exact
find_exact-same [] d d' sub sup = refl
find_exact-same (ext ∷ exts) d d' sub sup =
    ap (λ b. if b then some (codes "config." ++ ext) else find_exact exts d)
      (has_file-same (codes "config." ++ ext) d d' sub sup)
    ∙ ap (λ o. if has_file (codes "config." ++ ext) d' then some (codes "config." ++ ext) else o)
        (find_exact-same exts d d' sub sup)

least-same :
    (d d' : List Entry)
    → Within d d'
    → Within d' d
    → (o o' : Option Text) → IsLeast d o
    → IsLeast d' o'
    → o ≡ o'
least-same d d' sub sup none none h k = refl
least-same d d' sub sup none (some n) h k = cc (h k.0.0 (sup k.0.0 k.0.1), k.0.2)
least-same d d' sub sup (some n) none h k = cc (k h.0.0 (sub h.0.0 h.0.1), h.0.2)
least-same d d' sub sup (some n) (some m) h k =
    ap (λ x. some x)
      (text_le-antisym n m
        (subst (λ x. text_le n x ≡ true) k.0.3 (h.1 k.0.0 (sup k.0.0 k.0.1) k.0.2))
        (subst (λ x. text_le m x ≡ true) h.0.3 (k.1 h.0.0 (sub h.0.0 h.0.1) h.0.2)))

-- Two listings of the same entries, in whatever order and however often each is listed, lead to the
-- same configuration file.
pub discover_config-same :
    (d d' : List Entry) → Within d d' → Within d' d → discover_config d ≡ discover_config d'
unfolding discover_config
discover_config-same d d' sub sup =
    ap (λ o. or_else o (least_variant d)) (find_exact-same config_extensions d d' sub sup)
    ∙ ap (or_else (find_exact config_extensions d')) (
        least-same d d' sub sup (least_variant d) (least_variant d') (least_variant-IsLeast d)
          (least_variant-IsLeast d'))
