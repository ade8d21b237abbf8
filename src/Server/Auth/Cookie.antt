-- ===== src/Server/Auth/Cookie.antt =====
-- Which requests `Authenticated::from_request` of server/src/auth.rs lets in.
use webshooter.Base.{
  ℕ, ◌-◌, ◌≤◌, ◌≡◌, ◌⊎◌, sym, ap, ◌∙◌, subst, arith, List, [], ◌∷◌, Option, none, some, ltb,
  Bool-cases, inl, inr, In,
}
use webshooter.Base.Text.{Text, text_eq, text_eq_iff}
use webshooter.Base.Result.{ok, ◌>>=◌, >>=-ok}
use webshooter.Base.Dict.{get, get-insert}
use webshooter.Server.Auth.Sessions.{
  WebshooterError, no_authentication, not_authorized, no_associated_user, Session, challenged,
  approved, Sessions, User, find_token, add_current, current_sessions, find_user, or_error,
  authenticated, cookie_ttl,
}

-- An approved session that is not older than 24 hours and whose cookie has the text.
abbrev pub Grants : (Text → Text) → ℕ → Sessions → Text → Text → Type 0
Grants to_string now sessions token id =
    (cookie : Text) × (at : ℕ) × In (id, approved cookie at) sessions
    × (to_string cookie ≡ token)
    × (now - at ≤ cookie_ttl)

Grants-cons :
    (to_string : Text → Text) (now : ℕ) (p : Text × Session) (sessions : Sessions) (token id : Text)
    → Grants to_string now sessions token id
    → Grants to_string now (p ∷ sessions) token id
Grants-cons to_string now p sessions token id (k, at, i, e, t) = (k, at, inr i, e, t)

current_sessions-Grants :
    (to_string : Text → Text) (now : ℕ) (sessions : Sessions) (current : List (Text × Text))
    (token id : Text)
    → get token (current_sessions to_string now sessions current) ≡ some id
    → Grants to_string now sessions token id ⊎ (get token current ≡ some id)
unfolding current_sessions
current_sessions-Grants to_string now [] current token id h = inr h
current_sessions-Grants to_string now ((i, challenged c) ∷ sessions) current token id h =
    elim (current_sessions-Grants to_string now sessions current token id h) [
      | inl g ↦ inl (Grants-cons to_string now (i, challenged c) sessions token id g)
      | inr e ↦ inr e
    ]
current_sessions-Grants to_string now ((i, approved k at) ∷ sessions) current token id h =
    let next = add_current to_string now i (approved k at) current in
    elim (current_sessions-Grants to_string now sessions next token id h) [
      | inl g ↦ inl (Grants-cons to_string now (i, approved k at) sessions token id g)
      | inr e ↦ elim (Bool-cases (ltb cookie_ttl (now - at))) [
        | inl old ↦ inr (rw old at e)
        | inr young ↦ elim (Bool-cases (text_eq (to_string k) token)) [
          | inl same ↦ inl (
            k,
            at,
            inl (ground (arith, get-insert (to_string k) token i current)),
            (text_eq_iff (to_string k) token).0 same,
            ground (arith, young),
          )
          | inr other ↦ inr (ground (arith, get-insert (to_string k) token i current))
        ]
      ]
    ]

find_user-In :
    (id : Text) (users : List User) (u : User)
    → find_user id users ≡ some u
    → In u users × (u.verification_key ≡ id)
find_user-In id [] u h = cc
find_user-In id (v ∷ users) u h = elim (Bool-cases (text_eq id v.verification_key)) [
  | inl e ↦
      let same : v ≡ u = ground (arith, h, e) in
      (
        inl (sym same),
        ap (λ (w : User). w.verification_key) (sym same)
            ∙ sym ((text_eq_iff id v.verification_key).0 e),
      )
  | inr e ↦ let later = find_user-In id users u (ground (arith, h, e)) in (inr later.0, later.1)
]

or_error-ok :
    {A : Type 0} (e : WebshooterError) {a : A} (o : Option A) → or_error e o ≡ ok a → o ≡ some a
or_error-ok e none h = cc
or_error-ok e (some b) h = ground (arith, h)

-- A request that is let in as a user shows the cookie of an approved session that is at most 24
-- hours old, and the key of that user is the id of the session.
pub authenticated_sound :
    (to_string : Text → Text) (users : List User) (now : ℕ) (sessions : Sessions)
    (headers : List Text) (u : User)
    → authenticated to_string users now sessions headers ≡ ok u
    → (token : Text) × (find_token headers ≡ some token)
      × Grants to_string now sessions token u.verification_key
      × In u users
unfolding authenticated get
authenticated_sound to_string users now sessions headers u h =
    let (token, t, rest) =
      >>=-ok (or_error no_authentication (find_token headers))
        (λ k. or_error not_authorized (get k (current_sessions to_string now sessions [])) >>= λ j.
          or_error no_associated_user (find_user j users))
        h in
    let shown = or_error-ok no_authentication (find_token headers) t in
    let (id, i, found) =
      >>=-ok (or_error not_authorized (get token (current_sessions to_string now sessions [])))
        (λ j. or_error no_associated_user (find_user j users)) rest in
    let user =
      find_user-In id users u (or_error-ok no_associated_user (find_user id users) found) in
    elim (current_sessions-Grants to_string now sessions [] token id
      (or_error-ok not_authorized (get token (current_sessions to_string now sessions [])) i)) [
        | inl g ↦ (
          token,
          shown,
          subst (λ j. Grants to_string now sessions token j) (sym user.1) g,
          user.0,
        )
        | inr none_yet ↦ absurd (cc none_yet)
      ]
