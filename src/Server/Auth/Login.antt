-- ===== src/Server/Auth/Login.antt =====
-- Who is logged in, by the handlers of server/src/auth.rs.
use webshooter.Base.{
  ℕ, ◌≡◌, ◌⊎◌, refl, subst, Bool, true, List, [], ◌∷◌, Option, none, some, Bool-cases, inl, inr,
}
use webshooter.Base.Text.{Text, text_eq, text_eq_iff}
use webshooter.Base.Result.{Result, ok, err}
use webshooter.Base.Dict.{get, get-insert}
use webshooter.Server.Auth.Verify.{Signs, verify_challenge-ok}
use webshooter.Server.Auth.Sessions.{
  WebshooterError, Session, challenged, approved, Sessions, User, is_user, get_challenge,
  LoginParams, id_only, signed, verify_challenge_and_issue_cookie, login_inner,
}

-- What the handlers do to the sessions, one request after another. The random bytes and the
-- reading of the clock are part of the request.
pub data Request : Type 0 where
  challenge : Text → Text → Request
  login : LoginParams → Text → ℕ → Request
  finish_register : Text → Text → Text → ℕ → Request

abbrev changed : Sessions → Result WebshooterError (Sessions × Text) → Sessions
changed sessions (ok (s, cookie)) = s
changed sessions (err e) = sessions

module _ {Key Signature : Type 0} (from_public_key_der : Text → Option Key)
    (from_slice : Text → Option Signature) (verify : Key → Text → Signature → Bool)
    (users : List User) where
  unfoldable pub step : Request → Sessions → Sessions
  step (challenge id bytes) sessions = get_challenge id bytes sessions
  step (login params cookie now) sessions =
      changed sessions (
        login_inner from_public_key_der from_slice verify users params cookie now sessions sessions)
  step (finish_register id signature cookie now) sessions = changed sessions (
      verify_challenge_and_issue_cookie from_public_key_der from_slice verify id id signature cookie
        now sessions sessions)

  -- The newest request stands first.
  unfoldable pub after : List Request → Sessions
  unfolding step
  after [] = []
  after (r ∷ requests) = step r (after requests)

  abbrev pub Issued : Text → Text → List Request → Type 0
  Issued id c [] = ⊥
  Issued id c (challenge i d ∷ requests) = ((i ≡ id) × (d ≡ c)) ⊎ Issued id c requests
  Issued id c (login params cookie now ∷ requests) = Issued id c requests
  Issued id c (finish_register i s cookie now ∷ requests) = Issued id c requests

  -- A request that earns the cookie for the id, after the challenge that it answers.
  abbrev pub Earned : Text → Text → List Request → Type 0
  Earned id cookie [] = ⊥
  Earned id cookie (challenge i d ∷ requests) = Earned id cookie requests
  Earned id cookie (login (id_only i) k now ∷ requests) = Earned id cookie requests
  Earned id cookie (login (signed i signature) k now ∷ requests) =
      ((i ≡ id)
        × (k ≡ cookie)
        × (is_user id users ≡ true)
        × (c : Text) × Issued id c requests
        × Signs from_public_key_der from_slice verify id signature c)
      ⊎ Earned id cookie requests
  Earned id cookie (finish_register i signature k now ∷ requests) =
      ((i ≡ id)
        × (k ≡ cookie)
        × (c : Text) × Issued id c requests
        × Signs from_public_key_der from_slice verify id signature c)
      ⊎ Earned id cookie requests

  abbrev Justified : Text → Session → List Request → Type 0
  Justified id (challenged c) requests = Issued id c requests
  Justified id (approved cookie at) requests = Earned id cookie requests

  abbrev JustifiedIn : Text → Option Session → List Request → Type 0
  JustifiedIn id none requests = Unit {0}
  JustifiedIn id (some session) requests = Justified id session requests

  -- A new request for another id, or one that is refused, takes nothing away.
  Justified_later :
      (r : Request) (id : Text) (o : Option Session) (requests : List Request)
      → JustifiedIn id o requests
      → JustifiedIn id o (r ∷ requests)
  Justified_later r id none requests h = tt
  Justified_later (challenge i d) id (some (challenged c)) requests h = inr h
  Justified_later (login p k now) id (some (challenged c)) requests h = h
  Justified_later (finish_register i s k now) id (some (challenged c)) requests h = h
  Justified_later (challenge i d) id (some (approved k at)) requests h = h
  Justified_later (login (id_only i) l now) id (some (approved k at)) requests h = h
  Justified_later (login (signed i s) l now) id (some (approved k at)) requests h = inr h
  Justified_later (finish_register i s l now) id (some (approved k at)) requests h = inr h

  abbrev Outcome : Type 0
  Outcome = Result WebshooterError (Sessions × Text)

  Justified-get_challenge :
      (i d id : Text) (requests : List Request)
      → JustifiedIn id (get id (after requests)) requests
      → JustifiedIn id (get id (after (challenge i d ∷ requests))) (challenge i d ∷ requests)
  unfolding after step get_challenge
  Justified-get_challenge i d id requests h =
      rw (get-insert i id (challenged d) (after requests)) (elim (Bool-cases (text_eq i id)) [
        | inl e ↦ rw e (inl ((text_eq_iff i id).0 e, refl))
        | inr e ↦ rw e (Justified_later (challenge i d) id (get id (after requests)) requests h)
      ])

  -- The sessions behind a verification by a request that earns what it writes.
  Justified-outcome :
      (r : Request) (i s k : Text) (now : ℕ) (requests : List Request) (o : Outcome)
      → verify_challenge_and_issue_cookie from_public_key_der from_slice verify i i s k now
          (after requests)
          (after requests)
        ≡ o
      → ((c : Text)
          → Issued i c requests
          → Signs from_public_key_der from_slice verify i s c
          → Earned i k (r ∷ requests))
      → ((j : Text) → JustifiedIn j (get j (after requests)) requests)
      → (id : Text) → JustifiedIn id (get id (changed (after requests) o)) (r ∷ requests)
  Justified-outcome r i s k now requests (err x) e earn h id =
      Justified_later r id (get id (after requests)) requests (h id)
  Justified-outcome r i s k now requests (ok (w, l)) e earn h id =
      let (c, read, signs, wrote) =
        verify_challenge-ok from_public_key_der from_slice verify i s k now (after requests)
          (after requests) w l e in
      let mine : JustifiedIn i (get i (after requests)) requests = h i in
      let issued : Issued i c requests = (rw read at mine) in
      rw (wrote, get-insert i id (approved k now) (after requests))
        (elim (Bool-cases (text_eq i id)) [
          | inl same ↦ rw same (
              subst (λ j. Earned j k (r ∷ requests)) ((text_eq_iff i id).0 same)
                (earn c issued signs))
          | inr other ↦ rw other (Justified_later r id (get id (after requests)) requests (h id))
        ])

  after-Justified :
      (requests : List Request) (id : Text) → JustifiedIn id (get id (after requests)) requests
  unfolding after step login_inner get
  after-Justified [] id = tt
  after-Justified (challenge i d ∷ requests) id =
      Justified-get_challenge i d id requests (after-Justified requests id)
  after-Justified (login (id_only i) k now ∷ requests) id =
      Justified_later (login (id_only i) k now) id (get id (after requests)) requests
        (after-Justified requests id)
  after-Justified (login (signed i s) k now ∷ requests) id = elim (Bool-cases (is_user i users)) [
    | inl e ↦ rw e (
        Justified-outcome (login (signed i s) k now) i s k now requests
          (verify_challenge_and_issue_cookie from_public_key_der from_slice verify i i s k now
            (after requests) (after requests))
          refl (λ c issued signs. inl (refl, refl, e, c, issued, signs)) (after-Justified requests)
          id)
    | inr e ↦ rw e (
        Justified_later (login (signed i s) k now) id (get id (after requests)) requests
          (after-Justified requests id))
  ]
  after-Justified (finish_register i s k now ∷ requests) id =
      Justified-outcome (finish_register i s k now) i s k now requests
        (verify_challenge_and_issue_cookie from_public_key_der from_slice verify i i s k now
          (after requests) (after requests))
        refl (λ c issued signs. inl (refl, refl, c, issued, signs)) (after-Justified requests) id

  -- Whatever requests came: an approved session of an id has a cookie that some request earned, with
  -- a signature, under the key that the id itself is, of a challenge that was issued for that id
  -- before it; a login earns one only for a registered user.
  pub approved-Earned :
      (requests : List Request) (id cookie : Text) (at : ℕ)
      → get id (after requests) ≡ some (approved cookie at)
      → Earned id cookie requests
  approved-Earned requests id cookie at h =
      let j : JustifiedIn id (get id (after requests)) requests = after-Justified requests id in
      rw h at j
