-- ===== src/Server/Auth/Verify.antt =====
-- What `verify_challenge_and_issue_cookie` of server/src/auth.rs has seen where it succeeds.
use webshooter.Base.{ℕ, ◌≡◌, refl, arith, Bool, true, Option, none, some}
use webshooter.Base.Text.{Text}
use webshooter.Base.Result.{Result, ok, err, ◌>>=◌}
use webshooter.Base.Dict.{get, insert}
use webshooter.Server.Auth.Sessions.{
  WebshooterError, Session, challenged, approved, Sessions, challenge_in, check_parts,
  check_signature, approve, verify_challenge_and_issue_cookie,
}

module _ {Key Signature : Type 0} (from_public_key_der : Text → Option Key)
    (from_slice : Text → Option Signature) (verify : Key → Text → Signature → Bool) where
  -- The bytes of the id are a key under which the signature of the challenge holds.
  abbrev pub Signs : Text → Text → Text → Type 0
  Signs id signature c =
      (key : Key) × (s : Signature) × (from_public_key_der id ≡ some key)
      × (from_slice signature ≡ some s)
      × (verify key c s ≡ true)

  check_parts-Signs :
      (id signature c : Text) (key : Option Key) (s : Option Signature)
      → from_public_key_der id ≡ key
      → from_slice signature ≡ s
      → check_parts from_public_key_der from_slice verify key s c ≡ ok tt
      → Signs id signature c
  check_parts-Signs id signature c none s e f h = cc
  check_parts-Signs id signature c (some key) none e f h = cc
  check_parts-Signs id signature c (some key) (some s) e f h = (key, s, e, f, ground (arith, h))

  check_signature-Signs :
      (id signature c : Text)
      → check_signature from_public_key_der from_slice verify id signature c ≡ ok tt
      → Signs id signature c
  unfolding check_signature
  check_signature-Signs id signature c h =
      check_parts-Signs id signature c (from_public_key_der id) (from_slice signature) refl refl h

  -- What a verification that goes through has read and written.
  pub verify_challenge-ok :
      (id signature cookie : Text) (now : ℕ) (read write s : Sessions) (k : Text)
      → verify_challenge_and_issue_cookie from_public_key_der from_slice verify id id signature
          cookie now read write
        ≡ ok (s, k)
      → (c : Text) × (get id read ≡ some (challenged c))
        × Signs id signature c
        × (s ≡ insert id (approved cookie now) write)
  unfolding verify_challenge_and_issue_cookie
  verify_challenge-ok id signature cookie now read write s k h = go (get id read) refl h
    where
      finish :
          (c : Text) (r : Result WebshooterError (Unit {0}))
          → get id read ≡ some (challenged c)
          → check_signature from_public_key_der from_slice verify id signature c ≡ r
          → (r >>= λ _. approve id cookie now write) ≡ ok (s, k)
          → (d : Text) × (get id read ≡ some (challenged d))
            × Signs id signature d
            × (s ≡ insert id (approved cookie now) write)
      finish c (ok u) e f h = (c, e, check_signature-Signs id signature c f, cc h)
      finish c (err x) e f h = cc h

      go :
          (o : Option Session)
          → get id read ≡ o
          → (challenge_in o >>= λ c.
              check_signature from_public_key_der from_slice verify id signature c >>= λ _.
              approve id cookie now write)
            ≡ ok (s, k)
          → (d : Text) × (get id read ≡ some (challenged d))
            × Signs id signature d
            × (s ≡ insert id (approved cookie now) write)
      go none e h = cc h
      go (some (approved l at)) e h = cc h
      go (some (challenged c)) e h =
          finish c (check_signature from_public_key_der from_slice verify id signature c) e refl h
