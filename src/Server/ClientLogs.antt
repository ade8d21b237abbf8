-- ===== src/Server/ClientLogs.antt =====
-- `client_logs` and `truncate` of server/src/main.rs: the records that a page posts, and the bound on
-- each. A text is truncated by its UTF-8 bytes.
pub mod Boundaries
pub mod Truncate
pub mod Batches
use webshooter.Base.{
  ℕ, zero, suc, ◌+◌, ◌-◌, ◌*◌, ◌/◌, ◌%◌, ◌≡◌, ◌≤◌, ◌<◌, refl, sym, ap, ◌∙◌, arith, Bool, true,
  false, not, List, [], ◌∷◌, ◌++◌, map, leb, ltb, ◌==◌, if◌then◌else◌, length, take, drop, All,
  if_intro, length-append, length-take, leb→le, Bool-cases, inl, inr,
}
use webshooter.Base.Text.{Text, IsScalar, encode_char, as_bytes, continuation}

abbrev pub client_log_max_records : ℕ
client_log_max_records = 64

abbrev pub client_log_max_message : ℕ
client_log_max_message = 8 * 1024

-- `is_char_boundary`: the byte there does not continue a character.
unfoldable pub starts : ℕ → ℕ → List ℕ → Bool
starts index len [] = index == len
starts index len (b ∷ rest) = not (continuation b)

unfoldable pub is_char_boundary : ℕ → List ℕ → Bool
unfolding starts
is_char_boundary index message =
    if index == 0 then true else starts index (length message) (drop index message)

-- The loop, from `end` down.
unfoldable pub back_to_boundary : ℕ → List ℕ → ℕ
unfolding is_char_boundary
back_to_boundary zero message = 0
back_to_boundary (suc end) message =
    let before = back_to_boundary end message in
    if is_char_boundary (suc end) message then suc end else before

unfoldable pub truncate : List ℕ → ℕ → List ℕ
unfolding back_to_boundary
truncate message limit =
    if leb (length message) limit then message else take (back_to_boundary limit message) message

-- The lines that are logged: the records with their texts cut, and how many were left out.
pub record Lines (Level : Type 0) : Type 0 where
  pub lines : List (Level × List ℕ)
  pub dropped : ℕ

unfoldable pub client_logs : {Level : Type 0} → List (Level × Text) → Lines Level
client_logs records = record {
  lines =
      map (λ r. (r.0, truncate (as_bytes r.1) client_log_max_message))
        (take client_log_max_records records);
  dropped = length records - client_log_max_records;
}

-- As many characters of a text, from its front, as fit.
abbrev pub fitting : ℕ → Text → Text
fitting limit [] = []
fitting limit (c ∷ cs) =
    let width = length (encode_char c) in
    let rest = fitting (limit - width) cs in if leb width limit then c ∷ rest else []
