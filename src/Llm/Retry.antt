-- ===== src/Llm/Retry.antt =====
-- src/orchestra/llm/openai_compatible_async.py: `_post`, and the reading of the answer by `generate`.
-- What each attempt meets and which statuses `raise_for_status` raises on are parameters, as is
-- Python's `int` on a value of JSON. The delays are in seconds.
pub mod Attempts
use codename_madagascar.Prelude.{
  ℕ, zero, suc, ◌*◌, String, Bool, true, false, not, ◌&&◌, ◌||◌, Option, none, some, List, [], ◌∷◌,
  ltb, leb, ◌==◌, nat_eq, if◌then◌else◌, Result, ok, err,
}

-- The exceptions of httpx, which share no class with the ones of the runtime.
pub data HttpError : Type 0 where
  transport_error : HttpError
  http_status_error : (status_code : ℕ) → HttpError

-- What one attempt meets: an error of the transport (a timeout is one), or a response.
pub data Reply (A : Type 0) : Type 0 where
  lost : Reply A
  response : (status_code : ℕ) → A → Reply A

-- `2**attempt`
unfoldable pub power_of_two : ℕ → ℕ
power_of_two zero = 1
power_of_two (suc n) = 2 * power_of_two n

-- `status == 429 or status >= 500`
abbrev pub is_transient : ℕ → Bool
is_transient status = status == 429 || leb 500 status

-- What one pass through the `try` does: it returns or raises, or keeps the error for later.
pub data Step (A : Type 0) : Type 0 where
  ends : Result HttpError A → Step A
  keeps : HttpError → Step A

module _ {A : Type 0} (raises : ℕ → Bool) where
  abbrev pub check_status : ℕ → A → Step A
  check_status status body =
      if not (raises status)
      then ends (ok body)
      else if not (status == 429) && ltb status 500
      then ends (err (http_status_error status))
      else keeps (http_status_error status)

  abbrev pub try_once : Reply A → Step A
  try_once lost = keeps transport_error
  try_once (response status body) = check_status status body

  -- The rest of the loop from `attempt`, of which `left` passes are left, after the error `last`:
  -- the outcome, and the delays slept through. An outcome of none is the failed `assert`.
  unfoldable pub post_loop :
      (ℕ → Reply A) → (left attempt : ℕ) → Option HttpError → Option (Result HttpError A) × List ℕ
  post_loop replies zero attempt none = (none, [])
  post_loop replies zero attempt (some last) = (some (err last), [])
  post_loop replies (suc left) attempt last = elim (try_once (replies attempt)) [
    | ends outcome ↦ (some outcome, [])
    | keeps error ↦
        let (outcome, delays) = post_loop replies left (suc attempt) (some error) in
        (outcome, if ltb attempt 2 then power_of_two attempt ∷ delays else delays)
  ]

  -- `_post`
  unfoldable pub post : (ℕ → Reply A) → Option (Result HttpError A) × List ℕ
  unfolding post_loop
  post replies = post_loop replies 3 0 none
