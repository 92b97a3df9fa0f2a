-- ===== src/Llm/Retry/Attempts.antt =====
-- src/orchestra/llm/openai_compatible_async.py: which attempt decides a request.
use codename_madagascar.Prelude.{
  ℕ, zero, suc, ◌<◌, ◌≤◌, Bool, true, false, ◌&&◌, Option, none, some, List, [], ◌∷◌, take,
  if◌then◌else◌, Result, ok, err, ◌≡◌, ◌∙◌, ◌⊎◌, refl, sym, ap, Bool-cases, inl, inr, ltb, arith,
}
use codename_madagascar.Llm.Retry.{
  HttpError, transport_error, http_status_error, Reply, lost, response, is_transient, ends, keeps,
  try_once, post_loop, post, power_of_two,
}

abbrev pub delays : List ℕ
delays = 1 ∷ 2 ∷ []

module _ {A : Type 0} (raises : ℕ → Bool) where
  -- An attempt that is tried again: no response, or one that raises with a transient status.
  abbrev pub is_retried : Reply A → Bool
  is_retried lost = true
  is_retried (response status body) = raises status && is_transient status

  -- What the attempt would return or raise.
  abbrev pub outcome_of : Reply A → Result HttpError A
  outcome_of lost = err transport_error
  outcome_of (response status body) =
      if raises status then err (http_status_error status) else ok body

  error_of : Reply A → HttpError
  error_of lost = transport_error
  error_of (response status body) = http_status_error status

  try_once-ends :
      (reply : Reply A) → is_retried reply ≡ false → try_once raises reply ≡ ends (outcome_of reply)
  try_once-ends lost h = absurd (ground arith)
  try_once-ends (response status body) h = ground arith

  try_once-keeps :
      (reply : Reply A)
      → is_retried reply ≡ true
      → (try_once raises reply ≡ keeps (error_of reply)) × (outcome_of reply ≡ err (error_of reply))
  unfolding error_of
  try_once-keeps lost h = (refl, refl)
  try_once-keeps (response status body) h = ground arith

  loop-ends :
      (replies : ℕ → Reply A) (left attempt : ℕ) (last : Option HttpError)
      → is_retried (replies attempt) ≡ false
      → post_loop raises replies (suc left) attempt last ≡ (some (outcome_of (replies attempt)), [])
  unfolding post_loop
  loop-ends replies left attempt last h = rw (post_loop, try_once-ends (replies attempt) h)

  loop-keeps :
      (replies : ℕ → Reply A) (left attempt : ℕ) (last : Option HttpError)
      → is_retried (replies attempt) ≡ true
      → post_loop raises replies (suc left) attempt last ≡ (
          let (outcome, slept) =
            post_loop raises replies left (suc attempt) (some (error_of (replies attempt))) in
          (outcome, if ltb attempt 2 then power_of_two attempt ∷ slept else slept))
  unfolding post_loop
  loop-keeps replies left attempt last h = rw (post_loop, (try_once-keeps (replies attempt) h).0)

  -- The third attempt decides, whatever it meets.
  loop-last :
      (replies : ℕ → Reply A) (last : Option HttpError)
      → post_loop raises replies 1 2 last ≡ (some (outcome_of (replies 2)), [])
  unfolding post_loop
  loop-last replies last = elim (Bool-cases (is_retried (replies 2))) [
    | inl again ↦
        loop-keeps replies 0 2 last again
        ∙ ap (λ outcome. (some outcome, [])) (sym (try_once-keeps (replies 2) again).1)
    | inr over ↦ loop-ends replies 0 2 last over
  ]

  -- A delay before the rest of the loop.
  after : ℕ → Option (Result HttpError A) × List ℕ → Option (Result HttpError A) × List ℕ
  after delay rest = (rest.0, delay ∷ rest.1)

  -- The request is decided by the first attempt that is not retried, after the delays of one and of
  -- two seconds for the attempts before it; where all three are retried, the third one decides it.
  pub post_lem :
      (replies : ℕ → Reply A) (k : ℕ)
      → k ≤ 2
      → ((j : ℕ) → j < k → is_retried (replies j) ≡ true)
      → ((k ≡ 2) ⊎ (is_retried (replies k) ≡ false))
      → post raises replies ≡ (some (outcome_of (replies k)), take k delays)
  unfolding post power_of_two after
  post_lem replies zero small before decides = loop-ends replies 2 0 none (ground arith)
  post_lem replies (suc zero) small before decides =
      loop-keeps replies 2 0 none (before 0 (omega arith)) ∙ elim decides [
        | inl e ↦ absurd (omega (arith, e))
        | inr over ↦ ap (after 1) (loop-ends replies 1 1 (some (error_of (replies 0))) over)
      ]
  post_lem replies (suc (suc zero)) small before decides =
      loop-keeps replies 2 0 none (before 0 (omega arith))
      ∙ ap (after 1) (
          loop-keeps replies 1 1 (some (error_of (replies 0))) (before 1 (omega arith))
          ∙ ap (after 2) (loop-last replies (some (error_of (replies 1)))))
  post_lem replies (suc (suc (suc n))) small before decides = absurd (omega arith)
