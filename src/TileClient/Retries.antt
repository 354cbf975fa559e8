-- ===== src/TileClient/Retries.antt =====
-- Which of the provider's answers decides a download.
use data_service.Common.{
  ℕ, ◌+◌, ◌≡◌, ◌≢◌, ◌≤◌, ◌<◌, max, ◌⊎◌, inl, inr, Bool, true, false, arith, Bool-cases, ltb, ltb→lt,
  refl, List, [], ◌∷◌, none, some,
}
use text.Mathlib.Text.{starts_with}
use data_service.TileClient.{
  Answer, Response, responded, http_error, timed_out, other_error, Download, downloaded, passed_on,
  HttpTileClient, provider_unavailable, fetch_once, is_retryable, is_nil, overall_budget_seconds,
  concluded, download_tile,
}

-- What the retrying library documents of a loop that stops after a number of attempts or a delay.
pub record Retrying (last_attempt : ℕ → ℕ → (ℕ → ℕ) → (ℕ → Bool) → ℕ) : Type 0 where
  -- an attempt is followed by another one only if it failed in the way that is retried
  pub retried :
      (attempts delay : ℕ) (elapsed : ℕ → ℕ) (again : ℕ → Bool) (i : ℕ)
      → i < last_attempt attempts delay elapsed again
      → again i ≡ true
  -- a failure of that kind ends the loop only if it was the last one allowed or the delay is over
  pub stopped :
      (attempts delay : ℕ) (elapsed : ℕ → ℕ) (again : ℕ → Bool)
      → again (last_attempt attempts delay elapsed again) ≡ true
      → (attempts ≤ last_attempt attempts delay elapsed again + 1)
        ⊎ (delay ≤ elapsed (last_attempt attempts delay elapsed again))
  -- there is a first attempt, and no more of them than allowed
  pub bounded :
      (attempts delay : ℕ) (elapsed : ℕ → ℕ) (again : ℕ → Bool)
      → last_attempt attempts delay elapsed again < max 1 attempts

-- what a provider says when another attempt may help
pub data Transient : Answer → Type 0 where
  too_many_requests : (r : Response) → r.status_code ≡ 429 → Transient (responded r)
  server_error : (r : Response) → 500 ≤ r.status_code → Transient (responded r)
  broken_transport : Transient http_error
  too_slow : Transient timed_out

-- what a provider says that settles the download, and how
pub data Settles : Answer → Download → Type 0 where
  tile :
      (r : Response)
      → r.status_code ≡ 200
      → r.content ≢ []
      → starts_with r.content_type "text/" ≡ false
      → Settles (responded r) (downloaded (some r.content))
  empty_body :
      (r : Response)
      → r.status_code ≡ 200
      → r.content ≡ []
      → Settles (responded r) (downloaded none)
  error_page :
      (r : Response)
      → r.status_code ≡ 200
      → starts_with r.content_type "text/" ≡ true
      → Settles (responded r) (downloaded none)
  refusal :
      (r : Response)
      → r.status_code ≢ 200
      → r.status_code ≢ 429
      → r.status_code < 500
      → Settles (responded r) (downloaded none)
  unforeseen : Settles other_error passed_on

-- an attempt with a transient answer is retried, and the provider unavailable if it was the last
transient_lem :
    {a : Answer}
    → Transient a
    → (is_retryable (fetch_once a) ≡ true) × (concluded (fetch_once a) ≡ provider_unavailable)
unfolding fetch_once is_retryable concluded
transient_lem (too_many_requests r h) = (ground arith, ground arith)
transient_lem (server_error r h) = (ground arith, ground arith)
transient_lem broken_transport = (refl, refl)
transient_lem too_slow = (refl, refl)

is_nil-false : (bs : List ℕ) → bs ≢ [] → is_nil bs ≡ false
is_nil-false [] h = absurd (h refl)
is_nil-false (b ∷ bs) h = refl

settles_lem :
    {a : Answer} {d : Download}
    → Settles a d
    → (is_retryable (fetch_once a) ≡ false) × (concluded (fetch_once a) ≡ d)
unfolding fetch_once is_retryable concluded
settles_lem (tile r ok full image) =
    (ground (arith, is_nil-false r.content full), ground (arith, is_nil-false r.content full))
settles_lem (empty_body r ok empty) = (rw empty (ground arith), rw empty (ground arith))
settles_lem (error_page r ok page) = (ground arith, ground arith)
settles_lem (refusal r fresh paced served) = (ground arith, ground arith)
settles_lem unforeseen = (refl, refl)

module _ (last_attempt : ℕ → ℕ → (ℕ → ℕ) → (ℕ → Bool) → ℕ) (tenacity : Retrying last_attempt) where
  ends_at_first :
      (attempts delay : ℕ) (elapsed : ℕ → ℕ) (again : ℕ → Bool) (j : ℕ)
      → j < max 1 attempts
      → again j ≡ false
      → ((i : ℕ) → i < j → (elapsed i < delay) × (again i ≡ true))
      → last_attempt attempts delay elapsed again ≡ j
  ends_at_first attempts delay elapsed again j allowed final before =
      let last = last_attempt attempts delay elapsed again in
      elim (Bool-cases (ltb last j)) [
        | inl early ↦
            let (timely, failed) = before last (ltb→lt last j early) in
            elim (tenacity.stopped attempts delay elapsed again failed) [
              | inl spent ↦ absurd (ground (arith, allowed, early))
              | inr late ↦ absurd (ground (arith, allowed, early))
            ]
        | inr reached ↦ elim (Bool-cases (ltb j last)) [
          | inl past ↦
              let failed = tenacity.retried attempts delay elapsed again j (ltb→lt j last past) in
              absurd (ground arith)
          | inr level ↦ ground (arith, reached, level)
        ]
      ]

  -- The first answer that is not transient decides the download of a connected client, if it comes
  -- within the allowed attempts and each attempt before it ended within the time budget. A 200 with a
  -- body that is not called text is its tile; a 200 that is empty or called text, and every other
  -- status than 429 below 500, is `None`; and an unforeseen exception is passed on.
  pub download_tile-first :
      (c : HttpTileClient) (elapsed : ℕ → ℕ) (answers : ℕ → Answer) (j : ℕ) (d : Download)
      → c.connected ≡ true
      → j < max 1 c.max_retries
      → Settles (answers j) d
      → ((i : ℕ) → i < j → (elapsed i < overall_budget_seconds c) × Transient (answers i))
      → download_tile last_attempt c elapsed answers ≡ d
  unfolding download_tile
  download_tile-first c elapsed answers j d up allowed settled before =
      let again : ℕ → Bool = λ i. is_retryable (fetch_once (answers i)) in
      let (final, decided) = settles_lem settled in
      let ended =
        ends_at_first c.max_retries (overall_budget_seconds c) elapsed again j allowed final
          (λ i h. ((before i h).0, (transient_lem (before i h).1).0)) in
      rw (ended, up) decided

  -- A connected client reports the provider as unavailable if every allowed attempt meets a 429, a
  -- status of 500 or more, a transport error or a timeout, however long the attempts take.
  pub download_tile-unavailable :
      (c : HttpTileClient) (elapsed : ℕ → ℕ) (answers : ℕ → Answer)
      → c.connected ≡ true
      → ((i : ℕ) → i < max 1 c.max_retries → Transient (answers i))
      → download_tile last_attempt c elapsed answers ≡ provider_unavailable
  unfolding download_tile overall_budget_seconds
  download_tile-unavailable c elapsed answers up failing =
      let again : ℕ → Bool = λ i. is_retryable (fetch_once (answers i)) in
      let last = last_attempt c.max_retries (overall_budget_seconds c) elapsed again in
      let bound = tenacity.bounded c.max_retries (overall_budget_seconds c) elapsed again in
      rw up (transient_lem (failing last bound)).1
