-- ===== src/TileClient.antt =====
-- src/clients/http_tile_client.py: what one download of a tile makes of the provider's answers. The
-- retrying library is an argument, which says at which attempt its loop ends; the times are in
-- seconds. The semaphores, the pacing delay and the log lines are left out.
pub mod Retries
use data_service.Common.{
  ℕ, zero, suc, ◌+◌, ◌-◌, ◌*◌, ◌^◌, String, Bool, true, false, not, ◌||◌, Option, none, some, List,
  [], ◌∷◌, ◌==◌, leb, if◌then◌else◌,
}
use text.Mathlib.Text.{starts_with}

pub record Response : Type 0 where
  pub status_code : ℕ
  pub content : List ℕ
  pub content_type : String

-- what `get` does: it returns a response, or raises `httpx.HTTPError`, a timeout or something else
pub data Answer : Type 0 where
  responded : Response → Answer
  http_error timed_out other_error : Answer

-- what an attempt ends with: it returns bytes or `None`, or raises one of these
pub data Attempt : Type 0 where
  returned : Option (List ℕ) → Attempt
  retryable_http_status transport_error timeout_error unexpected : Attempt

abbrev pub is_nil : List ℕ → Bool
is_nil [] = true
is_nil (b ∷ bs) = false

-- a 200 is a tile unless its body is empty or it says that it is text
abbrev pub tile_of : Response → Option (List ℕ)
tile_of r = if is_nil r.content || starts_with r.content_type "text/" then none else some r.content

abbrev pub judge_status : Response → Attempt
judge_status r =
    if r.status_code == 200
    then returned (tile_of r)
    else (if r.status_code == 404 || r.status_code == 403
        then returned none
        else (if r.status_code == 429 || leb 500 r.status_code
            then retryable_http_status
            else returned none))

-- `_fetch_once`
unfoldable pub fetch_once : Answer → Attempt
fetch_once (responded r) = judge_status r
fetch_once http_error = transport_error
fetch_once timed_out = timeout_error
fetch_once other_error = unexpected

-- `retry_if_exception_type`
unfoldable pub is_retryable : Attempt → Bool
is_retryable (returned tile) = false
is_retryable retryable_http_status = true
is_retryable transport_error = true
is_retryable timeout_error = true
is_retryable unexpected = false

pub record HttpTileClient : Type 0 where
  pub connected : Bool
  pub timeout : ℕ
  pub max_retries : ℕ

-- `sum(2**i for i in range(n))`
abbrev pub backoff_total : ℕ → ℕ
backoff_total zero = 0
backoff_total (suc n) = backoff_total n + 2 ^ n

-- `_overall_budget_seconds`
unfoldable pub overall_budget_seconds : HttpTileClient → ℕ
overall_budget_seconds c = c.timeout * c.max_retries + backoff_total (c.max_retries - 1) + 1

-- what `download_tile` returns, or the exception that leaves it
pub data Download : Type 0 where
  downloaded : Option (List ℕ) → Download
  provider_unavailable runtime_error passed_on : Download

-- the last attempt's end, reraised or turned into `ProviderUnavailableError`
unfoldable pub concluded : Attempt → Download
concluded (returned tile) = downloaded tile
concluded retryable_http_status = provider_unavailable
concluded transport_error = provider_unavailable
concluded timeout_error = provider_unavailable
concluded unexpected = passed_on

module _ (last_attempt : ℕ → ℕ → (ℕ → ℕ) → (ℕ → Bool) → ℕ) where
  -- `elapsed i` is the time since the start at the end of the attempt `i`, counted from 0
  unfoldable pub download_tile : HttpTileClient → (ℕ → ℕ) → (ℕ → Answer) → Download
  download_tile c elapsed answers =
      let again : ℕ → Bool = λ i. is_retryable (fetch_once (answers i)) in
      let last = last_attempt c.max_retries (overall_budget_seconds c) elapsed again in
      if c.connected then concluded (fetch_once (answers last)) else runtime_error
