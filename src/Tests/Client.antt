-- ===== src/Tests/Client.antt =====
-- Downloads of a tile on concrete answers, with a loop that stops at the attempts or the delay.
use data_service.Common.{
  ℕ, zero, suc, ◌+◌, ◌-◌, ◌≡◌, refl, Bool, true, some, [], ◌∷◌, leb, if◌then◌else◌, arith, inl, inr,
  Bool-cases, ◌==◌, ==_iff, sym, ap, ◌∙◌, ◌⊎◌, ◌≤◌, ◌<◌, ◌*◌, ◌≢◌,
}
use data_service.TileClient.{
  Answer, Response, HttpTileClient, responded, timed_out, downloaded, provider_unavailable,
  download_tile, overall_budget_seconds,
}
use data_service.TileClient.Retries.{
  Retrying, Transient, server_error, too_slow, tile, download_tile-first, download_tile-unavailable,
}

-- from the attempt `i` on, while the fuel lasts
abbrev attempts_from : ℕ → ℕ → (ℕ → ℕ) → (ℕ → Bool) → ℕ → ℕ
attempts_from zero delay elapsed again i = i
attempts_from (suc fuel) delay elapsed again i =
    let rest = attempts_from fuel delay elapsed again (i + 1) in
    if again i then if leb delay (elapsed i) then i else rest else i

abbrev last_attempt : ℕ → ℕ → (ℕ → ℕ) → (ℕ → Bool) → ℕ
last_attempt attempts delay elapsed again = attempts_from (attempts - 1) delay elapsed again 0

attempts_from-retried :
    (fuel delay : ℕ) (elapsed : ℕ → ℕ) (again : ℕ → Bool) (i k : ℕ)
    → i ≤ k
    → k < attempts_from fuel delay elapsed again i
    → again k ≡ true
attempts_from-retried zero delay elapsed again i k from before = absurd (omega arith)
attempts_from-retried (suc fuel) delay elapsed again i k from before = elim (Bool-cases (again i)) [
  | inr final ↦ absurd (ground (arith, final))
  | inl failed ↦ elim (Bool-cases (leb delay (elapsed i))) [
    | inl late ↦ absurd (ground (arith, failed, late))
    | inr timely ↦ elim (Bool-cases (i == k)) [
      | inl same ↦ sym (ap again ((==_iff i k).0 same)) ∙ failed
      | inr other ↦
          attempts_from-retried fuel delay elapsed again (i + 1) k (ground (arith, other))
            (ground (arith, failed, timely))
    ]
  ]
]

attempts_from-stopped :
    (fuel delay : ℕ) (elapsed : ℕ → ℕ) (again : ℕ → Bool) (i : ℕ)
    → again (attempts_from fuel delay elapsed again i) ≡ true
    → (i + fuel ≤ attempts_from fuel delay elapsed again i)
      ⊎ (delay ≤ elapsed (attempts_from fuel delay elapsed again i))
attempts_from-stopped zero delay elapsed again i h = inl (omega arith)
attempts_from-stopped (suc fuel) delay elapsed again i h = elim (Bool-cases (again i)) [
  | inr final ↦ absurd (ground (arith, final))
  | inl failed ↦ elim (Bool-cases (leb delay (elapsed i))) [
    | inl late ↦ inr (ground (arith, failed, late))
    | inr timely ↦
        let goes_on : attempts_from (suc fuel) delay elapsed again i
            ≡ attempts_from fuel delay elapsed again (i + 1) =
          rw (failed, timely) refl in
        elim (attempts_from-stopped fuel delay elapsed again (i + 1) (sym (ap again goes_on) ∙ h)) [
          | inl spent ↦ inl (omega (arith, goes_on))
          | inr over ↦ inr (ground (arith, failed, timely))
        ]
  ]
]

attempts_from-le :
    (fuel delay : ℕ) (elapsed : ℕ → ℕ) (again : ℕ → Bool) (i : ℕ)
    → attempts_from fuel delay elapsed again i ≤ i + fuel
attempts_from-le zero delay elapsed again i = omega arith
attempts_from-le (suc fuel) delay elapsed again i =
    let rest = attempts_from-le fuel delay elapsed again (i + 1) in ground arith

last_attempt-Retrying : Retrying last_attempt
last_attempt-Retrying = record {
  retried = λ attempts delay elapsed again i before.
      attempts_from-retried (attempts - 1) delay elapsed again 0 i (omega arith) before;
  stopped = λ attempts delay elapsed again h.
      elim (attempts_from-stopped (attempts - 1) delay elapsed again 0 h) [
        | inl spent ↦ inl (omega arith)
        | inr late ↦ inr late
      ];
  bounded = λ attempts delay elapsed again.
      let le = attempts_from-le (attempts - 1) delay elapsed again 0 in omega arith;
}

abbrev client : HttpTileClient
client = record { connected = true; timeout = 10; max_retries = 3 }

abbrev png : Response
png = record { status_code = 200; content = 137 ∷ 80 ∷ []; content_type = "image/png" }

-- a 503, a timeout, then a tile
abbrev recovers : ℕ → Answer
recovers zero = responded (record png { status_code = 503 })
recovers (suc zero) = timed_out
recovers (suc (suc i)) = responded png

abbrev ten_each : ℕ → ℕ
ten_each i = (i + 1) * 10

spends_34 : overall_budget_seconds client ≡ 34
unfolding overall_budget_seconds
spends_34 = refl

early_failures :
    (i : ℕ) → i < 2 → (ten_each i < overall_budget_seconds client) × Transient (recovers i)
unfolding overall_budget_seconds
early_failures zero h = (omega arith, server_error (record png { status_code = 503 }) (omega arith))
early_failures (suc zero) h = (omega arith, too_slow)
early_failures (suc (suc i)) h = absurd (omega arith)

has_body : png.content ≢ []
has_body = λ h. ground arith

download_tile-first_example :
    download_tile last_attempt client ten_each recovers ≡ downloaded (some png.content)
download_tile-first_example =
    download_tile-first last_attempt last_attempt-Retrying client ten_each recovers 2
      (downloaded (some png.content)) refl (omega arith) (tile png refl has_body refl)
      early_failures

download_tile-unavailable_example :
    download_tile last_attempt client ten_each (λ i. timed_out) ≡ provider_unavailable
download_tile-unavailable_example =
    download_tile-unavailable last_attempt last_attempt-Retrying client ten_each (λ i. timed_out)
      refl (λ i h. too_slow)
