-- ===== src/Scraper/Cycle/Sleep.antt =====
-- What the sleep between two cycles promises: no provider that is due is kept waiting.
use data_service.Common.{
  All, ℕ, ◌+◌, ◌≤◌, ◌<◌, ◌≡◌, String, Bool, true, false, not, ◌||◌, List, [], ◌∷◌, ◌==◌, arith,
  Bool-cases, inl, inr,
}
use data_service.Scraper.{ScraperConfig, Scraper}
use data_service.Scraper.Provider.{skips}
use data_service.Scraper.Cycle.{Pending, weigh, weigh_all, compute_next_sleep}

-- some provider of the list would be scraped now
abbrev pub some_due : ScraperConfig → ℕ → Scraper → List String → Bool
some_due cfg now s [] = false
some_due cfg now s (p ∷ ps) = not (skips cfg p now s) || some_due cfg now s ps

weigh-ready :
    (cfg : ScraperConfig) (now : ℕ) (s : Scraper) (p : String) (a : Pending)
    → s.storage_down_this_cycle ≡ false
    → (weigh cfg now s p a).any_ready ≡ (a.any_ready || not (skips cfg p now s))
unfolding weigh skips
weigh-ready cfg now s p a up = ground arith

weigh-soonest :
    (cfg : ScraperConfig) (now : ℕ) (s : Scraper) (p : String) (a : Pending)
    → (weigh cfg now s p a).soonest ≤ a.soonest
unfolding weigh
weigh-soonest cfg now s p a = ground arith

weigh-skips :
    (cfg : ScraperConfig) (now t : ℕ) (s : Scraper) (p : String) (a : Pending)
    → (weigh cfg now s p a).any_ready ≡ false
    → t < now + (weigh cfg now s p a).soonest
    → skips cfg p t s ≡ true
unfolding weigh skips
weigh-skips cfg now t s p a idle early = ground arith

weigh-any_ready :
    (cfg : ScraperConfig) (now : ℕ) (s : Scraper) (p : String) (a : Pending)
    → (weigh cfg now s p a).any_ready ≡ false
    → a.any_ready ≡ false
unfolding weigh
weigh-any_ready cfg now s p a idle = ground arith

weigh_all-ready :
    (cfg : ScraperConfig) (now : ℕ) (s : Scraper) (ps : List String) (a : Pending)
    → s.storage_down_this_cycle ≡ false
    → (weigh_all cfg now s ps a).any_ready ≡ (a.any_ready || some_due cfg now s ps)
unfolding weigh_all
weigh_all-ready cfg now s [] a up = ground arith
weigh_all-ready cfg now s (p ∷ ps) a up =
    let next = weigh cfg now s p a in
    ground (arith, weigh_all-ready cfg now s ps next up, weigh-ready cfg now s p a up)

weigh_all-soonest :
    (cfg : ScraperConfig) (now : ℕ) (s : Scraper) (ps : List String) (a : Pending)
    → (weigh_all cfg now s ps a).soonest ≤ a.soonest
unfolding weigh_all
weigh_all-soonest cfg now s [] a = omega arith
weigh_all-soonest cfg now s (p ∷ ps) a =
    omega (arith, weigh_all-soonest cfg now s ps (weigh cfg now s p a), weigh-soonest cfg now s p a)

weigh_all-any_ready :
    (cfg : ScraperConfig) (now : ℕ) (s : Scraper) (ps : List String) (a : Pending)
    → (weigh_all cfg now s ps a).any_ready ≡ false
    → a.any_ready ≡ false
unfolding weigh_all
weigh_all-any_ready cfg now s [] a idle = idle
weigh_all-any_ready cfg now s (p ∷ ps) a idle =
    weigh-any_ready cfg now s p a (weigh_all-any_ready cfg now s ps (weigh cfg now s p a) idle)

weigh_all-skips :
    (cfg : ScraperConfig) (now t : ℕ) (s : Scraper) (ps : List String) (a : Pending)
    → (weigh_all cfg now s ps a).any_ready ≡ false
    → t < now + (weigh_all cfg now s ps a).soonest
    → All (λ p. skips cfg p t s ≡ true) ps
unfolding weigh_all
weigh_all-skips cfg now t s [] a idle early = tt
weigh_all-skips cfg now t s (p ∷ ps) a idle early =
    let next = weigh cfg now s p a in
    let sooner = weigh_all-soonest cfg now s ps next in
    (
      weigh-skips cfg now t s p a (weigh_all-any_ready cfg now s ps next idle) (omega arith),
      weigh_all-skips cfg now t s ps next idle early,
    )

-- After a cycle that met no storage failure, the service goes on at once exactly when some provider
-- is due.
pub compute_next_sleep-some_due :
    (cfg : ScraperConfig) (default now : ℕ) (ps : List String) (s : Scraper)
    → s.storage_retry_due ≡ false
    → s.storage_down_this_cycle ≡ false
    → (compute_next_sleep cfg default now ps s == 0) ≡ some_due cfg now s ps
unfolding compute_next_sleep
compute_next_sleep-some_due cfg default now ps s calm up =
    let begun : Pending = record { soonest = default; any_ready = false } in
    let ready = weigh_all-ready cfg now s ps begun up in ground (arith, calm, ready)

-- A sleep longer than the floor of a minute misses nothing: at no time before its end would the
-- scraper have done anything for any provider.
pub compute_next_sleep-misses_nothing :
    (cfg : ScraperConfig) (default now t : ℕ) (ps : List String) (s : Scraper)
    → 60 < compute_next_sleep cfg default now ps s
    → t < now + compute_next_sleep cfg default now ps s
    → All (λ p. skips cfg p t s ≡ true) ps
unfolding compute_next_sleep
compute_next_sleep-misses_nothing cfg default now t ps s long early =
    let begun : Pending = record { soonest = default; any_ready = false } in
    elim (Bool-cases (weigh_all cfg now s ps begun).any_ready) [
      | inl due ↦ absurd (ground arith)
      | inr idle ↦ weigh_all-skips cfg now t s ps begun idle (ground arith)
    ]
