-- ===== src/Scraper/Cycle/Groups.antt =====
-- The groups that a cycle scrapes: every provider once, and in the mode "per_origin" one group a host.
use data_service.Common.{
  All, ◌≡◌, refl, ap, sym, String, Bool, true, false, ◌||◌, List, [], ◌∷◌, ◌++◌, str_eq, eq_iff,
  arith, Bool-cases, inl, inr, All-append,
}
use mathlib.Core.Path.{subst}
use mathlib.Core.List.{Perm, perm_middle, append_assoc, append-nil}
use mathlib.Core.List.Perm
use data_service.BasemapConfig.{BasemapProvider}
use data_service.Scraper.Cycle.{
  append_to_host, group_by_host, singletons, groups_of, build_scrape_groups,
}

-- the providers of all groups
abbrev pub members : List (List BasemapProvider) → List BasemapProvider
members [] = []
members (g ∷ gs) = g ++ members gs

append_to_host-Perm :
    (host : String) (p : BasemapProvider) (by_host : List (String × List BasemapProvider))
    → Perm (members (groups_of (append_to_host host p by_host))) (p ∷ members (groups_of by_host))
unfolding append_to_host
append_to_host-Perm host p [] = Perm.refl (p ∷ [])
append_to_host-Perm host p ((h, ps) ∷ by_host) = elim (Bool-cases (str_eq h host)) [
  | inl same ↦ rw same (
      subst (λ l. Perm l (p ∷ (ps ++ members (groups_of by_host))))
        (sym (append_assoc ps (p ∷ []) (members (groups_of by_host))))
        (perm_middle ps (members (groups_of by_host))))
  | inr other ↦ rw other (
      Perm.trans (Perm.append_left ps (append_to_host-Perm host p by_host))
        (perm_middle ps (members (groups_of by_host))))
]

group_by_host-Perm :
    (host_of : String → String) (ps : List BasemapProvider)
    (by_host : List (String × List BasemapProvider))
    → Perm
        (members (groups_of (group_by_host host_of ps by_host)))
        (ps ++ members (groups_of by_host))
unfolding group_by_host
group_by_host-Perm host_of [] by_host = Perm.refl (members (groups_of by_host))
group_by_host-Perm host_of (p ∷ ps) by_host =
    let host = host_of p.source_url_template in
    Perm.trans (group_by_host-Perm host_of ps (append_to_host host p by_host)) (
      Perm.trans (Perm.append_left ps (append_to_host-Perm host p by_host))
        (perm_middle ps (members (groups_of by_host))))

members-singletons : (ps : List BasemapProvider) → members (singletons ps) ≡ ps
members-singletons [] = refl
members-singletons (p ∷ ps) = ap (λ l. p ∷ l) (members-singletons ps)

-- In every mode, whatever the providers and their hosts, the groups hold each enabled provider, and
-- as often as it is enabled: a cycle leaves none out and scrapes none twice.
pub build_scrape_groups-Perm :
    (host_of : String → String) (mode : String) (ps : List BasemapProvider)
    → Perm (members (build_scrape_groups host_of mode ps)) ps
unfolding build_scrape_groups
build_scrape_groups-Perm host_of mode [] = Perm.refl []
build_scrape_groups-Perm host_of mode (p ∷ ps) =
    let all = p ∷ ps in
    let grouped = group_by_host host_of all [] in
    elim (Bool-cases (str_eq mode "full")) [
      | inl full ↦ rw full (subst (λ l. Perm l all) (sym (members-singletons all)) (Perm.refl all))
      | inr some_mode ↦ elim (Bool-cases (str_eq mode "per_origin")) [
        | inl origin ↦
            rw (some_mode, origin)
              (subst (λ l. Perm (members (groups_of grouped)) l) (append-nil all)
                (group_by_host-Perm host_of all []))
        | inr sequential ↦
            rw (some_mode, sequential)
              (subst (λ l. Perm l all) (sym (append-nil all)) (Perm.refl all))
      ]
    ]

abbrev pub has_host : String → List (String × List BasemapProvider) → Bool
has_host host [] = false
has_host host ((h, ps) ∷ by_host) = str_eq h host || has_host host by_host

-- the group's key is the host of each of its providers, and no host has two groups
abbrev pub IsByHost : (String → String) → List (String × List BasemapProvider) → Type 0
IsByHost host_of [] = Unit
IsByHost host_of ((h, ps) ∷ by_host) =
    All (λ q. host_of q.source_url_template ≡ h) ps
    × (has_host h by_host ≡ false)
    × IsByHost host_of by_host

str_eq→eq : (a b : String) → str_eq a b ≡ true → a ≡ b
str_eq→eq a b h = ground (arith, eq_iff a b)

has_host-append :
    (host h : String) (p : BasemapProvider) (by_host : List (String × List BasemapProvider))
    → has_host host (append_to_host h p by_host) ≡ (str_eq h host || has_host host by_host)
unfolding append_to_host
has_host-append host h p [] = refl
has_host-append host h p ((k, ps) ∷ by_host) = elim (Bool-cases (str_eq k h)) [
  | inl same ↦ ground (arith, eq_iff k h, ap (λ x. str_eq x host) (str_eq→eq k h same))
  | inr other ↦ ground (arith, has_host-append host h p by_host)
]

append_to_host-IsByHost :
    (host_of : String → String) (p : BasemapProvider)
    (by_host : List (String × List BasemapProvider))
    → IsByHost host_of by_host
    → IsByHost host_of (append_to_host (host_of p.source_url_template) p by_host)
unfolding append_to_host
append_to_host-IsByHost host_of p [] v = ((refl, tt), refl, tt)
append_to_host-IsByHost host_of p ((k, ps) ∷ by_host) (same_key, fresh, rest) =
    let h = host_of p.source_url_template in
    let keyed : BasemapProvider → Type 0 = λ q. host_of q.source_url_template ≡ k in
    elim (Bool-cases (str_eq k h)) [
      | inl same ↦
          rw same
            (All-append keyed ps (p ∷ []) same_key (sym (str_eq→eq k h same), tt), fresh, rest)
      | inr other ↦
          let apart : has_host k (append_to_host h p by_host) ≡ false =
            ground (arith, has_host-append k h p by_host, eq_iff k h, eq_iff h k) in
          rw other (same_key, apart, append_to_host-IsByHost host_of p by_host rest)
    ]

-- In the mode "per_origin" the providers of a group have one host, and two groups have two: no host
-- is ever asked by two groups at once.
pub group_by_host-IsByHost :
    (host_of : String → String) (ps : List BasemapProvider)
    (by_host : List (String × List BasemapProvider))
    → IsByHost host_of by_host
    → IsByHost host_of (group_by_host host_of ps by_host)
unfolding group_by_host
group_by_host-IsByHost host_of [] by_host v = v
group_by_host-IsByHost host_of (p ∷ ps) by_host v =
    group_by_host-IsByHost host_of ps (append_to_host (host_of p.source_url_template) p by_host)
      (append_to_host-IsByHost host_of p by_host v)
