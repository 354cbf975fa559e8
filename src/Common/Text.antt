-- ===== src/Common/Text.antt =====
-- Texts as lists of code points, where the code takes them apart.
use Prim.Native.Nat.{ℕ, ◌-◌}
use Prim.Native.Char.{code}
use Prim.Native.String.{String}
use mathlib.Core.Path.{◌≡◌, refl}
use mathlib.Core.Logic.{◌↔◌}
use mathlib.Core.Bool.{Bool, true, false, ◌&&◌}
use mathlib.Core.List.{List, [], ◌∷◌}
use native.Mathlib.Omega.{arith}
use data_service.Common.Tests.{◌==◌, ltb, leb, if◌then◌else◌}
use data_service.Common.Lists.{length, take, drop}

abbrev pub Text : Type 0
Text = List ℕ

abbrev pub codes : String → Text
codes String.[] = []
codes (String.◌∷◌ c s) = code c ∷ codes s

abbrev pub eq_text : Text → Text → Bool
eq_text [] [] = true
eq_text [] (b ∷ bs) = false
eq_text (a ∷ as') [] = false
eq_text (a ∷ as') (b ∷ bs) = a == b && eq_text as' bs

pub eq_text_iff : (a b : Text) → (eq_text a b ≡ true) ↔ (a ≡ b)
eq_text_iff [] [] = (λ h. refl, λ h. refl)
eq_text_iff [] (b ∷ bs) = (λ h. cc, λ h. cc)
eq_text_iff (a ∷ as') [] = (λ h. cc, λ h. cc)
eq_text_iff (a ∷ as') (b ∷ bs) = ground (arith, eq_text_iff as' bs)

-- the order of Python's texts
abbrev pub is_before : Text → Text → Bool
is_before [] [] = false
is_before [] (b ∷ bs) = true
is_before (a ∷ as') [] = false
is_before (a ∷ as') (b ∷ bs) =
    let rest = is_before as' bs in if ltb a b then true else (if a == b then rest else false)

-- `t in ts`
abbrev pub has_text : Text → List Text → Bool
has_text t [] = false
has_text t (s ∷ ss) = if eq_text s t then true else has_text t ss

-- `split`
abbrev pub onto_first : ℕ → List Text → List Text
onto_first a [] = (a ∷ []) ∷ []
onto_first a (t ∷ ts) = (a ∷ t) ∷ ts

abbrev pub split_on : ℕ → Text → List Text
split_on c [] = [] ∷ []
split_on c (a ∷ as') = let rest = split_on c as' in if a == c then [] ∷ rest else onto_first a rest

-- `rstrip` of one character
abbrev pub or_empty : Bool → ℕ → Text → Text
or_empty true a [] = []
or_empty _ a t = a ∷ t

abbrev pub rstrip : ℕ → Text → Text
rstrip c [] = []
rstrip c (a ∷ as') = or_empty (a == c) a (rstrip c as')

-- the last part
abbrev pub last_text : List Text → Text
last_text [] = []
last_text (t ∷ []) = t
last_text (t ∷ s ∷ ts) = last_text (s ∷ ts)

-- `prefix.rstrip("/").split("/")[-1]`
abbrev pub leaf_segment : Text → Text
leaf_segment prefix = last_text (split_on b'/' (rstrip b'/' prefix))

-- `endswith` and `removesuffix`
abbrev pub ends_in : Text → Text → Bool
ends_in suffix t =
    leb (length suffix) (length t) && eq_text (drop (length t - length suffix) t) suffix

abbrev pub remove_suffix : Text → Text → Text
remove_suffix suffix t = if ends_in suffix t then take (length t - length suffix) t else t
