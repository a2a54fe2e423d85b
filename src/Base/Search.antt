-- ===== src/Base/Search.antt =====
-- Prefixes, suffixes and substrings, as package strings tests them.
use Prim.Native.Nat.{ℕ, zero, suc, ◌-◌, ◌≤◌}
use mathlib.Core.Bool.{Bool, true, false, ◌&&◌, ◌||◌}
use mathlib.Core.Path.{◌≡◌, ap, ◌∙◌}
use mathlib.Core.Logic.{inl, inr}
use mathlib.Core.List.{[], ◌∷◌, ◌++◌}
use native.Mathlib.Omega.{arith}
use eino_ops_agent_enterpr1s.Base.Tests.{◌==◌, if◌then◌else◌, Bool-cases}
use eino_ops_agent_enterpr1s.Base.Lists.{length, drop, drop_all}
use eino_ops_agent_enterpr1s.Base.Strings.{Bytes, equal, equal_iff}

-- `strings.HasPrefix`, `bytes.HasPrefix`.
unfoldable pub has_prefix : Bytes → Bytes → Bool
has_prefix s [] = true
has_prefix [] (b ∷ prefix) = false
has_prefix (c ∷ s) (b ∷ prefix) = (c == b) && has_prefix s prefix

-- `strings.HasSuffix`.
unfoldable pub has_suffix : Bytes → Bytes → Bool
unfolding equal
has_suffix [] suffix = equal [] suffix
has_suffix (c ∷ s) suffix = equal (c ∷ s) suffix || has_suffix s suffix

-- `strings.Contains`.
unfoldable pub includes : Bytes → Bytes → Bool
unfolding has_prefix
includes [] part = has_prefix [] part
includes (c ∷ s) part = has_prefix (c ∷ s) part || includes s part

-- `strings.ReplaceAll` of a text that is not empty; `skip` bytes of an occurrence are still to be passed.
unfoldable pub replace_from : ℕ → Bytes → Bytes → Bytes → Bytes
unfolding has_prefix
replace_from skip old new [] = []
replace_from zero old new (c ∷ s) =
    let found = new ++ replace_from (length old - 1) old new s in
    let kept = c ∷ replace_from zero old new s in if has_prefix (c ∷ s) old then found else kept
replace_from (suc skip) old new (c ∷ s) = replace_from skip old new s

unfoldable pub replace_all : Bytes → Bytes → Bytes → Bytes
unfolding replace_from
replace_all s old new = replace_from zero old new s

-- A suffix is what stands behind the rest.
pub has_suffix-drop :
    (s suffix : Bytes)
    → has_suffix s suffix ≡ true
    → (length suffix ≤ length s) × (drop (length s - length suffix) s ≡ suffix)
unfolding has_suffix
has_suffix-drop [] suffix h = (
  same ((equal_iff [] suffix).0 h),
  drop_all (0 - length suffix) [] (omega arith) ∙ (equal_iff [] suffix).0 h,
)
  where
    same : [] ≡ suffix → length suffix ≤ 0
    same e = omega (arith, ap length e)
has_suffix-drop (c ∷ s) suffix h = elim (Bool-cases (equal (c ∷ s) suffix)) [
  | inl whole ↦
      let e = (equal_iff (c ∷ s) suffix).0 whole in
      let count = ap length e in
      let place : length (c ∷ s) - length suffix ≡ 0 = omega (arith, count) in
      (omega (arith, count), ap (λ n. drop n (c ∷ s)) place ∙ e)
  | inr part ↦
      let (shorter, e) = has_suffix-drop s suffix (rw part at h) in
      let place : length (c ∷ s) - length suffix ≡ suc (length s - length suffix) =
        omega (arith, shorter) in
      (omega (arith, shorter), ap (λ n. drop n (c ∷ s)) place ∙ e)
]

pub drop-has_suffix :
    (n : ℕ) (s suffix : Bytes) → n ≤ length s → drop n s ≡ suffix → has_suffix s suffix ≡ true
unfolding has_suffix
drop-has_suffix zero [] suffix h e = (equal_iff [] suffix).1 e
drop-has_suffix (suc n) [] suffix h e = absurd (omega arith)
drop-has_suffix zero (c ∷ s) suffix h e = rw ((equal_iff (c ∷ s) suffix).1 e)
drop-has_suffix (suc n) (c ∷ s) suffix h e = elim (Bool-cases (equal (c ∷ s) suffix)) [
  | inl whole ↦ rw whole
  | inr part ↦ rw part (drop-has_suffix n s suffix (omega arith) e)
]
