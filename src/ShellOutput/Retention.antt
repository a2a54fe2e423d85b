-- ===== src/ShellOutput/Retention.antt =====
-- What `appendSSHShellGenerationOutput` of internal/service/shell_output.go holds back of an output.
use mathlib.Core.Path.{subst}
use eino_ops_agent_enterpr1s.Base.{
  ℕ, zero, suc, ◌+◌, ◌-◌, ◌≤◌, ◌<◌, true, ◌&&◌, List, [], ◌∷◌, ◌++◌, Bytes, has_suffix,
  has_suffix-drop, drop-has_suffix, length, take, drop, length-take, length-drop, drop-append-le,
  drop-append-ge, drop-length, take-append-le, take-append-drop, take-length, ltb, leb, ◌≡◌, ◌≢◌,
  ◌⊎◌, inl, inr, refl, sym, ap, ◌∙◌, arith, Bool-cases,
}
use eino_ops_agent_enterpr1s.ShellOutput.{hold_back, max_prefix, safe_end_of}

-- The secret stands in the list.
abbrev pub Known : Bytes → List Bytes → Type 0
Known s [] = ⊥
Known s (t ∷ secrets) = (s ≡ t) ⊎ Known s secrets

-- A proper prefix of a secret, of `size` bytes, at the end of the output.
abbrev pub EndsIn : Bytes → ℕ → Bytes → Type 0
EndsIn secret size combined =
    (0 < size)
    × (size < length secret)
    × (size ≤ length combined)
    × (has_suffix combined (take size secret) ≡ true)

-- One secret: the end moves back to a prefix of it, and behind none.
hold_back-end :
    (n : ℕ) (secret combined : Bytes) (safe_end : ℕ)
    → n ≤ max_prefix secret combined
    → let e = hold_back n secret combined safe_end in
      (e ≤ safe_end)
      × ((size : ℕ)
          → size ≤ n
          → 0 < size
          → has_suffix combined (take size secret) ≡ true
          → e + size ≤ length combined)
      × ((e ≡ safe_end) ⊎ ((size : ℕ) × EndsIn secret size combined × (e + size ≡ length combined)))
unfolding hold_back
hold_back-end zero secret combined safe_end h =
    (omega arith, λ size a b c. absurd (omega (arith, a, b)), inl refl)
hold_back-end (suc n) secret combined safe_end h =
    let (le, all, one) = hold_back-end n secret combined safe_end (omega (arith, h)) in
    let found =
      has_suffix combined (take (suc n) secret) && ltb (length combined - suc n) safe_end in
    let small : (suc n < length secret) × (suc n ≤ length combined) =
      (ground (arith, h), ground (arith, h)) in
    elim (Bool-cases found) [
      | inl hit ↦ rw hit (
        ground arith,
        λ size a b c. omega (arith, small.1, a),
        inr (suc n, (omega arith, small.0, small.1, ground arith), omega (arith, small.1)),
      )
      | inr missed ↦ rw missed (
        le,
        λ size a b c. elim (Bool-cases (leb size n)) [
          | inl smaller ↦ all size (ground arith) b c
          | inr same ↦
              let top : size ≡ suc n = ground (arith, a) in
              let whole : has_suffix combined (take (suc n) secret) ≡ true =
                subst (λ k. has_suffix combined (take k secret) ≡ true) top c in
              ground (arith, small.1, le)
        ],
        one,
      )
    ]

max_prefix-le :
    (secret combined : Bytes) (size : ℕ)
    → EndsIn secret size combined
    → size ≤ max_prefix secret combined
max_prefix-le secret combined size (a, b, c, d) = ground arith

-- Every prefix of a secret at the end of the output is held back, and no more than one such prefix is.
pub safe_end_of-end :
    (secrets : List Bytes) (combined : Bytes) (safe_end : ℕ)
    → let e = safe_end_of secrets combined safe_end in
      (e ≤ safe_end)
      × ((s : Bytes) (size : ℕ)
          → Known s secrets
          → EndsIn s size combined
          → e + size ≤ length combined)
      × ((e ≡ safe_end)
          ⊎ ((s : Bytes) × (size : ℕ) × Known s secrets
              × EndsIn s size combined
              × (e + size ≡ length combined)))
unfolding safe_end_of
safe_end_of-end [] combined safe_end = (omega arith, λ s size k. absurd k, inl refl)
safe_end_of-end (t ∷ secrets) combined safe_end =
    let n = max_prefix t combined in
    let middle = hold_back n t combined safe_end in
    let (le, all, one) = hold_back-end n t combined safe_end (omega arith) in
    let (le', all', one') = safe_end_of-end secrets combined middle in
    (
      omega (arith, le, le'),
      λ s size k e. elim k [
        | inl same ↦
            let e' : EndsIn t size combined = subst (λ z. EndsIn z size combined) same e in
            let there = all size (max_prefix-le t combined size e') e'.0 e'.3 in
            omega (arith, le', there)
        | inr later ↦ all' s size later e
      ],
      elim one' [
        | inr (s, size, k, e, at_end) ↦ inr (s, size, inr k, e, at_end)
        | inl same ↦ elim one [
          | inl untouched ↦ inl (same ∙ untouched)
          | inr (size, e, at_end) ↦ inr (t, size, inl refl, e, omega (arith, same, at_end))
        ]
      ],
    )

-- No proper prefix of a secret is a suffix of one: no byte string `take k t` ends a secret `s`.
abbrev pub IsUnbordered : List Bytes → Type 0
IsUnbordered secrets =
    (s t : Bytes) (k : ℕ)
    → Known s secrets
    → Known t secrets
    → 0 < k
    → k < length s
    → k < length t
    → take k t ≢ drop (length s - k) s

-- An occurrence of a text, seen from a place in or behind it.
module _ (combined future before s after : Bytes)
    (place : combined ++ future ≡ before ++ (s ++ after)) where
  -- The occurrence reaches past the output: what is there of it ends the output.
  cut_off :
      length before ≤ length combined
      → length combined ≤ length before + length s
      → drop (length before) combined ≡ take (length combined - length before) s
  cut_off h k =
      let n = length combined - length before in
      let size : n ≡ length (drop (length before) combined) =
        sym (length-drop (length before) combined) in
      let back : drop (length before) combined ++ future ≡ s ++ after =
        sym (drop-append-le (length before) combined future h)
        ∙ ap (drop (length before)) place
        ∙ drop_before in
      sym (take-length (drop (length before) combined) future)
      ∙ ap (λ m. take m (drop (length before) combined ++ future)) (sym size)
      ∙ ap (take n) back
      ∙ take-append-le n s after (omega arith)
    where
      drop_before : drop (length before) (before ++ (s ++ after)) ≡ s ++ after
      drop_before = drop-length before (s ++ after)

  -- The occurrence begins in front of a place of the output, and ends behind it, in the output.
  overlap :
      (e : ℕ)
      → length before ≤ e
      → e ≤ length before + length s
      → length before + length s ≤ length combined
      → take (length before + length s - e) (drop e combined) ≡ drop (e - length before) s
  overlap e h k l =
      let m = length before + length s - e in
      let inside : m ≤ length (drop e combined) = omega (arith, length-drop e combined) in
      let d = e - length before in
      let size : length (drop d s) ≡ m = omega (arith, length-drop d s) in
      let back : drop e combined ++ future ≡ drop d s ++ after =
        sym (drop-append-le e combined future (omega arith))
        ∙ ap (drop e) place
        ∙ drop_into d (omega arith) in
      sym (take-append-le m (drop e combined) future inside)
      ∙ ap (take m) back
      ∙ ap (λ n. take n (drop d s ++ after)) (sym size)
      ∙ take-length (drop d s) after
    where
      drop_into :
          (d : ℕ) → e ≡ length before + d → drop e (before ++ (s ++ after)) ≡ drop d s ++ after
      drop_into d same =
          ap (λ n. drop n (before ++ (s ++ after))) same
          ∙ drop-append-ge d before (s ++ after)
          ∙ drop-append-le d s after (omega (arith, same))

take-take : (m n : ℕ) (t : Bytes) → m ≤ n → n ≤ length t → take m (take n t) ≡ take m t
take-take m n t h k =
    let size = length-take n t k in
    sym (take-append-le m (take n t) (drop n t) (omega (arith, size)))
    ∙ ap (take m) (take-append-drop n t)

-- A byte string that is held back is the proper prefix of a secret.
held_is :
    (t combined : Bytes) (size e : ℕ)
    → EndsIn t size combined
    → e + size ≡ length combined
    → drop e combined ≡ take size t
held_is t combined size e (a, b, c, suffix) at_end =
    let (_, same) = has_suffix-drop combined (take size t) suffix in
    let count : length combined - length (take size t) ≡ e =
      omega (arith, length-take size t (omega (arith, b))) in
    ap (λ n. drop n combined) (sym count) ∙ same

-- Of an output that is cut where `appendSSHShellGenerationOutput` cuts it, no secret stands on both sides
-- of the cut, whatever follows, if no proper prefix of a secret ends a secret.
pub safe_end_of-whole :
    (secrets : List Bytes) (combined future s before after : Bytes)
    → IsUnbordered secrets
    → Known s secrets
    → combined ++ future ≡ before ++ (s ++ after)
    → let e = safe_end_of secrets combined (length combined) in
      (length before + length s ≤ e) ⊎ (e ≤ length before)
safe_end_of-whole secrets combined future s before after free known place =
    let e = safe_end_of secrets combined (length combined) in
    let (le, all, one) = safe_end_of-end secrets combined (length combined) in
    elim (Bool-cases (leb e (length before))) [
      | inl behind ↦ inr (ground arith)
      | inr later ↦ elim (Bool-cases (leb (length before + length s) e)) [
        | inl inside ↦ inl (ground arith)
        | inr over ↦ absurd (elim (Bool-cases (leb (length before + length s) (length combined))) [
          | inl complete ↦ elim one [
            | inl end ↦ ground (arith, end)
            | inr (t, size, known', ends, at_end) ↦
                covered e t size (ground arith) (ground arith) (ground arith) known' ends at_end
          ]
          | inr open_end ↦ reached e le all (ground arith) (ground arith)
        ])
      ]
    ]
  where
    covered :
        (e : ℕ) (t : Bytes) (size : ℕ)
        → length before < e
        → e < length before + length s
        → length before + length s ≤ length combined
        → Known t secrets
        → EndsIn t size combined
        → e + size ≡ length combined
        → ⊥
    covered e t size a b c known' ends at_end =
        let m = length before + length s - e in
        let rest : e - length before ≡ length s - m = omega (arith, a, b) in
        let (pos, small, fits, _) = ends in
        let prefix : take m t ≡ drop (e - length before) s =
          sym (take-take m size t (omega (arith, a, b, c, at_end)) (omega (arith, small)))
          ∙ ap (take m) (sym (held_is t combined size e ends at_end))
          ∙ overlap combined future before s after place e (omega (arith, a)) (omega (arith, b))
              c in
        free s t m known known' (omega (arith, b)) (omega (arith, a, b))
          (omega (arith, small, at_end, c, a, b)) (prefix ∙ ap (λ n. drop n s) rest)

    reached :
        (e : ℕ)
        → e ≤ length combined
        → ((s : Bytes) (size : ℕ)
            → Known s secrets
            → EndsIn s size combined
            → e + size ≤ length combined)
        → length before < e
        → length combined < length before + length s
        → ⊥
    reached e le all a b =
        let n = length combined - length before in
        let there = drop-has_suffix (length before) combined (take n s) (omega (arith, a, le)) (
          cut_off combined future before s after place (omega (arith, a, le)) (omega (arith, b))) in
        let bound = all s n known (omega (arith, a, le), omega (arith, b), omega arith, there) in
        omega (arith, bound, a, le)
