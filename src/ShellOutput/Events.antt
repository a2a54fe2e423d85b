-- ===== src/ShellOutput/Events.antt =====
-- The parts of an output, and the events for them (internal/service/shell_output.go).
use mathlib.Core.Path.{subst}
use eino_ops_agent_enterpr1s.Base.{
  ℕ, zero, suc, ◌≤◌, ◌<◌, true, false, Option, none, some, List, [], ◌∷◌, ◌++◌, Bytes, length,
  length-drop, length-take, take, drop, take-append-drop, get_elem?, ltb, ◌==◌, ◌≡◌, ◌⊎◌, inl, inr,
  refl, sym, ap, ◌∙◌, arith, Bool-cases, Option-cases,
}
use eino_ops_agent_enterpr1s.ShellOutput.{
  max_event_bytes, rune_start, back_to_rune, part_end, parts_of,
}

-- No rune starts behind `low`, up to `high`.
abbrev pub NoStart : Bytes → ℕ → ℕ → Type 0
NoStart content low high =
    (i b : ℕ) → low < i → i ≤ high → get_elem? content i ≡ some b → rune_start b ≡ false

-- The cut of an output at `end`: at its end if it has 16,384 bytes at most, and otherwise in front of the last rune that
-- starts at a place from 1 to 16,384, or at 16,384 if none does.
abbrev pub IsCut : Bytes → ℕ → Type 0
IsCut content end =
    (length content ≤ max_event_bytes) × (end ≡ length content)
    ⊎ ((max_event_bytes < length content)
        × (((b : ℕ) × (get_elem? content end ≡ some b)
              × (rune_start b ≡ true)
              × NoStart content end max_event_bytes)
            ⊎ ((end ≡ max_event_bytes) × NoStart content 0 max_event_bytes)))

==-eq : (i j : ℕ) → (i == j) ≡ true → i ≡ j
==-eq i j h = ground arith

below : (i n : ℕ) → i ≤ suc n → (i == suc n) ≡ false → i ≤ n
below i n h other = ground arith

back_to_rune-cut :
    (content : Bytes) (n : ℕ)
    → n < length content
    → (back_to_rune content n ≤ n)
      × NoStart content (back_to_rune content n) n
      × ((back_to_rune content n ≡ 0)
          ⊎ ((b : ℕ) × (get_elem? content (back_to_rune content n) ≡ some b)
              × (rune_start b ≡ true)))
unfolding back_to_rune
back_to_rune-cut content zero h = (omega arith, λ i b low high. absurd (omega arith), inl refl)
back_to_rune-cut content (suc n) h = elim (Option-cases (get_elem? content (suc n))) [
  | inl outside ↦ absurd (in_range content (suc n) h outside)
  | inr (b, there) ↦ elim (Bool-cases (rune_start b)) [
    | inl starts ↦
        rw (back_to_rune, there, starts)
          (omega arith, λ i c low high. absurd (omega arith), inr (b, there, starts))
    | inr inside ↦
        let (le, quiet, cut) = back_to_rune-cut content n (omega arith) in
        rw (back_to_rune, there, inside) (omega (arith, le), longer b there inside quiet, cut)
  ]
]
  where
    in_range : (s : Bytes) (i : ℕ) → i < length s → get_elem? s i ≡ none → ⊥
    in_range [] i h e = omega arith
    in_range (c ∷ s) zero h e = cc
    in_range (c ∷ s) (suc i) h e = in_range s i (omega arith) e

    longer :
        (b : ℕ)
        → get_elem? content (suc n) ≡ some b
        → rune_start b ≡ false
        → NoStart content (back_to_rune content n) n
        → NoStart content (back_to_rune content n) (suc n)
    longer b there inside quiet i c low high here = elim (Bool-cases (i == suc n)) [
      | inl same ↦
          let found : ◌≡◌ {A = Option ℕ} (some b) (some c) =
            sym there ∙ ap (get_elem? content) (sym (==-eq i (suc n) same)) ∙ here in
          subst (λ byte. rune_start byte ≡ false) (same_byte found) inside
      | inr other ↦ quiet i c low (below i n high other) here
    ]
      where
        same_byte : {b c : ℕ} → ◌≡◌ {A = Option ℕ} (some b) (some c) → b ≡ c
        same_byte e = cc

nonzero-pos : (n : ℕ) → (n == 0) ≡ false → 0 < n
nonzero-pos n h = ground arith

part_end-IsCut :
    (content : Bytes)
    → 0 < length content
    → (0 < part_end content)
      × (part_end content ≤ max_event_bytes)
      × (part_end content ≤ length content)
      × IsCut content (part_end content)
unfolding part_end
part_end-IsCut content h = elim (Bool-cases (ltb max_event_bytes (length content))) [
  | inr short ↦ rw short (h, ground arith, omega arith, inl (ground arith, refl))
  | inl long ↦
      let fits : max_event_bytes < length content = ground arith in
      let (le, quiet, cut) = back_to_rune-cut content max_event_bytes fits in
      elim (Bool-cases (back_to_rune content max_event_bytes == 0)) [
        | inl none_found ↦
            let nowhere = ==-eq (back_to_rune content max_event_bytes) 0 none_found in
            rw (long, none_found)
              (
                omega arith,
                omega arith,
                omega (arith, fits),
                inr (
                  fits,
                  inr (refl, subst (λ low. NoStart content low max_event_bytes) nowhere quiet),
                ),
              )
        | inr found ↦
            let pos = nonzero-pos (back_to_rune content max_event_bytes) found in
            rw (long, found)
              (
                pos,
                le,
                omega (arith, le, fits),
                elim cut [
                  | inl zero_end ↦ absurd (omega (arith, zero_end, pos))
                  | inr (b, there, starts) ↦ inr (fits, inl (b, there, starts, quiet))
                ],
              )
      ]
]

abbrev pub joined : List Bytes → Bytes
joined [] = []
joined (part ∷ parts) = part ++ joined parts

-- Each part is cut where a part of what is left may be cut.
abbrev pub AreCut : List Bytes → Type 0
AreCut [] = Unit
AreCut (part ∷ parts) =
    (0 < length part)
    × (length part ≤ max_event_bytes)
    × IsCut (part ++ joined parts) (length part)
    × AreCut parts

parts_of-cut :
    (fuel : ℕ) (content : Bytes)
    → length content ≤ fuel
    → (joined (parts_of fuel content) ≡ content) × AreCut (parts_of fuel content)
unfolding parts_of
parts_of-cut zero [] h = (refl, tt)
parts_of-cut zero (c ∷ s) h = absurd (omega arith)
parts_of-cut (suc fuel) [] h = (refl, tt)
parts_of-cut (suc fuel) (c ∷ s) h =
    let content = c ∷ s in
    let end = part_end content in
    let (pos, small, fits, cut) = part_end-IsCut content (omega arith) in
    let (whole, parts) =
      parts_of-cut fuel (drop end content) (omega (arith, length-drop end content)) in
    let size = length-take end content fits in
    let same : take end content ++ joined (parts_of fuel (drop end content)) ≡ content =
      ap (λ rest. take end content ++ rest) whole ∙ take-append-drop end content in
    (
      same,
      (
        omega (arith, size),
        omega (arith, size),
        subst (λ t. IsCut t (length (take end content))) (sym same)
            (subst (IsCut content) (sym size) cut),
        parts,
      ),
    )

-- An output of any length is cut into parts that make it up, of 1 to 16,384 bytes each. What is left is one part if
-- it has 16,384 bytes at most; otherwise the part ends in front of the last rune that starts at a place from 1 to 16,384
-- in it, or has 16,384 bytes if no rune starts there. The fuel, the length of the output, is enough.
pub parts_of-AreCut :
    (content : Bytes)
    → (joined (parts_of (length content) content) ≡ content)
      × AreCut (parts_of (length content) content)
parts_of-AreCut content = parts_of-cut (length content) content (omega arith)
