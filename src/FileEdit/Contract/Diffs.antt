-- ===== src/FileEdit/Contract/Diffs.antt =====
-- The diff that an approval shows, read back (internal/fileedit/contract.go).
use mathlib.Core.List.{reverse, reverse_aux, reverse-reverse, reverse-append}
use eino_ops_agent_enterpr1s.Base.{
  ℕ, zero, suc, ◌+◌, ◌-◌, ◌≤◌, true, false, List, [], ◌∷◌, ◌++◌, map, Bytes, equal, equal_iff,
  length, take, drop, length-drop, take-append-drop, drop-length, drop_all, drop-add, leb, ◌==◌,
  ◌≡◌, ◌⊎◌, inl, inr, refl, sym, ap, ◌∙◌, arith, if◌then◌else◌, Bool-cases, codes, not, ok,
  guard->>=-ok, ok-injective,
}
use eino_ops_agent_enterpr1s.FileEdit.{join}
use eino_ops_agent_enterpr1s.FileEdit.Contract.Validation.{build-texts}
use eino_ops_agent_enterpr1s.FileEdit.Contract.{
  TextEdit, FileChange, same_text, lines_of, build_change, build, common_prefix, common_suffix,
  changed, body_of,
}

-- The lines of a diff that begin with a space or with `mark`, without that byte: the old lines for `-`,
-- the new ones for `+`.
unfoldable pub side : ℕ → List Bytes → List Bytes
side mark [] = []
side mark ([] ∷ body) = side mark body
side mark ((c ∷ line) ∷ body) =
    let rest = side mark body in
    if c == b' ' then line ∷ rest else if c == mark then line ∷ rest else rest

side-append : (mark : ℕ) (xs ys : List Bytes) → side mark (xs ++ ys) ≡ side mark xs ++ side mark ys
unfolding side
side-append mark [] ys = refl
side-append mark ([] ∷ xs) ys = side-append mark xs ys
side-append mark ((c ∷ line) ∷ xs) ys = elim (Bool-cases (c == b' ')) [
  | inl space ↦ rw space (ap (◌∷◌ line) (side-append mark xs ys))
  | inr other ↦ elim (Bool-cases (c == mark)) [
    | inl marked ↦ rw (other, marked) (ap (◌∷◌ line) (side-append mark xs ys))
    | inr neither ↦ rw (other, neither) (side-append mark xs ys)
  ]
]

side_kept :
    (mark c : ℕ) (xs : List Bytes)
    → (c ≡ b' ') ⊎ (c ≡ mark)
    → side mark (map (λ line. c ∷ line) xs) ≡ xs
unfolding side
side_kept mark c [] h = refl
side_kept mark c (x ∷ xs) (inl space) = ground (arith, side_kept mark c xs (inl space))
side_kept mark c (x ∷ xs) (inr marked) = ground (arith, side_kept mark c xs (inr marked))

side_dropped :
    (mark c : ℕ) (xs : List Bytes)
    → (c == b' ') ≡ false
    → (c == mark) ≡ false
    → side mark (map (λ line. c ∷ line) xs) ≡ []
unfolding side
side_dropped mark c [] a b = refl
side_dropped mark c (x ∷ xs) a b = rw (a, b) (side_dropped mark c xs a b)

prefix-take : (xs ys : List Bytes) → take (common_prefix xs ys) xs ≡ take (common_prefix xs ys) ys
unfolding common_prefix
prefix-take [] ys = refl
prefix-take (x ∷ xs) [] = refl
prefix-take (x ∷ xs) (y ∷ ys) = elim (Bool-cases (equal x y)) [
  | inl same ↦ rw same (cc ((equal_iff x y).0 same, prefix-take xs ys))
  | inr differs ↦ rw differs
]

prefix_le :
    (xs ys : List Bytes) → (common_prefix xs ys ≤ length xs) × (common_prefix xs ys ≤ length ys)
unfolding common_prefix
prefix_le [] ys = (omega arith, omega arith)
prefix_le (x ∷ xs) [] = (omega arith, omega arith)
prefix_le (x ∷ xs) (y ∷ ys) =
    (ground (arith, (prefix_le xs ys).0), ground (arith, (prefix_le xs ys).1))

length-reverse_aux : (xs ys : List Bytes) → length (reverse_aux xs ys) ≡ length xs + length ys
length-reverse_aux [] ys = omega arith
length-reverse_aux (x ∷ xs) ys = omega (arith, length-reverse_aux xs (x ∷ ys))

length-reverse : (xs : List Bytes) → length (reverse xs) ≡ length xs
length-reverse xs = omega (arith, length-reverse_aux xs [])

-- The last lines are the first ones of the reversed list.
drop-reverse :
    (n : ℕ) (xs : List Bytes)
    → n ≤ length xs
    → drop (length xs - n) xs ≡ reverse (take n (reverse xs))
drop-reverse n xs h =
    let front = reverse (drop n (reverse xs)) in
    let back = reverse (take n (reverse xs)) in
    let whole : xs ≡ front ++ back =
      sym (reverse-reverse xs)
      ∙ ap reverse (sym (take-append-drop n (reverse xs)))
      ∙ reverse-append (take n (reverse xs)) (drop n (reverse xs)) in
    let count : length xs - n ≡ length front = omega (
      arith,
      length-reverse (drop n (reverse xs)),
      length-drop n (reverse xs),
      length-reverse xs,
    ) in
    ap (λ k. drop k xs) count ∙ ap (drop (length front)) whole ∙ drop-length front back

-- The three parts of the lines.
parts :
    (prefix suffix : ℕ) (xs : List Bytes)
    → prefix + suffix ≤ length xs
    → take prefix xs ++ (changed prefix suffix xs ++ drop (length xs - suffix) xs) ≡ xs
unfolding changed
parts prefix suffix xs h =
    let n = length xs - suffix - prefix in
    let same : drop (length xs - suffix) xs ≡ drop n (drop prefix xs) =
      ap (λ k. drop k xs) (omega arith) ∙ drop-add prefix n xs in
    rw (same, take-append-drop n (drop prefix xs), take-append-drop prefix xs)

optional_suffix :
    (mark suffix : ℕ) (xs : List Bytes)
    → side mark
        (if leb 1 suffix then map (λ line. b' ' ∷ line) (drop (length xs - suffix) xs) else [])
      ≡ drop (length xs - suffix) xs
unfolding side
optional_suffix mark zero xs = sym (drop_all (length xs - 0) xs (omega arith))
optional_suffix mark (suc n) xs =
    let some_left : leb 1 (suc n) ≡ true = ground arith in
    rw some_left (side_kept mark b' ' (drop (length xs - suc n) xs) (inl refl))

module _ (old new : List Bytes) where
  abbrev prefix : ℕ
  prefix = common_prefix old new

  abbrev suffix : ℕ
  suffix = common_suffix prefix old new

  suffix_le : (prefix + suffix ≤ length old) × (prefix + suffix ≤ length new)
  unfolding common_suffix
  suffix_le =
      let (a, b) = prefix_le (reverse (drop prefix old)) (reverse (drop prefix new)) in
      let (c, d) = prefix_le old new in
      (
        omega (arith, a, c, length-reverse (drop prefix old), length-drop prefix old),
        omega (arith, b, d, length-reverse (drop prefix new), length-drop prefix new),
      )

  same_suffix : drop (length old - suffix) old ≡ drop (length new - suffix) new
  unfolding common_suffix
  same_suffix =
      last_of old (suffix_le.0)
      ∙ ap reverse (prefix-take (reverse (drop prefix old)) (reverse (drop prefix new)))
      ∙ sym (last_of new (suffix_le.1))
    where
      last_of :
          (xs : List Bytes)
          → prefix + suffix ≤ length xs
          → drop (length xs - suffix) xs ≡ reverse (take suffix (reverse (drop prefix xs)))
      last_of xs h =
          let zs = drop prefix xs in
          let size = length-drop prefix xs in
          ap (λ k. drop k xs) (omega (arith, size))
          ∙ drop-add prefix (length zs - suffix) xs
          ∙ drop-reverse suffix zs (omega (arith, size))

  -- The lines of the body that begin with a space or `-` are the old lines, and those that begin with a
  -- space or `+` are the new ones.
  body_of-sides :
      (side b'-' (body_of prefix suffix old new) ≡ old)
      × (side b'+' (body_of prefix suffix old new) ≡ new)
  unfolding body_of
  body_of-sides = (
    rw
        (
          side-append b'-' (map (λ line. b' ' ∷ line) (take prefix old)) _,
          side-append b'-' (map (λ line. b'-' ∷ line) (changed prefix suffix old)) _,
          side-append b'-' (map (λ line. b'+' ∷ line) (changed prefix suffix new)) _,
          side_kept b'-' b' ' (take prefix old) (inl refl),
          side_kept b'-' b'-' (changed prefix suffix old) (inr refl),
          side_dropped b'-' b'+' (changed prefix suffix new) refl refl,
          optional_suffix b'-' suffix old,
        )
        (parts prefix suffix old suffix_le.0),
    rw
        (
          side-append b'+' (map (λ line. b' ' ∷ line) (take prefix old)) _,
          side-append b'+' (map (λ line. b'-' ∷ line) (changed prefix suffix old)) _,
          side-append b'+' (map (λ line. b'+' ∷ line) (changed prefix suffix new)) _,
          side_kept b'+' b' ' (take prefix old) (inl refl),
          side_dropped b'+' b'-' (changed prefix suffix old) refl refl,
          side_kept b'+' b'+' (changed prefix suffix new) (inr refl),
          optional_suffix b'+' suffix old,
          prefix-take old new,
          same_suffix,
        )
        (parts prefix suffix new suffix_le.1),
  )

-- The diff of an edit that `Build` makes is a header with the path, and lines that each end in a
-- newline. Those that begin with a space or `-` are the lines of the edit's old text, in order, and
-- those that begin with a space or `+` are the lines of its new text.
pub build-side :
    (path raw_old raw_new : Bytes) (edit : TextEdit) (change : FileChange)
    → build path raw_old raw_new ≡ ok (edit, change)
    → (body : List Bytes) × (change.diff
        ≡ codes "--- "
          ++ (path
              ++ (codes "\n+++ "
                  ++ (path
                      ++ (codes "\n@@ unique block @@\n"
                          ++ (join (b'\n' ∷ []) body ++ b'\n' ∷ []))))))
      × (side b'-' body ≡ lines_of edit.old_text)
      × (side b'+' body ≡ lines_of edit.new_text)
unfolding build_change
build-side path raw_old raw_new edit change h =
    let (_, _, made) = build-texts path raw_old raw_new h in
    let (_, e) = guard->>=-ok (not (equal edit.old_text edit.new_text)) same_text _ made in
    let old = lines_of edit.old_text in
    let new = lines_of edit.new_text in
    (
      body_of (prefix old new) (suffix old new) old new,
      ap (λ (r : TextEdit × FileChange). r.1.diff) (sym (ok-injective e)),
      (body_of-sides old new).0,
      (body_of-sides old new).1,
    )
