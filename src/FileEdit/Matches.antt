-- ===== src/FileEdit/Matches.antt =====
-- The search of `Apply` in internal/fileedit/apply.go for the lines that hold the old text.
use mathlib.Core.Path.{subst}
use eino_ops_agent_enterpr1s.Base.{
  ℕ, ◌+◌, ◌<◌, Bool, true, List, [], ◌∷◌, ◌++◌, Bytes, equal_iff, equal_refl, length, length-append,
  leb, Bool-cases, ◌≡◌, ◌⊎◌, inl, inr, refl, sym, ap, arith, ◌&&◌,
}
use eino_ops_agent_enterpr1s.FileEdit.{Line, block_matches, find_matches}

abbrev pub texts : List Line → List Bytes
texts [] = []
texts (l ∷ lines) = l.text ∷ texts lines

-- The lines hold the block `old` behind `before`.
pub record Block (old : List Bytes) (lines : List Line) : Type 0 where
  pub before : List Line
  pub block : List Line
  pub behind : List Line
  pub splits : lines ≡ before ++ (block ++ behind)
  pub texts_are : texts block ≡ old

abbrev pub Among : ℕ → List ℕ → Type 0
Among i [] = ⊥
Among i (x ∷ xs) = (i ≡ x) ⊎ Among i xs

pub length-texts : (lines : List Line) → length (texts lines) ≡ length lines
length-texts [] = refl
length-texts (l ∷ lines) = omega (arith, length-texts lines)

block_matches-split :
    (old : List Bytes) (lines : List Line)
    → block_matches old lines ≡ true
    → (block : List Line) × (behind : List Line) × (lines ≡ block ++ behind) × (texts block ≡ old)
unfolding block_matches
block_matches-split [] lines h = ([], lines, refl, refl)
block_matches-split (t ∷ old) [] h = cc
block_matches-split (t ∷ old) (l ∷ lines) h =
    let (block, behind, splits, same) = block_matches-split old lines (ground arith) in
    let here : l.text ≡ t = (equal_iff l.text t).0 (ground arith) in
    (l ∷ block, behind, ap (◌∷◌ l) splits, cc)

block_matches-texts :
    (block behind : List Line) → block_matches (texts block) (block ++ behind) ≡ true
unfolding block_matches
block_matches-texts [] behind = refl
block_matches-texts (l ∷ block) behind = rw equal_refl (block_matches-texts block behind)

-- Whether the block begins at the head of the lines.
abbrev begins : List Bytes → List Line → Bool
begins old lines = leb (length old) (length lines) && block_matches old lines

begins-texts : (block behind : List Line) → begins (texts block) (block ++ behind) ≡ true
begins-texts block behind =
    ground (arith, block_matches-texts block behind, length-texts block, length-append block behind)

Block-cons :
    {old : List Bytes} {lines : List Line} (l : Line) (start : ℕ) {i : ℕ}
    → (b : Block old lines) × (i ≡ start + 1 + length b.before)
    → (b : Block old (l ∷ lines)) × (i ≡ start + length b.before)
Block-cons l start (b, e) = (
  record {
    before = l ∷ b.before;
    block = b.block;
    behind = b.behind;
    splits = ap (◌∷◌ l) b.splits;
    texts_are = b.texts_are;
  },
  omega (arith, e),
)

-- Each match that the search returns is a place where the lines hold the block.
pub find_matches_sound :
    (old : List Bytes) (start : ℕ) (lines : List Line) (i : ℕ)
    → 0 < length old
    → Among i (find_matches old start lines)
    → (b : Block old lines) × (i ≡ start + length b.before)
unfolding find_matches
find_matches_sound old start [] i n m = absurd (ground arith)
find_matches_sound old start (l ∷ lines) i n m = elim (Bool-cases (begins old (l ∷ lines))) [
  | inl here ↦ elim (rw here at m) [
    | inl e ↦
        let (block, behind, splits, same) = block_matches-split old (l ∷ lines) (ground arith) in
        (
          record { before = []; block = block; behind = behind; splits = splits; texts_are = same },
          omega (arith, e),
        )
    | inr later ↦ Block-cons l start (find_matches_sound old (start + 1) lines i n later)
  ]
  | inr elsewhere ↦
      Block-cons l start (find_matches_sound old (start + 1) lines i n (rw elsewhere at m))
]

find_matches-texts :
    (start : ℕ) (before block behind : List Line)
    → 0 < length block
    → Among (start + length before) (find_matches (texts block) start (before ++ (block ++ behind)))
unfolding find_matches
find_matches-texts start [] [] behind n = absurd (omega arith)
find_matches-texts start [] (l ∷ block) behind n =
    rw (begins-texts (l ∷ block) behind) (inl (omega arith))
find_matches-texts start (b ∷ before) block behind n =
    let later = find_matches-texts (start + 1) before block behind n in
    let there : Among (start + length (b ∷ before))
        (find_matches (texts block) (start + 1) (before ++ (block ++ behind))) =
      subst (λ i. Among i (find_matches (texts block) (start + 1) (before ++ (block ++ behind))))
        (omega arith) later in
    elim (Bool-cases (begins (texts block) (b ∷ (before ++ (block ++ behind))))) [
      | inl here ↦ rw here (inr there)
      | inr elsewhere ↦ rw elsewhere there
    ]

-- The search returns every place where the lines hold the block.
pub find_matches_complete :
    (old : List Bytes) (start : ℕ) (lines : List Line) (b : Block old lines)
    → 0 < length old
    → Among (start + length b.before) (find_matches old start lines)
find_matches_complete old start lines b n =
    let some_line : 0 < length b.block =
      omega (arith, length-texts b.block, ap length b.texts_are) in
    subst (λ ls. Among (start + length b.before) (find_matches old start ls)) (sym b.splits)
      (subst
        (λ ts.
          Among (start + length b.before)
            (find_matches ts start (b.before ++ (b.block ++ b.behind))))
        b.texts_are (find_matches-texts start b.before b.block b.behind some_line))
