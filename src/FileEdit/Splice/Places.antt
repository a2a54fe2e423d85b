-- ===== src/FileEdit/Splice/Places.antt =====
-- The bytes before and behind the offsets that a line of internal/fileedit/apply.go records.
use mathlib.Core.Path.{subst}
use eino_ops_agent_enterpr1s.Base.{
  ℕ, ◌+◌, some, List, [], ◌∷◌, ◌++◌, Bytes, length, take, drop, get_elem?, take-length, drop-length,
  length-append, ◌≡◌, ◌⊎◌, inl, inr, refl, sym, ap, ◌∙◌, arith, append_assoc,
}
use eino_ops_agent_enterpr1s.FileEdit.{Line}
use eino_ops_agent_enterpr1s.FileEdit.Lines.{bytes_of, Placed}

-- The bytes of the lines without the ending of the last one.
abbrev pub trim_eol : List Line → Bytes
trim_eol [] = []
trim_eol (l ∷ []) = l.text
trim_eol (l ∷ (m ∷ lines)) = l.text ++ (l.eol ++ trim_eol (m ∷ lines))

pub bytes_of-append : (xs ys : List Line) → bytes_of (xs ++ ys) ≡ bytes_of xs ++ bytes_of ys
bytes_of-append [] ys = refl
bytes_of-append (x ∷ xs) ys = simp (bytes_of-append xs ys, append_assoc)

pub trim_eol-append : (xs : List Line) (l : Line) → trim_eol (xs ++ l ∷ []) ≡ bytes_of xs ++ l.text
trim_eol-append [] l = refl
trim_eol-append (x ∷ []) l = simp append_assoc
trim_eol-append (x ∷ (y ∷ xs)) l = simp (trim_eol-append (y ∷ xs) l, append_assoc)

Placed-append :
    (n : ℕ) (xs ys : List Line) → Placed n (xs ++ ys) → Placed (n + length (bytes_of xs)) ys
Placed-append n [] ys h = subst (λ m. Placed m ys) (omega arith) h
Placed-append n (x ∷ xs) ys h =
    subst (λ m. Placed m ys)
      (omega
        (arith, h, length-append x.text (x.eol ++ bytes_of xs), length-append x.eol (bytes_of xs)))
      (Placed-append x.after_end xs ys h.3)

get_elem?-append {ℓ} :
    {A : Type ℓ} (xs : List A) (y : A) (ys : List A) → get_elem? (xs ++ y ∷ ys) (length xs) ≡ some y
get_elem?-append [] y ys = refl
get_elem?-append (x ∷ xs) y ys = get_elem?-append xs y ys

-- What stands before and behind the line `l` of the file `s`, whose lines begin behind `head`.
pub record LineAt (s head : Bytes) (lines before : List Line) (l : Line) (behind : List Line)
    : Type 0 where
  pub found : get_elem? lines (length before) ≡ some l
  pub to_start : take l.start s ≡ head ++ bytes_of before
  pub to_content_end : take l.content_end s ≡ head ++ (bytes_of before ++ l.text)
  pub from_content_end : drop l.content_end s ≡ l.eol ++ bytes_of behind
  pub from_after_end : drop l.after_end s ≡ bytes_of behind
  pub eol_length : l.after_end ≡ l.content_end + length l.eol

-- A split of `s` gives what is before and behind its length.
cut_at :
    (s xs ys : Bytes) (n : ℕ) → s ≡ xs ++ ys → n ≡ length xs → (take n s ≡ xs) × (drop n s ≡ ys)
cut_at s xs ys n e m =
    subst (λ k. (take k s ≡ xs) × (drop k s ≡ ys)) (sym m)
      (subst (λ t. (take (length xs) t ≡ xs) × (drop (length xs) t ≡ ys)) (sym e)
        (take-length xs ys, drop-length xs ys))

pub place_line :
    (s head : Bytes) (before : List Line) (l : Line) (behind : List Line)
    → head ++ bytes_of (before ++ l ∷ behind) ≡ s
    → Placed (length head) (before ++ l ∷ behind)
    → LineAt s head (before ++ l ∷ behind) before l behind
place_line s head before l behind whole placed =
    let (starts, ends, stops, _) = Placed-append (length head) before (l ∷ behind) placed in
    let whole' : s ≡ (head ++ bytes_of before) ++ (l.text ++ (l.eol ++ bytes_of behind)) =
      sym whole ∙ simp (bytes_of-append before (l ∷ behind), append_assoc) in
    let size = length-append head (bytes_of before) in
    let at_start = cut_at s (head ++ bytes_of before) _ l.start whole' (omega arith) in
    let at_content =
      cut_at s ((head ++ bytes_of before) ++ l.text) (l.eol ++ bytes_of behind) l.content_end
        (whole' ∙ simp append_assoc)
        (omega (arith, length-append (head ++ bytes_of before) l.text)) in
    let at_end =
      cut_at s (((head ++ bytes_of before) ++ l.text) ++ l.eol) (bytes_of behind) l.after_end
        (whole' ∙ simp append_assoc)
        (omega (
          arith,
          length-append (head ++ bytes_of before) l.text,
          length-append ((head ++ bytes_of before) ++ l.text) l.eol,
        )) in
    record {
      found = get_elem?-append before l behind;
      to_start = at_start.0;
      to_content_end = at_content.0 ∙ append_assoc head (bytes_of before) l.text;
      from_content_end = at_content.1;
      from_after_end = at_end.1;
      eol_length = stops;
    }

pub snoc_cases {ℓ} :
    {A : Type ℓ} (xs : List A)
    → (xs ≡ []) ⊎ ((front : List A) × (last : A) × (xs ≡ front ++ last ∷ []))
snoc_cases [] = inl refl
snoc_cases (x ∷ xs) = elim (snoc_cases xs) [
  | inl e ↦ inr ([], x, ap (◌∷◌ x) e)
  | inr (front, last, e) ↦ inr (x ∷ front, last, ap (◌∷◌ x) e)
]
