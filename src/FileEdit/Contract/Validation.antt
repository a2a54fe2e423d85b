-- ===== src/FileEdit/Contract/Validation.antt =====
-- When `ValidateChange` accepts what `Build` has made (internal/fileedit/contract.go).
use eino_ops_agent_enterpr1s.Base.{
  true, not, Bytes, equal, equal_iff, equal_refl, ◌≡◌, ◌↔◌, sym, ap, ◌∙◌, arith, Result, ok,
  >>=-eq-ok, guard->>=-ok, guard-ok, ok-injective,
}
use eino_ops_agent_enterpr1s.FileEdit.Contract.{
  TextEdit, FileChange, ContractError, invalid_old_text, invalid_new_text, same_text,
  normalize_block, build_change, build, same_change, validate_change,
}

build_change-texts :
    (path old_text new_text : Bytes) {edit : TextEdit} {change : FileChange}
    → build_change path old_text new_text ≡ ok (edit, change)
    → (edit.old_text ≡ old_text) × (edit.new_text ≡ new_text)
unfolding build_change
build_change-texts path old_text new_text h =
    let (_, e) = guard->>=-ok (not (equal old_text new_text)) same_text _ h in
    let same = ok-injective e in
    (
      ap (λ (r : TextEdit × FileChange). r.0.old_text) (sym same),
      ap (λ (r : TextEdit × FileChange). r.0.new_text) (sym same),
    )

moved :
    (path old_text new_text : Bytes) {other_old other_new : Bytes}
    {r : Result ContractError (TextEdit × FileChange)}
    → other_old ≡ old_text
    → other_new ≡ new_text
    → build_change path old_text new_text ≡ r
    → build_change path other_old other_new ≡ r
moved path old_text new_text {other_new = other_new} o n h =
    ap (λ t. build_change path t other_new) o ∙ ap (build_change path old_text) n ∙ h

-- What `Build` returns is made of the normalized texts.
pub build-texts :
    (path raw_old raw_new : Bytes) {edit : TextEdit} {change : FileChange}
    → build path raw_old raw_new ≡ ok (edit, change)
    → (normalize_block invalid_old_text raw_old ≡ ok edit.old_text)
      × (normalize_block invalid_new_text raw_new ≡ ok edit.new_text)
      × (build_change path edit.old_text edit.new_text ≡ ok (edit, change))
unfolding build
build-texts path raw_old raw_new h =
    let (old_text, e, h₁) = >>=-eq-ok (normalize_block invalid_old_text raw_old) _ h in
    let (new_text, f, h₂) = >>=-eq-ok (normalize_block invalid_new_text raw_new) _ h₁ in
    let (o, n) = build_change-texts path old_text new_text h₂ in
    (e ∙ ap ok (sym o), f ∙ ap ok (sym n), moved path old_text new_text o n h₂)

same_change_refl :
    (edit : TextEdit) (change : FileChange) → same_change (edit, change) (edit, change) ≡ true
unfolding same_change
same_change_refl edit change =
    ground (arith, equal_refl edit.old_text, equal_refl edit.new_text, equal_refl change.diff)

same_change-texts :
    (edit other : TextEdit) (change kept : FileChange)
    → same_change (edit, change) (other, kept) ≡ true
    → (edit.old_text ≡ other.old_text) × (edit.new_text ≡ other.new_text)
unfolding same_change
same_change-texts edit other change kept h = (
  ground (arith, equal_iff edit.old_text other.old_text),
  ground (arith, equal_iff edit.new_text other.new_text),
)

-- `ValidateChange` accepts an edit that `Build` has made, for the same path, exactly when the
-- normalization leaves both of its texts as they are.
pub validate_change_iff :
    (path raw_old raw_new : Bytes) (edit : TextEdit) (change : FileChange)
    → build path raw_old raw_new ≡ ok (edit, change)
    → (validate_change path edit change ≡ ok tt) ↔ (
        (normalize_block invalid_old_text edit.old_text ≡ ok edit.old_text)
        × (normalize_block invalid_new_text edit.new_text ≡ ok edit.new_text))
unfolding validate_change build
validate_change_iff path raw_old raw_new edit change h = (
  λ accepted.
      let ((e, c), built, same) = >>=-eq-ok (build path edit.old_text edit.new_text) _ accepted in
      let (o, n, _) = build-texts path edit.old_text edit.new_text built in
      let (p, q) = same_change-texts e edit c change (guard-ok _ _ same) in
      (o ∙ ap ok p, n ∙ ap ok q),
  λ stable.
      let (_, _, made) = build-texts path raw_old raw_new h in
      rw (stable.0, stable.1, made, same_change_refl edit change),
)
