-- ===== src/FileEdit/Contract.antt =====
-- The contract of a text edit, and the diff that its approval shows: internal/fileedit/contract.go.
pub mod Validation
pub mod Diffs
use mathlib.Core.List.{reverse}
use eino_ops_agent_enterpr1s.Base.{
  ℕ, suc, ◌-◌, ◌+◌, Bool, true, false, not, ◌&&◌, ◌||◌, List, [], ◌∷◌, ◌++◌, map, Bytes, codes,
  is_empty, equal, has_prefix, length, take, drop, leb, ◌==◌, if◌then◌else◌, Result, ok, err, ◌>>=◌,
  ◌>>◌, guard,
}
use eino_ops_agent_enterpr1s.FileEdit.{bom, split, join}

pub record TextEdit : Type 0 where
  pub old_text : Bytes
  pub new_text : Bytes

pub record FileChange : Type 0 where
  pub diff : Bytes
  pub additions : ℕ
  pub deletions : ℕ

pub data ContractError : Type 0 where
  invalid_old_text invalid_new_text same_text not_generated : ContractError

-- `strings.TrimPrefix(value, "\ufeff")`.
pub trim_bom : Bytes → Bytes
unfolding has_prefix
trim_bom value = if has_prefix value bom then drop 3 value else value

-- `strings.ReplaceAll(value, "\r\n", "\n")`.
pub replace_crlf : Bytes → Bytes
replace_crlf [] = []
replace_crlf (c ∷ []) = c ∷ []
replace_crlf (c ∷ (d ∷ s)) =
    let rest = replace_crlf (d ∷ s) in
    let joined = replace_crlf s in if (c == b'\r') && (d == b'\n') then b'\n' ∷ joined else c ∷ rest

-- `strings.ContainsAny(value, "\x00\r")`.
pub has_control : Bytes → Bool
has_control [] = false
has_control (c ∷ s) = (c == 0) || (c == b'\r') || has_control s

-- `strings.TrimSuffix(value, "\n")`.
pub trim_newline : Bytes → Bytes
trim_newline [] = []
trim_newline (c ∷ []) = if c == b'\n' then [] else c ∷ []
trim_newline (c ∷ (d ∷ s)) = c ∷ trim_newline (d ∷ s)

-- `normalizeBlock`, with the error that its caller makes of a failure.
pub normalize_block : ContractError → Bytes → Result ContractError Bytes
unfolding trim_bom replace_crlf has_control trim_newline
normalize_block problem raw = do
  let value = replace_crlf (trim_bom raw)
  guard (not (has_control value)) problem
  ok (trim_newline value)

pub lines_of : Bytes → List Bytes
unfolding split
lines_of text = if is_empty text then [] else split b'\n' text

-- The loop that counts `prefix`. On the reversed lines behind it, it is the one that counts `suffix`.
pub common_prefix : List Bytes → List Bytes → ℕ
unfolding equal
common_prefix [] new = 0
common_prefix (t ∷ old) [] = 0
common_prefix (t ∷ old) (u ∷ new) =
    let rest = common_prefix old new in if equal t u then suc rest else 0

pub common_suffix : ℕ → List Bytes → List Bytes → ℕ
unfolding common_prefix
common_suffix prefix old new = common_prefix (reverse (drop prefix old)) (reverse (drop prefix new))

-- `lines[prefix : len(lines)-suffix]`.
pub changed : ℕ → ℕ → List Bytes → List Bytes
changed prefix suffix lines = take (length lines - suffix - prefix) (drop prefix lines)

-- `body`.
pub body_of : ℕ → ℕ → List Bytes → List Bytes → List Bytes
unfolding changed
body_of prefix suffix old new =
    map (λ line. b' ' ∷ line) (take prefix old)
    ++ (map (λ line. b'-' ∷ line) (changed prefix suffix old)
        ++ (map (λ line. b'+' ∷ line) (changed prefix suffix new)
            ++ (if leb 1 suffix
                then map (λ line. b' ' ∷ line) (drop (length old - suffix) old)
                else [])))

-- `Build` behind the normalization.
pub build_change : Bytes → Bytes → Bytes → Result ContractError (TextEdit × FileChange)
unfolding lines_of common_prefix common_suffix body_of changed join
build_change path old_text new_text = do
  guard (not (equal old_text new_text)) same_text
  let old = lines_of old_text
  let new = lines_of new_text
  let prefix = common_prefix old new
  let suffix = common_suffix prefix old new
  ok (
    record { old_text = old_text; new_text = new_text },
    record {
      diff =
          codes "--- "
          ++ (path
              ++ (codes "\n+++ "
                  ++ (path
                      ++ (codes "\n@@ unique block @@\n"
                          ++ (join (b'\n' ∷ []) (body_of prefix suffix old new) ++ b'\n' ∷ [])))));
      additions = length (changed prefix suffix new);
      deletions = length (changed prefix suffix old);
    },
  )

-- `Build`.
unfoldable pub build : Bytes → Bytes → Bytes → Result ContractError (TextEdit × FileChange)
unfolding normalize_block build_change
build path raw_old raw_new = do
  old_text ← normalize_block invalid_old_text raw_old
  new_text ← normalize_block invalid_new_text raw_new
  build_change path old_text new_text

-- `normalizedEdit == edit && expectedChange == change`.
pub same_change : TextEdit × FileChange → TextEdit × FileChange → Bool
unfolding equal
same_change (e, c) (f, d) =
    equal e.old_text f.old_text
    && equal e.new_text f.new_text
    && equal c.diff d.diff
    && (c.additions == d.additions)
    && (c.deletions == d.deletions)

-- `ValidateChange`.
unfoldable pub validate_change : Bytes → TextEdit → FileChange → Result ContractError (Unit {0})
unfolding build same_change
validate_change path edit change =
    build path edit.old_text edit.new_text >>= λ (expected : TextEdit × FileChange).
    guard (same_change expected (edit, change)) not_generated
