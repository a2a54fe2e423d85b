-- ===== src/FileEdit/Examples.antt =====
-- The edit of a file of two lines, the first of which ends in a carriage return and a newline.
use eino_ops_agent_enterpr1s.Base.{
  List, [], ◌∷◌, ◌++◌, length, ◌≡◌, ◌≢◌, ◌↔◌, equal, codes, ◌⊎◌, refl, Bytes, ok, err, take,
}
use eino_ops_agent_enterpr1s.FileEdit.{
  Line, conflict, editable_text_lines, body_start, split, join, find_matches, apply,
}
use eino_ops_agent_enterpr1s.FileEdit.Lines.{bytes_of, Placed, editable_text_lines-bytes}
use eino_ops_agent_enterpr1s.FileEdit.Matches.{Block}
use eino_ops_agent_enterpr1s.FileEdit.Contract.{
  lines_of, TextEdit, FileChange, invalid_old_text, invalid_new_text, not_generated,
  normalize_block, build, validate_change,
}
use eino_ops_agent_enterpr1s.FileEdit.Contract.Diffs.{side, build-side}
use eino_ops_agent_enterpr1s.FileEdit.Contract.Validation.{validate_change_iff}
use eino_ops_agent_enterpr1s.FileEdit.Apply.{IsEdit, apply-IsEdit, apply_outcome}

abbrev file : Bytes
file = b'a' ∷ (b'\r' ∷ (b'\n' ∷ (b'b' ∷ [])))

abbrev first_line : Line
first_line = record {
  text = b'a' ∷ [];
  start = 0;
  content_end = 1;
  after_end = 3;
  eol = b'\r' ∷ (b'\n' ∷ []);
}

abbrev last_line : Line
last_line = record { text = b'b' ∷ []; start = 3; content_end = 4; after_end = 4; eol = [] }

abbrev both_lines : List Line
both_lines = first_line ∷ (last_line ∷ [])

cut_file : editable_text_lines file ≡ ok both_lines
unfolding editable_text_lines
cut_file = refl

abbrev last_block : Block ((b'b' ∷ []) ∷ []) both_lines
last_block = record {
  before = first_line ∷ [];
  block = last_line ∷ [];
  behind = [];
  splits = refl;
  texts_are = refl;
}

apply-IsEdit_example :
    IsEdit file
      (b'b' ∷ [])
      (b'x' ∷ (b'\n' ∷ (b'y' ∷ [])))
      (b'a' ∷ (b'\r' ∷ (b'\n' ∷ (b'x' ∷ (b'\r' ∷ (b'\n' ∷ (b'y' ∷ [])))))))
unfolding apply
apply-IsEdit_example = apply-IsEdit file (b'b' ∷ []) (b'x' ∷ (b'\n' ∷ (b'y' ∷ []))) refl

apply_outcome_example :
    ((length (find_matches (split b'\n' (b'b' ∷ [])) 0 both_lines) ≡ 1)
      × ((updated : Bytes) × (apply file (b'b' ∷ []) [] ≡ ok updated)))
    ⊎ ((length (find_matches (split b'\n' (b'b' ∷ [])) 0 both_lines) ≢ 1)
        × (apply file (b'b' ∷ []) []
            ≡ err (conflict (length (find_matches (split b'\n' (b'b' ∷ [])) 0 both_lines)))))
apply_outcome_example = apply_outcome file (b'b' ∷ []) [] both_lines cut_file

editable_text_lines-bytes_example :
    (take (body_start file) file ++ bytes_of both_lines ≡ file)
    × Placed (body_start file) both_lines
editable_text_lines-bytes_example = editable_text_lines-bytes file cut_file

-- The edit that `Build` makes of an old text `b`, an empty line, and the new text `c`.
abbrev stale_edit : TextEdit
stale_edit = record { old_text = b'b' ∷ (b'\n' ∷ []); new_text = b'c' ∷ [] }

abbrev stale_change : FileChange
stale_change = record {
  diff = codes "--- p\n+++ p\n@@ unique block @@\n-b\n-\n+c\n";
  additions = 1;
  deletions = 2;
}

stale_built :
    build (b'p' ∷ []) (b'b' ∷ (b'\n' ∷ (b'\n' ∷ []))) (b'c' ∷ []) ≡ ok (stale_edit, stale_change)
unfolding build equal
stale_built = refl

-- `ValidateChange` refuses it.
stale_refused : validate_change (b'p' ∷ []) stale_edit stale_change ≡ err not_generated
unfolding validate_change equal
stale_refused = refl

validate_change_iff_example : (validate_change (b'p' ∷ []) stale_edit stale_change ≡ ok tt) ↔ (
    (normalize_block invalid_old_text (b'b' ∷ (b'\n' ∷ [])) ≡ ok (b'b' ∷ (b'\n' ∷ [])))
    × (normalize_block invalid_new_text (b'c' ∷ []) ≡ ok (b'c' ∷ [])))
validate_change_iff_example =
    validate_change_iff (b'p' ∷ []) (b'b' ∷ (b'\n' ∷ (b'\n' ∷ []))) (b'c' ∷ []) stale_edit
      stale_change stale_built

build-side_example :
    (body : List Bytes) × (stale_change.diff
      ≡ codes "--- "
        ++ ((b'p' ∷ [])
            ++ (codes "\n+++ "
                ++ ((b'p' ∷ [])
                    ++ (codes "\n@@ unique block @@\n"
                        ++ (join (b'\n' ∷ []) body ++ b'\n' ∷ []))))))
    × (side b'-' body ≡ lines_of (b'b' ∷ (b'\n' ∷ [])))
    × (side b'+' body ≡ lines_of (b'c' ∷ []))
build-side_example =
    build-side (b'p' ∷ []) (b'b' ∷ (b'\n' ∷ (b'\n' ∷ []))) (b'c' ∷ []) stale_edit stale_change
      stale_built
