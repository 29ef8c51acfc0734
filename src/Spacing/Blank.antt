-- ===== src/Spacing/Blank.antt =====
-- cpplint.py, the part of CheckSpacing about blank lines (lines 1689-1755).
use tpool.Base.{
  Bool, List, Option, [], drop, false, get_elem?, get_or, if◌then◌else◌, last_or, none, not, some,
  suc, take, zero, ℕ, ◌&&◌, ◌++◌, ◌+◌, ◌-◌, ◌||◌, ◌∷◌,
}
use tpool.Text.{Text, contains, is_empty, rfind, same, text}
use tpool.Pattern.{group_text, match_start, matches, on_match}
use tpool.Pattern.Parse.{re}
use tpool.Report.{Effect, diagnose, only_if}
use tpool.Cleanse.{CleansedLines}
use tpool.LineChecks.{is_blank_line}

-- lines[linenum - 1], where -1 is the last line
unfoldable pub line_before : List Text → ℕ → Text
line_before lines zero = last_or lines []
line_before lines (suc n) = get_or lines n []

-- From `search_position`, the number less one, up over lines that are indented by six: is the next
-- one the head of an initializer list?
unfoldable pub after_list_head : List Text → ℕ → Bool
unfolding same
after_list_head elided zero = false
after_list_head elided (suc search_position) =
    let line = get_or elided search_position [] in
    let further = after_list_head elided search_position in
    if matches (re " {6}\\w") line then further else same (take 5 line) (text "    :")

-- The line in front ends the head of a function.
unfoldable pub is_exception : List Text → ℕ → Text → Bool
unfolding after_list_head
is_exception elided linenum prev_line =
    if matches (re " {6}\\w") prev_line
    then after_list_head elided (linenum - 1)
    else matches (re " {4}\\w[^\\(]*\\)\\s*(const\\s*)?(\\{\\s*$|:)") prev_line
      || matches (re " {4}:") prev_line

-- The line in front opens a block, with its last brace at this place, that is no namespace.
abbrev opens_block : Text → Option ℕ → Bool
opens_block prev_line none = false
opens_block prev_line (some prevbrace) =
    not (contains (drop prevbrace prev_line) (text "}"))
    && not (contains (take prevbrace prev_line) (text "namespace"))

unfoldable pub block_start_report : List Text → ℕ → Text → List Effect
unfolding is_exception rfind contains
block_start_report elided linenum prev_line =
    only_if
      (opens_block prev_line (rfind b'{' prev_line) && not (is_exception elided linenum prev_line))
      (diagnose linenum "whitespace/blank_line" 2
          (text "Blank line at the start of a code block.  Is this needed?")
        ∷ [])

-- The next line, `none` at the last one.
unfoldable pub block_end_report : ℕ → Option Text → List Effect
unfolding contains is_empty
block_end_report linenum none = []
block_end_report linenum (some next_line) =
    only_if
      (not (is_empty next_line)
        && (matches (re "\\s*}") next_line
            && (not (contains next_line (text "namespace"))
                && not (contains next_line (text "} else ")))))
      (diagnose linenum "whitespace/blank_line" 3
          (text "Blank line at the end of a code block.  Is this needed?")
        ∷ [])

unfoldable pub after_label_report : ℕ → Text → List Effect
after_label_report linenum prev_line =
    on_match (match_start (re "\\s*(public|protected|private):") prev_line) (λ matched.
      diagnose linenum "whitespace/blank_line" 3
        (text "Do not leave a blank line after \"" ++ (group_text 1 matched ++ text ":\""))
      ∷ [])

unfoldable pub check_blank_line : CleansedLines → ℕ → List Effect
unfolding line_before block_start_report block_end_report after_label_report is_blank_line
check_blank_line clean_lines linenum =
    let prev_line = line_before clean_lines.elided linenum in
    only_if (is_blank_line (get_or clean_lines.raw_lines linenum [])) (
      block_start_report clean_lines.elided linenum prev_line
      ++ (block_end_report linenum (get_elem? clean_lines.raw_lines (linenum + 1))
          ++ after_label_report linenum prev_line))
