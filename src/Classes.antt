-- ===== src/Classes.antt =====
-- cpplint.py, classes (lines 1262-1315) and the spacing of their sections (1918-1967): _ClassInfo,
-- _ClassState and CheckSectionSpacing.
pub mod Extent
use tpool.LineChecks.{is_blank_line}
use tpool.Base.{
  Bool, List, Option, [], drop, false, get_or, if◌then◌else◌, leb, ltb, none, not, some, suc, take,
  ℕ, ◌&&◌, ◌++◌, ◌+◌, ◌-◌, ◌==◌, ◌||◌, ◌∷◌,
}
use tpool.Text.{Text, count_char, is_ascii_space, text}
use tpool.Pattern.Syntax.{Pattern, at_end, boundary, char, group, space, star, word, ◌>>◌, ◌or◌}
use tpool.Pattern.{Found, match_start, occurs, read_group}
use tpool.Report.{Effect, diagnose, only_if}
use tpool.Cleanse.{CleansedLines}

pub record ClassInfo : Type 0 where
  pub name : Text
  pub linenum : ℕ
  pub seen_open_brace : Bool
  pub is_derived : Bool
  pub virtual_method_linenumber : Option ℕ
  pub has_virtual_destructor : Bool
  pub brace_depth : ℕ
  pub last_line : ℕ

-- The first line, from number `i` on, at which as many braces have been closed as opened; 0 if none.
unfoldable pub find_last_line : ℕ → List Text → ℕ → ℕ → ℕ
find_last_line i [] opened closed = 0
find_last_line i (line ∷ lines) opened closed =
    let opened' = opened + count_char b'{' line in
    let closed' = closed + count_char b'}' line in
    let later = find_last_line (suc i) lines opened' closed' in
    if opened' == closed' then i else later

-- _ClassInfo.__init__
unfoldable pub class_info : Text → CleansedLines → ℕ → ClassInfo
unfolding find_last_line
class_info name clean_lines linenum = record {
  name = name;
  linenum = linenum;
  seen_open_brace = false;
  is_derived = false;
  virtual_method_linenumber = none;
  has_virtual_destructor = false;
  brace_depth = 0;
  last_line = find_last_line linenum (drop linenum clean_lines.lines) 0 0;
}

-- _ClassState.classinfo_stack, the innermost class first
abbrev pub ClassState : Type 0
ClassState = List ClassInfo

-- CheckFinished: the outermost class that is still open.
unfoldable pub check_finished : ClassState → List Effect
check_finished [] = []
check_finished (outermost ∷ []) =
    diagnose outermost.linenum "build/class" 5
      (text "Failed to find complete declaration of class " ++ outermost.name)
    ∷ []
check_finished (inner ∷ next ∷ outer) = check_finished (next ∷ outer)

-- r'\s*(public|protected|private):', r'\b(class|struct)\b' and r'\{\s*$'
unfoldable pub section_label : Pattern
unfolding word is_ascii_space
section_label =
    star space >> group 1 (word "public" or word "protected" or word "private") >> char b':'

unfoldable pub class_word : Pattern
unfolding word
class_word = boundary >> group 1 (word "class" or word "struct") >> boundary

unfoldable pub brace_at_end : Pattern
unfolding is_ascii_space
brace_at_end = char b'{' >> star space >> at_end

-- for i in range(class_info.linenum, linenum): the first line that ends the class head
unfoldable pub end_class_head : ℕ → List Text → ℕ → ℕ
end_class_head i [] otherwise = otherwise
end_class_head i (line ∷ lines) otherwise =
    let later = end_class_head (suc i) lines otherwise in
    if occurs brace_at_end line then i else later

section_message : Option Text → Text
section_message none = text "\"None:\" should be preceded by a blank line"
section_message (some label) = text "\"" ++ (label ++ text ":\" should be preceded by a blank line")

unfoldable pub label_report : CleansedLines → ClassInfo → ℕ → Option Found → List Effect
unfolding section_message end_class_head
label_report clean_lines info linenum none = []
label_report clean_lines info linenum (some matched) =
    let prev_line = get_or clean_lines.lines (linenum - 1) [] in
    let head =
      end_class_head info.linenum
        (take (linenum - info.linenum) (drop info.linenum clean_lines.lines)) info.linenum in
    only_if
      (not (is_blank_line prev_line)
        && (not (occurs class_word prev_line) && ltb head (linenum - 1)))
      (diagnose linenum "whitespace/blank_line" 3 (section_message (read_group 1 matched)) ∷ [])

-- `last_line - linenum <= 24` holds of a difference that is negative too.
unfoldable pub check_section_spacing : CleansedLines → ClassInfo → ℕ → List Effect
unfolding label_report
check_section_spacing clean_lines info linenum =
    if leb info.last_line (info.linenum + 24) || leb linenum info.linenum
    then []
    else label_report clean_lines info linenum
        (match_start section_label (get_or clean_lines.lines linenum []))
