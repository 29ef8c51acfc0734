-- ===== src/IncludeUse.antt =====
-- cpplint.py, include-what-you-use (lines 2859-2915 and 3001-3091): the names that ask for a header,
-- and CheckForIncludeWhatYouUse.
pub mod Required
use tpool.Base.{
  Bool, List, Option, String, [], false, if◌then◌else◌, map, none, not, some, suc, take, true, ℕ,
  ◌&&◌, ◌++◌, ◌==◌, ◌||◌, ◌∷◌,
}
use tpool.Text.{Text, contains, ends_with, strip, text}
use tpool.Dict.{Dict, has, put}
use tpool.Pattern.{Found, occurs, search_in, substitute}
use tpool.Pattern.Parse.{re}
use tpool.Pattern.Syntax.{Pattern, word, ◌>>◌}
use tpool.Report.{Effect, diagnose, only_if}
use tpool.Cleanse.{CleansedLines}
use tpool.Paths.{FileSystem}
use tpool.Files.{common_path, files_belong_to_same_module, full_name}
use tpool.IncludeOrder.{IncludeState}
use tpool.Includes.{update_include_state}

-- A pattern, the name of what it finds, and the header that has it.
pub record Need : Type 0 where
  pub pattern : Pattern
  pub template : Text
  pub header : Text

-- _re_pattern_algorithm_header
algorithm_need : String → Need
algorithm_need template = record {
  pattern = re "[^>.]\\b" >> word template >> re "(<.*?>)?\\([^\\)]";
  template = text template;
  header = text "<algorithm>";
}

unfoldable pub algorithm_needs : List Need
unfolding algorithm_need
algorithm_needs =
    map algorithm_need ("copy" ∷ "max" ∷ "min" ∷ "min_element" ∷ "sort" ∷ "swap" ∷ "transform" ∷ [])

-- _HEADERS_CONTAINING_TEMPLATES and _re_pattern_templates
template_need : String → String → Need
template_need header template = record {
  pattern = re "(\\<|\\b)" >> word template >> re "\\s*\\<";
  template = text template ++ text "<>";
  header = text header;
}

abbrev pub headers_containing_templates : List (String × List String)
headers_containing_templates =
    ("<deque>", "deque" ∷ [])
    ∷ (
      "<functional>",
      "unary_function" ∷ "binary_function" ∷ "plus" ∷ "minus" ∷ "multiplies" ∷ "divides" ∷ "modulus"
          ∷ "negate" ∷ "equal_to" ∷ "not_equal_to" ∷ "greater" ∷ "less" ∷ "greater_equal"
          ∷ "less_equal" ∷ "logical_and" ∷ "logical_or" ∷ "logical_not" ∷ "unary_negate" ∷ "not1"
          ∷ "binary_negate" ∷ "not2" ∷ "bind1st" ∷ "bind2nd" ∷ "pointer_to_unary_function"
          ∷ "pointer_to_binary_function" ∷ "ptr_fun" ∷ "mem_fun_t" ∷ "mem_fun" ∷ "mem_fun1_t"
          ∷ "mem_fun1_ref_t" ∷ "mem_fun_ref_t" ∷ "const_mem_fun_t" ∷ "const_mem_fun1_t"
          ∷ "const_mem_fun_ref_t" ∷ "const_mem_fun1_ref_t" ∷ "mem_fun_ref" ∷ [],
    )
    ∷ ("<limits>", "numeric_limits" ∷ [])
    ∷ ("<list>", "list" ∷ [])
    ∷ ("<map>", "map" ∷ "multimap" ∷ [])
    ∷ ("<memory>", "allocator" ∷ [])
    ∷ ("<queue>", "queue" ∷ "priority_queue" ∷ [])
    ∷ ("<set>", "set" ∷ "multiset" ∷ [])
    ∷ ("<stack>", "stack" ∷ [])
    ∷ ("<string>", "char_traits" ∷ "basic_string" ∷ [])
    ∷ ("<utility>", "pair" ∷ [])
    ∷ ("<vector>", "vector" ∷ [])
    ∷ ("<hash_map>", "hash_map" ∷ "hash_multimap" ∷ [])
    ∷ ("<hash_set>", "hash_set" ∷ "hash_multiset" ∷ [])
    ∷ ("<slist>", "slist" ∷ [])
    ∷ []

needs_of : List (String × List String) → List Need
unfolding template_need
needs_of [] = []
needs_of ((header, templates) ∷ rest) = map (template_need header) templates ++ needs_of rest

unfoldable pub template_needs : List Need
unfolding needs_of
template_needs = needs_of headers_containing_templates

-- required: header name to the line and the name that ask for it
abbrev pub Required : Type 0
Required = Dict (ℕ × Text)

-- A string is not of another namespace than std.
unfoldable pub is_std_string : Text → Bool
unfolding ends_with
is_std_string prefix = ends_with prefix (text "std::") || not (ends_with prefix (text "::"))

unfoldable pub string_found : Text → Option Found → Bool
unfolding is_std_string
string_found line none = false
string_found line (some m) = is_std_string (take m.start line)

-- What one line asks for, in the order of the assignments.
unfoldable pub found_needs : Text → List Need → List (Text × Text)
found_needs line [] = []
found_needs line (need ∷ needs) =
    let rest = found_needs line needs in
    if occurs need.pattern line then (need.header, need.template) ∷ rest else rest

abbrev pub is_skipped : Text → Bool
is_skipped [] = true
is_skipped (c ∷ line) = c == b'#'

unfoldable pub line_needs : Text → List (Text × Text)
unfolding string_found found_needs contains
line_needs line =
    if is_skipped line
    then []
    else (if string_found line (search_in (re "\\bstring\\b") line)
        then (text "<string>", text "string") ∷ []
        else [])
      ++ (found_needs line algorithm_needs
          ++ (if contains line (text "<") then found_needs line template_needs else []))

-- required[header] = (linenum, template), for each in turn
unfoldable pub require_all : ℕ → List (Text × Text) → Required → Required
unfolding put
require_all linenum [] required = required
require_all linenum ((header, template) ∷ rest) required =
    require_all linenum rest (put required header (linenum, template))

unfoldable pub require_lines : ℕ → List Text → Required → Required
unfolding require_all line_needs
require_lines linenum [] required = required
require_lines linenum (line ∷ lines) required =
    require_lines (suc linenum) lines (require_all linenum (line_needs line) required)

-- One header of the file that may be of its module: it is read where it can be opened.
unfoldable pub read_header :
    (Text → Option (List Text)) → Text → Text → IncludeState × Bool → IncludeState × Bool
unfolding update_include_state files_belong_to_same_module
read_header open_lines abs_filename header (s, header_found) =
    let (same_module, common_path) = files_belong_to_same_module abs_filename header in
    let fullpath = common_path ++ header in
    let (s', success) = update_include_state fullpath (open_lines fullpath) s in
    if same_module then (s', header_found || success) else (s, header_found)

unfoldable pub read_headers :
    (Text → Option (List Text)) → Text → List Text → IncludeState × Bool → IncludeState × Bool
unfolding read_header
read_headers open_lines abs_filename [] s = s
read_headers open_lines abs_filename (header ∷ rest) s =
    read_headers open_lines abs_filename rest (read_header open_lines abs_filename header s)

-- name.strip('<>"')
abbrev pub stripped_header : Text → Text
stripped_header header = strip (λ c. c == b'<' || (c == b'>' || c == b'"')) header

unfoldable pub missing_reports : IncludeState → Required → List Effect
unfolding has
missing_reports s [] = []
missing_reports s ((header, (linenum, template)) ∷ rest) =
    only_if (not (has s.includes (stripped_header header))) (
      diagnose linenum "build/include_what_you_use" 4
        (text "Add #include " ++ (header ++ (text " for " ++ template)))
      ∷ [])
    ++ missing_reports s rest

-- CheckForIncludeWhatYouUse; it works on a copy of the includes. `open_lines` reads a header.
unfoldable pub check_for_include_what_you_use :
    FileSystem → (Text → Option (List Text)) → Text → CleansedLines → IncludeState → List Effect
unfolding require_lines read_headers missing_reports ends_with full_name substitute
check_for_include_what_you_use fs open_lines filename clean_lines include_state =
    let required = require_lines 0 clean_lines.elided [] in
    let abs_filename = substitute (re "_flymake\\.cc$") (text ".cc") (full_name fs filename) in
    let (s, header_found) =
      read_headers open_lines abs_filename (map (λ e. e.0) include_state.includes)
        (include_state, false) in
    if ends_with filename (text ".cc") && not header_found then [] else missing_reports s required
