-- ===== src/IncludeOrder.antt =====
-- cpplint.py, class _IncludeState (lines 366-488): the include dictionary of a file, the section
-- that the include list has reached, and the last header for the alphabetical check.
pub mod Arranged
pub mod Sections
pub mod Alphabet
use tpool.Base.{ℕ, ◌≤◌, Bool, true, false, ◌∷◌, [], ◌++◌, ◌&&◌, leb, if◌then◌else◌, map}
use tpool.Text.{Text, text, less, replace, lower_char}
use tpool.Dict.{Dict}

-- Where an include was found: its line, or the '%s:%d' text that UpdateIncludeState stores.
pub data Site : Type 0 where
  at_line : ℕ → Site
  described : Text → Site

-- _C_SYS_HEADER = 1 and the constants that follow it
pub data HeaderType : Type 0 where
  c_sys_header cpp_sys_header likely_my_header possible_my_header other_header : HeaderType

pub data Section : Type 0 where
  initial_section my_h_section c_section cpp_section other_h_section : Section

-- _INITIAL_SECTION = 0, ..., _OTHER_H_SECTION = 4
unfoldable pub number : Section → ℕ
number initial_section = 0
number my_h_section = 1
number c_section = 2
number cpp_section = 3
number other_h_section = 4

-- _TYPE_NAMES and _SECTION_NAMES
unfoldable pub type_name : HeaderType → Text
type_name c_sys_header = text "C system header"
type_name cpp_sys_header = text "C++ system header"
type_name likely_my_header = text "header this file implements"
type_name possible_my_header = text "header this file may implement"
type_name other_header = text "other header"

unfoldable pub section_name : Section → Text
section_name initial_section = text "... nothing. (This can't be an error.)"
section_name my_h_section = text "a header this file implements"
section_name c_section = text "C system header"
section_name cpp_section = text "C++ system header"
section_name other_h_section = text "other header"

pub record IncludeState : Type 0 where
  pub includes : Dict Site
  pub section : Section
  pub last_header : Text

-- __init__
abbrev pub init : IncludeState
init = record { includes = []; section = initial_section; last_header = [] }

unfoldable pub canonicalize_alphabetical_order : Text → Text
canonicalize_alphabetical_order path =
    map lower_char (replace (replace path (text "-inl.h") (text ".h")) (text "-") (text "_"))

-- The test is the second part of the result.
unfoldable pub is_in_alphabetical_order : IncludeState → Text → IncludeState × Bool
is_in_alphabetical_order s header_path =
    let canonical_header = canonicalize_alphabetical_order header_path in
    if less canonical_header s.last_header
    then (s, false)
    else (record s { last_header = canonical_header }, true)

-- self._section <= bound
abbrev pub within : Section → Section → Bool
within s bound = leb (number s) (number bound)

unfoldable pub same_section : Section → Section → Bool
unfolding number
same_section s t = leb (number s) (number t) && leb (number t) (number s)

-- The two ways out: an error message, or a new section. The text is empty where all is well.
abbrev pub refuse : IncludeState → HeaderType → IncludeState × Text
refuse s t = (
  record s { last_header = [] },
  text "Found " ++ (type_name t ++ (text " after " ++ section_name s.section)),
)

abbrev pub enter : IncludeState → Section → IncludeState × Text
enter s next =
    let last_header : Text = if same_section s.section next then s.last_header else [] in
    (record s { section = next; last_header = last_header }, [])

unfoldable pub check_next_include_order : IncludeState → HeaderType → IncludeState × Text
unfolding number same_section
check_next_include_order s c_sys_header =
    if within s.section c_section then enter s c_section else refuse s c_sys_header
check_next_include_order s cpp_sys_header =
    if within s.section cpp_section then enter s cpp_section else refuse s cpp_sys_header
check_next_include_order s likely_my_header =
    if within s.section my_h_section then enter s my_h_section else enter s other_h_section
check_next_include_order s possible_my_header =
    if within s.section my_h_section then enter s my_h_section else enter s other_h_section
check_next_include_order s other_header = enter s other_h_section
