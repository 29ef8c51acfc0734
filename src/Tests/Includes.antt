-- ===== src/Tests/Includes.antt =====
-- Runs of the include checks, and their theorems on small include lists.
use tpool.IncludeOrder.Arranged.{Arranged}
use tpool.Base.{List, [], false, none, refl, some, true, ◌↔◌, ◌∷◌, ◌≡◌}
use tpool.Dict.{get}
use tpool.IncludeOrder.{
  HeaderType, IncludeState, at_line, c_section, c_sys_header, canonicalize_alphabetical_order,
  check_next_include_order, cpp_section, cpp_sys_header, init, is_in_alphabetical_order,
  likely_my_header, number, other_header,
}
use tpool.IncludeOrder.Sections.{accepts, accepts_iff}
use tpool.Includes.{or_empty}
use tpool.Pattern.{Found, read_group}
use tpool.Text.{Text, is_empty, same, text}
use tpool.IncludeOrder

abbrev includes_in_order : List HeaderType
includes_in_order = likely_my_header ∷ c_sys_header ∷ cpp_sys_header ∷ other_header ∷ []

accepts_iff_example :
    (accepts IncludeOrder.init includes_in_order ≡ true) ↔ Arranged 0 includes_in_order
accepts_iff_example = accepts_iff includes_in_order

abbrev past_c : IncludeState
past_c = record { includes = []; section = cpp_section; last_header = text "map" }

refused_c : is_empty (check_next_include_order past_c c_sys_header).1 ≡ false
unfolding check_next_include_order is_empty text
refused_c = refl

abbrev two_headers : List Text
two_headers = text "a.h" ∷ text "b-inl.h" ∷ []

abbrev include_read : Found
include_read = record {
  start = 0;
  stop = 14;
  groups = (2, text "b.h") ∷ (1, text "\"") ∷ [];
  starts = (2, 10) ∷ (1, 9) ∷ [];
}

include_new : get IncludeOrder.init.includes (or_empty (read_group 2 include_read)) ≡ none
unfolding get
include_new = refl

abbrev one_include : IncludeState
one_include = record {
  includes = (text "b.h", at_line 4) ∷ [];
  section = c_section;
  last_header = [];
}

abbrev header_lines : List Text
header_lines = text "#include \"b.h\"" ∷ text "#include <map>" ∷ []

b_there : get one_include.includes (text "b.h") ≡ some (at_line 4)
unfolding get same text
b_there = refl
