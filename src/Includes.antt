-- ===== src/Includes.antt =====
-- cpplint.py, #include lines (lines 202-239, 2264-2270, 2317-2444 and 2972-2998): _ClassifyInclude,
-- CheckIncludeLine and UpdateIncludeState.
pub mod Recorded
use mathlib.Core.List.{reverse}
use tpool.Paths.{split_path}
use tpool.Files.{base_name, drop_common_suffixes, is_test_filename, repository_name}
use tpool.IncludeOrder
use tpool.IncludeOrder.{
  HeaderType, IncludeState, Site, at_line, c_sys_header, check_next_include_order, cpp_sys_header,
  described, is_in_alphabetical_order, likely_my_header, other_header, possible_my_header,
}
use tpool.Dict.{get, has, put}
use tpool.Base.{
  Bool, List, Option, [], false, if◌then◌else◌, map, none, not, some, suc, take, true, ℕ, ◌&&◌,
  ◌++◌, ◌||◌, ◌∷◌,
}
use tpool.Text.{Text, decimal, is_empty, join, one_of, same, split_on, starts_with, text}
use tpool.Pattern.Syntax.{
  Pattern, at_end, at_start, char, group, maybe, none_of, nothing, plus, word, ◌>>◌, ◌or◌,
}
use tpool.Pattern.{Found, match_start, matches, occurs, read_group, search_in}
use tpool.Report.{Effect, diagnose, only_if}
use tpool.Cleanse.{cleanse_comments, include_line}
use tpool.Nolint.{noted}

-- _STL_HEADERS and _CPP_HEADERS
unfoldable pub stl_headers : List Text
stl_headers = map text (
    "algobase.h" ∷ "algorithm" ∷ "alloc.h" ∷ "bitset" ∷ "deque" ∷ "exception" ∷ "function.h"
    ∷ "functional" ∷ "hash_map" ∷ "hash_map.h" ∷ "hash_set" ∷ "hash_set.h" ∷ "iterator" ∷ "list"
    ∷ "list.h" ∷ "map" ∷ "memory" ∷ "new" ∷ "pair.h" ∷ "pthread_alloc" ∷ "queue" ∷ "set" ∷ "set.h"
    ∷ "sstream" ∷ "stack" ∷ "stl_alloc.h" ∷ "stl_relops.h" ∷ "type_traits.h" ∷ "utility" ∷ "vector"
    ∷ "vector.h" ∷ [])

unfoldable pub cpp_headers : List Text
cpp_headers = map text (
    "algo.h" ∷ "builtinbuf.h" ∷ "bvector.h" ∷ "cassert" ∷ "cctype" ∷ "cerrno" ∷ "cfloat" ∷ "ciso646"
    ∷ "climits" ∷ "clocale" ∷ "cmath" ∷ "complex" ∷ "complex.h" ∷ "csetjmp" ∷ "csignal" ∷ "cstdarg"
    ∷ "cstddef" ∷ "cstdio" ∷ "cstdlib" ∷ "cstring" ∷ "ctime" ∷ "cwchar" ∷ "cwctype" ∷ "defalloc.h"
    ∷ "deque.h" ∷ "editbuf.h" ∷ "exception" ∷ "fstream" ∷ "fstream.h" ∷ "hashtable.h" ∷ "heap.h"
    ∷ "indstream.h" ∷ "iomanip" ∷ "iomanip.h" ∷ "ios" ∷ "iosfwd" ∷ "iostream" ∷ "iostream.h"
    ∷ "istream" ∷ "istream.h" ∷ "iterator.h" ∷ "limits" ∷ "map.h" ∷ "multimap.h" ∷ "multiset.h"
    ∷ "numeric" ∷ "ostream" ∷ "ostream.h" ∷ "parsestream.h" ∷ "pfstream.h" ∷ "PlotFile.h"
    ∷ "procbuf.h" ∷ "pthread_alloc.h" ∷ "rope" ∷ "rope.h" ∷ "ropeimpl.h" ∷ "SFile.h" ∷ "slist"
    ∷ "slist.h" ∷ "stack.h" ∷ "stdexcept" ∷ "stdiostream.h" ∷ "streambuf.h" ∷ "stream.h"
    ∷ "strfile.h" ∷ "string" ∷ "strstream" ∷ "strstream.h" ∷ "tempbuf.h" ∷ "tree.h" ∷ "typeinfo"
    ∷ "valarray" ∷ [])

-- _RE_PATTERN_INCLUDE_NEW_STYLE and _RE_FIRST_COMPONENT
unfoldable pub include_new_style : Pattern
unfolding word none_of
include_new_style =
    word "#include" >> plus (char b' ') >> char b'"' >> plus (none_of "/") >> word ".h\""

unfoldable pub first_component : Pattern
unfolding none_of
first_component = at_start >> plus (none_of "-_.")

-- os.path.normpath: what `..` does to the components kept so far, the last one first.
unfoldable pub up_one : Bool → List Text → List Text
unfolding same
up_one true [] = []
up_one false [] = text ".." ∷ []
up_one rooted (last ∷ before) = if same last (text "..") then text ".." ∷ last ∷ before else before

unfoldable pub normal_parts : Bool → List Text → List Text → List Text
unfolding same is_empty up_one
normal_parts rooted kept [] = kept
normal_parts rooted kept (comp ∷ rest) =
    let next =
      if is_empty comp || same comp (text ".")
      then kept
      else if same comp (text "..")
      then up_one rooted kept
      else comp ∷ kept in
    normal_parts rooted next rest

-- The slashes that a path begins with: two stay two, three or more are one.
unfoldable pub root_of : Text → Text
unfolding starts_with
root_of path =
    if starts_with path (text "//") && not (starts_with path (text "///"))
    then text "//"
    else if starts_with path (text "/")
    then text "/"
    else []

unfoldable pub normpath : Text → Text
unfolding root_of normal_parts join split_on is_empty
normpath path =
    let root = root_of path in
    let parts = normal_parts (not (is_empty root)) [] (split_on b'/' path) in
    let result = root ++ join (text "/") (reverse parts) in
    if is_empty result then text "." else result

abbrev same_start : Option Found → Option Found → Text → Text → Bool
same_start none b s t = false
same_start (some m) none s t = false
same_start (some m) (some n) s t = same (take m.stop s) (take n.stop t)

-- The two files share the first part of their names.
unfoldable pub same_first_component : Text → Text → Bool
unfolding same match_start first_component
same_first_component s t =
    same_start (match_start first_component s) (match_start first_component t) s t

unfoldable pub is_cpp_header : Text → Bool
unfolding one_of
is_cpp_header include = one_of include stl_headers || one_of include cpp_headers

-- The include lives beside the file, or in the directory `public` next to the file's.
unfoldable pub near : Text → Text → Bool
unfolding same normpath
near target_dir include_dir =
    same include_dir target_dir || same include_dir (normpath (target_dir ++ text "/../public"))

-- _ClassifyInclude, for the file's repository name
unfoldable pub classify_include : Text → Text → Bool → HeaderType
unfolding is_cpp_header near same_first_component split_path drop_common_suffixes
classify_include repository_name include is_system =
    let (target_dir, target_base) = split_path (drop_common_suffixes repository_name) in
    let (include_dir, include_base) = split_path (drop_common_suffixes include) in
    if is_system
    then (if is_cpp_header include then cpp_sys_header else c_sys_header)
    else if same target_base include_base && near target_dir include_dir
    then likely_my_header
    else if same_first_component target_base include_base
    then possible_my_header
    else other_header

-- '%s' % include_state[include]
unfoldable pub show_site : Site → Text
unfolding decimal
show_site (at_line n) = decimal n
show_site (described s) = s

unfoldable pub already_included : Text → ℕ → Text → Site → Effect
unfolding show_site
already_included filename linenum include site = diagnose linenum "build/include" 4 (
    text "\""
    ++ (include ++ (text "\" already included at " ++ (filename ++ (text ":" ++ show_site site)))))

order_report : Text → ℕ → Text → List Effect
unfolding base_name is_empty
order_report repository_name linenum message = only_if (not (is_empty message)) (
    diagnose linenum "build/include_order" 4 (
      message
      ++ (text ". Should be: "
          ++ (base_name repository_name ++ text ".h, c system, c++ system, other.")))
    ∷ [])

alphabet_report : ℕ → Text → Bool → List Effect
alphabet_report linenum include in_order = only_if (not in_order) (
    diagnose linenum "build/include_alpha" 4
      (text "Include \"" ++ (include ++ text "\" not in alphabetical order"))
    ∷ [])

-- An include that the file has not had yet.
unfoldable pub first_include : Text → ℕ → Text → Bool → IncludeState → IncludeState × List Effect
unfolding order_report alphabet_report
first_include repository_name linenum include is_system s =
    let noted = record s { includes = put s.includes include (at_line linenum) } in
    let (ordered, message) =
      IncludeOrder.check_next_include_order noted
        (classify_include repository_name include is_system) in
    let (s', in_order) = IncludeOrder.is_in_alphabetical_order ordered include in
    (s', order_report repository_name linenum message ++ alphabet_report linenum include in_order)

unfoldable pub include_known :
    Text → Text → ℕ → Text → Bool → IncludeState → Option Site → IncludeState × List Effect
unfolding first_include already_included
include_known filename repository_name linenum include is_system s none =
    first_include repository_name linenum include is_system s
include_known filename repository_name linenum include is_system s (some site) =
    (s, already_included filename linenum include site ∷ [])

abbrev pub or_empty : Option Text → Text
or_empty none = []
or_empty (some t) = t

unfoldable pub include_matched :
    Text → Text → ℕ → IncludeState → Option Found → IncludeState × List Effect
unfolding include_known same
include_matched filename repository_name linenum s none = (s, [])
include_matched filename repository_name linenum s (some m) =
    let include = or_empty (read_group 2 m) in
    include_known filename repository_name linenum include
      (same (or_empty (read_group 1 m)) (text "<")) s (get s.includes include)

-- r'(f|ind|io|i|o|parse|pf|stdio|str|)?stream$'
unfoldable pub stream_header : Pattern
unfolding word
stream_header =
    maybe (
      group 1 (
        word "f"
        or word "ind"
        or word "io"
        or word "i"
        or word "o"
        or word "parse"
        or word "pf"
        or word "stdio"
        or word "str"
        or nothing))
    >> word "stream"
    >> at_end

unfoldable pub stream_report : Text → ℕ → Option Found → List Effect
stream_report filename linenum none = []
stream_report filename linenum (some m) =
    only_if (matches stream_header (or_empty (read_group 2 m)) && not (is_test_filename filename))
      (diagnose linenum "readability/streams" 3 (text "Streams are highly discouraged.") ∷ [])

unfoldable pub style_report : Text → ℕ → List Effect
style_report line linenum =
    only_if (occurs include_new_style line)
      (diagnose linenum "build/include" 4 (text "Include the directory when naming .h files") ∷ [])

-- CheckIncludeLine, for a line of the file and the file's repository name
unfoldable pub check_include_line :
    Text → Text → Text → ℕ → IncludeState → IncludeState × List Effect
unfolding style_report include_matched stream_report
check_include_line filename repository_name line linenum s =
    let (s', es) =
      include_matched filename repository_name linenum s (search_in include_line line) in
    (
      s',
      style_report line linenum
          ++ (es ++ stream_report filename linenum (match_start include_line line)),
    )

-- The repository name is asked for only where an include is new, and then not for a system header that
-- comes in its order.
unfoldable pub name_needed : IncludeState → Option Found → Bool
unfolding has same is_empty classify_include
name_needed s none = false
name_needed s (some m) =
    let include = or_empty (read_group 2 m) in
    let is_system = same (or_empty (read_group 1 m)) (text "<") in
    let (ordered, message) =
      IncludeOrder.check_next_include_order s (classify_include [] include true) in
    not (has s.includes include) && (not is_system || not (is_empty message))

-- include_state.setdefault(include, ...)
unfoldable pub set_default : Text → ℕ → Option Found → IncludeState → IncludeState
unfolding has put
set_default filename linenum none s = s
set_default filename linenum (some m) s =
    let include = or_empty (read_group 2 m) in
    if has s.includes include then s else record s {
      includes = put s.includes include (described (filename ++ (text ":" ++ decimal linenum)));
    }

unfoldable pub update_from : Text → ℕ → List Text → IncludeState → IncludeState
unfolding set_default
update_from filename linenum [] s = s
update_from filename linenum (line ∷ lines) s =
    update_from filename (suc linenum) lines
      (set_default filename (suc linenum) (search_in include_line (cleanse_comments line)) s)

-- UpdateIncludeState, for the lines of the header; `none` is a file that cannot be opened.
unfoldable pub update_include_state : Text → Option (List Text) → IncludeState → IncludeState × Bool
unfolding update_from
update_include_state filename none s = (s, false)
update_include_state filename (some lines) s = (update_from filename 0 lines s, true)
