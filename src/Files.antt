-- ===== src/Files.antt =====
-- cpplint.py, names of files: class FileInfo (lines 675-762), _DropCommonSuffixes, _IsTestFilename
-- (2273-2314) and FilesBelongToSameModule (2917-2969).
pub mod Repository
pub mod Modules
use tpool.Paths.{FileSystem, common_prefix, dirname, join_path, split_path, splitext}
use tpool.Base.{
  Bool, List, Option, String, [], drop, false, get_or, if◌then◌else◌, length, ltb, map, none, not,
  some, suc, true, zero, ℕ, ◌&&◌, ◌++◌, ◌+◌, ◌-◌, ◌==◌, ◌||◌, ◌∷◌,
}
use tpool.Text.{Text, drop_last, ends_with, is_empty, one_of, replace, same, text}

-- FileInfo.FullName: the separators of Windows become slashes.
unfoldable pub full_name : FileSystem → Text → Text
full_name fs filename = map (λ c. if c == b'\\' then b'/' else c) (fs.abspath filename)

-- os.path.exists(os.path.join(dir, name))
abbrev pub holds : FileSystem → Text → String → Bool
holds fs dir name = fs.exists (join_path dir (text name))

-- The loop up an old Subversion checkout; `none` is a loop that has not ended within the fuel.
unfoldable pub svn_root : FileSystem → ℕ → Text → Text → Option Text
svn_root fs zero root_dir one_up_dir = none
svn_root fs (suc fuel) root_dir one_up_dir =
    let above = svn_root fs fuel (dirname root_dir) (dirname one_up_dir) in
    if holds fs one_up_dir ".svn" then above else some root_dir

unfoldable pub is_checkout : FileSystem → Text → Bool
is_checkout fs dir = holds fs dir ".git" || (holds fs dir ".hg" || holds fs dir ".svn")

-- The loop up to a directory that holds a checkout, or to the top.
unfoldable pub checkout_root : FileSystem → ℕ → Text → Option Text
unfolding is_checkout same
checkout_root fs zero root_dir = none
checkout_root fs (suc fuel) root_dir =
    let above = checkout_root fs fuel (dirname root_dir) in
    if not (same root_dir (dirname root_dir)) && not (is_checkout fs root_dir)
    then above
    else some root_dir

-- fullname[len(prefix) + 1:], for the prefix that the root and the file's directory share
below_root : Text → Text → Text → Text
unfolding common_prefix
below_root fullname project_dir root_dir =
    drop (length (common_prefix root_dir project_dir) + 1) fullname

below_svn : Text → Text → Option Text → Option Text
unfolding below_root
below_svn fullname project_dir none = none
below_svn fullname project_dir (some root_dir) = some (below_root fullname project_dir root_dir)

below_checkout : FileSystem → Text → Text → Option Text → Option Text
unfolding below_root is_checkout
below_checkout fs fullname project_dir none = none
below_checkout fs fullname project_dir (some root_dir) =
    some (if is_checkout fs root_dir then below_root fullname project_dir root_dir else fullname)

-- FileInfo.RepositoryName; the fuel bounds the rounds of either loop.
unfoldable pub repository_name : FileSystem → ℕ → Text → Option Text
unfolding full_name svn_root checkout_root below_svn below_checkout
repository_name fs fuel filename =
    let fullname = full_name fs filename in
    let project_dir = dirname fullname in
    if fs.exists fullname
    then (if holds fs project_dir ".svn"
        then below_svn fullname project_dir (svn_root fs fuel project_dir (dirname project_dir))
        else below_checkout fs fullname project_dir (checkout_root fs fuel project_dir))
    else some fullname

-- FileInfo.Split and what is made of it, from the repository name.
unfoldable pub split_name : Text → Text × Text × Text
unfolding split_path splitext
split_name googlename =
    let (project, rest) = split_path googlename in
    let (base, extension) = splitext rest in (project, base, extension)

unfoldable pub base_name : Text → Text
unfolding split_name
base_name googlename = (split_name googlename).1

unfoldable pub extension : Text → Text
unfolding split_name
extension googlename = (split_name googlename).2

unfoldable pub no_extension : Text → Text
unfolding split_name
no_extension googlename =
    let (project, base, ext) = split_name googlename in project ++ (b'/' ∷ base)

unfoldable pub is_source : Text → Bool
unfolding extension one_of
is_source googlename =
    one_of (drop 1 (extension googlename)) (map text ("c" ∷ "cc" ∷ "cpp" ∷ "cxx" ∷ []))

-- The suffixes that _DropCommonSuffixes tries, in order.
abbrev common_suffixes : List Text
common_suffixes =
    map text ("test.cc" ∷ "regtest.cc" ∷ "unittest.cc" ∷ "inl.h" ∷ "impl.h" ∷ "internal.h" ∷ [])

-- filename[-n - 1] in ('-', '_'), for n below the length
unfoldable pub parted : ℕ → Text → Bool
parted n filename = let c = get_or filename (length filename - n - 1) 0 in c == b'-' || c == b'_'

unfoldable pub has_suffix : Text → Text → Bool
unfolding ends_with parted
has_suffix filename suffix =
    ends_with filename suffix
    && (ltb (length suffix) (length filename) && parted (length suffix) filename)

unfoldable pub drop_suffix : List Text → Text → Text
unfolding has_suffix drop_last splitext
drop_suffix [] filename = (splitext filename).0
drop_suffix (suffix ∷ rest) filename =
    if has_suffix filename suffix
    then drop_last (length suffix + 1) filename
    else drop_suffix rest filename

unfoldable pub drop_common_suffixes : Text → Text
unfolding drop_suffix
drop_common_suffixes filename = drop_suffix common_suffixes filename

unfoldable pub is_test_filename : Text → Bool
unfolding ends_with
is_test_filename filename =
    ends_with filename (text "_test.cc")
    || (ends_with filename (text "_unittest.cc") || ends_with filename (text "_regtest.cc"))

-- if name.endswith(suffix): name = name[:-len(suffix)]
unfoldable pub without_suffix : Text → Text → Text
unfolding ends_with drop_last
without_suffix name suffix = if ends_with name suffix then drop_last (length suffix) name else name

abbrev same_level_dirs : Text → Text
same_level_dirs name =
    replace (replace name (text "/public/") (text "/")) (text "/internal/") (text "/")

unfoldable pub module_of_cc : Text → Text
unfolding without_suffix
module_of_cc stem = same_level_dirs (
    if ends_with stem (text "_unittest")
    then without_suffix stem (text "_unittest")
    else without_suffix stem (text "_test"))

unfoldable pub module_of_h : Text → Text
unfolding without_suffix
module_of_h stem = same_level_dirs (without_suffix stem (text "-inl"))

-- filename_cc[:-len(filename_h)], which is empty where filename_h is
unfoldable pub common_path : Text → Text → Text
common_path cc h = if is_empty h then [] else drop_last (length h) cc

unfoldable pub files_belong_to_same_module : Text → Text → Bool × Text
unfolding module_of_cc module_of_h common_path ends_with
files_belong_to_same_module filename_cc filename_h =
    if not (ends_with filename_cc (text ".cc"))
    then (false, [])
    else if not (ends_with filename_h (text ".h"))
    then (false, [])
    else let cc = module_of_cc (drop_last 3 filename_cc) in
      let h = module_of_h (drop_last 2 filename_h) in
      if ends_with cc h then (true, common_path cc h) else (false, [])
