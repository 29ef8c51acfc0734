-- ===== src/Tests/Names.antt =====
-- Runs of what reads the names of files, and its theorems on small trees.
use tpool.Base.{List, [], arith, false, length, none, refl, some, true, ◌++◌, ◌<◌, ◌↔◌, ◌∷◌, ◌≡◌}
use tpool.Files.{files_belong_to_same_module, module_of_cc, module_of_h, repository_name}
use tpool.Files.Modules.{files_belong_to_same_module_iff}
use tpool.Files.Repository.{Root, checkout_root_lem, repository_name_diverges}
use tpool.HeaderGuard.{argument_of, check_for_header_guard, endif_text, is_text}
use tpool.HeaderGuard.Exact.{check_for_header_guard_iff, first_argument, last_endif}
use tpool.Paths.{FileSystem}
use tpool.Text.{Text, is_empty, replace, same, split_words, starts_with, text}

abbrev guarded : List Text
guarded = text "#ifndef A_H_" ∷ text "#define A_H_" ∷ text "#endif  // A_H_" ∷ []

guarded_passes : check_for_header_guard (text "A_H_") guarded ≡ []
unfolding check_for_header_guard starts_with text argument_of split_words is_text
guarded_passes = refl

check_for_header_guard_iff_example : (check_for_header_guard (text "A_H_") guarded ≡ []) ↔ (
    (first_argument (text "#ifndef") guarded ≡ some (text "A_H_"))
    × (first_argument (text "#define") guarded ≡ some (text "A_H_"))
    × (last_endif guarded ≡ some (endif_text (text "A_H_"))))
check_for_header_guard_iff_example = check_for_header_guard_iff (text "A_H_") guarded

abbrev one_checkout : FileSystem
one_checkout = record { abspath = λ p. p; exists = λ p. same p (text "/a/.git") }

short_enough : length (text "/a/b/c") < 10
unfolding text
short_enough = omega arith

checkout_root_lem_example : Root one_checkout 10 (text "/a/b/c")
checkout_root_lem_example = checkout_root_lem one_checkout 10 (text "/a/b/c") short_enough

abbrev all_svn : FileSystem
all_svn = record { abspath = λ p. p; exists = λ p. true }

repository_name_diverges_example : repository_name all_svn 100 (text "/a/b.cc") ≡ none
repository_name_diverges_example =
    repository_name_diverges all_svn (text "/a/b.cc") refl (λ n. refl) 100

header_named : is_empty (module_of_h (text "a/b-inl")) ≡ false
unfolding module_of_h is_empty replace text
header_named = refl

files_belong_to_same_module_iff_example :
    (files_belong_to_same_module (text "x/a/b_test" ++ text ".cc") (text "a/b-inl" ++ text ".h")
      ≡ (true, text "x/"))
    ↔ (module_of_cc (text "x/a/b_test") ≡ text "x/" ++ module_of_h (text "a/b-inl"))
files_belong_to_same_module_iff_example =
    files_belong_to_same_module_iff (text "x/a/b_test") (text "a/b-inl") (text "x/") header_named
