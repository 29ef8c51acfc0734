-- ===== src/Arguments/Usage.antt =====
-- cpplint.py, PrintUsage and PrintCategories: what the program writes to stderr and how it exits
-- when it looks at no file.
use tpool.Base.{List, Option, [], if◌then◌else◌, map, none, some, ℕ, ◌++◌, ◌∷◌}
use tpool.Text.{Text, is_empty, text}
use tpool.Nolint.{error_categories}
use tpool.Arguments.{Parsed, categories, files, usage, value_error}

-- sys.exit with a status, or with a message, which is written and gives the status 1.
pub data Exit : Type 0 where
  status : ℕ → Exit
  message : Text → Exit

pub record Leaving : Type 0 where
  pub stderr : Text
  pub exit : Exit

abbrev newline : Text
newline = b'\n' ∷ []

abbrev pub unlines : List Text → Text
unlines [] = []
unlines (l ∷ ls) = l ++ (newline ++ unlines ls)

unfoldable pub usage_lines : List Text
usage_lines =
    []
    ∷ text "Syntax: cpplint.py [--verbose=#] [--output=vs7] [--filter=-x,+y,...]"
    ∷ text "                   [--counting=total|toplevel|detailed]"
    ∷ text "        <file> [file] ..."
    ∷ []
    ∷ text "  The style guidelines this tries to follow are those in"
    ∷ text "    http://google-styleguide.googlecode.com/svn/trunk/cppguide.xml"
    ∷ []
    ∷ text "  Every problem is given a confidence score from 1-5, with 5 meaning we are"
    ∷ text "  certain of the problem, and 1 meaning it could be a legitimate construct."
    ∷ text "  This will miss some errors, and is not a substitute for a code review."
    ∷ []
    ∷ text "  To suppress false-positive errors of a certain category, add a"
    ∷ text "  'NOLINT(category)' comment to the line.  NOLINT or NOLINT(*)"
    ∷ text "  suppresses errors of all categories on that line."
    ∷ []
    ∷ text "  The files passed in will be linted; at least one file must be provided."
    ∷ text "  Linted extensions are .cc, .cpp, and .h.  Other file types will be ignored."
    ∷ []
    ∷ text "  Flags:"
    ∷ []
    ∷ text "    output=vs7"
    ∷ text "      By default, the output is formatted to ease emacs parsing.  Visual Studio"
    ∷ text "      compatible output (vs7) may also be used.  Other formats are unsupported."
    ∷ []
    ∷ text "    verbose=#"
    ∷ text "      Specify a number 0-5 to restrict errors to certain verbosity levels."
    ∷ []
    ∷ text "    filter=-x,+y,..."
    ∷ text "      Specify a comma-separated list of category-filters to apply: only"
    ∷ text "      error messages whose category names pass the filters will be printed."
    ∷ text "      (Category names are printed with the message and look like"
    ∷ text "      \"[whitespace/indent]\".)  Filters are evaluated left to right."
    ∷ text "      \"-FOO\" and \"FOO\" means \"do not print categories that start with FOO\"."
    ∷ text "      \"+FOO\" means \"do print categories that start with FOO\"."
    ∷ []
    ∷ text "      Examples: --filter=-whitespace,+whitespace/braces"
    ∷ text "                --filter=whitespace,runtime/printf,+runtime/printf_format"
    ∷ text "                --filter=-,+build/include_what_you_use"
    ∷ []
    ∷ text "      To see a list of all the categories used in cpplint, pass no arg:"
    ∷ text "         --filter="
    ∷ []
    ∷ text "    counting=total|toplevel|detailed"
    ∷ text "      The total number of errors found is always printed. If"
    ∷ text "      'toplevel' is provided, then the count of errors in each of"
    ∷ text "      the top-level categories like 'build' and 'whitespace' will"
    ∷ text "      also be printed. If 'detailed' is provided, then a count"
    ∷ text "      is provided for each category like 'build/class'."
    ∷ []

unfoldable pub print_usage : Option Text → Leaving
print_usage none = record { stderr = unlines usage_lines; exit = status 1 }
print_usage (some problem) = record {
  stderr = unlines usage_lines;
  exit =
      (if is_empty problem
        then status 1
        else message (newline ++ (text "FATAL ERROR: " ++ problem)));
}

unfoldable pub category_line : Text → Text
category_line cat = text "  " ++ cat

unfoldable pub print_categories : Leaving
print_categories = record { stderr = unlines (map category_line error_categories); exit = status 0 }

-- How ParseArguments leaves the program; none where it goes on to the files, and where int raises.
unfoldable pub leave : Parsed → Option Leaving
leave (files s names) = none
leave (usage problem) = some (print_usage problem)
leave categories = some print_categories
leave (value_error val) = none
