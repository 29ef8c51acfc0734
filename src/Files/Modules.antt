-- ===== src/Files/Modules.antt =====
-- FilesBelongToSameModule: what the answers mean.
use tpool.Files.{common_path, files_belong_to_same_module, module_of_cc, module_of_h}
use tpool.Base.{Bool, [], arith, false, if◌then◌else◌, true, ◌++◌, ◌↔◌, ◌≡◌}
use tpool.Text.{Text, drop_last, ends_with, is_empty, text}
use tpool.Text.Laws.{drop_last-append, ends_with-append, ends_with-splits}

stem_cc : (s : Text) → drop_last 3 (s ++ text ".cc") ≡ s
unfolding text
stem_cc s = drop_last-append s (text ".cc")

stem_h : (s : Text) → drop_last 2 (s ++ text ".h") ≡ s
unfolding text
stem_h s = drop_last-append s (text ".h")

-- What is left of the function for two names with the right endings.
compared : Text → Text → Bool × Text
compared cc h = if ends_with cc h then (true, common_path cc h) else (false, [])

files_belong_to_same_module-compared :
    (cc h : Text)
    → files_belong_to_same_module (cc ++ text ".cc") (h ++ text ".h")
      ≡ compared (module_of_cc cc) (module_of_h h)
unfolding files_belong_to_same_module compared
files_belong_to_same_module-compared cc h =
    rw (ends_with-append cc (text ".cc"), ends_with-append h (text ".h"), stem_cc cc, stem_h h)

compared-prefix : (h p : Text) → is_empty h ≡ false → compared (p ++ h) h ≡ (true, p)
unfolding compared common_path
compared-prefix h p ne = rw (ends_with-append p h, ne, drop_last-append p h)

compared-splits : (cc h p : Text) → is_empty h ≡ false → compared cc h ≡ (true, p) → cc ≡ p ++ h
unfolding compared common_path
compared-splits cc h p ne e = ground (arith, ends_with-splits cc h)

-- For a `.cc` and a `.h` file whose header reduces to a name that is not empty: the two belong to
-- one module, with the prefix `p` to the header, exactly when the `.cc` file reduces to `p` followed
-- by the header's name.
pub files_belong_to_same_module_iff :
    (cc h p : Text)
    → is_empty (module_of_h h) ≡ false
    → (files_belong_to_same_module (cc ++ text ".cc") (h ++ text ".h") ≡ (true, p))
      ↔ (module_of_cc cc ≡ p ++ module_of_h h)
files_belong_to_same_module_iff cc h p ne = rw (files_belong_to_same_module-compared cc h) (
  compared-splits (module_of_cc cc) (module_of_h h) p ne,
  λ e. rw e (compared-prefix (module_of_h h) p ne),
)
