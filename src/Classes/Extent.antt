-- ===== src/Classes/Extent.antt =====
-- Where _ClassInfo takes a class to end.
use tpool.Classes.{check_section_spacing, class_info, find_last_line}
use tpool.Base.{
  Bool-cases, List, [], arith, drop, inl, inr, length, refl, suc, zero, ℕ, ◌+◌, ◌<◌, ◌==◌, ◌∷◌, ◌≡◌,
  ◌≢◌,
}
use tpool.Text.{Text, count_char}
use tpool.Cleanse.{CleansedLines}

-- Opening and closing braces of the first `n` lines.
abbrev pub opened_in : ℕ → List Text → ℕ
opened_in zero ls = 0
opened_in (suc n) [] = 0
opened_in (suc n) (l ∷ ls) = count_char b'{' l + opened_in n ls

abbrev pub closed_in : ℕ → List Text → ℕ
closed_in zero ls = 0
closed_in (suc n) [] = 0
closed_in (suc n) (l ∷ ls) = count_char b'}' l + closed_in n ls

-- The class starts at line `i` of the file, with these lines from there on, and `last` is the answer.
pub data Extent (i : ℕ) (ls : List Text) (opened closed : ℕ) (last : ℕ) : Type 0 where
  unfinished :
      last ≡ 0
      → ((n : ℕ) → n < length ls → opened + opened_in (suc n) ls ≢ closed + closed_in (suc n) ls)
      → Extent i ls opened closed last
  ends_after :
      (n : ℕ)
      → last ≡ i + n
      → n < length ls
      → opened + opened_in (suc n) ls ≡ closed + closed_in (suc n) ls
      → ((m : ℕ) → m < n → opened + opened_in (suc m) ls ≢ closed + closed_in (suc m) ls)
      → Extent i ls opened closed last

module _ (i : ℕ) (l : Text) (ls : List Text) (opened closed : ℕ) where
  abbrev opened' : ℕ
  opened' = opened + count_char b'{' l

  abbrev closed' : ℕ
  closed' = closed + count_char b'}' l

  earlier :
      (bound : ℕ)
      → opened' ≢ closed'
      → ((m : ℕ) → m < bound → opened' + opened_in (suc m) ls ≢ closed' + closed_in (suc m) ls)
      → (m : ℕ) → m < suc bound
      → opened + opened_in (suc m) (l ∷ ls) ≢ closed + closed_in (suc m) (l ∷ ls)
  earlier bound ne later zero lt e = ne (omega arith)
  earlier bound ne later (suc m) lt e = later m (omega arith) (omega arith)

  Extent-cons :
      {last : ℕ}
      → opened' ≢ closed'
      → Extent (suc i) ls opened' closed' last
      → Extent i (l ∷ ls) opened closed last
  Extent-cons ne (unfinished z later) = unfinished z (earlier (length ls) ne later)
  Extent-cons ne (ends_after n e lt even later) =
      ends_after (suc n) (omega arith) (omega arith) (omega arith) (earlier n ne later)

find_last_line-Extent :
    (ls : List Text) (i opened closed : ℕ)
    → Extent i ls opened closed (find_last_line i ls opened closed)
unfolding find_last_line
find_last_line-Extent [] i opened closed = unfinished refl (λ n lt. absurd (omega arith))
find_last_line-Extent (l ∷ ls) i opened closed =
    elim (Bool-cases (opened' i l ls opened closed == closed' i l ls opened closed)) [
      | inl even ↦
          rw even
            (ends_after 0 (omega arith) (omega arith) (ground arith) (λ m lt. absurd (omega arith)))
      | inr odd ↦ rw odd (
          Extent-cons i l ls opened closed (λ e. ground arith)
            (find_last_line-Extent ls (suc i) _ _))
    ]

-- The last line of a class is the first line from its head on by whose end as many braces have been
-- closed as opened, and 0 if there is none.
pub class_info-Extent :
    (name : Text) (clean_lines : CleansedLines) (linenum : ℕ)
    → Extent linenum
        (drop linenum clean_lines.lines)
        0
        0
        (class_info name clean_lines linenum).last_line
unfolding class_info
class_info-Extent name clean_lines linenum =
    find_last_line-Extent (drop linenum clean_lines.lines) linenum 0 0

-- A class whose head line holds as many opening as closing braces, such as one whose `{` stands on a
-- later line, is taken to end on its head line, and CheckSectionSpacing reports nothing of it.
pub check_section_spacing_skips :
    (name line : Text) (rest : List Text) (clean_lines : CleansedLines) (linenum at_line : ℕ)
    → drop linenum clean_lines.lines ≡ line ∷ rest
    → count_char b'{' line ≡ count_char b'}' line
    → ((class_info name clean_lines linenum).last_line ≡ linenum)
      × (check_section_spacing clean_lines (class_info name clean_lines linenum) at_line ≡ [])
unfolding class_info check_section_spacing
check_section_spacing_skips name line rest clean_lines linenum at_line there even =
    let last : find_last_line linenum (drop linenum clean_lines.lines) 0 0 ≡ linenum =
      rw there (unfold find_last_line in ground arith) in
    (last, rw last (ground arith))
