-- ===== src/Includes/Recorded.antt =====
-- What the include dictionary remembers.
use tpool.Includes.{
  already_included, classify_include, first_include, include_known, include_matched, or_empty,
  set_default, update_from, update_include_state,
}
use tpool.IncludeOrder
use tpool.IncludeOrder.{
  HeaderType, IncludeState, Site, at_line, c_sys_header, check_next_include_order, cpp_sys_header,
  described, is_in_alphabetical_order,
}
use tpool.Cleanse.{cleanse_comments, include_line}
use tpool.Dict.{get, get-put-new, get-put-same, has, put}
use tpool.Base.{
  Bool, List, Option, [], ap, arith, false, if◌then◌else◌, none, refl, some, suc, true, ℕ, ◌++◌,
  ◌∙◌, ◌∷◌, ◌≡◌,
}
use tpool.Text.{Text, decimal, same, text}
use tpool.Pattern.{Found, read_group, search_in}

includes-check_next_include_order :
    (s : IncludeState) (t : HeaderType)
    → (IncludeOrder.check_next_include_order s t).0.includes ≡ s.includes
unfolding IncludeOrder.check_next_include_order
includes-check_next_include_order s c_sys_header = ground arith
includes-check_next_include_order s cpp_sys_header = ground arith
includes-check_next_include_order s _ = ground arith

includes-is_in_alphabetical_order :
    (s : IncludeState) (path : Text)
    → (IncludeOrder.is_in_alphabetical_order s path).0.includes ≡ s.includes
unfolding IncludeOrder.is_in_alphabetical_order
includes-is_in_alphabetical_order s path = ground arith

-- A new include is written down with its line, and nothing else of the dictionary changes.
includes-first_include :
    (repo : Text) (n : ℕ) (include : Text) (is_system : Bool) (s : IncludeState)
    → (first_include repo n include is_system s).0.includes ≡ put s.includes include (at_line n)
unfolding first_include
includes-first_include repo n include is_system s =
    includes-is_in_alphabetical_order _ include
    ∙ includes-check_next_include_order (record s { includes = put s.includes include (at_line n) })
        (classify_include repo include is_system)

include_matched_known :
    (filename repo : Text) (n : ℕ) (s : IncludeState) (m : Found) (site : Site)
    → get s.includes (or_empty (read_group 2 m)) ≡ some site
    → include_matched filename repo n s (some m)
      ≡ (s, already_included filename n (or_empty (read_group 2 m)) site ∷ [])
unfolding include_matched
include_matched_known filename repo n s m site h = rw (h, include_known)

include_matched_new :
    (filename repo : Text) (n : ℕ) (s : IncludeState) (m : Found)
    → get s.includes (or_empty (read_group 2 m)) ≡ none
    → include_matched filename repo n s (some m)
      ≡ first_include repo n
          (or_empty (read_group 2 m))
          (same (or_empty (read_group 1 m)) (text "<"))
          s
unfolding include_matched
include_matched_new filename repo n s m h = rw (h, include_known)

-- An include that the dictionary lacks at line `n`, and that comes again at line `k`: the second time
-- there is exactly one report, which names line `n`, and the state stays as it is.
pub include_matched_twice :
    (filename repo : Text) (n k : ℕ) (s : IncludeState) (m : Found)
    → get s.includes (or_empty (read_group 2 m)) ≡ none
    → let s' = (include_matched filename repo n s (some m)).0 in
      include_matched filename repo k s' (some m)
      ≡ (s', already_included filename k (or_empty (read_group 2 m)) (at_line n) ∷ [])
include_matched_twice filename repo n k s m new = rw (
  include_matched_new filename repo n s m new,
  include_matched_known filename repo k (first_include repo n inc sys s).0 m (at_line n) noted,
)
  where
    inc : Text
    inc = or_empty (read_group 2 m)

    sys : Bool
    sys = same (or_empty (read_group 1 m)) (text "<")

    noted : get (first_include repo n inc sys s).0.includes inc ≡ some (at_line n)
    noted =
        ap (λ d. get d inc) (includes-first_include repo n inc sys s)
        ∙ get-put-same s.includes inc (at_line n)

-- What UpdateIncludeState promises of the state for an entry that was there.
abbrev pub Keeps : IncludeState → IncludeState → Text → Site → Type 0
Keeps s s' key site =
    (get s'.includes key ≡ some site) × (s'.section ≡ s.section) × (s'.last_header ≡ s.last_header)

set_default-Keeps :
    (filename : Text) (n : ℕ) (m : Option Found) (s : IncludeState) (key : Text) (site : Site)
    → get s.includes key ≡ some site
    → Keeps s (set_default filename n m s) key site
unfolding set_default
set_default-Keeps filename n none s key site h = (h, refl, refl)
set_default-Keeps filename n (some m) s key site h =
    elim (has s.includes (or_empty (read_group 2 m)))
        as (λ t.
          has s.includes (or_empty (read_group 2 m)) ≡ t
          → Keeps s
              (if t then s else record s {
                includes =
                    put s.includes (or_empty (read_group 2 m))
                      (described (filename ++ (text ":" ++ decimal n)));
              })
              key site) [
                | true ↦ λ e. (h, refl, refl)
                | false ↦
                    λ e. (get-put-new s.includes (or_empty (read_group 2 m)) key _ e h, refl, refl)
              ]
      refl

update_from-Keeps :
    (filename : Text) (n : ℕ) (lines : List Text) (s : IncludeState) (key : Text) (site : Site)
    → get s.includes key ≡ some site
    → Keeps s (update_from filename n lines s) key site
unfolding update_from
update_from-Keeps filename n [] s key site h = (h, refl, refl)
update_from-Keeps filename n (l ∷ ls) s key site h =
    let m = search_in include_line (cleanse_comments l) in
    let (there, sec, last) = set_default-Keeps filename (suc n) m s key site h in
    let (there', sec', last') =
      update_from-Keeps filename (suc n) ls (set_default filename (suc n) m s) key site there in
    (there', sec' ∙ sec, last' ∙ last)

-- UpdateIncludeState keeps every entry of the dictionary that was there before, and the section and
-- the last header.
pub update_include_state-Keeps :
    (filename : Text) (lines : Option (List Text)) (s : IncludeState) (key : Text) (site : Site)
    → get s.includes key ≡ some site
    → let s' = (update_include_state filename lines s).0 in Keeps s s' key site
unfolding update_include_state
update_include_state-Keeps filename none s key site h = (h, refl, refl)
update_include_state-Keeps filename (some lines) s key site h =
    update_from-Keeps filename 0 lines s key site h
