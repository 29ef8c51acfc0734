-- ===== src/IncludeOrder/Sections.antt =====
-- The order of the sections: which include lists CheckNextIncludeOrder accepts.
use tpool.Base.{
  Bool, List, [], all, arith, false, refl, subst, true, ◌&&◌, ◌++◌, ◌<◌, ◌↔◌, ◌∷◌, ◌≡◌, ◌≤◌, ◌⊎◌,
}
use tpool.Text.{is_empty, text}
use tpool.IncludeOrder.{
  HeaderType, IncludeState, c_sys_header, check_next_include_order, cpp_sys_header, init,
  likely_my_header, number, other_header, possible_my_header, refuse,
}
use mathlib.Core.Path.{subst}
use tpool.IncludeOrder.Arranged.{
  Arranged, Arranged-mine, Arranged-nil, cons_c, cons_cpp, cons_late, is_c, is_cpp, is_late,
  is_mine,
}

-- The section never moves back.
pub number-check_next_include_order :
    (s : IncludeState) (t : HeaderType)
    → number s.section ≤ number (check_next_include_order s t).0.section
unfolding check_next_include_order number
number-check_next_include_order s c_sys_header = ground arith
number-check_next_include_order s cpp_sys_header = ground arith
number-check_next_include_order s _ = ground arith

-- No call of CheckNextIncludeOrder for these headers, in turn, returns a message.
unfoldable pub accepts : IncludeState → List HeaderType → Bool
accepts s [] = true
accepts s (t ∷ ts) =
    let (s', message) = check_next_include_order s t in is_empty message && accepts s' ts

-- A refusal is a message.
is_empty-refuse : (s : IncludeState) (t : HeaderType) → is_empty (refuse s t).1 ≡ false
unfolding is_empty text
is_empty-refuse s t = refl

-- From here on a list is read from the section that the state is in.
accepts-late :
    (os : List HeaderType) (s : IncludeState) → all is_late os ≡ true → accepts s os ≡ true
unfolding accepts check_next_include_order is_empty
accepts-late [] s h = refl
accepts-late (likely_my_header ∷ os) s h =
    ground (arith, accepts-late os (check_next_include_order s likely_my_header).0)
accepts-late (possible_my_header ∷ os) s h =
    ground (arith, accepts-late os (check_next_include_order s possible_my_header).0)
accepts-late (other_header ∷ os) s h =
    ground (arith, accepts-late os (check_next_include_order s other_header).0)
accepts-late (_ ∷ os) s h = cc

accepts-cpp :
    (ps os : List HeaderType) (s : IncludeState)
    → number s.section ≤ 3
    → all is_cpp ps ≡ true
    → all is_late os ≡ true
    → accepts s (ps ++ os) ≡ true
unfolding accepts check_next_include_order is_empty number
accepts-cpp [] os s n h l = accepts-late os s l
accepts-cpp (cpp_sys_header ∷ ps) os s n h l =
    ground (arith, accepts-cpp ps os (check_next_include_order s cpp_sys_header).0)
accepts-cpp (_ ∷ ps) os s n h l = cc

accepts-c :
    (cs ps os : List HeaderType) (s : IncludeState)
    → number s.section ≤ 2
    → all is_c cs ≡ true
    → all is_cpp ps ≡ true
    → all is_late os ≡ true
    → accepts s (cs ++ (ps ++ os)) ≡ true
unfolding accepts check_next_include_order is_empty number
accepts-c [] ps os s n h p l = accepts-cpp ps os s (omega arith) p l
accepts-c (c_sys_header ∷ cs) ps os s n h p l =
    ground (arith, accepts-c cs ps os (check_next_include_order s c_sys_header).0)
accepts-c (_ ∷ cs) ps os s n h p l = cc

accepts-mine :
    (ms cs ps os : List HeaderType) (s : IncludeState)
    → number s.section ≤ 1
    → all is_mine ms ≡ true
    → all is_c cs ≡ true
    → all is_cpp ps ≡ true
    → all is_late os ≡ true
    → accepts s (ms ++ (cs ++ (ps ++ os))) ≡ true
unfolding accepts check_next_include_order is_empty number
accepts-mine [] cs ps os s n h c p l = accepts-c cs ps os s (omega arith) c p l
accepts-mine (likely_my_header ∷ ms) cs ps os s n h c p l =
    ground (arith, accepts-mine ms cs ps os (check_next_include_order s likely_my_header).0)
accepts-mine (possible_my_header ∷ ms) cs ps os s n h c p l =
    ground (arith, accepts-mine ms cs ps os (check_next_include_order s possible_my_header).0)
accepts-mine (_ ∷ ms) cs ps os s n h c p l = cc

-- What one accepted header says: the section it leads to, and that the rest is accepted there.
module _ (ts : List HeaderType) (s : IncludeState) where
  step_c :
      accepts s (c_sys_header ∷ ts) ≡ true
      → (number s.section ≤ 2)
        × (number (check_next_include_order s c_sys_header).0.section ≡ 2)
        × (accepts (check_next_include_order s c_sys_header).0 ts ≡ true)
  unfolding accepts check_next_include_order is_empty number
  step_c h = ground (arith, is_empty-refuse s c_sys_header)

  step_cpp :
      accepts s (cpp_sys_header ∷ ts) ≡ true
      → (number s.section ≤ 3)
        × (number (check_next_include_order s cpp_sys_header).0.section ≡ 3)
        × (accepts (check_next_include_order s cpp_sys_header).0 ts ≡ true)
  unfolding accepts check_next_include_order is_empty number
  step_cpp h = ground (arith, is_empty-refuse s cpp_sys_header)

  step_mine :
      (t : HeaderType)
      → is_mine t ≡ true
      → accepts s (t ∷ ts) ≡ true
      → (((number s.section ≤ 1) × (number (check_next_include_order s t).0.section ≡ 1))
          ⊎ (number (check_next_include_order s t).0.section ≡ 4))
        × (accepts (check_next_include_order s t).0 ts ≡ true)
  unfolding accepts check_next_include_order is_empty number
  step_mine likely_my_header m h = ground arith
  step_mine possible_my_header m h = ground arith
  step_mine _ m h = cc

  step_other :
      accepts s (other_header ∷ ts) ≡ true
      → (number (check_next_include_order s other_header).0.section ≡ 4)
        × (accepts (check_next_include_order s other_header).0 ts ≡ true)
  unfolding accepts check_next_include_order is_empty number
  step_other h = ground arith

accepts-Arranged :
    (hs : List HeaderType) (s : IncludeState) → accepts s hs ≡ true → Arranged (number s.section) hs
accepts-Arranged [] s h = Arranged-nil (number s.section)
accepts-Arranged (c_sys_header ∷ ts) s h =
    let (b, e, rest) = step_c ts s h in
    cons_c b (subst (λ j. Arranged j ts) e (accepts-Arranged ts _ rest))
accepts-Arranged (cpp_sys_header ∷ ts) s h =
    let (b, e, rest) = step_cpp ts s h in
    cons_cpp b (subst (λ j. Arranged j ts) e (accepts-Arranged ts _ rest))
accepts-Arranged (likely_my_header ∷ ts) s h =
    let (e, rest) = step_mine ts s likely_my_header refl h in
    Arranged-mine likely_my_header refl refl e (accepts-Arranged ts _ rest)
accepts-Arranged (possible_my_header ∷ ts) s h =
    let (e, rest) = step_mine ts s possible_my_header refl h in
    Arranged-mine possible_my_header refl refl e (accepts-Arranged ts _ rest)
accepts-Arranged (other_header ∷ ts) s h =
    let (e, rest) = step_other ts s h in
    cons_late other_header refl (subst (λ j. Arranged j ts) e (accepts-Arranged ts _ rest))

-- From a new state the calls for a list of headers return no message exactly when the list is
-- own headers, then C system headers, then C++ system headers, then other headers and own headers
-- in any order.
pub accepts_iff : (hs : List HeaderType) → (accepts init hs ≡ true) ↔ Arranged 0 hs
accepts_iff hs = (accepted, arranged)
  where
    accepted : accepts init hs ≡ true → Arranged 0 hs
    accepted h = unfold number in accepts-Arranged hs init h

    arranged : Arranged 0 hs → accepts init hs ≡ true
    arranged a = rw (a.splits) (
        accepts-mine a.mine a.c a.cpp a.late init (unfold number in omega arith) a.all_mine a.all_c
          a.all_cpp a.all_late)

-- A refused header leaves the section and the includes as they were, forgets the last header, and
-- is a system header that comes after a section beyond its own.
pub check_next_include_order_refused :
    (s : IncludeState) (t : HeaderType)
    → is_empty (check_next_include_order s t).1 ≡ false
    → ((check_next_include_order s t).0 ≡ record s { last_header = [] })
      × (((t ≡ c_sys_header) × (2 < number s.section))
          ⊎ ((t ≡ cpp_sys_header) × (3 < number s.section)))
unfolding check_next_include_order is_empty number
check_next_include_order_refused s c_sys_header h = ground arith
check_next_include_order_refused s cpp_sys_header h = ground arith
check_next_include_order_refused s likely_my_header h = ground arith
check_next_include_order_refused s possible_my_header h = ground arith
check_next_include_order_refused s other_header h = ground arith
