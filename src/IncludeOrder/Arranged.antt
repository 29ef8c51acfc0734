-- ===== src/IncludeOrder/Arranged.antt =====
-- Include lists in the order that the style asks for, and how such a list grows at its front.
use tpool.Base.{
  Bool, List, [], all, ap, arith, false, inl, inr, refl, true, ℕ, ◌++◌, ◌<◌, ◌∷◌, ◌≡◌, ◌≤◌, ◌⊎◌,
}
use tpool.IncludeOrder.{
  HeaderType, c_sys_header, cpp_sys_header, likely_my_header, possible_my_header,
}
use mathlib.Core.Path.{subst}

abbrev pub is_mine : HeaderType → Bool
is_mine likely_my_header = true
is_mine possible_my_header = true
is_mine _ = false

abbrev pub is_c : HeaderType → Bool
is_c c_sys_header = true
is_c _ = false

abbrev pub is_cpp : HeaderType → Bool
is_cpp cpp_sys_header = true
is_cpp _ = false

abbrev pub is_late : HeaderType → Bool
is_late c_sys_header = false
is_late cpp_sys_header = false
is_late _ = true

-- The list is own headers, then C, then C++ headers, then other headers and own headers in any
-- order. A list that starts from section `n` or later has only the parts that are still to come.
pub record Arranged (n : ℕ) (hs : List HeaderType) : Type 0 where
  pub mine : List HeaderType
  pub c : List HeaderType
  pub cpp : List HeaderType
  pub late : List HeaderType
  pub splits : hs ≡ mine ++ (c ++ (cpp ++ late))
  pub all_mine : all is_mine mine ≡ true
  pub all_c : all is_c c ≡ true
  pub all_cpp : all is_cpp cpp ≡ true
  pub all_late : all is_late late ≡ true
  pub no_mine : 1 < n → mine ≡ []
  pub no_c : 2 < n → c ≡ []
  pub no_cpp : 3 < n → cpp ≡ []

-- One more header in front of an arranged list.
module _ {n : ℕ} {ts : List HeaderType} where
  pub cons_mine : (t : HeaderType) → is_mine t ≡ true → n ≤ 1 → Arranged 1 ts → Arranged n (t ∷ ts)
  cons_mine t h b a = record {
    mine = t ∷ a.mine;
    c = a.c;
    cpp = a.cpp;
    late = a.late;
    all_c = a.all_c;
    all_cpp = a.all_cpp;
    all_late = a.all_late;
    splits = ap (◌∷◌ t) a.splits;
    all_mine = ground (arith, a.all_mine);
    no_mine = λ q. absurd (omega arith);
    no_c = λ q. absurd (omega arith);
    no_cpp = λ q. absurd (omega arith);
  }

  pub cons_c : n ≤ 2 → Arranged 2 ts → Arranged n (c_sys_header ∷ ts)
  cons_c b a = record {
    mine = [];
    c = c_sys_header ∷ a.c;
    cpp = a.cpp;
    late = a.late;
    all_cpp = a.all_cpp;
    all_late = a.all_late;
    splits = rw (a.no_mine (omega arith)) at (ap (◌∷◌ c_sys_header) a.splits);
    all_mine = refl;
    all_c = a.all_c;
    no_mine = λ q. refl;
    no_c = λ q. absurd (omega arith);
    no_cpp = λ q. absurd (omega arith);
  }

  pub cons_cpp : n ≤ 3 → Arranged 3 ts → Arranged n (cpp_sys_header ∷ ts)
  cons_cpp b a = record {
    mine = [];
    c = [];
    cpp = cpp_sys_header ∷ a.cpp;
    late = a.late;
    all_late = a.all_late;
    splits =
        rw (a.no_mine (omega arith), a.no_c (omega arith)) at (ap (◌∷◌ cpp_sys_header) a.splits);
    all_mine = refl;
    all_c = refl;
    all_cpp = a.all_cpp;
    no_mine = λ q. refl;
    no_c = λ q. refl;
    no_cpp = λ q. absurd (omega arith);
  }

  pub cons_late : (t : HeaderType) → is_late t ≡ true → Arranged 4 ts → Arranged n (t ∷ ts)
  cons_late t h a = record {
    mine = [];
    c = [];
    cpp = [];
    late = t ∷ a.late;
    splits =
        rw (a.no_mine (omega arith), a.no_c (omega arith), a.no_cpp (omega arith)) at
          (ap (◌∷◌ t) a.splits);
    all_mine = refl;
    all_c = refl;
    all_cpp = refl;
    all_late = ground (arith, a.all_late);
    no_mine = λ q. refl;
    no_c = λ q. refl;
    no_cpp = λ q. refl;
  }

pub Arranged-nil : (n : ℕ) → Arranged n []
Arranged-nil n = record {
  mine = [];
  c = [];
  cpp = [];
  late = [];
  splits = refl;
  all_mine = refl;
  all_c = refl;
  all_cpp = refl;
  all_late = refl;
  no_mine = λ q. refl;
  no_c = λ q. refl;
  no_cpp = λ q. refl;
}

pub Arranged-mine :
    {n k : ℕ} {ts : List HeaderType} (t : HeaderType)
    → is_mine t ≡ true
    → is_late t ≡ true
    → ((n ≤ 1) × (k ≡ 1)) ⊎ (k ≡ 4)
    → Arranged k ts
    → Arranged n (t ∷ ts)
Arranged-mine {ts = ts} t m l (inl (b, e)) a = cons_mine t m b (subst (λ j. Arranged j ts) e a)
Arranged-mine {ts = ts} t m l (inr e) a = cons_late t l (subst (λ j. Arranged j ts) e a)
