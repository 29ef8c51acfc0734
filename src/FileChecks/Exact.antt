-- ===== src/FileChecks/Exact.antt =====
-- The newline at the end of the file, from the content of the file on.
use tpool.FileChecks.{check_for_newline_at_eof}
use tpool.Base.{
  Bool, Bool-cases, List, [], ap, arith, false, get_or, if◌then◌else◌, inl, inr, length,
  length-append, ltb, refl, suc, true, ℕ, ◌++◌, ◌-◌, ◌==◌, ◌↔◌, ◌∙◌, ◌∷◌, ◌≡◌, ◌≢◌, ◌⊎◌,
}
use tpool.Text.{Text, is_empty, push_first, split_on}

-- The lines that ProcessFileData makes of a file's content: the pieces between newlines, with a
-- marker line at either end.
abbrev pub marked_lines : Text → Text → Text → List Text
marked_lines top bottom content = top ∷ (split_on b'\n' content ++ (bottom ∷ []))

-- The content is empty or its last character is a newline.
unfoldable pub ends_in_newline : Text → Bool
ends_in_newline [] = true
ends_in_newline (c ∷ []) = c == b'\n'
ends_in_newline (c ∷ d ∷ s) = ends_in_newline (d ∷ s)

abbrev last_of : List Text → Text
last_of [] = []
last_of (w ∷ []) = w
last_of (w ∷ v ∷ ws) = last_of (v ∷ ws)

get_or-last :
    (w bottom : Text) (ws : List Text)
    → get_or ((w ∷ ws) ++ (bottom ∷ [])) (length ws) [] ≡ last_of (w ∷ ws)
get_or-last w bottom [] = refl
get_or-last w bottom (v ∷ ws) = get_or-last v bottom ws

split_on_step :
    (c : ℕ) (s : Text)
    → split_on b'\n' (c ∷ s)
      ≡ (if c == b'\n' then [] ∷ split_on b'\n' s else push_first c (split_on b'\n' s))
unfolding split_on
split_on_step c s = refl

-- A split text has several pieces, or one that is not empty.
abbrev Pieces : List Text → Type 0
Pieces ps =
    ((w : Text) × (v : Text) × (vs : List Text) × (ps ≡ w ∷ v ∷ vs))
    ⊎ ((e : ℕ) × (w : Text) × (ps ≡ (e ∷ w) ∷ []))

Pieces-step :
    (c : ℕ) (ps : List Text) → ps ≢ [] → Pieces (if c == b'\n' then [] ∷ ps else push_first c ps)
Pieces-step c [] ne = absurd (ne refl)
Pieces-step c (w ∷ ws) ne = elim (Bool-cases (c == b'\n')) [
  | inl hit ↦ rw hit (inl ([], w, ws, refl))
  | inr miss ↦ rw miss (pushed_pieces w ws)
]
  where
    pushed_pieces : (w : Text) (ws : List Text) → Pieces ((c ∷ w) ∷ ws)
    pushed_pieces w [] = inr (c, w, refl)
    pushed_pieces w (v ∷ vs) = inl (c ∷ w, v, vs, refl)

push_first-ne-nil : (c : ℕ) (ps : List Text) → push_first c ps ≢ []
push_first-ne-nil c [] h = cc
push_first-ne-nil c (w ∷ ws) h = cc

split_on-ne-nil : (s : Text) → split_on b'\n' s ≢ []
split_on-ne-nil [] h = unfold split_on in cc
split_on-ne-nil (c ∷ s) h =
    ground (arith, split_on_step c s, push_first-ne-nil c (split_on b'\n' s))

split_on-Pieces : (c : ℕ) (s : Text) → Pieces (split_on b'\n' (c ∷ s))
split_on-Pieces c s = rw (split_on_step c s) (Pieces-step c (split_on b'\n' s) (split_on-ne-nil s))

-- One more character in front changes neither the last piece's emptiness.
last_step :
    (c : ℕ) (ps : List Text)
    → Pieces ps
    → is_empty (last_of (if c == b'\n' then [] ∷ ps else push_first c ps)) ≡ is_empty (last_of ps)
unfolding is_empty
last_step c ps (inl (w, v, vs, e)) = rw e (ground arith)
last_step c ps (inr (a, w, e)) = rw e (ground arith)

last-split_on : (s : Text) → is_empty (last_of (split_on b'\n' s)) ≡ ends_in_newline s
unfolding ends_in_newline is_empty
last-split_on [] = unfold split_on in refl
last-split_on (c ∷ []) = unfold split_on in ground arith
last-split_on (c ∷ d ∷ s) =
    ap (λ ps. is_empty (last_of ps)) (split_on_step c (d ∷ s))
    ∙ last_step c (split_on b'\n' (d ∷ s)) (split_on-Pieces d s)
    ∙ last-split_on (d ∷ s)

second_last :
    (top w bottom : Text) (ws : List Text)
    → let ls = top ∷ ((w ∷ ws) ++ (bottom ∷ [])) in
      (ltb (length ls) 3 ≡ false) × (get_or ls (length ls - 2) [] ≡ last_of (w ∷ ws))
second_last top w bottom ws =
    let n : length (ws ++ (bottom ∷ [])) ≡ suc (length ws) =
      omega (arith, length-append {0} ws (bottom ∷ [])) in
    let i : suc (suc (suc (length ws))) - 2 ≡ suc (length ws) = omega arith in
    (
      ground (arith, n),
      ap (λ k. get_or (top ∷ ((w ∷ ws) ++ (bottom ∷ []))) (suc (suc k) - 2) []) n
          ∙ ap (λ k. get_or (top ∷ ((w ∷ ws) ++ (bottom ∷ []))) k []) i
          ∙ get_or-last w bottom ws,
    )

newline_pieces :
    (top bottom : Text) (ps : List Text)
    → ps ≢ []
    → (check_for_newline_at_eof (top ∷ (ps ++ (bottom ∷ []))) ≡ []) ↔ (is_empty (last_of ps) ≡ true)
unfolding check_for_newline_at_eof
newline_pieces top bottom [] ne = absurd (ne refl)
newline_pieces top bottom (w ∷ ws) ne =
    let (long, last) = second_last top w bottom ws in ground (arith, long, last)

-- A file passes CheckForNewlineAtEOF exactly when it is empty or ends in a newline character.
pub check_for_newline_at_eof_iff :
    (top bottom content : Text)
    → (check_for_newline_at_eof (marked_lines top bottom content) ≡ [])
      ↔ (ends_in_newline content ≡ true)
check_for_newline_at_eof_iff top bottom content =
    rw (← last-split_on content)
      (newline_pieces top bottom (split_on b'\n' content) (split_on-ne-nil content))
