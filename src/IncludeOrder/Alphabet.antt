-- ===== src/IncludeOrder/Alphabet.antt =====
-- The alphabetical check: what `last_header` remembers of the headers of one section.
use tpool.Base.{List, [], any, arith, false, not, refl, ◌||◌, ◌∷◌, ◌≡◌}
use tpool.Text.{Text, less}
use tpool.Text.Laws.{less_cotrans, less_trans}
use tpool.IncludeOrder.{IncludeState, canonicalize_alphabetical_order, is_in_alphabetical_order}

-- The state after IsInAlphabeticalOrder has been called for these paths.
unfoldable pub after_headers : IncludeState → List Text → IncludeState
after_headers s [] = s
after_headers s (p ∷ ps) = after_headers (is_in_alphabetical_order s p).0 ps

-- `last_header` is a greatest canonical path so far: a text is less than it exactly when it is less
-- than one of the paths, or than the header remembered before.
less-after_headers :
    (ps : List Text) (s : IncludeState) (c : Text)
    → less c (after_headers s ps).last_header
      ≡ (less c s.last_header || any (λ p. less c (canonicalize_alphabetical_order p)) ps)
unfolding after_headers is_in_alphabetical_order
less-after_headers [] s c = ground arith
less-after_headers (p ∷ ps) s c =
    let k = canonicalize_alphabetical_order p in
    ground (
      arith,
      less-after_headers ps (is_in_alphabetical_order s p).0 c,
      less_trans c k s.last_header,
      less_cotrans c k s.last_header,
    )

less-nil : (c : Text) → less c [] ≡ false
unfolding less
less-nil [] = refl
less-nil (x ∷ c) = refl

-- After a reset (no last header) and any headers `ps`, the next header passes the alphabetical check
-- exactly when no earlier header of `ps` has a canonical path that is greater than its own.
pub is_in_alphabetical_order_exact :
    (s : IncludeState) (ps : List Text) (path : Text)
    → s.last_header ≡ []
    → (is_in_alphabetical_order (after_headers s ps) path).1
      ≡ not (
          any
            (λ p. less (canonicalize_alphabetical_order path) (canonicalize_alphabetical_order p))
            ps)
unfolding is_in_alphabetical_order less
is_in_alphabetical_order_exact s ps path h = ground (
  arith,
  less-after_headers ps s (canonicalize_alphabetical_order path),
  less-nil (canonicalize_alphabetical_order path),
)
