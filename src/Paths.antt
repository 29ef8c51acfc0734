-- ===== src/Paths.antt =====
-- The functions of Python's posixpath that cpplint.py calls, and what it asks the file system.
pub mod Laws
use tpool.Base.{
  Bool, Option, [], all, any, drop, if◌then◌else◌, ltb, none, not, some, suc, take, ℕ, ◌&&◌, ◌++◌,
  ◌-◌, ◌==◌, ◌||◌, ◌∷◌,
}
use tpool.Text.{Text, ends_with, is_empty, rfind, starts_with, strip_right}

-- The operating system's part: os.path.abspath and os.path.exists.
pub record FileSystem : Type 0 where
  pub abspath : Text → Text
  pub exists : Text → Bool

-- p.rfind(c) + 1
abbrev pub past : Option ℕ → ℕ
past none = 0
past (some i) = suc i

unfoldable pub only_slashes : Text → Bool
only_slashes s = all (λ c. c == b'/') s

-- `head.rstrip('/')`, unless the head is empty or all slashes
unfoldable pub trim_head : Text → Text
unfolding only_slashes strip_right
trim_head head = if only_slashes head then head else strip_right (λ c. c == b'/') head

-- os.path.split
unfoldable pub split_path : Text → Text × Text
unfolding trim_head rfind
split_path p = let i = past (rfind b'/' p) in (trim_head (take i p), drop i p)

-- os.path.dirname
unfoldable pub dirname : Text → Text
unfolding split_path
dirname p = (split_path p).0

-- os.path.join(a, b)
unfoldable pub join_path : Text → Text → Text
unfolding starts_with ends_with is_empty
join_path a b =
    if starts_with b (b'/' ∷ [])
    then b
    else if is_empty a || ends_with a (b'/' ∷ [])
    then a ++ b
    else a ++ (b'/' ∷ b)

-- os.path.commonprefix([a, b])
unfoldable pub common_prefix : Text → Text → Text
common_prefix [] b = []
common_prefix (c ∷ a) [] = []
common_prefix (c ∷ a) (d ∷ b) = let rest = common_prefix a b in if c == d then c ∷ rest else []

-- os.path.splitext: the last dot behind the last slash, unless only dots stand between them
unfoldable pub splitext : Text → Text × Text
unfolding rfind
splitext p =
    let name = past (rfind b'/' p) in
    let dot = past (rfind b'.' p) - 1 in
    if ltb name dot && any (λ c. not (c == b'.')) (take (dot - name) (drop name p))
    then (take dot p, drop dot p)
    else (p, [])
