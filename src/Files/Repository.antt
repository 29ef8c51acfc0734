-- ===== src/Files/Repository.antt =====
-- FileInfo.RepositoryName: the two climbs to the root.
use tpool.Paths.Laws.{dirname_shorter}
use tpool.Paths.{FileSystem, dirname}
use tpool.Files.{checkout_root, full_name, holds, is_checkout, repository_name, svn_root}
use tpool.Base.{
  Bool-cases, arith, false, inl, inr, length, none, refl, some, suc, sym, true, zero, ℕ, ◌<◌, ◌∙◌,
  ◌≡◌, ◌⊎◌,
}
use tpool.Text.{Text, same}
use tpool.Text.Laws.{same_iff}

-- The directory n levels up.
abbrev pub up : ℕ → Text → Text
up zero dir = dir
up (suc n) dir = up n (dirname dir)

pub record Root (fs : FileSystem) (fuel : ℕ) (dir : Text) : Type 0 where
  pub levels : ℕ
  pub found : checkout_root fs fuel dir ≡ some (up levels dir)
  pub ends : (is_checkout fs (up levels dir) ≡ true) ⊎ (dirname (up levels dir) ≡ up levels dir)
  pub none_below : (j : ℕ) → j < levels → is_checkout fs (up j dir) ≡ false

module _ (fs : FileSystem) where
  Root-here :
      (fuel : ℕ) (dir : Text)
      → checkout_root fs (suc fuel) dir ≡ some dir
      → (is_checkout fs dir ≡ true) ⊎ (dirname dir ≡ dir)
      → Root fs (suc fuel) dir
  Root-here fuel dir e h = record {
    levels = 0;
    found = e;
    ends = h;
    none_below = λ j lt. absurd (omega arith);
  }

  below_above :
      (dir : Text) (n : ℕ)
      → is_checkout fs dir ≡ false
      → ((j : ℕ) → j < n → is_checkout fs (up j (dirname dir)) ≡ false)
      → (j : ℕ) → j < suc n
      → is_checkout fs (up j dir) ≡ false
  below_above dir n here above zero lt = here
  below_above dir n here above (suc j) lt = above j (omega arith)

  Root-above :
      (fuel : ℕ) (dir : Text)
      → checkout_root fs (suc fuel) dir ≡ checkout_root fs fuel (dirname dir)
      → is_checkout fs dir ≡ false
      → Root fs fuel (dirname dir)
      → Root fs (suc fuel) dir
  Root-above fuel dir e no_checkout r = record {
    levels = suc r.levels;
    found = e ∙ r.found;
    ends = r.ends;
    none_below = below_above dir r.levels no_checkout r.none_below;
  }

  shrinks :
      (dir : Text) (fuel : ℕ)
      → length dir < suc fuel
      → same dir (dirname dir) ≡ false
      → length (dirname dir) < fuel
  shrinks dir fuel h lower = elim (dirname_shorter dir) [
    | inl e ↦ cc (lower, (same_iff dir (dirname dir)).1 (sym e))
    | inr lt ↦ omega arith
  ]

  -- The search for a checkout ends, whatever the file system holds, after at most as many rounds as
  -- the path has characters. It stops at the nearest directory upwards that holds a checkout, or at
  -- the top if none does, and no directory below that one holds a checkout.
  pub checkout_root_lem : (fuel : ℕ) (dir : Text) → length dir < fuel → Root fs fuel dir
  unfolding checkout_root
  checkout_root_lem zero dir h = absurd (omega arith)
  checkout_root_lem (suc fuel) dir h = elim (Bool-cases (same dir (dirname dir))) [
    | inl top ↦ Root-here fuel dir (ground arith) (inr (sym ((same_iff dir (dirname dir)).0 top)))
    | inr lower ↦ elim (Bool-cases (is_checkout fs dir)) [
      | inl checkout ↦ Root-here fuel dir (ground arith) (inl checkout)
      | inr bare ↦
          Root-above fuel dir (ground arith) bare
            (checkout_root_lem fuel (dirname dir) (shrinks dir fuel h lower))
    ]
  ]

svn_root_diverges :
    (fs : FileSystem) (fuel : ℕ) (root_dir one_up_dir : Text)
    → ((n : ℕ) → holds fs (up n one_up_dir) ".svn" ≡ true)
    → svn_root fs fuel root_dir one_up_dir ≡ none
unfolding svn_root
svn_root_diverges fs zero root_dir one_up_dir svn = refl
svn_root_diverges fs (suc fuel) root_dir one_up_dir svn =
    rw (svn 0)
      (svn_root_diverges fs fuel (dirname root_dir) (dirname one_up_dir) (λ n. svn (suc n)))

-- In a tree where the file's directory and all those above it, the top included, hold a
-- `.svn`, the climb does not stop at the top, and RepositoryName returns for no number of rounds.
pub repository_name_diverges :
    (fs : FileSystem) (filename : Text)
    → fs.exists (full_name fs filename) ≡ true
    → ((n : ℕ) → holds fs (up n (dirname (full_name fs filename))) ".svn" ≡ true)
    → (fuel : ℕ) → repository_name fs fuel filename ≡ none
unfolding repository_name
repository_name_diverges fs filename there svn fuel =
    let project_dir = dirname (full_name fs filename) in
    rw
      (there, svn 0, svn_root_diverges fs fuel project_dir (dirname project_dir) (λ n. svn (suc n)))
