-- ===== src/Paths/Own.antt =====
-- The paths that the program makes itself, a name in the data directory, against the check of paths.
use mathlib.Core.List.{reverse, reverse-cons}
use gospidertrap.Common.{
  ◌≡◌, ◌≢◌, inl, inr, refl, ap, sym, ◌∙◌, true, false, Bool-cases, none, some, [], ◌∷◌, ◌++◌, Text,
  Lacks,
}
use gospidertrap.Strings.{has_prefix}
use gospidertrap.Paths.{
  dot, dot_dot, is_abs, elements, join_elements, or_dot, clean, join, abs, validate_data_dir_path,
}
use gospidertrap.Paths.Stacked.{
  stacked, stacked-clean_relative, stacked-clean, stacked-behind, stacked-name, elements-stacked,
  joined, abs-ne-nil, append-relative, clean_relative,
}
use gospidertrap.Paths.Inside.{IsPlain, verdict, flat_rel, append-is_abs, clean-is_abs}

-- The absolute forms of the directory and of the file, of which the second lies in the first.
record Placed (dir data_dir file name : Text) : Type 0 where
  abs_dir : Text
  abs_file : Text
  dir_is : abs (some dir) data_dir ≡ some abs_dir
  file_is : abs (some dir) file ≡ some abs_file
  dir_rooted : is_abs abs_dir ≡ true
  file_rooted : is_abs abs_file ≡ true
  on_top : stacked [] abs_file ≡ name ∷ stacked [] abs_dir

module _ (dir data_dir name : Text) (rooted : is_abs dir ≡ true) (named : data_dir ≢ [])
    (p : IsPlain name) (l : Lacks b'/' name) where
  abbrev path : Text
  path = data_dir ++ b'/' ∷ name

  Placed-absolute : is_abs data_dir ≡ true → Placed dir data_dir (clean path) name
  unfolding abs
  Placed-absolute absolute =
      let path_abs = append-is_abs data_dir (b'/' ∷ name) absolute in
      let file_abs = clean-is_abs path path_abs in
      record {
        abs_dir = clean data_dir;
        abs_file = clean (clean path);
        dir_is = rw absolute refl;
        file_is = rw file_abs refl;
        dir_rooted = clean-is_abs data_dir absolute;
        file_rooted = clean-is_abs (clean path) file_abs;
        on_top =
            stacked-clean (clean path) file_abs
            ∙ stacked-clean path path_abs
            ∙ stacked-behind [] data_dir name
            ∙ stacked-name (stacked [] data_dir) name p l
            ∙ ap (◌∷◌ name) (sym (stacked-clean data_dir absolute));
      }

  -- A relative path behind the working directory.
  behind_dir :
      (q : Text)
      → (is_abs (join dir q) ≡ true) × (stacked [] (join dir q) ≡ stacked (stacked [] dir) q)
  behind_dir q =
      let whole = append-is_abs dir (b'/' ∷ q) rooted in
      rw (joined dir q (abs-ne-nil dir rooted)) (
        clean-is_abs (dir ++ b'/' ∷ q) whole,
        stacked-clean (dir ++ b'/' ∷ q) whole ∙ stacked-behind [] dir q,
      )

  Placed-relative : is_abs data_dir ≡ false → Placed dir data_dir (clean path) name
  unfolding abs
  Placed-relative relative =
      let path_relative = append-relative data_dir (b'/' ∷ name) named relative in
      let (dir_abs, dir_stack) = behind_dir data_dir in
      let (file_abs, file_stack) = behind_dir (clean path) in
      record {
        abs_dir = join dir data_dir;
        abs_file = join dir (clean path);
        dir_is = rw relative refl;
        file_is = rw (clean_relative path path_relative) refl;
        dir_rooted = dir_abs;
        file_rooted = file_abs;
        on_top =
            file_stack
            ∙ stacked-clean_relative (stacked [] dir) path path_relative
            ∙ stacked-behind (stacked [] dir) data_dir name
            ∙ stacked-name (stacked (stacked [] dir) data_dir) name p l
            ∙ ap (◌∷◌ name) (sym dir_stack);
      }

  placed : Placed dir data_dir (join data_dir name) name
  placed = rw (joined data_dir name named) (elim (Bool-cases (is_abs data_dir)) [
    | inl absolute ↦ Placed-absolute absolute
    | inr relative ↦ Placed-relative relative
  ])

or_dot_same : (s : Text) → s ≢ [] → or_dot s ≡ s
or_dot_same [] ne = absurd (ne refl)
or_dot_same (c ∷ s) ne = refl

-- With an absolute working directory the check accepts every file that the program itself puts into
-- the data directory, wherever that is, absolute or relative, with `..` in it or not: a name that is
-- neither empty nor `.`, does not begin with two dots, and has no slash.
pub own_files_accepted :
    (dir data_dir name : Text)
    → is_abs dir ≡ true
    → data_dir ≢ []
    → name ≢ []
    → name ≢ dot
    → has_prefix name dot_dot ≡ false
    → Lacks b'/' name
    → validate_data_dir_path (some dir) data_dir (join data_dir name) ≡ none
unfolding join_elements has_prefix
own_files_accepted dir data_dir name rooted named ne nd nu l =
    let up : name ≢ dot_dot = λ e. true_false (sym (ap (λ n. has_prefix n dot_dot) e) ∙ nu) in
    let at = placed dir data_dir name rooted named (ne, nd, up) l in
    let below : elements at.abs_file ≡ elements at.abs_dir ++ name ∷ [] =
      elements-stacked at.abs_file at.file_rooted
      ∙ ap reverse at.on_top
      ∙ reverse-cons name (stacked [] at.abs_dir)
      ∙ ap (λ s. s ++ name ∷ []) (sym (elements-stacked at.abs_dir at.dir_rooted)) in
    (verdict dir data_dir (join data_dir name) at.abs_dir at.abs_file at.dir_is at.file_is).1 (
      flat_rel at.abs_dir at.abs_file (name ∷ []) below
        (ap (λ n. has_prefix n dot_dot) (or_dot_same name ne) ∙ nu))
  where
    true_false : true ≢ false
    true_false = cc
