-- ===== src/Paths/Inside.antt =====
-- What the check of paths lets through.
use mathlib.Core.Path.{ap₂}
use gospidertrap.Common.{
  ◌≡◌, ◌≢◌, ◌⊎◌, ◌↔◌, inl, inr, refl, ap, sym, ◌∙◌, true, false, Bool-cases, none, some, List, [],
  ◌∷◌, ◌++◌, arith, Text, text_eq, text_eq_iff, All,
}
use gospidertrap.Common.Descending.{All-reverse}
use gospidertrap.Strings.{split, has_prefix}
use gospidertrap.Paths.{
  dot, dot_dot, push, push_all, is_abs, elements, join_elements, or_dot, clean, join, abs, way, rel,
  validate_data_dir_path,
}

-- An element of a path that names a file or a directory: it does not stay, and does not go up.
abbrev pub IsPlain : Text → Type 0
IsPlain c = (c ≢ []) × (c ≢ dot) × (c ≢ dot_dot)

-- What `Clean` finds in an element.
pub data Kind (c : Text) : Type 0 where
  stays : text_eq c [] ≡ true → Kind c
  here : text_eq c [] ≡ false → text_eq c dot ≡ true → Kind c
  up : text_eq c [] ≡ false → text_eq c dot ≡ false → text_eq c dot_dot ≡ true → Kind c
  plain :
      text_eq c [] ≡ false → text_eq c dot ≡ false → text_eq c dot_dot ≡ false → IsPlain c → Kind c

pub kind : (c : Text) → Kind c
kind c = elim (Bool-cases (text_eq c [])) [
  | inl e ↦ stays e
  | inr e ↦ elim (Bool-cases (text_eq c dot)) [
    | inl e' ↦ here e e'
    | inr e' ↦ elim (Bool-cases (text_eq c dot_dot)) [
      | inl e'' ↦ up e e' e''
      | inr e'' ↦ plain e e' e'' (other [] e, other dot e', other dot_dot e'')
    ]
  ]
]
  where
    other : (d : Text) → text_eq c d ≡ false → c ≢ d
    other d e same = ground (arith, text_eq_iff c d, e, same)

pub push-IsPlain : (kept : List Text) (c : Text) → All IsPlain kept → All IsPlain (push true kept c)
unfolding push
push-IsPlain [] c h = elim (kind c) [
  | stays e ↦ rw e tt
  | here e e' ↦ rw (e, e') tt
  | up e e' e'' ↦ rw (e, e', e'') tt
  | plain e e' e'' p ↦ rw (e, e', e'') (p, tt)
]
push-IsPlain (top ∷ kept) c ((ne, nd, nu), h) = elim (kind c) [
  | stays e ↦ rw e ((ne, nd, nu), h)
  | here e e' ↦ rw (e, e') ((ne, nd, nu), h)
  | up e e' e'' ↦
      let goes_up : text_eq top dot_dot ≡ false = ground (arith, text_eq_iff top dot_dot, nu) in
      rw (e, e', e'', goes_up) h
  | plain e e' e'' p ↦ rw (e, e', e'') (p, ((ne, nd, nu), h))
]

push_all-IsPlain : (kept cs : List Text) → All IsPlain kept → All IsPlain (push_all true kept cs)
unfolding push_all
push_all-IsPlain kept [] h = h
push_all-IsPlain kept (c ∷ cs) h = push_all-IsPlain (push true kept c) cs (push-IsPlain kept c h)

elements-IsPlain : (path : Text) → is_abs path ≡ true → All IsPlain (elements path)
unfolding elements
elements-IsPlain path rooted =
    rw rooted (All-reverse IsPlain _ (push_all-IsPlain [] (split path b'/') tt))

-- The way to a target below the base is what follows the base; any other begins with `..`.
way_cases :
    (base target : List Text)
    → (target ≡ base ++ way base target)
      ⊎ ((further : List Text) × (way base target ≡ dot_dot ∷ further))
unfolding way
way_cases [] target = inl refl
way_cases (b ∷ base) [] = inr (way base [], refl)
way_cases (b ∷ base) (t ∷ target) = elim (Bool-cases (text_eq b t)) [
  | inl same ↦ elim (way_cases base target) [
    | inl below ↦ inl (rw same (ap₂ ◌∷◌ (sym ((text_eq_iff b t).0 same)) below))
    | inr (further, outside) ↦ inr (further, rw same outside)
  ]
  | inr other ↦ inr (way base [] ++ t ∷ target, rw other refl)
]

way_below : (base rest : List Text) → way base (base ++ rest) ≡ rest
unfolding way
way_below [] rest = refl
way_below (b ∷ base) rest = ground (arith, text_eq_iff b b, way_below base rest)

up_is_seen :
    (further : List Text) → has_prefix (or_dot (join_elements (dot_dot ∷ further))) dot_dot ≡ true
unfolding join_elements has_prefix
up_is_seen [] = refl
up_is_seen (d ∷ further) = refl

pub clean-is_abs : (path : Text) → is_abs path ≡ true → is_abs (clean path) ≡ true
unfolding clean has_prefix
clean-is_abs path rooted = rw rooted refl

pub append-is_abs : (dir rest : Text) → is_abs dir ≡ true → is_abs (dir ++ rest) ≡ true
unfolding has_prefix
append-is_abs [] rest h = cc h
append-is_abs (c ∷ dir) rest h = h

-- With an absolute working directory every path has an absolute form.
abs_total :
    (dir path : Text)
    → is_abs dir ≡ true
    → (absolute : Text) × (abs (some dir) path ≡ some absolute) × (is_abs absolute ≡ true)
unfolding abs
abs_total dir path rooted = elim (Bool-cases (is_abs path)) [
  | inl absolute ↦ (clean path, rw absolute refl, clean-is_abs path absolute)
  | inr relative ↦ (join dir path, rw relative refl, joined dir rooted)
]
  where
    joined : (d : Text) → is_abs d ≡ true → is_abs (join d path) ≡ true
    joined [] h = absurd (not_abs h)
      where
        not_abs : is_abs [] ≢ true
        not_abs = unfold has_prefix in λ h. cc
    joined (c ∷ d) h =
        unfold join in clean-is_abs ((c ∷ d) ++ b'/' ∷ path) (append-is_abs (c ∷ d) (b'/' ∷ path) h)

-- A path lies in a directory, by the elements of their absolute forms: those of the path are those
-- of the directory and `rest`, and none of them is empty, `.` or `..`.
pub record LiesIn (dir data_dir file : Text) (rest : List Text) : Type 0 where
  pub abs_dir : Text
  pub abs_file : Text
  pub dir_is : abs (some dir) data_dir ≡ some abs_dir
  pub file_is : abs (some dir) file ≡ some abs_file
  pub below : elements abs_file ≡ elements abs_dir ++ rest
  pub plain_elements : All IsPlain (elements abs_file)

rel_inside :
    (d f : Text)
    → has_prefix (rel d f) dot_dot ≡ false
    → (rest : List Text) × (elements f ≡ elements d ++ rest)
      × (has_prefix (or_dot (join_elements rest)) dot_dot ≡ false)
unfolding rel
rel_inside d f h = elim (way_cases (elements d) (elements f)) [
  | inl below ↦ (way (elements d) (elements f), below, h)
  | inr (further, outside) ↦ absurd (
      true_false (
        sym (up_is_seen further)
        ∙ sym (ap (λ w. has_prefix (or_dot (join_elements w)) dot_dot) outside)
        ∙ h))
]
  where
    true_false : true ≢ false
    true_false = cc

pub flat_rel :
    (d f : Text) (rest : List Text)
    → elements f ≡ elements d ++ rest
    → has_prefix (or_dot (join_elements rest)) dot_dot ≡ false
    → has_prefix (rel d f) dot_dot ≡ false
unfolding rel
flat_rel d f rest below flat =
    ap (λ w. has_prefix (or_dot (join_elements w)) dot_dot)
      (ap (way (elements d)) below ∙ way_below (elements d) rest)
    ∙ flat

pub verdict :
    (dir data_dir file d f : Text)
    → abs (some dir) data_dir ≡ some d
    → abs (some dir) file ≡ some f
    → (validate_data_dir_path (some dir) data_dir file ≡ none)
      ↔ (has_prefix (rel d f) dot_dot ≡ false)
unfolding validate_data_dir_path
verdict dir data_dir file d f d_is f_is =
    rw (d_is, f_is, validate_data_dir_path) ((λ h. ground (arith, h)), (λ h. rw h refl))

-- With an absolute working directory, the check accepts exactly the paths that lie in the data
-- directory and whose way from there does not begin with two dots. None of their elements goes up.
pub accepted_iff_inside :
    (dir data_dir file : Text)
    → is_abs dir ≡ true
    → (validate_data_dir_path (some dir) data_dir file ≡ none) ↔ (
        (rest : List Text) × LiesIn dir data_dir file rest
        × (has_prefix (or_dot (join_elements rest)) dot_dot ≡ false))
accepted_iff_inside dir data_dir file rooted =
    let (d, d_is, d_rooted) = abs_total dir data_dir rooted in
    let (f, f_is, f_rooted) = abs_total dir file rooted in
    (
      λ accepted.
          let (rest, below, flat) =
            rel_inside d f ((verdict dir data_dir file d f d_is f_is).0 accepted) in
          (
            rest,
            record {
              abs_dir = d;
              abs_file = f;
              dir_is = d_is;
              file_is = f_is;
              below = below;
              plain_elements = elements-IsPlain f f_rooted;
            },
            flat,
          ),
      λ inside.
          let (rest, lies, flat) = inside in
          (verdict dir data_dir file lies.abs_dir lies.abs_file lies.dir_is lies.file_is).1
            (flat_rel lies.abs_dir lies.abs_file rest lies.below flat),
    )
