-- ===== src/Paths/Stacked.antt =====
-- Paths by the stack of elements that `filepath.Clean` builds from them below the root.
use mathlib.Core.List.{reverse}
use gospidertrap.Common.{
  ◌≡◌, ◌≢◌, ◌⊎◌, inl, inr, refl, ap, sym, ◌∙◌, Bool, true, false, Bool-cases, List, [], ◌∷◌, ◌++◌,
  arith, ℕ, Text, text_eq, All, Lacks, ◌==◌,
}
use gospidertrap.Common.Descending.{All-reverse}
use gospidertrap.Strings.{split_from, split, has_prefix}
use gospidertrap.Strings.Cut.{split_first, split_of_Lacks}
use gospidertrap.Paths.{
  dot, dot_dot, push, push_all, is_abs, elements, join_elements, or_dot, clean, join,
}
use gospidertrap.Paths.Stack.{
  IsKept, split_from-append, push_all-append, push_stays, push_here, push_plain, push-IsKept,
  absorbs,
}
use gospidertrap.Paths.Inside.{IsPlain}

pub append-Lacks :
    (sep : ℕ) (cur : Text) (c : ℕ) → Lacks sep cur → c ≢ sep → Lacks sep (cur ++ c ∷ [])
append-Lacks sep [] c h ne = (ne, tt)
append-Lacks sep (b ∷ cur) c (p, h) ne = (p, append-Lacks sep cur c h ne)

pub split_from-Lacks :
    (sep : ℕ) (cur s : Text) → Lacks sep cur → All (Lacks sep) (split_from sep cur s)
unfolding split_from
split_from-Lacks sep cur [] h = (h, tt)
split_from-Lacks sep cur (c ∷ s) h = elim (Bool-cases (c == sep)) [
  | inl e ↦ rw e (h, split_from-Lacks sep [] s tt)
  | inr e ↦ rw e (
      split_from-Lacks sep (cur ++ c ∷ []) s
        (append-Lacks sep cur c h (λ same. ground (arith, e, same))))
]

pub split_of_join :
    (c : Text) (cs : List Text)
    → All (Lacks b'/') (c ∷ cs)
    → split (join_elements (c ∷ cs)) b'/' ≡ c ∷ cs
unfolding join_elements
split_of_join c [] (l, h) = split_of_Lacks b'/' c l
split_of_join c (d ∷ cs) (l, h) =
    split_first b'/' c (join_elements (d ∷ cs)) l ∙ ap (◌∷◌ c) (split_of_join d cs h)

-- The stack of a path below the root.
abbrev pub stacked : List Text → Text → List Text
stacked kept path = push_all true kept (split path b'/')

pub push_all-IsKept :
    (rooted : Bool) (kept cs : List Text)
    → All IsKept kept
    → All (Lacks b'/') cs
    → All IsKept (push_all rooted kept cs)
unfolding push_all
push_all-IsKept rooted kept [] h l = h
push_all-IsKept rooted kept (c ∷ cs) h (l, ls) =
    push_all-IsKept rooted (push rooted kept c) cs (push-IsKept rooted kept c h l) ls

pub split-Lacks : (s : Text) → All (Lacks b'/') (split s b'/')
unfolding split
split-Lacks s = split_from-Lacks b'/' [] s tt

pub elements-IsKept : (path : Text) → All IsKept (elements path)
unfolding elements
elements-IsKept path =
    All-reverse IsKept _ (push_all-IsKept (is_abs path) [] (split path b'/') tt (split-Lacks path))

-- The elements that `Clean` keeps do what those of the path do.
pub stacked-elements :
    (kept : List Text) (path : Text)
    → (is_abs path ≡ false) ⊎ (kept ≡ [])
    → push_all true kept (elements path) ≡ stacked kept path
unfolding elements push_all
stacked-elements kept path start =
    sym (absorbs (is_abs path) kept [] (split path b'/') start tt (split-Lacks path))

pub only_Lacks : (cs : List Text) → All IsKept cs → All (Lacks b'/') cs
only_Lacks [] h = tt
only_Lacks (c ∷ cs) ((k, l), h) = (l, only_Lacks cs h)

-- Whether the elements are read from the text that they are joined to, or as they are.
pub stacked-join :
    (kept cs : List Text) → All IsKept cs → stacked kept (join_elements cs) ≡ push_all true kept cs
unfolding push_all join_elements split split_from
stacked-join kept [] h = push_stays true kept [] (unfold text_eq in refl)
stacked-join kept (c ∷ cs) h = ap (push_all true kept) (split_of_join c cs (only_Lacks (c ∷ cs) h))

pub stacked-or_dot : (kept : List Text) (s : Text) → stacked kept (or_dot s) ≡ stacked kept s
unfolding split split_from push_all
stacked-or_dot kept [] =
    push_here true kept dot (unfold text_eq in refl) (unfold text_eq in refl)
    ∙ sym (push_stays true kept [] (unfold text_eq in refl))
stacked-or_dot kept (c ∷ s) = refl

-- A relative path may be cleaned before it is put behind another.
pub stacked-clean_relative :
    (kept : List Text) (path : Text)
    → is_abs path ≡ false
    → stacked kept (clean path) ≡ stacked kept path
unfolding clean
stacked-clean_relative kept path relative = rw relative (
    stacked-or_dot kept (join_elements (elements path))
    ∙ stacked-join kept (elements path) (elements-IsKept path)
    ∙ stacked-elements kept path (inl relative))

pub stacked-slash : (s : Text) → stacked [] (b'/' ∷ s) ≡ stacked [] s
unfolding split split_from push_all
stacked-slash s =
    ap (λ k. push_all true k (split_from b'/' [] s))
      (push_stays true [] [] (unfold text_eq in refl))

-- Cleaning an absolute path once more changes nothing.
pub stacked-clean : (path : Text) → is_abs path ≡ true → stacked [] (clean path) ≡ stacked [] path
unfolding clean
stacked-clean path absolute = rw absolute (
    stacked-slash (join_elements (elements path))
    ∙ stacked-join [] (elements path) (elements-IsKept path)
    ∙ stacked-elements [] path (inr refl))

pub stacked-behind :
    (kept : List Text) (s t : Text) → stacked kept (s ++ b'/' ∷ t) ≡ stacked (stacked kept s) t
unfolding split
stacked-behind kept s t =
    ap (push_all true kept) (split_from-append b'/' [] s t)
    ∙ push_all-append true kept (split s b'/') (split t b'/')

pub stacked-name :
    (kept : List Text) (name : Text)
    → IsPlain name
    → Lacks b'/' name
    → stacked kept name ≡ name ∷ kept
unfolding push_all
stacked-name kept name p l =
    ap (push_all true kept) (split_of_Lacks b'/' name l) ∙ push_plain true kept name p

pub elements-stacked :
    (path : Text) → is_abs path ≡ true → elements path ≡ reverse (stacked [] path)
unfolding elements
elements-stacked path absolute = rw absolute refl

pub joined : (a b : Text) → a ≢ [] → join a b ≡ clean (a ++ b'/' ∷ b)
unfolding join
joined [] b ne = absurd (ne refl)
joined (c ∷ a) b ne = refl

pub abs-ne-nil : (path : Text) → is_abs path ≡ true → path ≢ []
abs-ne-nil path absolute e = not_abs (ap is_abs (sym e) ∙ absolute)
  where
    not_abs : is_abs [] ≢ true
    not_abs = unfold has_prefix in λ h. cc

pub append-relative : (s t : Text) → s ≢ [] → is_abs s ≡ false → is_abs (s ++ t) ≡ false
unfolding has_prefix
append-relative [] t ne h = absurd (ne refl)
append-relative (c ∷ s) t ne h = h

pub kept_relative : (cs : List Text) → All IsKept cs → is_abs (or_dot (join_elements cs)) ≡ false
unfolding join_elements has_prefix
kept_relative [] h = refl
kept_relative ([] ∷ cs) ((k, l), h) = absurd (empty k)
  where
    empty : (IsPlain [] ⊎ ([] ≡ dot_dot)) → ⊥
    empty (inl p) = p.0 refl
    empty (inr e) = cc
kept_relative ((b ∷ c) ∷ []) ((k, (ne, l)), h) = ground (arith, ne)
kept_relative ((b ∷ c) ∷ d ∷ cs) ((k, (ne, l)), h) = ground (arith, ne)

pub clean_relative : (path : Text) → is_abs path ≡ false → is_abs (clean path) ≡ false
unfolding clean
clean_relative path relative = rw relative (kept_relative (elements path) (elements-IsKept path))
