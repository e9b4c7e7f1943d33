-- ===== src/Paths/Stack.antt =====
-- `filepath.Clean` of a part of a path before the whole path.
use mathlib.Core.List.{reverse, reverse-cons}
use gospidertrap.Common.{
  ◌≡◌, ◌≢◌, ◌⊎◌, inl, inr, refl, ap, sym, ◌∙◌, Bool, true, false, Bool-cases, List, [], ◌∷◌, ◌++◌,
  arith, ℕ, Text, text_eq, text_eq_iff, All, Lacks,
}
use gospidertrap.Strings.{split_from}
use gospidertrap.Paths.{dot, dot_dot, push, push_all}
use gospidertrap.Paths.Inside.{IsPlain, stays, here, up, plain, kind}

pub split_from-append :
    (sep : ℕ) (cur s t : Text)
    → split_from sep cur (s ++ sep ∷ t) ≡ split_from sep cur s ++ split_from sep [] t
unfolding split_from
split_from-append sep cur [] t = ground arith
split_from-append sep cur (c ∷ s) t =
    ground (arith, split_from-append sep [] s t, split_from-append sep (cur ++ c ∷ []) s t)

pub push_all-append :
    (rooted : Bool) (kept cs ds : List Text)
    → push_all rooted kept (cs ++ ds) ≡ push_all rooted (push_all rooted kept cs) ds
unfolding push_all
push_all-append rooted kept [] ds = refl
push_all-append rooted kept (c ∷ cs) ds = push_all-append rooted (push rooted kept c) cs ds

-- An element that `Clean` keeps: a plain one, or one that goes up in front of a relative path.
abbrev pub IsKept : Text → Type 0
IsKept c = (IsPlain c ⊎ (c ≡ dot_dot)) × Lacks b'/' c

pub push_stays :
    (rooted : Bool) (kept : List Text) (c : Text) → text_eq c [] ≡ true → push rooted kept c ≡ kept
unfolding push
push_stays rooted [] c e = rw e refl
push_stays rooted (top ∷ kept) c e = rw e refl

pub push_here :
    (rooted : Bool) (kept : List Text) (c : Text)
    → text_eq c [] ≡ false
    → text_eq c dot ≡ true
    → push rooted kept c ≡ kept
unfolding push
push_here rooted [] c e e' = rw (e, e') refl
push_here rooted (top ∷ kept) c e e' = rw (e, e') refl

pub push_plain :
    (rooted : Bool) (kept : List Text) (c : Text) → IsPlain c → push rooted kept c ≡ c ∷ kept
unfolding push
push_plain rooted kept c (ne, nd, nu) = go kept
  where
    other : (d : Text) → c ≢ d → text_eq c d ≡ false
    other d n = ground (arith, text_eq_iff c d, n)

    go : (kept : List Text) → push rooted kept c ≡ c ∷ kept
    go [] = rw (other [] ne, other dot nd, other dot_dot nu) refl
    go (top ∷ kept) = rw (other [] ne, other dot nd, other dot_dot nu) refl

push_up_top :
    (rooted : Bool) (kept : List Text) (top c : Text)
    → IsPlain top
    → text_eq c [] ≡ false
    → text_eq c dot ≡ false
    → text_eq c dot_dot ≡ true
    → push rooted (top ∷ kept) c ≡ kept
unfolding push
push_up_top rooted kept top c (ne, nd, nu) e e' e'' =
    let goes_up : text_eq top dot_dot ≡ false = ground (arith, text_eq_iff top dot_dot, nu) in
    rw (e, e', e'', goes_up) refl

-- Going up from nothing, below the root and in a relative path, and behind another `..`.
push_up_root :
    (c : Text)
    → text_eq c [] ≡ false
    → text_eq c dot ≡ false
    → text_eq c dot_dot ≡ true
    → (push true [] c ≡ []) × (push false [] c ≡ c ∷ [])
unfolding push
push_up_root c e e' e'' = rw (e, e', e'') (refl, refl)

push_up_again :
    (rooted : Bool) (kept : List Text) (top c : Text)
    → top ≡ dot_dot
    → text_eq c [] ≡ false
    → text_eq c dot ≡ false
    → text_eq c dot_dot ≡ true
    → push rooted (top ∷ kept) c ≡ c ∷ top ∷ kept
unfolding push
push_up_again rooted kept top c goes_up e e' e'' =
    let t : text_eq top dot_dot ≡ true = (text_eq_iff top dot_dot).1 goes_up in
    rw (e, e', e'', t) refl

pub push-IsKept :
    (rooted : Bool) (kept : List Text) (c : Text)
    → All IsKept kept
    → Lacks b'/' c
    → All IsKept (push rooted kept c)
push-IsKept rooted kept c all lacks = elim (kind c) [
  | stays e ↦ rw (push_stays rooted kept c e) all
  | here e e' ↦ rw (push_here rooted kept c e e') all
  | plain e e' e'' p ↦ rw (push_plain rooted kept c p) ((inl p, lacks), all)
  | up e e' e'' ↦ go rooted kept all e e' e''
]
  where
    go :
        (rooted : Bool) (kept : List Text)
        → All IsKept kept
        → text_eq c [] ≡ false
        → text_eq c dot ≡ false
        → text_eq c dot_dot ≡ true
        → All IsKept (push rooted kept c)
    go true [] all e e' e'' = rw (push_up_root c e e' e'').0 tt
    go false [] all e e' e'' =
        rw (push_up_root c e e' e'').1 ((inr ((text_eq_iff c dot_dot).0 e''), lacks), tt)
    go rooted (top ∷ kept) ((inl p, l), all) e e' e'' =
        rw (push_up_top rooted kept top c p e e' e'') all
    go rooted (top ∷ kept) ((inr goes_up, l), all) e e' e'' =
        rw (push_up_again rooted kept top c goes_up e e' e'')
          ((inr ((text_eq_iff c dot_dot).0 e''), lacks), ((inr goes_up, l), all))

-- Behind a stack that was cleaned on its own, and put onto others, the next element does the same.
abbrev Continues : Bool → List Text → List Text → Text → Type 0
Continues rooted kept stack c =
    push true (push_all true kept (reverse stack)) c
    ≡ push_all true kept (reverse (push rooted stack c))

-- The next element stays on top.
grows :
    (rooted : Bool) (kept stack : List Text) (c : Text)
    → push rooted stack c ≡ c ∷ stack
    → Continues rooted kept stack c
unfolding push_all
grows rooted kept stack c e =
    rw (e, reverse-cons) (sym (push_all-append true kept (reverse stack) (c ∷ [])))

continues :
    (rooted : Bool) (kept stack : List Text) (c : Text)
    → (rooted ≡ false) ⊎ (kept ≡ [])
    → All IsKept stack
    → Continues rooted kept stack c
unfolding push_all
continues rooted kept stack c start all = elim (kind c) [
  | stays e ↦
      push_stays true (push_all true kept (reverse stack)) c e
      ∙ ap (λ s. push_all true kept (reverse s)) (sym (push_stays rooted stack c e))
  | here e e' ↦
      push_here true (push_all true kept (reverse stack)) c e e'
      ∙ ap (λ s. push_all true kept (reverse s)) (sym (push_here rooted stack c e e'))
  | plain e e' e'' p ↦ grows rooted kept stack c (push_plain rooted stack c p)
  | up e e' e'' ↦ go stack all e e' e''
]
  where
    go :
        (stack : List Text)
        → All IsKept stack
        → text_eq c [] ≡ false
        → text_eq c dot ≡ false
        → text_eq c dot_dot ≡ true
        → Continues rooted kept stack c
    go [] all e e' e'' = elim start [
      | inl relative ↦
          grows rooted kept [] c (ap (λ r. push r [] c) relative ∙ (push_up_root c e e' e'').1)
      | inr alone ↦ elim (Bool-cases rooted) [
        | inl root ↦
            let nothing = (push_up_root c e e' e'').0 in rw (root, alone, nothing, push_all) refl
        | inr relative ↦
            grows rooted kept [] c (ap (λ r. push r [] c) relative ∙ (push_up_root c e e' e'').1)
      ]
    ]
    go (top ∷ stack) ((inl p, lacks), all) e e' e'' =
        rw (push_up_top rooted stack top c p e e' e'', reverse-cons)
          (ap (λ l. push true l c)
              (push_all-append true kept (reverse stack) (top ∷ [])
                ∙ push_plain true (push_all true kept (reverse stack)) top p)
            ∙ push_up_top true (push_all true kept (reverse stack)) top c p e e' e'')
    go (top ∷ stack) ((inr goes_up, lacks), all) e e' e'' =
        grows rooted kept (top ∷ stack) c (push_up_again rooted stack top c goes_up e e' e'')

pub absorbs :
    (rooted : Bool) (kept stack cs : List Text)
    → (rooted ≡ false) ⊎ (kept ≡ [])
    → All IsKept stack
    → All (Lacks b'/') cs
    → push_all true (push_all true kept (reverse stack)) cs
      ≡ push_all true kept (reverse (push_all rooted stack cs))
unfolding push_all
absorbs rooted kept stack [] start all lacks = refl
absorbs rooted kept stack (c ∷ cs) start all (l, lacks) =
    ap (λ k. push_all true k cs) (continues rooted kept stack c start all)
    ∙ absorbs rooted kept (push rooted stack c) cs start (push-IsKept rooted stack c all l) lacks
