-- ===== src/Common/Descending.antt =====
-- Lists in falling order of a key, and why a list has only one such permutation.
use Prim.Native.Nat.{ℕ, ◌≤◌}
use mathlib.Core.Path.{◌≡◌, refl, ap, ap₂, sym}
use mathlib.Core.Logic.{◌≢◌}
use mathlib.Core.HLevel.{¬_prop}
use mathlib.Core.Logic.Or
use mathlib.Core.List.{
  List, [], ◌∷◌, ◌++◌, map, reverse, reverse-cons, Mem, mem-cons_self, mem-cons_of_mem, Perm,
  eq-or-mem_of_mem-cons, not-mem-nil,
}
use mathlib.Core.List.Perm
use native.Mathlib.Bridge.{le_prop}
use native.Mathlib.Omega.{arith}
use gospidertrap.Common.{
  zero, suc, All, All-append, ◌∙◌, take, leb, if◌then◌else◌, Bool-cases, inl, inr,
}

module _ {ℓ} {A : Type ℓ} where
  pub All-mem :
      {P : A → Type 0} (l : List A) (a : A) → ((x : A) → IsProp (P x)) → All P l → Mem a l → P a
  All-mem [] a prop h m = absurd (not-mem-nil m)
  All-mem {P} (x ∷ xs) a prop (p, h) m =
      Or.elim (prop a) (eq-or-mem_of_mem-cons m) (λ e. rw e p) (λ m. All-mem xs a prop h m)

  pub All-reverse : (P : A → Type 0) (l : List A) → All P l → All P (reverse l)
  All-reverse P [] h = tt
  All-reverse P (x ∷ xs) (p, h) =
      rw reverse-cons (All-append P (reverse xs) (x ∷ []) (All-reverse P xs h) (p, tt))

module _ {ℓ} {A : Type ℓ} (f : A → ℕ) where
  abbrev pub IsDescendingBy : List A → Type 0
  IsDescendingBy [] = Unit
  IsDescendingBy (x ∷ xs) = All (λ y. f y ≤ f x) xs × IsDescendingBy xs

  -- The key tells the elements of the list apart.
  abbrev pub Separates : List A → Type ℓ
  Separates l = (x y : A) → Mem x l → Mem y l → f x ≡ f y → x ≡ y

  -- No two places of the list have the same key.
  abbrev pub HasDistinct : List A → Type 0
  HasDistinct [] = Unit
  HasDistinct (x ∷ xs) = All (λ y. f y ≢ f x) xs × HasDistinct xs

  head_highest : (a b : A) (l : List A) → IsDescendingBy (a ∷ l) → Mem b (a ∷ l) → f b ≤ f a
  head_highest a b l (lead, d) m =
      Or.elim le_prop (eq-or-mem_of_mem-cons m) (λ e. rw e (omega arith))
        (λ m. All-mem l b (λ x. le_prop) lead m)

  -- Two falling permutations of one list are the same, if the key tells the elements apart.
  pub descending_unique :
      (l r : List A) → IsDescendingBy l → IsDescendingBy r → Perm l r → Separates l → l ≡ r
  descending_unique [] r dl dr p apart = Perm.nil-eq p
  descending_unique (a ∷ l) [] dl dr p apart = Perm.eq-nil p
  descending_unique (a ∷ l) (b ∷ r) dl dr p apart =
      let b_in : Mem b (a ∷ l) = (Perm.mem_iff p).1 mem-cons_self in
      let below = head_highest a b l dl b_in in
      let above = head_highest b a r dr ((Perm.mem_iff p).0 mem-cons_self) in
      let heads : a ≡ b = apart a b mem-cons_self b_in (omega (arith, below, above)) in
      let tails = Perm.cons_inv (Perm.trans p (Perm.symm (Perm.cons' heads Perm.rfl))) in
      ap₂ ◌∷◌ heads (
        descending_unique l r dl.1 dr.1 tails
          (λ x y mx my. apart x y (mem-cons_of_mem a mx) (mem-cons_of_mem a my)))

  pub Separates-Perm : (l l' : List A) → Perm l l' → Separates l' → Separates l
  Separates-Perm l l' p apart x y mx my = apart x y ((Perm.mem_iff p).0 mx) ((Perm.mem_iff p).0 my)

  pub HasDistinct-Separates : (l : List A) → IsSet A → HasDistinct l → Separates l
  HasDistinct-Separates [] s h x y mx my e = absurd (not-mem-nil mx)
  HasDistinct-Separates (a ∷ l) s (lead, h) x y mx my e =
      Or.elim (s x y) (eq-or-mem_of_mem-cons mx)
        (λ ex.
          Or.elim (s x y) (eq-or-mem_of_mem-cons my) (λ ey. cc)
            (λ ny. absurd (All-mem l y (λ z. ¬_prop) lead ny (sym e ∙ ap f ex))))
        (λ nx.
          Or.elim (s x y) (eq-or-mem_of_mem-cons my)
            (λ ey. absurd (All-mem l x (λ z. ¬_prop) lead nx (e ∙ ap f ey)))
            (λ ny. HasDistinct-Separates l s h x y nx ny e))

  pub IsDescendingBy-append_last :
      (l : List A) (x : A)
      → IsDescendingBy l
      → All (λ y. f x ≤ f y) l
      → IsDescendingBy (l ++ x ∷ [])
  IsDescendingBy-append_last [] x d h = (tt, tt)
  IsDescendingBy-append_last (y ∷ l) x (lead, d) (p, h) =
      (All-append _ l (x ∷ []) lead (p, tt), IsDescendingBy-append_last l x d h)

  -- A sort that puts each element before the first one whose key is no higher.
  abbrev pub insert_by : A → List A → List A
  insert_by x [] = x ∷ []
  insert_by x (y ∷ l) = let rest = insert_by x l in if leb (f y) (f x) then x ∷ y ∷ l else y ∷ rest

  abbrev pub sort_by : List A → List A
  sort_by [] = []
  sort_by (x ∷ l) = insert_by x (sort_by l)

  insert_by-All : (P : A → Type 0) (x : A) (l : List A) → P x → All P l → All P (insert_by x l)
  insert_by-All P x [] p h = (p, tt)
  insert_by-All P x (y ∷ l) p (q, h) = elim (Bool-cases (leb (f y) (f x))) [
    | inl e ↦ rw e (p, (q, h))
    | inr e ↦ rw e (q, insert_by-All P x l p h)
  ]

  All-weaken_le : (m n : ℕ) (l : List A) → m ≤ n → All (λ y. f y ≤ m) l → All (λ y. f y ≤ n) l
  All-weaken_le m n [] le h = tt
  All-weaken_le m n (y ∷ l) le (p, h) = (omega arith, All-weaken_le m n l le h)

  insert_by-IsDescendingBy :
      (x : A) (l : List A) → IsDescendingBy l → IsDescendingBy (insert_by x l)
  insert_by-IsDescendingBy x [] d = (tt, tt)
  insert_by-IsDescendingBy x (y ∷ l) (lead, d) = elim (Bool-cases (leb (f y) (f x))) [
    | inl e ↦ rw e ((ground arith, All-weaken_le (f y) (f x) l (ground arith) lead), (lead, d))
    | inr e ↦
        rw e
          (insert_by-All (λ z. f z ≤ f y) x l (ground arith) lead, insert_by-IsDescendingBy x l d)
  ]

  insert_by-perm : (x : A) (l : List A) → Perm (insert_by x l) (x ∷ l)
  insert_by-perm x [] = Perm.refl _
  insert_by-perm x (y ∷ l) = elim (Bool-cases (leb (f y) (f x))) [
    | inl e ↦ rw e (Perm.refl _)
    | inr e ↦ rw e (Perm.trans (Perm.cons y (insert_by-perm x l)) (Perm.swap x y l))
  ]

  pub sort_by-IsDescendingBy : (l : List A) → IsDescendingBy (sort_by l)
  sort_by-IsDescendingBy [] = tt
  sort_by-IsDescendingBy (x ∷ l) = insert_by-IsDescendingBy x (sort_by l) (sort_by-IsDescendingBy l)

  pub sort_by-perm : (l : List A) → Perm (sort_by l) l
  sort_by-perm [] = Perm.refl []
  sort_by-perm (x ∷ l) = Perm.trans (insert_by-perm x (sort_by l)) (Perm.cons x (sort_by-perm l))

  pub map-All : (n : ℕ) (l : List A) → All (λ y. f y ≤ n) l → All (λ y. y ≤ n) (map f l)
  map-All n [] h = tt
  map-All n (x ∷ l) (p, h) = (p, map-All n l h)

pub map-IsDescendingBy {ℓ} :
    {A : Type ℓ} (f : A → ℕ) (l : List A) → IsDescendingBy f l → IsDescendingBy (λ n. n) (map f l)
map-IsDescendingBy f [] d = tt
map-IsDescendingBy f (x ∷ l) (lead, d) = (map-All f (f x) l lead, map-IsDescendingBy f l d)

-- The keys of two falling permutations of one list are the same, whatever elements share a key.
pub descending_keys_unique {ℓ} :
    {A : Type ℓ} (f : A → ℕ) (l r : List A)
    → IsDescendingBy f l
    → IsDescendingBy f r
    → Perm l r
    → map f l ≡ map f r
descending_keys_unique f l r dl dr p =
    descending_unique (λ n. n) (map f l) (map f r) (map-IsDescendingBy f l dl)
      (map-IsDescendingBy f r dr) (Perm.map f p) (λ x y mx my e. e)

pub map-take {ℓ} :
    {A : Type ℓ} (f : A → ℕ) (n : ℕ) (l : List A) → map f (take n l) ≡ take n (map f l)
map-take f zero l = refl
map-take f (suc n) [] = refl
map-take f (suc n) (x ∷ l) = ap (◌∷◌ (f x)) (map-take f n l)
