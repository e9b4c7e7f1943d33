-- ===== src/Stats/Memory/Recent.antt =====
-- `GetRecentRequests` in file mode returns the most recent requests first.
use mathlib.Core.List.{reverse, reverse-cons}
use native.Mathlib.Numerals.{add-one}
use gospidertrap.Common.{
  ℕ, zero, suc, ◌+◌, ◌-◌, ◌≤◌, ◌<◌, ◌≡◌, refl, sym, Bool-cases, inl, inr, some, List, [], ◌∷◌, ◌++◌,
  arith, ◌∙◌, length, length-reverse, take, drop, get_elem?, get_elem?-total, ltb, ◌==◌,
}
use gospidertrap.Common.Int.{ℤ, pos, negsuc}
use gospidertrap.Stats.{RequestInfo, Stats}
use gospidertrap.Stats.Memory.{recent_count, fill_recent, get_recent_requests}

module _ {ℓ} {A : Type ℓ} where
  get_elem?-append_left :
      (xs ys : List A) (i : ℕ) → i < length xs → get_elem? (xs ++ ys) i ≡ get_elem? xs i
  get_elem?-append_left [] ys i h = absurd (omega arith)
  get_elem?-append_left (x ∷ xs) ys zero h = refl
  get_elem?-append_left (x ∷ xs) ys (suc i) h = get_elem?-append_left xs ys i (omega arith)

  get_elem?-append_last : (xs : List A) (x : A) → get_elem? (xs ++ x ∷ []) (length xs) ≡ some x
  get_elem?-append_last [] x = refl
  get_elem?-append_last (y ∷ xs) x = get_elem?-append_last xs x

  get_elem?-reverse :
      (xs : List A) (i : ℕ)
      → i < length xs
      → get_elem? (reverse xs) i ≡ get_elem? xs (length xs - 1 - i)
  get_elem?-reverse [] i h = absurd (omega arith)
  get_elem?-reverse (x ∷ xs) i h = elim (Bool-cases (ltb i (length xs))) [
    | inl inside ↦
        let e : suc (length xs) - 1 - i ≡ suc (length xs - 1 - i) = ground arith in
        rw
          (
            reverse-cons,
            e,
            get_elem?-append_left (reverse xs) (x ∷ []) i (ground (arith, length-reverse xs)),
          )
          (get_elem?-reverse xs i (ground arith))
    | inr outside ↦
        let e : suc (length xs) - 1 - i ≡ 0 = ground arith in
        let e' : i ≡ length (reverse xs) = ground (arith, length-reverse xs) in
        rw (e, reverse-cons, e') (get_elem?-append_last (reverse xs) x)
  ]

  take-suc-drop :
      (n i : ℕ) (xs : List A) (x : A)
      → get_elem? xs i ≡ some x
      → take (suc n) (drop i xs) ≡ x ∷ take n (drop (suc i) xs)
  take-suc-drop n i [] x h = cc
  take-suc-drop n zero (y ∷ xs) x h = cc
  take-suc-drop n (suc i) (y ∷ xs) x h = take-suc-drop n i xs x h

fill_recent_step :
    (reqs rs : List RequestInfo) (n i : ℕ) (r : RequestInfo)
    → get_elem? reqs (length reqs - 1 - i) ≡ some r
    → fill_recent reqs n (i + 1) ≡ some rs
    → fill_recent reqs (suc n) i ≡ some (r ∷ rs)
unfolding fill_recent
fill_recent_step reqs rs n i r h k = ground arith

fill_recent-reverse :
    (reqs : List RequestInfo) (n i : ℕ)
    → n + i ≤ length reqs
    → fill_recent reqs n i ≡ some (take n (drop i (reverse reqs)))
unfolding fill_recent
fill_recent-reverse reqs zero i h = refl
fill_recent-reverse reqs (suc n) i h =
    let (r, found) = get_elem?-total (reverse reqs) i (omega (arith, length-reverse reqs)) in
    let at_end : get_elem? reqs (length reqs - 1 - i) ≡ some r =
      sym (get_elem?-reverse reqs i (omega arith)) ∙ found in
    rw (take-suc-drop n i (reverse reqs) r found) (
      fill_recent_step reqs _ n i r at_end
        (fill_recent-reverse reqs n (i + 1) (omega arith) ∙ rw add-one refl))

recent_count-le : (limit : ℤ) (total : ℕ) → recent_count limit total ≤ total
unfolding recent_count
recent_count-le (negsuc n) total = omega arith
recent_count-le (pos limit) total = ground arith

-- For every limit the loop stays within the list, and the result is the stored requests from the
-- most recent one back: as many as the limit says if it is positive, else all.
pub get_recent_requests-reverse :
    (s : Stats) (limit : ℤ)
    → get_recent_requests s limit
      ≡ some (take (recent_count limit (length s.recent_requests)) (reverse s.recent_requests))
unfolding get_recent_requests
get_recent_requests-reverse s limit = elim (Bool-cases (length s.recent_requests == 0)) [
  | inl empty ↦
      let none_asked : recent_count limit (length s.recent_requests) ≡ 0 =
        ground (arith, recent_count-le limit (length s.recent_requests)) in
      rw (empty, none_asked)
  | inr some_stored ↦ rw some_stored (
      fill_recent-reverse s.recent_requests (recent_count limit (length s.recent_requests)) 0
        (omega (arith, recent_count-le limit (length s.recent_requests))))
]
