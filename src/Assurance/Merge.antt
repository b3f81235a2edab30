-- ===== src/Assurance/Merge.antt =====
-- What the merges of lists keep.
use juris_calculus.Prelude.{
  Key, ◌≡◌, refl, sym, ap, ◌↔◌, ◌⊎◌, inl, inr, true, false, Bool-cases, List, [], ◌∷◌, ◌++◌, Memᴰ,
  Elem-append_left, Elem-append_right, has, String, string_key, arith, ◌∈◌, has-sort, mem-dedup,
  mem-append, mem-append_left, mem-append_right,
}
use juris_calculus.Assurance.{keep_first, place_by, sort_by, merge_by, merge_refs}

Elem-append {ℓ} : {A : Type ℓ} (a : A) (xs ys : List A) → Memᴰ a (xs ++ ys) → Memᴰ a xs ⊎ Memᴰ a ys
Elem-append a [] ys m = inr m
Elem-append a (x ∷ xs) ys (Memᴰ.head e) = inl (Memᴰ.head e)
Elem-append a (x ∷ xs) ys (Memᴰ.tail r) = elim (Elem-append a xs ys r) [
  | inl i ↦ inl (Memᴰ.tail i)
  | inr j ↦ inr j
]

module _ {ℓ κ} {E : Type ℓ} {K : Type κ} ⦃k : Key K⦄ (key : E → K) where
  Elem-place_by : (a x : E) (xs : List E) → Memᴰ a (place_by key x xs) → Memᴰ a (x ∷ xs)
  unfolding place_by
  Elem-place_by a x [] m = m
  Elem-place_by a x (y ∷ ys) m = elim (Bool-cases (k.le (key x) (key y))) [
    | inl le ↦ rw le at m
    | inr gt ↦
        let kept : Memᴰ a (y ∷ place_by key x ys) = rw gt at m in
        elim kept [
          | Memᴰ.head e ↦ Memᴰ.tail (Memᴰ.head e)
          | Memᴰ.tail r ↦ swap a x y ys (Elem-place_by a x ys r)
        ]
  ]
    where
      swap : (a x y : E) (ys : List E) → Memᴰ a (x ∷ ys) → Memᴰ a (x ∷ y ∷ ys)
      swap a x y ys (Memᴰ.head e) = Memᴰ.head e
      swap a x y ys (Memᴰ.tail r) = Memᴰ.tail (Memᴰ.tail r)

  Elem-place_by_of : (a x : E) (xs : List E) → Memᴰ a (x ∷ xs) → Memᴰ a (place_by key x xs)
  unfolding place_by
  Elem-place_by_of a x [] m = m
  Elem-place_by_of a x (y ∷ ys) m = elim (Bool-cases (k.le (key x) (key y))) [
    | inl le ↦ rw le m
    | inr gt ↦ rw gt (elim m [
      | Memᴰ.head e ↦ Memᴰ.tail (Elem-place_by_of a x ys (Memᴰ.head e))
      | Memᴰ.tail r ↦ elim r [
        | Memᴰ.head e ↦ Memᴰ.head e
        | Memᴰ.tail q ↦ Memᴰ.tail (Elem-place_by_of a x ys (Memᴰ.tail q))
      ]
    ])
  ]

  Elem-sort_by : (a : E) (xs : List E) → Memᴰ a (sort_by key xs) → Memᴰ a xs
  unfolding sort_by
  Elem-sort_by a [] m = m
  Elem-sort_by a (x ∷ xs) m = elim (Elem-place_by a x (sort_by key xs) m) [
    | Memᴰ.head e ↦ Memᴰ.head e
    | Memᴰ.tail r ↦ Memᴰ.tail (Elem-sort_by a xs r)
  ]

  Elem-sort_by_of : (a : E) (xs : List E) → Memᴰ a xs → Memᴰ a (sort_by key xs)
  unfolding sort_by
  Elem-sort_by_of a [] m = m
  Elem-sort_by_of a (x ∷ xs) (Memᴰ.head e) = Elem-place_by_of a x (sort_by key xs) (Memᴰ.head e)
  Elem-sort_by_of a (x ∷ xs) (Memᴰ.tail r) =
      Elem-place_by_of a x (sort_by key xs) (Memᴰ.tail (Elem-sort_by_of a xs r))

  keep_first-old :
      (seen : List K) (xs : List E) (a : E) → Memᴰ a (keep_first key seen xs) → Memᴰ a xs
  unfolding keep_first
  keep_first-old seen [] a m = m
  keep_first-old seen (x ∷ xs) a m = elim (Bool-cases (has (key x) seen)) [
    | inl old ↦ Memᴰ.tail (keep_first-old seen xs a (rw old at m))
    | inr new ↦
        let kept : Memᴰ a (x ∷ keep_first key (key x ∷ seen) xs) = rw new at m in
        elim kept [
          | Memᴰ.head e ↦ Memᴰ.head e
          | Memᴰ.tail r ↦ Memᴰ.tail (keep_first-old (key x ∷ seen) xs a r)
        ]
  ]

  -- An entry with the key is kept, unless the key was there.
  abbrev Kept : List E → E → Type (ℓ ⊔ κ)
  Kept xs a = (b : E) × Memᴰ b xs × (key b ≡ key a)

  keep_first-key :
      (seen : List K) (xs : List E) (a : E)
      → Memᴰ a xs
      → has (key a) seen ≡ false
      → Kept (keep_first key seen xs) a
  unfolding keep_first has
  keep_first-key seen [] a m h = elim m [ ]
  keep_first-key seen (x ∷ xs) a m h = elim (Bool-cases (has (key x) seen)) [
    | inl old ↦ rw old (keep_first-key seen xs a (later m old) h)
    | inr new ↦ rw new (elim (Bool-cases (k.beq (key a) (key x))) [
      | inl same ↦ (x, Memᴰ.head refl, sym ((k.beq_iff (key a) (key x)).0 same))
      | inr other ↦
          let (b, i, e) =
            keep_first-key (key x ∷ seen) xs a (elsewhere m other) (ground (arith, other, h)) in
          (b, Memᴰ.tail i, e)
    ])
  ]
    where
      later : Memᴰ a (x ∷ xs) → has (key x) seen ≡ true → Memᴰ a xs
      later (Memᴰ.head e) old = absurd (cc (e, old, h))
      later (Memᴰ.tail r) old = r

      elsewhere : Memᴰ a (x ∷ xs) → k.beq (key a) (key x) ≡ false → Memᴰ a xs
      elsewhere (Memᴰ.head e) other = absurd (cc ((k.beq_iff (key a) (key x)).1 (ap key e), other))
      elsewhere (Memᴰ.tail r) other = r

  pub merge_by-old : (xs ys : List E) (a : E) → Memᴰ a (merge_by key xs ys) → Memᴰ a xs ⊎ Memᴰ a ys
  unfolding merge_by
  merge_by-old xs ys a m = Elem-append a xs ys (keep_first-old [] (xs ++ ys) a (Elem-sort_by a _ m))

  pub merge_by-key : (xs ys : List E) (a : E) → Memᴰ a xs ⊎ Memᴰ a ys → Kept (merge_by key xs ys) a
  unfolding merge_by has
  merge_by-key xs ys a d =
      let (b, i, e) =
        keep_first-key [] (xs ++ ys) a
          (elim d [ inl m ↦ Elem-append_left a xs ys m | inr m ↦ Elem-append_right a xs ys m ])
          refl in
      (b, Elem-sort_by_of b _ i, e)

pub mem-merge_refs :
    (a : String) (xs ys : List String) → (a ∈ merge_refs xs ys) ↔ ((a ∈ xs) ⊎ (a ∈ ys))
unfolding merge_refs
mem-merge_refs a xs ys = (
  λ m. mem-append a xs ys ((mem-dedup a (xs ++ ys)).0 (rw has-sort at m)),
  λ d. rw has-sort (
      (mem-dedup a (xs ++ ys)).1
        (elim d [ inl m ↦ mem-append_left a xs ys m | inr m ↦ mem-append_right a xs ys m ])),
)
