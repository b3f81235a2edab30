-- ===== src/Prelude/Elem.antt =====
-- Occurrence in a list whose entries have no decidable equality, such as a family of sets.
use juris_calculus.Prelude.Tests.{Bool-cases}
use juris_calculus.Prelude.Lists.{filter, any, all}
use mathlib.Core.Path.{◌≡◌, refl, sym, subst}
use mathlib.Core.Logic.{inl, inr}
use mathlib.Core.Bool.{Bool, true}
use mathlib.Core.List.{List, [], ◌∷◌, ◌++◌, Memᴰ}
use mathlib.Core.List.Memᴰ
use native.Mathlib.Omega.{arith}

module _ {ℓ} {A : Type ℓ} where
  pub Elem-append_left : (a : A) (xs ys : List A) → Memᴰ a xs → Memᴰ a (xs ++ ys)
  Elem-append_left a [] ys h = elim h [ ]
  Elem-append_left a (x ∷ xs) ys (Memᴰ.head e) = Memᴰ.head e
  Elem-append_left a (x ∷ xs) ys (Memᴰ.tail r) = Memᴰ.tail (Elem-append_left a xs ys r)

  pub Elem-append_right : (a : A) (xs ys : List A) → Memᴰ a ys → Memᴰ a (xs ++ ys)
  Elem-append_right a [] ys h = h
  Elem-append_right a (x ∷ xs) ys h = Memᴰ.tail (Elem-append_right a xs ys h)

  pub Elem-filter :
      (p : A → Bool) (xs : List A) (a : A) → Memᴰ a (filter p xs) → Memᴰ a xs × (p a ≡ true)
  unfolding filter
  Elem-filter p [] a h = absurd (Memᴰ.not-nil h)
  Elem-filter p (x ∷ xs) a h = elim (Bool-cases (p x)) [
    | inl now ↦
        let first : Memᴰ a (x ∷ filter p xs) = rw now at h in
        elim first [
          | Memᴰ.head e ↦ (Memᴰ.head e, subst (λ y. p y ≡ true) (sym e) now)
          | Memᴰ.tail r ↦ let (i, e) = Elem-filter p xs a r in (Memᴰ.tail i, e)
        ]
    | inr later ↦ let (i, e) = Elem-filter p xs a (rw later at h) in (Memᴰ.tail i, e)
  ]

  pub Elem-filter_of :
      (p : A → Bool) (xs : List A) (a : A) → Memᴰ a xs → p a ≡ true → Memᴰ a (filter p xs)
  unfolding filter
  Elem-filter_of p [] a h e = elim h [ ]
  Elem-filter_of p (x ∷ xs) a (Memᴰ.head s) e = rw (subst (λ y. p y ≡ true) s e) (Memᴰ.head s)
  Elem-filter_of p (x ∷ xs) a (Memᴰ.tail r) e = elim (Bool-cases (p x)) [
    | inl now ↦ rw now (Memᴰ.tail (Elem-filter_of p xs a r e))
    | inr later ↦ rw later (Elem-filter_of p xs a r e)
  ]

  pub any_of_Elem : (p : A → Bool) (xs : List A) (a : A) → Memᴰ a xs → p a ≡ true → any p xs ≡ true
  unfolding any
  any_of_Elem p [] a h e = elim h [ ]
  any_of_Elem p (x ∷ xs) a (Memᴰ.head s) e = rw (subst (λ y. p y ≡ true) s e) refl
  any_of_Elem p (x ∷ xs) a (Memᴰ.tail r) e = ground (arith, any_of_Elem p xs a r e)

  pub Elem_of_any :
      (p : A → Bool) (xs : List A) → any p xs ≡ true → (a : A) × Memᴰ a xs × (p a ≡ true)
  unfolding any
  Elem_of_any p [] h = cc
  Elem_of_any p (x ∷ xs) h = elim (Bool-cases (p x)) [
    | inl now ↦ (x, Memᴰ.head refl, now)
    | inr later ↦ let (a, i, e) = Elem_of_any p xs (rw later at h) in (a, Memᴰ.tail i, e)
  ]

  pub all_at_Elem : (p : A → Bool) (xs : List A) (a : A) → all p xs ≡ true → Memᴰ a xs → p a ≡ true
  unfolding all
  all_at_Elem p [] a h m = elim m [ ]
  all_at_Elem p (x ∷ xs) a h (Memᴰ.head s) = subst (λ y. p y ≡ true) (sym s) (ground arith)
  all_at_Elem p (x ∷ xs) a h (Memᴰ.tail r) = all_at_Elem p xs a (ground arith) r

  pub all_of_Elem :
      (p : A → Bool) (xs : List A) → ((a : A) → Memᴰ a xs → p a ≡ true) → all p xs ≡ true
  unfolding all
  all_of_Elem p [] f = refl
  all_of_Elem p (x ∷ xs) f = rw (f x (Memᴰ.head refl)) (all_of_Elem p xs (λ a i. f a (Memᴰ.tail i)))
