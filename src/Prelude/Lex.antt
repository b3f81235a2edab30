-- ===== src/Prelude/Lex.antt =====
-- Identifiers are strings, which Python orders by code points; pairs are ordered lexicographically.
use juris_calculus.Prelude.Tests.{ltb, leb, ◌==◌, ==_iff, if◌then◌else◌}
use juris_calculus.Prelude.Keys.{Key}
use Prim.Native.Nat.{ℕ}
use Prim.Native.Char.{code}
use Prim.Native.String.{String}
use text.Mathlib.Text.{◌==◌ as str_eq}
use text.Mathlib.TextEquality.{eq_iff, Char-path}
use mathlib.Core.Path.{◌≡◌, refl, ap, ap₂}
use mathlib.Core.Logic.{◌↔◌, ◌⊎◌, inl, inr}
use mathlib.Core.Bool.{Bool, true, false, ◌&&◌}
use mathlib.Core.List.{List, [], ◌∷◌}
use native.Mathlib.Omega.{arith}

-- `s <= t` of two lists of code points.
unfoldable pub codes_le : List ℕ → List ℕ → Bool
codes_le [] t = true
codes_le (a ∷ s) [] = false
codes_le (a ∷ s) (b ∷ t) = if ltb a b then true else (a == b) && codes_le s t

pub codes_le_total : (s t : List ℕ) → (codes_le s t ≡ true) ⊎ (codes_le t s ≡ true)
unfolding codes_le
codes_le_total [] t = inl refl
codes_le_total (a ∷ s) [] = inr refl
codes_le_total (a ∷ s) (b ∷ t) = ground (arith, codes_le_total s t)

pub codes_le_trans :
    (s t u : List ℕ) → codes_le s t ≡ true → codes_le t u ≡ true → codes_le s u ≡ true
unfolding codes_le
codes_le_trans [] t u h i = refl
codes_le_trans (a ∷ s) [] u h i = cc
codes_le_trans (a ∷ s) (b ∷ t) [] h i = cc
codes_le_trans (a ∷ s) (b ∷ t) (c ∷ u) h i = ground (arith, codes_le_trans s t u)

pub codes_le_antisym : (s t : List ℕ) → codes_le s t ≡ true → codes_le t s ≡ true → s ≡ t
unfolding codes_le
codes_le_antisym [] [] h i = refl
codes_le_antisym [] (b ∷ t) h i = cc
codes_le_antisym (a ∷ s) [] h i = cc
codes_le_antisym (a ∷ s) (b ∷ t) h i = ground (arith, codes_le_antisym s t)

unfoldable pub codes : String → List ℕ
codes String.[] = []
codes (String.◌∷◌ c s) = code c ∷ codes s

list_head : ℕ → List ℕ → ℕ
list_head d [] = d
list_head d (a ∷ s) = a

list_tail : List ℕ → List ℕ
list_tail [] = []
list_tail (a ∷ s) = s

pub codes-injective : (s t : String) → codes s ≡ codes t → s ≡ t
unfolding codes list_head list_tail
codes-injective String.[] String.[] e = refl
codes-injective String.[] (String.◌∷◌ d t) e = cc
codes-injective (String.◌∷◌ c s) String.[] e = cc
codes-injective (String.◌∷◌ c s) (String.◌∷◌ d t) e =
    ap₂ String.◌∷◌ (Char-path c d (ap (list_head 0) e)) (codes-injective s t (ap list_tail e))

instance abbrev pub string_key : Key String
string_key = record {
  beq = str_eq;
  beq_iff = eq_iff;
  le = λ s t. codes_le (codes s) (codes t);
  le_total = λ s t. codes_le_total (codes s) (codes t);
  le_trans = λ s t u. codes_le_trans (codes s) (codes t) (codes u);
  le_antisym = λ s t h i. codes-injective s t (codes_le_antisym (codes s) (codes t) h i);
}

module _ {ℓ κ} {A : Type ℓ} {B : Type κ} ⦃k : Key A⦄ ⦃l : Key B⦄ where
  abbrev pub pair_beq : A × B → A × B → Bool
  pair_beq (a, b) (c, d) = k.beq a c && l.beq b d

  abbrev pub pair_le : A × B → A × B → Bool
  pair_le (a, b) (c, d) = if k.beq a c then l.le b d else k.le a c

  pub pair_beq_iff : (p q : A × B) → (pair_beq p q ≡ true) ↔ (p ≡ q)
  pair_beq_iff (a, b) (c, d) = ground (arith, k.beq_iff a c, l.beq_iff b d)

  pub pair_le_total : (p q : A × B) → (pair_le p q ≡ true) ⊎ (pair_le q p ≡ true)
  pair_le_total (a, b) (c, d) =
      ground (arith, k.beq_iff a c, k.beq_iff c a, k.le_total a c, l.le_total b d)

  pub pair_le_trans : (p q r : A × B) → pair_le p q ≡ true → pair_le q r ≡ true → pair_le p r ≡ true
  pair_le_trans (a, b) (c, d) (e, f) h i = ground (
    arith,
    k.beq_iff a c,
    k.beq_iff c e,
    k.beq_iff a e,
    k.le_trans a c e,
    k.le_antisym a c,
    l.le_trans b d f,
  )

  pub pair_le_antisym : (p q : A × B) → pair_le p q ≡ true → pair_le q p ≡ true → p ≡ q
  pair_le_antisym (a, b) (c, d) h i =
      ground (arith, k.beq_iff a c, k.beq_iff c a, k.le_antisym a c, l.le_antisym b d)

instance abbrev pub pair_key {ℓ κ} : {A : Type ℓ} {B : Type κ} ⦃k : Key A⦄ ⦃l : Key B⦄ → Key (A × B)
pair_key = record {
  beq = pair_beq;
  beq_iff = pair_beq_iff;
  le = pair_le;
  le_total = pair_le_total;
  le_trans = pair_le_trans;
  le_antisym = pair_le_antisym;
}

module _ {ℓ} {A : Type ℓ} ⦃k : Key A⦄ where
  unfoldable pub list_beq : List A → List A → Bool
  list_beq [] [] = true
  list_beq (a ∷ s) (b ∷ t) = k.beq a b && list_beq s t
  list_beq _ _ = false

  unfoldable pub list_le : List A → List A → Bool
  list_le [] t = true
  list_le (a ∷ s) [] = false
  list_le (a ∷ s) (b ∷ t) = if k.beq a b then list_le s t else k.le a b

  pub list_beq_iff : (s t : List A) → (list_beq s t ≡ true) ↔ (s ≡ t)
  unfolding list_beq
  list_beq_iff [] [] = ground arith
  list_beq_iff [] (b ∷ t) = ground arith
  list_beq_iff (a ∷ s) [] = ground arith
  list_beq_iff (a ∷ s) (b ∷ t) = ground (arith, k.beq_iff a b, list_beq_iff s t)

  pub list_le_total : (s t : List A) → (list_le s t ≡ true) ⊎ (list_le t s ≡ true)
  unfolding list_le
  list_le_total [] t = inl refl
  list_le_total (a ∷ s) [] = inr refl
  list_le_total (a ∷ s) (b ∷ t) =
      ground (arith, k.beq_iff a b, k.beq_iff b a, k.le_total a b, list_le_total s t)

  pub list_le_trans :
      (s t u : List A) → list_le s t ≡ true → list_le t u ≡ true → list_le s u ≡ true
  unfolding list_le
  list_le_trans [] t u h i = refl
  list_le_trans (a ∷ s) [] u h i = cc
  list_le_trans (a ∷ s) (b ∷ t) [] h i = cc
  list_le_trans (a ∷ s) (b ∷ t) (c ∷ u) h i = ground (
    arith,
    k.beq_iff a b,
    k.beq_iff b c,
    k.beq_iff a c,
    k.le_trans a b c,
    k.le_antisym a b,
    list_le_trans s t u,
  )

  pub list_le_antisym : (s t : List A) → list_le s t ≡ true → list_le t s ≡ true → s ≡ t
  unfolding list_le
  list_le_antisym [] [] h i = refl
  list_le_antisym [] (b ∷ t) h i = cc
  list_le_antisym (a ∷ s) [] h i = cc
  list_le_antisym (a ∷ s) (b ∷ t) h i =
      ground (arith, k.beq_iff a b, k.beq_iff b a, k.le_antisym a b, list_le_antisym s t)

instance abbrev pub list_key {ℓ} : {A : Type ℓ} ⦃k : Key A⦄ → Key (List A)
list_key = record {
  beq = list_beq;
  beq_iff = list_beq_iff;
  le = list_le;
  le_total = list_le_total;
  le_trans = list_le_trans;
  le_antisym = list_le_antisym;
}

pub leb_total : (a b : ℕ) → (leb a b ≡ true) ⊎ (leb b a ≡ true)
leb_total a b = ground arith

pub leb_trans : (a b c : ℕ) → leb a b ≡ true → leb b c ≡ true → leb a c ≡ true
leb_trans a b c h i = ground arith

pub leb_antisym : (a b : ℕ) → leb a b ≡ true → leb b a ≡ true → a ≡ b
leb_antisym a b h i = ground arith

instance abbrev pub nat_key : Key ℕ
nat_key = record {
  beq = λ a b. a == b;
  beq_iff = ==_iff;
  le = leb;
  le_total = leb_total;
  le_trans = leb_trans;
  le_antisym = leb_antisym;
}
