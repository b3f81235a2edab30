-- ===== src/Dung.antt =====
-- Dung's abstract argumentation: what attack, defence and the four kinds of extension mean,
-- independently of any code. The sets are lists of members.
use juris_calculus.Prelude.{Key, ◌∈◌, ◌⊆◌, List}

module _ {ℓ} {A : Type ℓ} ⦃k : Key A⦄ (args : List A) (Attacks : A → A → Type 0) where
  -- Every attacker of `c` is attacked by a member of `s`.
  abbrev pub Defends : List A → A → Type ℓ
  Defends s c = (a : A) → a ∈ args → Attacks a c → (d : A) × (d ∈ s) × Attacks d a

  abbrev pub ConflictFree : List A → Type ℓ
  ConflictFree s = (a b : A) → a ∈ s → b ∈ s → ¬ Attacks a b

  pub record IsAdmissible (s : List A) : Type ℓ where
    pub within : s ⊆ args
    pub conflict_free : ConflictFree s
    pub defended : (c : A) → c ∈ s → Defends s c

  pub record IsComplete (s : List A) : Type ℓ where
    pub admissible : IsAdmissible s
    pub closed : (c : A) → c ∈ args → Defends s c → c ∈ s

  pub record IsStable (s : List A) : Type ℓ where
    pub within : s ⊆ args
    pub conflict_free : ConflictFree s
    pub attacks_rest : (c : A) → c ∈ args → ¬ (c ∈ s) → (d : A) × (d ∈ s) × Attacks d c

  pub record IsPreferred (s : List A) : Type ℓ where
    pub admissible : IsAdmissible s
    pub maximal : (t : List A) → IsAdmissible t → s ⊆ t → t ⊆ s

  -- The least complete extension.
  pub record IsGrounded (s : List A) : Type ℓ where
    pub complete : IsComplete s
    pub least : (t : List A) → IsComplete t → s ⊆ t

-- The notions depend only on membership.
module _ {ℓ} {A : Type ℓ} ⦃k : Key A⦄ {args : List A} {Attacks : A → A → Type 0} {s t : List A}
    (down : s ⊆ t) (up : t ⊆ s) where
  pub IsAdmissible-ext : IsAdmissible args Attacks s → IsAdmissible args Attacks t
  IsAdmissible-ext v = record {
    within = λ a m. v.within a (up a m);
    conflict_free = λ a b i j. v.conflict_free a b (up a i) (up b j);
    defended = λ c m a i h. let (d, j, g) = v.defended c (up c m) a i h in (d, down d j, g);
  }

  pub IsComplete-ext : IsComplete args Attacks s → IsComplete args Attacks t
  IsComplete-ext v = record {
    admissible = IsAdmissible-ext v.admissible;
    closed = λ c m f. down c (v.closed c m λ a i h. let (d, j, g) = f a i h in (d, up d j, g));
  }

  pub IsStable-ext : IsStable args Attacks s → IsStable args Attacks t
  IsStable-ext v = record {
    within = λ a m. v.within a (up a m);
    conflict_free = λ a b i j. v.conflict_free a b (up a i) (up b j);
    attacks_rest =
        λ c m n. let (d, j, g) = v.attacks_rest c m (λ i. n (down c i)) in (d, down d j, g);
  }

  pub IsPreferred-ext : IsPreferred args Attacks s → IsPreferred args Attacks t
  IsPreferred-ext v = record {
    admissible = IsAdmissible-ext v.admissible;
    maximal = λ u w f a m. down a (v.maximal u w (λ b i. f b (down b i)) a m);
  }

  pub IsGrounded-ext : IsGrounded args Attacks s → IsGrounded args Attacks t
  IsGrounded-ext v = record {
    complete = IsComplete-ext v.complete;
    least = λ u w a m. v.least u w a (up a m);
  }

-- They depend only on which arguments attack which.
module _ {ℓ} {A : Type ℓ} ⦃k : Key A⦄ {args : List A} {R S : A → A → Type 0}
    (to : (a b : A) → R a b → S a b) (back : (a b : A) → S a b → R a b) where
  IsAdmissible-attacks : {s : List A} → IsAdmissible args R s → IsAdmissible args S s
  IsAdmissible-attacks v = record {
    within = v.within;
    conflict_free = λ a b i j h. v.conflict_free a b i j (back a b h);
    defended = λ c m a i h. let (d, j, g) = v.defended c m a i (back a c h) in (d, j, to d a g);
  }

  pub IsComplete-attacks : {s : List A} → IsComplete args R s → IsComplete args S s
  IsComplete-attacks v = record {
    admissible = IsAdmissible-attacks v.admissible;
    closed = λ c m f. v.closed c m λ a i h. let (d, j, g) = f a i (to a c h) in (d, j, back d a g);
  }

pub IsGrounded-attacks {ℓ} :
    {A : Type ℓ} ⦃k : Key A⦄ {args : List A} {R S : A → A → Type 0}
    → ((a b : A) → R a b → S a b)
    → ((a b : A) → S a b → R a b)
    → {s : List A} → IsGrounded args R s
    → IsGrounded args S s
IsGrounded-attacks to back v = record {
  complete = IsComplete-attacks to back v.complete;
  least = λ t w. v.least t (IsComplete-attacks back to w);
}
