-- ===== src/Limits/Keyed.antt =====
-- A `Map` filled in a loop: entries keep the place of their key's first insertion.
use tokenpanel.Prelude.{
  ◌≡◌, ◌∙◌, ◌⊎◌, inl, inr, Bool, true, false, List, [], ◌∷◌, All, Bool-cases, if◌then◌else◌,
}

abbrev pub Any {ℓ} : {A : Type ℓ} → (A → Type 0) → List A → Type 0
Any P [] = ⊥
Any P (x ∷ xs) = P x ⊎ Any P xs

module _ {A : Type 0} (same_key : A → A → Bool) where
  -- No two entries have the same key.
  abbrev pub Distinct : List A → Type 0
  Distinct [] = Unit
  Distinct (x ∷ xs) = All (λ y. same_key x y ≡ false) xs × Distinct xs

pub All-map :
    {A : Type 0} (P Q : A → Type 0) → ((x : A) → P x → Q x) → (xs : List A) → All P xs → All Q xs
All-map P Q f [] h = tt
All-map P Q f (x ∷ xs) h = (f x h.0, All-map P Q f xs h.1)

module _ {A : Type 0} (same_key : A → A → Bool) (merge : A → A → A) where
  -- `map.set(key, merge(map.get(key), a))`
  abbrev pub put : A → List A → List A
  put a [] = a ∷ []
  put a (x ∷ xs) = if same_key x a then merge x a ∷ xs else x ∷ put a xs

  abbrev pub put_all : List A → List A → List A
  put_all [] map = map
  put_all (a ∷ rest) map = put_all rest (put a map)

  put-All :
      (P : A → Type 0) (a : A) (xs : List A)
      → P a
      → ((x : A) → same_key x a ≡ true → P x → P (merge x a))
      → All P xs
      → All P (put a xs)
  put-All P a [] h m hs = (h, tt)
  put-All P a (x ∷ xs) h m hs = elim (Bool-cases (same_key x a)) [
    | inl e ↦ rw e (m x e hs.0, hs.1)
    | inr e ↦ rw e (hs.0, put-All P a xs h m hs.1)
  ]

  pub put_all-All :
      (P : A → Type 0) (items : List A) (xs : List A)
      → ((x a : A) → same_key x a ≡ true → P x → P a → P (merge x a))
      → All P items
      → All P xs
      → All P (put_all items xs)
  put_all-All P [] xs m h hs = hs
  put_all-All P (a ∷ rest) xs m h hs =
      put_all-All P rest (put a xs) m h.1 (put-All P a xs h.0 (λ x e p. m x a e p h.0) hs)

  module _ (left : (x a y : A) → same_key x a ≡ true → same_key (merge x a) y ≡ same_key x y)
      (right : (x a y : A) → same_key x a ≡ true → same_key y (merge x a) ≡ same_key y x) where
    put-Distinct : (a : A) (xs : List A) → Distinct same_key xs → Distinct same_key (put a xs)
    put-Distinct a [] d = (tt, tt)
    put-Distinct a (x ∷ xs) d = elim (Bool-cases (same_key x a)) [
      | inl e ↦ rw e (
        All-map (λ y. same_key x y ≡ false) (λ y. same_key (merge x a) y ≡ false)
            (λ y h. left x a y e ∙ h) xs d.0,
        d.1,
      )
      | inr e ↦ rw e (
        put-All (λ y. same_key x y ≡ false) a xs e (λ y e' h. right y a x e' ∙ h) d.0,
        put-Distinct a xs d.1,
      )
    ]

    -- A map filled by puts has each key once.
    pub put_all-Distinct :
        (items : List A) (xs : List A) → Distinct same_key xs → Distinct same_key (put_all items xs)
    put_all-Distinct [] xs d = d
    put_all-Distinct (a ∷ rest) xs d = put_all-Distinct rest (put a xs) (put-Distinct a xs d)

  -- `R s a`: the entry s stands for a.
  module _ (R : A → A → Type 0) (own : (a : A) → R a a)
      (joins : (x a : A) → same_key x a ≡ true → R (merge x a) a)
      (stays : (x a b : A) → same_key x a ≡ true → R x b → R (merge x a) b) where
    put-new : (a : A) (xs : List A) → Any (λ s. R s a) (put a xs)
    put-new a [] = inl (own a)
    put-new a (x ∷ xs) = elim (Bool-cases (same_key x a)) [
      | inl e ↦ rw e (inl (joins x a e))
      | inr e ↦ rw e (inr (put-new a xs))
    ]

    put-old : (a b : A) (xs : List A) → Any (λ s. R s b) xs → Any (λ s. R s b) (put a xs)
    put-old a b [] h = elim h [ ]
    put-old a b (x ∷ xs) h = elim (Bool-cases (same_key x a)) [
      | inl e ↦ rw e (elim h [ inl r ↦ inl (stays x a b e r) | inr r ↦ inr r ])
      | inr e ↦ rw e (elim h [ inl r ↦ inl r | inr r ↦ inr (put-old a b xs r) ])
    ]

    put_all-old :
        (b : A) (items : List A) (xs : List A)
        → Any (λ s. R s b) xs
        → Any (λ s. R s b) (put_all items xs)
    put_all-old b [] xs h = h
    put_all-old b (a ∷ rest) xs h = put_all-old b rest (put a xs) (put-old a b xs h)

    -- Every value that was put has an entry that stands for it.
    pub put_all-covers :
        (items : List A) (xs : List A) → All (λ a. Any (λ s. R s a) (put_all items xs)) items
    put_all-covers [] xs = tt
    put_all-covers (a ∷ rest) xs =
        (put_all-old a rest (put a xs) (put-new a xs), put_all-covers rest (put a xs))

pub All-zip :
    {A : Type 0} (P Q R : A → Type 0)
    → ((x : A) → P x → Q x → R x)
    → (xs : List A) → All P xs
    → All Q xs
    → All R xs
All-zip P Q R f [] h k = tt
All-zip P Q R f (x ∷ xs) h k = (f x h.0 k.0, All-zip P Q R f xs h.1 k.1)

pub Any-map :
    {A : Type 0} (P Q : A → Type 0) → ((x : A) → P x → Q x) → (xs : List A) → Any P xs → Any Q xs
Any-map P Q f [] h = elim h [ ]
Any-map P Q f (x ∷ xs) h = elim h [ inl p ↦ inl (f x p) | inr r ↦ inr (Any-map P Q f xs r) ]
