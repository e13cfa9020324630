-- ===== src/Common/Sort.antt =====
-- Go's sort.Strings: by the order of code points, which is the order of the bytes.
use qoderwork2api.Common.{
  ◌≡◌, refl, ◌⊎◌, inl, inr, Bool, true, false, ◌&&◌, ◌||◌, List, [], ◌∷◌, arith, if◌then◌else◌, ltb,
  nat_eq, In, Bool-cases,
}
use qoderwork2api.Common.Eq.{Text}

unfoldable pub text_leb : Text → Text → Bool
text_leb [] t = true
text_leb (c ∷ s) [] = false
text_leb (c ∷ s) (d ∷ t) = ltb c d || (nat_eq c d && text_leb s t)

insert_text : Text → List Text → List Text
insert_text k [] = k ∷ []
insert_text k (x ∷ xs) =
    let rest = insert_text k xs in if text_leb k x then k ∷ x ∷ xs else x ∷ rest

unfoldable pub sort_texts : List Text → List Text
unfolding insert_text text_leb
sort_texts [] = []
sort_texts (x ∷ xs) = insert_text x (sort_texts xs)

pub text_leb_total : (s t : Text) → text_leb s t ≡ false → text_leb t s ≡ true
unfolding text_leb
text_leb_total [] t h = cc
text_leb_total (c ∷ s) [] h = refl
text_leb_total (c ∷ s) (d ∷ t) h = ground (arith, text_leb_total s t)

abbrev pub Starts : Text → List Text → Type 0
Starts k [] = Unit
Starts k (x ∷ xs) = text_leb k x ≡ true

abbrev pub IsSorted : List Text → Type 0
IsSorted [] = Unit
IsSorted (x ∷ xs) = Starts x xs × IsSorted xs

insert_text-Starts :
    (j k : Text) (xs : List Text) → text_leb j k ≡ true → Starts j xs → Starts j (insert_text k xs)
unfolding insert_text
insert_text-Starts j k [] h s = h
insert_text-Starts j k (x ∷ xs) h s = ground arith

insert_text-IsSorted : (k : Text) (xs : List Text) → IsSorted xs → IsSorted (insert_text k xs)
unfolding insert_text
insert_text-IsSorted k [] s = (tt, tt)
insert_text-IsSorted k (x ∷ xs) s = elim (Bool-cases (text_leb k x)) [
  | inl e ↦ rw e (e, s)
  | inr e ↦
      rw e (insert_text-Starts x k xs (text_leb_total k x e) s.0, insert_text-IsSorted k xs s.1)
]

pub sort_texts-IsSorted : (xs : List Text) → IsSorted (sort_texts xs)
unfolding sort_texts
sort_texts-IsSorted [] = tt
sort_texts-IsSorted (x ∷ xs) = insert_text-IsSorted x (sort_texts xs) (sort_texts-IsSorted xs)

In-split :
    (b : Bool) (a k x : Text) (xs ys : List Text)
    → (In a ys → (k ≡ a) ⊎ In a xs)
    → In a (if b then k ∷ x ∷ xs else x ∷ ys)
    → (k ≡ a) ⊎ In a (x ∷ xs)
In-split true a k x xs ys rest i = i
In-split false a k x xs ys rest (inl e) = inr (inl e)
In-split false a k x xs ys rest (inr i) = elim (rest i) [ inl e ↦ inl e | inr j ↦ inr (inr j) ]

In-insert_text : (a k : Text) (xs : List Text) → In a (insert_text k xs) → (k ≡ a) ⊎ In a xs
unfolding insert_text
In-insert_text a k [] i = i
In-insert_text a k (x ∷ xs) i =
    In-split (text_leb k x) a k x xs (insert_text k xs) (In-insert_text a k xs) i

insert_text-In : (a k : Text) (xs : List Text) → (k ≡ a) ⊎ In a xs → In a (insert_text k xs)
unfolding insert_text
insert_text-In a k [] i = i
insert_text-In a k (x ∷ xs) i = elim (Bool-cases (text_leb k x)) [
  | inl e ↦ rw e i
  | inr e ↦ rw e (elim i [
    | inl h ↦ inr (insert_text-In a k xs (inl h))
    | inr (inl h) ↦ inl h
    | inr (inr h) ↦ inr (insert_text-In a k xs (inr h))
  ])
]

-- Sorting keeps the members.
pub In-sort_texts : (a : Text) (xs : List Text) → In a (sort_texts xs) → In a xs
unfolding sort_texts
In-sort_texts a [] i = i
In-sort_texts a (x ∷ xs) i = elim (In-insert_text a x (sort_texts xs) i) [
  | inl e ↦ inl e
  | inr j ↦ inr (In-sort_texts a xs j)
]

pub sort_texts-In : (a : Text) (xs : List Text) → In a xs → In a (sort_texts xs)
unfolding sort_texts
sort_texts-In a [] i = i
sort_texts-In a (x ∷ xs) (inl e) = insert_text-In a x (sort_texts xs) (inl e)
sort_texts-In a (x ∷ xs) (inr i) = insert_text-In a x (sort_texts xs) (inr (sort_texts-In a xs i))
