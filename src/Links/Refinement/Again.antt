-- ===== src/Links/Refinement/Again.antt =====
-- `enet_list_insert` of original/list.c with a node that is in the list already.
use enet_rs.Prelude.{
  ℕ, ◌≡◌, ◌≢◌, refl, ◌∙◌, List, [], ◌∷◌, ◌++◌, is_empty, ◌==◌, if◌then◌else◌, arith,
}
use enet_rs.Links.{Links, set_next, set_previous, list_insert}
use enet_rs.Links.Refinement.{
  Chain, adjacent, through, Absent, absent_from, Distinct, distinct, insert_next, Represents,
}

-- From a, the next fields lead through xs to b.
pub data LeadsTo (l : Links) : ℕ → List ℕ → ℕ → Type 0 where
  at_once : (a b : ℕ) → l.next a ≡ b → LeadsTo l a [] b
  by_way_of :
      (a x : ℕ) (xs : List ℕ) (b : ℕ) → l.next a ≡ x → LeadsTo l x xs b → LeadsTo l a (x ∷ xs) b

-- The node before b.
abbrev before : ℕ → List ℕ → ℕ
before a [] = a
before a (x ∷ xs) = before x xs

before-previous :
    (l : Links) (a : ℕ) (xs : List ℕ) (b : ℕ) → Chain l a xs b → l.previous b ≡ before a xs
before-previous l a [] b (adjacent _ _ x) = x.back
before-previous l a (x ∷ xs) b (through _ _ _ _ _ c) = before-previous l x xs b c

before-append : (a : ℕ) (xs : List ℕ) (x : ℕ) (ys : List ℕ) → before a (xs ++ x ∷ ys) ≡ before x ys
before-append a [] x ys = refl
before-append a (y ∷ xs) x ys = before-append y xs x ys

-- A node that is absent from the nodes is not the last of them.
last_differs : (n a : ℕ) (xs : List ℕ) → Absent n (a ∷ xs) → n ≢ before a xs
last_differs n a [] (absent_from _ _ h _) = h
last_differs n a (x ∷ xs) (absent_from _ _ _ h) = last_differs n x xs h

Absent-behind : (n : ℕ) (xs ys : List ℕ) → Absent n (xs ++ ys) → Absent n ys
Absent-behind n [] ys h = h
Absent-behind n (x ∷ xs) ys (absent_from _ _ _ h) = Absent-behind n xs ys h

-- The nodes in front of x, which differ from x and from the last node, lead to it as before.
LeadsTo-insert :
    (l : Links) (s x : ℕ) (ys : List ℕ) (b : ℕ) (xs : List ℕ) (a : ℕ)
    → l.previous s ≡ before x ys
    → Chain l a (xs ++ x ∷ ys) b
    → Distinct (a ∷ xs ++ x ∷ ys)
    → LeadsTo (list_insert s x l) a xs x
LeadsTo-insert l s x ys b [] a e (through _ _ _ _ y _) (distinct _ _ h _) =
    at_once a x (insert_next s x l a (λ f. last_differs a x ys h (f ∙ e)) (front h) ∙ y.forward)
  where
    front : Absent a (x ∷ ys) → a ≢ x
    front (absent_from _ _ g _) = g
LeadsTo-insert l s x ys b (z ∷ xs) a e (through _ _ _ _ y c)
      (distinct _ _ (absent_from _ _ _ h) d) =
    by_way_of a z xs x
      (insert_next s x l a (λ f. last_differs a x ys g (f ∙ e)) (front g) ∙ y.forward)
      (LeadsTo-insert l s x ys b xs z e c d)
  where
    g : Absent a (x ∷ ys)
    g = Absent-behind a xs (x ∷ ys) h

    front : Absent a (x ∷ ys) → a ≢ x
    front (absent_from _ _ k _) = k

next_inserted :
    (l : Links) (s x : ℕ) → (list_insert s x l).next x ≡ (if l.previous s == x then x else s)
unfolding list_insert set_next set_previous
next_inserted l s x = ground arith

behind_apart :
    (x : ℕ) (ys : List ℕ) (xs : List ℕ) (a : ℕ) → Distinct (a ∷ xs ++ x ∷ ys) → Absent x ys
behind_apart x ys [] a (distinct _ _ _ (distinct _ _ h _)) = h
behind_apart x ys (z ∷ xs) a (distinct _ _ _ d) = behind_apart x ys xs z d

next_again :
    (l : Links) (s x : ℕ) (ys : List ℕ)
    → l.previous s ≡ before x ys
    → Absent x ys
    → (list_insert s x l).next x ≡ (if is_empty ys then x else s)
next_again l s x [] e h = next_inserted l s x ∙ ground (arith, e)
next_again l s x (y ∷ ys) e h =
    let g = last_differs x y ys h in next_inserted l s x ∙ ground (arith, e, g)

-- A node x that is in a list already, between xs and ys, is inserted at the list's end once more: from
-- the sentinel the next fields still lead through xs to x, and from there back to the sentinel, past
-- the nodes of ys, or, if x was the last node, to x itself.
pub list_insert-again :
    (l : Links) (s x : ℕ) (xs ys : List ℕ)
    → Represents l s (xs ++ x ∷ ys)
    → LeadsTo (list_insert s x l) s xs x
      × ((list_insert s x l).next x ≡ (if is_empty ys then x else s))
list_insert-again l s x xs ys r =
    let e = before-previous l s (xs ++ x ∷ ys) s r.chain ∙ before-append s xs x ys in
    (
      LeadsTo-insert l s x ys s xs s e r.chain r.apart,
      next_again l s x ys e (behind_apart x ys xs s r.apart),
    )
