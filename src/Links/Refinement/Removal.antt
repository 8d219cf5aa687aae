-- ===== src/Links/Refinement/Removal.antt =====
-- Removal from, and the size of, the linked lists of original/list.c.
use enet_rs.Prelude.{ℕ, suc, ◌+◌, ◌≡◌, ◌≢◌, sym, ◌∙◌, ap, subst, List, [], ◌∷◌, ◌++◌, length, arith}
use enet_rs.Links.{Links, set_next, set_previous, list_remove, size_from, list_size}
use enet_rs.Links.Refinement.{
  Linked, Chain, adjacent, through, Absent, absent_from, Distinct, distinct, Chain-frame, first,
  before_differs, Represents, Distinct-end,
}

remove_next : (x : ℕ) (l : Links) (n : ℕ) → n ≢ l.previous x → (list_remove x l).next n ≡ l.next n
unfolding list_remove set_next set_previous
remove_next x l n h = ground arith

remove_previous :
    (x : ℕ) (l : Links) (n : ℕ)
    → x ≢ l.previous x
    → n ≢ l.next x
    → (list_remove x l).previous n ≡ l.previous n
unfolding list_remove set_next set_previous
remove_previous x l n g h = ground arith

remove_joins :
    (x : ℕ) (l : Links) → x ≢ l.previous x → Linked (list_remove x l) (l.previous x) (l.next x)
unfolding list_remove set_next set_previous
remove_joins x l g = record { forward = ground arith; back = ground arith }

-- The node behind a node of a chain.
next_of :
    (l : Links) (x : ℕ) (zs : List ℕ) (b : ℕ) (ys : List ℕ) (a : ℕ)
    → Chain l a (ys ++ x ∷ zs) b
    → l.next x ≡ first zs b
next_of l x [] b [] a (through _ _ _ _ _ (adjacent _ _ y)) = y.forward
next_of l x (z ∷ zs) b [] a (through _ _ _ _ _ (through _ _ _ _ y _)) = y.forward
next_of l x zs b (y ∷ ys) a (through _ _ _ _ _ c) = next_of l x zs b ys y c

behind_differs :
    (n x : ℕ) (zs : List ℕ) (b : ℕ) (ys : List ℕ)
    → Absent n ((ys ++ x ∷ zs) ++ (b ∷ []))
    → n ≢ first zs b
behind_differs n x [] b [] (absent_from _ _ _ (absent_from _ _ h _)) = h
behind_differs n x (z ∷ zs) b [] (absent_from _ _ _ (absent_from _ _ h _)) = h
behind_differs n x zs b (y ∷ ys) (absent_from _ _ _ h) = behind_differs n x zs b ys h

-- A node of a chain is not the one before it.
not_before :
    (l : Links) (x : ℕ) (zs : List ℕ) (b : ℕ) (ys : List ℕ) (a : ℕ)
    → Chain l a (ys ++ x ∷ zs) b
    → Distinct (a ∷ ys ++ x ∷ zs)
    → x ≢ l.previous x
not_before l x zs b [] a (through _ _ _ _ y _) (distinct _ _ (absent_from _ _ h _) _) =
    λ e. h (sym (e ∙ y.back))
not_before l x zs b (y ∷ ys) a (through _ _ _ _ _ c) (distinct _ _ _ d) =
    not_before l x zs b ys y c d

Chain-remove :
    (l : Links) (x : ℕ) (zs : List ℕ) (b : ℕ) (ys : List ℕ) (a : ℕ)
    → x ≢ l.previous x
    → Chain l a (ys ++ x ∷ zs) b
    → Distinct (a ∷ ys ++ x ∷ zs)
    → Distinct ((ys ++ x ∷ zs) ++ (b ∷ []))
    → Chain (list_remove x l) a (ys ++ zs) b
Chain-remove l x [] b [] a o (through _ _ _ _ y (adjacent _ _ z)) s t = adjacent a b (
    subst (λ u. Linked (list_remove x l) u b) y.back
      (subst (Linked (list_remove x l) (l.previous x)) z.forward (remove_joins x l o)))
Chain-remove l x (w ∷ ws) b [] a o (through _ _ _ _ y (through _ _ _ _ z c))
      (distinct _ _ (absent_from _ _ _ s) (distinct _ _ xs _))
      (distinct _ _ (absent_from _ _ _ xt) (distinct _ _ t _)) =
    let k = list_remove x l in
    through a w ws b
      (subst (λ u. Linked k u w) y.back
        (subst (Linked k (l.previous x)) z.forward (remove_joins x l o)))
      (Chain-frame l k w ws b (l.next x) (l.previous x) x (λ n h g. remove_next x l n h)
        (λ n h g. remove_previous x l n o h) (subst (λ u. Absent u (w ∷ ws)) (sym y.back) s) xs
        (subst (λ u. Absent u (ws ++ (b ∷ []))) (sym z.forward) t) xt c)
Chain-remove l x zs b (y ∷ ys) a o (through _ _ _ _ z c) (distinct _ _ s ss) (distinct _ _ t ts) =
    through a y (ys ++ zs) b
      (record {
        forward = remove_next x l a (before_differs l a (x ∷ zs) b ys y c s) ∙ z.forward;
        back =
            remove_previous x l y o
              (λ e. behind_differs y x zs b ys t (e ∙ next_of l x zs b ys y c))
            ∙ z.back;
      })
      (Chain-remove l x zs b ys y o c ss ts)

Absent-without : (n x : ℕ) (ys zs : List ℕ) → Absent n (ys ++ x ∷ zs) → Absent n (ys ++ zs)
Absent-without n x [] zs (absent_from _ _ _ a) = a
Absent-without n x (y ∷ ys) zs (absent_from _ _ h a) =
    absent_from y (ys ++ zs) h (Absent-without n x ys zs a)

Distinct-without : (x : ℕ) (ys zs : List ℕ) → Distinct (ys ++ x ∷ zs) → Distinct (ys ++ zs)
Distinct-without x [] zs (distinct _ _ _ d) = d
Distinct-without x (y ∷ ys) zs (distinct _ _ a d) =
    distinct y (ys ++ zs) (Absent-without y x ys zs a) (Distinct-without x ys zs d)

-- Removing a node of a list takes it out of the sequence: if the memory holds ys, a node and zs, then
-- after `enet_list_remove` of the node it holds ys followed by zs.
pub list_remove-Represents :
    (l : Links) (s x : ℕ) (ys zs : List ℕ)
    → Represents l s (ys ++ x ∷ zs)
    → Represents (list_remove x l) s (ys ++ zs)
list_remove-Represents l s x ys zs r = removed r.apart r.chain
  where
    removed :
        Distinct (s ∷ ys ++ x ∷ zs)
        → Chain l s (ys ++ x ∷ zs) s
        → Represents (list_remove x l) s (ys ++ zs)
    removed (distinct _ _ g t) c = record {
      chain =
          Chain-remove l x zs s ys s (not_before l x zs s ys s c (distinct s (ys ++ x ∷ zs) g t)) c
            (distinct s (ys ++ x ∷ zs) g t) (Distinct-end s (ys ++ x ∷ zs) g t);
      apart = distinct s (ys ++ zs) (Absent-without s x ys zs g) (Distinct-without x ys zs t);
    }

-- The fuel for a list, and more.
abbrev fuel_for : List ℕ → ℕ → ℕ
fuel_for [] more = suc more
fuel_for (x ∷ xs) more = suc (fuel_for xs more)

fuel_for-length : (xs : List ℕ) (more : ℕ) → fuel_for xs more ≡ length xs + 1 + more
fuel_for-length [] more = omega arith
fuel_for-length (x ∷ xs) more = omega (arith, fuel_for-length xs more)

size_from-end :
    (more s position : ℕ) (l : Links) (size : ℕ)
    → position ≡ s
    → size_from (suc more) s position l size ≡ size
unfolding size_from
size_from-end more s position l size e = ground arith

size_from-step :
    (more s position : ℕ) (l : Links) (size : ℕ)
    → position ≢ s
    → size_from (suc more) s position l size ≡ size_from more s (l.next position) l (size + 1)
unfolding size_from
size_from-step more s position l size h = ground arith

size_from-length :
    (l : Links) (s : ℕ) (xs : List ℕ) (a more size : ℕ)
    → Chain l a xs s
    → Absent s xs
    → size_from (fuel_for xs more) s (l.next a) l size ≡ size + length xs
size_from-length l s [] a more size (adjacent _ _ y) h =
    size_from-end more s (l.next a) l size y.forward ∙ omega arith
size_from-length l s (x ∷ xs) a more size (through _ _ _ _ y c) (absent_from _ _ h hs) =
    size_from-step (fuel_for xs more) s (l.next a) l size (λ e. h (sym (sym y.forward ∙ e)))
    ∙ ap (λ n. size_from (fuel_for xs more) s (l.next n) l (size + 1)) y.forward
    ∙ size_from-length l s xs x more (size + 1) c hs
    ∙ omega arith

-- If the memory holds a sequence, `enet_list_size` counts its nodes: with a step for each of them and
-- one for the end, or any more, the result is the length of the sequence.
pub list_size-length :
    (l : Links) (s : ℕ) (xs : List ℕ) (more : ℕ)
    → Represents l s xs
    → list_size (length xs + 1 + more) s l ≡ length xs
unfolding list_size
list_size-length l s xs more r = counted r.apart
  where
    counted : Distinct (s ∷ xs) → size_from (length xs + 1 + more) s (l.next s) l 0 ≡ length xs
    counted (distinct _ _ g _) =
        ap (λ n. size_from n s (l.next s) l 0) (sym (fuel_for-length xs more))
        ∙ size_from-length l s xs s more 0 r.chain g
        ∙ omega arith
