-- ===== src/Links/Refinement.antt =====
-- The linked lists of original/list.c implement sequences: the model's queues are lists of values.
pub mod Removal
pub mod Again
use enet_rs.Prelude.{
  ℕ, zero, suc, ◌+◌, ◌<◌, ◌≡◌, ◌≢◌, refl, sym, ◌∙◌, ap, subst, Bool, true, false, List, [], ◌∷◌,
  ◌++◌, length, arith, ◌==◌, if◌then◌else◌,
}
use enet_rs.Links.{
  Links, update, set_next, set_previous, list_clear, list_insert, list_remove, list_begin, list_end,
  list_empty, size_from, list_size,
}

-- u stands directly before v.
pub record Linked (l : Links) (u v : ℕ) : Type 0 where
  pub forward : l.next u ≡ v
  pub back : l.previous v ≡ u

-- The nodes xs stand in a row between a and b.
pub data Chain (l : Links) : ℕ → List ℕ → ℕ → Type 0 where
  adjacent : (a b : ℕ) → Linked l a b → Chain l a [] b
  through : (a x : ℕ) (xs : List ℕ) (b : ℕ) → Linked l a x → Chain l x xs b → Chain l a (x ∷ xs) b

-- A node is not in a list of nodes.
pub data Absent (n : ℕ) : List ℕ → Type 0 where
  absent_none : Absent n []
  absent_from : (x : ℕ) (xs : List ℕ) → n ≢ x → Absent n xs → Absent n (x ∷ xs)

-- No node stands twice.
pub data Distinct : List ℕ → Type 0 where
  distinct_none : Distinct []
  distinct : (x : ℕ) (xs : List ℕ) → Absent x xs → Distinct xs → Distinct (x ∷ xs)

-- A change that leaves the forward fields of the sources and the backward fields of the targets.
pub Chain-frame :
    (l k : Links) (a : ℕ) (xs : List ℕ) (b p q d : ℕ)
    → ((n : ℕ) → n ≢ q → n ≢ d → k.next n ≡ l.next n)
    → ((n : ℕ) → n ≢ p → n ≢ d → k.previous n ≡ l.previous n)
    → Absent q (a ∷ xs)
    → Absent d (a ∷ xs)
    → Absent p (xs ++ (b ∷ []))
    → Absent d (xs ++ (b ∷ []))
    → Chain l a xs b
    → Chain k a xs b
Chain-frame l k a [] b p q d f g (absent_from _ _ qa _) (absent_from _ _ da _)
      (absent_from _ _ pb _) (absent_from _ _ db _) (adjacent _ _ x) =
    adjacent a b (record {
      forward = f a (λ e. qa (sym e)) (λ e. da (sym e)) ∙ x.forward;
      back = g b (λ e. pb (sym e)) (λ e. db (sym e)) ∙ x.back;
    })
Chain-frame l k a (x ∷ xs) b p q d f g (absent_from _ _ qa qs) (absent_from _ _ da ds)
      (absent_from _ _ px ps) (absent_from _ _ dx es) (through _ _ _ _ y c) =
    through a x xs b
      (record {
        forward = f a (λ e. qa (sym e)) (λ e. da (sym e)) ∙ y.forward;
        back = g x (λ e. px (sym e)) (λ e. dx (sym e)) ∙ y.back;
      })
      (Chain-frame l k x xs b p q d f g qs ds ps es c)

-- The node at which zs begins, before b.
abbrev pub first : List ℕ → ℕ → ℕ
first [] b = b
first (z ∷ zs) b = z

pub insert_next :
    (p d : ℕ) (l : Links) (n : ℕ) → n ≢ l.previous p → n ≢ d → (list_insert p d l).next n ≡ l.next n
unfolding list_insert set_next set_previous
insert_next p d l n h g = ground arith

pub insert_previous :
    (p d : ℕ) (l : Links) (n : ℕ) → n ≢ p → n ≢ d → (list_insert p d l).previous n ≡ l.previous n
unfolding list_insert set_next set_previous
insert_previous p d l n h g = ground arith

pub insert_before :
    (p d : ℕ) (l : Links) → l.previous p ≢ d → p ≢ d → Linked (list_insert p d l) (l.previous p) d
unfolding list_insert set_next set_previous
insert_before p d l h g = record { forward = ground arith; back = ground arith }

pub insert_behind :
    (p d : ℕ) (l : Links) → l.previous p ≢ d → p ≢ d → Linked (list_insert p d l) d p
unfolding list_insert set_next set_previous
insert_behind p d l h g = record { forward = ground arith; back = ground arith }

-- The node before the place differs from every node that is absent.
pub before_differs :
    (l : Links) (n : ℕ) (zs : List ℕ) (b : ℕ) (ys : List ℕ) (a : ℕ)
    → Chain l a (ys ++ zs) b
    → Absent n (a ∷ ys ++ zs)
    → n ≢ l.previous (first zs b)
before_differs l n [] b [] a (adjacent _ _ x) (absent_from _ _ h _) = λ e. h (e ∙ x.back)
before_differs l n (z ∷ zs) b [] a (through _ _ _ _ x _) (absent_from _ _ h _) = λ e. h (e ∙ x.back)
before_differs l n zs b (y ∷ ys) a (through _ _ _ _ x c) (absent_from _ _ _ h) =
    before_differs l n zs b ys y c h

pub place_differs :
    (n : ℕ) (zs : List ℕ) (b : ℕ) (ys : List ℕ) → Absent n ((ys ++ zs) ++ (b ∷ [])) → n ≢ first zs b
place_differs n [] b [] (absent_from _ _ h _) = h
place_differs n (z ∷ zs) b [] (absent_from _ _ h _) = h
place_differs n zs b (y ∷ ys) (absent_from _ _ _ h) = place_differs n zs b ys h

pub Chain-insert :
    (l : Links) (d : ℕ) (zs : List ℕ) (b : ℕ) (ys : List ℕ) (a : ℕ)
    → Chain l a (ys ++ zs) b
    → Distinct (a ∷ ys ++ zs)
    → Distinct ((ys ++ zs) ++ (b ∷ []))
    → Absent d (a ∷ ys ++ zs)
    → Absent d ((ys ++ zs) ++ (b ∷ []))
    → Chain (list_insert (first zs b) d l) a (ys ++ d ∷ zs) b
Chain-insert l d [] b [] a (adjacent _ _ x) s t (absent_from _ _ da _) (absent_from _ _ db _) =
    let q : l.previous b ≢ d = λ e. da (sym e ∙ x.back) in
    let p : b ≢ d = λ e. db (sym e) in
    let k = list_insert b d l in
    through a d [] b (subst (λ u. Linked k u d) x.back (insert_before b d l q p))
      (adjacent d b (insert_behind b d l q p))
Chain-insert l d (z ∷ zs) b [] a (through _ _ _ _ x c) (distinct _ _ s _) (distinct _ _ t _)
      (absent_from _ _ da ds) (absent_from _ _ dz dt) =
    let q : l.previous z ≢ d = λ e. da (sym e ∙ x.back) in
    let p : z ≢ d = λ e. dz (sym e) in
    let k = list_insert z d l in
    through a d (z ∷ zs) b (subst (λ u. Linked k u d) x.back (insert_before z d l q p)) (
      through d z zs b (insert_behind z d l q p) (
        Chain-frame l k z zs b z (l.previous z) d (insert_next z d l) (insert_previous z d l)
          (subst (λ u. Absent u (z ∷ zs)) (sym x.back) s) ds t dt c))
Chain-insert l d zs b (y ∷ ys) a (through _ _ _ _ x c) (distinct _ _ s ss) (distinct _ _ t ts)
      (absent_from _ _ da ds) (absent_from _ _ dy dt) =
    let p = first zs b in
    through a y (ys ++ d ∷ zs) b
      (record {
        forward =
            insert_next p d l a (before_differs l a zs b ys y c s) (λ e. da (sym e)) ∙ x.forward;
        back = insert_previous p d l y (place_differs y zs b ys t) (λ e. dy (sym e)) ∙ x.back;
      })
      (Chain-insert l d zs b ys y c ss ts ds dt)

-- The memory holds the sequence xs in the list with the sentinel s.
pub record Represents (l : Links) (s : ℕ) (xs : List ℕ) : Type 0 where
  pub chain : Chain l s xs s
  pub apart : Distinct (s ∷ xs)

-- The sentinel at the end of the nodes instead of in front.
pub Absent-end : (n s : ℕ) (xs : List ℕ) → n ≢ s → Absent n xs → Absent n (xs ++ (s ∷ []))
Absent-end n s [] h a = absent_from s [] h absent_none
Absent-end n s (x ∷ xs) h (absent_from _ _ g a) =
    absent_from x (xs ++ (s ∷ [])) g (Absent-end n s xs h a)

pub Distinct-end : (s : ℕ) (xs : List ℕ) → Absent s xs → Distinct xs → Distinct (xs ++ (s ∷ []))
Distinct-end s [] a d = distinct s [] absent_none distinct_none
Distinct-end s (x ∷ xs) (absent_from _ _ h a) (distinct _ _ g d) =
    distinct x (xs ++ (s ∷ [])) (Absent-end x s xs (λ e. h (sym e)) g) (Distinct-end s xs a d)

pub Absent-between :
    (n d : ℕ) (ys zs : List ℕ) → n ≢ d → Absent n (ys ++ zs) → Absent n (ys ++ d ∷ zs)
Absent-between n d [] zs h a = absent_from d zs h a
Absent-between n d (y ∷ ys) zs h (absent_from _ _ g a) =
    absent_from y (ys ++ d ∷ zs) g (Absent-between n d ys zs h a)

pub Distinct-between :
    (d : ℕ) (ys zs : List ℕ) → Absent d (ys ++ zs) → Distinct (ys ++ zs) → Distinct (ys ++ d ∷ zs)
Distinct-between d [] zs a s = distinct d zs a s
Distinct-between d (y ∷ ys) zs (absent_from _ _ h a) (distinct _ _ g s) =
    distinct y (ys ++ d ∷ zs) (Absent-between y d ys zs (λ e. h (sym e)) g)
      (Distinct-between d ys zs a s)

-- Inserting a node before a place of a list, the end included, inserts it into the sequence there: if
-- the memory holds the sequence ys followed by zs, and the node is neither in it nor the sentinel, then
-- after `enet_list_insert` at the first node of zs, or at the end if zs is empty, the memory holds ys,
-- the node, and zs, in this order.
pub list_insert-Represents :
    (l : Links) (s d : ℕ) (ys zs : List ℕ)
    → Absent d (s ∷ ys ++ zs)
    → Represents l s (ys ++ zs)
    → Represents (list_insert (first zs s) d l) s (ys ++ d ∷ zs)
list_insert-Represents l s d ys zs a r = inserted a r.apart r.chain
  where
    inserted :
        Absent d (s ∷ ys ++ zs)
        → Distinct (s ∷ ys ++ zs)
        → Chain l s (ys ++ zs) s
        → Represents (list_insert (first zs s) d l) s (ys ++ d ∷ zs)
    inserted (absent_from _ _ h a') (distinct _ _ g t) c = record {
      chain =
          Chain-insert l d zs s ys s c (distinct s (ys ++ zs) g t) (Distinct-end s (ys ++ zs) g t)
            (absent_from s (ys ++ zs) h a') (Absent-end d s (ys ++ zs) h a');
      apart =
          distinct s (ys ++ d ∷ zs) (Absent-between s d ys zs (λ e. h (sym e)) g)
            (Distinct-between d ys zs a' t);
    }

-- An empty list.
pub list_clear-Represents : (l : Links) (s : ℕ) → Represents (list_clear s l) s []
unfolding list_clear set_next set_previous
list_clear-Represents l s = record {
  chain = adjacent s s (record { forward = ground arith; back = ground arith });
  apart = distinct s [] absent_none distinct_none;
}
