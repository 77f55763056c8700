-- ===== src/Prelude/Lists.antt =====
-- Lists measured by native numbers, and the predicates on lists that the components share.
use Prim.Native.Nat.{ℕ, zero, suc, ◌+◌, min}
use mathlib.Core.Path.{◌≡◌, refl, sym, ap, subst}
use mathlib.Core.Logic.{◌⊎◌, inl, inr}
use mathlib.Core.Bool.{Bool, true, false, ◌&&◌, ◌||◌}
use mathlib.Core.Logic.Or
use mathlib.Core.List.{List, [], ◌∷◌, ◌++◌, map, Mem, mem-cons, not-mem-nil, Permᴰ}
use native.Mathlib.Omega.{arith}
use ainsel.Prelude.Tests.{if◌then◌else◌}

module _ {ℓ} {A : Type ℓ} where
  abbrev pub length : List A → ℕ
  length [] = 0
  length (x ∷ xs) = suc (length xs)

  abbrev pub take : ℕ → List A → List A
  take zero xs = []
  take (suc n) [] = []
  take (suc n) (x ∷ xs) = x ∷ take n xs

  abbrev pub drop : ℕ → List A → List A
  drop zero xs = xs
  drop (suc n) [] = []
  drop (suc n) (x ∷ xs) = drop n xs

  abbrev pub all : (A → Bool) → List A → Bool
  all p [] = true
  all p (x ∷ xs) = p x && all p xs

  abbrev pub any : (A → Bool) → List A → Bool
  any p [] = false
  any p (x ∷ xs) = p x || any p xs

  -- The elements that pass a test, in order: a Go loop with `continue`.
  abbrev pub keep : (A → Bool) → List A → List A
  keep p [] = []
  keep p (x ∷ xs) = if p x then x ∷ keep p xs else keep p xs

  abbrev pub All {κ} : (A → Type κ) → List A → Type κ
  All P [] = Unit
  All P (x ∷ xs) = P x × All P xs

  pub length-append : (xs ys : List A) → length (xs ++ ys) ≡ length xs + length ys
  length-append [] ys = omega arith
  length-append (x ∷ xs) ys = omega (arith, length-append xs ys)

module _ {ℓ} {A : Type ℓ} where
  pub length-take : (n : ℕ) (xs : List A) → length (take n xs) ≡ min n (length xs)
  length-take zero xs = omega arith
  length-take (suc n) [] = omega arith
  length-take (suc n) (x ∷ xs) = omega (arith, length-take n xs)

  pub take-append-drop : (n : ℕ) (xs : List A) → take n xs ++ drop n xs ≡ xs
  take-append-drop zero xs = refl
  take-append-drop (suc n) [] = refl
  take-append-drop (suc n) (x ∷ xs) = ap (◌∷◌ x) (take-append-drop n xs)

-- Some element has the property, and the proof says which.
abbrev pub Any {ℓ} : {A : Type ℓ} → (A → Type 0) → List A → Type 0
Any P [] = ⊥
Any P (x ∷ xs) = P x ⊎ Any P xs

abbrev pub Has : {A : Type 0} → A → List A → Type 0
Has a = Any (λ x. x ≡ a)

pub All-imp {ℓ κ μ} :
    {A : Type ℓ} {P : A → Type κ} {Q : A → Type μ} (xs : List A)
    → ((a : A) → P a → Q a)
    → All P xs
    → All Q xs
All-imp [] f h = tt
All-imp (x ∷ xs) f h = (f x h.0, All-imp xs f h.1)

pub All-Has {ℓ} : {A : Type 0} (P : A → Type ℓ) (xs : List A) {a : A} → All P xs → Has a xs → P a
All-Has P [] h m = absurd m
All-Has P (x ∷ xs) h (inl e) = subst P e h.0
All-Has P (x ∷ xs) h (inr m) = All-Has P xs h.1 m

pub Has-mem : {A : Type 0} (xs : List A) {a : A} → Has a xs → Mem a xs
Has-mem [] h = absurd h
Has-mem (x ∷ xs) (inl e) = mem-cons.1 (Or.inl (sym e))
Has-mem (x ∷ xs) (inr m) = mem-cons.1 (Or.inr (Has-mem xs m))

pub map_right {ℓ κ μ} : {A : Type ℓ} {B : Type κ} {C : Type μ} → (B → C) → A ⊎ B → A ⊎ C
map_right f (inl a) = inl a
map_right f (inr b) = inr (f b)

-- A permutation keeps its members, and each with its proof of membership.
pub Any-perm {ℓ} :
    {A : Type ℓ} (P : A → Type 0) {xs ys : List A} → Permᴰ xs ys → Any P ys → Any P xs
Any-perm P Permᴰ.nil m = m
Any-perm P (Permᴰ.cons e p) (inl h) = inl (subst P (sym e) h)
Any-perm P (Permᴰ.cons e p) (inr m) = inr (Any-perm P p m)
Any-perm P (Permᴰ.swap e f) (inl h) = inr (inl (subst P (sym f) h))
Any-perm P (Permᴰ.swap e f) (inr (inl h)) = inl (subst P (sym e) h)
Any-perm P (Permᴰ.swap e f) (inr (inr m)) = inr (inr m)
Any-perm P (Permᴰ.trans p q) m = Any-perm P p (Any-perm P q m)

-- The lists of the elements, one after another.
abbrev pub flat_map {ℓ κ} : {A : Type ℓ} {B : Type κ} → (A → List B) → List A → List B
flat_map f [] = []
flat_map f (x ∷ xs) = f x ++ flat_map f xs

module _ {ℓ} {A : Type ℓ} (P : A → Type 0) where
  pub Any-append_left : (xs ys : List A) → Any P xs → Any P (xs ++ ys)
  Any-append_left [] ys m = absurd m
  Any-append_left (x ∷ xs) ys (inl h) = inl h
  Any-append_left (x ∷ xs) ys (inr m) = inr (Any-append_left xs ys m)

  pub Any-append_right : (xs ys : List A) → Any P ys → Any P (xs ++ ys)
  Any-append_right [] ys m = m
  Any-append_right (x ∷ xs) ys m = inr (Any-append_right xs ys m)

  pub Any-append : (xs ys : List A) → Any P (xs ++ ys) → Any P xs ⊎ Any P ys
  Any-append [] ys m = inr m
  Any-append (x ∷ xs) ys (inl h) = inl (inl h)
  Any-append (x ∷ xs) ys (inr m) = elim (Any-append xs ys m) [ inl l ↦ inl (inr l) | inr r ↦ inr r ]

pub All-append {ℓ κ} :
    {A : Type ℓ} (P : A → Type κ) (xs ys : List A) → All P xs → All P ys → All P (xs ++ ys)
All-append P [] ys h k = k
All-append P (x ∷ xs) ys h k = (h.0, All-append P xs ys h.1 k)

pub Has-flat_map :
    {A B : Type 0} (f : A → List B) (xs : List A) (a : A) (b : B)
    → Has a xs
    → Has b (f a)
    → Has b (flat_map f xs)
Has-flat_map f [] a b m n = absurd m
Has-flat_map f (x ∷ xs) a b (inl e) n =
    Any-append_left (λ y. y ≡ b) (f x) _ (subst (λ z. Has b (f z)) (sym e) n)
Has-flat_map f (x ∷ xs) a b (inr m) n =
    Any-append_right (λ y. y ≡ b) (f x) _ (Has-flat_map f xs a b m n)

pub Has-flat_map_from :
    {A B : Type 0} (f : A → List B) (xs : List A) (b : B)
    → Has b (flat_map f xs)
    → (a : A) × Has a xs × Has b (f a)
Has-flat_map_from f [] b m = absurd m
Has-flat_map_from f (x ∷ xs) b m = elim (Any-append (λ y. y ≡ b) (f x) _ m) [
  | inl here ↦ (x, inl refl, here)
  | inr later ↦ let found = Has-flat_map_from f xs b later in (found.0, inr found.1, found.2)
]

pub Has-map : {A B : Type 0} (f : A → B) (xs : List A) (a : A) → Has a xs → Has (f a) (map f xs)
Has-map f [] a m = absurd m
Has-map f (x ∷ xs) a (inl e) = inl (ap f e)
Has-map f (x ∷ xs) a (inr m) = inr (Has-map f xs a m)

pub Has-map_from :
    {A B : Type 0} (f : A → B) (xs : List A) (b : B)
    → Has b (map f xs)
    → (a : A) × Has a xs × (f a ≡ b)
Has-map_from f [] b m = absurd m
Has-map_from f (x ∷ xs) b (inl e) = (x, inl refl, e)
Has-map_from f (x ∷ xs) b (inr m) =
    let found = Has-map_from f xs b m in (found.0, inr found.1, found.2)

pub All-Mem :
    {A : Type 0} (P : A → Type 0) {xs : List A} {a : A} → IsProp (P a) → All P xs → Mem a xs → P a
All-Mem P {xs = []} q h m = absurd (not-mem-nil m)
All-Mem P {xs = x ∷ xs} q h m =
    Or.elim q (mem-cons.0 m) (λ e. subst P (sym e) h.0) (λ n. All-Mem P q h.1 n)

pub Any-found : {A : Type 0} {P : A → Type 0} (xs : List A) → Any P xs → (a : A) × Has a xs × P a
Any-found [] m = absurd m
Any-found (x ∷ xs) (inl h) = (x, inl refl, h)
Any-found (x ∷ xs) (inr m) = let found = Any-found xs m in (found.0, inr found.1, found.2)
