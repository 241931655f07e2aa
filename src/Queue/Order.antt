-- ===== src/Queue/Order.antt =====
-- A priority queue keeps its items, in the order of their ranks.
use mathlib.Core.List.{Perm}
use mathlib.Core.List.Perm
use iot_drive.Shared.{
  ◌≡◌, sym, subst, Bool, true, false, List, [], ◌∷◌, if◌then◌else◌, All, inl, inr, Bool-cases,
}
use iot_drive.Queue.{push}

pub push-Perm {ℓ} :
    {A : Type ℓ} (after : A → A → Bool) (x : A) (q : List A) → Perm (push after x q) (x ∷ q)
unfolding push
push-Perm after x [] = Perm.refl (x ∷ [])
push-Perm after x (y ∷ ys) = elim (Bool-cases (after y x)) [
  | inl e ↦
      subst (λ b. Perm (if b then x ∷ y ∷ ys else y ∷ push after x ys) (x ∷ y ∷ ys)) (sym e)
        (Perm.refl (x ∷ y ∷ ys))
  | inr e ↦
      subst (λ b. Perm (if b then x ∷ y ∷ ys else y ∷ push after x ys) (x ∷ y ∷ ys)) (sym e)
        (Perm.trans (Perm.cons y (push-Perm after x ys)) (Perm.swap x y ys))
]

-- `later x y`: `x` must not come before `y`. Queues in order have no item before one that it must
-- not precede.
module _ {ℓ} {A : Type ℓ} (before : A → A → Type 0) where
  abbrev pub InOrder : List A → Type 0
  InOrder [] = Unit
  InOrder (x ∷ xs) = All (before x) xs × InOrder xs

  module _ (after : A → A → Bool) (behind : (x y : A) → after y x ≡ true → before x y)
      (ahead : (x y : A) → after y x ≡ false → before y x)
      (trans : (x y z : A) → before x y → before y z → before x z) where
    All-push :
        (w x : A) (q : List A) → before w x → All (before w) q → All (before w) (push after x q)
    unfolding push
    All-push w x [] h hs = (h, tt)
    All-push w x (y ∷ ys) h hs = elim (Bool-cases (after y x)) [
      | inl e ↦
          subst (λ b. All (before w) (if b then x ∷ y ∷ ys else y ∷ push after x ys)) (sym e)
            (h, hs)
      | inr e ↦
          subst (λ b. All (before w) (if b then x ∷ y ∷ ys else y ∷ push after x ys)) (sym e)
            (hs.0, All-push w x ys h hs.1)
    ]

    All-trans : (x y : A) (q : List A) → before x y → All (before y) q → All (before x) q
    All-trans x y [] h hs = tt
    All-trans x y (z ∷ zs) h hs = (trans x y z h hs.0, All-trans x y zs h hs.1)

    pub push-InOrder : (x : A) (q : List A) → InOrder q → InOrder (push after x q)
    unfolding push
    push-InOrder x [] h = (tt, tt)
    push-InOrder x (y ∷ ys) h = elim (Bool-cases (after y x)) [
      | inl e ↦
          subst (λ b. InOrder (if b then x ∷ y ∷ ys else y ∷ push after x ys)) (sym e)
            ((behind x y e, All-trans x y ys (behind x y e) h.0), h)
      | inr e ↦
          subst (λ b. InOrder (if b then x ∷ y ∷ ys else y ∷ push after x ys)) (sym e)
            (All-push y x ys (ahead x y e) h.0, push-InOrder x ys h.1)
    ]
