-- ===== src/Mutex/Chains.antt =====
-- What the chains of a mutex hold after they were changed.
use tactile.Base.{
  ℕ, true, false, ◌≡◌, refl, sym, ap, ◌∙◌, some, List, [], ◌∷◌, Text, text_eq, ◌==◌, ==_iff, any,
  All, lookup, lookup-assign, lookup-erase, assign, erase, includes, if◌then◌else◌, arith,
  Option-cases, Bool-cases, inl, inr, text_eq_iff,
}
use tactile.Mutex.{Phase, is_settled, Chains, prior, register, unregister, is_tail, all_settled}

pub lookup-register :
    (ks : List Text) (n : ℕ) (c : Chains) (k : Text)
    → lookup k (register ks n c) ≡ (if includes ks k then some n else lookup k c)
unfolding register
lookup-register [] n c k = refl
lookup-register (x ∷ ks) n c k =
    ground (arith, lookup-register ks n (assign x n c) k, lookup-assign x k n c)

-- What is left of the chains was there before.
pub lookup-unregister :
    (ks : List Text) (n : ℕ) (c : Chains) (k : Text) (t : ℕ)
    → lookup k (unregister ks n c) ≡ some t
    → lookup k c ≡ some t
unfolding unregister
lookup-unregister [] n c k t h = h
lookup-unregister (x ∷ ks) n c k t h =
    let before = lookup-unregister ks n (if is_tail n (lookup x c) then erase x c else c) k t h in
    ground (arith, before, lookup-erase x k c)

-- A tail of another task stays.
pub lookup-unregister_other :
    (ks : List Text) (n : ℕ) (c : Chains) (k : Text) (t : ℕ)
    → (t == n) ≡ false
    → lookup k c ≡ some t
    → lookup k (unregister ks n c) ≡ some t
unfolding unregister
lookup-unregister_other [] n c k t e h = h
lookup-unregister_other (x ∷ ks) n c k t e h =
    lookup-unregister_other ks n (if is_tail n (lookup x c) then erase x c else c) k t e
      (ground (arith, lookup-erase x k c, text_eq_iff x k))

pub includes-prior :
    (ks : List Text) (c : Chains) (k : Text) (t : ℕ)
    → includes ks k ≡ true
    → lookup k c ≡ some t
    → any (λ u. u == t) (prior ks c) ≡ true
unfolding prior
includes-prior [] c k t h e = absurd (cc h)
includes-prior (x ∷ ks) c k t h e = elim (Bool-cases (text_eq x k)) [
  | inl s ↦
      let found : lookup x c ≡ some t = ap (λ q. lookup q c) ((text_eq_iff x k).0 s) ∙ e in
      rw (found, prior) (ground arith)
  | inr s ↦
      let rest = includes-prior ks c k t (ground arith) e in
      elim (Option-cases (lookup x c)) [
        | inl o ↦ rw (o, prior) rest
        | inr (u, o) ↦ rw (o, prior) (ground (arith, rest))
      ]
]

pub All-prior :
    (P : ℕ → Type 0) (ks : List Text) (c : Chains)
    → ((k : Text) (t : ℕ) → lookup k c ≡ some t → P t)
    → All P (prior ks c)
unfolding prior
All-prior P [] c h = tt
All-prior P (x ∷ ks) c h = elim (Option-cases (lookup x c)) [
  | inl e ↦ rw (e, prior) (All-prior P ks c h)
  | inr (t, e) ↦ rw (e, prior, All) (h x t e, All-prior P ks c h)
]

pub settled-all_settled :
    (f : ℕ → Phase) (ts : List ℕ) (t : ℕ)
    → any (λ u. u == t) ts ≡ true
    → all_settled f ts ≡ true
    → is_settled (f t) ≡ true
unfolding all_settled
settled-all_settled f [] t h a = absurd (cc h)
settled-all_settled f (x ∷ ts) t h a = elim (Bool-cases (x == t)) [
  | inl e ↦ ap (λ q. is_settled (f q)) (sym ((==_iff x t).0 e)) ∙ (ground arith)
  | inr e ↦ settled-all_settled f ts t (ground arith) (ground arith)
]
