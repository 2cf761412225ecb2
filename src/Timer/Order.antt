-- ===== src/Timer/Order.antt =====
-- The comparator of the timers is a strict total order.
use link_server.Base.{
  ℕ, ◌≡◌, true, false, Option, none, some, ◌⊎◌, inl, inr, arith, refl, ap, Bool-cases,
}
use link_server.Timer.{Timer, less}

pub less_trans :
    (s : ℕ → Timer) (a b c : ℕ)
    → less s (some a) (some b) ≡ true
    → less s (some b) (some c) ≡ true
    → less s (some a) (some c) ≡ true
less_trans s a b c h k = ground (arith, h, k)

pub less_irrefl : (s : ℕ → Timer) (a : ℕ) → less s (some a) (some a) ≡ false
less_irrefl s a = ground arith

pub less_asymm :
    (s : ℕ → Timer) (a b : ℕ) → less s (some a) (some b) ≡ true → less s (some b) (some a) ≡ false
less_asymm s a b h = ground (arith, h)

-- Timers that are not ordered either way are the same.
pub less_total :
    (s : ℕ → Timer) (a b : ℕ)
    → less s (some a) (some b) ≡ false
    → less s (some b) (some a) ≡ false
    → a ≡ b
less_total s a b h k = ground (arith, h, k)

-- Which of two timers comes first.
pub less-cases :
    (s : ℕ → Timer) (a b : ℕ)
    → (less s (some a) (some b) ≡ true)
      ⊎ (less s (some b) (some a) ≡ true) × (less s (some a) (some b) ≡ false)
      ⊎ (a ≡ b)
less-cases s a b = elim (Bool-cases (less s (some a) (some b))) [
  | inl h ↦ inl h
  | inr h ↦ elim (Bool-cases (less s (some b) (some a))) [
    | inl k ↦ inr (inl (k, h))
    | inr k ↦ inr (inr (less_total s a b h k))
  ]
]

-- The order depends only on the deadlines.
pub less_cong :
    (s s' : ℕ → Timer) (a b : ℕ)
    → (s a).next ≡ (s' a).next
    → (s b).next ≡ (s' b).next
    → less s (some a) (some b) ≡ less s' (some a) (some b)
less_cong s s' a b h k = rw (h, k)

irrefl : (s : ℕ → Timer) (p : Option ℕ) → less s p p ≡ false
irrefl s none = refl
irrefl s (some a) = less_irrefl s a

trans :
    (s : ℕ → Timer) (p q r : Option ℕ) → less s p q ≡ true → less s q r ≡ true → less s p r ≡ true
trans s none none r h k = ground (arith, h)
trans s none (some b) none h k = ground (arith, k)
trans s none (some b) (some c) h k = refl
trans s (some a) none r h k = ground (arith, h)
trans s (some a) (some b) none h k = ground (arith, k)
trans s (some a) (some b) (some c) h k = less_trans s a b c h k

total : (s : ℕ → Timer) (p q : Option ℕ) → less s p q ≡ false → less s q p ≡ false → p ≡ q
total s none none h k = refl
total s none (some b) h k = ground (arith, h)
total s (some a) none h k = ground (arith, k)
total s (some a) (some b) h k = ap some (less_total s a b h k)

-- The comparator, null pointers included, is a strict total order: no pointer precedes itself, it is
-- transitive, and two pointers of which neither precedes the other are the same.
pub less-IsStrictTotal :
    (s : ℕ → Timer) (p q r : Option ℕ)
    → (less s p p ≡ false)
      × (less s p q ≡ true → less s q r ≡ true → less s p r ≡ true)
      × (less s p q ≡ false → less s q p ≡ false → p ≡ q)
less-IsStrictTotal s p q r = (irrefl s p, trans s p q r, total s p q)
