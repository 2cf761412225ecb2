-- ===== src/Timer/Invariant.antt =====
-- What the operations on timers keep: the set is sorted, and it has exactly the timers that have a
-- callback.
use link_server.Base.{
  ℕ, ◌≡◌, ◌≢◌, sym, subst, ap, ◌∙◌, List, [], ◌∷◌, Option, none, some, Bool, true, false, ◌==◌,
  Bool-cases, inl, inr, arith,
}
use link_server.Timer.{Timer, TimerManager, put, insert, add}
use link_server.Timer.Order.{less_cong}
use link_server.Timer.Sets.{mem, Above, IsSorted, ErasedFrom, mem-insert, IsSorted-insert}

abbrev pub is_some {ℓ} : {A : Type ℓ} → Option A → Bool
is_some none = false
is_some (some a) = true

pub record IsValid (m : TimerManager) : Type 0 where
  pub sorted : IsSorted m.store m.timers
  pub armed : (a : ℕ) → is_some (m.store a).cb ≡ mem a m.timers

Above-cong :
    (s s' : ℕ → Timer) (a : ℕ) (bs : List ℕ)
    → (s a).next ≡ (s' a).next
    → ((x : ℕ) → mem x bs ≡ true → (s x).next ≡ (s' x).next)
    → Above s a bs
    → Above s' a bs
Above-cong s s' a [] e h k = tt
Above-cong s s' a (b ∷ bs) e h (k, ks) = (
  sym (less_cong s s' a b e (h b (ground arith))) ∙ k,
  Above-cong s s' a bs e (λ x m. h x (ground (arith, m))) ks,
)

-- A set stays sorted while the deadlines of its members stay.
pub IsSorted-cong :
    (s s' : ℕ → Timer) (bs : List ℕ)
    → ((x : ℕ) → mem x bs ≡ true → (s x).next ≡ (s' x).next)
    → IsSorted s bs
    → IsSorted s' bs
IsSorted-cong s s' [] h k = tt
IsSorted-cong s s' (b ∷ bs) h (k, ks) = (
  Above-cong s s' b bs (h b (ground arith)) (λ x m. h x (ground (arith, m))) k,
  IsSorted-cong s s' bs (λ x m. h x (ground (arith, m))) ks,
)

pub put_self : (s : ℕ → Timer) (a : ℕ) (t : Timer) → put s a t a ≡ t
put_self s a t = ground arith

pub put_ne : (s : ℕ → Timer) (a x : ℕ) (t : Timer) → x ≢ a → put s a t x ≡ s x
put_ne s a x t ne = ground (arith, ne)

pub IsSorted-put :
    (s : ℕ → Timer) (a : ℕ) (t : Timer) (bs : List ℕ)
    → mem a bs ≡ false
    → IsSorted s bs
    → IsSorted (put s a t) bs
IsSorted-put s a t bs h = IsSorted-cong s (put s a t) bs (λ x m. elim (Bool-cases (a == x)) [
  | inl e ↦
      let same : a ≡ x = ground (arith, e) in
      ground (arith, subst (λ y. mem y bs ≡ false) same h, m)
  | inr e ↦ ground (arith, e)
])

-- A manager that is valid but for the timer `a`, which has a callback and is not in the set.
pub record IsValidBut (m : TimerManager) (a : ℕ) : Type 0 where
  pub sorted : IsSorted m.store m.timers
  pub armed : is_some (m.store a).cb ≡ true
  pub out : mem a m.timers ≡ false
  pub others : (x : ℕ) → x ≢ a → is_some (m.store x).cb ≡ mem x m.timers

insert-armed :
    (m : TimerManager) (a x : ℕ)
    → IsValidBut m a
    → is_some (m.store x).cb ≡ mem x (insert m.store a m.timers)
insert-armed m a x v = elim (Bool-cases (x == a)) [
  | inl e ↦
      let same : a ≡ x = ground (arith, e) in
      subst (λ y. is_some (m.store y).cb ≡ true) same v.armed
      ∙ sym (mem-insert m.store a x m.timers ∙ rw e)
  | inr e ↦
      let apart : x ≢ a = ground (arith, e) in
      v.others x apart ∙ sym (mem-insert m.store a x m.timers ∙ rw e)
]

pub insert-IsValid :
    (m : TimerManager) (a : ℕ)
    → IsValidBut m a
    → IsValid (record m { timers = insert m.store a m.timers })
insert-IsValid m a v = record {
  sorted = IsSorted-insert m.store a m.timers v.sorted;
  armed = λ x. insert-armed m a x v;
}

pub add-IsValid : (m : TimerManager) (a : ℕ) → IsValidBut m a → IsValid (add m a).1
unfolding add
add-IsValid m a v = record {
  sorted = IsSorted-insert m.store a m.timers v.sorted;
  armed = λ x. insert-armed m a x v;
}

-- Taking an armed timer out of the set, with a new value `t` that has a callback.
pub taken-IsValidBut :
    (m : TimerManager) (a : ℕ) (t : Timer) (ts : List ℕ)
    → IsValid m
    → is_some t.cb ≡ true
    → ErasedFrom m.store a m.timers ts
    → IsValidBut (record m { store = put m.store a t; timers = ts }) a
taken-IsValidBut m a t ts v h w = record {
  sorted = IsSorted-put m.store a t ts w.gone w.sorted;
  armed = ap (λ u. is_some u.cb) (put_self m.store a t) ∙ h;
  out = w.gone;
  others =
      λ x ne. ap (λ u. is_some u.cb) (put_ne m.store a x t ne) ∙ v.armed x ∙ sym (w.others x ne);
}
