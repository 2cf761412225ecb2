-- ===== src/Timer/Sets.antt =====
-- The ordered set of the timers: membership and order under insertion and removal.
use link_server.Base.{
  ℕ, ◌≡◌, ◌≢◌, refl, sym, subst, ◌∙◌, List, [], ◌∷◌, none, some, Bool, true, false, ◌==◌,
  if◌then◌else◌, Bool-cases, inl, inr, arith,
}
use link_server.Timer.{Timer, less, insert, find_erase}
use link_server.Timer.Order.{less_trans, less_irrefl, less-cases}

abbrev pub mem : ℕ → List ℕ → Bool
mem a [] = false
mem a (b ∷ bs) = if a == b then true else mem a bs

-- `a` comes before each of `bs`.
abbrev pub Above : (ℕ → Timer) → ℕ → List ℕ → Type 0
Above s a [] = Unit {0}
Above s a (b ∷ bs) = (less s (some a) (some b) ≡ true) × Above s a bs

abbrev pub IsSorted : (ℕ → Timer) → List ℕ → Type 0
IsSorted s [] = Unit {0}
IsSorted s (a ∷ bs) = Above s a bs × IsSorted s bs

pub Above-mem :
    (s : ℕ → Timer) (a b : ℕ) (bs : List ℕ)
    → Above s a bs
    → mem b bs ≡ true
    → less s (some a) (some b) ≡ true
Above-mem s a b [] h k = ground (arith, k)
Above-mem s a b (c ∷ bs) (h, hs) k = elim (Bool-cases (b == c)) [
  | inl e ↦ ground (arith, h, e)
  | inr e ↦ Above-mem s a b bs hs (ground (arith, k, e))
]

pub not_mem-Above : (s : ℕ → Timer) (a : ℕ) (bs : List ℕ) → Above s a bs → mem a bs ≡ false
not_mem-Above s a bs h = elim (Bool-cases (mem a bs)) [
  | inl e ↦ let k = Above-mem s a a bs h e in ground (arith, k, less_irrefl s a)
  | inr e ↦ e
]

Above-trans :
    (s : ℕ → Timer) (a b : ℕ) (bs : List ℕ)
    → less s (some a) (some b) ≡ true
    → Above s b bs
    → Above s a bs
Above-trans s a b [] h hs = tt
Above-trans s a b (c ∷ bs) h (k, hs) = (less_trans s a b c h k, Above-trans s a b bs h hs)

-- The three cases of an insertion.
insert_lt :
    (s : ℕ → Timer) (a b : ℕ) (bs : List ℕ)
    → less s (some a) (some b) ≡ true
    → insert s a (b ∷ bs) ≡ a ∷ b ∷ bs
insert_lt s a b bs h = ground (arith, h)

insert_gt :
    (s : ℕ → Timer) (a b : ℕ) (bs : List ℕ)
    → less s (some b) (some a) ≡ true
    → insert s a (b ∷ bs) ≡ b ∷ insert s a bs
insert_gt s a b bs h = ground (arith, h)

insert_eq : (s : ℕ → Timer) (a b : ℕ) (bs : List ℕ) → a ≡ b → insert s a (b ∷ bs) ≡ b ∷ bs
insert_eq s a b bs e = ground (arith, e)

Above-insert :
    (s : ℕ → Timer) (a b : ℕ) (bs : List ℕ)
    → less s (some b) (some a) ≡ true
    → Above s b bs
    → Above s b (insert s a bs)
Above-insert s a b [] h hs = (h, tt)
Above-insert s a b (c ∷ bs) h (k, hs) = elim (less-cases s a c) [
  | inl e ↦ rw (insert_lt s a c bs e) (h, (k, hs))
  | inr (inl (e, _)) ↦ rw (insert_gt s a c bs e) (k, Above-insert s a b bs h hs)
  | inr (inr e) ↦ rw (insert_eq s a c bs e) (k, hs)
]

pub IsSorted-insert :
    (s : ℕ → Timer) (a : ℕ) (bs : List ℕ) → IsSorted s bs → IsSorted s (insert s a bs)
IsSorted-insert s a [] h = (tt, tt)
IsSorted-insert s a (b ∷ bs) (h, hs) = elim (less-cases s a b) [
  | inl e ↦ rw (insert_lt s a b bs e) ((e, Above-trans s a b bs e h), (h, hs))
  | inr (inl (e, _)) ↦
      rw (insert_gt s a b bs e) (Above-insert s a b bs e h, IsSorted-insert s a bs hs)
  | inr (inr e) ↦ rw (insert_eq s a b bs e) (h, hs)
]

pub mem-insert :
    (s : ℕ → Timer) (a x : ℕ) (bs : List ℕ)
    → mem x (insert s a bs) ≡ (if x == a then true else mem x bs)
mem-insert s a x [] = refl
mem-insert s a x (b ∷ bs) =
    let ih = mem-insert s a x bs in
    elim (less-cases s a b) [
      | inl e ↦ rw (insert_lt s a b bs e)
      | inr (inl (e, _)) ↦ rw (insert_gt s a b bs e) (ground (arith, ih))
      | inr (inr e) ↦ rw (insert_eq s a b bs e) (ground arith)
    ]

-- What `find` and `erase` leave of a set that has `a`.
pub record ErasedFrom (s : ℕ → Timer) (a : ℕ) (bs bs' : List ℕ) : Type 0 where
  pub sorted : IsSorted s bs'
  pub others : (x : ℕ) → x ≢ a → mem x bs' ≡ mem x bs
  pub gone : mem a bs' ≡ false

pub Above-sub :
    (s : ℕ → Timer) (a : ℕ) (bs bs' : List ℕ)
    → ((x : ℕ) → mem x bs' ≡ true → mem x bs ≡ true)
    → Above s a bs
    → Above s a bs'
Above-sub s a bs [] inc h = tt
Above-sub s a bs (b ∷ bs') inc h = (
  Above-mem s a b bs h (inc b (ground arith)),
  Above-sub s a bs bs' (λ x k. inc x (ground (arith, k))) h,
)

ErasedFrom-sub :
    (s : ℕ → Timer) (a x : ℕ) (bs bs' : List ℕ)
    → ErasedFrom s a bs bs'
    → mem x bs' ≡ true
    → mem x bs ≡ true
ErasedFrom-sub s a x bs bs' w m = elim (Bool-cases (x == a)) [
  | inl e ↦
      let same : x ≡ a = ground (arith, e) in
      ground (arith, subst (λ y. mem y bs' ≡ true) same m, w.gone)
  | inr e ↦ let apart : x ≢ a = ground (arith, e) in sym (w.others x apart) ∙ m
]

-- `find` and `erase` on a sorted set that has `a`.
pub find_erase_lem :
    (s : ℕ → Timer) (a : ℕ) (bs : List ℕ)
    → IsSorted s bs
    → mem a bs ≡ true
    → (bs' : List ℕ) × (find_erase s a bs ≡ some bs') × ErasedFrom s a bs bs'
find_erase_lem s a [] h k = ground (arith, k)
find_erase_lem s a (b ∷ bs) (h, hs) k = elim (less-cases s a b) [
  | inl e ↦
      let below = not_mem-Above s a bs (Above-trans s a b bs e h) in
      ground (arith, e, k, below, less_irrefl s a)
  | inr (inl (e, e')) ↦
      let apart : (a == b) ≡ false = ground (arith, e) in
      let (bs', run, w) = find_erase_lem s a bs hs (ground (arith, k, apart)) in
      let inc : (x : ℕ) → mem x bs' ≡ true → mem x bs ≡ true =
        λ x m. ErasedFrom-sub s a x bs bs' w m in
      (
        b ∷ bs',
        ground (arith, e, run),
        record {
          sorted = (Above-sub s b bs bs' inc h, w.sorted);
          others = λ x ne. ground (arith, w.others x ne);
          gone = ground (arith, apart, w.gone);
        },
      )
  | inr (inr e) ↦ (
    bs,
    ground (arith, e),
    record {
      sorted = hs;
      others = λ x ne. ground (arith, e, ne);
      gone = rw e (not_mem-Above s b bs h);
    },
  )
]

pub find_erase_absent :
    (s : ℕ → Timer) (a : ℕ) (bs : List ℕ) → mem a bs ≡ false → find_erase s a bs ≡ none
find_erase_absent s a [] h = refl
find_erase_absent s a (b ∷ bs) h =
    let ih : find_erase s a bs ≡ none = find_erase_absent s a bs (ground (arith, h)) in
    elim (less-cases s a b) [
      | inl e ↦ ground (arith, e)
      | inr (inl (e, e')) ↦ ground (arith, e, ih)
      | inr (inr e) ↦ ground (arith, e, h)
    ]
