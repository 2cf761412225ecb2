-- ===== src/FdManager/Access.antt =====
-- `get` and `del`: a descriptor's context is made once, and no access is out of bounds.
use link_server.Base.{
  ℕ, zero, suc, ◌-◌, ◌*◌, ◌/◌, ◌≤◌, ◌<◌, ◌≡◌, ◌≢◌, refl, sym, ap, ◌∙◌, [], ◌∷◌, ◌++◌, Option, none,
  some, Bool, true, false, leb, length, get_elem?, set, replicate, take_all, length-set,
  length-append, length-replicate, get_elem?-set_self, get_elem?-set_ne, ok, pos, arith,
  if◌then◌else◌, not, ◌&&◌, le-or-lt, inl, inr, Option-cases, Bool-cases, ◌⊎◌,
}
use link_server.FdManager.{
  FdCtx, FdManager, Kernel, init, make_ctx, resize, put, lookup, join, get, del,
}

-- The vector never has fewer than the 64 elements of the constructor.
abbrev pub IsValid : FdManager → Type 0
IsValid m = 64 ≤ length m

lookup-replicate : (n i : ℕ) → join (get_elem? (replicate n none) i) ≡ none
lookup-replicate zero i = refl
lookup-replicate (suc n) zero = refl
lookup-replicate (suc n) (suc i) = lookup-replicate n i

lookup-append_none : (m : FdManager) (n i : ℕ) → lookup (m ++ replicate n none) i ≡ lookup m i
lookup-append_none [] n i = lookup-replicate n i
lookup-append_none (x ∷ m) n zero = refl
lookup-append_none (x ∷ m) n (suc i) = lookup-append_none m n i

-- Growing keeps every pointer and gives null ones.
resize_lem :
    (m : FdManager) (n : ℕ)
    → length m ≤ n
    → (length (resize m n) ≡ n) × ((i : ℕ) → lookup (resize m n) i ≡ lookup m i)
resize_lem m n h =
    let same : resize m n ≡ m ++ replicate (n - length m) none =
      ap (λ xs. xs ++ replicate (n - length m) none) (take_all n m h) in
    (
      ap length same
          ∙ omega (
            arith,
            length-append m (replicate (n - length m) none),
            length-replicate {A = Option FdCtx} (n - length m) none,
          ),
      λ i. ap (λ xs. lookup xs i) same ∙ lookup-append_none m (n - length m) i,
    )

-- What `put` leaves of the vector `m`.
pub record PutAt (m : FdManager) (fd : ℕ) (c : FdCtx) (m' : FdManager) : Type 0 where
  pub valid : IsValid m'
  pub here : lookup m' fd ≡ some c
  pub others : (i : ℕ) → i ≢ fd → lookup m' i ≡ lookup m i

set-PutAt :
    (m grown : FdManager) (fd : ℕ) (c : FdCtx)
    → IsValid grown
    → fd < length grown
    → ((i : ℕ) → lookup grown i ≡ lookup m i)
    → PutAt m fd c (set grown fd (some c))
set-PutAt m grown fd c v lt same = record {
  valid = omega (arith, v, length-set grown fd (some c));
  here = ap join (get_elem?-set_self grown fd (some c) lt);
  others = λ i ne. ap join (get_elem?-set_ne grown (some c) (λ e. ne (sym e))) ∙ same i;
}

put_lem :
    (m : FdManager) (fd : ℕ) (c : FdCtx)
    → IsValid m
    → (m' : FdManager) × (put m fd c ≡ ok m') × PutAt m fd c m'
unfolding put
put_lem m fd c v = elim (le-or-lt (length m) fd) [
  | inl le ↦
      let (len, same) = resize_lem m (fd * 3 / 2) (omega arith) in
      let test : leb (length m) fd ≡ true = ground (arith, le) in
      let test' : leb (length (resize m (fd * 3 / 2))) fd ≡ false = ground (arith, len, le, v) in
      (
        set (resize m (fd * 3 / 2)) fd (some c),
        rw (test, test'),
        set-PutAt m (resize m (fd * 3 / 2)) fd c (omega (arith, len)) (omega (arith, len)) same,
      )
  | inr lt ↦
      let test : leb (length m) fd ≡ false = ground (arith, lt) in
      (set m fd (some c), rw (test, test), set-PutAt m m fd c v lt (λ i. refl))
]

lookup-past : (m : FdManager) (i : ℕ) → length m ≤ i → lookup m i ≡ none
lookup-past [] i h = refl
lookup-past (x ∷ m) zero h = elim h [ ]
lookup-past (x ∷ m) (suc i) h = lookup-past m i (omega arith)

module _ {K : Type 0} (os : Kernel K) (m : FdManager) (v : IsValid m) (fd : ℕ) (k : K) where
  -- On a vector with 64 elements or more `get` of a descriptor that is not negative is never out of
  -- bounds. It returns the context that is there; if there is none, it returns null and changes
  -- nothing, or, to create one, stores a new context, returns it, and keeps the others.
  pub get_lem :
      (auto_create : Bool)
      → ((c : FdCtx) × (lookup m fd ≡ some c)
          × (get os m (pos fd) auto_create k ≡ ok (some c, m, k)))
        ⊎ (lookup m fd ≡ none)
          × (auto_create ≡ false)
          × (get os m (pos fd) auto_create k ≡ ok (none, m, k))
        ⊎ (lookup m fd ≡ none)
          × (auto_create ≡ true)
          × ((m' : FdManager) × (get os m (pos fd) auto_create k
                ≡ ok (some (make_ctx os fd k).0, m', (make_ctx os fd k).1))
              × PutAt m fd (make_ctx os fd k).0 m')
  unfolding get
  get_lem auto_create = elim (Option-cases (lookup m fd)) [
    | inr (c, e) ↦ inl (c, e, cc e)
    | inl e ↦ elim (Bool-cases auto_create) [
      | inr off ↦ inr (inl (e, off, cc (e, off)))
      | inl on ↦
          let (m', run, w) = put_lem m fd (make_ctx os fd k).0 v in
          inr (inr (e, on, (m', cc (e, on, run), w)))
    ]
  ]

  -- On a vector with 64 elements or more, what `get` creates, a second `get` returns, whatever it
  -- is asked to create, with no other change.
  pub get-get :
      (auto_create : Bool) (k' : K)
      → (c : FdCtx) × (m' : FdManager) × (k1 : K) × (get os m (pos fd) true k ≡ ok (some c, m', k1))
        × (get os m' (pos fd) auto_create k' ≡ ok (some c, m', k'))
  unfolding get
  get-get auto_create k' = elim (get_lem true) [
    | inl (c, e, run) ↦ (c, m, k, run, cc e)
    | inr (inl (e, off, run)) ↦ ground (arith, off)
    | inr (inr (e, on, (m', run, w))) ↦
        ((make_ctx os fd k).0, m', (make_ctx os fd k).1, run, cc w.here)
  ]

  -- On a vector with 64 elements or more, `del` of a descriptor that is not negative leaves no
  -- context for it, so that `get` finds none, and keeps the others.
  pub get-del :
      (m' : FdManager) × (del m (pos fd) ≡ ok m')
      × (get os m' (pos fd) false k ≡ ok (none, m', k))
      × IsValid m'
      × ((i : ℕ) → i ≢ fd → lookup m' i ≡ lookup m i)
  unfolding get del
  get-del = elim (le-or-lt (length m) fd) [
    | inl le ↦
        let test : leb (length m) fd ≡ true = ground (arith, le) in
        let gone : lookup m fd ≡ none = lookup-past m fd le in
        (m, rw test, cc gone, v, λ i ne. refl)
    | inr lt ↦
        let test : leb (length m) fd ≡ false = ground (arith, lt) in
        let gone : lookup (set m fd none) fd ≡ none = ap join (get_elem?-set_self m fd none lt) in
        (
          set m fd none,
          rw test,
          cc gone,
          omega (arith, v, length-set m fd none),
          λ i ne. ap join (get_elem?-set_ne m none (λ e. ne (sym e))),
        )
  ]

stat-cases : (o : Option Bool) → (o ≡ none) ⊎ (o ≡ some false) ⊎ (o ≡ some true)
stat-cases none = inl refl
stat-cases (some false) = inr (inl refl)
stat-cases (some true) = inr (inr refl)

module _ {K : Type 0} (os : Kernel K) where
  flag_set :
      {fd : ℕ} {k : K}
      → os.get_nonblock (os.set_nonblock k fd) fd ≡ true
      → os.get_nonblock (if true && not (os.get_nonblock k fd) then os.set_nonblock k fd else k) fd
        ≡ true
  flag_set {fd = fd} {k = k} h = elim (Bool-cases (os.get_nonblock k fd)) [
    | inl e ↦ cc e
    | inr e ↦ cc (e, h)
  ]

  -- The context made for a socket is set up and marked non-blocking, and the kernel's descriptor is
  -- non-blocking, given that setting the flag sets it; the context of anything else is not marked,
  -- and the kernel is left as it was.
  pub make_ctx_lem :
      (fd : ℕ) (k : K)
      → ((k' : K) → os.get_nonblock (os.set_nonblock k' fd) fd ≡ true)
      → ((os.fstat k fd ≡ some true)
          × ((make_ctx os fd k).0.is_init ≡ true)
          × ((make_ctx os fd k).0.sys_nonblock ≡ true)
          × (os.get_nonblock (make_ctx os fd k).1 fd ≡ true))
        ⊎ (os.fstat k fd ≢ some true)
          × ((make_ctx os fd k).0.sys_nonblock ≡ false)
          × ((make_ctx os fd k).1 ≡ k)
  unfolding make_ctx init
  make_ctx_lem fd k sets = elim (stat-cases (os.fstat k fd)) [
    | inl e ↦ inr (λ h. ground (arith, h, e), rw e, rw e)
    | inr (inl e) ↦ inr (λ h. ground (arith, h, e), rw e, rw e)
    | inr (inr e) ↦ inl (e, rw e, rw e, rw e (flag_set (sets k)))
  ]
