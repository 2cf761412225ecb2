-- ===== src/HttpConnection/Pool.antt =====
-- The pool in any order of getConnection and of releases.
use link_server.Base.{
  ℕ, zero, suc, ◌+◌, ◌%◌, ◌^◌, ◌≤◌, ◌<◌, ◌≡◌, refl, ap, ◌∙◌, subst, List, [], ◌∷◌, ◌++◌, Option,
  none, some, Bool, false, ◌==◌, if◌then◌else◌, add64, length, length-append, Bool-cases, inl, inr,
  arith,
}
use link_server.HttpConnection.{
  Connection, HttpConnectionPool, sub32, put_conn, is_usable, take_first, lend, get_connection,
  release_ptr, is_spent,
}

-- How often an address stands in a list.
abbrev pub occurs : ℕ → List ℕ → ℕ
occurs a [] = 0
occurs a (b ∷ xs) = if a == b then suc (occurs a xs) else occurs a xs

occurs-append : (a : ℕ) (xs ys : List ℕ) → occurs a (xs ++ ys) ≡ occurs a xs + occurs a ys
occurs-append a [] ys = omega arith
occurs-append a (x ∷ xs) ys = let ih = occurs-append a xs ys in ground (arith, ih)

-- Every connection in the list has served fewer requests than the limit.
abbrev pub AllServe : (ℕ → Connection) → ℕ → List ℕ → Type 0
AllServe s limit [] = Unit {0}
AllServe s limit (a ∷ xs) = ((s a).request < limit) × AllServe s limit xs

-- The pool, and the connections that are lent.
pub record System : Type 0 where
  pub pool : HttpConnectionPool
  pub lent : List ℕ

abbrev pub added : Option ℕ → List ℕ → List ℕ
added none lent = lent
added (some a) lent = a ∷ lent

-- A new connection stands at an address that no connection in use has.
abbrev pub IsFresh : Option (ℕ × ℕ) → System → Type 0
IsFresh none s = Unit {0}
IsFresh (some (a, time)) s = occurs a s.pool.conns + occurs a s.lent ≡ 0

abbrev pub after_get : (ℕ → Bool) → ℕ → Option (ℕ × ℕ) → System → System
after_get is_connected now opened s =
    let (got, pool') = get_connection is_connected now opened s.pool in
    record { pool = pool'; lent = added got s.lent }

abbrev pub after_release : (ℕ → Bool) → ℕ → ℕ → List ℕ → List ℕ → System → System
after_release is_connected now a before after s = record {
  pool = (release_ptr is_connected now a s.pool).1;
  lent = before ++ after;
}

pub data Step : System → System → Type 0 where
  gets :
      (s : System) (is_connected : ℕ → Bool) (now : ℕ) (opened : Option (ℕ × ℕ))
      → IsFresh opened s
      → Step s (after_get is_connected now opened s)
  releases :
      (s : System) (is_connected : ℕ → Bool) (now a : ℕ) (before after : List ℕ)
      → s.lent ≡ before ++ (a ∷ after)
      → Step s (after_release is_connected now a before after s)

pub data Reach (s : System) : System → Type 0 where
  here : Reach s s
  next : {t u : System} → Reach s t → Step t u → Reach s u

-- A connection is pooled or lent, at most once in all; the total counts them, on 32 bits; and those in
-- the pool have requests left.
pub record IsValid (s : System) : Type 0 where
  pub once : (a : ℕ) → occurs a s.pool.conns + occurs a s.lent ≤ 1
  pub total_eq : s.pool.total ≡ (length s.pool.conns + length s.lent) % 2 ^ 32
  pub serve : AllServe s.pool.store s.pool.max_request s.pool.conns

abbrev got_list : Option ℕ → List ℕ
got_list none = []
got_list (some a) = a ∷ []

-- What the loop takes, drops and leaves is what was there.
record Parts (conns : List ℕ) (s : ℕ → Connection) (limit : ℕ) (r : Option ℕ × List ℕ × List ℕ)
    : Type 0 where
  occurs_eq : (a : ℕ) → occurs a conns ≡ occurs a (r.1) + occurs a (got_list r.0) + occurs a r.2
  length_eq : length conns ≡ length (r.1) + length (got_list r.0) + length r.2
  serve : AllServe s limit r.2

take_first-Parts :
    (p : ℕ → Bool) (s : ℕ → Connection) (limit : ℕ) (conns : List ℕ)
    → AllServe s limit conns
    → Parts conns s limit (take_first p conns)
take_first-Parts p s limit [] h = record { occurs_eq = λ a. refl; length_eq = refl; serve = tt }
take_first-Parts p s limit (b ∷ conns) (k, h) =
    let ih = take_first-Parts p s limit conns h in
    elim (Bool-cases (p b)) [
      | inl e ↦ rw e (record { occurs_eq = λ a. ground arith; length_eq = omega arith; serve = h })
      | inr e ↦ rw e (record {
        occurs_eq = λ a. let i = ih.occurs_eq a in ground (arith, i);
        length_eq = let i = ih.length_eq in omega (arith, i);
        serve = ih.serve;
      })
    ]

AllServe-put :
    (s : ℕ → Connection) (limit a : ℕ) (c : Connection) (xs : List ℕ)
    → occurs a xs ≡ 0
    → AllServe s limit xs
    → AllServe (put_conn s a c) limit xs
AllServe-put s limit a c [] n h = tt
AllServe-put s limit a c (b ∷ xs) n (k, h) =
    let ne : (a == b) ≡ false = ground (arith, n) in
    (rw ne k, AllServe-put s limit a c xs (ground (arith, n)) h)

AllServe-append :
    (s : ℕ → Connection) (limit a : ℕ) (xs : List ℕ)
    → AllServe s limit xs
    → (s a).request < limit
    → AllServe s limit (xs ++ (a ∷ []))
AllServe-append s limit a [] h k = (k, tt)
AllServe-append s limit a (b ∷ xs) (j, h) k = (j, AllServe-append s limit a xs h k)

lend-IsValid :
    (s : System) (got : Option ℕ) (invalid rest : List ℕ) (opened : Option (ℕ × ℕ))
    → IsValid s
    → IsFresh opened s
    → Parts s.pool.conns s.pool.store s.pool.max_request (got, invalid, rest)
    → let r =
        lend got opened
          (record s.pool { conns = rest; total = sub32 s.pool.total (length invalid) }) in
      IsValid (record { pool = r.1; lent = added r.0 s.lent })
lend-IsValid s (some a) invalid rest opened v f p = record {
  once = λ b. let o = v.once b in let e = p.occurs_eq b in ground (arith, o, e);
  total_eq = let t = v.total_eq in let l = p.length_eq in omega (arith, t, l);
  serve = p.serve;
}
lend-IsValid s none invalid rest none v f p = record {
  once = λ b. let o = v.once b in let e = p.occurs_eq b in omega (arith, o, e);
  total_eq = let t = v.total_eq in let l = p.length_eq in omega (arith, t, l);
  serve = p.serve;
}
lend-IsValid s none invalid rest (some (a, time)) v f p = record {
  once = λ b.
      let o = v.once b in
      let e = p.occurs_eq b in
      elim (Bool-cases (b == a)) [
        | inl k ↦
            let same : b ≡ a = ground (arith, k) in
            let e' = p.occurs_eq a in rw (same) (ground (arith, f, e'))
        | inr k ↦ rw k (omega (arith, o, e))
      ];
  total_eq = let t = v.total_eq in let l = p.length_eq in omega (arith, t, l);
  serve =
      AllServe-put s.pool.store s.pool.max_request a _ rest
        (let e = p.occurs_eq a in omega (arith, f, e)) p.serve;
}

get-IsValid :
    (s : System) (is_connected : ℕ → Bool) (now : ℕ) (opened : Option (ℕ × ℕ))
    → IsValid s
    → IsFresh opened s
    → IsValid (after_get is_connected now opened s)
unfolding get_connection
get-IsValid s is_connected now opened v f =
    let p = is_usable is_connected now s.pool in
    lend-IsValid s (take_first p s.pool.conns).0 (take_first p s.pool.conns).1
      (take_first p s.pool.conns).2 opened v f
      (take_first-Parts p s.pool.store s.pool.max_request s.pool.conns v.serve)

occurs_middle :
    (b a : ℕ) (before after : List ℕ)
    → occurs b (before ++ (a ∷ after)) ≡ occurs b (a ∷ (before ++ after))
occurs_middle b a [] after = refl
occurs_middle b a (x ∷ before) after = let ih = occurs_middle b a before after in ground (arith, ih)

length_one :
    (before after : List ℕ) (a : ℕ)
    → length (before ++ (a ∷ after)) ≡ suc (length (before ++ after))
length_one [] after a = refl
length_one (x ∷ before) after a = ap suc (length_one before after a)

release-IsValid :
    (s : System) (is_connected : ℕ → Bool) (now a : ℕ) (before after : List ℕ)
    → IsValid s
    → s.lent ≡ before ++ (a ∷ after)
    → IsValid (after_release is_connected now a before after s)
unfolding release_ptr
release-IsValid s is_connected now a before after v e =
    let served = add64 (s.pool.store a).request 1 in
    let count : length s.lent ≡ suc (length (before ++ after)) = rw e (length_one before after a) in
    let t = v.total_eq in
    let out : (b : ℕ) → occurs b s.pool.conns + occurs b (a ∷ (before ++ after)) ≤ 1 = λ b.
      let o = v.once b in
      subst (λ k. occurs b s.pool.conns + k ≤ 1) (ap (occurs b) e ∙ occurs_middle b a before after)
        o in
    let gone : occurs a s.pool.conns ≡ 0 = let o = out a in ground (arith, o) in
    let keeps =
      AllServe-put s.pool.store s.pool.max_request a (record (s.pool.store a) { request = served })
        s.pool.conns gone v.serve in
    elim (Bool-cases (is_spent is_connected now a s.pool)) [
      | inl d ↦ rw d (record {
        once = λ b. let o = out b in ground (arith, o);
        total_eq = omega (arith, t, count);
        serve = keeps;
      })
      | inr d ↦ rw d (record {
        once = λ b.
            let o = out b in let c = occurs-append b s.pool.conns (a ∷ []) in ground (arith, o, c);
        total_eq = let l = length-append s.pool.conns (a ∷ []) in omega (arith, t, count, l);
        serve =
            AllServe-append (put_conn s.pool.store a (record (s.pool.store a) { request = served }))
              s.pool.max_request a s.pool.conns keeps (ground (arith, d));
      })
    ]

Step-IsValid : {s t : System} → Step s t → IsValid s → IsValid t
Step-IsValid (gets s is_connected now opened f) v = get-IsValid s is_connected now opened v f
Step-IsValid (releases s is_connected now a before after e) v =
    release-IsValid s is_connected now a before after v e

-- In every state reached from a valid one, in whatever order connections are taken and released,
-- whenever they break and whatever the clock says, where a new connection stands at an address that
-- is not in use, and m_total is changed in the step that takes or opens a connection: no connection
-- is lent twice, or lent while it waits in the pool; m_total counts the connections, on 32 bits; and
-- a pooled connection has served fewer requests than the limit.
pub System-IsValid : {s t : System} → IsValid s → Reach s t → IsValid t
System-IsValid v here = v
System-IsValid v (next r st) = Step-IsValid st (System-IsValid v r)

-- A pool that nobody has used.
abbrev pub unused : HttpConnectionPool → System
unused pool = record { pool = record pool { conns = []; total = 0 }; lent = [] }

-- The limit on the size, which nothing reads, does not hold: any number of connections may be lent at
-- the same time.
pub unused-Unbounded :
    (n : ℕ) (pool : HttpConnectionPool)
    → (t : System) × Reach (unused pool) t
      × (length t.lent ≡ n)
      × (t.pool.max_size ≡ pool.max_size)
      × (t.pool.conns ≡ [])
      × ((a : ℕ) → n ≤ a → occurs a t.lent ≡ 0)
unfolding get_connection
unused-Unbounded zero pool = (unused pool, here, refl, refl, refl, λ a h. refl)
unused-Unbounded (suc n) pool =
    let (t, r, len, size, conns, free) = unused-Unbounded n pool in
    let fresh : occurs n t.pool.conns + occurs n t.lent ≡ 0 =
      let f = free n (omega arith) in let c = ap (occurs n) conns in omega (arith, f, c) in
    let t' : System = after_get (λ a. false) 0 (some (n, 0)) t in
    (
      t',
      next r (gets t (λ a. false) 0 (some (n, 0)) fresh),
      rw conns (ap suc len),
      rw conns size,
      rw conns refl,
      λ a h. let f = free a (omega (arith, h)) in rw conns (ground (arith, f, h)),
    )
