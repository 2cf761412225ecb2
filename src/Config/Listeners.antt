-- ===== src/Config/Listeners.antt =====
-- Which listeners a change of a setting calls.
use link_server.Base.{
  ℕ, ◌+◌, ◌^◌, ◌≤◌, ◌<◌, ◌≡◌, refl, ap, List, [], ◌∷◌, ◌++◌, map, Bool, true, false, ltb, add64,
  arith,
}
use link_server.Base.Maps.{assign, erase}
use link_server.Config.{ConfigVar, set_value, add_listener, del_listener}

-- All keys are at most `n`.
abbrev pub AllUpTo : ℕ → List (ℕ × ℕ) → Type 0
AllUpTo n [] = Unit {0}
AllUpTo n ((k, cb) ∷ cbs) = (k ≤ n) × AllUpTo n cbs

assign_last :
    (n cb : ℕ) (cbs : List (ℕ × ℕ))
    → AllUpTo n cbs
    → assign ltb (n + 1) cb cbs ≡ cbs ++ ((n + 1, cb) ∷ [])
assign_last n cb [] h = refl
assign_last n cb ((k, d) ∷ cbs) (l, h) =
    let e : ltb k (n + 1) ≡ true = ground (arith, l) in rw (e, assign_last n cb cbs h) refl

erase_last :
    (n cb : ℕ) (cbs : List (ℕ × ℕ))
    → AllUpTo n cbs
    → erase ltb (n + 1) (cbs ++ ((n + 1, cb) ∷ [])) ≡ cbs
erase_last n cb [] h = let e : ltb (n + 1) (n + 1) ≡ false = ground arith in rw e refl
erase_last n cb ((k, d) ∷ cbs) (l, h) =
    let e : ltb k (n + 1) ≡ true = ground (arith, l) in rw (e, erase_last n cb cbs h) refl

map-append : {A B : Type 0} (f : A → B) (xs ys : List A) → map f (xs ++ ys) ≡ map f xs ++ map f ys
map-append f [] ys = refl
map-append f (x ∷ xs) ys = ap (λ t. f x ∷ t) (map-append f xs ys)

-- Where the keys of a setting's listeners are at most the last one given out, below 2^64 - 1: a
-- change of its value calls a listener that is added last, after the others, with the old and the new
-- value; setting an equal value calls none and changes nothing; and deleting the listener by the key
-- that addListener answered leaves the setting as it was.
pub set_value-add_listener :
    {T : Type 0} (eq : T → T → Bool) (val same : T) (cb fun_id : ℕ) (v : ConfigVar T)
    → AllUpTo fun_id v.cbs
    → fun_id + 1 < 2 ^ 64
    → eq val v.val ≡ false
    → eq same v.val ≡ true
    → (set_value eq val (add_listener cb fun_id v).1 ≡ (
      (set_value eq val v).0 ++ ((cb, v.val, val) ∷ []),
      record (add_listener cb fun_id v).1 { val = val },
    ))
      × (set_value eq same (add_listener cb fun_id v).1 ≡ ([], (add_listener cb fun_id v).1))
      × (del_listener (add_listener cb fun_id v).0 (add_listener cb fun_id v).1 ≡ v)
unfolding set_value add_listener del_listener
set_value-add_listener eq val same cb fun_id v h small ne e =
    let k : add64 fun_id 1 ≡ fun_id + 1 = omega (arith, small) in
    let last = assign_last fun_id cb v.cbs h in
    (
      rw (k, last, ne, map-append) refl,
      rw e refl,
      rw (k, last) (ap (λ c. record v { cbs = c }) (erase_last fun_id cb v.cbs h)),
    )
