-- ===== src/ByteArray/Invariant.antt =====
-- The representation invariant of `ByteArray`, its contents as one sequence of cells, and the laws
-- of writing over a part of such a sequence.
use mathlib.Core.List.{append-nil, append_assoc}
use native.Mathlib.Nat.{zero-add}
use link_server.Base.{
  ℕ, zero, suc, ◌+◌, ◌-◌, ◌*◌, ◌^◌, ◌≤◌, ◌<◌, ◌≡◌, refl, sym, ap, ◌∙◌, List, [], ◌∷◌, ◌++◌, arith,
  length, take, drop, length-append, length-take, length-drop, take-append_le, drop-append_le,
  take-append_ge, drop-append_ge, drop_all, take-append-drop, length-replicate, none,
}
use link_server.ByteArray.{ByteArray, Node, Cell, splice, make}

abbrev pub concat {ℓ} : {A : Type ℓ} → List (List A) → List A
concat [] = []
concat (n ∷ ns) = n ++ concat ns

-- The whole memory of a buffer, written or not.
abbrev pub contents : ByteArray → List Cell
contents b = concat b.nodes

-- A cell that nothing has written.
abbrev pub unwritten : Cell
unwritten = none

-- Every block has the same size.
abbrev pub IsUniform : ℕ → List Node → Type 0
IsUniform base [] = Unit {0}
IsUniform base (n ∷ ns) = (length n ≡ base) × IsUniform base ns

-- What every operation but `read` keeps: `m_cur` is the block of the position, and the position is
-- within the data, which is within the capacity.
pub record IsValid (b : ByteArray) : Type 0 where
  pub base_pos : 0 < b.base_size
  pub rooted : 0 < length b.nodes
  pub uniform : IsUniform b.base_size b.nodes
  pub capacity_eq : b.capacity ≡ length b.nodes * b.base_size
  pub capacity_lt : b.capacity < 2 ^ 64
  pub position_le : b.position ≤ b.size
  pub size_le : b.size ≤ b.capacity
  pub cur_lo : b.cur * b.base_size ≤ b.position
  pub cur_hi : b.position < b.cur * b.base_size + b.base_size

pub length-concat :
    (base : ℕ) (ns : List Node) → IsUniform base ns → length (concat ns) ≡ length ns * base
length-concat base [] u = omega arith
length-concat base (n ∷ ns) (e, u) =
    omega (arith, length-append n (concat ns), length-concat base ns u)

pub IsUniform-append :
    (base : ℕ) (ns ms : List Node)
    → IsUniform base ns
    → IsUniform base ms
    → IsUniform base (ns ++ ms)
IsUniform-append base [] ms u v = v
IsUniform-append base (n ∷ ns) ms (e, u) v = (e, IsUniform-append base ns ms u v)

pub IsUniform-take : (base k : ℕ) (ns : List Node) → IsUniform base ns → IsUniform base (take k ns)
IsUniform-take base zero ns u = tt
IsUniform-take base (suc k) [] u = tt
IsUniform-take base (suc k) (n ∷ ns) (e, u) = (e, IsUniform-take base k ns u)

pub IsUniform-drop : (base k : ℕ) (ns : List Node) → IsUniform base ns → IsUniform base (drop k ns)
IsUniform-drop base zero ns u = u
IsUniform-drop base (suc k) [] u = tt
IsUniform-drop base (suc k) (n ∷ ns) (e, u) = IsUniform-drop base k ns u

pub concat-append {ℓ} :
    {A : Type ℓ} (ns ms : List (List A)) → concat (ns ++ ms) ≡ concat ns ++ concat ms
concat-append [] ms = refl
concat-append (n ∷ ns) ms = rw (concat-append ns ms, append_assoc n (concat ns) (concat ms))

module _ {ℓ} {A : Type ℓ} where
  pub length-splice :
      (p : ℕ) (ys xs : List A) → p + length ys ≤ length xs → length (splice p ys xs) ≡ length xs
  length-splice p ys xs h = omega (
    arith,
    length-append (take p xs) (ys ++ drop (p + length ys) xs),
    length-append ys (drop (p + length ys) xs),
    length-take p xs,
    length-drop (p + length ys) xs,
  )

  -- Writing within the first of two parts, and past it.
  pub splice-append_le :
      (p : ℕ) (ys xs zs : List A)
      → p + length ys ≤ length xs
      → splice p ys (xs ++ zs) ≡ splice p ys xs ++ zs
  splice-append_le p ys xs zs h =
      rw (take-append_le p xs zs (omega arith), drop-append_le (p + length ys) xs zs h)
        (simp append_assoc)

  pub splice-append_ge :
      (p : ℕ) (ys xs zs : List A) → splice (length xs + p) ys (xs ++ zs) ≡ xs ++ splice p ys zs
  splice-append_ge p ys xs zs =
      rw
        (
          take-append_ge (length xs + p) p xs zs refl,
          drop-append_ge (length xs + p + length ys) (p + length ys) xs zs (omega arith),
        )
        (append_assoc xs (take p zs) (ys ++ drop (p + length ys) zs))

  -- Writing across the seam is writing each part on its side.
  pub splice_across :
      (p k : ℕ) (ys xs zs : List A)
      → p + k ≡ length xs
      → k ≤ length ys
      → splice p (take k ys) xs ++ splice 0 (drop k ys) zs ≡ splice p ys (xs ++ zs)
  splice_across p k ys xs zs e h =
      let count : length (take k ys) ≡ k = omega (arith, length-take k ys) in
      let rest : length (drop k ys) ≡ length ys - k = omega (arith, length-drop k ys) in
      rw
        (
          count,
          rest,
          drop_all (p + k) xs (omega arith),
          take-append_le p xs zs (omega arith),
          drop-append_ge (p + length ys) (length ys - k) xs zs (omega arith),
          zero-add (length ys - k),
        )
        (simp (append-nil, append_assoc)
          (ap (λ t. take p xs ++ t)
            (sym (append_assoc (take k ys) (drop k ys) (drop (length ys - k) zs))
              ∙ ap (λ t. t ++ drop (length ys - k) zs) (take-append-drop k ys))))

-- A new buffer is valid.
pub make-IsValid : (base : ℕ) → 0 < base → base < 2 ^ 64 → IsValid (make base)
unfolding make
make-IsValid base lo hi = ground (arith, length-replicate base unwritten)
