-- ===== src/Sysconf/Designators.antt =====
-- What stands in the array that designated initialisers make.
use Prim.Native.String.{String}
use fake_libc.Common.{
  ℕ, zero, suc, ◌≤◌, ◌<◌, ◌≡◌, ◌≢◌, refl, ap, ◌∙◌, ◌⊎◌, inl, inr, Bool, true, ◌&&◌, leb, List, [],
  ◌∷◌, Option, none, some, get_elem?, length, arith, Option-cases, Bool-cases, ltb, ltb→lt,
}
use fake_libc.Sysconf.Translation.{designate, initialise}

get_elem?-designate : (i v : ℕ) (a : List ℕ) → get_elem? (designate i v a) i ≡ some v
unfolding designate
get_elem?-designate zero v [] = refl
get_elem?-designate zero v (x ∷ xs) = refl
get_elem?-designate (suc i) v [] = get_elem?-designate i v []
get_elem?-designate (suc i) v (x ∷ xs) = get_elem?-designate i v xs

designate-keeps :
    (i v : ℕ) (a : List ℕ) (j x : ℕ)
    → i ≢ j
    → get_elem? a j ≡ some x
    → get_elem? (designate i v a) j ≡ some x
unfolding designate
designate-keeps i v [] j x ne h = cc
designate-keeps zero v (y ∷ ys) zero x ne h = absurd (ne refl)
designate-keeps zero v (y ∷ ys) (suc j) x ne h = h
designate-keeps (suc i) v (y ∷ ys) zero x ne h = h
designate-keeps (suc i) v (y ∷ ys) (suc j) x ne h =
    designate-keeps i v ys j x (λ e. ne (ap suc e)) h

-- A slot without an initialiser: beyond the end, or zero.
abbrev pub IsBlank : List ℕ → ℕ → Type 0
IsBlank a j = (get_elem? a j ≡ none) ⊎ (get_elem? a j ≡ some 0)

designate-IsBlank :
    (i v : ℕ) (a : List ℕ) (j : ℕ) → i ≢ j → IsBlank a j → IsBlank (designate i v a) j
unfolding designate
designate-IsBlank zero v [] zero ne h = absurd (ne refl)
designate-IsBlank zero v [] (suc j) ne h = inl refl
designate-IsBlank zero v (y ∷ ys) zero ne h = absurd (ne refl)
designate-IsBlank zero v (y ∷ ys) (suc j) ne h = h
designate-IsBlank (suc i) v [] zero ne h = inr refl
designate-IsBlank (suc i) v [] (suc j) ne h =
    designate-IsBlank i v [] j (λ e. ne (ap suc e)) (inl refl)
designate-IsBlank (suc i) v (y ∷ ys) zero ne h = h
designate-IsBlank (suc i) v (y ∷ ys) (suc j) ne h =
    designate-IsBlank i v ys j (λ e. ne (ap suc e)) h

length-designate :
    (i v : ℕ) (a : List ℕ) (n : ℕ) → i < n → length a ≤ n → length (designate i v a) ≤ n
unfolding designate
length-designate zero v [] n h hn = omega arith
length-designate zero v (x ∷ xs) n h hn = hn
length-designate (suc i) v [] zero h hn = omega arith
length-designate (suc i) v [] (suc n) h hn =
    omega (arith, length-designate i v [] n (omega arith) (omega arith))
length-designate (suc i) v (x ∷ xs) zero h hn = omega arith
length-designate (suc i) v (x ∷ xs) (suc n) h hn =
    omega (arith, length-designate i v xs n (omega arith) (omega arith))

pub get_elem?-none : (a : List ℕ) (j : ℕ) → length a ≤ j → get_elem? a j ≡ none
get_elem?-none [] j h = refl
get_elem?-none (x ∷ xs) zero h = absurd (omega arith)
get_elem?-none (x ∷ xs) (suc j) h = get_elem?-none xs j (omega arith)

-- Below a slot that exists there is no end.
pub below-blank :
    (a : List ℕ) (j k x : ℕ) → j < k → get_elem? a k ≡ some x → IsBlank a j → get_elem? a j ≡ some 0
below-blank [] j k x lt h b = cc
below-blank (y ∷ ys) zero k x lt h (inl e) = cc
below-blank (y ∷ ys) zero k x lt h (inr e) = e
below-blank (y ∷ ys) (suc j) zero x lt h b = absurd (omega arith)
below-blank (y ∷ ys) (suc j) (suc k) x lt h b = below-blank ys j k x (omega arith) h b

-- The numbers of the initialisers increase, from `n` on.
abbrev pub increasing : ℕ → List (ℕ × String) → Bool
increasing n [] = true
increasing n ((i, name) ∷ es) = leb n i && increasing (suc i) es

increasing-bound :
    (n : ℕ) (es : List (ℕ × String)) (k i : ℕ) (name : String)
    → increasing n es ≡ true
    → get_elem? es k ≡ some (i, name)
    → n ≤ i
increasing-bound n [] k i name h g = cc
increasing-bound n ((i', name') ∷ es) zero i name h g = let e : i' ≡ i = cc in ground (arith, e)
increasing-bound n ((i', name') ∷ es) (suc k) i name h g =
    let b = increasing-bound (suc i') es k i name (ground arith) g in ground (arith, b)

increasing-weaken :
    (m n : ℕ) (es : List (ℕ × String)) → n ≤ m → increasing m es ≡ true → increasing n es ≡ true
increasing-weaken m n [] h inc = refl
increasing-weaken m n ((i, name) ∷ es) h inc = ground arith

module _ (macros : String → Option ℕ) where
  initialise-none :
      (i : ℕ) (name : String) (es : List (ℕ × String)) (a : List ℕ)
      → macros name ≡ none
      → initialise macros ((i, name) ∷ es) a ≡ initialise macros es a
  unfolding initialise
  initialise-none i name es a e = rw (initialise, e) refl

  initialise-some :
      (i v : ℕ) (name : String) (es : List (ℕ × String)) (a : List ℕ)
      → macros name ≡ some v
      → initialise macros ((i, name) ∷ es) a ≡ initialise macros es (designate i v a)
  unfolding initialise
  initialise-some i v name es a e = rw (initialise, e) refl

  initialise-keeps :
      (es : List (ℕ × String)) (a : List ℕ) (j x : ℕ)
      → increasing (suc j) es ≡ true
      → get_elem? a j ≡ some x
      → get_elem? (initialise macros es a) j ≡ some x
  unfolding initialise
  initialise-keeps [] a j x inc h = h
  initialise-keeps ((i, name) ∷ es) a j x inc h =
      let after : suc j ≤ i = ground (arith, inc) in
      let rest = increasing-weaken (suc i) (suc j) es (omega arith) (ground (arith, inc)) in
      elim (Option-cases (macros name)) [
        | inl e ↦ rw (initialise-none i name es a e) (initialise-keeps es a j x rest h)
        | inr (v, e) ↦ rw (initialise-some i v name es a e) (
            initialise-keeps es (designate i v a) j x rest
              (designate-keeps i v a j x (omega arith) h))
      ]

  -- An initialiser whose name is defined determines its slot.
  pub initialise-hit :
      (es : List (ℕ × String)) (a : List ℕ) (n k i v : ℕ) (name : String)
      → increasing n es ≡ true
      → get_elem? es k ≡ some (i, name)
      → macros name ≡ some v
      → get_elem? (initialise macros es a) i ≡ some v
  unfolding initialise
  initialise-hit [] a n k i v name inc g d = cc
  initialise-hit ((i', name') ∷ es) a n zero i v name inc g d =
      let ei : i' ≡ i = cc in
      let en : macros name' ≡ some v = (let same : name' ≡ name = cc in ap macros same ∙ d) in
      let tail : increasing (suc i') es ≡ true = ground (arith, inc) in
      rw (← ei, initialise-some i' v name' es a en)
        (initialise-keeps es (designate i' v a) i' v tail (get_elem?-designate i' v a))
  initialise-hit ((i', name') ∷ es) a n (suc k) i v name inc g d =
      let tail : increasing (suc i') es ≡ true = ground (arith, inc) in
      elim (Option-cases (macros name')) [
        | inl e ↦
            rw (initialise-none i' name' es a e) (initialise-hit es a (suc i') k i v name tail g d)
        | inr (w, e) ↦
            rw (initialise-some i' w name' es a e)
              (initialise-hit es (designate i' w a) (suc i') k i v name tail g d)
      ]

  -- A slot whose initialisers are all undefined is blank.
  pub initialise-IsBlank :
      (es : List (ℕ × String)) (a : List ℕ) (j : ℕ)
      → ((k : ℕ) (name : String) → get_elem? es k ≡ some (j, name) → macros name ≡ none)
      → IsBlank a j
      → IsBlank (initialise macros es a) j
  unfolding initialise
  initialise-IsBlank [] a j h b = b
  initialise-IsBlank ((i, name) ∷ es) a j h b = elim (Option-cases (macros name)) [
    | inl e ↦ rw (initialise-none i name es a e) (initialise-IsBlank es a j (λ k. h (suc k)) b)
    | inr (v, e) ↦
        (let ne : i ≢ j =
            λ same. (let undefined = h 0 name (ap (λ n. some (n, name)) same) in cc) in
          rw (initialise-some i v name es a e) (
            initialise-IsBlank es (designate i v a) j (λ k. h (suc k))
              (designate-IsBlank i v a j ne b)))
  ]

  -- The array ends behind the last defined initialiser.
  pub length-initialise :
      (es : List (ℕ × String)) (a : List ℕ) (n : ℕ)
      → ((k i : ℕ) (name : String) → get_elem? es k ≡ some (i, name) → n ≤ i → macros name ≡ none)
      → length a ≤ n
      → length (initialise macros es a) ≤ n
  unfolding initialise
  length-initialise [] a n h la = la
  length-initialise ((i, name) ∷ es) a n h la = elim (Option-cases (macros name)) [
    | inl e ↦ rw (initialise-none i name es a e) (length-initialise es a n (λ k. h (suc k)) la)
    | inr (v, e) ↦
        (let below : i < n = elim (Bool-cases (ltb i n)) [
          | inl lt ↦ ltb→lt i n lt
          | inr ge ↦ absurd (let undefined = h 0 i name refl (ground arith) in cc)
        ] in
          rw (initialise-some i v name es a e) (
            length-initialise es (designate i v a) n (λ k. h (suc k))
              (length-designate i v a n below la)))
  ]
