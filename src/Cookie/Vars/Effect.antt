-- ===== src/Cookie/Vars/Effect.antt =====
-- What a reader of the variables sees after SetVar.
use elevator.Base.{
  ℕ, zero, suc, ◌+◌, ◌-◌, ◌^◌, ◌≤◌, ◌<◌, ◌≡◌, refl, ap, sym, arith, false, List, [], ◌∷◌, ◌++◌,
  ◌==◌, ◌&&◌, if◌then◌else◌, length, drop, set, resize, Bool-cases, inl, inr, leb, leb→le,
  leb_false→lt, ne→==_false, length-append, length-drop, ◌≢◌, ◌⊎◌, ◌∙◌, get_elem?, ==_iff,
  ==_false→ne,
}
use elevator.Cookie.Vars.{
  RelVar, VarTable, AllocationType, alloc_type_linear, alloc_type_last, alloc_type_first, is_empty,
  is_first, set_var, store_element, pop_while, blank_var,
}
use elevator.Cookie.Vars.View.{view, elements, elements-update, IsWellFormed}
use elevator.Cookie.Vars.Read.{get_var}
use elevator.Cookie.Vars.Lookup.{get_var-ceiling, ceiling-elements}
use elevator.Cookie.Vars.Update.{spec_set, set_var-Holds}

drop_nothing : (l : List RelVar) (n : ℕ) → n ≡ 0 → drop n l ≡ l
drop_nothing l zero e = refl
drop_nothing l (suc n) e = absurd (omega arith)

pop_while-drop :
    (max_linear : ℕ) (l : List RelVar)
    → 0 < max_linear
    → pop_while max_linear l ≡ drop (length l + 1 - max_linear) l
unfolding pop_while
pop_while-drop max_linear [] h = sym (drop_nothing [] (0 + 1 - max_linear) (omega arith))
pop_while-drop max_linear (x ∷ xs) h = elim (Bool-cases (leb max_linear (length (x ∷ xs)))) [
  | inl e ↦
      let k = leb→le max_linear (length (x ∷ xs)) e in
      let n : length (x ∷ xs) + 1 - max_linear ≡ suc (length xs + 1 - max_linear) = omega arith in
      rw (e, n) (pop_while-drop max_linear xs h)
  | inr e ↦
      let k = leb_false→lt max_linear (length (x ∷ xs)) e in
      rw e (sym (drop_nothing (x ∷ xs) (length (x ∷ xs) + 1 - max_linear) (omega arith)))
]

-- The deque of a linear variable with a bound is the last elements before the new one, as many as
-- fit, and the new one; without a bound (0) it grows; that of another variable is the new one.
pub store_element_lem :
    (max_linear : ℕ) (e : RelVar) (l : List RelVar)
    → (0 < max_linear
        → (store_element alloc_type_linear max_linear e l
            ≡ drop (length l + 1 - max_linear) l ++ (e ∷ []))
          × (length (store_element alloc_type_linear max_linear e l) ≤ max_linear))
      × (store_element alloc_type_linear 0 e l ≡ l ++ (e ∷ []))
      × (store_element alloc_type_last max_linear e l ≡ e ∷ [])
      × (store_element alloc_type_first max_linear e l ≡ e ∷ [])
unfolding store_element
store_element_lem max_linear e l = (bounded, refl, alone l, alone l)
  where
    kept :
        0 < max_linear
        → store_element alloc_type_linear max_linear e l
          ≡ drop (length l + 1 - max_linear) l ++ (e ∷ [])
    kept h = rw (ne→==_false max_linear 0 (omega arith), pop_while-drop max_linear l h)

    bounded :
        0 < max_linear
        → (store_element alloc_type_linear max_linear e l
            ≡ drop (length l + 1 - max_linear) l ++ (e ∷ []))
          × (length (store_element alloc_type_linear max_linear e l) ≤ max_linear)
    bounded h = (
      kept h,
      omega (
        arith,
        ap (λ (t : List RelVar). length t) (kept h),
        length-append (drop (length l + 1 - max_linear) l) (e ∷ []),
        length-drop (length l + 1 - max_linear) l,
      ),
    )

    alone : (l : List RelVar) → set (resize l 1 blank_var) 0 e ≡ e ∷ []
    alone [] = refl
    alone (x ∷ xs) = refl

-- The elements of each variable after SetVar with a value.
elements-set_var :
    (t : VarTable) (rid r : ℕ) (e : RelVar) (alloc : AllocationType) (max_linear : ℕ)
    → IsWellFormed t
    → rid < 2 ^ 16
    → is_empty e.value ≡ false
    → elements r (view (set_var t rid e alloc max_linear).table) ≡ (
        if (is_first alloc && (length (elements rid (view t)) == 1))
        then elements r (view t)
        else (if r == rid
            then store_element alloc max_linear e (elements rid (view t))
            else elements r (view t)))
unfolding spec_set
elements-set_var t rid r e alloc max_linear w narrow full =
    let h = set_var-Holds t rid w e alloc max_linear narrow in
    rw h.holds (elim (Bool-cases (is_first alloc && (length (elements rid (view t)) == 1))) [
      | inl kept ↦ rw (full, kept)
      | inr stored ↦
          rw (full, stored)
            (elements-update rid (store_element alloc max_linear e) (view t) 0 r w.ascending)
    ])

append_full : (l : List RelVar) (e : RelVar) → l ++ (e ∷ []) ≢ []
append_full [] e h = cc h
append_full (x ∷ l) e h = cc h

-- A variable that was stored has elements.
store_element_full :
    (alloc : AllocationType) (max_linear : ℕ) (e : RelVar) (l : List RelVar)
    → store_element alloc max_linear e l ≢ []
store_element_full alloc_type_last max_linear e l h =
    let k : e ∷ [] ≡ [] = sym (store_element_lem max_linear e l).2 ∙ h in cc k
store_element_full alloc_type_first max_linear e l h =
    let k : e ∷ [] ≡ [] = sym (store_element_lem max_linear e l).3 ∙ h in cc k
store_element_full alloc_type_linear zero e l h =
    append_full l e (sym (store_element_lem zero e l).1 ∙ h)
store_element_full alloc_type_linear (suc n) e l h =
    append_full _ e (sym ((store_element_lem (suc n) e l).0 (omega arith)).0 ∙ h)

-- What SetVar makes of the elements that the variable has: a first-value variable keeps its value, any
-- other stores the new element.
abbrev pub set_elements : AllocationType → ℕ → RelVar → List RelVar → List RelVar
set_elements alloc max_linear e l =
    if (is_first alloc && (length l == 1)) then l else store_element alloc max_linear e l

set_elements_full :
    (alloc : AllocationType) (max_linear : ℕ) (e : RelVar) (l : List RelVar)
    → set_elements alloc max_linear e l ≢ []
set_elements_full alloc max_linear e [] =
    elim (Bool-cases (is_first alloc && (length {A = RelVar} [] == 1))) [
      | inl kept ↦ rw kept (absurd (ground (arith, kept)))
      | inr stored ↦ rw stored (store_element_full alloc max_linear e [])
    ]
set_elements_full alloc max_linear e (x ∷ l) =
    elim (Bool-cases (is_first alloc && (length (x ∷ l) == 1))) [
      | inl kept ↦ rw kept (λ h. cc h)
      | inr stored ↦ rw stored (store_element_full alloc max_linear e (x ∷ l))
    ]

elements-set_var_cases :
    (t : VarTable) (rid r : ℕ) (e : RelVar) (alloc : AllocationType) (max_linear : ℕ)
    → IsWellFormed t
    → rid < 2 ^ 16
    → is_empty e.value ≡ false
    → elements r (view (set_var t rid e alloc max_linear).table) ≡ (
        if r == rid
        then set_elements alloc max_linear e (elements rid (view t))
        else elements r (view t))
elements-set_var_cases t rid r e alloc max_linear w narrow full =
    elements-set_var t rid r e alloc max_linear w narrow full ∙ elim (Bool-cases (r == rid)) [
      | inl same ↦ let k : r ≡ rid = (==_iff r rid).0 same in rw (same, k) refl
      | inr other ↦ elim (Bool-cases (is_first alloc && (length (elements rid (view t)) == 1))) [
        | inl kept ↦ rw (other, kept) refl
        | inr stored ↦ rw (other, stored) refl
      ]
    ]

-- GetVar of a variable that has elements reads them.
get_var-elements :
    (t : VarTable) (r i : ℕ)
    → IsWellFormed t
    → elements r (view t) ≢ []
    → get_var t r i ≡ get_elem? (elements r (view t)) i
get_var-elements t r i w ne =
    get_var-ceiling t r w i ∙ ap (λ l. get_elem? l i) (ceiling-elements (view t) 0 r w.ascending ne)

-- After SetVar with a value, on a well-formed table and for a 16-bit id: GetVar of the id that was set reads the elements
-- that it had with the new one stored among them, or, if it is a first-value variable that had its value, those that it
-- had; and GetVar of any other id whose variable has elements reads what it read before.
pub get_var-set_var :
    (t : VarTable) (rid r i : ℕ) (e : RelVar) (alloc : AllocationType) (max_linear : ℕ)
    → IsWellFormed t
    → rid < 2 ^ 16
    → is_empty e.value ≡ false
    → (r ≡ rid) ⊎ (elements r (view t) ≢ [])
    → get_var (set_var t rid e alloc max_linear).table r i ≡ (
        if r == rid
        then get_elem? (set_elements alloc max_linear e (elements rid (view t))) i
        else get_var t r i)
get_var-set_var t rid r i e alloc max_linear w narrow full there =
    let v = (set_var-Holds t rid w e alloc max_linear narrow).well_formed in
    let now = elements-set_var_cases t rid r e alloc max_linear w narrow full in
    elim (Bool-cases (r == rid)) [
      | inl same ↦
          let k : elements r (view (set_var t rid e alloc max_linear).table)
              ≡ set_elements alloc max_linear e (elements rid (view t)) =
            rw same at now in
          rw same (
            get_var-elements (set_var t rid e alloc max_linear).table r i v
              (λ h. set_elements_full alloc max_linear e (elements rid (view t)) (sym k ∙ h))
            ∙ ap (λ l. get_elem? l i) k)
      | inr other ↦
          let k : elements r (view (set_var t rid e alloc max_linear).table) ≡ elements r (view t) =
            rw other at now in
          let ne : elements r (view t) ≢ [] = elim there [
            | inl h ↦ absurd (==_false→ne r rid other h)
            | inr h ↦ h
          ] in
          rw other (
            get_var-elements (set_var t rid e alloc max_linear).table r i v (λ h. ne (sym k ∙ h))
            ∙ ap (λ l. get_elem? l i) k
            ∙ sym (get_var-elements t r i w ne))
    ]
