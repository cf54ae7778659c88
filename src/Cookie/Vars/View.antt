-- ===== src/Cookie/Vars/View.antt =====
-- The abstract view of the relation variables: the list of the variables in the order of
-- relVarSort, with a lookup and an update by plain recursion.
use elevator.Base.{
  ℕ, zero, suc, ◌+◌, ◌^◌, ◌≤◌, ◌<◌, ◌≡◌, ◌≢◌, refl, ap, true, List, [], ◌∷◌, arith, map, ltb, ◌==◌,
  if◌then◌else◌, length, get_or, set, insert_at, All, lt→ltb, le→ltb_false, ne→==_false, ==_iff,
}
use elevator.Cookie.Vars.{RelVar, RelVarImpl, VarTable, impl, blank_impl}

-- The variables by ascending relation id.
abbrev pub view : VarTable → List RelVarImpl
view t = map (impl t) t.rel_var_sort

-- Relation ids rise strictly from `lo` on, and each is an `unsigned short`.
abbrev pub Ascending : ℕ → List RelVarImpl → Type 0
Ascending lo [] = Unit
Ascending lo (x ∷ xs) =
    (lo ≤ x.relation_id) × (x.relation_id < 2 ^ 16) × Ascending (suc x.relation_id) xs

-- The invariant of relVar and relVarSort.
pub record IsWellFormed (t : VarTable) : Type 0 where
  pub sizes : length t.rel_var ≡ length t.rel_var_sort
  pub in_range : All (λ v. v < length t.rel_var) t.rel_var_sort
  pub ascending : Ascending 0 (view t)

-- The elements that are stored for a relation id.
unfoldable pub elements : ℕ → List RelVarImpl → List RelVar
elements rid [] = []
elements rid (x ∷ xs) = if x.relation_id == rid then x.var else elements rid xs

abbrev pub fresh : ℕ → RelVarImpl
fresh rid = record blank_impl { relation_id = rid }

-- Every change of a variable sets its flag.
abbrev pub touch : (List RelVar → List RelVar) → RelVarImpl → RelVarImpl
touch g x = record x { var = g x.var; modified = true }

-- Change what is stored for a relation id by `g`; a missing variable is added first.
unfoldable pub update : ℕ → (List RelVar → List RelVar) → List RelVarImpl → List RelVarImpl
update rid g [] = touch g (fresh rid) ∷ []
update rid g (x ∷ xs) =
    if x.relation_id == rid
    then touch g x ∷ xs
    else if ltb x.relation_id rid
    then x ∷ update rid g xs
    else touch g (fresh rid) ∷ x ∷ xs

abbrev pub id_at : List RelVarImpl → ℕ → ℕ
id_at es i = (get_or es i blank_impl).relation_id

pub Ascending-lower :
    (es : List RelVarImpl) (lo i : ℕ)
    → Ascending lo es
    → i < length es
    → (lo + i ≤ id_at es i) × (id_at es i < 2 ^ 16)
Ascending-lower [] lo i h k = absurd (omega arith)
Ascending-lower (x ∷ xs) lo zero h k = (omega arith, h.1)
Ascending-lower (x ∷ xs) lo (suc i) h k =
    let r = Ascending-lower xs (suc x.relation_id) i h.2 (omega arith) in (omega arith, r.1)

pub Ascending-mono :
    (es : List RelVarImpl) (lo i j : ℕ)
    → Ascending lo es
    → i < j
    → j < length es
    → id_at es i < id_at es j
Ascending-mono [] lo i j h p k = absurd (omega arith)
Ascending-mono (x ∷ xs) lo i zero h p k = absurd (omega arith)
Ascending-mono (x ∷ xs) lo zero (suc j) h p k =
    omega (arith, (Ascending-lower xs (suc x.relation_id) j h.2 (omega arith)).0)
Ascending-mono (x ∷ xs) lo (suc i) (suc j) h p k =
    Ascending-mono xs (suc x.relation_id) i j h.2 (omega arith) (omega arith)

-- There are at most 2 ^ 16 relation ids.
pub length-Ascending : (es : List RelVarImpl) → Ascending 0 es → length es ≤ 2 ^ 16
length-Ascending [] h = omega arith
length-Ascending (x ∷ xs) h =
    let r = Ascending-lower (x ∷ xs) 0 (length xs) h (omega arith) in omega (arith, r.0, r.1)

pub Ascending-weaken :
    (es : List RelVarImpl) (lo lo' : ℕ) → lo' ≤ lo → Ascending lo es → Ascending lo' es
Ascending-weaken [] lo lo' p h = tt
Ascending-weaken (x ∷ xs) lo lo' p h = (omega arith, h.1, h.2)

-- Below its first id a list stores nothing.
pub elements-absent :
    (es : List RelVarImpl) (lo rid : ℕ) → Ascending lo es → rid < lo → elements rid es ≡ []
unfolding elements
elements-absent [] lo rid h p = refl
elements-absent (x ∷ xs) lo rid h p = ground (arith, elements-absent xs (suc x.relation_id) rid h.2)

-- What the binary search finds: the first position whose id is not below `rid`.
pub record IsLowerBound (key : ℕ → ℕ) (n rid pos : ℕ) : Type 0 where
  pub within : pos ≤ n
  pub below : (i : ℕ) → i < pos → key i < rid
  pub above : (i : ℕ) → pos ≤ i → i < n → rid ≤ key i

pub IsLowerBound-tail :
    (x : RelVarImpl) (xs : List RelVarImpl) (rid pos : ℕ)
    → IsLowerBound (id_at (x ∷ xs)) (length (x ∷ xs)) rid (suc pos)
    → IsLowerBound (id_at xs) (length xs) rid pos
IsLowerBound-tail x xs rid pos b = record {
  within = let w = b.within in omega arith;
  below = λ i h. b.below (suc i) (omega arith);
  above = λ i h k. b.above (suc i) (omega arith) (omega arith);
}

module _ (rid : ℕ) (g : List RelVar → List RelVar) where
  -- At the lower bound, an update of an absent id is an insertion.
  pub update-insert_at :
      (es : List RelVarImpl) (pos : ℕ)
      → IsLowerBound (id_at es) (length es) rid pos
      → (pos < length es → id_at es pos ≢ rid)
      → update rid g es ≡ insert_at es pos (touch g (fresh rid))
  unfolding update
  update-insert_at [] zero b n = refl
  update-insert_at [] (suc pos) b n = absurd (let w = b.within in omega arith)
  update-insert_at (x ∷ xs) zero b n =
      let ne : x.relation_id ≢ rid = n (omega arith) in
      let le : rid ≤ x.relation_id = b.above 0 (omega arith) (omega arith) in
      rw (ne→==_false _ _ ne, le→ltb_false _ _ le)
  update-insert_at (x ∷ xs) (suc pos) b n =
      let lt : x.relation_id < rid = b.below 0 (omega arith) in
      rw (ne→==_false x.relation_id rid (omega arith), lt→ltb _ _ lt)
        (ap (λ t. x ∷ t)
          (update-insert_at xs pos (IsLowerBound-tail x xs rid pos b) (λ h. n (omega arith))))

  -- At the lower bound, an update of a present id is a write.
  pub update-set :
      (es : List RelVarImpl) (pos : ℕ)
      → IsLowerBound (id_at es) (length es) rid pos
      → pos < length es
      → id_at es pos ≡ rid
      → update rid g es ≡ set es pos (touch g (get_or es pos blank_impl))
  unfolding update
  update-set [] pos b h e = absurd (omega arith)
  update-set (x ∷ xs) zero b h e = rw ((==_iff x.relation_id rid).1 e)
  update-set (x ∷ xs) (suc pos) b h e =
      let lt : x.relation_id < rid = b.below 0 (omega arith) in
      rw (ne→==_false x.relation_id rid (omega arith), lt→ltb _ _ lt)
        (ap (λ t. x ∷ t) (update-set xs pos (IsLowerBound-tail x xs rid pos b) (omega arith) e))

  -- An update keeps the order.
  pub update-Ascending :
      (es : List RelVarImpl) (lo : ℕ)
      → Ascending lo es
      → lo ≤ rid
      → rid < 2 ^ 16
      → Ascending lo (update rid g es)
  unfolding update
  update-Ascending [] lo h p q = (p, q, tt)
  update-Ascending (x ∷ xs) lo h p q = ground (arith, update-Ascending xs (suc x.relation_id) h.2)

  -- An update changes what is stored for its id, and nothing else.
  pub elements-update :
      (es : List RelVarImpl) (lo r : ℕ)
      → Ascending lo es
      → elements r (update rid g es) ≡ (if r == rid then g (elements rid es) else elements r es)
  unfolding update elements
  elements-update [] lo r h = ground arith
  elements-update (x ∷ xs) lo r h = ground (
    arith,
    elements-update xs (suc x.relation_id) r h.2,
    elements-absent xs (suc x.relation_id) rid h.2,
  )
