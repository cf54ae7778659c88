-- ===== src/Codec/AbsorbVars.antt =====
-- Deserialize reads the relation variables of the format.
use elevator.Base.{
  ℕ, zero, suc, ◌^◌, ◌≤◌, ◌<◌, ◌≡◌, refl, sym, arith, Bool, true, List, [], ◌∷◌, ◌++◌, not, length,
  Bytes, word, All, All-append, All-map_pred, ne→==_false, map, length-append, length-word,
}
use mathlib.Core.List.{append_assoc, append-nil}
use elevator.Cookie.{VCookie}
use elevator.Cookie.Vars.{RelVar, RelVarImpl, VarTable, is_empty, invalid_rid, var_not_set}
use elevator.Cookie.Vars.Read.{is_set}
use elevator.Cookie.Vars.View.{Ascending}
use elevator.Cookie.Vars.Refine.{Holds}
use elevator.Codec.Read.{next, read_item, read_elements, read_vars}
use elevator.Codec.Format.{elements_format, vars_format}
use elevator.Codec.Absorb.{at, step, read_item-word}
use elevator.Codec.AbsorbElements.{
  ElementFits, VarFits, loaded, block, Below, with_table, Ends, all_elements,
}

elements_format-longer :
    (es : List RelVar) (more : Bytes) → length more ≤ length (elements_format es more)
unfolding elements_format
elements_format-longer [] more = omega arith
elements_format-longer (e ∷ es) more = omega (
  arith,
  elements_format-longer es more,
  length-append e.value
      (0 ∷ (word 8 e.timestamp ++ (word 1 e.revision ++ elements_format es more))),
  length-append (word 8 e.timestamp) (word 1 e.revision ++ elements_format es more),
  length-append (word 1 e.revision) (elements_format es more),
)

-- Each variable takes a byte at least, so the fuel of the loop is enough.
pub vars_format-longer : (xs : List RelVarImpl) → length xs ≤ length (vars_format xs)
unfolding vars_format
vars_format-longer [] = omega arith
vars_format-longer (x ∷ xs) = omega (
  arith,
  vars_format-longer xs,
  elements_format-longer x.var (vars_format xs),
  length-word 2 x.relation_id,
  length-append (word 2 x.relation_id)
      (word 4 (length x.var) ++ elements_format x.var (vars_format xs)),
  length-append (word 4 (length x.var)) (elements_format x.var (vars_format xs)),
)

-- The relation id that starts a list of variables in the format, and what follows it.
abbrev pub first_rid : List RelVarImpl → ℕ
first_rid [] = invalid_rid
first_rid (x ∷ xs) = x.relation_id

abbrev pub behind_rid : List RelVarImpl → Bytes
behind_rid [] = []
behind_rid (x ∷ xs) = word 4 (length x.var) ++ elements_format x.var (vars_format xs)

pub vars_format-split :
    (xs : List RelVarImpl) → vars_format xs ≡ word 2 (first_rid xs) ++ behind_rid xs
unfolding vars_format
vars_format-split [] = sym (append-nil (word 2 invalid_rid))
vars_format-split (x ∷ xs) = refl

-- The loop over the relation ids puts the variables behind those that are there.
pub read_vars-format :
    (xs : List RelVarImpl) (fuel lo : ℕ) (c : VCookie) (t : VarTable) (m n : Bool)
    (es : List RelVarImpl)
    → length xs < fuel
    → Ascending lo xs
    → All VarFits xs
    → All (λ x. is_set x ≡ true) xs
    → Below lo es
    → Holds t es
    → Ends c
        (read_vars fuel (first_rid xs) (at (behind_rid xs) (with_table c t m n)))
        []
        (es ++ map loaded xs)
unfolding read_vars
read_vars-format [] zero lo c t m n es f a fits set below h = absurd (omega arith)
read_vars-format [] (suc fuel) lo c t m n es f a fits set below h = record {
  table = t;
  flag = m;
  var_flag = n;
  ends = refl;
  holds = rw append-nil h;
}
read_vars-format (x ∷ xs) zero lo c t m n es f a fits set below h = absurd (omega arith)
read_vars-format (x ∷ xs) (suc fuel) lo c t m n es f a (fit, fits) (set, sets) below h =
    let one = elements x.var set fit.each in
    let rest =
      read_vars-format xs fuel (suc x.relation_id) c one.table one.flag one.var_flag
        (es ++ (loaded x ∷ [])) (omega arith) a.2 fits sets below' one.holds in
    record {
      table = rest.table;
      flag = rest.flag;
      var_flag = rest.var_flag;
      ends = rw (ne→==_false x.relation_id invalid_rid fit.rid_valid) (
          step _ (read_item-word 4 (length x.var) _ _ fit.count)
            (step _ one.ends (step _ (next_rid one.table one.flag one.var_flag) rest.ends)));
      holds = rw (← append_assoc es (loaded x ∷ []) (map loaded xs)) rest.holds;
    }
  where
    below' : Below (suc x.relation_id) (es ++ (loaded x ∷ []))
    below' =
        All-append (λ y. y.relation_id < suc x.relation_id) es (loaded x ∷ [])
          (All-map_pred (λ y l. let p = a.0 in omega arith) es below) (omega arith, tt)

    elements :
        (vs : List RelVar)
        → not (is_empty vs) ≡ true
        → All ElementFits vs
        → Ends c
            (read_elements x.relation_id
              (length vs)
              (length vs)
              var_not_set
              (at (elements_format vs (vars_format xs)) (with_table c t m n)))
            (vars_format xs)
            (es ++ (block x.relation_id vs ∷ []))
    elements [] s k = cc
    elements (e ∷ vs) s k =
        all_elements c x.relation_id (length (e ∷ vs)) es
          (All-map_pred (λ y l. let p = a.0 in omega arith) es below) e vs t m n (vars_format xs)
          refl a.1 k h

    next_rid :
        (t' : VarTable) (m' n' : Bool)
        → read_item 2 (at (vars_format xs) (with_table c t' m' n'))
          ≡ next (first_rid xs) (at (behind_rid xs) (with_table c t' m' n'))
    next_rid t' m' n' =
        rw vars_format-split (read_item-word 2 (first_rid xs) _ _ (rid_small xs fits a.2))
      where
        rid_small :
            (ys : List RelVarImpl)
            → All VarFits ys
            → Ascending (suc x.relation_id) ys
            → first_rid ys < 2 ^ 16
        rid_small [] k b = omega arith
        rid_small (y ∷ ys) k b = b.1
