-- ===== src/Codec/AbsorbElements.antt =====
-- Deserialize reads the elements of one relation variable of the format.
use elevator.Base.{
  ℕ, ◌^◌, ◌<◌, ◌≡◌, ◌≢◌, refl, ap, ◌∙◌, sym, subst, arith, Bool, true, false, List, [], ◌∷◌, ◌++◌,
  ◌==◌, ◌||◌, if◌then◌else◌, length, Bytes, All, Bool-cases, inl, inr, ne→==_false, lt→ltb, ==-refl,
  ltb,
}
use mathlib.Core.List.{append_assoc, append-nil}
use elevator.Cookie.{VCookie, add_cookie_element, set_cookie_var}
use elevator.Cookie.Vars.{
  RelVar, RelVarImpl, VarTable, SetResult, AllocationType, alloc_type_last, alloc_type_linear,
  is_empty, is_first, invalid_rid, var_not_set, store_element, set_var, add_linear_element,
}
use elevator.Cookie.Vars.View.{view, elements, update, touch, fresh}
use elevator.Cookie.Vars.Refine.{Holds, table_small}
use elevator.Cookie.Vars.Linear.{Names, Names-in_range, add_linear_element-Holds, set_var-Names}
use elevator.Cookie.Vars.Update.{spec_set, set_var-Holds}
use elevator.Codec.Read.{Outcome, next, read_elements, store_element_at}
use elevator.Codec.Format.{elements_format}
use elevator.Codec.Absorb.{at, step, HasNoNul, read_item-word, read_text_item-text}

pub record ElementFits (e : RelVar) : Type 0 where
  pub no_nul : HasNoNul e.value
  pub not_empty : is_empty e.value ≡ false
  pub timestamp_fits : e.timestamp < 2 ^ 64
  pub revision_fits : e.revision < 2 ^ 8

pub record VarFits (x : RelVarImpl) : Type 0 where
  pub rid_valid : x.relation_id ≢ invalid_rid
  pub count : length x.var < 2 ^ 32
  pub each : All ElementFits x.var

-- What a variable is after it is read: it is marked as modified.
abbrev pub loaded : RelVarImpl → RelVarImpl
loaded x = record x { modified = true }

abbrev pub block : ℕ → List RelVar → RelVarImpl
block rid vs = record { relation_id = rid; modified = true; var = vs }

abbrev pub Below : ℕ → List RelVarImpl → Type 0
Below lo es = All (λ x. x.relation_id < lo) es

update_new :
    (es : List RelVarImpl) (rid : ℕ) (g : List RelVar → List RelVar)
    → Below rid es
    → update rid g es ≡ es ++ (touch g (fresh rid) ∷ [])
unfolding update
update_new [] rid g h = refl
update_new (x ∷ xs) rid g (l, h) =
    rw (ne→==_false x.relation_id rid (omega arith), lt→ltb x.relation_id rid l)
      (ap (λ t. x ∷ t) (update_new xs rid g h))

update_last :
    (es : List RelVarImpl) (rid : ℕ) (g : List RelVar → List RelVar) (vs : List RelVar)
    → Below rid es
    → update rid g (es ++ (block rid vs ∷ [])) ≡ es ++ (block rid (g vs) ∷ [])
unfolding update
update_last [] rid g vs h = rw (==-refl rid)
update_last (x ∷ xs) rid g vs (l, h) =
    rw (ne→==_false x.relation_id rid (omega arith), lt→ltb x.relation_id rid l)
      (ap (λ t. x ∷ t) (update_last xs rid g vs h))

elements-Below : (es : List RelVarImpl) (rid : ℕ) → Below rid es → elements rid es ≡ []
unfolding elements
elements-Below [] rid h = refl
elements-Below (x ∷ xs) rid (l, h) =
    rw (ne→==_false x.relation_id rid (omega arith)) (elements-Below xs rid h)

-- The first element of a new variable stands alone.
store_first :
    (alloc : AllocationType) (cnt : ℕ) (e : RelVar) → store_element alloc cnt e [] ≡ e ∷ []
unfolding store_element
store_first alloc_type_linear cnt e = elim (Bool-cases (cnt == 0)) [ inl p ↦ rw p | inr p ↦ rw p ]
store_first alloc_type_last cnt e = refl
store_first AllocationType.alloc_type_first cnt e = refl

-- The cookie with another table and other flags.
abbrev pub with_table : VCookie → VarTable → Bool → Bool → VCookie
with_table c t m n = record c { table = t; modified = m; rel_var_modified = n }

-- A parser that ends with `more` left and the variables `es` in the table.
pub record Ends (c : VCookie) (o : Outcome (Unit {0})) (more : Bytes) (es : List RelVarImpl)
    : Type 0 where
  pub table : VarTable
  pub flag : Bool
  pub var_flag : Bool
  pub ends : o ≡ next tt (at more (with_table c table flag var_flag))
  pub holds : Holds table es

module _ (c : VCookie) (rid cnt : ℕ) (es : List RelVarImpl) (below : Below rid es) where
  -- The elements after the first are appended by AddLinearElement.
  later_elements :
      (left : List RelVar) (vs : List RelVar) (v : ℕ) (t : VarTable) (m n : Bool) (more : Bytes)
      → All ElementFits left
      → Holds t (es ++ (block rid vs ∷ []))
      → Names t v rid
      → Ends c
          (read_elements rid cnt
            (length left)
            v
            (at (elements_format left more) (with_table c t m n)))
          more
          (es ++ (block rid (vs ++ left) ∷ []))
  unfolding read_elements elements_format
  later_elements [] vs v t m n more fits h named = record {
    table = t;
    flag = m;
    var_flag = n;
    ends = refl;
    holds = rw append-nil h;
  }
  later_elements (e ∷ left) vs v t m n more (f, fits) h named =
      let rest =
        later_elements left (vs ++ (e ∷ [])) v t' (m || (add_linear_element t v e).1)
          (n || (add_linear_element t v e).1) more fits holds' added.1 in
      record {
        table = rest.table;
        flag = rest.flag;
        var_flag = rest.var_flag;
        ends = step _ (read_text_item-text e.value _ _ f.no_nul) (
            step _ (read_item-word 8 e.timestamp _ _ f.timestamp_fits)
              (step _ (read_item-word 1 e.revision _ _ f.revision_fits) (step _ stored rest.ends)));
        holds = rw (← append_assoc vs (e ∷ []) left) rest.holds;
      }
    where
      added :
          Holds (add_linear_element t v e).0 (update rid (λ l. l ++ (e ∷ [])) (view t))
          × Names (add_linear_element t v e).0 v rid
          × ((add_linear_element t v e).1 ≡ true)
      added = add_linear_element-Holds t rid v e h.well_formed named

      v_set : v ≢ var_not_set
      v_set = omega (arith, Names-in_range t v rid h.well_formed named, table_small t h.well_formed)

      t' : VarTable
      t' = (add_linear_element t v e).0

      stored :
          store_element_at rid cnt v e (at (elements_format left more) (with_table c t m n))
          ≡ next v (
              at (elements_format left more) (
                with_table c t'
                  (m || (add_linear_element t v e).1)
                  (n || (add_linear_element t v e).1)))
      stored =
          unfold store_element_at in
          unfold add_cookie_element in rw (ne→==_false v var_not_set v_set)

      holds' : Holds t' (es ++ (block rid (vs ++ (e ∷ [])) ∷ []))
      holds' =
          subst (Holds t')
            (ap (update rid (λ l. l ++ (e ∷ []))) h.holds
              ∙ update_last es rid (λ l. l ++ (e ∷ [])) vs below)
            added.0

  -- The first element is stored by SetVar, and its VarId serves the others.
  pub all_elements :
      (e : RelVar) (left : List RelVar) (t : VarTable) (m n : Bool) (more : Bytes)
      → cnt ≡ length (e ∷ left)
      → rid < 2 ^ 16
      → All ElementFits (e ∷ left)
      → Holds t es
      → Ends c
          (read_elements rid cnt
            (length (e ∷ left))
            var_not_set
            (at (elements_format (e ∷ left) more) (with_table c t m n)))
          more
          (es ++ (block rid (e ∷ left) ∷ []))
  unfolding read_elements elements_format
  all_elements e left t m n more count narrow (f, fits) h =
      let rest = after left count fits in
      record {
        table = rest.table;
        flag = rest.flag;
        var_flag = rest.var_flag;
        ends = step _ (read_text_item-text e.value _ _ f.no_nul) (
            step _ (read_item-word 8 e.timestamp _ _ f.timestamp_fits)
              (step _ (read_item-word 1 e.revision _ _ f.revision_fits) (step _ stored rest.ends)));
        holds = rest.holds;
      }
    where
      alloc : AllocationType
      alloc = if ltb 1 cnt then alloc_type_linear else alloc_type_last

      r : SetResult
      r = set_var t rid e alloc cnt

      stored :
          store_element_at rid cnt var_not_set e
            (at (elements_format left more) (with_table c t m n))
          ≡ next r.var_id (
              at (elements_format left more) (with_table c r.table (m || r.stored) (n || r.stored)))
      stored = unfold store_element_at in unfold set_cookie_var in refl

      not_first : is_first alloc ≡ false
      not_first = elim (Bool-cases (ltb 1 cnt)) [ inl p ↦ rw p | inr p ↦ rw p ]

      none_yet : elements rid es ≡ []
      none_yet = elements-Below es rid below

      new_view : spec_set rid e alloc cnt (view t) ≡ es ++ (block rid (e ∷ []) ∷ [])
      new_view =
          unfold spec_set in
          rw (
            f.not_empty,
            not_first,
            h.holds,
            update_new es rid (store_element alloc cnt e) below,
            store_first alloc cnt e,
          )

      holds' : Holds r.table (es ++ (block rid (e ∷ []) ∷ []))
      holds' = subst (Holds r.table) new_view (set_var-Holds t rid h.well_formed e alloc cnt narrow)

      after :
          (left : List RelVar)
          → cnt ≡ length (e ∷ left)
          → All ElementFits left
          → Ends c
              (read_elements rid cnt (length left) r.var_id (
                at
                  (elements_format left more)
                  (with_table c r.table (m || r.stored) (n || r.stored))))
              more
              (es ++ (block rid (e ∷ left) ∷ []))
      after [] k fits = record {
        table = r.table;
        flag = m || r.stored;
        var_flag = n || r.stored;
        ends = refl;
        holds = holds';
      }
      after (e' ∷ left) k fits =
          later_elements (e' ∷ left) (e ∷ []) r.var_id r.table _ _ more fits holds'
            (named (lt→ltb 1 cnt (omega arith)))
        where
          named : ltb 1 cnt ≡ true → Names r.table r.var_id rid
          named p =
              let linear : alloc ≡ alloc_type_linear = rw p in
              subst
                (λ (a : AllocationType).
                  Names (set_var t rid e a cnt).table (set_var t rid e a cnt).var_id rid)
                (sym linear) (set_var-Names t rid e cnt h.well_formed f.not_empty)
