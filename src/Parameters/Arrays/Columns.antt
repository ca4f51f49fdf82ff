-- ===== src/Parameters/Arrays/Columns.antt =====
-- The sets that bindArrayOfParameters of src/driver/cpp/SnappyStatement.cpp makes, by column and
-- by row, of input parameters none of which asks for data.
use mathlib.Core.Path.{subst}
use mathlib.Core.List.{append_assoc, append-nil}
use snappy_odbc.Common.{
  if_yes, ◌<◌, lt→ltb, ℕ, zero, suc, ◌≡◌, refl, ap, sym, ◌∙◌, if_no, Bool, true, false, Option,
  some, List, [], ◌∷◌, ◌++◌, ℤ, pos, if◌then◌else◌, ◌+◌, ◌-◌, ◌*◌, ◌+ℤ◌, length, replicate, arith,
  map, All,
}
use snappy_odbc.Types.{CType}
use snappy_odbc.Driver.{SqlReturn, success}
use snappy_odbc.Parameters.{Parameter, Piece, Bound, bind_parameter, needs_data, resize}
use snappy_odbc.Parameters.Contents.{
  throws-IsInput, partial_conversion, IsInput, AreInputs, contents_with, parameter_after,
  bind_value-after,
}
use snappy_odbc.Parameters.Ready.{length-snoc}
use snappy_odbc.Parameters.Arrays.{
  ParamStatus, param_success, status_after, result_after, by_column, value_offset_of, next_offset,
  given_offset, bind_set, bind_sets, bind_array_of_parameters,
}

minus_zero : (n : ℕ) → n - 0 ≡ n
minus_zero n = omega arith

pub resize_empty {ℓ} : {V : Type ℓ} (n : ℕ) (d : V) → resize d n [] ≡ replicate n d
unfolding resize
resize_empty zero d = refl
resize_empty (suc n) d = ap (λ m. replicate m d) (minus_zero (suc n))

module _ {ℓ} {V : Type ℓ} (knows : CType → Bool) (conv : CType → Bool → Piece → List V → List V)
    (null_value : V) (noted : CType → ℤ → ℤ) (at : ℤ → ℤ) where
  -- A parameter without data at execution, whose value has its size.
  pub record IsPlainInput (p : Parameter) : Type 0 where
    pub present : needs_data at p ≡ false
    pub unbound : p.is_bound ≡ false
    pub sized : parameter_after knows conv null_value noted at p ≡ p

  abbrev pub contents_at : (Parameter → ℤ) → ℤ → Parameter → List V
  contents_at vo lo p =
      contents_with knows conv null_value noted at (vo p) lo false p [] p.value p.value_type

  abbrev bound_with : ℤ → ℤ → Parameter → List (List V) → List V → List (List V) → Bound V → Bound V
  bound_with vo lo p xs old ys b = record b {
    exec =
        xs
        ++ contents_with knows conv null_value noted at vo lo false p old p.value p.value_type ∷ ys;
  }

  bind_parameter-at :
      (vo lo : ℤ) (p : Parameter) (xs : List (List V)) (old : List V) (ys : List (List V))
      (b : Bound V)
      → IsInput knows (length xs) p
      → IsPlainInput p
      → b.exec ≡ xs ++ old ∷ ys
      → bind_parameter (partial_conversion knows conv null_value noted) at false vo lo p b
        ≡ some (p, bound_with vo lo p xs old ys b, success)
  unfolding bind_parameter
  bind_parameter-at vo lo p xs old ys b h k e =
      if_no _ _ _ k.present
      ∙ (if_no _ _ _ k.unbound
          ∙ (bind_value-after knows conv null_value noted at vo lo false p xs old ys b h e
              ∙ ap (λ q. some (q, bound_with vo lo p xs old ys b, success)) k.sized))

  bind_set-all :
      (vo : Parameter → ℤ) (lo : ℤ) (ps : List Parameter) (xs : List (List V)) (b : Bound V)
      (status : ParamStatus) (result : SqlReturn)
      → AreInputs knows (length xs) ps
      → All IsPlainInput ps
      → b.exec ≡ xs ++ replicate (length ps) []
      → bind_set (partial_conversion knows conv null_value noted) at vo lo ps b status result
        ≡ some (ps, record b { exec = xs ++ map (contents_at vo lo) ps }, status, result, false)
  unfolding bind_set status_after result_after
  bind_set-all vo lo [] xs b status result h k e =
      ap (λ x. some ([], record b { exec = x }, status, result, false)) e
  bind_set-all vo lo (p ∷ ps) xs b status result h k e =
      let new = contents_at vo lo p in
      rw (
        bind_parameter-at (vo p) lo p xs [] (replicate (length ps) []) b h.0 k.0 e,
        throws-IsInput at (length xs) p h.0,
        bind_set-all vo lo ps (xs ++ new ∷ [])
            (record b { exec = xs ++ new ∷ replicate (length ps) [] }) status result
            (rw (length-snoc xs new) h.1) k.1
            (sym (append_assoc xs (new ∷ []) (replicate (length ps) []))),
        append_assoc xs (new ∷ []) (map (contents_at vo lo) ps),
      )

  add_twice : (d : ℤ) (a b : ℕ) → (d +ℤ pos a) +ℤ pos b ≡ d +ℤ pos (a + b)
  add_twice d a b = ground arith

  one_more : (i s : ℕ) → i * s + s ≡ suc i * s
  one_more i s = ground arith

  if_tail :
      (c : Bool) (d : ℤ) (n : ℕ)
      → (d +ℤ pos (if c then 1 else n)) ≡ (if c then d +ℤ pos 1 else d +ℤ pos n)
  if_tail true d n = refl
  if_tail false d n = refl

  -- How far the offset moves from one set to the next.
  abbrev pub stride : ℕ → ℕ
  stride orientation = if by_column orientation then 1 else orientation

  -- The offset of the i-th set.
  abbrev pub offset_at : ℕ → ℤ → ℕ → ℤ
  offset_at orientation bind_offset i = bind_offset +ℤ pos (i * stride orientation)

  offset_at-next :
      (orientation : ℕ) (bind_offset : ℤ) (i : ℕ)
      → next_offset orientation (offset_at orientation bind_offset i)
        ≡ offset_at orientation bind_offset (suc i)
  unfolding next_offset
  offset_at-next orientation bind_offset i =
      sym (if_tail (by_column orientation) (offset_at orientation bind_offset i) orientation)
      ∙ (add_twice bind_offset (i * stride orientation) (stride orientation)
          ∙ ap (λ n. bind_offset +ℤ pos n) (one_more i (stride orientation)))

  -- The i-th set, and n sets from the i-th on.
  abbrev pub set_at : ℕ → ℤ → List Parameter → ℕ → List (List V)
  set_at orientation bind_offset ps i =
      map
        (contents_at
          (value_offset_of orientation i bind_offset (offset_at orientation bind_offset i))
          (offset_at orientation bind_offset i))
        ps

  abbrev pub sets_from : ℕ → ℤ → List Parameter → ℕ → ℕ → List (List (List V))
  sets_from orientation bind_offset ps i zero = []
  sets_from orientation bind_offset ps i (suc n) =
      set_at orientation bind_offset ps i ∷ sets_from orientation bind_offset ps (suc i) n

  bind_sets-all :
      (orientation : ℕ) (bind_offset : ℤ) (ps : List Parameter)
      → AreInputs knows 0 ps
      → All IsPlainInput ps
      → (n i : ℕ) (b : Bound V) (batch : List (List (List V))) (statuses : List ParamStatus)
        (result : SqlReturn)
      → b.exec ≡ []
      → bind_sets
          (partial_conversion knows conv null_value noted)
          at
          (length ps)
          orientation
          bind_offset
          n
          i
          (offset_at orientation bind_offset i)
          (record {
            fields = ps;
            slots = b;
            batch = batch;
            statuses = statuses;
            result = result;
            raised = false;
          })
        ≡ some (record {
          fields = ps;
          slots = record b { exec = [] };
          batch = batch ++ sets_from orientation bind_offset ps i n;
          statuses = statuses ++ replicate n param_success;
          result = result;
          raised = false;
        })
  unfolding bind_sets
  bind_sets-all orientation bind_offset ps h k zero i b batch statuses result e =
      rw (append-nil batch, append-nil statuses, e) refl
  bind_sets-all orientation bind_offset ps h k (suc n) i b batch statuses result e =
      rw
        (
          e,
          resize_empty {V = List V} (length ps) [],
          bind_set-all
              (value_offset_of orientation i bind_offset (offset_at orientation bind_offset i))
              (offset_at orientation bind_offset i) ps []
              (record b { exec = replicate (length ps) [] }) param_success result h k refl,
          offset_at-next orientation bind_offset i,
          bind_sets-all orientation bind_offset ps h k n (suc i) (record b { exec = [] })
              (batch ++ set_at orientation bind_offset ps i ∷ []) (statuses ++ param_success ∷ [])
              result refl,
          append_assoc batch (set_at orientation bind_offset ps i ∷ [])
              (sets_from orientation bind_offset ps (suc i) n),
          append_assoc statuses (param_success ∷ []) (replicate n param_success),
        )
        refl

  offset_at-first : (orientation : ℕ) (d : ℤ) → d ≡ offset_at orientation d 0
  offset_at-first orientation d = ground arith

  -- For input parameters numbered in order from 1, as many as the statement has, with C types that
  -- the conversion knows and SQL types that have a native type, that do not ask for data, are not
  -- bound yet and have their size, and no contents, binding an array of fewer than 2^32 sets, by
  -- column or by row, makes one set after another: the i-th reads each value i times its size (by
  -- column) or i times the structure size (by row) behind its address, plus the bind offset, and
  -- each length i SQLLENs (by column), or eight times i times the structure size bytes (by row),
  -- behind its address, plus eight times the bind offset; every status is SQL_PARAM_SUCCESS and
  -- the result SQL_SUCCESS.
  pub bind_array-sets :
      (orientation set_size : ℕ) (bind_offset_ptr : Option ℤ) (ps : List Parameter) (b : Bound V)
      → AreInputs knows 0 ps
      → All IsPlainInput ps
      → b.exec ≡ []
      → set_size < 4294967296
      → bind_array_of_parameters
          (partial_conversion knows conv null_value noted)
          at
          (length ps)
          set_size
          orientation
          bind_offset_ptr
          ps
          b
        ≡ some (record {
          fields = ps;
          slots = record b { exec = [] };
          batch = sets_from orientation (given_offset bind_offset_ptr) ps 0 set_size;
          statuses = replicate set_size param_success;
          result = success;
          raised = false;
        })
  unfolding bind_array_of_parameters
  bind_array-sets orientation set_size bind_offset_ptr ps b h k e m =
      let d = given_offset bind_offset_ptr in
      if_yes _ _ _ (lt→ltb set_size 4294967296 m)
      ∙ subst
          (λ offset.
            bind_sets (partial_conversion knows conv null_value noted) at (length ps) orientation d
              set_size 0 offset
              (record {
                fields = ps;
                slots = b;
                batch = [];
                statuses = [];
                result = success;
                raised = false;
              })
            ≡ some (record {
              fields = ps;
              slots = record b { exec = [] };
              batch = sets_from orientation d ps 0 set_size;
              statuses = replicate set_size param_success;
              result = success;
              raised = false;
            }))
          (sym (offset_at-first orientation d))
          (bind_sets-all orientation d ps h k set_size 0 b [] [] success e)
