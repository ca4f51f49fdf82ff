-- ===== src/Parameters/Contents.antt =====
-- What binding leaves in m_execParams: bindParameter and bindParameters of
-- src/driver/cpp/SnappyStatement.cpp, for input parameters whose C types convert.
use snappy_odbc.Common.{
  ℕ, suc, false, not, ◌||◌, ◌-◌, true, if◌then◌else◌, if_yes, ◌∙◌, some_injective, ◌≡◌, refl, ap,
  Bool, Option, none, some, List, [], ◌∷◌, ◌++◌, ℤ, pos, length, set, get_elem?, arith,
}
use snappy_odbc.Types.{CType}
use snappy_odbc.Driver.{success}
use snappy_odbc.Parameters.{
  Parameter, input, Piece, Conversion, Bound, bind_value, bind_slot, piece_at, register_out,
  has_sql_type, bind_null, throws, needs_data, input_value, store_value,
}

-- A conversion that knows some C types, as the switch of bindParameter does.
abbrev pub partial_conversion {ℓ} :
    {V : Type ℓ}
    → (CType → Bool)
    → (CType → Bool → Piece → List V → List V)
    → V
    → (CType → ℤ → ℤ)
    → Conversion V
partial_conversion knows conv null_value noted = record {
  convert = λ c append piece old. if knows c then some (conv c append piece old) else none;
  null_value = null_value;
  noted_size = noted;
}

-- The parameter at index i, bound for input with a C type that is known and an SQL type that
-- convertTypeToSQLType converts.
pub record IsInput (knows : CType → Bool) (i : ℕ) (p : Parameter) : Type 0 where
  pub numbered : p.param_num ≡ suc i
  pub is_input : p.direction ≡ input
  pub ctype : CType
  pub typed : p.value_type ≡ some ctype
  pub known : knows ctype ≡ true
  pub sql_typed : has_sql_type p ≡ true

abbrev pub AreInputs : (CType → Bool) → ℕ → List Parameter → Type 0
AreInputs knows i [] = Unit
AreInputs knows i (p ∷ ps) = IsInput knows i p × AreInputs knows (suc i) ps

-- Binding such a parameter throws nothing.
pub throws-IsInput :
    {knows : CType → Bool} (at : ℤ → ℤ) (i : ℕ) (p : Parameter)
    → IsInput knows i p
    → throws at p ≡ false
unfolding throws
throws-IsInput at i p h = quiet (needs_data at p || p.is_bound) _ (no_exception (input_value p))
  where
    quiet : (c x : Bool) → x ≡ false → (if c then false else x) ≡ false
    quiet true x e = refl
    quiet false x e = e

    no_exception :
        (v : Option ℤ)
        → (elim v as (λ _. Bool) [ none ↦ not (has_sql_type p) | some a ↦ false ]) ≡ false
    no_exception none = ap not h.sql_typed
    no_exception (some a) = refl

module _ {ℓ} {A : Type ℓ} where
  pub get_elem?-append :
      (xs : List A) (y : A) (ys : List A) → get_elem? (xs ++ y ∷ ys) (length xs) ≡ some y
  get_elem?-append [] y ys = refl
  get_elem?-append (x ∷ xs) y ys = get_elem?-append xs y ys

  pub set-append :
      (xs : List A) (y v : A) (ys : List A) → set (xs ++ y ∷ ys) (length xs) v ≡ xs ++ v ∷ ys
  set-append [] y v ys = refl
  set-append (x ∷ xs) y v ys = ap (◌∷◌ x) (set-append xs y v ys)

pred_suc : (n : ℕ) → suc n - 1 ≡ n
pred_suc n = omega arith

module _ {ℓ} {V : Type ℓ} (knows : CType → Bool) (conv : CType → Bool → Piece → List V → List V)
    (null_value : V) (noted : CType → ℤ → ℤ) (at : ℤ → ℤ) where
  -- The contents that the switch leaves, and the parameter, for a value and a C type.
  unfoldable pub contents_with :
      ℤ → ℤ → Bool → Parameter → List V → Option ℤ → Option CType → List V
  contents_with vo lo append p old none c = null_value ∷ []
  contents_with vo lo append p old (some v) none = old
  contents_with vo lo append p old (some v) (some c) = conv c append (piece_at at p v vo lo) old

  unfoldable pub parameter_with : Parameter → Option ℤ → Option CType → Parameter
  parameter_with p none c = p
  parameter_with p (some v) none = p
  parameter_with p (some v) (some c) = record p { value_size = noted c p.value_size }

  abbrev pub contents_after : Bool → Parameter → List V → List V
  contents_after append p old = contents_with (pos 0) (pos 0) append p old p.value p.value_type

  abbrev pub parameter_after : Parameter → Parameter
  parameter_after p = parameter_with p p.value p.value_type

  slot_of :
      (p : Parameter) (xs : List (List V)) (old : List V) (ys : List (List V)) (b : Bound V)
      → IsInput knows (length xs) p
      → b.exec ≡ xs ++ old ∷ ys
      → get_elem? b.exec (p.param_num - 1) ≡ some old
  slot_of p xs old ys b h e = rw (h.numbered, pred_suc (length xs), e) (get_elem?-append xs old ys)

  stored :
      (p : Parameter) (xs : List (List V)) (old new : List V) (ys : List (List V)) (b : Bound V)
      → IsInput knows (length xs) p
      → b.exec ≡ xs ++ old ∷ ys
      → store_value p new b ≡ record b { exec = xs ++ new ∷ ys }
  unfolding store_value register_out
  stored p xs old new ys b h e =
      rw (h.is_input, h.numbered, pred_suc (length xs), e, set-append xs old new ys)

  value_of_input : (p : Parameter) → p.direction ≡ input → input_value p ≡ p.value
  unfolding input_value
  value_of_input p h = rw h

  bind_slot-after :
      (vo lo : ℤ) (append : Bool) (p : Parameter) (xs : List (List V)) (old : List V)
      (ys : List (List V)) (b : Bound V) (v : Option ℤ) (t : Option CType) (c : CType)
      → t ≡ some c
      → knows c ≡ true
      → IsInput knows (length xs) p
      → b.exec ≡ xs ++ old ∷ ys
      → bind_slot (partial_conversion knows conv null_value noted) at append vo lo p b old v t
        ≡ some (
          parameter_with p v t,
          record b { exec = xs ++ contents_with vo lo append p old v t ∷ ys },
          success,
        )
  unfolding bind_slot bind_null parameter_with contents_with
  bind_slot-after vo lo append p xs old ys b none t c k n h e =
      ap some (if_yes _ _ _ h.sql_typed ∙ rw (stored p xs old (null_value ∷ []) ys b h e))
  bind_slot-after vo lo append p xs old ys b (some v) none c k n h e = absurd (ground (arith, k))
  bind_slot-after vo lo append p xs old ys b (some v) (some c') c k n h e = rw (
    bind_slot,
    ap knows (some_injective k) ∙ n,
    stored p xs old (conv c' append (piece_at at p v vo lo) old) ys b h e,
  )

  pub bind_value-after :
      (vo lo : ℤ) (append : Bool) (p : Parameter) (xs : List (List V)) (old : List V)
      (ys : List (List V)) (b : Bound V)
      → IsInput knows (length xs) p
      → b.exec ≡ xs ++ old ∷ ys
      → bind_value (partial_conversion knows conv null_value noted) at append vo lo p b
        ≡ some (
          parameter_after p,
          record b { exec = xs ++ contents_with vo lo append p old p.value p.value_type ∷ ys },
          success,
        )
  unfolding bind_value
  bind_value-after vo lo append p xs old ys b h e =
      rw (slot_of p xs old ys b h e, value_of_input p h.is_input)
        (bind_slot-after vo lo append p xs old ys b p.value p.value_type h.ctype h.typed h.known h
          e)
