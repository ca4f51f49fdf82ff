-- ===== src/Connecting/Laws.antt =====
-- What is relied on of client::Connection, and what handing over attributes does to a connection
-- (src/driver/cpp/SnappyConnection.cpp).
use snappy_odbc.Common.{
  ℕ, ◌≡◌, refl, ap, ◌∙◌, inl, inr, Bool, true, false, Option, none, some, List, [], ◌∷◌, ◌==◌, ℤ,
  not, is_some, arith, Bool-cases,
}
use snappy_odbc.Driver.{SqlReturn, error, Outcome, returned, threw}
use snappy_odbc.Connecting.{
  Platform, IsolationLevel, TransactionAttribute, ConnectionAttribute, access_mode, autocommit,
  connection_timeout, login_timeout, current_catalog, metadata_id, packet_size, translate_lib,
  txn_isolation, attribute_code, AttributeValue, intv, AttributeMap, assign, Connection, cleared,
}
use snappy_odbc.Connecting.Apply.{
  answer, flag_value, isolation_of, set_mode, set_commit, set_identifiers, set_isolation,
  set_library, loaded, to_source, from_source, apply, set_connection_attribute,
}
use snappy_odbc.Connecting.Attach.{go_on, is_login_timeout, set_attributes}

-- open() that returns leaves the connection open, and no setter closes or opens it.
pub record StaysOpen {N : Type 0} (api : Platform N) : Type 0 where
  pub opens :
      (server : List ℕ) (port : ℤ) (props : List (List ℕ × List ℕ)) (n : N)
      → (api.open_at server port props n).1 ≡ returned tt
      → api.is_open (api.open_at server port props n).0 ≡ true
  pub transaction :
      (a : TransactionAttribute) (b : Bool) (n : N)
      → api.is_open (api.set_transaction_attribute a b n).0 ≡ api.is_open n
  pub receive : (t : ℕ) (n : N) → api.is_open (api.set_receive_timeout t n).0 ≡ api.is_open n
  pub send : (t : ℕ) (n : N) → api.is_open (api.set_send_buffer_size t n).0 ≡ api.is_open n
  pub login : (t : ℕ) (n : N) → api.is_open (api.set_connect_timeout t n).0 ≡ api.is_open n
  pub service : (n : N) → api.is_open (api.check_and_get_service n).0 ≡ api.is_open n
  pub begin :
      (l : IsolationLevel) (n : N) → api.is_open (api.begin_transaction l n).0 ≡ api.is_open n

-- An error or an exception.
abbrev pub failed : Outcome SqlReturn → Bool
failed (threw t) = true
failed (returned error) = true
failed (returned _) = false

-- The values that setAttribute keeps and setConnectionAttribute refuses.
unfoldable pub is_refused : ConnectionAttribute → ℕ → Bool
is_refused access_mode v = not (is_some (flag_value v))
is_refused autocommit v = not (is_some (flag_value v))
is_refused metadata_id v = not (is_some (flag_value v))
is_refused txn_isolation v = not (is_some (isolation_of v))
is_refused _ v = false

module _ {N : Type 0} (api : Platform N) where
  flag_refused : (o : Option Bool) → not (is_some o) ≡ true → o ≡ none
  flag_refused none h = refl
  flag_refused (some b) h = cc

  level_refused : (o : Option IsolationLevel) → not (is_some o) ≡ true → o ≡ none
  level_refused none h = refl
  level_refused (some b) h = cc

  -- Such a value is answered by an error.
  pub apply-error :
      (a : ConnectionAttribute) (v : AttributeValue) (c : Connection N)
      → is_refused a (intv v) ≡ true
      → (apply api a v c).1 ≡ returned error
  unfolding is_refused apply set_mode set_commit set_identifiers set_isolation
  apply-error access_mode v c h = rw (flag_refused _ h)
  apply-error autocommit v c h = rw (flag_refused _ h)
  apply-error metadata_id v c h = rw (flag_refused _ h)
  apply-error txn_isolation v c h = rw (level_refused _ h)
  apply-error _ v c h = cc

module _ {N : Type 0} (api : Platform N) (laws : StaysOpen api) where
  answer-open :
      (c : Connection N) (r : N × Outcome (Unit {0}))
      → api.is_open r.0 ≡ api.is_open c.native
      → api.is_open (answer c r).0.native ≡ api.is_open c.native
  unfolding answer
  answer-open c (n, returned _) h = h
  answer-open c (n, threw t) h = h

  set_mode-open :
      (o : Option Bool) (c : Connection N)
      → api.is_open (set_mode api o c).0.native ≡ api.is_open c.native
  unfolding set_mode
  set_mode-open none c = refl
  set_mode-open (some b) c = answer-open c _ (laws.transaction _ b c.native)

  set_commit-open :
      (o : Option Bool) (c : Connection N)
      → api.is_open (set_commit api o c).0.native ≡ api.is_open c.native
  unfolding set_commit
  set_commit-open none c = refl
  set_commit-open (some b) c = answer-open c _ (laws.transaction _ b c.native)

  set_identifiers-open :
      (o : Option Bool) (c : Connection N)
      → api.is_open (set_identifiers api o c).0.native ≡ api.is_open c.native
  unfolding set_identifiers
  set_identifiers-open none c = refl
  set_identifiers-open (some b) c = refl

  set_isolation-open :
      (o : Option IsolationLevel) (c : Connection N)
      → api.is_open (set_isolation api o c).0.native ≡ api.is_open c.native
  unfolding set_isolation
  set_isolation-open none c = refl
  set_isolation-open (some l) c = answer-open c _ (laws.begin l c.native)

  from_source-native :
      (c : Connection N) (o : Outcome ℕ) → (from_source api c o).0.native ≡ c.native
  unfolding from_source
  from_source-native c (threw t) = refl
  from_source-native c (returned f) = refl

  to_source-native :
      (handle : ℕ) (c : Connection N) (o : Outcome ℕ)
      → (to_source api handle c o).0.native ≡ c.native
  unfolding to_source
  to_source-native handle c (threw t) = refl
  to_source-native handle c (returned f) = from_source-native _ _

  loaded-native : (c : Connection N) (o : Outcome ℕ) → (loaded api c o).0.native ≡ c.native
  unfolding loaded
  loaded-native c (threw t) = refl
  loaded-native c (returned handle) = to_source-native handle _ _

  pub apply-open :
      (a : ConnectionAttribute) (v : AttributeValue) (c : Connection N)
      → api.is_open (apply api a v c).0.native ≡ api.is_open c.native
  unfolding apply set_library
  apply-open access_mode v c = set_mode-open _ c
  apply-open autocommit v c = set_commit-open _ c
  apply-open metadata_id v c = set_identifiers-open _ c
  apply-open txn_isolation v c = set_isolation-open _ c
  apply-open connection_timeout v c = answer-open c _ (laws.receive _ c.native)
  apply-open login_timeout v c = answer-open c _ (laws.login _ c.native)
  apply-open current_catalog v c = answer-open c _ (laws.service c.native)
  apply-open packet_size v c = answer-open c _ (laws.send _ c.native)
  apply-open translate_lib v c = ap api.is_open (loaded-native _ _)
  apply-open _ v c = refl

  go_on-open :
      (rest : SqlReturn → Connection N → Connection N × Outcome SqlReturn) (result : SqlReturn)
      (x : Connection N × Outcome SqlReturn)
      → ((r : SqlReturn) (c : Connection N)
          → api.is_open (rest r c).0.native ≡ api.is_open c.native)
      → api.is_open (go_on rest result x).0.native ≡ api.is_open x.0.native
  unfolding go_on
  go_on-open rest result (c, threw t) h = refl
  go_on-open rest result (c, returned error) h = refl
  go_on-open rest result (c, returned r) h = h _ c

  pub set_attributes-open :
      (m : AttributeMap) (result : SqlReturn) (c : Connection N)
      → api.is_open (set_attributes api m result c).0.native ≡ api.is_open c.native
  unfolding set_attributes set_connection_attribute
  set_attributes-open [] result c = refl
  set_attributes-open ((a, v) ∷ m) result c = elim (Bool-cases (is_login_timeout a)) [
    | inl e ↦ rw e (set_attributes-open m result c)
    | inr e ↦ rw e (
        go_on-open (set_attributes api m) result (apply api a v (cleared c)) (set_attributes-open m)
        ∙ apply-open a v (cleared c))
  ]

module _ {N : Type 0} (api : Platform N) where
  go_on-failed :
      (rest : SqlReturn → Connection N → Connection N × Outcome SqlReturn) (result : SqlReturn)
      (x : Connection N × Outcome SqlReturn)
      → ((r : SqlReturn) (c : Connection N) → failed (rest r c).1 ≡ true)
      → failed (go_on rest result x).1 ≡ true
  unfolding go_on
  go_on-failed rest result (c, threw t) h = refl
  go_on-failed rest result (c, returned error) h = refl
  go_on-failed rest result (c, returned r) h = h _ c

  go_on-error :
      (rest : SqlReturn → Connection N → Connection N × Outcome SqlReturn) (result : SqlReturn)
      (x : Connection N × Outcome SqlReturn)
      → x.1 ≡ returned error
      → failed (go_on rest result x).1 ≡ true
  unfolding go_on
  go_on-error rest result (c, threw t) h = refl
  go_on-error rest result (c, returned error) h = refl
  go_on-error rest result (c, returned r) h = absurd (ground arith)

  refused-timeout :
      (a : ConnectionAttribute) (v : ℕ) → is_refused a v ≡ true → is_login_timeout a ≡ false
  unfolding is_refused is_login_timeout
  refused-timeout login_timeout v h = cc
  refused-timeout _ v h = refl

  first-failed :
      (a : ConnectionAttribute) (v : AttributeValue)
      → is_refused a (intv v) ≡ true
      → (m : AttributeMap) (result : SqlReturn) (c : Connection N)
      → failed (set_attributes api ((a, v) ∷ m) result c).1 ≡ true
  unfolding set_attributes set_connection_attribute
  first-failed a v h m result c =
      rw (refused-timeout a (intv v) h)
        (go_on-error (set_attributes api m) result _ (apply-error api a v (cleared c) h))

  later-failed :
      (m : AttributeMap)
      → ((r : SqlReturn) (c : Connection N) → failed (set_attributes api m r c).1 ≡ true)
      → (b : ConnectionAttribute) (w : AttributeValue) (result : SqlReturn) (c : Connection N)
      → failed (set_attributes api ((b, w) ∷ m) result c).1 ≡ true
  unfolding set_attributes
  later-failed m h b w result c = elim (Bool-cases (is_login_timeout b)) [
    | inl e ↦ rw e (h result c)
    | inr e ↦ rw e (go_on-failed (set_attributes api m) result _ h)
  ]

  -- Once a refused value is in the map, going through the map fails.
  pub assigned-failed :
      (a : ConnectionAttribute) (v : AttributeValue)
      → is_refused a (intv v) ≡ true
      → (m : AttributeMap) (result : SqlReturn) (c : Connection N)
      → failed (set_attributes api (assign a v m) result c).1 ≡ true
  unfolding assign
  assigned-failed a v h [] result c = first-failed a v h [] result c
  assigned-failed a v h ((b, w) ∷ m) result c =
      elim (Bool-cases (attribute_code b == attribute_code a)) [
        | inl e ↦ rw e (first-failed a v h m result c)
        | inr e ↦ rw e (later-failed (assign a v m) (assigned-failed a v h m) b w result c)
      ]
