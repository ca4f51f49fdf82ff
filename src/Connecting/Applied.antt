-- ===== src/Connecting/Applied.antt =====
-- What a connection that was made has been through: the attributes kept before it was made
-- (src/driver/cpp/SnappyConnection.cpp).
use snappy_odbc.Common.{
  ℕ, ◌≡◌, ◌≢◌, ◌⊎◌, refl, sym, ap, ◌∙◌, inl, inr, Bool, true, false, Option, none, some, List, [],
  ◌∷◌, if◌then◌else◌, ℤ, pos, arith, Bool-cases, Option-cases, length,
}
use snappy_odbc.Driver.{SqlReturn, success, success_with_info, error, Outcome, returned, threw}
use snappy_odbc.Connecting.{
  Platform, IsolationLevel, ConnectionAttribute, access_mode, autocommit, connection_timeout,
  login_timeout, current_catalog, metadata_id, packet_size, quiet_mode, translate_lib,
  translate_option, txn_isolation, AttributeValue, AttributeMap, Connection, cleared, caught,
}
use snappy_odbc.Connecting.Apply.{
  answer, set_mode, set_commit, set_identifiers, set_isolation, from_source, to_source, loaded,
  set_library, apply, set_connection_attribute,
}
use snappy_odbc.Connecting.Attach.{
  Properties, connection_string, get_string_value, go_on, is_login_timeout, Connected,
  set_attributes, finish_attributes, fill_string, opened, connect_t, named, connect,
}
use snappy_odbc.Connecting.Attempts.{get_string_value-kept}
use snappy_odbc.Connecting.Laws.{StaysOpen, failed, set_attributes-open}

-- A setting succeeded and left the diagnostics as they were, or it failed.
abbrev Quiet : {N : Type 0} → Connection N → Connection N × Outcome SqlReturn → Type 0
Quiet c x = failed x.1 ≡ false → (x.1 ≡ returned success) × (x.0.diag ≡ c.diag)

module _ {N : Type 0} (api : Platform N) where
  answer-Quiet : (c : Connection N) (x : N × Outcome (Unit {0})) → Quiet c (answer c x)
  unfolding answer
  answer-Quiet c (n, returned _) h = (refl, refl)
  answer-Quiet c (n, threw t) h = cc

  set_mode-Quiet : (o : Option Bool) (c : Connection N) → Quiet c (set_mode api o c)
  unfolding set_mode
  set_mode-Quiet none c h = cc
  set_mode-Quiet (some b) c h = answer-Quiet c _ h

  set_commit-Quiet : (o : Option Bool) (c : Connection N) → Quiet c (set_commit api o c)
  unfolding set_commit
  set_commit-Quiet none c h = cc
  set_commit-Quiet (some b) c h = answer-Quiet c _ h

  set_identifiers-Quiet : (o : Option Bool) (c : Connection N) → Quiet c (set_identifiers api o c)
  unfolding set_identifiers
  set_identifiers-Quiet none c h = cc
  set_identifiers-Quiet (some b) c h = (refl, refl)

  set_isolation-Quiet :
      (o : Option IsolationLevel) (c : Connection N) → Quiet c (set_isolation api o c)
  unfolding set_isolation
  set_isolation-Quiet none c h = cc
  set_isolation-Quiet (some l) c h = answer-Quiet c _ h

  from_source-Quiet : (c : Connection N) (o : Outcome ℕ) → Quiet c (from_source api c o)
  unfolding from_source
  from_source-Quiet c (threw t) h = cc
  from_source-Quiet c (returned f) h = (refl, refl)

  to_source-Quiet : (n : ℕ) (c : Connection N) (o : Outcome ℕ) → Quiet c (to_source api n c o)
  unfolding to_source
  to_source-Quiet n c (threw t) h = cc
  to_source-Quiet n c (returned f) h = from_source-Quiet _ _ h

  loaded-Quiet : (c : Connection N) (o : Outcome ℕ) → Quiet c (loaded api c o)
  unfolding loaded
  loaded-Quiet c (threw t) h = cc
  loaded-Quiet c (returned n) h = to_source-Quiet n _ _ h

  apply-Quiet :
      (a : ConnectionAttribute) (v : AttributeValue) (c : Connection N) → Quiet c (apply api a v c)
  unfolding apply set_library
  apply-Quiet access_mode v c h = set_mode-Quiet _ c h
  apply-Quiet autocommit v c h = set_commit-Quiet _ c h
  apply-Quiet metadata_id v c h = set_identifiers-Quiet _ c h
  apply-Quiet txn_isolation v c h = set_isolation-Quiet _ c h
  apply-Quiet connection_timeout v c h = answer-Quiet c _ h
  apply-Quiet login_timeout v c h = answer-Quiet c _ h
  apply-Quiet current_catalog v c h = answer-Quiet c _ h
  apply-Quiet packet_size v c h = answer-Quiet c _ h
  apply-Quiet translate_lib v c h = loaded-Quiet _ _ h
  apply-Quiet quiet_mode v c h = (refl, refl)
  apply-Quiet translate_option v c h = (refl, refl)
  apply-Quiet _ v c h = cc

  -- Every attribute but the login timeout, in the order of the map.
  unfoldable pub apply_all : AttributeMap → Connection N → Connection N
  apply_all [] c = c
  apply_all ((a, v) ∷ m) c =
      apply_all m (if is_login_timeout a then c else (set_connection_attribute api a v c).0)

  -- Whether the map has an attribute that is handed over.
  unfoldable pub has_settings : AttributeMap → Bool
  has_settings [] = false
  has_settings ((a, v) ∷ m) = if is_login_timeout a then has_settings m else true

  go_on-step :
      (rest : SqlReturn → Connection N → Connection N × Outcome SqlReturn) (result : SqlReturn)
      (c : Connection N) (x : Connection N × Outcome SqlReturn)
      → Quiet c x
      → failed (go_on rest result x).1 ≡ false
      → (go_on rest result x ≡ rest result x.0) × (x.0.diag ≡ c.diag)
  unfolding go_on
  go_on-step rest result c (y, threw t) q h = cc
  go_on-step rest result c (y, returned error) q h = cc
  go_on-step rest result c (y, returned success) q h = (refl, (q refl).1)
  go_on-step rest result c (y, returned _) q h = absurd (ground (arith, (q refl).0))

  record Ran (m : AttributeMap) (result : SqlReturn) (c : Connection N) : Type 0 where
    applied : (set_attributes api m result c).0 ≡ apply_all m c
    kept_result : (set_attributes api m result c).1 ≡ returned result
    quiet :
        (has_settings m ≡ true) ⊎ (c.diag.last_error ≡ none)
        → (set_attributes api m result c).0.diag.last_error ≡ none

  set_attributes-Ran :
      (m : AttributeMap) (result : SqlReturn) (c : Connection N)
      → failed (returned result) ≡ false
      → failed (set_attributes api m result c).1 ≡ false
      → Ran m result c
  unfolding set_attributes apply_all has_settings set_connection_attribute
  set_attributes-Ran [] result c k h = record {
    applied = refl;
    kept_result = refl;
    quiet = λ w. elim w [ inl e ↦ cc | inr e ↦ e ];
  }
  set_attributes-Ran ((a, v) ∷ m) result c k h = elim (Bool-cases (is_login_timeout a)) [
    | inl e ↦
        let ih = set_attributes-Ran m result c k (rw e at h) in
        record {
          applied = rw e ih.applied;
          kept_result = rw e ih.kept_result;
          quiet = λ w. rw e (ih.quiet (rw e at w));
        }
    | inr e ↦
        let x : Connection N × Outcome SqlReturn = apply api a v (cleared c) in
        let s =
          go_on-step (set_attributes api m) result (cleared c) x (apply-Quiet a v (cleared c))
            (rw e at h) in
        let ih = set_attributes-Ran m result x.0 k (ap (λ y. failed y.1) (sym s.0) ∙ (rw e at h)) in
        let calm : x.0.diag.last_error ≡ none = ap (λ d. d.last_error) s.1 in
        record {
          applied = rw e (ap (λ y. y.0) s.0 ∙ ih.applied);
          kept_result = rw e (ap (λ y. y.1) s.0 ∙ ih.kept_result);
          quiet = λ w. rw e (ap (λ y. y.0.diag.last_error) s.0 ∙ ih.quiet (inr calm));
        }
  ]

  opened-threw :
      (rest : Connection N → Option (Connected N)) (out : Option (List ℕ)) (c : Connection N)
      (o : N × Outcome (Unit {0})) {k : Connected N}
      → opened api rest out c o ≡ some k
      → failed k.outcome ≡ false
      → (o.1 ≡ returned tt) × (rest (record c { native = o.0 }) ≡ some k)
  unfolding opened
  opened-threw rest out c (n, returned _) h f = (refl, h)
  opened-threw rest out c (n, threw t) h f = absurd (ground (arith, h, f))

  -- An attempt that did not fail: what the native connection answered, and what was left to do.
  connect_t-closed :
      (convert : Option (List ℕ → ℤ → List ℕ)) (server : List ℕ) (port : ℤ) (props : Properties)
      (out : Option (List ℕ)) (size : ℤ) (c : Connection N) {k : Connected N}
      → api.is_open c.native ≡ false
      → connect_t api convert server port props out size c ≡ some k
      → failed k.outcome ≡ false
      → ((api.open_at server port props c.native).1 ≡ returned tt)
        × (fill_string api convert
              (connection_string server port props)
              out
              size
              (record (cleared c) { native = (api.open_at server port props c.native).0 })
            ≡ some k)
  unfolding connect_t
  connect_t-closed convert server port props out size c closed h f =
      opened-threw (fill_string api convert (connection_string server port props) out size) out
        (cleared c) (api.open_at server port props c.native) (rw closed at h) f

  caught-ok :
      (c : Connection N) (o : Outcome SqlReturn)
      → (caught (c, o)).1 ≢ error
      → (failed o ≡ false)
        × (caught (c, o) ≡ (c, (caught (c, o)).1))
        × (o ≡ returned (caught (c, o)).1)
  unfolding caught
  caught-ok c (threw t) h = absurd (h refl)
  caught-ok c (returned error) h = absurd (h refl)
  caught-ok c (returned _) h = (refl, refl, refl)

  named-ok :
      (name : List ℕ) (x : Connection N × SqlReturn)
      → (named api name x).1 ≢ error
      → (named api name x ≡ (record x.0 { dsn = name }, x.1)) × (x.1 ≢ error)
  unfolding named
  named-ok name (c, error) h = absurd (h refl)
  named-ok name (c, _) h = (refl, h)

  -- What connect adds to connect_t, where it does not fail.
  connect-ok :
      (convert : Option (List ℕ → ℤ → List ℕ)) (server : List ℕ) (port : ℤ) (props : Properties)
      (name : List ℕ) (out : Option (List ℕ)) (size : ℤ) (c : Connection N)
      {r : Connection N × SqlReturn × List ℕ × Option ℤ}
      → connect api convert server port props name out size c ≡ some r
      → r.1 ≢ error
      → (k : Connected N) × (connect_t api convert server port props out size c ≡ some k)
        × (k.outcome ≡ returned r.1)
        × (failed k.outcome ≡ false)
        × (r.0 ≡ record k.conn { dsn = name })
  unfolding connect
  connect-ok convert server port props name out size c {r} h ok =
      elim (Option-cases (connect_t api convert server port props out size c)) [
        | inl n ↦ absurd (ground (arith, h, n))
        | inr (k, n) ↦
            let x : Connection N × SqlReturn = caught (k.conn, k.outcome) in
            let y : Connection N × SqlReturn = named api name x in
            let same_conn : r.0 ≡ y.0 = cc (h, n) in
            let same_result : r.1 ≡ y.1 = cc (h, n) in
            let w = named-ok name x (λ e. ok (same_result ∙ e)) in
            let z = caught-ok k.conn k.outcome w.1 in
            (
              k,
              n,
              cc (z.2, w.0, same_result),
              z.0,
              same_conn
                  ∙ ap (λ p. p.0) w.0
                  ∙ ap (λ (p : Connection N × SqlReturn). record p.0 { dsn = name }) z.1,
            )
      ]

-- SQLConnect asks for no string.
module _ {N : Type 0} (api : Platform N) (laws : StaysOpen api) where
  -- Where connect without an output string does not answer SQL_ERROR on a closed connection, the
  -- native connection was opened, the answer is SQL_SUCCESS, and the connection is the one opened
  -- after every attribute kept before, but for the login timeout, was handed over in the order of
  -- the map, with the DSN noted; it is open, for a native connection whose open() opens it and
  -- whose setters neither open nor close it.
  pub connect_applies_all :
      (convert : Option (List ℕ → ℤ → List ℕ)) (server : List ℕ) (port : ℤ) (props : Properties)
      (name : List ℕ) (size : ℤ) (c c' : Connection N) {r : SqlReturn} {text : List ℕ}
      {len : Option ℤ}
      → api.is_open c.native ≡ false
      → connect api convert server port props name none size c ≡ some (c', r, text, len)
      → r ≢ error
      → ((api.open_at server port props c.native).1 ≡ returned tt)
        × (r ≡ success)
        × (c'
            ≡ record (apply_all api c.attributes
                (record (cleared c) { native = (api.open_at server port props c.native).0 })) {
                  dsn = name;
                })
        × (api.is_open c'.native ≡ true)
  unfolding fill_string finish_attributes
  connect_applies_all convert server port props name size c c' {r} closed h ok =
      let (k, e, o, f, d) = connect-ok api convert server port props name none size c h ok in
      let (opened_well, filled) =
        connect_t-closed api convert server port props none size c {k = k} closed e f in
      let start : Connection N = record (cleared c) {
        native = (api.open_at server port props c.native).0;
      } in
      let m = c.attributes in
      let run : Connection N × Outcome SqlReturn = set_attributes api m success start in
      let conn_eq : k.conn ≡ run.0 = cc (filled) in
      let out_eq : k.outcome ≡ run.1 = cc (filled) in
      let ran = set_attributes-Ran api m success start refl (ap failed (sym out_eq) ∙ f) in
      let all : c' ≡ record (apply_all api m start) { dsn = name } =
        d ∙ ap (λ (p : Connection N). record p { dsn = name }) (conn_eq ∙ ran.applied) in
      (
        opened_well,
        cc (o, out_eq, ran.kept_result),
        all,
        ap (λ (p : Connection N). api.is_open p.native)
              (d ∙ ap (λ (p : Connection N). record p { dsn = name }) conn_eq)
            ∙ set_attributes-open api laws m success start
            ∙ laws.opens server port props c.native opened_well,
      )

module _ {N : Type 0} (api : Platform N) where
  -- Where connect answers SQL_SUCCESS_WITH_INFO because the output string was truncated, and some
  -- attribute other than the login timeout was kept before, the connection has no last error: what
  -- the warning was is lost.
  pub truncation_unreported :
      (convert : Option (List ℕ → ℤ → List ℕ)) (server : List ℕ) (port : ℤ) (props : Properties)
      (name out : List ℕ) (size : ℤ) (c c' : Connection N) {text : List ℕ} {len : Option ℤ}
      → api.is_open c.native ≡ false
      → has_settings api c.attributes ≡ true
      → connect api convert server port props name (some out) size c
        ≡ some (c', success_with_info, text, len)
      → c'.diag.last_error ≡ none
  unfolding fill_string finish_attributes
  truncation_unreported convert server port props name out size c c' closed others h =
      let (k, e, o, f, d) =
        connect-ok api convert server port props name (some out) size c h (λ x. cc) in
      let (_, filled) =
        connect_t-closed api convert server port props (some out) size c {k = k} closed e f in
      let start : Connection N = record (cleared c) {
        native = (api.open_at server port props c.native).0;
      } in
      let str = connection_string server port props in
      elim (Option-cases (get_string_value convert str (pos (length str)) (some out) size start)) [
        | inl n ↦ absurd (ground (arith, filled, n))
        | inr (g, n) ↦
            let q = get_string_value-kept convert str (pos (length str)) out size start n in
            let run : Connection N × Outcome SqlReturn =
              set_attributes api g.0.attributes g.1 g.0 in
            let conn_eq : k.conn ≡ run.0 = cc (filled, n) in
            let out_eq : k.outcome ≡ run.1 = cc (filled, n) in
            let ran =
              set_attributes-Ran api g.0.attributes g.1 g.0 q.2 (ap failed (sym out_eq) ∙ f) in
            ap (λ (p : Connection N). p.diag.last_error)
              (d ∙ ap (λ (p : Connection N). record p { dsn = name }) conn_eq)
            ∙ ran.quiet (inl (ap (has_settings api) q.1 ∙ others))
      ]
