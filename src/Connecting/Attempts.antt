-- ===== src/Connecting/Attempts.antt =====
-- Attempts to connect (src/driver/cpp/SnappyConnection.cpp): what a connection that was made has
-- been through, and what stands in the way of one.
use snappy_odbc.Common.{
  ℕ, ◌%◌, ◌≡◌, refl, sym, ap, ◌∙◌, inl, inr, Bool, true, false, Option, none, some, List, [], ℤ,
  pos, arith, Option-cases, length,
}
use snappy_odbc.Driver.{SqlReturn, success, error, connection_in_use, Outcome, returned, threw}
use snappy_odbc.Strings.{restrict_length, sqlsmallint}
use snappy_odbc.Connecting.{
  Platform, ConnectionAttribute, access_mode, autocommit, login_timeout, metadata_id, txn_isolation,
  AttributeValue, intv, AttributeMap, assign, Connection, cleared, refuse, caught,
}
use snappy_odbc.Connecting.Attach.{
  Properties, connection_string, copied, note_truncation, get_string_value, Connected, contents,
  set_attributes, finish_attributes, fill_string, opened, connect_t, named, connect,
}
use snappy_odbc.Connecting.Settings.{choose, tell, follow, set_attribute, integer}
use snappy_odbc.Connecting.Laws.{
  StaysOpen, failed, is_refused, assigned-failed, set_attributes-open,
}

pub masked_twice : (n : ℕ) → n % 4294967296 % 4294967296 ≡ n % 4294967296
masked_twice n = omega arith

-- The connection with one more attribute kept.
abbrev pub with_setting :
    {N : Type 0} → ConnectionAttribute → ℕ → Bool → Connection N → Connection N
with_setting a v ascii c = record c {
  attributes = assign a (record { ascii = ascii; word = v % 4294967296; chars = [] }) c.attributes;
}

module _ {N : Type 0} where
  note_truncation-kept :
      (b : Bool) (size : ℤ) (c : Connection N)
      → ((note_truncation b size c).0.native ≡ c.native)
        × ((note_truncation b size c).0.attributes ≡ c.attributes)
        × (failed (returned (note_truncation b size c).1) ≡ false)
  unfolding note_truncation
  note_truncation-kept true size c = (refl, refl, refl)
  note_truncation-kept false size c = (refl, refl, refl)

  pub get_string_value-kept :
      (convert : Option (List ℕ → ℤ → List ℕ)) (str : List ℕ) (len : ℤ) (out : List ℕ) (size : ℤ)
      (c : Connection N) {r : Connection N × SqlReturn × List ℕ × ℤ}
      → get_string_value convert str len (some out) size c ≡ some r
      → (r.0.native ≡ c.native) × (r.0.attributes ≡ c.attributes) × (failed (returned r.1) ≡ false)
  unfolding get_string_value
  get_string_value-kept convert str len out size c h =
      elim (Option-cases (copied convert str len out size)) [
        | inl e ↦ absurd (ground (arith, h, e))
        | inr (k, e) ↦ ground (arith, h, e, note_truncation-kept k.truncated size c)
      ]

module _ {N : Type 0} (api : Platform N) (laws : StaysOpen api) where
  opened-returned :
      (rest : Connection N → Option (Connected N)) (out : Option (List ℕ)) (c : Connection N)
      (o : N × Outcome (Unit {0}))
      → o.1 ≡ returned tt
      → opened api rest out c o ≡ rest (record c { native = o.0 })
  unfolding opened
  opened-returned rest out c (n, returned _) h = refl
  opened-returned rest out c (n, threw t) h = absurd (ground arith)

  -- What a run over the attributes of a connection leaves when a refused value is among them.
  record Stuck (k : Connected N) (c : Connection N) : Type 0 where
    fails : failed k.outcome ≡ true
    stays : api.is_open k.conn.native ≡ api.is_open c.native

  module _ (a : ConnectionAttribute) (v : AttributeValue) (refused : is_refused a (intv v) ≡ true)
      (m : AttributeMap) where
    finish_attributes-Stuck :
        (c : Connection N) (result : SqlReturn) (out : List ℕ) (len : Option ℤ)
        → c.attributes ≡ assign a v m
        → Stuck (finish_attributes api c result out len) c
    unfolding finish_attributes
    finish_attributes-Stuck c result out len e = record {
      fails =
          ap (λ l. failed (set_attributes api l result c).1) e
          ∙ assigned-failed api a v refused m result c;
      stays = set_attributes-open api laws c.attributes result c;
    }

    fill_string-Stuck :
        (convert : Option (List ℕ → ℤ → List ℕ)) (str : List ℕ) (out : Option (List ℕ)) (size : ℤ)
        (c : Connection N) {k : Connected N}
        → c.attributes ≡ assign a v m
        → fill_string api convert str out size c ≡ some k
        → Stuck k c
    unfolding fill_string
    fill_string-Stuck convert str none size c e h =
        let f = finish_attributes-Stuck c success [] none e in
        record { fails = cc (f.fails); stays = cc (f.stays) }
    fill_string-Stuck convert str (some out) size c e h =
        elim (Option-cases (get_string_value convert str (pos (length str)) (some out) size c)) [
          | inl n ↦ absurd (ground (arith, h, n))
          | inr (r, n) ↦
              let q = get_string_value-kept convert str (pos (length str)) out size c n in
              let f =
                finish_attributes-Stuck r.0 r.1 r.2 (some (restrict_length sqlsmallint false r.3))
                  (q.1 ∙ e) in
              record { fails = cc (f.fails, h, n); stays = cc (f.stays, h, n, q.0) }
        ]

    -- The whole attempt, once the native connection is open.
    connect_t-Stuck :
        (convert : Option (List ℕ → ℤ → List ℕ)) (server : List ℕ) (port : ℤ) (props : Properties)
        (out : Option (List ℕ)) (size : ℤ) (c : Connection N) {k : Connected N}
        → api.is_open c.native ≡ false
        → c.attributes ≡ assign a v m
        → (api.open_at server port props c.native).1 ≡ returned tt
        → connect_t api convert server port props out size c ≡ some k
        → (failed k.outcome ≡ true) × (api.is_open k.conn.native ≡ true)
    unfolding connect_t
    connect_t-Stuck convert server port props out size c {k} closed e ok h =
        let opening : N × Outcome (Unit {0}) = api.open_at server port props c.native in
        let c' : Connection N = record (cleared c) { native = opening.0 } in
        let str = connection_string server port props in
        let f = fill_string-Stuck convert str out size c' {k = k} e (
          sym (opened-returned (fill_string api convert str out size) out (cleared c) opening ok)
          ∙ (rw closed at h)) in
        (f.fails, f.stays ∙ laws.opens server port props c.native ok)

module _ {N : Type 0} (api : Platform N) where
  caught-failed :
      (c : Connection N) (o : Outcome SqlReturn)
      → failed o ≡ true
      → ((caught (c, o)).1 ≡ error) × ((caught (c, o)).0.native ≡ c.native)
  unfolding caught
  caught-failed c (threw t) h = (refl, refl)
  caught-failed c (returned error) h = (refl, refl)
  caught-failed c (returned _) h = cc

  named-native :
      (name : List ℕ) (x : Connection N × SqlReturn)
      → ((named api name x).0.native ≡ x.0.native) × ((named api name x).1 ≡ x.1)
  unfolding named
  named-native name (c, error) = (refl, refl)
  named-native name (c, _) = (refl, refl)

  -- A connection that is open is left as it is, and what connect would have stored is not.
  pub connect-open :
      (convert : Option (List ℕ → ℤ → List ℕ)) (server : List ℕ) (port : ℤ) (props : Properties)
      (name : List ℕ) (out : Option (List ℕ)) (size : ℤ) (c : Connection N)
      → api.is_open c.native ≡ true
      → connect api convert server port props name out size c
        ≡ some (
          record ((refuse connection_in_use (cleared c)).0) { dsn = [] },
          error,
          contents out,
          none,
        )
  unfolding connect connect_t caught named
  connect-open convert server port props name out size c h = rw h refl

  choose-refused :
      (a : ConnectionAttribute) (value : ℕ) (memory : List ℕ) (len : ℤ) (ascii is_open : Bool)
      → is_refused a (value % 4294967296) ≡ true
      → choose a value memory len ascii is_open ≡ some (integer ascii value)
  unfolding is_refused choose
  choose-refused access_mode value memory len ascii is_open h = refl
  choose-refused autocommit value memory len ascii is_open h = refl
  choose-refused metadata_id value memory len ascii is_open h = refl
  choose-refused txn_isolation value memory len ascii is_open h = refl
  choose-refused _ value memory len ascii is_open h = cc

  pub tell-closed :
      (a : ConnectionAttribute) (v : AttributeValue) (c : Connection N)
      → api.is_open c.native ≡ false
      → tell api a v c ≡ (c, success)
  unfolding tell
  tell-closed login_timeout v c h = refl
  tell-closed _ v c h = rw h

  -- A refused value is kept without a word while the connection is closed.
  pub set_attribute-refused_later :
      (a : ConnectionAttribute) (value : ℕ) (memory : List ℕ) (len : ℤ) (ascii : Bool)
      (c : Connection N)
      → api.is_open c.native ≡ false
      → is_refused a (value % 4294967296) ≡ true
      → set_attribute api a value memory len ascii c
        ≡ some (with_setting a value ascii (cleared c), success)
  unfolding set_attribute follow
  set_attribute-refused_later a value memory len ascii c closed h =
      rw (choose-refused a value memory len ascii (api.is_open c.native) h)
        (ap some (tell-closed a _ (with_setting a value ascii (cleared c)) closed))

module _ {N : Type 0} (api : Platform N) (laws : StaysOpen api) where
  -- With a refused value kept, opening the native connection is all that an attempt achieves.
  refused-connect :
      (convert : Option (List ℕ → ℤ → List ℕ)) (server : List ℕ) (port : ℤ) (props : Properties)
      (name : List ℕ) (out : Option (List ℕ)) (size : ℤ) (a : ConnectionAttribute)
      (v : AttributeValue) (m : AttributeMap) (c : Connection N)
      {r : Connection N × SqlReturn × List ℕ × Option ℤ}
      → is_refused a (intv v) ≡ true
      → api.is_open c.native ≡ false
      → c.attributes ≡ assign a v m
      → (api.open_at server port props c.native).1 ≡ returned tt
      → connect api convert server port props name out size c ≡ some r
      → (r.1 ≡ error) × (api.is_open r.0.native ≡ true)
  unfolding connect
  refused-connect convert server port props name out size a v m c {r} refused closed e ok h =
      elim (Option-cases (connect_t api convert server port props out size c)) [
        | inl n ↦ absurd (ground (arith, h, n))
        | inr (k, n) ↦
            let f =
              connect_t-Stuck api laws a v refused m convert server port props out size c {k = k}
                closed e ok n in
            let g = caught-failed api k.conn k.outcome f.0 in
            let w = named-native api name (caught (k.conn, k.outcome)) in
            (cc (h, n, w.1, g.0), cc (h, n, w.0, g.1, f.1))
      ]

  module _ (convert : Option (List ℕ → ℤ → List ℕ)) (server : List ℕ) (port : ℤ)
      (props : Properties) (name : List ℕ) (out : Option (List ℕ)) (size : ℤ) where
    -- On a closed connection SQLSetConnectAttr accepts, with SQL_SUCCESS, every value of the
    -- access mode, autocommit, metadata id and isolation attributes that connecting refuses. If
    -- the native connection then opens, connect answers SQL_ERROR and leaves it open, so that the
    -- next attempt answers SQL_ERROR with CONNECTION_IN_USE; for a native connection whose open()
    -- opens it and whose setters neither open nor close it.
    pub refused_setting_blocks :
        (a : ConnectionAttribute) (value : ℕ) (memory : List ℕ) (len : ℤ) (ascii : Bool)
        (c c₁ c₂ : Connection N) {r₁ r₂ : SqlReturn} {text : List ℕ} {text_len : Option ℤ}
        → is_refused a (value % 4294967296) ≡ true
        → api.is_open c.native ≡ false
        → (api.open_at server port props c.native).1 ≡ returned tt
        → set_attribute api a value memory len ascii c ≡ some (c₁, r₁)
        → connect api convert server port props name out size c₁ ≡ some (c₂, r₂, text, text_len)
        → (r₁ ≡ success)
          × (r₂ ≡ error)
          × (api.is_open c₂.native ≡ true)
          × (connect api convert server port props name out size c₂
              ≡ some (
                record ((refuse connection_in_use (cleared c₂)).0) { dsn = [] },
                error,
                contents out,
                none,
              ))
    refused_setting_blocks a value memory len ascii c c₁ c₂ refused closed ok setting attempt =
        let e = set_attribute-refused_later api a value memory len ascii c closed refused in
        let kept : c₁ ≡ with_setting a value ascii (cleared c) = cc (e, setting) in
        let v : AttributeValue = record { ascii = ascii; word = value % 4294967296; chars = [] } in
        let g =
          refused-connect convert server port props name out size a v c.attributes
            (with_setting a value ascii (cleared c))
            (ap (is_refused a) (masked_twice value) ∙ refused) closed refl ok
            (rw kept at attempt) in
        (cc (e, setting), g.0, g.1, connect-open api convert server port props name out size c₂ g.1)
